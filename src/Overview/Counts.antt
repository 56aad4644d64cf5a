-- ===== src/Overview/Counts.antt =====
-- The numbers of web/src/app/page.tsx against the pages that show the flags and the clusters.
use vexil.Prelude.{
  ℕ, suc, ◌≤◌, ◌≡◌, refl, sym, ap, ◌∙◌, ◌↔◌, inl, inr, Bool, true, false, not, Option, none, some,
  List, [], ◌∷◌, ◌++◌, map, keep, keep_yes, keep_no, length, length-keep, length-map, arith, All,
  if◌then◌else◌, Bool-cases, maybe,
}
use vexil.Text.{Text, codes, text_eq}
use vexil.Text.Case.{CaseMapping}
use vexil.Text.Slice.{take, shorten_lem, length-take}
use vexil.Text.Decimal.{ℤ, pos, parse_int}
use vexil.Types.{
  FlagPhase, pending, active, rolling_out, failed, disabled, FeatureFlag, Cluster, AuditEvent,
  phase_text,
}
use vexil.Flags.Page.{Page, shown_phase, passes, filtered_flags}
use vexil.Flags.Page.Dialogs.{open_page}
use vexil.Clusters.Cards
use vexil.Clusters.Cards.{heading, is_connected, card, view}
use vexil.Text.Decimal.Print.{print, parse_int-print}
use vexil.Flags.Page.{Viewer}
use vexil.Overview.{is_active, stats, flag_row, event_row, recent_flags, recent_events}

-- The flags page with `Active` chosen for the phase, and nothing else.
abbrev pub active_only : Page
active_only = record open_page { filter_phase = codes "Active" }

keep-eq :
    {A : Type 0} (p q : A → Bool) (xs : List A) → ((x : A) → p x ≡ q x) → keep p xs ≡ keep q xs
keep-eq p q [] h = refl
keep-eq p q (x ∷ xs) h = elim (Bool-cases (p x)) [
  | inl yes_p ↦
      let yes_q : q x ≡ true = cc (h x) in
      rw (keep_yes p x xs yes_p, keep_yes q x xs yes_q) (ap (λ ys. x ∷ ys) (keep-eq p q xs h))
  | inr no_p ↦
      let no_q : q x ≡ false = cc (h x) in
      rw (keep_no p x xs no_p, keep_no q x xs no_q) (keep-eq p q xs h)
]

phase-active :
    (o : Option FlagPhase)
    → (if not (text_eq (shown_phase o) (codes "Active")) then false else true)
      ≡ maybe o false (λ phase. text_eq (phase_text phase) (codes "Active"))
unfolding text_eq
phase-active none = refl
phase-active (some pending) = refl
phase-active (some active) = refl
phase-active (some rolling_out) = refl
phase-active (some failed) = refl
phase-active (some disabled) = refl

-- The number of active flags on the dashboard is the number of flags that the flags page lists with
-- `Active` for the phase, and it is at most that of all flags.
stats-active_flags :
    (case : CaseMapping) (flags : List FeatureFlag) (clusters : List Cluster)
    → ((stats flags clusters).active_flags ≡ length (filtered_flags case active_only flags))
      × ((stats flags clusters).active_flags ≤ (stats flags clusters).total_flags)
unfolding stats filtered_flags passes
stats-active_flags case flags clusters =
    (ap length (keep-eq _ _ flags (λ f. sym (phase-active f.phase))), length-keep is_active flags)

length-keep_iff :
    (cs : List Cluster)
    → (length (keep is_connected cs) ≡ length cs) ↔ All (λ c. is_connected c ≡ true) cs
length-keep_iff [] = ((λ e. tt), λ h. refl)
length-keep_iff (c ∷ cs) =
    let (to, from) = length-keep_iff cs in
    elim (Bool-cases (is_connected c)) [
      | inl up ↦
          rw (keep_yes is_connected c cs up)
            ((λ e. (up, to (omega arith))), λ h. omega (arith, from h.1))
      | inr down ↦
          rw (keep_no is_connected c cs down)
            ((λ e. absurd (omega (arith, length-keep is_connected cs))), λ h. cc)
    ]

-- The green cards of the clusters page.
abbrev pub greens : Cards.View → ℕ
greens (Cards.cards cs) = length (keep (λ (c : Cards.Card). c.is_green) cs)
greens _ = 0

greens-card :
    (v : Viewer) (cs : List Cluster)
    → length (keep (λ (c : Cards.Card). c.is_green) (map (card v) cs))
      ≡ length (keep is_connected cs)
unfolding card
greens-card v [] = refl
greens-card v (c ∷ cs) =
    let later = greens-card v cs in
    elim (Bool-cases (is_connected c)) [
      | inl up ↦ rw (keep_yes is_connected c cs up, up) (ap suc later)
      | inr down ↦ rw (keep_no is_connected c cs down, down) later
    ]

greens-view :
    (v : Viewer) (cs : List Cluster) → greens (view v (some cs)) ≡ length (keep is_connected cs)
unfolding view
greens-view v [] = refl
greens-view v (c ∷ cs) = greens-card v (c ∷ cs)

heading_number :
    (n m : ℕ)
    → print n ++ codes " connected clusters" ≡ print m ++ codes " connected clusters"
    → n ≡ m
heading_number n m e =
    let rest = codes " connected clusters" in
    let same : some (pos n) ≡ some (pos m) =
      sym (parse_int-print n rest (ground arith))
      ∙ ap parse_int e
      ∙ parse_int-print m rest (ground arith) in
    cc

-- The number of clusters on the dashboard is that of the green cards of the clusters page. It is the
-- number in the heading of that page, which calls all its clusters connected, exactly if they are.
pub stats-clusters_iff :
    (v : Viewer) (flags : List FeatureFlag) (clusters : List Cluster)
    → ((stats flags clusters).clusters ≡ greens (view v (some clusters)))
      × ((heading (some clusters)
            ≡ print (stats flags clusters).clusters ++ codes " connected clusters")
          ↔ All (λ c. is_connected c ≡ true) clusters)
unfolding stats heading
stats-clusters_iff v flags clusters =
    let (to, from) = length-keep_iff clusters in
    (
      sym (greens-view v clusters),
      (
        (λ e. to (sym (heading_number _ _ e))),
        λ h. ap (λ n. print n ++ codes " connected clusters") (sym (from h)),
      ),
    )

values_short : (flags : List FeatureFlag) → All (λ row. length row.value ≤ 23) (map flag_row flags)
unfolding flag_row
values_short [] = tt
values_short (f ∷ flags) = ((shorten_lem 20 f.default_value).0, values_short flags)

-- The dashboard lists at most six flags, with values of at most 23 code units, and at most eight
-- events.
recent_bounds :
    (elapsed : Text → Option ℤ) (flags : List FeatureFlag) (audit : List AuditEvent)
    → (length (recent_flags flags) ≤ 6)
      × All (λ row. length row.value ≤ 23) (recent_flags flags)
      × (length (recent_events elapsed audit) ≤ 8)
unfolding recent_flags recent_events
recent_bounds elapsed flags audit = (
  omega (arith, length-map flag_row (take 6 flags), length-take 6 flags),
  values_short (take 6 flags),
  omega (arith, length-map (event_row elapsed) (take 8 audit), length-take 8 audit),
)
