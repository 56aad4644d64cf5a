-- ===== src/Flags/Page/Filter.antt =====
-- Which flags the filters of web/src/app/flags/page.tsx let through.
use vexil.Prelude.{
  ◌≡◌, refl, ◌↔◌, subst, ◌⊎◌, inl, inr, Bool, true, false, not, ◌&&◌, Option, none, some, List, [],
  ◌∷◌, maybe, arith, is_empty, In, In-keep, keep-In, if◌then◌else◌,
}
use vexil.Text.{Text, text_eq, text_eq_iff}
use vexil.Text.Case.{CaseMapping}
use vexil.Text.Search.{Contains, includes_sound, includes-append}
use vexil.Types.{FeatureFlag, type_text}
use vexil.Flags.Page.{Page, shown_phase, holds, passes, filtered_flags}

pub is_empty_iff : (s : Text) → (is_empty s ≡ true) ↔ (s ≡ [])
is_empty_iff [] = ((λ e. refl), λ e. refl)
is_empty_iff (c ∷ s) = ((λ e. cc), λ e. cc)

pub set_iff :
    (s t : Text) → ((not (is_empty s) && not (text_eq t s)) ≡ false) ↔ ((s ≡ []) ⊎ (t ≡ s))
set_iff [] t = ((λ e. inl refl), λ e. refl)
set_iff (c ∷ s) t = ground (arith, text_eq_iff t (c ∷ s))

all_pass :
    (a b c : Bool)
    → ((if a then false else if b then false else if c then false else true) ≡ true)
      ↔ ((a ≡ false) × (b ≡ false) × (c ≡ false))
all_pass a b c = ground arith

none_of :
    (a b c d : Bool)
    → ((not a && (not b && (not c && not d))) ≡ false)
    → (a ≡ true) ⊎ ((b ≡ true) ⊎ ((c ≡ true) ⊎ (d ≡ true)))
none_of a b c d h = ground arith

some_of :
    (a b c d : Bool)
    → (a ≡ true) ⊎ ((b ≡ true) ⊎ ((c ≡ true) ⊎ (d ≡ true)))
    → (not a && (not b && (not c && not d))) ≡ false
some_of a b c d h = ground arith

module _ (case : CaseMapping) where
  -- The search text stands somewhere in `s`, both in lower case.
  abbrev pub Mentions : Text → Text → Type 0
  Mentions search s = Contains (case.to_lower s) (case.to_lower search)

  pub holds_iff : (q s : Text) → (holds case q s ≡ true) ↔ Mentions q s
  unfolding holds
  holds_iff q s = (
    includes_sound (case.to_lower s) (case.to_lower q),
    λ (before, after, e). rw e (includes-append before (case.to_lower q) after),
  )

  -- The flag meets the three filters, those that are set.
  pub record Passes (p : Page) (f : FeatureFlag) : Type 0 where
    pub mentioned :
        (p.search ≡ [])
        ⊎ (Mentions p.search f.name
            ⊎ (((d : Text) × (f.description ≡ some d) × Mentions p.search d)
                ⊎ Mentions p.search f.namespace))
    pub typed : (p.filter_type ≡ []) ⊎ (type_text f.type ≡ p.filter_type)
    pub phased : (p.filter_phase ≡ []) ⊎ (shown_phase f.phase ≡ p.filter_phase)

  described_iff :
      (q : Text) (o : Option Text)
      → (maybe o false (holds case q) ≡ true) ↔ ((d : Text) × (o ≡ some d) × Mentions q d)
  described_iff q none = ((λ e. cc), λ (d, e, m). cc)
  described_iff q (some d) = (
    (λ e. (d, refl, (holds_iff q d).0 e)),
    λ (d', e, m). let same : d' ≡ d = cc in (holds_iff q d).1 (subst (Mentions q) same m),
  )

  mentioned_iff :
      (q : Text) (f : FeatureFlag)
      → ((not (is_empty q)
            && (not (holds case q f.name)
                && (not (maybe f.description false (holds case q))
                    && not (holds case q f.namespace))))
          ≡ false)
        ↔ ((q ≡ [])
            ⊎ (Mentions q f.name
                ⊎ (((d : Text) × (f.description ≡ some d) × Mentions q d)
                    ⊎ Mentions q f.namespace)))
  mentioned_iff q f =
      let (n0, n1) = holds_iff q f.name in
      let (d0, d1) = described_iff q f.description in
      let (s0, s1) = holds_iff q f.namespace in
      let (e0, e1) = is_empty_iff q in
      (
        (λ e. elim (none_of _ _ _ _ e) [
          | inl h ↦ inl (e0 h)
          | inr (inl h) ↦ inr (inl (n0 h))
          | inr (inr (inl h)) ↦ inr (inr (inl (d0 h)))
          | inr (inr (inr h)) ↦ inr (inr (inr (s0 h)))
        ]),
        λ m. some_of _ _ _ _ (elim m [
          | inl h ↦ inl (e1 h)
          | inr (inl h) ↦ inr (inl (n1 h))
          | inr (inr (inl h)) ↦ inr (inr (inl (d1 h)))
          | inr (inr (inr h)) ↦ inr (inr (inr (s1 h)))
        ]),
      )

  passes_iff : (p : Page) (f : FeatureFlag) → (passes case p f ≡ true) ↔ Passes p f
  unfolding passes
  passes_iff p f =
      let (m0, m1) = mentioned_iff p.search f in
      let (t0, t1) = set_iff p.filter_type (type_text f.type) in
      let (h0, h1) = set_iff p.filter_phase (shown_phase f.phase) in
      (
        (λ e.
            let (a, b, c) = (all_pass _ _ _).0 e in
            record { mentioned = m0 a; typed = t0 b; phased = h0 c }),
        λ r. (all_pass _ _ _).1 (m1 r.mentioned, t1 r.typed, h1 r.phased),
      )

  -- The page lists exactly the flags that meet its filters, of those that the server sent.
  pub filtered_flags_iff :
      (p : Page) (flags : List FeatureFlag) (f : FeatureFlag)
      → In f (filtered_flags case p flags) ↔ (In f flags × Passes p f)
  unfolding filtered_flags
  filtered_flags_iff p flags f = (
    (λ m. let (h, e) = In-keep (passes case p) flags m in (h, (passes_iff p f).0 e)),
    λ (m, r). keep-In (passes case p) flags m ((passes_iff p f).1 r),
  )
