-- ===== src/Flags/Page/Table/Rows.antt =====
-- The rows of the table of web/src/app/flags/page.tsx.
use vexil.Prelude.{
  ◌≤◌, ◌≡◌, ◌↔◌, refl, ap, ◌∙◌, inl, inr, true, false, Option, none, some, List, [], ◌∷◌, map, keep,
  keep_yes, length, length-keep, length-map, arith, is_empty, All, if◌then◌else◌, Bool-cases,
}
use vexil.Text.{Text}
use vexil.Text.Case.{CaseMapping}
use vexil.Text.Parts.{Lacks, cut_injective}
use vexil.Text.Slice.{shorten_lem}
use vexil.Text.Decimal.{ℤ}
use vexil.Types.{FeatureFlag}
use vexil.Flags.Page.{Page, passes, filtered_flags}
use vexil.Flags.Page.Table.{Row, row, has_filters, View, table, count_note, view}

-- The three fields above the table are empty.
abbrev pub IsUnfiltered : Page → Type 0
IsUnfiltered p = (p.search ≡ []) × (p.filter_type ≡ []) × (p.filter_phase ≡ [])

is_empty_iff : (s : Text) → (is_empty s ≡ true) ↔ (s ≡ [])
is_empty_iff [] = ((λ e. refl), λ e. refl)
is_empty_iff (c ∷ s) = ((λ e. cc), λ e. cc)

has_filters_iff : (p : Page) → IsUnfiltered p ↔ (has_filters p ≡ false)
has_filters_iff p =
    let a = is_empty_iff p.search in
    let b = is_empty_iff p.filter_type in
    let c = is_empty_iff p.filter_phase in
    (
      (λ (s, t, u). rw (a.1 s, b.1 t, c.1 u) refl),
      λ h. (a.0 (ground arith), b.0 (ground arith), c.0 (ground arith)),
    )

module _ (case : CaseMapping) (elapsed : Text → Option ℤ) where
  -- A table of the flags that pass the filters of the page, with short values. Exactly under a filter a
  -- note gives the numbers of rows and of flags; without one, every flag has its row.
  pub record Accounts (p : Page) (flags : List FeatureFlag) (v : View) : Type 0 where
    pub note : Option Text
    pub rows : List Row
    pub shape : v ≡ table note rows
    pub bound : length rows ≤ length flags
    pub short : All (λ r. length r.value ≤ 28) rows
    pub selected : rows ≡ map (row elapsed) (filtered_flags case p flags)
    pub unfiltered : IsUnfiltered p → (note ≡ none) × (rows ≡ map (row elapsed) flags)
    pub filtered : ¬ IsUnfiltered p → note ≡ some (count_note (length rows) (length flags))

  keep_all :
      (p : Page) (fs : List FeatureFlag) → has_filters p ≡ false → keep (passes case p) fs ≡ fs
  unfolding passes
  keep_all p [] h = refl
  keep_all p (f ∷ fs) h =
      let a : is_empty p.search ≡ true = ground arith in
      let b : is_empty p.filter_type ≡ true = ground arith in
      let c : is_empty p.filter_phase ≡ true = ground arith in
      keep_yes (passes case p) f fs (unfold passes in rw (a, b, c) refl)
      ∙ ap (λ gs. f ∷ gs) (keep_all p fs h)

  values_short : (fs : List FeatureFlag) → All (λ r. length r.value ≤ 28) (map (row elapsed) fs)
  unfolding row
  values_short [] = tt
  values_short (f ∷ fs) = ((shorten_lem 25 f.default_value).0, values_short fs)

  -- Of flags that are there, the page shows a table: a row for each flag that passes the filters, in the
  -- order of the flags, so at most as many rows as flags, with values of at most 28 code units. If the
  -- search and both selects are empty, there is no note and every flag has a row; otherwise a note
  -- gives the number of rows and the number of flags.
  pub view-Accounts :
      (p : Page) (f : FeatureFlag) (fs : List FeatureFlag)
      → Accounts p (f ∷ fs) (view case elapsed p (some (f ∷ fs)))
  unfolding view filtered_flags
  view-Accounts p f fs =
      let kept = keep (passes case p) (f ∷ fs) in
      let same = length-map (row elapsed) kept in
      record {
        note = if has_filters p then some (count_note (length kept) (length (f ∷ fs))) else none;
        rows = map (row elapsed) kept;
        shape = refl;
        bound = omega (arith, same, length-keep (passes case p) (f ∷ fs));
        short = values_short kept;
        selected = refl;
        unfiltered = λ h.
            let all = (has_filters_iff p).0 h in
            (rw all refl, ap (map (row elapsed)) (keep_all p (f ∷ fs) all));
        filtered = λ h. elim (Bool-cases (has_filters p)) [
          | inl some_filter ↦ rw (some_filter, same) refl
          | inr all ↦ absurd (h ((has_filters_iff p).1 all))
        ];
      }

  -- Rows of flags in different places have different keys, if the names of the clusters and
  -- namespaces hold no slash.
  row-key_injective :
      (f g : FeatureFlag)
      → Lacks b'/' f.cluster_id
      → Lacks b'/' g.cluster_id
      → Lacks b'/' f.namespace
      → Lacks b'/' g.namespace
      → (row elapsed f).key ≡ (row elapsed g).key
      → (f.cluster_id ≡ g.cluster_id) × (f.namespace ≡ g.namespace) × (f.name ≡ g.name)
  unfolding row
  row-key_injective f g a b c d e =
      let (cluster, rest) = cut_injective b'/' f.cluster_id g.cluster_id _ _ a b e in
      let (namespace, name) = cut_injective b'/' f.namespace g.namespace f.name g.name c d rest in
      (cluster, namespace, name)
