-- ===== src/Flags/Labels.antt =====
-- The label selector as the text `k=v,k=v`, which both forms of web/src/components/flags read with
-- `Object.fromEntries(s.split(',').map((l) => l.trim().split('=')))`, and which
-- EditFlagModal.tsx writes.
use vexil.Prelude.{
  ℕ, ◌≡◌, refl, sym, ap, ◌∙◌, ◌≢◌, false, Option, none, some, List, [], ◌∷◌, ◌++◌, map, reverse,
  append-nil, append_assoc, arith, All, All-append,
}
use mathlib.Core.List.{reverse-cons}
use vexil.Text.{Text, text_eq, text_eq_iff, lookup, insert, DistinctKeys}
use vexil.Text.Parts.{split, join, Lacks, split-join}
use vexil.Text.Trim.{is_space, trim, IsTrimmed, StartsBare, trim_of_IsTrimmed}

-- `Object.fromEntries`, onto the entries so far.
unfoldable pub from_entries {ℓ} : {V : Type ℓ} → List (Text × V) → List (Text × V) → List (Text × V)
unfolding insert
from_entries m [] = m
from_entries m ((k, v) ∷ es) = from_entries (insert k v m) es

-- An array of strings read as an entry: its first two elements, the second perhaps undefined. A
-- split has one element at least.
abbrev pub as_entry : List Text → Text × Option Text
as_entry [] = ([], none)
as_entry (k ∷ []) = (k, none)
as_entry (k ∷ (v ∷ rest)) = (k, some v)

unfoldable pub read_label : Text → Text × Option Text
read_label l = as_entry (split b'=' (trim l))

unfoldable pub read_labels : Text → List (Text × Option Text)
unfolding from_entries read_label
read_labels s = from_entries [] (map read_label (split b',' s))

abbrev pub print_label : Text × Text → Text
print_label e = e.0 ++ b'=' ∷ e.1

unfoldable pub print_labels : List (Text × Text) → Text
print_labels m = join b',' (map print_label m)

-- A key or value as Kubernetes takes it, as far as it matters here: no white space, comma or
-- equality sign.
abbrev pub IsPlainCode : ℕ → Type 0
IsPlainCode c = (is_space c ≡ false) × (c ≢ b',') × (c ≢ b'=')

abbrev pub IsPlain : Text → Type 0
IsPlain = All IsPlainCode

abbrev pub IsPlainLabel : Text × Text → Type 0
IsPlainLabel e = IsPlain e.0 × IsPlain e.1

abbrev IsBare : Text → Type 0
IsBare = All (λ c. is_space c ≡ false)

IsBare-StartsBare : (s : Text) → IsBare s → StartsBare s
IsBare-StartsBare [] h = tt
IsBare-StartsBare (c ∷ s) h = h.0

All-reverse {κ} : (P : ℕ → Type κ) (s : Text) → All P s → All P (reverse s)
All-reverse P [] h = tt
All-reverse P (c ∷ s) h =
    rw (reverse-cons c s) (All-append P (reverse s) (c ∷ []) (All-reverse P s h.1) (h.0, tt))

plain-IsBare : (s : Text) → IsPlain s → IsBare s
plain-IsBare [] h = tt
plain-IsBare (c ∷ s) h = (h.0.0, plain-IsBare s h.1)

plain_no_comma : (s : Text) → IsPlain s → Lacks b',' s
plain_no_comma [] h = tt
plain_no_comma (c ∷ s) h = (h.0.1, plain_no_comma s h.1)

plain_no_equals : (s : Text) → IsPlain s → Lacks b'=' s
plain_no_equals [] h = tt
plain_no_equals (c ∷ s) h = (h.0.2, plain_no_equals s h.1)

print_label-IsBare : (e : Text × Text) → IsPlainLabel e → IsBare (print_label e)
print_label-IsBare (k, v) h =
    All-append (λ c. is_space c ≡ false) k (b'=' ∷ v) (plain-IsBare k h.0)
      (unfold is_space in refl, plain-IsBare v h.1)

print_label-Lacks : (e : Text × Text) → IsPlainLabel e → Lacks b',' (print_label e)
print_label-Lacks (k, v) h =
    All-append (λ c. c ≢ b',') k (b'=' ∷ v) (plain_no_comma k h.0)
      (omega arith, plain_no_comma v h.1)

read_label-print_label :
    (e : Text × Text) → IsPlainLabel e → read_label (print_label e) ≡ (e.0, some e.1)
unfolding read_label join
read_label-print_label (k, v) h =
    let bare = print_label-IsBare (k, v) h in
    let trimmed : IsTrimmed (print_label (k, v)) =
      (IsBare-StartsBare _ bare, IsBare-StartsBare _ (All-reverse _ _ bare)) in
    let parts = split-join b'=' k (v ∷ []) (plain_no_equals k h.0, (plain_no_equals v h.1, tt)) in
    rw (trim_of_IsTrimmed _ trimmed) (ap as_entry parts)

lookup-append :
    {V : Type 0} (k : Text) (m : List (Text × V)) (e : Text × V)
    → lookup k m ≡ none
    → text_eq e.0 k ≡ false
    → lookup k (m ++ e ∷ []) ≡ none
unfolding lookup
lookup-append k [] (j, v) h d = rw d
lookup-append k ((i, w) ∷ m) e h d = ground (arith, lookup-append k m e)

insert_new :
    {V : Type 0} (k : Text) (v : V) (m : List (Text × V))
    → lookup k m ≡ none
    → insert k v m ≡ m ++ (k, v) ∷ []
unfolding lookup insert
insert_new k v [] h = refl
insert_new k v ((j, w) ∷ m) h = ground (arith, insert_new k v m)

-- None of the keys stands in `m`.
abbrev Fresh {ℓ} : {V : Type 0} {W : Type ℓ} → List (Text × V) → List (Text × W) → Type 0
Fresh m = All (λ e. lookup e.0 m ≡ none)

Fresh-append :
    {V : Type 0} (m : List (Text × V)) (k : Text) (v : V) (es : List (Text × V))
    → Fresh m es
    → lookup k es ≡ none
    → Fresh (m ++ (k, v) ∷ []) es
unfolding lookup
Fresh-append m k v [] f h = tt
Fresh-append m k v ((j, w) ∷ es) f h = (
  lookup-append j m (k, v) f.0 (ground (arith, text_eq_iff k j, text_eq_iff j k)),
  Fresh-append m k v es f.1 (ground arith),
)

from_entries_distinct :
    {V : Type 0} (m es : List (Text × V))
    → DistinctKeys es
    → Fresh m es
    → from_entries m es ≡ m ++ es
unfolding from_entries
from_entries_distinct m [] d f = sym (append-nil m)
from_entries_distinct m ((k, v) ∷ es) d f = rw (insert_new k v m f.0) (
    from_entries_distinct (m ++ (k, v) ∷ []) es d.1 (Fresh-append m k v es f.1 d.0)
    ∙ append_assoc m ((k, v) ∷ []) es)

-- A received label as a form sends it back.
abbrev pub sent_label : Text × Text → Text × Option Text
sent_label e = (e.0, some e.1)

reread :
    (m : List (Text × Text))
    → All IsPlainLabel m
    → map read_label (map print_label m) ≡ map sent_label m
reread [] h = refl
reread (e ∷ m) h = rw (read_label-print_label e h.0, reread m h.1)

map-Lacks : (m : List (Text × Text)) → All IsPlainLabel m → All (Lacks b',') (map print_label m)
map-Lacks [] h = tt
map-Lacks (e ∷ m) h = (print_label-Lacks e h.0, map-Lacks m h.1)

lookup_sent :
    (k : Text) (m : List (Text × Text)) → lookup k m ≡ none → lookup k (map sent_label m) ≡ none
unfolding lookup
lookup_sent k [] h = refl
lookup_sent k ((j, v) ∷ m) h = ground (arith, lookup_sent k m)

distinct_sent : (m : List (Text × Text)) → DistinctKeys m → DistinctKeys (map sent_label m)
distinct_sent [] d = tt
distinct_sent ((k, v) ∷ m) d = (lookup_sent k m d.0, distinct_sent m d.1)

Fresh-nil : (V : Type 0) {W : Type 0} (es : List (Text × W)) → Fresh {V = V} [] es
unfolding lookup
Fresh-nil V [] = tt
Fresh-nil V (e ∷ es) = (refl, Fresh-nil V es)

-- The labels of a selector that has one at least, printed for the text field, are read back in
-- their order, if the keys are distinct and no key or value holds white space, a comma or "=".
pub read_labels-print_labels :
    (e : Text × Text) (m : List (Text × Text))
    → All IsPlainLabel (e ∷ m)
    → DistinctKeys (e ∷ m)
    → read_labels (print_labels (e ∷ m)) ≡ map sent_label (e ∷ m)
unfolding read_labels print_labels
read_labels-print_labels e m h d =
    rw (split-join b',' (print_label e) (map print_label m) (map-Lacks (e ∷ m) h), reread (e ∷ m) h)
      (from_entries_distinct [] (map sent_label (e ∷ m)) (distinct_sent (e ∷ m) d)
        (Fresh-nil (Option Text) (map sent_label (e ∷ m))))
