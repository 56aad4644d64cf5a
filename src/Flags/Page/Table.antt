-- ===== src/Flags/Page/Table.antt =====
-- The table of web/src/app/flags/page.tsx.
pub mod Rows
use vexil.Prelude.{
  ℕ, suc, ◌≤◌, ◌≡◌, refl, ap, ◌∙◌, Bool, true, false, not, ◌&&◌, ◌||◌, Option, none, some, List, [],
  ◌∷◌, ◌++◌, map, keep, keep_yes, length, length-keep, arith, is_empty, if◌then◌else◌, Bool-cases,
  inl, inr,
}
use vexil.Text.{Text, codes, text_eq}
use vexil.Text.Case.{CaseMapping}
use vexil.Text.Parts.{Lacks, cut_injective}
use vexil.Text.Slice.{shorten, shorten_lem}
use vexil.Text.Decimal.{ℤ}
use vexil.Text.Decimal.Print.{print}
use vexil.Types.{FeatureFlag, type_text}
use vexil.Flags.Page.{Page, shown_phase, passes, filtered_flags}
use vexil.Utils.{time_ago}

-- The colour in front of a flag.
pub data Dot : Type 0 where
  dimmed off on other : Dot

abbrev pub dot : FeatureFlag → Dot
dot f =
    if f.disabled
    then dimmed
    else if text_eq f.default_value (codes "true")
    then on
    else if text_eq f.default_value (codes "false")
    then off
    else other

pub record Row : Type 0 where
  pub key : Text
  pub dot : Dot
  pub name : Text
  pub place : Text
  pub type : Text
  pub value : Text
  pub phase : Text
  pub age : Text

-- `elapsed` is what `new Date` and the clock make of a timestamp.
unfoldable pub row : (Text → Option ℤ) → FeatureFlag → Row
row elapsed f = record {
  key = f.cluster_id ++ b'/' ∷ (f.namespace ++ b'/' ∷ f.name);
  dot = dot f;
  name = f.name;
  place = f.namespace ++ (codes " / " ++ f.cluster_id);
  type = type_text f.type;
  value = shorten 25 f.default_value;
  phase = shown_phase f.phase;
  age = time_ago (elapsed f.created_at);
}

abbrev pub has_filters : Page → Bool
has_filters p =
    not (is_empty p.search) || (not (is_empty p.filter_type) || not (is_empty p.filter_phase))

-- What stands below the fields: the note, if there is one, and the rows.
pub data View : Type 0 where
  loading no_flags : View
  table : (note : Option Text) → List Row → View

abbrev count_note : ℕ → ℕ → Text
count_note n m = print n ++ (codes " of " ++ (print m ++ codes " flags"))

module _ (case : CaseMapping) (elapsed : Text → Option ℤ) where
  abbrev view_some : Page → List FeatureFlag → View
  view_some p [] = no_flags
  view_some p (f ∷ fs) =
      table
        (if has_filters p
          then some (count_note (length (filtered_flags case p (f ∷ fs))) (length (f ∷ fs)))
          else none)
        (map (row elapsed) (filtered_flags case p (f ∷ fs)))

  -- `none` while the flags are loading; after an error the page has an empty list of them.
  unfoldable pub view : Page → Option (List FeatureFlag) → View
  unfolding row filtered_flags
  view p none = loading
  view p (some flags) = view_some p flags
