-- ===== src/Sidebar/View.antt =====
-- What web/src/components/layout/Sidebar.tsx shows.
use vexil.Prelude.{
  ◌≡◌, sym, ap, ◌∙◌, Bool, true, Option, none, some, List, [], ◌∷◌, map, In, In-map, ◌>>=◌,
  if-eq-some, if◌then◌else◌,
}
use vexil.Text.{Text, codes, text_eq, or_text}
use vexil.Text.Case.{CaseMapping}
use vexil.Auth.{User}
use vexil.Sidebar.{
  Item, navigation, Bar, press_enter, navigate, handle_select, is_active, filtered, enter, handle,
}
use vexil.Sidebar.Active.{is_active_unique}

-- An entry of the navigation; the tag is behind the one item.
pub record Link : Type 0 where
  pub name : Text
  pub href : Text
  pub is_active : Bool
  pub tag : Option Text

unfoldable pub link : Text → Item → Link
link pathname item = record {
  name = item.name;
  href = item.href;
  is_active = is_active pathname item;
  tag = if text_eq item.name (codes "Feature Flags") then some (codes "FF") else none;
}

-- The user at the foot.
pub record Footer : Type 0 where
  pub initial : Text
  pub name : Text
  pub role : Text

-- `s.charAt(0)`.
abbrev pub char_at_0 : Text → Text
char_at_0 [] = []
char_at_0 (c ∷ s) = c ∷ []

unfoldable pub footer : Option User → Footer
footer user = record {
  initial = or_text (user >>= λ u. some (char_at_0 u.username)) (codes "V");
  name = or_text (user >>= λ u. some u.username) (codes "Unknown");
  role = or_text (user >>= λ u. some u.role) (codes "user");
}

-- A page that the search has found.
pub record PageRow : Type 0 where
  pub name : Text
  pub href : Text
  pub is_current : Bool

-- The field and the list of the search; an empty list reads `No results`.
pub record Palette : Type 0 where
  pub search : Text
  pub rows : List PageRow

abbrev pub page_row : Text → Item → PageRow
page_row pathname item = record {
  name = item.name;
  href = item.href;
  is_current = text_eq pathname item.href;
}

pub record View : Type 0 where
  pub links : List Link
  pub footer : Footer
  pub is_overlaid : Bool
  pub is_slid_in : Bool
  pub palette : Option Palette

module _ (case : CaseMapping) where
  unfoldable pub view : Option User → Bar → View
  unfolding link footer
  view user b = record {
    links = map (link b.pathname) navigation;
    footer = footer user;
    is_overlaid = b.mobile_open;
    is_slid_in = b.mobile_open;
    palette =
        if b.search_open
        then some (record {
          search = b.search;
          rows = map (page_row b.pathname) (filtered case b.search);
        })
        else none;
  }

  -- At most one entry of the navigation is highlighted.
  links_unique :
      (user : Option User) (b : Bar) (l k : Link)
      → In l (view user b).links
      → In k (view user b).links
      → l.is_active ≡ true
      → k.is_active ≡ true
      → l ≡ k
  unfolding view link
  links_unique user b l k m n p q =
      let (i, i_in, i_is) = In-map (link b.pathname) navigation m in
      let (j, j_in, j_is) = In-map (link b.pathname) navigation n in
      let same =
        is_active_unique b.pathname i j i_in j_in (ap (λ (x : Link). x.is_active) i_is ∙ p)
          (ap (λ (x : Link). x.is_active) j_is ∙ q) in
      sym i_is ∙ (ap (link b.pathname) same ∙ j_is)

  enter-first :
      (items : List Item) (b : Bar) (row : PageRow) (rows : List PageRow)
      → map (page_row b.pathname) items ≡ row ∷ rows
      → (enter case items b).pathname ≡ row.href
  unfolding enter handle_select navigate
  enter-first [] b row rows e = cc
  enter-first (item ∷ items) b row rows e =
      let first : page_row b.pathname item ≡ row = cc in ap (λ (x : PageRow). x.href) first

  -- The Enter key goes to the first row of the search, where there is one.
  press_enter-first :
      (user : Option User) (b : Bar) (palette : Palette) (row : PageRow) (rows : List PageRow)
      → (view user b).palette ≡ some palette
      → palette.rows ≡ row ∷ rows
      → (handle case press_enter b).pathname ≡ row.href
  unfolding view handle
  press_enter-first user b palette row rows e f =
      let (shown, same) = if-eq-some b.search_open _ palette e in
      enter-first (filtered case b.search) b row rows (ap (λ (x : Palette). x.rows) same ∙ f)
