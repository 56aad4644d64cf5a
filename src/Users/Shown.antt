-- ===== src/Users/Shown.antt =====
-- Who sees what of the users panel of web/src/app/settings/page.tsx.
use vexil.Prelude.{
  ◌≡◌, refl, sym, ◌∙◌, ap, subst, inl, inr, Bool, true, false, not, ◌&&◌, ◌||◌, Option, none, some,
  List, [], ◌∷◌, maybe, is_some, is_some-if, if-eq-some, is_empty, All, All-map, Bool-cases, arith,
  if◌then◌else◌,
}
use vexil.Text.{Text, codes, text_eq, text_eq_iff}
use vexil.Auth.{User}
use vexil.Users.{Panel, is_editing, is_admin, is_me}
use vexil.Users.Safety.{Reach, IsSafe, MayEdit, MayDelete, Reach-IsSafe}
use vexil.Users.View.{
  Account, create_form_of, EditForm, edit_form_of, Row, Removal, removal_of, Body, table, View, row,
  body_of, view,
}

abbrev pub rows_of : Body → List Row
rows_of (table rows) = rows
rows_of _ = []

-- A row has the button to edit for an administrator and on the own row, and the button to delete for
-- an administrator on the others; the form is where the button may be, with a role for an
-- administrator only.
pub record IsSeemlyRow (current : Option User) (r : Row) : Type 0 where
  pub edits : is_some r.edit_title ≡ (is_admin current || is_me current r.username)
  pub deletes : r.can_delete ≡ (is_admin current && not (is_me current r.username))
  pub form : is_some r.form ≡ true → is_some r.edit_title ≡ true
  pub role : (f : EditForm) → r.form ≡ some f → is_some f.role ≡ is_admin current

pub record IsSeemly (current : Option User) (v : View) : Type 0 where
  pub creates : is_some v.create_form ≡ true → is_some v.create_button ≡ true
  pub button : is_some v.create_button ≡ is_admin current
  pub removes :
      (r : Removal)
      → v.removal ≡ some r
      → (is_admin current ≡ true) × (is_me current r.username ≡ false)
  pub rows : All (IsSeemlyRow current) (rows_of v.body)

editing_may :
    (current : Option User) (s : Panel) (username : Text) (o : Option Text)
    → MayEdit current o
    → maybe o false (text_eq username) ≡ true
    → (is_admin current || is_me current username) ≡ true
editing_may current s username none h e = cc
editing_may current s username (some n) h e =
    let same = (text_eq_iff username n).0 e in
    elim h [ inl admin ↦ rw admin refl | inr me ↦ rw same (ground (arith, me)) ]

module _ (date_text : Text → Text) (current : Option User) (s : Panel) (h : IsSafe current s) where
  row-edits :
      (u : Account)
      → is_some (row date_text current s u).edit_title
        ≡ (is_admin current || is_me current u.username)
  unfolding row
  row-edits u = ground arith

  row-role :
      (u : Account) (f : EditForm)
      → (row date_text current s u).form ≡ some f
      → is_some f.role ≡ is_admin current
  unfolding row edit_form_of
  row-role u f e =
      let (editing, same) = if-eq-some (is_editing s u.username) (edit_form_of current s) f e in
      ap (λ (g : EditForm). is_some g.role) (sym same) ∙ is_some-if (is_admin current) s.edit_role

  row-IsSeemly : (u : Account) → IsSeemlyRow current (row date_text current s u)
  unfolding row
  row-IsSeemly u = record {
    edits = row-edits u;
    deletes = refl;
    form = λ e.
        let editing = sym (is_some-if (is_editing s u.username) (edit_form_of current s)) ∙ e in
        row-edits u ∙ editing_may current s u.username s.editing_user h.editing editing;
    role = row-role u;
  }

  removal-MayDelete :
      (o : Option Text) (r : Removal)
      → s.deleting_user ≡ o
      → MayDelete current o
      → removal_of s ≡ some r
      → (is_admin current ≡ true) × (is_me current r.username ≡ false)
  unfolding removal_of
  removal-MayDelete none r e m k = let no = rw e at k in cc
  removal-MayDelete (some n) r e m k =
      let there = rw e at k in
      elim (Bool-cases (is_empty n)) [
        | inl blank ↦ let no = rw blank at there in cc
        | inr named ↦
            let same = rw named at there in
            let name : n ≡ r.username = cc in (m.0, subst (λ t. is_me current t ≡ false) name m.1)
      ]

  body-IsSeemly :
      (is_loading : Bool) (users : Option (List Account))
      → All (IsSeemlyRow current) (rows_of (body_of date_text current s is_loading users))
  unfolding body_of
  body-IsSeemly true users = tt
  body-IsSeemly false none = tt
  body-IsSeemly false (some []) = tt
  body-IsSeemly false (some (u ∷ us)) =
      All-map (IsSeemlyRow current) (row date_text current s) (u ∷ us) row-IsSeemly

-- In every state that the controls of the panel lead to, whatever list has been loaded: the form for a
-- new user is shown to an administrator only, as is the box that asks before a deletion, and that
-- never of the own user. A row has a button to edit exactly for an administrator and on the own row,
-- and one to delete exactly for an administrator on the other rows; a form is open only where a
-- button to edit is, and it has a role exactly for an administrator.
pub Reach-IsSeemly :
    {current : Option User} {s : Panel} (date_text : Text → Text) (is_loading : Bool)
    (users : Option (List Account))
    → Reach current s
    → IsSeemly current (view date_text current s is_loading users)
unfolding view
Reach-IsSeemly {current} {s} date_text is_loading users r =
    let h = Reach-IsSafe r in
    let button =
      is_some-if (is_admin current) (if s.show_create then codes "Cancel" else codes "New user") in
    record {
      creates = λ e. button ∙ h.creating (sym (is_some-if s.show_create (create_form_of s)) ∙ e);
      button = button;
      removes = λ b e. removal-MayDelete date_text current s h s.deleting_user b refl h.deleting e;
      rows = body-IsSeemly date_text current s h is_loading users;
    }
