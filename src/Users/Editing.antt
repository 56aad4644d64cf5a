-- ===== src/Users/Editing.antt =====
-- What editing one user in the panel of web/src/app/settings/page.tsx sends.
use vexil.Prelude.{
  ◌≡◌, refl, ◌≢◌, ◌↔◌, ◌⊎◌, inl, inr, false, not, ◌&&◌, ◌||◌, none, some, List, [], ◌∷◌, ◌++◌,
  is_some, is_empty, arith, if◌then◌else◌, Bool-cases,
}
use vexil.Text.{Text, text_eq, text_eq_iff, or_undefined}
use vexil.Auth.{User}
use vexil.Users.{
  Request, Panel, press_edit, type_edit_password, select_edit_role, submit_update, build_changes,
  has_changes, start_editing, is_editing, handle_update, handle,
}

snoc-ne : (xs : List Request) (x : Request) → xs ++ x ∷ [] ≢ xs
snoc-ne [] x e = cc
snoc-ne (y ∷ xs) x e = snoc-ne xs x (cc)

sent_iff :
    (username : Text) (s : Panel)
    → ((handle_update username s).sent ≡ s.sent) ↔ (has_changes (build_changes s) ≡ false)
unfolding handle_update
sent_iff username s = elim (Bool-cases (has_changes (build_changes s))) [
  | inl changed ↦ rw changed ((λ e. absurd (snoc-ne s.sent _ e)), λ e. cc)
  | inr same ↦ rw same ((λ e. refl), λ e. refl)
]

no_change :
    (password role original : Text)
    → (is_some (or_undefined password)
          || is_some
              (if not (is_empty role) && not (text_eq role original) then some role else none)
        ≡ false)
      ↔ ((password ≡ []) × ((role ≡ []) ⊎ (role ≡ original)))
no_change (c ∷ password) role original = ((λ e. cc), λ h. absurd cc)
no_change [] [] original = ((λ e. (refl, inl refl)), λ h. refl)
no_change [] (d ∷ role) original = ground (arith, text_eq_iff (d ∷ role) original)

no_changes_iff :
    (s : Panel)
    → (has_changes (build_changes s) ≡ false)
      ↔ ((s.edit_password ≡ []) × ((s.edit_role ≡ []) ⊎ (s.edit_role ≡ s.edit_original_role)))
unfolding build_changes
no_changes_iff s = no_change s.edit_password s.edit_role s.edit_original_role

-- A user whose form is not open yet is edited: the form is opened, a password and a role are put
-- in, and the form is saved. Then a request is sent unless the password is empty and the role
-- is empty or the one that the user has.
pub edit-sends_iff :
    (user : User) (password role : Text) (s : Panel)
    → is_editing s user.username ≡ false
    → let t = handle (submit_update user.username) (
        handle
          (select_edit_role role)
          (handle (type_edit_password password) (handle (press_edit user) s))) in
      (t.sent ≡ s.sent) ↔ ((password ≡ []) × ((role ≡ []) ⊎ (role ≡ user.role)))
unfolding handle start_editing
edit-sends_iff user password role s shut =
    let edited : Panel = record s {
      editing_user = some user.username;
      edit_password = password;
      edit_role = role;
      edit_original_role = user.role;
    } in
    let (a, b) = sent_iff user.username edited in
    let (c, d) = no_changes_iff edited in rw shut ((λ e. c (a e)), λ h. b (d h))
