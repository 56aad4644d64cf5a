-- ===== src/Users/Safety.antt =====
-- Who can make the users panel of web/src/app/settings/page.tsx send which request.
use vexil.Prelude.{
  ◌≡◌, refl, ◌≢◌, ◌⊎◌, inl, inr, true, false, Option, none, some, [], ◌∷◌, ◌++◌, maybe, All,
  All-append, arith, Bool-cases, and-eq-true_iff,
}
use vexil.Text.{is_empty-ne-nil, Text, text_eq, text_eq_iff, text_eq_refl}
use vexil.Flags.Mutation.{pending}
use vexil.Auth.{User}
use vexil.Users.{
  Request, create, update, delete, Panel, Event, toggle_create, submit_create, cancel_edit,
  confirm_delete, cancel_delete, select_edit_role, press_edit, submit_update, ask_delete,
  create_succeeded, update_succeeded, delete_succeeded, open_panel, build_changes, has_changes,
  start_editing, is_editing, handle_update, handle, is_admin, is_me, offers,
}

pub data Reach (current : Option User) : Panel → Type 0 where
  start : Reach current open_panel
  step :
      {s : Panel} (e : Event)
      → Reach current s
      → offers current s e ≡ true
      → Reach current (handle e s)

-- An administrator creates users, updates them and deletes others. Everyone else updates the own
-- user, and not its role. An update changes something.
abbrev pub IsAllowed : Option User → Request → Type 0
IsAllowed current (create username password role) =
    (is_admin current ≡ true) × (username ≢ []) × (password ≢ [])
IsAllowed current (update username c) =
    (has_changes c ≡ true)
    × ((is_admin current ≡ true) ⊎ ((is_me current username ≡ true) × (c.role ≡ none)))
IsAllowed current (delete username) = (is_admin current ≡ true) × (is_me current username ≡ false)

abbrev pub MayEdit : Option User → Option Text → Type 0
MayEdit current none = Unit
MayEdit current (some n) = (is_admin current ≡ true) ⊎ (is_me current n ≡ true)

abbrev pub MayDelete : Option User → Option Text → Type 0
MayDelete current none = Unit
MayDelete current (some n) = (is_admin current ≡ true) × (is_me current n ≡ false)

pub record IsSafe (current : Option User) (s : Panel) : Type 0 where
  pub creating : s.show_create ≡ true → is_admin current ≡ true
  pub editing : MayEdit current s.editing_user
  pub deleting : MayDelete current s.deleting_user
  pub same_role : (is_admin current ≡ true) ⊎ ((build_changes s).role ≡ none)
  pub allowed : All (IsAllowed current) s.sent

submit_create-IsSafe :
    (current : Option User) (s : Panel)
    → IsSafe current s
    → offers current s submit_create ≡ true
    → IsSafe current (handle submit_create s)
unfolding handle offers build_changes
submit_create-IsSafe current s h o = record {
  creating = h.creating;
  editing = h.editing;
  deleting = h.deleting;
  same_role = h.same_role;
  allowed = All-append _ s.sent _ h.allowed (
    (
      h.creating (ground arith),
      is_empty-ne-nil s.new_username (ground arith),
      is_empty-ne-nil s.new_password (ground arith),
    ),
    tt,
  );
}

press_edit-IsSafe :
    (current : Option User) (user : User) (s : Panel)
    → IsSafe current s
    → offers current s (press_edit user) ≡ true
    → IsSafe current (handle (press_edit user) s)
unfolding handle offers build_changes start_editing
press_edit-IsSafe current user s h o = elim (Bool-cases (is_editing s user.username)) [
  | inl opened ↦ rw opened (record {
    creating = h.creating;
    editing = tt;
    deleting = h.deleting;
    same_role = h.same_role;
    allowed = h.allowed;
  })
  | inr shut ↦ rw shut (record {
    creating = h.creating;
    editing = ground arith;
    deleting = h.deleting;
    same_role = inr (ground (arith, text_eq_refl user.role));
    allowed = h.allowed;
  })
]

may_update :
    (current : Option User) (o : Option Text) (username : Text)
    → maybe o false (text_eq username) ≡ true
    → MayEdit current o
    → MayEdit current (some username)
may_update current none username e h = cc
may_update current (some n) username e h =
    let same : username ≡ n = (text_eq_iff username n).0 e in rw same h

submit_update-IsSafe :
    (current : Option User) (username : Text) (s : Panel)
    → IsSafe current s
    → offers current s (submit_update username) ≡ true
    → IsSafe current (handle (submit_update username) s)
unfolding handle offers handle_update
submit_update-IsSafe current username s h o = elim (Bool-cases (has_changes (build_changes s))) [
  | inl changed ↦
      let mine = may_update current s.editing_user username (ground arith) h.editing in
      rw changed (record {
        creating = h.creating;
        editing = h.editing;
        deleting = h.deleting;
        same_role = unfold build_changes in h.same_role;
        allowed = All-append _ s.sent _ h.allowed ((changed, ground arith), tt);
      })
  | inr same ↦ rw same h
]

deleted-IsSafe :
    (current : Option User) (s : Panel) (o : Option Text)
    → IsSafe current s
    → MayDelete current o
    → IsSafe current (
        maybe o s
          λ username. record s { delete_mutation = pending; sent = s.sent ++ delete username ∷ [] })
unfolding build_changes
deleted-IsSafe current s none h may = h
deleted-IsSafe current s (some n) h may = record {
  creating = h.creating;
  editing = h.editing;
  deleting = h.deleting;
  same_role = h.same_role;
  allowed = All-append _ s.sent _ h.allowed (may, tt);
}

handle-IsSafe :
    (current : Option User) (e : Event) (s : Panel)
    → IsSafe current s
    → offers current s e ≡ true
    → IsSafe current (handle e s)
unfolding handle offers build_changes
handle-IsSafe current toggle_create s h o = record {
  creating = λ e. o;
  editing = h.editing;
  deleting = h.deleting;
  same_role = h.same_role;
  allowed = h.allowed;
}
handle-IsSafe current submit_create s h o = submit_create-IsSafe current s h o
handle-IsSafe current (press_edit user) s h o = press_edit-IsSafe current user s h o
handle-IsSafe current (submit_update username) s h o = submit_update-IsSafe current username s h o
handle-IsSafe current confirm_delete s h o = deleted-IsSafe current s s.deleting_user h h.deleting
handle-IsSafe current (select_edit_role t) s h o = record {
  creating = h.creating;
  editing = h.editing;
  deleting = h.deleting;
  same_role = inl ((and-eq-true_iff _ _).0 o).1;
  allowed = h.allowed;
}
handle-IsSafe current (ask_delete username) s h o = record {
  creating = h.creating;
  editing = h.editing;
  deleting = ground arith;
  same_role = h.same_role;
  allowed = h.allowed;
}
handle-IsSafe current create_succeeded s h o = record {
  creating = λ e. cc;
  editing = h.editing;
  deleting = h.deleting;
  same_role = h.same_role;
  allowed = h.allowed;
}
handle-IsSafe current update_succeeded s h o = record {
  creating = h.creating;
  editing = tt;
  deleting = h.deleting;
  same_role = inr refl;
  allowed = h.allowed;
}
handle-IsSafe current cancel_edit s h o = record {
  creating = h.creating;
  editing = tt;
  deleting = h.deleting;
  same_role = h.same_role;
  allowed = h.allowed;
}
handle-IsSafe current cancel_delete s h o = record {
  creating = h.creating;
  editing = h.editing;
  deleting = tt;
  same_role = h.same_role;
  allowed = h.allowed;
}
handle-IsSafe current delete_succeeded s h o = record {
  creating = h.creating;
  editing = h.editing;
  deleting = tt;
  same_role = h.same_role;
  allowed = h.allowed;
}
handle-IsSafe current _ s h o = record {
  creating = h.creating;
  editing = h.editing;
  deleting = h.deleting;
  same_role = h.same_role;
  allowed = h.allowed;
}

pub Reach-IsSafe : {current : Option User} {s : Panel} → Reach current s → IsSafe current s
unfolding build_changes
Reach-IsSafe start = record {
  creating = λ e. cc;
  editing = tt;
  deleting = tt;
  same_role = inr refl;
  allowed = tt;
}
Reach-IsSafe {current} (step {s} e r o) = handle-IsSafe current e s (Reach-IsSafe r) o

-- In every state that the controls of the panel lead to, each request that was sent is allowed to
-- the current user: only an administrator creates users, which have a name and a password, and
-- deletes users, but never the own; every update has a change, and of someone who is no
-- administrator it is of the own user and not of its role.
pub sent-IsAllowed :
    {current : Option User} {s : Panel} → Reach current s → All (IsAllowed current) s.sent
sent-IsAllowed r = (Reach-IsSafe r).allowed
