-- ===== src/Clusters/Safety.antt =====
-- The requests that web/src/app/clusters/page.tsx sends.
use vexil.Prelude.{
  ◌≡◌, refl, ◌≢◌, true, Option, none, some, [], ◌∷◌, ◌++◌, maybe, is_some, All, All-append, arith,
}
use vexil.Text.{is_empty-ne-nil}
use vexil.Flags.Mutation.{pending}
use vexil.Flags.Page.{Viewer, is_admin}
use vexil.Clusters.{
  Removal, Request, register, remove, Page, open_page, Event, toggle_register, close_register,
  submit_register, ask_remove, confirm_remove, cancel_remove, register_succeeded, handle, offers,
}

pub data Reach (v : Viewer) : Page → Type 0 where
  start : Reach v open_page
  step : {p : Page} (e : Event) → Reach v p → offers v p e ≡ true → Reach v (handle e p)

-- An administrator has made the request, and a registration has what the form requires.
abbrev pub IsMeant : Viewer → Request → Type 0
IsMeant v (register form) = (is_admin v ≡ true) × (form.id ≢ []) × (form.display_name ≢ [])
IsMeant v (remove id) = is_admin v ≡ true

record IsSafe (v : Viewer) (p : Page) : Type 0 where
  pub registering : p.show_register ≡ true → is_admin v ≡ true
  pub removing : is_some p.removing_cluster ≡ true → is_admin v ≡ true
  pub meant : All (IsMeant v) p.sent

removed-IsSafe :
    (v : Viewer) (p : Page) (o : Option Removal)
    → IsSafe v p
    → (is_some o ≡ true → is_admin v ≡ true)
    → IsSafe v (
        maybe o p λ r. record p {
          removing_cluster = none;
          remove_mutation = pending;
          sent = p.sent ++ remove r.id ∷ [];
        })
removed-IsSafe v p none h may = h
removed-IsSafe v p (some r) h may = record {
  registering = h.registering;
  removing = λ e. cc;
  meant = All-append _ p.sent _ h.meant (may refl, tt);
}

handle-IsSafe :
    (v : Viewer) (e : Event) (p : Page) → IsSafe v p → offers v p e ≡ true → IsSafe v (handle e p)
unfolding handle offers
handle-IsSafe v toggle_register p h o = record {
  registering = λ e. o;
  removing = h.removing;
  meant = h.meant;
}
handle-IsSafe v close_register p h o = record {
  registering = λ e. cc;
  removing = h.removing;
  meant = h.meant;
}
handle-IsSafe v submit_register p h o = record {
  registering = h.registering;
  removing = h.removing;
  meant = All-append _ p.sent _ h.meant (
    (
      h.registering (ground arith),
      is_empty-ne-nil p.form.id (ground arith),
      is_empty-ne-nil p.form.display_name (ground arith),
    ),
    tt,
  );
}
handle-IsSafe v (ask_remove r) p h o = record {
  registering = h.registering;
  removing = λ e. o;
  meant = h.meant;
}
handle-IsSafe v confirm_remove p h o = removed-IsSafe v p p.removing_cluster h h.removing
handle-IsSafe v cancel_remove p h o = record {
  registering = h.registering;
  removing = λ e. cc;
  meant = h.meant;
}
handle-IsSafe v register_succeeded p h o = record {
  registering = λ e. cc;
  removing = h.removing;
  meant = h.meant;
}
handle-IsSafe v _ p h o = record {
  registering = h.registering;
  removing = h.removing;
  meant = h.meant;
}

Reach-IsSafe : {v : Viewer} {p : Page} → Reach v p → IsSafe v p
Reach-IsSafe start = record { registering = λ e. cc; removing = λ e. cc; meant = tt }
Reach-IsSafe {v} (step {p} e r o) = handle-IsSafe v e p (Reach-IsSafe r) o

-- In every state that the controls of the page lead to, each request that was sent is an
-- administrator's, and a registration has an id and a display name.
pub sent-IsMeant : {v : Viewer} {p : Page} → Reach v p → All (IsMeant v) p.sent
sent-IsMeant r = (Reach-IsSafe r).meant
