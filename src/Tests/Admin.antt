-- ===== src/Tests/Admin.antt =====
-- The users panel and the clusters page, at concrete data.
use vexil.Prelude.{◌≡◌, ◌↔◌, ◌⊎◌, refl, Option, some, false, List, [], ◌∷◌, All}
use vexil.Text.{Text, codes, text_eq}
use vexil.Auth.{User}
use vexil.Flags.Page.{Viewer}
use vexil.Clusters
use vexil.Clusters.Safety
use vexil.Users
use vexil.Users.Editing.{edit-sends_iff}
use vexil.Users.{Panel, open_panel, offers, handle}
use vexil.Users.View.{Account, view}
use vexil.Users.Shown.{IsSeemly, Reach-IsSeemly}
use vexil.Users.Safety.{Reach, start, step, IsAllowed, sent-IsAllowed}

abbrev ada : Option User
ada = some (record { username = codes "ada"; role = codes "admin" })

abbrev eve : User
eve = record { username = codes "eve"; role = codes "viewer" }

abbrev made : Panel
made = handle Users.submit_create (
    handle (Users.type_password (codes "p"))
      (handle (Users.type_username (codes "bob")) (handle Users.toggle_create open_panel)))

created : Reach ada made
unfolding offers handle text_eq
created =
    step Users.submit_create
      (step (Users.type_password (codes "p"))
        (step (Users.type_username (codes "bob")) (step Users.toggle_create start refl) refl) refl)
      refl

sent-IsAllowed_example : All (IsAllowed ada) made.sent
sent-IsAllowed_example = sent-IsAllowed created

-- The panel with the form for a new user, and a list of two users.
abbrev listed : List Account
listed =
    record { username = codes "ada"; role = codes "admin"; created_at = codes "2026-01-01" }
    ∷ (record { username = codes "eve"; role = codes "viewer"; created_at = codes "2026-01-02" }
        ∷ [])

Reach-IsSeemly_example : IsSeemly ada (view (λ t. t) ada made false (some listed))
Reach-IsSeemly_example = Reach-IsSeemly (λ t. t) false (some listed) created

abbrev no_text : Text
no_text = []

edit-sends_iff_example :
    let t = handle (Users.submit_update (codes "eve")) (
      handle
        (Users.select_edit_role (codes "viewer"))
        (handle (Users.type_edit_password []) (handle (Users.press_edit eve) open_panel))) in
    (t.sent ≡ []) ↔ (([] ≡ no_text) × ((codes "viewer" ≡ []) ⊎ (codes "viewer" ≡ codes "viewer")))
edit-sends_iff_example = edit-sends_iff eve [] (codes "viewer") open_panel refl

abbrev opened : Panel
opened = handle (Users.press_edit eve) open_panel

-- A viewer who saves the own user with no change sends nothing.
unchanged : (handle (Users.submit_update (codes "eve")) opened).sent ≡ []
unfolding handle Users.handle_update Users.start_editing Users.build_changes text_eq
unchanged = refl

abbrev admin : Viewer
admin = record { role = some (codes "admin") }

abbrev registered : Clusters.Page
registered = Clusters.handle Clusters.submit_register (
    Clusters.handle (Clusters.type_display_name (codes "Production")) (
      Clusters.handle (Clusters.type_id (codes "prod"))
        (Clusters.handle Clusters.toggle_register Clusters.open_page)))

registering : Safety.Reach admin registered
unfolding Clusters.offers Clusters.handle text_eq
registering =
    Safety.step Clusters.submit_register
      (Safety.step (Clusters.type_display_name (codes "Production"))
        (Safety.step (Clusters.type_id (codes "prod"))
          (Safety.step Clusters.toggle_register Safety.start refl) refl)
        refl)
      refl

sent-IsMeant_example : All (Safety.IsMeant admin) registered.sent
sent-IsMeant_example = Safety.sent-IsMeant registering
