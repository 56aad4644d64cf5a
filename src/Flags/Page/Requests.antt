-- ===== src/Flags/Page/Requests.antt =====
-- The requests of web/src/app/flags/page.tsx at the API server.
use vexil.Prelude.{ℕ, ◌≡◌, refl, sym, ap, ◌∙◌, Option, none, some, [], ◌∷◌, ◌++◌, append_assoc}
use vexil.Text.{Text, codes}
use vexil.Text.Parts.{Lacks, cut_injective}
use vexil.Api.Endpoints.{Endpoint, flag_path, delete_flag, toggle_flag, append-cancel}
use vexil.Flags.Page.{Effect, nothing, delete, toggle}

-- Names without the signs that a path and a search are cut at, as Kubernetes has them.
abbrev pub IsName : Text → Type 0
IsName s = Lacks b'/' s × Lacks b'?' s

abbrev pub IsPlaced : Effect → Type 0
IsPlaced nothing = Unit
IsPlaced (delete namespace name cluster_id) = IsName namespace × IsName name
IsPlaced (toggle namespace name cluster_id) = IsName namespace × IsName name

-- Behind the same prefix, a namespace and a name in front of the rests of two paths.
place :
    (c : ℕ) (ns ns' name name' u u' : Text)
    → Lacks b'/' ns
    → Lacks b'/' ns'
    → Lacks c name
    → Lacks c name'
    → (ns ++ b'/' ∷ name) ++ c ∷ u ≡ (ns' ++ b'/' ∷ name') ++ c ∷ u'
    → (ns ≡ ns') × (name ≡ name') × (u ≡ u')
place c ns ns' name name' u u' h h' k k' e =
    let (same, rest) = cut_injective b'/' ns ns' (name ++ c ∷ u) (name' ++ c ∷ u') h h' (
      sym (append_assoc ns (b'/' ∷ name) (c ∷ u)) ∙ e ∙ append_assoc ns' (b'/' ∷ name') (c ∷ u')) in
    let (names, rests) = cut_injective c name name' u u' k k' rest in (same, names, rests)

module _ {P : Type 0} where
  -- The calls that the two mutations make.
  unfoldable pub endpoint : Effect → Option (Endpoint P)
  unfolding delete_flag toggle_flag flag_path
  endpoint nothing = none
  endpoint (delete namespace name cluster_id) = some (delete_flag namespace name cluster_id)
  endpoint (toggle namespace name cluster_id) = some (toggle_flag namespace name cluster_id)

  abbrev path_of : Option (Endpoint P) → Text
  path_of none = []
  path_of (some e) = e.path

  abbrev method_of : Option (Endpoint P) → Text
  method_of none = []
  method_of (some e) = e.method

  -- Different requests of the page are different calls: one for a flag never reaches another flag, nor
  -- does a deletion toggle, if the namespaces and names hold no slash and no question mark.
  pub endpoint_injective :
      (e f : Effect) → IsPlaced e → IsPlaced f → endpoint e ≡ endpoint f → e ≡ f
  unfolding endpoint delete_flag toggle_flag flag_path
  endpoint_injective nothing nothing h k e = refl
  endpoint_injective nothing (delete ns name id) h k e = cc
  endpoint_injective nothing (toggle ns name id) h k e = cc
  endpoint_injective (delete ns name id) nothing h k e = cc
  endpoint_injective (toggle ns name id) nothing h k e = cc
  endpoint_injective (delete ns name id) (toggle ns' name' id') h k e =
      let other : codes "DELETE" ≡ codes "POST" = ap method_of e in cc
  endpoint_injective (toggle ns name id) (delete ns' name' id') h k e =
      let other : codes "POST" ≡ codes "DELETE" = ap method_of e in cc
  endpoint_injective (delete ns name id) (delete ns' name' id') h k e =
      let (a, b, c) =
        place b'?' ns ns' name name' (codes "clusterId=" ++ id) (codes "clusterId=" ++ id') h.0.0
          k.0.0 h.1.1 k.1.1 (append-cancel (codes "/flags/") _ _ (ap path_of e)) in
      cc (a, b, append-cancel (codes "clusterId=") id id' c)
  endpoint_injective (toggle ns name id) (toggle ns' name' id') h k e =
      let full : Text → Text = λ r. codes "toggle" ++ (codes "?clusterId=" ++ r) in
      let tail : Text → Text = λ r. codes "?clusterId=" ++ r in
      let paths = append-cancel (codes "/flags/") _ _ (ap path_of e) in
      let (a, b, c) = place b'/' ns ns' name name' (full id) (full id') h.0.0 k.0.0 h.1.0 k.1.0 (
        sym (append_assoc (ns ++ b'/' ∷ name) (codes "/toggle") (tail id))
        ∙ paths
        ∙ append_assoc (ns' ++ b'/' ∷ name') (codes "/toggle") (tail id')) in
      cc (a, b, append-cancel (codes "toggle?clusterId=") id id' c)
