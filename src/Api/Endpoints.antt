-- ===== src/Api/Endpoints.antt =====
-- The calls of web/src/lib/api-client.ts: the path, method and body that each hands to `request`,
-- or, for the two of `authApi`, to `fetch`. `encode` is `URLSearchParams.toString` and `P` the
-- values that `JSON.stringify` writes.
use vexil.Prelude.{◌≡◌, sym, ap, ◌∙◌, Option, none, some, List, [], ◌∷◌, ◌++◌, append_assoc}
use vexil.Text.{Text, codes}
use vexil.Text.Parts.{Lacks, cut_injective}

pub record Endpoint (P : Type 0) : Type 0 where
  pub path : Text
  pub method : Text
  pub body : Option P

abbrev get : {P : Type 0} → Text → Endpoint P
get path = record { path = path; method = codes "GET"; body = none }

abbrev send : {P : Type 0} → Text → Text → P → Endpoint P
send method path data' = record { path = path; method = method; body = some data' }

abbrev bare : {P : Type 0} → Text → Text → Endpoint P
bare method path = record { path = path; method = method; body = none }

-- `if (v) search.set(key, v)`.
abbrev param : Text → Option Text → List (Text × Text)
param key none = []
param key (some []) = []
param key (some (c ∷ v)) = (key, c ∷ v) ∷ []

-- `qs ? `?${qs}` : ''`.
abbrev query : Text → Text
query [] = []
query (c ∷ qs) = b'?' ∷ (c ∷ qs)

unfoldable pub flag_path : Text → Text → Text
flag_path namespace name = codes "/flags/" ++ (namespace ++ b'/' ∷ name)

abbrev with_cluster : Text → Text → Text
with_cluster path cluster_id = path ++ (codes "?clusterId=" ++ cluster_id)

module _ (encode : List (Text × Text) → Text) where
  unfoldable pub list_flags : {P : Type 0} → Option Text → Option Text → Endpoint P
  list_flags cluster_id namespace = get (
      codes "/flags"
      ++ query
          (encode (param (codes "clusterId") cluster_id ++ param (codes "namespace") namespace)))

  unfoldable pub list_audit : {P : Type 0} → Option Text → Option Text → Option Text → Endpoint P
  list_audit resource action cluster = get (
      codes "/audit"
      ++ query (
          encode (
            param (codes "resource") resource
            ++ (param (codes "action") action ++ param (codes "cluster") cluster))))

module _ {P : Type 0} where
  unfoldable pub login : P → Endpoint P
  login credentials = send (codes "POST") (codes "/auth/login") credentials

  unfoldable pub logout : Endpoint P
  logout = bare (codes "POST") (codes "/auth/logout")

  unfoldable pub get_flag : Text → Text → Text → Endpoint P
  unfolding flag_path
  get_flag namespace name cluster_id = get (with_cluster (flag_path namespace name) cluster_id)

  unfoldable pub create_flag : P → Endpoint P
  create_flag flag = send (codes "POST") (codes "/flags") flag

  unfoldable pub update_flag : Text → Text → Text → P → Endpoint P
  unfolding flag_path
  update_flag namespace name cluster_id changes =
      send (codes "PUT") (with_cluster (flag_path namespace name) cluster_id) changes

  unfoldable pub delete_flag : Text → Text → Text → Endpoint P
  unfolding flag_path
  delete_flag namespace name cluster_id =
      bare (codes "DELETE") (with_cluster (flag_path namespace name) cluster_id)

  unfoldable pub toggle_flag : Text → Text → Text → Endpoint P
  unfolding flag_path
  toggle_flag namespace name cluster_id =
      bare (codes "POST") (with_cluster (flag_path namespace name ++ codes "/toggle") cluster_id)

  unfoldable pub list_clusters : Endpoint P
  list_clusters = get (codes "/clusters")

  unfoldable pub get_cluster : Text → Endpoint P
  get_cluster id = get (codes "/clusters/" ++ id)

  unfoldable pub register_cluster : P → Endpoint P
  register_cluster cluster = send (codes "POST") (codes "/clusters") cluster

  unfoldable pub remove_cluster : Text → Endpoint P
  remove_cluster id = bare (codes "DELETE") (codes "/clusters/" ++ id)

  unfoldable pub list_workloads : Text → Option Text → Endpoint P
  list_workloads cluster_id none = get (codes "/clusters/" ++ (cluster_id ++ codes "/workloads"))
  list_workloads cluster_id (some []) =
      get (codes "/clusters/" ++ (cluster_id ++ codes "/workloads"))
  list_workloads cluster_id (some (c ∷ ns)) = get (
      codes "/clusters/"
      ++ (cluster_id ++ (codes "/workloads" ++ (codes "?namespace=" ++ (c ∷ ns)))))

  unfoldable pub get_workload : Text → Text → Text → Endpoint P
  get_workload cluster_id namespace name =
      get
        (codes "/clusters/" ++ (cluster_id ++ (codes "/workloads/" ++ (namespace ++ b'/' ∷ name))))

  unfoldable pub list_users : Endpoint P
  list_users = get (codes "/users")

  unfoldable pub create_user : P → Endpoint P
  create_user user = send (codes "POST") (codes "/users") user

  unfoldable pub update_user : Text → P → Endpoint P
  update_user username changes = send (codes "PUT") (codes "/users/" ++ username) changes

  unfoldable pub delete_user : Text → Endpoint P
  delete_user username = bare (codes "DELETE") (codes "/users/" ++ username)

pub append-cancel : (p s t : Text) → p ++ s ≡ p ++ t → s ≡ t
append-cancel [] s t e = e
append-cancel (c ∷ p) s t e = append-cancel p s t (cc)

-- The address of a flag determines its namespace, name and cluster, if no namespace holds a slash
-- and no name a question mark: two flags never share one.
get_flag_injective :
    {P : Type 0} (ns ns' name name' id id' : Text)
    → Lacks b'/' ns
    → Lacks b'/' ns'
    → Lacks b'?' name
    → Lacks b'?' name'
    → get_flag {P = P} ns name id ≡ get_flag ns' name' id'
    → (ns ≡ ns') × (name ≡ name') × (id ≡ id')
unfolding get_flag
get_flag_injective ns ns' name name' id id' h h' k k' e =
    let q : Text = codes "?clusterId=" ++ id in
    let q' : Text = codes "?clusterId=" ++ id' in
    let paths : (ns ++ b'/' ∷ name) ++ q ≡ (ns' ++ b'/' ∷ name') ++ q' =
      append-cancel (codes "/flags/") _ _ (ap (λ r. r.path) e) in
    let (same_ns, rest) =
      cut_injective b'/' ns ns' (name ++ q) (name' ++ q') h h'
        (sym (append_assoc ns (b'/' ∷ name) q) ∙ paths ∙ append_assoc ns' (b'/' ∷ name') q') in
    let (same_name, ids) = cut_injective b'?' name name' _ _ k k' rest in
    (same_ns, same_name, append-cancel (codes "clusterId=") id id' ids)
