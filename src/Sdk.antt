-- ===== src/Sdk.antt =====
-- sdks/node/src/index.ts: the Node.js client. What the client asks of its surroundings, the
-- environment, the sidecar's HTTP server, the mounted files and `JSON.parse`, is the record `Host`.
pub mod EnvNames
pub mod Listing
pub mod Accessors
pub mod ConfigMap
use vexil.Prelude.{
  ◌≡◌, refl, Bool, true, false, not, ◌&&◌, ◌||◌, Option, none, some, List, [], ◌∷◌, ◌++◌, map, keep,
  traverse, catch, maybe, ◌>>=◌, if◌then◌else◌,
}
use vexil.Text.{Text, codes, text_eq, or_else, or_text, lookup}
use vexil.Text.Case.{CaseMapping, replace_all}
use vexil.Text.Decimal.{ℤ, parse_int}
use vexil.Text.Search.{starts_with}
use vexil.Text.Trim.{trim}

pub record Flag : Type 0 where
  pub name : Text
  pub type : Text
  pub value : Text
  pub disabled : Bool

-- `other` stands for a value that no type checker has looked at.
pub data Provider : Type 0 where
  env sidecar configmap : Provider
  other : Text → Provider

pub record ClientOptions : Type 0 where
  pub provider : Provider
  pub address : Option Text
  pub path : Option Text

pub record Client : Type 0 where
  pub provider : Provider
  pub address : Text
  pub config_path : Text

-- What `fetch` gives: a rejection, or a response with its `ok` and the body that `resp.json()`
-- reads, `none` where that throws.
pub data Fetched (A : Type 0) : Type 0 where
  rejected : Fetched A
  responded : (is_ok : Bool) → (body : Option A) → Fetched A

-- `J` holds the values of JSON and `N` the numbers. `none` is an exception throughout.
pub record Host (J N : Type 0) : Type 0 where
  pub case : CaseMapping
  pub number : ℤ → N
  pub environ : List (Text × Text)
  pub fetch_flag : Text → Fetched (Option Flag)
  pub fetch_flags : Text → Fetched (List Flag)
  pub is_directory : Text → Option Bool
  pub exists : Text → Bool
  pub read_file : Text → Option Text
  pub read_dir : Text → Option (List Text)
  pub join_path : Text → Text → Text
  pub parse_json : Text → Option J
  pub has_key : J → Text → Option Bool
  pub get_key : J → Text → J
  pub entries : J → Option (List (Text × J))
  pub to_text : J → Option Text

-- `constructor`.
unfoldable pub new_client : ClientOptions → Client
unfolding starts_with
new_client options =
    let address = or_text options.address (codes "http://localhost:8514") in
    record {
      provider = options.provider;
      address = if starts_with address (codes "http") then address else codes "http://" ++ address;
      config_path = or_text options.path (codes "/etc/vexil");
    }

-- The literal `{ name, type: 'string', value, disabled: false }`.
abbrev pub string_flag : Text → Text → Flag
string_flag name value = record {
  name = name;
  type = codes "string";
  value = value;
  disabled = false;
}

-- `!flag || flag.disabled`, and the flag otherwise.
unfoldable pub enabled : Option Flag → Option Flag
enabled none = none
enabled (some flag) = if flag.disabled then none else some flag

-- `['true', '1', 'yes'].includes(v)`.
unfoldable pub is_truthy : Text → Bool
unfolding text_eq
is_truthy v = text_eq (codes "true") v || text_eq (codes "1") v || text_eq (codes "yes") v

-- `key.slice(5)`, for a key that begins with the five code units of the prefix.
abbrev pub slice_five : Text → Text
slice_five (a ∷ (b ∷ (c ∷ (d ∷ (e ∷ rest))))) = rest
slice_five _ = []

-- `if (!resp.ok) return d; return await resp.json()`, with the `try` round it.
abbrev pub received : {A : Type 0} → Fetched A → A → A
received rejected d = d
received (responded false body) d = d
received (responded true body) d = catch body d

module _ {J N : Type 0} (host : Host J N) where
  unfoldable pub env_name : Text → Text
  unfolding replace_all
  env_name name = codes "FLAG_" ++ replace_all b'-' b'_' (host.case.to_upper name)

  unfoldable pub get_env : Text → Option Flag
  unfolding env_name lookup
  get_env name = lookup (env_name name) host.environ >>= λ value. some (string_flag name value)

  unfoldable pub flag_name : Text → Text
  unfolding replace_all
  flag_name key = replace_all b'_' b'-' (host.case.to_lower (slice_five key))

  unfoldable pub all_env : List Flag
  unfolding flag_name starts_with
  all_env =
      map (λ e. string_flag (flag_name e.0) (or_else e.1 []))
        (keep (λ e. starts_with e.0 (codes "FLAG_")) host.environ)

  unfoldable pub get_sidecar : Client → Text → Option Flag
  get_sidecar c name = received (host.fetch_flag (c.address ++ (codes "/flags/" ++ name))) none

  unfoldable pub all_sidecar : Client → List Flag
  all_sidecar c = received (host.fetch_flags (c.address ++ codes "/flags")) []

  unfoldable pub get_mounted : Client → Text → Option (Option Flag)
  get_mounted c name =
      let file = host.join_path c.config_path name in
      if not (host.exists file)
      then some none
      else (host.read_file file >>= λ value. some (some (string_flag name (trim value))))

  unfoldable pub get_json_file : Client → Text → Option (Option Flag)
  get_json_file c name = do
    content ← host.read_file c.config_path
    document ← host.parse_json content
    present ← host.has_key document name
    let found = host.to_text (host.get_key document name)
    if present then (found >>= λ value. some (some (string_flag name value))) else some none

  unfoldable pub get_config_map : Client → Text → Option Flag
  get_config_map c name =
      catch
        (do
          directory ← host.is_directory c.config_path
          if directory then get_mounted c name else get_json_file c name)
        none

  unfoldable pub mounted_flag : Client → Text → Option Flag
  mounted_flag c f = do
    value ← host.read_file (host.join_path c.config_path f)
    some (string_flag f (trim value))

  unfoldable pub all_mounted : Client → Option (List Flag)
  unfolding starts_with
  all_mounted c = do
    names ← host.read_dir c.config_path
    traverse (mounted_flag c) (keep (λ f. not (starts_with f (codes "."))) names)

  unfoldable pub all_json_file : Client → Option (List Flag)
  all_json_file c = do
    content ← host.read_file c.config_path
    document ← host.parse_json content
    es ← host.entries document
    traverse (λ e. host.to_text e.1 >>= λ v. some (string_flag e.0 v)) es

  unfoldable pub all_config_map : Client → List Flag
  all_config_map c =
      catch
        (do
          directory ← host.is_directory c.config_path
          if directory then all_mounted c else all_json_file c)
        []

  unfoldable pub get_flag_of : Provider → Client → Text → Option Flag
  get_flag_of env c name = get_env name
  get_flag_of sidecar c name = get_sidecar c name
  get_flag_of configmap c name = get_config_map c name
  get_flag_of (other p) c name = none

  unfoldable pub get_flag : Client → Text → Option Flag
  get_flag c name = get_flag_of c.provider c name

  unfoldable pub all_flags_of : Provider → Client → List Flag
  all_flags_of env c = all_env
  all_flags_of sidecar c = all_sidecar c
  all_flags_of configmap c = all_config_map c
  all_flags_of (other p) c = []

  unfoldable pub all_flags : Client → List Flag
  all_flags c = all_flags_of c.provider c

  unfoldable pub bool : Client → Text → Bool → Bool
  bool c name default_val =
      maybe (enabled (get_flag c name)) default_val
        λ flag. is_truthy (host.case.to_lower flag.value)

  unfoldable pub string : Client → Text → Text → Text
  string c name default_val = maybe (enabled (get_flag c name)) default_val λ flag. flag.value

  unfoldable pub int : Client → Text → N → N
  int c name default_val =
      maybe (enabled (get_flag c name)) default_val
        λ flag. maybe (parse_int flag.value) default_val host.number

  -- The outer `none` is an exception, the inner one `null`.
  unfoldable pub json : Client → Text → Option (Option J)
  json c name =
      maybe (enabled (get_flag c name)) (some none)
        λ flag. host.parse_json flag.value >>= λ v. some (some v)
