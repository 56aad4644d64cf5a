-- ===== src/Sdk/ConfigMap.antt =====
-- The mounted ConfigMap, a directory or one JSON file: `getConfigMap` and `allConfigMap` of
-- sdks/node/src/index.ts.
use vexil.Prelude.{
  ◌≡◌, sym, subst, Bool, true, false, not, none, some, List, [], >>=-eq-some, In, keep-In,
  traverse-In, traverse_throws, catch-In, if◌then◌else◌,
}
use vexil.Text.{Text, codes}
use vexil.Text.Search.{starts_with}
use vexil.Text.Trim.{trim}
use vexil.Sdk.{
  Flag, Client, Host, configmap, string_flag, get_mounted, get_json_file, get_config_map,
  mounted_flag, all_mounted, all_json_file, all_config_map, get_flag, get_flag_of, all_flags_of,
  all_flags,
}

module _ {J N : Type 0} (host : Host J N) (c : Client) where
  -- A file that can be read exists.
  abbrev pub ReadableExists : Type 0
  ReadableExists = (p t : Text) → host.read_file p ≡ some t → host.exists p ≡ true

  -- A document is an object: the keys that its entries show are the keys that `in` finds, with the
  -- values that a property access gives.
  abbrev pub IsObject : J → Type 0
  IsObject j =
      (es : List (Text × J)) (k : Text) (v : J)
      → host.entries j ≡ some es
      → In (k, v) es
      → (host.has_key j k ≡ some true) × (host.get_key j k ≡ v)

  get_mounted_readable :
      (name t : Text)
      → ReadableExists
      → host.read_file (host.join_path c.config_path name) ≡ some t
      → get_mounted host c name ≡ some (some (string_flag name (trim t)))
  unfolding get_mounted
  get_mounted_readable name t ex there = rw (ex _ t there, there)

  mounted_flag-get_mounted :
      (name : Text) (f : Flag)
      → ReadableExists
      → mounted_flag host c name ≡ some f
      → get_mounted host c f.name ≡ some (some f)
  unfolding mounted_flag
  mounted_flag-get_mounted name f ex h =
      let (t, there, same) = >>=-eq-some (host.read_file (host.join_path c.config_path name)) _ h in
      let is_f : string_flag name (trim t) ≡ f = cc in
      subst (λ g. get_mounted host c g.name ≡ some (some g)) is_f
        (get_mounted_readable name t ex there)

  all_mounted-get_mounted :
      (fs : List Flag) (f : Flag)
      → ReadableExists
      → all_mounted host c ≡ some fs
      → In f fs
      → get_mounted host c f.name ≡ some (some f)
  unfolding all_mounted
  all_mounted-get_mounted fs f ex h m =
      let (names, listed, e) = >>=-eq-some (host.read_dir c.config_path) _ h in
      let (name, _, made) = traverse-In (mounted_flag host c) _ fs e m in
      mounted_flag-get_mounted name f ex made

  get_json_file_keyed :
      (content k t : Text) (j v : J)
      → host.read_file c.config_path ≡ some content
      → host.parse_json content ≡ some j
      → host.has_key j k ≡ some true
      → host.get_key j k ≡ v
      → host.to_text v ≡ some t
      → get_json_file host c k ≡ some (some (string_flag k t))
  unfolding get_json_file
  get_json_file_keyed content k t j v there parsed has got text = rw (there, parsed, has, got, text)

  all_json_file-get_json_file :
      (fs : List Flag) (f : Flag)
      → ((content : Text) (j : J)
          → host.read_file c.config_path ≡ some content
          → host.parse_json content ≡ some j
          → IsObject j)
      → all_json_file host c ≡ some fs
      → In f fs
      → get_json_file host c f.name ≡ some (some f)
  unfolding all_json_file
  all_json_file-get_json_file fs f object h m =
      let (content, there, e) = >>=-eq-some (host.read_file c.config_path) _ h in
      let (j, parsed, e') = >>=-eq-some (host.parse_json content) _ e in
      let (es, shown, e'') = >>=-eq-some (host.entries j) _ e' in
      let (entry, listed, made) = traverse-In _ es fs e'' m in
      let (v, text, same) = >>=-eq-some (host.to_text entry.1) _ made in
      let (has, got) = object content j there parsed es entry.0 entry.1 shown listed in
      let is_f : string_flag entry.0 v ≡ f = cc in
      subst (λ g. get_json_file host c g.name ≡ some (some g)) is_f
        (get_json_file_keyed content entry.0 v j entry.1 there parsed has got text)

  -- Each document that the mounted file holds is an object.
  abbrev pub HoldsObjects : Type 0
  HoldsObjects =
      (content : Text) (j : J)
      → host.read_file c.config_path ≡ some content
      → host.parse_json content ≡ some j
      → IsObject j

  listed-In :
      (directory : Bool) (fs : List Flag) (f : Flag)
      → ReadableExists
      → HoldsObjects
      → (if directory then all_mounted host c else all_json_file host c) ≡ some fs
      → In f fs
      → (if directory then get_mounted host c f.name else get_json_file host c f.name)
        ≡ some (some f)
  listed-In true fs f ex object h m = all_mounted-get_mounted fs f ex h m
  listed-In false fs f ex object h m = all_json_file-get_json_file fs f object h m

  listed-get_config_map :
      (f : Flag)
      → ReadableExists
      → HoldsObjects
      → In f (all_config_map host c)
      → get_config_map host c f.name ≡ some f
  unfolding all_config_map get_config_map
  listed-get_config_map f ex object m =
      let (fs, all, listed) = catch-In _ m in
      let (directory, stat, e) = >>=-eq-some (host.is_directory c.config_path) _ all in
      rw (stat, listed-In directory fs f ex object e listed)

  -- With a mounted ConfigMap as the provider, directory or JSON object, `getFlag` returns each flag
  -- that `allFlags` lists, if every readable file exists and each document that the mounted file
  -- holds is an object, whose entries are its keys.
  pub all_flags-get_flag_configmap :
      (f : Flag)
      → c.provider ≡ configmap
      → ReadableExists
      → HoldsObjects
      → In f (all_flags host c)
      → get_flag host c f.name ≡ some f
  unfolding all_flags all_flags_of get_flag get_flag_of
  all_flags-get_flag_configmap f p ex object m =
      subst (λ q. In f (all_flags_of host q c) → get_flag_of host q c f.name ≡ some f) (sym p)
        (listed-get_config_map f ex object) m

  -- One visible entry of the directory that cannot be read, a subdirectory for instance, empties
  -- the whole list, while `getFlag` still returns every flag whose own file can be read, if every
  -- readable file exists.
  pub all_flags_unreadable :
      (names : List Text) (bad good t : Text)
      → c.provider ≡ configmap
      → ReadableExists
      → host.is_directory c.config_path ≡ some true
      → host.read_dir c.config_path ≡ some names
      → In bad names
      → starts_with bad (codes ".") ≡ false
      → host.read_file (host.join_path c.config_path bad) ≡ none
      → host.read_file (host.join_path c.config_path good) ≡ some t
      → (all_flags host c ≡ []) × (get_flag host c good ≡ some (string_flag good (trim t)))
  unfolding all_flags all_flags_of get_flag get_flag_of all_config_map get_config_map all_mounted
      mounted_flag
  all_flags_unreadable names bad good t p ex dir listed m visible unreadable readable =
      let kept = keep-In (λ (f : Text). not (starts_with f (codes "."))) names m (rw visible) in
      let thrown = traverse_throws (mounted_flag host c) _ kept (rw unreadable) in
      let found = get_mounted_readable good t ex readable in
      subst
        (λ q.
          (all_flags_of host q c ≡ [])
          × (get_flag_of host q c good ≡ some (string_flag good (trim t))))
        (sym p) (rw (dir, listed, thrown), rw (dir, found))
