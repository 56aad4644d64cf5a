-- ===== src/Tests/Sdk.antt =====
-- The Node.js client and the texts that it reads, at concrete data.
use vexil.Prelude.{
  subst, ◌≡◌, refl, ◌↔◌, ◌⊎◌, inl, inr, Bool, true, false, Option, none, some, List, [], ◌∷◌, ◌++◌,
  In, arith, if◌then◌else◌,
}
use vexil.Text.{Text, codes, text_eq, lookup, DistinctKeys}
use vexil.Text.Case.{ascii_case, upper_code, lower_code, IsAscii}
use vexil.Text.Decimal.{ℤ, pos}
use vexil.Text.Decimal.Reads.{Reads}
use vexil.Text.Decimal.Print.{print}
use vexil.Text.Search.{starts_with}
use vexil.Text.Trim.{trim, is_space}
use vexil.Sdk.{
  Flag, rejected, Provider, env, configmap, Client, Host, string_flag, env_name, flag_name, all_env,
  all_flags, all_flags_of, all_config_map, all_mounted, mounted_flag, get_flag, get_flag_of,
  get_env, int,
}
use vexil.Sdk.EnvNames.{IsScreaming, env_name-flag_name_iff}
use vexil.Sdk.Listing.{all_flags-get_flag_env}
use vexil.Sdk.Accessors.{int-Reads}
use vexil.Sdk.ConfigMap.{all_flags-get_flag_configmap, all_flags_unreadable, ReadableExists}

-- Two variables, and a directory with a file and a subdirectory. The values of JSON are texts, and
-- no document is read.
abbrev read_file : Text → Option Text
read_file path = if text_eq path (codes "/etc/vexil/limit") then some (codes " 20\n") else none

abbrev read_dir : Bool → Option (List Text)
read_dir nested =
    some (
      codes ".data"
      ∷ (if nested then codes "nested" ∷ (codes "limit" ∷ []) else codes "limit" ∷ []))

abbrev host : Bool → Host Text ℤ
host nested = record {
  case = ascii_case;
  number = λ z. z;
  environ = (codes "HOME", codes "/root") ∷ ((codes "FLAG_DARK_MODE", codes "YES") ∷ []);
  fetch_flag = λ url. rejected;
  fetch_flags = λ url. rejected;
  is_directory = λ path. some true;
  exists = λ path. true;
  read_file = read_file;
  read_dir = λ path. read_dir nested;
  join_path = λ p q. p ++ b'/' ∷ q;
  parse_json = λ s. none;
  has_key = λ j k. none;
  get_key = λ j k. [];
  entries = λ j. none;
  to_text = λ j. some j;
}

abbrev client : Provider → Client
client provider = record {
  provider = provider;
  address = codes "http://localhost:8514";
  config_path = codes "/etc/vexil";
}

abbrev dark_mode : Flag
dark_mode = string_flag (codes "dark-mode") (codes "YES")

abbrev limit : Flag
limit = string_flag (codes "limit") (codes "20")

-- A lower case name is listed, and read back from another variable.
lower_case_lost :
    env_name (host false) (flag_name (host false) (codes "FLAG_mode")) ≡ codes "FLAG_MODE"
unfolding env_name flag_name upper_code lower_code
lower_case_lost = refl

env_name-flag_name_iff_example :
    (env_name (host false) (flag_name (host false) (codes "FLAG_" ++ codes "DARK_MODE"))
      ≡ codes "FLAG_" ++ codes "DARK_MODE")
    ↔ IsScreaming (codes "DARK_MODE")
env_name-flag_name_iff_example =
    env_name-flag_name_iff (host false) (codes "DARK_MODE") (ground arith)

conventional : (s : Text) → codes "FLAG_DARK_MODE" ≡ codes "FLAG_" ++ s → IsAscii s × IsScreaming s
conventional s e =
    let rest : codes "DARK_MODE" ≡ s = cc in
    subst (λ t. IsAscii t × IsScreaming t) rest (ground arith, ground arith)

listed : In dark_mode (all_flags (host false) (client env))
unfolding all_flags all_flags_of all_env flag_name lower_code starts_with
listed = inl refl

distinct : DistinctKeys (host false).environ
unfolding lookup text_eq
distinct = (refl, (refl, tt))

all_flags-get_flag_env_example :
    get_flag (host false) (client env) (codes "dark-mode") ≡ some dark_mode
all_flags-get_flag_env_example =
    all_flags-get_flag_env (host false) (client env) dark_mode refl distinct
      ((λ s e. absurd cc), (conventional, tt)) listed

found : get_flag (host false) (client env) (codes "dark-mode") ≡ some dark_mode
unfolding get_flag get_flag_of get_env env_name upper_code text_eq
found = refl

missing : get_flag (host false) (client env) (codes "gone") ≡ none
unfolding get_flag get_flag_of get_env env_name upper_code text_eq
missing = refl

int-Reads_example :
    ((z : ℤ) × Reads (codes "YES") z
      × (int (host false) (client env) (codes "dark-mode") (pos 7) ≡ z))
    ⊎ (((z : ℤ) → ¬ Reads (codes "YES") z)
        × (int (host false) (client env) (codes "dark-mode") (pos 7) ≡ pos 7))
int-Reads_example =
    int-Reads (host false) (client env) (codes "dark-mode") dark_mode found refl (pos 7)

readable : (nested : Bool) → ReadableExists (host nested) (client configmap)
readable nested p t e = refl

mounted : In limit (all_flags (host false) (client configmap))
unfolding all_flags all_flags_of all_config_map all_mounted mounted_flag starts_with trim text_eq
    is_space
mounted = inl refl

all_flags-get_flag_configmap_example :
    get_flag (host false) (client configmap) (codes "limit") ≡ some limit
all_flags-get_flag_configmap_example =
    all_flags-get_flag_configmap (host false) (client configmap) limit refl (readable false)
      (λ content j e parsed. absurd cc) mounted

all_flags_unreadable_example :
    (all_flags (host true) (client configmap) ≡ [])
    × (get_flag (host true) (client configmap) (codes "limit")
        ≡ some (string_flag (codes "limit") (trim (codes " 20\n"))))
all_flags_unreadable_example =
    all_flags_unreadable (host true) (client configmap)
      (codes ".data" ∷ (codes "nested" ∷ (codes "limit" ∷ []))) (codes "nested") (codes "limit")
      (codes " 20\n") refl (readable true) refl refl (inr (inl refl)) (unfold starts_with in refl)
      (unfold text_eq in refl) (unfold text_eq in refl)

limit_found : get_flag (host false) (client configmap) (codes "limit") ≡ some limit
limit_found =
    all_flags-get_flag_configmap (host false) (client configmap) limit refl (readable false)
      (λ content j e parsed. absurd cc) mounted

twenty : codes "20" ≡ print 20
unfolding print
twenty = refl
