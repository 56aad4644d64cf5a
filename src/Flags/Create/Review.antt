-- ===== src/Flags/Create/Review.antt =====
-- What the third and the fourth step of CreateFlagModal.tsx show of the flag.
pub mod Agrees
use vexil.Prelude.{
  Bool, true, false, Option, none, some, List, [], ◌∷◌, ◌++◌, is_empty, if◌then◌else◌,
}
use vexil.Text.{Text, codes, or_else, or_undefined}
use vexil.Text.Case.{CaseMapping}
use vexil.Types.{FlagType, type_text}
use vexil.Flags.Create.{DeliveryMethod, env_var, config_map, sidecar, Form, computed_env_var}

pub record Review : Type 0 where
  pub name : Text
  pub namespace : Text
  pub type : Text
  pub value : Text
  pub delivery : Text
  pub targets : Option Text
  pub description : Option Text
  pub next : Text

pub record Snippet : Type 0 where
  pub lang : Text
  pub code : Text

abbrev key_of : Form → Text
key_of form = or_else form.config_map_key form.name

-- The `\n` of a template string.
abbrev lines : List Text → Text
lines [] = []
lines (l ∷ []) = l
lines (l ∷ ls) = l ++ b'\n' ∷ lines ls

-- The report of the fourth step.
unfoldable pub success_text : Form → Text
success_text form = form.name ++ (codes " is now active in " ++ form.namespace)

module _ (case : CaseMapping) where
  unfoldable pub delivery_text : DeliveryMethod → Form → Text
  delivery_text env_var form = codes "Env var: " ++ computed_env_var case form
  delivery_text config_map form =
      codes "ConfigMap: " ++ (form.config_map_name ++ b'/' ∷ key_of form)
  delivery_text sidecar form = codes "Sidecar API (port 8514)"

  -- The rows of the third step, and the labels that it announces.
  unfoldable pub review : Form → Review
  unfolding delivery_text
  review form = record {
    name = form.name;
    namespace = form.namespace;
    type = type_text form.type;
    value = form.default_value;
    delivery = delivery_text form.delivery_method form;
    targets = or_undefined form.selector_labels;
    description = or_undefined form.description;
    next = or_else form.selector_labels (codes "(none)");
  }

  -- The code of the fourth step.
  unfoldable pub snippets : DeliveryMethod → Form → List Snippet
  snippets env_var form =
      let name = computed_env_var case form in
      record {
        lang = codes "Go";
        code = codes "darkMode := os.Getenv(\"" ++ (name ++ codes "\") == \"true\"");
      }
      ∷ (record {
        lang = codes "Python";
        code =
            codes "dark_mode = os.environ.get(\"" ++ (name ++ codes "\", \"false\") == \"true\"");
      }
          ∷ (record {
            lang = codes "Node.js";
            code = codes "const darkMode = process.env." ++ (name ++ codes " === \"true\";");
          }
              ∷ (record {
                lang = codes "C#";
                code =
                    codes "var darkMode = Environment.GetEnvironmentVariable(\""
                    ++ (name ++ codes "\") == \"true\";");
              }
                  ∷ [])))
  snippets config_map form =
      record {
        lang = codes "Mount in pod";
        code = lines (
            codes "# In your Deployment spec:"
            ∷ (codes "volumes:"
                ∷ (codes "  - name: flags"
                    ∷ (codes "    configMap:"
                        ∷ ((codes "      name: " ++ form.config_map_name)
                            ∷ (codes "containers:"
                                ∷ (codes "  - volumeMounts:"
                                    ∷ (codes "      - name: flags"
                                        ∷ (codes "        mountPath: /etc/flags" ∷ [])))))))));
      }
      ∷ (record {
        lang = codes "Read as env";
        code = lines (
            codes "# Or reference in env:"
            ∷ (codes "env:"
                ∷ ((codes "  - name: " ++ computed_env_var case form)
                    ∷ (codes "    valueFrom:"
                        ∷ (codes "      configMapKeyRef:"
                            ∷ ((codes "        name: " ++ form.config_map_name)
                                ∷ ((codes "        key: " ++ key_of form) ∷ [])))))));
      }
          ∷ [])
  snippets sidecar form =
      record {
        lang = codes "HTTP";
        code = lines (
            (codes "curl localhost:8514/flags/" ++ (form.name ++ codes "/value"))
            ∷ ((codes "# -> " ++ form.default_value) ∷ []));
      }
      ∷ (record {
        lang = codes "SSE stream";
        code = lines (
            codes "curl localhost:8514/flags/stream"
            ∷ (codes "# Real-time updates via Server-Sent Events" ∷ []));
      }
          ∷ [])
