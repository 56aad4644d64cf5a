-- ===== src/Types.antt =====
-- web/src/lib/types.ts: what the API server sends and receives.
use vexil.Prelude.{ℕ, Bool, Option, List}
use vexil.Text.{Text, codes}

pub data FlagType : Type 0 where
  boolean string integer json : FlagType

pub data FlagPhase : Type 0 where
  pending active rolling_out failed disabled : FlagPhase

pub data FlagLifecycle : Type 0 where
  active deprecated archived : FlagLifecycle

pub data Operator : Type 0 where
  eq neq in_list notin matches : Operator

-- `V` is the type of a label's value: a text in what is received, and possibly undefined in what a
-- form sends.
pub record LabelSelector (V : Type 0) : Type 0 where
  pub match_labels : Option (List (Text × V))

pub record EnvVarDelivery (V : Type 0) : Type 0 where
  pub name : Option Text
  pub selector : LabelSelector V

pub record ConfigMapDelivery (V : Type 0) : Type 0 where
  pub config_map_name : Text
  pub key : Text
  pub selector : LabelSelector V

pub record SidecarDelivery (V : Type 0) : Type 0 where
  pub port : Option ℕ
  pub selector : LabelSelector V

pub record DeliverySpec (V : Type 0) : Type 0 where
  pub env_var : Option (EnvVarDelivery V)
  pub config_map : Option (ConfigMapDelivery V)
  pub sidecar : Option (SidecarDelivery V)

pub record Condition : Type 0 where
  pub attribute : Text
  pub operator : Operator
  pub values : List Text

pub record TargetingRule : Type 0 where
  pub name : Text
  pub conditions : List Condition
  pub value : Text
  pub percentage : Option ℕ

-- `phase` and `targeted_workloads` are optional here, since every page provides for their absence.
pub record FeatureFlag : Type 0 where
  pub name : Text
  pub namespace : Text
  pub cluster_id : Text
  pub description : Option Text
  pub type : FlagType
  pub default_value : Text
  pub current_value : Text
  pub phase : Option FlagPhase
  pub disabled : Bool
  pub targeted_workloads : Option ℕ
  pub lifecycle : FlagLifecycle
  pub delivery : Option (DeliverySpec Text)
  pub rules : Option (List TargetingRule)
  pub created_at : Text
  pub updated_at : Option Text

pub data ClusterStatus : Type 0 where
  connected disconnected error : ClusterStatus

pub record Cluster : Type 0 where
  pub id : Text
  pub display_name : Text
  pub api_server : Text
  pub status : ClusterStatus
  pub kubernetes_version : Option Text
  pub discovered_workloads : ℕ

pub record AuditEvent : Type 0 where
  pub id : Text
  pub timestamp : Text
  pub actor : Option Text
  pub action : Text
  pub resource : Text
  pub resource_id : Text
  pub cluster : Option Text

pub data WorkloadKind : Type 0 where
  deployment stateful_set daemon_set : WorkloadKind

pub record EnvVarInfo : Type 0 where
  pub name : Text
  pub value : Option Text
  pub source : Option Text
  pub is_masked : Bool
  pub is_flag : Bool
  pub flag_name : Option Text

-- A reference to a ConfigMap or a Secret.
pub record KeyRef : Type 0 where
  pub name : Text
  pub key : Option Text

-- `env_vars`, `config_map_refs` and the containers of a workload are optional here, since the page
-- provides for their absence.
pub record ContainerInfo : Type 0 where
  pub name : Text
  pub image : Text
  pub env_vars : Option (List EnvVarInfo)
  pub config_map_refs : Option (List KeyRef)
  pub secret_refs : List KeyRef

pub record DiscoveredWorkload : Type 0 where
  pub cluster : Text
  pub namespace : Text
  pub name : Text
  pub kind : WorkloadKind
  pub replicas : Option ℕ
  pub labels : List (Text × Text)
  pub containers : Option (List ContainerInfo)
  pub matching_flags : Option (List Text)

-- The values of the three unions as the strings that they are.
abbrev pub type_text : FlagType → Text
type_text boolean = codes "boolean"
type_text string = codes "string"
type_text integer = codes "integer"
type_text json = codes "json"

abbrev pub phase_text : FlagPhase → Text
phase_text pending = codes "Pending"
phase_text FlagPhase.active = codes "Active"
phase_text rolling_out = codes "RollingOut"
phase_text failed = codes "Failed"
phase_text disabled = codes "Disabled"
