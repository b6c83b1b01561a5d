-- ===== src/Config.antt =====
-- pkg/config/types.go: the configuration, and the names that are computed from it.
pub mod Paths
pub mod Load
use batch_job_controller.Base.{
  zero, suc, String, List, Bool, Option, none, some, head_or, split, ◌<>◌, [], ◌∷◌,
}
use batch_job_controller.Base.Dict.{Dict}
use batch_job_controller.Base.Int.{ℤ, pos, negsuc, itoa}
use Paths.{join}

-- `Metric`
pub record Metric : Type 0 where
  pub help : String
  pub labels : List String

-- `Metrics`
pub record Metrics : Type 0 where
  pub port : ℤ
  pub prefix : String
  pub gauges : Dict Metric

-- A value of the map `Custom`, whose type is `any`: the program asks whether it is a text.
pub data CustomValue : Type 0 where
  text : String → CustomValue
  other : CustomValue

-- A cluster object as the owner of the job pods: what the program reads of a `runtime.Object`.
pub record Owner : Type 0 where
  pub kind : String
  pub api_version : String
  pub name : String

-- `Config`
pub record Config : Type 0 where
  pub name : String
  pub job_service_account : String
  pub job_image_pull_secrets : List String
  pub job_node_selector : Dict String
  pub run_on_unscheduled_nodes : Bool
  pub cron_expression : String
  pub report_directory : String
  pub report_history : ℤ
  pub pod_pool_size : ℤ
  pub run_on_startup : Bool
  pub startup_delay : ℤ
  pub metrics : Metrics
  pub health_probe_port : ℤ
  pub latest_metrics_label : Bool
  pub custom : Dict CustomValue
  pub callback_service_name : String
  pub callback_service_port : ℤ
  pub leader_election_resource_lock : String
  pub save_pod_log : Bool
  pub namespace : String
  pub job_pod_template : String
  pub owner : Option Owner
  pub dev_mode : Bool

-- `PodName`; `strings.Split` never returns an empty slice, so `nameParts[0]` is there
unfoldable pub pod_name : Config → (node_name id : String) → String
pod_name cfg node_name id = cfg.name <> "-job-" <> head_or "" (split b'.' node_name) <> "-" <> id

-- a port as `HealthProbeBindAddress` and `BindAddress` print it
abbrev bind_address : String → ℤ → String
bind_address default (pos zero) = default
bind_address default (pos (suc n)) = ":" <> itoa (pos (suc n))
bind_address default (negsuc n) = ":" <> itoa (negsuc n)

-- `HealthProbeBindAddress`
unfoldable pub health_probe_bind_address : Config → String
health_probe_bind_address cfg = bind_address ":9152" cfg.health_probe_port

-- `BindAddress`
unfoldable pub metrics_bind_address : Metrics → String
metrics_bind_address m = bind_address ":9153" m.port

-- `NameFor`
unfoldable pub name_for : Metrics → String → String
name_for m name = m.prefix <> "_" <> name

-- What `os.Stat` of a path gives: no error, `os.ErrNotExist` by its text, or another error.
pub data Stat : Type 0 where
  there other_error : Stat
  not_exist : String → Stat

-- `ReportDirExistsChecker`, by its error
unfoldable pub report_dir_exists_checker : (stat : String → Stat) → Config → Option String
report_dir_exists_checker stat cfg = elim (stat cfg.report_directory) [
  | there ↦ none
  | other_error ↦ none
  | not_exist err ↦ some err
]

-- the directory that `MkReportDir` makes
unfoldable pub report_dir : Config → (execution_id : String) → String
report_dir cfg execution_id = join (cfg.report_directory ∷ execution_id ∷ [])

-- `ReportFileName`
unfoldable pub report_file_name : Config → (execution_id name : String) → String
report_file_name cfg execution_id name = join (cfg.report_directory ∷ execution_id ∷ name ∷ [])
