-- ===== src/Config/Load.antt =====
-- pkg/config/config.go: `getInternal`, which reads the configuration from the config map, and the search for
-- the owner of the controller's own pod.
pub mod Owners
pub mod Outcomes
use Prim.Native.Nat.{ℕ, zero, suc, ◌+◌}
use Prim.Native.Char.{code}
use batch_job_controller.Base.{
  String, Bool, true, false, ◌&&◌, List, [], ◌∷◌, Option, none, some, ◌==◌, leb, eqb, if◌then◌else◌,
}
use batch_job_controller.Base.Results.{Result, good, bad}
use batch_job_controller.Base.Dict.{Dict, lookup}
use batch_job_controller.Base.Int.{ℤ, pos, negsuc}
use batch_job_controller.Config.{Config, Owner}

-- `metav1.OwnerReference`: the same texts that tell an object
abbrev pub Reference : Type 0
Reference = Owner

-- What `Get` of an object in the namespace finds: the references of its owners.
pub record Reader : Type 0 where
  pub get : Reference → Option (List Reference)
  pub config_map : (namespace name : String) → Option (Dict String)
  -- the YAML decoder
  pub decode : String → Option Config

-- `os.LookupEnv`; `os.Getenv` gives the empty text for a variable that is not set
abbrev pub Environment : Type 0
Environment = Dict String

abbrev pub getenv : Environment → String → String
getenv env name = elim (lookup name env) [ none ↦ "" | some v ↦ v ]

-- the variables, and the keys of the config map
abbrev pub env_hostname : String
env_hostname = "HOSTNAME"

abbrev pub env_config_map_name : String
env_config_map_name = "CONFIG_MAP_NAME"

abbrev pub env_dev_mode : String
env_dev_mode = "DEV_MODE"

abbrev pub env_report_directory : String
env_report_directory = "REPORT_DIRECTORY"

abbrev pub pod_template_name : String
pod_template_name = "pod-template.yaml"

abbrev pub config_file_name : String
config_file_name = "config.yaml"

-- `findOwner`, on fuel; `none` is fuel that ran out. The inner option is nil.
unfoldable pub find_owner : ℕ → Reader → Reference → Option (Option Owner)
find_owner zero r ref = none
find_owner (suc fuel) r ref = elim (r.get ref) [
  | none ↦ some none
  | some [] ↦ some (some ref)
  | some (owner ∷ others) ↦ find_owner fuel r owner
]

-- `findPodOwner`
unfoldable pub find_pod_owner : ℕ → Reader → Environment → Option (Option Owner)
unfolding find_owner
find_pod_owner fuel r env =
    find_owner fuel r (record { kind = "Pod"; api_version = "v1"; name = getenv env env_hostname })

lower : ℕ → ℕ
lower c = if leb b'A' c && leb c b'Z' then c + 32 else c

-- `strings.EqualFold` with a lower-case text of letters that no character beyond ASCII folds to
unfoldable pub equal_fold : String → String → Bool
unfolding lower
equal_fold String.[] String.[] = true
equal_fold String.[] (String.◌∷◌ d t) = false
equal_fold (String.◌∷◌ c s) String.[] = false
equal_fold (String.◌∷◌ c s) (String.◌∷◌ d t) = eqb (lower (code c)) (code d) && equal_fold s t

-- `IsDevMode`
unfoldable pub is_dev_mode : Environment → Bool
unfolding equal_fold
is_dev_mode env = equal_fold (getenv env env_dev_mode) "true"

-- The errors of `getInternal`.
pub data LoadError : Type 0 where
  no_config_map no_config_file unreadable_config no_pod_template : LoadError
  no_reader : String → LoadError

pub data Loaded : Type 0 where
  loaded : Config → Loaded
  refused : LoadError → Loaded

-- ten seconds, in nanoseconds
abbrev pub default_startup_delay : ℤ
default_startup_delay = pos 10000000000

abbrev pub or_default_delay : ℤ → ℤ
or_default_delay (pos zero) = default_startup_delay
or_default_delay (pos (suc n)) = pos (suc n)
or_default_delay (negsuc n) = negsuc n

-- what `getInternal` sets of the decoded configuration
unfoldable pub complete :
    Environment → (namespace template : String) → Option Owner → Config → Config
unfolding is_dev_mode
complete env namespace template owner cfg = record cfg {
  job_pod_template = template;
  namespace = namespace;
  owner = owner;
  startup_delay = or_default_delay cfg.startup_delay;
  dev_mode = is_dev_mode env;
  report_directory = elim (lookup env_report_directory env) [
    | none ↦ cfg.report_directory
    | some dir ↦ dir
  ];
}

-- `getInternal`, with fuel for the search of the owner
unfoldable pub get_internal : ℕ → Reader → Environment → (namespace : String) → Option Loaded
unfolding find_pod_owner complete
get_internal fuel r env namespace = elim (r.config_map namespace (getenv env env_config_map_name)) [
  | none ↦ some (refused no_config_map)
  | some contents ↦ elim (lookup config_file_name contents) [
    | none ↦ some (refused no_config_file)
    | some text ↦ elim (r.decode text) [
      | none ↦ some (refused unreadable_config)
      | some cfg ↦ elim (lookup pod_template_name contents) [
        | none ↦ some (refused no_pod_template)
        | some template ↦ elim (find_pod_owner fuel r env) [
          | none ↦ none
          | some owner ↦ some (loaded (complete env namespace template owner cfg))
        ]
      ]
    ]
  ]
]

-- `Get`, for the making of the reader
unfoldable pub get :
    ℕ → (new_reader : Result Reader) → Environment → (namespace : String) → Option Loaded
unfolding get_internal
get fuel (bad err) env namespace = some (refused (no_reader err))
get fuel (good r) env namespace = get_internal fuel r env namespace
