-- ===== src/Program.antt =====
-- cmd/main.go and cmd/generic/main.go: `Setup`, `Start` with `addToManager`, and the custom configuration
-- values. controller-runtime's manager is its lists of checks, recorders and runnables, above the answers of
-- its methods.
pub mod Wiring
pub mod Lifetime
use batch_job_controller.Base.{
  ℕ, String, Bool, true, false, ◌&&◌, List, [], ◌∷◌, ◌++◌, Option, none, some, length, any,
  if◌then◌else◌,
}
use batch_job_controller.Base.Dict.{Dict, lookup}
use batch_job_controller.Config.{Config, CustomValue, text, other}
use batch_job_controller.Base.Results.{Result}
use batch_job_controller.Config.Load.{Reader, Environment, Loaded, loaded, refused, get}
use batch_job_controller.Job.{CustomPodEnv}
use batch_job_controller.Metrics.Prom.{Prom}
use batch_job_controller.Metrics.Collector.{
  Collector, refused_name, unregistered, made, new_prom_collector,
}
use batch_job_controller.Lifecycle.Disk.{Disk}
use batch_job_controller.Lifecycle.State.{Controller}
use batch_job_controller.Lifecycle.Controller.{new_controller}

-- How a part of the program ends: with `os.Exit(1)`, with a panic, or with a value.
pub data Ended {ℓ} (A : Type ℓ) : Type ℓ where
  exited : Ended A
  panicked : Ended A
  done : A → Ended A

-- `Healthz` of pkg/inject: the name, and whether the two checks are there (not nil).
pub record Checks : Type 0 where
  pub name : String
  pub healthz : Bool
  pub readyz : Bool

-- A runnable, by the interfaces of pkg/inject and pkg/job that it implements; a cron job has the extenders
-- that it was made with.
pub record Runnable : Type 0 where
  pub takes_recorder : Bool
  pub takes_config : Bool
  pub takes_controller : Bool
  pub takes_reader : Bool
  pub takes_client : Bool
  pub checks : Option Checks
  pub extends : Option CustomPodEnv
  pub extender : List CustomPodEnv

-- A runnable with what has been injected; a recorder is its place in the order in which they are made.
pub record Injected : Type 0 where
  pub runnable : Runnable
  pub recorder : Option ℕ
  pub config : Option Config
  pub controller : Bool
  pub reader : Bool
  pub client : Bool

pub record Manager : Type 0 where
  pub healthz : List String
  pub readyz : List String
  -- the names that `GetEventRecorder` was called with
  pub recorders : List String
  pub added : List Injected

-- What the methods of the manager answer: whether `NewManager`, the adding of a check with a name and of a
-- runnable, `SetupWithManager` of the reconciler and `Start` succeed.
pub record ManagerLib : Type 0 where
  pub makes : Config → Bool
  pub takes_healthz : Manager → String → Bool
  pub takes_readyz : Manager → String → Bool
  pub takes : Runnable → Bool
  pub watches : Manager → Bool
  pub runs : Manager → Bool

-- `Main`
pub record Main (p : Prom) : Type 0 where
  pub config : Config
  pub controller : Controller p
  pub manager : Manager
  pub event_recorder : Option ℕ

abbrev pub new_manager : Manager
new_manager = record { healthz = []; readyz = []; recorders = []; added = [] }

-- `cron.Job(extender...)`
unfoldable pub cron_job : List CustomPodEnv → Runnable
cron_job extender = record {
  takes_recorder = false;
  takes_config = true;
  takes_controller = true;
  takes_reader = false;
  takes_client = true;
  checks = none;
  extends = none;
  extender = extender;
}

module _ (p : Prom) (k : ManagerLib) where
  open k use {makes, takes_healthz, takes_readyz, takes, watches, runs}

  -- what `Setup` returns
  abbrev pub ready : Config → Disk → Collector p → Main p
  ready cfg disk prom = record {
    config = cfg;
    controller = new_controller p cfg prom disk;
    manager = record new_manager { healthz = "healthz" ∷ []; readyz = "readyz" ∷ [] };
    event_recorder = none;
  }

  -- `Setup` behind the reading of the configuration. A failed `NewManager` returns a nil manager, and the
  -- next line calls a method of it.
  unfoldable pub assemble_main : (version : String) → Disk → Config → Ended (Main p)
  assemble_main version disk cfg =
      if makes cfg
      then (if takes_healthz new_manager "healthz"
          then (let m : Manager = record new_manager { healthz = "healthz" ∷ [] } in
              if takes_readyz m "readyz"
              then elim (new_prom_collector p version cfg) [
                | refused_name ↦ exited
                | unregistered ↦ panicked
                | made prom ↦ done (ready cfg disk prom)
              ]
              else exited)
          else exited)
      else panicked

  -- `Setup`, where the cluster's configuration is there, with fuel for the search
  -- of the owner; `none` is fuel that ran out
  unfoldable pub setup :
      ℕ → Result Reader → Environment → (version : String) → Disk → Option (Ended (Main p))
  unfolding assemble_main
  setup fuel r env version disk = elim (lookup "NAMESPACE" env) [
    | none ↦ some exited
    | some namespace ↦ elim (get fuel r env namespace) [
      | none ↦ none
      | some (refused err) ↦ some exited
      | some (loaded cfg) ↦ some (assemble_main version disk cfg)
    ]
  ]

  -- the recorder of `addToManager`, made with the first runnable that takes one
  unfoldable pub get_recorder : Main p → Main p × ℕ
  get_recorder m = elim m.event_recorder [
    | some e ↦ (m, e)
    | none ↦
        let e = length m.manager.recorders in
        (
          record m {
            manager = record m.manager { recorders = m.manager.recorders ++ m.config.name ∷ [] };
            event_recorder = some e;
          },
          e,
        )
  ]

  -- the checks of `addToManager`; an error of the manager is only logged
  unfoldable pub add_checks : Manager → Checks → Manager
  add_checks m c =
      let healthz_added : Manager = record m { healthz = m.healthz ++ c.name ∷ [] } in
      let m' : Manager = if c.healthz && takes_healthz m c.name then healthz_added else m in
      let readyz_added : Manager = record m' { readyz = m'.readyz ++ c.name ∷ [] } in
      if c.readyz && takes_readyz m' c.name then readyz_added else m'

  -- the injection of the recorder
  unfoldable pub inject_recorder : Main p → Runnable → Main p × Option ℕ
  unfolding get_recorder
  inject_recorder m r =
      if r.takes_recorder then ((get_recorder m).0, some ((get_recorder m).1)) else (m, none)

  unfoldable pub add_checks_of : Manager → Runnable → Manager
  unfolding add_checks
  add_checks_of m r = elim r.checks [ none ↦ m | some c ↦ add_checks m c ]

  -- `Add` of the manager
  unfoldable pub add : Manager → Injected → Manager
  add m i =
      let added : Manager = record m { added = m.added ++ i ∷ [] } in
      if takes i.runnable then added else m

  -- `addToManager`; the error of `Add` is dropped
  unfoldable pub add_to_manager : Main p → Runnable → Main p
  unfolding inject_recorder add_checks_of add
  add_to_manager m r =
      let (m', recorder) = inject_recorder m r in
      record m' {
        manager = add (add_checks_of m'.manager r) (record {
          runnable = r;
          recorder = recorder;
          config = if r.takes_config then some m.config else none;
          controller = r.takes_controller;
          reader = r.takes_reader;
          client = r.takes_client;
        });
      }

  -- `append` of a runnable that extends the environment
  abbrev pub gather : List CustomPodEnv → Option CustomPodEnv → List CustomPodEnv
  gather extender none = extender
  gather extender (some e) = extender ++ e ∷ []

  -- the loop of `Start` over the runnables
  unfoldable pub add_all : Main p → List CustomPodEnv → List Runnable → Main p × List CustomPodEnv
  unfolding add_to_manager
  add_all m extender [] = (m, extender)
  add_all m extender (r ∷ runnables) =
      add_all (add_to_manager m r) (gather extender r.extends) runnables

  -- `Start` up to the end of the manager
  unfoldable pub start_main : Main p → List Runnable → Ended (Main p)
  unfolding add_all cron_job
  start_main m runnables =
      let (m', extender) = add_all m [] runnables in
      let m'' = add_to_manager m' (cron_job extender) in
      if watches m''.manager then (if runs m''.manager then done m'' else exited) else exited

  -- `CustomConfigValue`
  unfoldable pub custom_config_value : Main p → (name : String) → Ended CustomValue
  custom_config_value m name = elim (lookup name m.config.custom) [
    | none ↦ exited
    | some v ↦ done v
  ]

  -- `CustomConfigString`
  unfoldable pub custom_config_string : Main p → (name : String) → Ended String
  unfolding custom_config_value
  custom_config_string m name = elim (custom_config_value m name) [
    | exited ↦ exited
    | panicked ↦ panicked
    | done (text s) ↦ done s
    | done other ↦ exited
  ]

-- `StaticFileServer`, a plain `Server`
abbrev pub static_file_server : Runnable
static_file_server = record {
  takes_recorder = false;
  takes_config = false;
  takes_controller = false;
  takes_reader = false;
  takes_client = false;
  checks = some (record { name = "file-server"; healthz = true; readyz = true });
  extends = none;
  extender = [];
}

-- `GenericAPIServer`, a `PostServer` with the checks of the `Server` in it
abbrev pub generic_api_server : Runnable
generic_api_server = record {
  takes_recorder = true;
  takes_config = true;
  takes_controller = true;
  takes_reader = true;
  takes_client = false;
  checks = some (record { name = "api-server"; healthz = true; readyz = true });
  extends = none;
  extender = [];
}

-- `main` of cmd/generic
unfoldable pub generic_main :
    (p : Prom)
    → ManagerLib
    → ℕ
    → Result Reader
    → Environment
    → (version : String) → Disk
    → Option (Ended (Main p))
unfolding setup start_main
generic_main p k fuel r env version disk = elim (setup p k fuel r env version disk) [
  | none ↦ none
  | some exited ↦ some exited
  | some panicked ↦ some panicked
  | some (done m) ↦ some (start_main p k m (static_file_server ∷ generic_api_server ∷ []))
]
