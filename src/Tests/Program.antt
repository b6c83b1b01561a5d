-- ===== src/Tests/Program.antt =====
-- Runs of the program: a manager that takes everything, and one that cannot be made.
use batch_job_controller.Base.{
  String, Bool, true, false, List, [], ◌∷◌, ◌++◌, Option, none, some, ◌≡◌, ◌↔◌, ◌⊎◌, refl,
}
use batch_job_controller.Base.Dict.{lookup}
use batch_job_controller.Config.{Config}
use batch_job_controller.Base.Results.{good}
use batch_job_controller.Config.Load.{Environment, loaded, get}
use batch_job_controller.Metrics.Collector.{unregistered, new_prom_collector}
use batch_job_controller.Program.{
  Ended, exited, panicked, done, Runnable, Main, ManagerLib, setup, start_main, cron_job,
  static_file_server, generic_api_server,
}
use batch_job_controller.Program.Wiring.{IsWired, extenders, start_main-IsWired}
use batch_job_controller.Program.Lifetime.{setup-panicked_iff}
use batch_job_controller.Tests.Fixtures.{prom, disk, controller}
use batch_job_controller.Tests.Config.{reader, environment}

abbrev pub manager_lib : Bool → ManagerLib
manager_lib makes = record {
  makes = λ cfg. makes;
  takes_healthz = λ m name. true;
  takes_readyz = λ m name. true;
  takes = λ r. true;
  watches = λ m. true;
  runs = λ m. true;
}

abbrev pub cluster_environment : Environment
cluster_environment = ("NAMESPACE", "ns") ∷ environment

abbrev pub main_of : Option (Ended (Main prom)) → Main prom → Main prom
main_of (some (done m)) other = m
main_of (some panicked) other = other
main_of (some exited) other = other
main_of none other = other

abbrev pub other_main : Main prom
other_main = record {
  config = controller.config;
  controller = controller;
  manager = record { healthz = []; readyz = []; recorders = []; added = [] };
  event_recorder = none;
}

abbrev pub main : Main prom
main =
    main_of (setup prom (manager_lib true) 2 (good reader) cluster_environment "1.0" disk)
      other_main

pub main-done :
    setup prom (manager_lib true) 2 (good reader) cluster_environment "1.0" disk ≡ some (done main)
unfolding setup get new_prom_collector
main-done = refl

abbrev pub runnables : List Runnable
runnables = static_file_server ∷ generic_api_server ∷ []

abbrev started : Main prom
started = main_of (some (start_main prom (manager_lib true) main runnables)) other_main

started-done : start_main prom (manager_lib true) main runnables ≡ done started
unfolding start_main
started-done = refl

start_main-IsWired_example :
    IsWired prom (manager_lib true) main started (runnables ++ cron_job (extenders runnables) ∷ [])
start_main-IsWired_example =
    start_main-IsWired prom (manager_lib true) main started runnables started-done

setup-panicked_iff_example :
    (setup prom (manager_lib false) 2 (good reader) cluster_environment "1.0" disk ≡ some panicked)
    ↔ ((namespace : String) × (cfg : Config) × (lookup "NAMESPACE" cluster_environment
          ≡ some namespace)
        × (get 2 (good reader) cluster_environment namespace ≡ some (loaded cfg))
        × ((false ≡ false) ⊎ ((true ≡ true) × (new_prom_collector prom "1.0" cfg ≡ unregistered))))
setup-panicked_iff_example =
    setup-panicked_iff prom (manager_lib false) 2 (good reader) cluster_environment "1.0" disk
