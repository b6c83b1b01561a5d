-- ===== src/Tests/System.antt =====
-- A run of the program: a worker takes the job of the pod, which reports and ends, and the cron job starts
-- again.
use batch_job_controller.Base.{
  Bool-cases, inl, inr, arith, ◌==◌, true, List, [], ◌∷◌, some, ◌≡◌, ◌⊎◌, refl,
}
use batch_job_controller.Metrics.Series.{with_label_values}
use batch_job_controller.Metrics.Collector.{
  metric_for, processing_finished, set_and_latest, new_prom_collector,
}
use batch_job_controller.Lifecycle.Controller.{new_controller, has_node, new_execution}
use batch_job_controller.Lifecycle.Outcome.{pod_terminated, report_received}
use batch_job_controller.Lifecycle.Workers.{worker_step}
use batch_job_controller.Http.Web.{save_file}
use batch_job_controller.Http.Routes.{results, api_handler}
use batch_job_controller.Reconciler.{found, reconcile}
use batch_job_controller.Cron.{trigger, advance}
use batch_job_controller.System.{
  system_step, System, Move, triggered, advanced, worked, posted, reconciled, Outside, system_run,
}
use batch_job_controller.System.Steps.{IsSafe}
use batch_job_controller.System.Safe.{Panicked, are_apart}
use batch_job_controller.Job.Identity.{IsLabelled}
use batch_job_controller.System.Started.{started, started_run-IsSafe}
use batch_job_controller.Base.Results.{good}
use batch_job_controller.Config.Load.{get}
use batch_job_controller.Program.{setup}
use batch_job_controller.Tests.Config.{reader}
use batch_job_controller.Tests.Program.{
  manager_lib, cluster_environment, main, main-done, runnables,
}
use batch_job_controller.Tests.Sorting.{by_time}
use batch_job_controller.Tests.Fixtures.{prom, disk}
use batch_job_controller.Tests.Http.{web, request_of}
use batch_job_controller.Tests.Job.{templates, cluster, cluster_pod}
use batch_job_controller.Tests.Cron.{healthy}

abbrev outside : Outside prom
outside = record {
  templates = templates;
  cron_cluster = healthy;
  pod_cluster = cluster;
  web = web;
  nil_event = "no event";
}

abbrev moves : List Move
moves =
    worked 0 0 6000000
    ∷ posted results (request_of "n" "seven") 7000000
    ∷ reconciled (found (cluster_pod "Succeeded")) 8000000
    ∷ triggered "20200103" 30
    ∷ advanced 0
    ∷ triggered "20200105" 50
    ∷ advanced 0
    ∷ []

templates-IsLabelled : IsLabelled templates
templates-IsLabelled text pod h n = elim (Bool-cases (text == "kind: Pod")) [
  | inl y ↦ ground (arith, y, h, n)
  | inr y ↦ ground (arith, y, h, n)
]

moves-apart :
    are_apart prom outside by_time (started prom (manager_lib true) main runnables) moves ≡ true
unfolding are_apart system_step api_handler has_node worker_step save_file reconcile pod_terminated
    trigger new_execution advance setup get new_prom_collector new_controller report_received
    metric_for with_label_values processing_finished set_and_latest
moves-apart = refl

started_run-IsSafe_example :
    Panicked prom outside by_time (started prom (manager_lib true) main runnables) moves
    ⊎ ((y : System prom) × (system_run prom outside by_time
            (started prom (manager_lib true) main runnables)
            moves
          ≡ some y)
        × IsSafe prom outside by_time y)
unfolding setup get new_prom_collector
started_run-IsSafe_example =
    started_run-IsSafe prom (manager_lib true) 2 (good reader) cluster_environment "1.0" disk
      outside by_time main runnables moves templates-IsLabelled moves-apart main-done refl refl refl
