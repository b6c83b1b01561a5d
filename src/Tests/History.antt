-- ===== src/Tests/History.antt =====
-- A history of the controller: a worker creates a pod, which ends and reports, and one more job is added.
use batch_job_controller.Base.{
  ◌+◌, ◌*◌, ◌≤◌, true, false, List, [], ◌∷◌, ◌++◌, length, none, some, ◌≡◌, ◌↔◌, refl,
}
use mathlib.Core.List.{Perm}
use batch_job_controller.Metrics.Series.{new_metric, with_label_values}
use batch_job_controller.Metrics.Collector.{assemble, set_and_latest, duration, processing_finished}
use batch_job_controller.Lifecycle.Controller.{add_pod, all_added}
use batch_job_controller.Lifecycle.Outcome.{pod_terminated, report_received}
use batch_job_controller.Lifecycle.Workers.{worker_step}
use batch_job_controller.Lifecycle.State.{Controller}
use batch_job_controller.Lifecycle.History.{
  Event, added, sent, completed, worked, terminated, reported, happen, history,
}
use batch_job_controller.Lifecycle.History.WellFormed.{IsWellFormed}
use batch_job_controller.Lifecycle.History.Ends.{panics}
use batch_job_controller.Lifecycle.History.Panics.{happen-none_iff}
use batch_job_controller.Lifecycle.History.Jobs.{all_jobs, sent_jobs}
use batch_job_controller.Lifecycle.History.Jobs.Total.{history-jobs}
use batch_job_controller.Lifecycle.History.Progress.{expected, registered_pods}
use batch_job_controller.Lifecycle.History.Progress.Total.{history-expected}
use batch_job_controller.Tests.Sorting.{by_time}
use batch_job_controller.Tests.Fixtures.{prom, collector-IsSound, job, controller}

abbrev events : List (Event prom)
events =
    worked 0 0 6000000
    ∷ worked 0 0 6000000
    ∷ added job
    ∷ terminated "20200102" "n" "Succeeded" 9000000
    ∷ reported "20200102" "n" false [] 9500000
    ∷ worked 0 1 9600000
    ∷ completed "20200102"
    ∷ []

abbrev final : Controller prom
final = elim (history prom by_time controller events) [ none ↦ controller | some c ↦ c ]

events-final : history prom by_time controller events ≡ some final
unfolding history add_pod worker_step pod_terminated duration set_and_latest with_label_values
    assemble new_metric processing_finished report_received all_added
events-final = refl

events-sent_jobs : sent_jobs prom by_time controller events ≡ job ∷ []
unfolding sent_jobs add_pod worker_step pod_terminated duration set_and_latest with_label_values
    assemble new_metric processing_finished report_received all_added
events-sent_jobs = refl

controller-IsWellFormed : IsWellFormed prom controller
unfolding assemble
controller-IsWellFormed = record {
  executions = refl;
  pods = refl;
  sound = collector-IsSound;
  latest = refl;
}

happen-none_iff_example :
    (happen prom by_time controller (sent 0 job) ≡ none)
    ↔ (panics prom controller (sent 0 job) ≡ true)
happen-none_iff_example =
    happen-none_iff prom by_time controller (sent 0 job) controller-IsWellFormed

history-jobs_example :
    Perm
      (all_jobs prom final)
      (all_jobs prom controller ++ sent_jobs prom by_time controller events)
history-jobs_example = history-jobs prom by_time controller final events events-final

history-expected_example :
    expected prom final
    ≤ expected prom controller
      + (2 * length (sent_jobs prom by_time controller events)
          + registered_pods prom by_time controller events)
history-expected_example = history-expected prom by_time controller final events events-final
