-- ===== src/Tests/Cron.antt =====
-- Runs of the cron job: a cluster of one usable node, and one whose deletion of the old pods fails.
use batch_job_controller.Base.{
  ℕ, get_elem?, arith, true, false, List, [], ◌∷◌, none, some, ◌≡◌, refl,
}
use batch_job_controller.Lifecycle.State.{idle, Execution}
use batch_job_controller.Lifecycle.Controller.Admission.{IsExecution}
use batch_job_controller.Lifecycle.Workers.{run_workers}
use batch_job_controller.Cron.{
  Node, is_usable, Cluster, usable_nodes, callback_address, resting, deleting, addressing, CronJob,
  trigger, advance, advance_times,
}
use batch_job_controller.Cron.Stages.{is_usable_lem, IsOn, advance-IsOn}
use batch_job_controller.Cron.Abandoned.{abandoned_workers_wait}
use batch_job_controller.Cron.Overlap.{testing, going, turns, all_at, turns_overlap}
use batch_job_controller.Cron.Completion.{trigger_completes}
use batch_job_controller.Job.{PodTemplate, new_job}
use batch_job_controller.Base.Results.{good}
use batch_job_controller.Metrics.Collector.{assemble}
use batch_job_controller.Tests.Sorting.{by_time}
use batch_job_controller.Tests.Job.{templates}
use batch_job_controller.Tests.Fixtures.{prom, config, collector-IsSound, controller}

abbrev node : Node
node = record {
  name = "n";
  unschedulable = false;
  conditions = record { type_of = "Ready"; status = "True" } ∷ [];
}

abbrev pub healthy : Cluster
healthy = record {
  list_nodes = λ selector. some (node ∷ []);
  delete_fails = λ namespace labels propagation. false;
  pod_ip = some "10.0.0.1";
  service_ip = λ namespace name. none;
}

abbrev failing : Cluster
failing = record healthy { delete_fails = λ namespace labels propagation. true }

abbrev pub at_rest : CronJob prom
at_rest = record {
  controller = controller;
  running = false;
  stage = resting;
  cfg = config;
  extender = [];
}

abbrev deleting_job : CronJob prom
deleting_job = record at_rest { running = true; stage = deleting "20200103" (node ∷ []) }

abbrev addressing_job : CronJob prom
addressing_job = record at_rest { running = true; stage = addressing "20200103" (node ∷ []) }

advance-deleting : advance prom templates healthy by_time deleting_job ≡ some addressing_job
unfolding advance
advance-deleting = refl

advance-IsOn_example : IsOn prom deleting_job addressing_job
advance-IsOn_example =
    advance-IsOn prom templates healthy by_time deleting_job addressing_job advance-deleting refl
      refl

abandoned_workers_wait_example :
    (j₂ : CronJob prom) × (e : ℕ) × (x : Execution) × (advance_times prom templates failing by_time
        3
        (trigger prom templates failing by_time at_rest "20200103" 30)
      ≡ some j₂)
    × (j₂.running ≡ false)
    × IsExecution prom j₂.controller "20200103" e x
    × (x.closed ≡ false)
    × (x.workers ≡ idle ∷ idle ∷ [])
    × ((steps : List (ℕ × ℕ)) → run_workers prom j₂.controller e steps ≡ j₂.controller)
abandoned_workers_wait_example =
    abandoned_workers_wait prom templates failing by_time at_rest "20200103" 30 2 (node ∷ []) refl
      refl refl refl

turns_overlap_example :
    turns (false, all_at testing 2) (0 ∷ 1 ∷ 0 ∷ 1 ∷ []) ≡ (true, all_at going 2)
turns_overlap_example = turns_overlap 1

builds :
    (n : Node)
    → (pod : PodTemplate) × (new_job templates config n.name "20200103" "10.0.0.1" config.owner []
        ≡ some (good pod))
unfolding new_job
builds n = (_, refl)

trigger_completes_example :
    (j₂ : CronJob prom) × (x : Execution) × (advance_times prom templates healthy by_time 7
        (trigger prom templates healthy by_time at_rest "20200103" 30)
      ≡ some j₂)
    × (j₂.running ≡ false)
    × (j₂.stage ≡ resting)
    × (get_elem? j₂.controller.executions_made 1 ≡ some x)
    × (x.closed ≡ true)
    × (x.job_chan ≡ record { id = "20200103"; node = "n" } ∷ [])
    × (x.workers ≡ idle ∷ idle ∷ [])
unfolding usable_nodes callback_address assemble
trigger_completes_example =
    trigger_completes prom templates healthy by_time at_rest "20200103" "10.0.0.1" 30 2 1
      (node ∷ []) refl refl refl refl builds
      (record { executions = refl; pods = refl; sound = collector-IsSound; latest = refl }) refl
      refl refl (omega arith)

is_usable_lem_example : is_usable node false ≡ true
is_usable_lem_example = is_usable_lem node false
