-- ===== src/Tests/Lifecycle.antt =====
-- Runs of the lifecycle of an execution: one pod runs, one job waits, and the report directory holds one
-- entry more than the history allows.
use batch_job_controller.Base.{
  ℕ, List, ◌+◌, ◌≤◌, String, true, false, [], ◌∷◌, length, get_elem?, none, some, ◌≡◌, refl, arith,
  all,
}
use mathlib.Core.List.{Nodup, Nodup-cons, Nodup-nil, not-mem-nil, mem_of_ne_of_mem}
use batch_job_controller.Lifecycle.Disk.{DirEntry}
use batch_job_controller.Lifecycle.Disk.Removal.{IsNoNewer}
use batch_job_controller.Lifecycle.State.{os_error, Execution, Controller}
use batch_job_controller.Lifecycle.Controller.{for_id, pod_of, all_added}
use batch_job_controller.Lifecycle.Controller.Admission.{IsExecution}
use batch_job_controller.Lifecycle.Controller.Retention.{
  IsRetained, all_added-IsRetained, all_added_error,
}
use batch_job_controller.Lifecycle.Outcome.{pod_for_id, pod_terminated, report_received}
use batch_job_controller.Lifecycle.Outcome.Termination.{IsPod, IsTerminated, pod_terminated_first}
use batch_job_controller.Lifecycle.Outcome.Reception.{
  IsReported, report_received_pod, success_either_order,
}
use batch_job_controller.Lifecycle.Workers.{run_workers}
use batch_job_controller.Lifecycle.Workers.Draining.{going, load, run_workers-le-load}
use batch_job_controller.Metrics.Collector.{assemble}
use batch_job_controller.Lifecycle.Workers.Settling.{is_settled, run_workers_settle}
use batch_job_controller.Lifecycle.Controller.Current.{all_added_keeps}
use batch_job_controller.Base.Int.{pos}
use batch_job_controller.Tests.Sorting.{by_time}
use batch_job_controller.Tests.Fixtures.{
  prom, collector-IsSound, running_pod, execution, disk, controller, differ,
}

abbrev first : DirEntry
first = record { name = "20200101"; mod_time = 10 }

abbrev second : DirEntry
second = record { name = "20200102"; mod_time = 20 }

controller-IsExecution : IsExecution prom controller "20200102" 0 execution
unfolding for_id
controller-IsExecution = record { place = refl; execution = refl }

controller-IsPod : IsPod prom controller "20200102" "n" 0 running_pod
unfolding pod_for_id for_id pod_of
controller-IsPod = record { place = refl; pod = refl }

disk-Nodup : Nodup {A = String} ("20200102" ∷ "20200101" ∷ [])
disk-Nodup = Nodup-cons.1 (
  λ m. not-mem-nil (mem_of_ne_of_mem (differ "20200102" "20200101" refl) m),
  Nodup-cons.1 (not-mem-nil, Nodup-nil),
)

all_added-IsRetained_example :
    (c' : Controller prom) × (all_added prom by_time controller "20200102" ≡ some (c', none))
    × IsRetained prom controller c' 0 execution (first ∷ []) (second ∷ [])
    × IsNoNewer (first ∷ []) (second ∷ [])
    × (length c'.disk.entries ≤ 1)
all_added-IsRetained_example =
    all_added-IsRetained prom by_time controller "20200102" 0 execution 1 controller-IsExecution
      refl refl refl refl disk-Nodup collector-IsSound

abbrev unreadable : Controller prom
unreadable = record controller { disk = record disk { readable = false } }

unreadable-fails : all_added prom by_time unreadable "20200102" ≡ some (unreadable, some os_error)
unfolding all_added
unreadable-fails = refl

all_added_error_example : (unreadable ≡ unreadable) × (os_error ≡ os_error)
all_added_error_example =
    all_added_error prom by_time unreadable unreadable "20200102" os_error unreadable-fails

pod_terminated_first_example :
    (c' : Controller prom) × (pod_terminated prom controller "20200102" "n" "Failed" 9000000
      ≡ some (c', none))
    × IsTerminated prom controller c' "20200102" "n" "Failed" 9000000 0 running_pod
pod_terminated_first_example =
    pod_terminated_first prom controller "20200102" "n" "Failed" 9000000 0 running_pod
      controller-IsPod refl collector-IsSound

report_received_pod_example :
    (c' : Controller prom) × (report_received prom controller "20200102" "n" true
        (("size", record { value = 7; labels = [] } ∷ []) ∷ [])
        8000000
      ≡ some c')
    × IsReported prom controller c' "20200102" "n" true 8000000
    × IsPod prom c' "20200102" "n" 0
        (record running_pod { report_received = some 8000000; status = "ReportReceived" })
unfolding assemble
report_received_pod_example =
    report_received_pod prom controller "20200102" "n" true
      (("size", record { value = 7; labels = [] } ∷ []) ∷ []) 8000000 0 running_pod refl
      collector-IsSound controller-IsPod

success_either_order_example :
    (c₁ : Controller prom) × (d₁ : Controller prom) × (c₂ : Controller prom) × (d₂ : Controller
      prom)
    × (report_received prom controller "20200102" "n" false [] 7000000 ≡ some c₁)
    × (pod_terminated prom c₁ "20200102" "n" "Succeeded" 8000000 ≡ some (d₁, none))
    × (pod_terminated prom controller "20200102" "n" "Succeeded" 8000000 ≡ some (c₂, none))
    × (report_received prom c₂ "20200102" "n" false [] 7000000 ≡ some d₂)
    × (d₁.prom.proc_error_gauge.gauge.samples ("n" ∷ "20200102" ∷ []) ≡ some 0)
    × (d₂.prom.proc_error_gauge.gauge.samples ("n" ∷ "20200102" ∷ []) ≡ some 0)
    × (d₁.progress ≡ d₂.progress)
unfolding assemble
success_either_order_example =
    success_either_order prom controller "20200102" "n" [] 0 running_pod 7000000 8000000 refl
      collector-IsSound controller-IsPod refl

run_workers-le-load_example :
    (x' : Execution) × (get_elem?
        (run_workers prom controller 0 ((1, 5) ∷ (0, 6) ∷ (1, 7) ∷ (1, 8) ∷ [])).executions_made
        0
      ≡ some x')
    × (going prom controller 0 ((1, 5) ∷ (0, 6) ∷ (1, 7) ∷ (1, 8) ∷ []) + load x' ≤ load execution)
run_workers-le-load_example =
    run_workers-le-load prom controller 0 execution ((1, 5) ∷ (0, 6) ∷ (1, 7) ∷ (1, 8) ∷ []) refl

-- the controller with the channel closed
abbrev closed_execution : Execution
closed_execution = record execution { closed = true }

abbrev closed_controller : Controller prom
closed_controller = record controller { executions_made = closed_execution ∷ [] }

run_workers_settle_example :
    (steps : List (ℕ × ℕ)) × (x' : Execution) × (get_elem?
        (run_workers prom closed_controller 0 steps).executions_made
        0
      ≡ some x')
    × (all (is_settled prom (run_workers prom closed_controller 0 steps)) x'.workers ≡ true)
    × (length steps ≤ load closed_execution)
run_workers_settle_example = run_workers_settle prom closed_controller 0 closed_execution refl refl

-- the controller with a history of one execution, and the link beside the directories
abbrev linked_controller : Controller prom
linked_controller = record controller {
  report_history = pos 2;
  disk = record disk { entries = record { name = "latest"; mod_time = 30 } ∷ disk.entries };
}

linked-Nodup : Nodup {A = String} ("latest" ∷ "20200102" ∷ "20200101" ∷ [])
linked-Nodup = Nodup-cons.1 (
  λ m. not-mem-nil (
      mem_of_ne_of_mem (differ "latest" "20200101" refl)
        (mem_of_ne_of_mem (differ "latest" "20200102" refl) m)),
  disk-Nodup,
)

all_added_keeps_example :
    (c' : Controller prom) × (all_added prom by_time linked_controller "20200102" ≡ some (c', none))
    × IsExecution prom c' "20200102" 0 (record execution { closed = true })
unfolding for_id
all_added_keeps_example =
    all_added_keeps prom by_time linked_controller "20200102" 0 execution 2 20
      (record { place = refl; execution = refl }) refl refl refl refl (omega arith) linked-Nodup
      refl collector-IsSound
