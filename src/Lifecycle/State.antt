-- ===== src/Lifecycle/State.antt =====
-- The types of pkg/lifecycle/lifecycle.go and pkg/lifecycle/types.go.
use batch_job_controller.Base.{
  ℕ, ◌-◌, ◌/◌, String, Bool, true, false, List, Option, none, some, leb, if◌then◌else◌,
}
use batch_job_controller.Base.Dict.{Dict}
use batch_job_controller.Base.Int.{ℤ, pos, negsuc}
use batch_job_controller.Config.{Config}
use batch_job_controller.Metrics.Prom.{Prom}
use batch_job_controller.Metrics.Collector.{Collector}
use batch_job_controller.Lifecycle.Disk.{Disk}

-- Instants in nanoseconds; the zero `time.Time` and the nil pointer are `none`.
abbrev pub Instant : Type 0
Instant = Option ℕ

-- `pod`
pub record Pod : Type 0 where
  pub node : String
  pub started : Instant
  pub terminated : Instant
  pub report_received : Instant
  pub status : String

-- `Job`, told by its `ID()` and `Node()`; its `CreatePod()` is an entry of the log `created` below
pub record Job : Type 0 where
  pub id : String
  pub node : String

-- Where a worker's loop stands: before the receive, before and after `CreatePod`, in the loop that
-- sleeps until the pod (by its place on the heap) is terminated, and after the return.
pub data Worker : Type 0 where
  idle : Worker
  creating created : Job → Worker
  watching : Job → ℕ → Worker
  gone : Worker

-- `execution`: the `sync.Map` from nodes to pods, the buffered channel, and its workers
pub record Execution : Type 0 where
  pub id : String
  pub pods : Dict ℕ
  pub job_chan : List Job
  pub cap : ℕ
  pub closed : Bool
  pub workers : List Worker

-- The errors that the controller returns.
pub data Error : Type 0 where
  unknown_execution unknown_pod : String → Error
  os_error : Error

-- `errors.Is(err, &ExecutionIDNotFoundError{})`: the type's own `Is` looks at the target
unfoldable pub is_not_found : Error → Bool
is_not_found (unknown_execution id) = true
is_not_found (unknown_pod node) = true
is_not_found os_error = false

-- `controller`. Executions and pods are shared by pointer: they lie on heaps, and the maps hold
-- their places. `executions_made` and `pods_made` are those heaps, `created` the `CreatePod` calls.
pub record Controller (p : Prom) : Type 0 where
  pub prom : Collector p
  pub executions : Dict ℕ
  pub nodes : Dict Bool
  pub report_history : ℤ
  pub pod_pool_size : ℤ
  pub config : Config
  pub progress : ℕ
  pub progress_step : p.Float
  pub executions_made : List Execution
  pub pods_made : List Pod
  pub created : List Job
  pub disk : Disk

-- `t.Sub(p.started).Milliseconds()`. From the zero time the difference saturates at the largest
-- `time.Duration`, 2 ^ 63 - 1 nanoseconds.
unfoldable pub elapsed_ms : ℕ → Instant → ℤ
elapsed_ms t none = pos 9223372036854
elapsed_ms t (some s) =
    if leb s t
    then pos ((t - s) / 1000000)
    else if leb 1000000 (s - t)
    then negsuc ((s - t) / 1000000 - 1)
    else pos 0
