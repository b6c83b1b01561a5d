-- ===== src/Lifecycle/History.antt =====
-- pkg/lifecycle/lifecycle.go: the calls of the interface `Controller` and the steps of the workers, in any
-- order.
pub mod WellFormed
pub mod Calls
pub mod Ends
pub mod Panics
pub mod Frame
pub mod Jobs
pub mod Progress
use batch_job_controller.Base.{ℕ, String, Bool, List, [], ◌∷◌, Option, none, some, get_elem?, ◌>>=◌}
use batch_job_controller.Metrics.Prom.{Prom}
use batch_job_controller.Metrics.Collector.{Results}
use batch_job_controller.Lifecycle.Disk.{SortFunc}
use batch_job_controller.Lifecycle.State.{Job, Controller}
use batch_job_controller.Lifecycle.Controller.{new_execution, add_pod, send, all_added}
use batch_job_controller.Lifecycle.Outcome.{pod_terminated, report_received}
use batch_job_controller.Lifecycle.Workers.{worker_step}

-- A call of `NewExecution`, `AddPod`, `AllAdded`, `PodTerminated` or `ReportReceived`, with the readings
-- of the clock; a step of a worker; or a send of an `AddPod` that waits, to the execution at a place.
pub data Event (p : Prom) : Type 0 where
  executed : (id : String) → (jobs now : ℕ) → Event p
  added : Job → Event p
  sent : (execution : ℕ) → Job → Event p
  completed : (id : String) → Event p
  worked : (execution worker now : ℕ) → Event p
  terminated : (id node phase : String) → (now : ℕ) → Event p
  reported : (id node : String) → Bool → Results p → (now : ℕ) → Event p

module _ (p : Prom) (by_time : SortFunc) where
  -- `none` is a panic; what a call returns is left out
  unfoldable pub happen : Controller p → Event p → Option (Controller p)
  happen c (executed id jobs now) = new_execution p c id jobs now
  happen c (added job) = add_pod p c job >>= λ r. some (r.0)
  happen c (sent e job) = elim (get_elem? c.executions_made e) [
    | none ↦ none
    | some x ↦ send p c e x job >>= λ r. some (r.0)
  ]
  happen c (completed id) = all_added p by_time c id >>= λ r. some (r.0)
  happen c (worked e w now) = some (worker_step p c e w now)
  happen c (terminated id node phase now) = pod_terminated p c id node phase now >>= λ r. some (r.0)
  happen c (reported id node err results now) = report_received p c id node err results now

  unfoldable pub history : Controller p → List (Event p) → Option (Controller p)
  unfolding happen
  history c [] = some c
  history c (e ∷ es) = happen c e >>= λ c'. history c' es
