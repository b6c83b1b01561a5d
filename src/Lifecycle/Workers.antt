-- ===== src/Lifecycle/Workers.antt =====
-- pkg/lifecycle/lifecycle.go: `worker`, one step at a time, and the runs of several workers with the
-- calls of the controller between their steps.
pub mod Jobs
pub mod Draining
pub mod Progress
pub mod Settling
use batch_job_controller.Base.{ℕ, List, [], ◌∷◌, ◌++◌, none, some, get_elem?, set, if◌then◌else◌}
use batch_job_controller.Metrics.Prom.{Prom}
use batch_job_controller.Lifecycle.State.{
  Pod, Job, Worker, idle, creating, created, watching, gone, Execution, Controller,
}
use batch_job_controller.Lifecycle.Controller.{add_progress, pod_of}
use batch_job_controller.Lifecycle.Outcome.{set_pod}

module _ (p : Prom) where
  -- an execution with the worker at a place in a new position
  abbrev pub set_worker : Execution → ℕ → Worker → Execution
  set_worker x w k = record x { workers = set x.workers w k }

  abbrev pub move : Controller p → ℕ → Execution → ℕ → Worker → Controller p
  move c e x w k = record c { executions_made = set c.executions_made e (set_worker x w k) }

  -- the receive of `range e.jobChan`: it waits on an open channel, and ends the loop on a closed one
  unfoldable pub receive : Controller p → ℕ → Execution → ℕ → List Job → Controller p
  receive c e x w [] = if x.closed then move c e x w gone else c
  receive c e x w (job ∷ rest) = move c e (record x { job_chan = rest }) w (creating job)

  -- the worker has found its pod
  abbrev pub began : Controller p → ℕ → Execution → ℕ → Job → ℕ → Pod → ℕ → Controller p
  began c e x w job r q now =
      add_progress p
        (set_pod p (move c e x w (watching job r)) r
          (record q { started = some now; status = "Started" }))
        1

  -- the lookup of the pod and the writes that follow it
  unfoldable pub begin : Controller p → ℕ → Execution → ℕ → Job → ℕ → Controller p
  unfolding add_progress pod_of
  begin c e x w job now = elim (pod_of p c e job.node) [
    | none ↦ move c e x w gone
    | some r ↦ elim (get_elem? c.pods_made r) [
      | none ↦ move c e x w gone
      | some q ↦ began c e x w job r q now
    ]
  ]

  -- one round of the loop that waits for the pod
  unfoldable pub poll : Controller p → ℕ → Execution → ℕ → ℕ → Controller p
  unfolding add_progress
  poll c e x w r = elim (get_elem? c.pods_made r) [
    | none ↦ c
    | some q ↦ elim q.terminated [ none ↦ c | some t ↦ add_progress p (move c e x w idle) 1 ]
  ]

  unfoldable pub work : Controller p → ℕ → Execution → ℕ → ℕ → Worker → Controller p
  unfolding receive begin poll
  work c e x w now idle = receive c e x w x.job_chan
  work c e x w now (creating job) = record (move c e x w (created job)) {
    created = c.created ++ job ∷ [];
  }
  work c e x w now (created job) = begin c e x w job now
  work c e x w now (watching job r) = poll c e x w r
  work c e x w now gone = c

  -- one step of a worker of an execution
  unfoldable pub worker_step : Controller p → (execution worker now : ℕ) → Controller p
  unfolding work
  worker_step c e w now = elim (get_elem? c.executions_made e) [
    | none ↦ c
    | some x ↦ elim (get_elem? x.workers w) [ none ↦ c | some k ↦ work c e x w now k ]
  ]

  -- steps of the workers of an execution, in the order in which they are scheduled
  unfoldable pub run_workers : Controller p → (execution : ℕ) → List (ℕ × ℕ) → Controller p
  unfolding worker_step
  run_workers c e [] = c
  run_workers c e ((w, now) ∷ steps) = run_workers (worker_step c e w now) e steps
