-- ===== src/Cron/Abandoned.antt =====
-- A run of `startPods` that ends early leaves its execution behind: nobody closes its channel.
use batch_job_controller.Base.{
  ℕ, zero, suc, String, true, false, List, [], ◌∷◌, some, ◌≡◌, refl, arith, length, get_elem?,
  Option-cases, inl, inr,
}
use batch_job_controller.Base.Int.{pos}
use batch_job_controller.Metrics.Prom.{Prom}
use batch_job_controller.Lifecycle.Disk.{SortFunc}
use batch_job_controller.Lifecycle.State.{Worker, idle, Execution, Controller}
use batch_job_controller.Lifecycle.Controller.{replicate}
use batch_job_controller.Lifecycle.Controller.Admission.{IsExecution, new_execution-IsNew}
use batch_job_controller.Lifecycle.Workers.{run_workers}
use batch_job_controller.Lifecycle.Workers.Draining.{step_goes_on, worker_step_waits}
use batch_job_controller.Job.{Templates}
use batch_job_controller.Cron.{
  delete_all, Node, usable_nodes, Cluster, resting, CronJob, trigger, advance, advance_times,
}

idle_elem : (n w : ℕ) {k : Worker} → get_elem? (replicate n idle) w ≡ some k → k ≡ idle
idle_elem zero w h = cc
idle_elem (suc n) zero h = cc
idle_elem (suc n) (suc w) h = idle_elem n w h

module _ (p : Prom) where
  waits_idle :
      (c : Controller p) (e w size : ℕ) (x : Execution)
      → get_elem? c.executions_made e ≡ some x
      → x.closed ≡ false
      → x.job_chan ≡ []
      → x.workers ≡ replicate size idle
      → step_goes_on p c e w ≡ false
  waits_idle c e w size x here o q i = elim (Option-cases (get_elem? x.workers w)) [
    | inl n ↦ ground arith
    | inr (k, n) ↦ ground (arith, idle_elem size w (rw i at n))
  ]

  -- the workers of an open execution with an empty channel wait, however they are scheduled
  run_workers_idle :
      (c : Controller p) (e size : ℕ) (x : Execution) (steps : List (ℕ × ℕ))
      → get_elem? c.executions_made e ≡ some x
      → x.closed ≡ false
      → x.job_chan ≡ []
      → x.workers ≡ replicate size idle
      → run_workers p c e steps ≡ c
  unfolding run_workers
  run_workers_idle c e size x [] here o q i = refl
  run_workers_idle c e size x ((w, now) ∷ steps) here o q i =
      rw (worker_step_waits p c e w now (waits_idle c e w size x here o q i))
        (run_workers_idle c e size x steps here o q i)

  module _ (t : Templates) (k : Cluster) (by_time : SortFunc) where
    -- A run that is triggered with the flag unset, nodes that can be listed and a pool size that is not
    -- negative, and whose deletion of the old pods fails, ends after three steps with the flag unset, and leaves a new
    -- execution whose channel is open and whose workers wait for ever: no step of theirs, in any order,
    -- changes the controller.
    pub abandoned_workers_wait :
        (j : CronJob p) (id : String) (now size : ℕ) (items : List Node)
        → j.running ≡ false
        → k.list_nodes j.cfg.job_node_selector ≡ some items
        → j.controller.pod_pool_size ≡ pos size
        → delete_all p t k by_time j.cfg ≡ true
        → (j₂ : CronJob p) × (e : ℕ) × (x : Execution) × (advance_times p t k by_time 3
              (trigger p t k by_time j id now)
            ≡ some j₂)
          × (j₂.running ≡ false)
          × IsExecution p j₂.controller id e x
          × (x.closed ≡ false)
          × (x.workers ≡ replicate size idle)
          × ((steps : List (ℕ × ℕ)) → run_workers p j₂.controller e steps ≡ j₂.controller)
    unfolding trigger advance
    abandoned_workers_wait j id now size items off listed pool failing =
        let nodes = usable_nodes j.cfg.run_on_unscheduled_nodes items in
        let (c, f, new) = new_execution-IsNew p j.controller id (length nodes) now size pool in
        let (e, x, is, o, q, cap, all_idle) = new.made in
        (
          record j { controller = c; running = false; stage = resting },
          e,
          x,
          ground (arith, f),
          refl,
          is,
          o,
          all_idle,
          λ steps. run_workers_idle c e size x steps is.execution o q all_idle,
        )
