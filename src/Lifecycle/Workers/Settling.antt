-- ===== src/Lifecycle/Workers/Settling.antt =====
-- The workers of an execution settle: a schedule of them leads to where none has anything left to do.
use batch_job_controller.Base.{
  ℕ, zero, suc, ◌+◌, ◌≤◌, Bool, true, false, not, List, [], ◌∷◌, none, some, ◌≡◌, refl, sym, subst,
  ◌∙◌, ap, if◌then◌else◌, arith, length, all, get_elem?, Bool-cases, inl, inr, ◌⊎◌,
}
use mathlib.Core.Option.{some-injective}
use batch_job_controller.Metrics.Prom.{Prom}
use batch_job_controller.Lifecycle.State.{
  Worker, idle, creating, created, watching, gone, Execution, Controller,
}
use batch_job_controller.Lifecycle.Outcome.Termination.{is_set}
use batch_job_controller.Lifecycle.Workers.{worker_step, run_workers}
use batch_job_controller.Lifecycle.Workers.Draining.{
  load, goes_on, step_goes_on, worker_step-IsSpent,
}
use batch_job_controller.Lifecycle.Workers.Progress.{worker_step-IsCounted}

module _ (p : Prom) where
  -- Has the worker returned, or does it wait for a pod that has not ended?
  abbrev pub is_settled : Controller p → Worker → Bool
  is_settled c idle = false
  is_settled c (creating job) = false
  is_settled c (created job) = false
  is_settled c (watching job r) = elim (get_elem? c.pods_made r) [
    | none ↦ true
    | some q ↦ not (is_set q.terminated)
  ]
  is_settled c gone = true

  is_settled-goes_on :
      (c : Controller p) (x : Execution) (k : Worker)
      → x.closed ≡ true
      → goes_on p c x k ≡ false
      → is_settled c k ≡ true
  is_settled-goes_on c x idle y n = ground arith
  is_settled-goes_on c x (watching job r) y n = ground arith
  is_settled-goes_on c x gone y n = refl
  is_settled-goes_on c x k y n = cc

  -- either all are settled, or one goes on
  search :
      (c : Controller p) (x : Execution) (ks : List Worker)
      → x.closed ≡ true
      → (all (is_settled c) ks ≡ true)
        ⊎ ((w : ℕ) × (k : Worker) × (get_elem? ks w ≡ some k) × (goes_on p c x k ≡ true))
  search c x [] y = inl refl
  search c x (k ∷ ks) y = elim (Bool-cases (goes_on p c x k)) [
    | inl g ↦ inr (0, k, refl, g)
    | inr n ↦ elim (search c x ks y) [
      | inl rest ↦ inl (ground (arith, is_settled-goes_on c x k y n))
      | inr (w, j, at, g) ↦ inr (suc w, j, at, g)
    ]
  ]

  -- a step of a worker that goes on leaves less
  step_on :
      (c : Controller p) (e w : ℕ) (x : Execution) (k : Worker)
      → get_elem? c.executions_made e ≡ some x
      → x.closed ≡ true
      → get_elem? x.workers w ≡ some k
      → goes_on p c x k ≡ true
      → (x' : Execution) × (get_elem? (worker_step p c e w 0).executions_made e ≡ some x')
        × (x'.closed ≡ true)
        × (1 + load x' ≤ load x)
  step_on c e w x k here y at g =
      let s = worker_step-IsSpent p c e w 0 x here in
      let t = worker_step-IsCounted p c e w 0 x here in
      let on : step_goes_on p c e w ≡ true = ground (arith, here, at, g) in
      let same = some-injective s.execution t.execution (sym s.place ∙ t.place) in
      (
        s.execution,
        s.place,
        ap (λ (z : Execution). z.closed) same ∙ t.closed ∙ y,
        subst (λ (b : Bool). (if b then 1 else 0) + load s.execution ≤ load x) on s.less,
      )

  settle :
      (fuel : ℕ) (c : Controller p) (e : ℕ) (x : Execution)
      → get_elem? c.executions_made e ≡ some x
      → x.closed ≡ true
      → load x ≤ fuel
      → (steps : List (ℕ × ℕ)) × (x' : Execution) × (get_elem?
            (run_workers p c e steps).executions_made
            e
          ≡ some x')
        × (all (is_settled (run_workers p c e steps)) x'.workers ≡ true)
        × (length steps ≤ load x)
  unfolding run_workers
  settle zero c e x here y enough = elim (search c x x.workers y) [
    | inl rest ↦ ([], x, here, rest, omega arith)
    | inr (w, k, at, g) ↦
        let (x', h, y', less) = step_on c e w x k here y at g in absurd (omega (arith, less))
  ]
  settle (suc fuel) c e x here y enough = elim (search c x x.workers y) [
    | inl rest ↦ ([], x, here, rest, omega arith)
    | inr (w, k, at, g) ↦
        let (x', h, y', less) = step_on c e w x k here y at g in
        let (steps, z, at', rest, few) =
          settle fuel (worker_step p c e w 0) e x' h y' (omega (arith, less)) in
        ((w, 0) ∷ steps, z, at', rest, omega (arith, few, less))
  ]

  -- The workers of a closed execution come to rest: there is a schedule, of at most as many steps as
  -- the load of the execution, after which every worker has returned or waits for a pod that has not
  -- ended. No job is left with a worker before its pod is created.
  pub run_workers_settle :
      (c : Controller p) (e : ℕ) (x : Execution)
      → get_elem? c.executions_made e ≡ some x
      → x.closed ≡ true
      → (steps : List (ℕ × ℕ)) × (x' : Execution) × (get_elem?
            (run_workers p c e steps).executions_made
            e
          ≡ some x')
        × (all (is_settled (run_workers p c e steps)) x'.workers ≡ true)
        × (length steps ≤ load x)
  run_workers_settle c e x here y = settle (load x) c e x here y (omega arith)
