-- ===== src/Lifecycle/Workers/Draining.antt =====
-- The workers come to an end: each step either waits and changes nothing, or uses up some of the work
-- that is left.
use batch_job_controller.Base.{
  ℕ, zero, suc, ◌+◌, ◌*◌, ◌≤◌, ◌<◌, Bool, true, false, List, [], ◌∷◌, none, some, ◌≡◌, refl, sym,
  subst, arith, length, get_elem?, set, get_elem?-set_self, get_elem?-lt, Option-cases, Bool-cases,
  inl, inr, if◌then◌else◌,
}
use mathlib.Core.Option.{some-injective}
use batch_job_controller.Metrics.Prom.{Prom}
use batch_job_controller.Lifecycle.State.{
  Job, Worker, idle, creating, created, watching, gone, Execution, Controller,
}
use batch_job_controller.Lifecycle.Controller.{pod_of}
use batch_job_controller.Lifecycle.Outcome.Termination.{is_set}
use batch_job_controller.Lifecycle.Workers.{
  set_worker, receive, begin, poll, work, worker_step, run_workers,
}

-- how many steps a worker has at most before it is idle, and the receive of the last one
abbrev pub weight : Worker → ℕ
weight gone = 0
weight idle = 1
weight (watching job r) = 2
weight (created job) = 3
weight (creating job) = 4

abbrev pub weights : List Worker → ℕ
weights [] = 0
weights (k ∷ ks) = weight k + weights ks

-- the work that is left
abbrev pub load : Execution → ℕ
load x = 4 * length x.job_chan + weights x.workers

weights-set :
    (ks : List Worker) (w : ℕ) (k k' : Worker)
    → get_elem? ks w ≡ some k
    → weights (set ks w k') + weight k ≡ weights ks + weight k'
weights-set [] w k k' h = cc
weights-set (j ∷ ks) zero k k' h = rw (some-injective j k h) (omega arith)
weights-set (j ∷ ks) (suc w) k k' h = omega (arith, weights-set ks w k k' h)

module _ (p : Prom) where
  -- Does a worker at this position go on? It waits where the channel is open and empty and where its
  -- pod has not ended.
  abbrev pub goes_on : Controller p → Execution → Worker → Bool
  goes_on c x idle = elim x.job_chan [ [] ↦ x.closed | job ∷ rest ↦ true ]
  goes_on c x (creating job) = true
  goes_on c x (created job) = true
  goes_on c x (watching job r) = elim (get_elem? c.pods_made r) [
    | none ↦ false
    | some q ↦ is_set q.terminated
  ]
  goes_on c x gone = false

  pub record IsSpent (c c' : Controller p) (e : ℕ) (x : Execution) (used : ℕ) : Type 0 where
    pub execution : Execution
    pub place : get_elem? c'.executions_made e ≡ some execution
    pub less : used + load execution ≤ load x

  module _ (c : Controller p) (e : ℕ) (x : Execution) (w : ℕ)
      (here : get_elem? c.executions_made e ≡ some x) where
    abbrev spent : Bool → ℕ
    spent b = if b then 1 else 0

    stays : (d : Controller p) (b : Bool) → d ≡ c → b ≡ false → IsSpent c d e x (spent b)
    stays d b q f = rw (q, f) (record { execution = x; place = here; less = omega arith })

    moved :
        (d : Controller p) (b : Bool) (chan : List Job) (k k' : Worker)
        → b ≡ true
        → get_elem? x.workers w ≡ some k
        → d.executions_made
          ≡ set c.executions_made e (set_worker p (record x { job_chan = chan }) w k')
        → 4 * length chan + weight k' < 4 * length x.job_chan + weight k
        → IsSpent c d e x (spent b)
    moved d b chan k k' t at m less = rw t (record {
      execution = set_worker p (record x { job_chan = chan }) w k';
      place =
          rw m (get_elem?-set_self c.executions_made e _ (get_elem?-lt c.executions_made e here));
      less = omega (arith, weights-set x.workers w k k' at);
    })

    receive-IsSpent :
        (chan : List Job)
        → x.job_chan ≡ chan
        → get_elem? x.workers w ≡ some idle
        → IsSpent c
            (receive p c e x w chan)
            e
            x
            (spent (elim chan [ [] ↦ x.closed | job ∷ rest ↦ true ]))
    unfolding receive
    receive-IsSpent [] f at = elim (Bool-cases x.closed) [
      | inl y ↦ moved _ x.closed x.job_chan idle gone y at (ground arith) (omega arith)
      | inr n ↦ stays _ x.closed (ground arith) n
    ]
    receive-IsSpent (job ∷ rest) f at =
        moved _ true rest idle (creating job) refl at refl (rw f (omega arith))

    begin-IsSpent :
        (job : Job) (now : ℕ)
        → get_elem? x.workers w ≡ some (created job)
        → IsSpent c (begin p c e x w job now) e x 1
    unfolding begin
    begin-IsSpent job now at = elim (Option-cases (pod_of p c e job.node)) [
      | inl n ↦ moved _ true x.job_chan (created job) gone refl at (ground arith) (omega arith)
      | inr (r, n) ↦ elim (Option-cases (get_elem? c.pods_made r)) [
        | inl m ↦ moved _ true x.job_chan (created job) gone refl at (ground arith) (omega arith)
        | inr (q, m) ↦
            moved _ true x.job_chan (created job) (watching job r) refl at (ground arith)
              (omega arith)
      ]
    ]

    poll-IsSpent :
        (job : Job) (r : ℕ)
        → get_elem? x.workers w ≡ some (watching job r)
        → IsSpent c (poll p c e x w r) e x (spent (goes_on c x (watching job r)))
    unfolding poll
    poll-IsSpent job r at = elim (Option-cases (get_elem? c.pods_made r)) [
      | inl m ↦ stays _ _ (ground arith) (ground arith)
      | inr (q, m) ↦ elim (Option-cases q.terminated) [
        | inl t ↦ stays _ _ (ground arith) (ground arith)
        | inr (t, o) ↦
            moved _ _ x.job_chan (watching job r) idle (ground arith) at (ground arith)
              (omega arith)
      ]
    ]

    work-IsSpent :
        (now : ℕ) (k : Worker)
        → get_elem? x.workers w ≡ some k
        → IsSpent c (work p c e x w now k) e x (spent (goes_on c x k))
    unfolding work
    work-IsSpent now idle at = receive-IsSpent x.job_chan refl at
    work-IsSpent now (creating job) at =
        moved _ true x.job_chan (creating job) (created job) refl at refl (omega arith)
    work-IsSpent now (created job) at = begin-IsSpent job now at
    work-IsSpent now (watching job r) at = poll-IsSpent job r at
    work-IsSpent now gone at = stays c false refl refl

  -- Does the next step of a worker go on?
  abbrev pub step_goes_on : Controller p → (e w : ℕ) → Bool
  step_goes_on c e w = elim (get_elem? c.executions_made e) [
    | none ↦ false
    | some x ↦ elim (get_elem? x.workers w) [ none ↦ false | some k ↦ goes_on c x k ]
  ]

  -- how many steps of a run go on
  pub going : Controller p → (e : ℕ) → List (ℕ × ℕ) → ℕ
  going c e [] = 0
  going c e ((w, now) ∷ steps) =
      (if step_goes_on c e w then 1 else 0) + going (worker_step p c e w now) e steps

  pub worker_step-IsSpent :
      (c : Controller p) (e w now : ℕ) (x : Execution)
      → get_elem? c.executions_made e ≡ some x
      → IsSpent c (worker_step p c e w now) e x (if step_goes_on c e w then 1 else 0)
  unfolding worker_step
  worker_step-IsSpent c e w now x here = elim (Option-cases (get_elem? x.workers w)) [
    | inl n ↦ stays c e x w here _ _ (ground arith) (ground arith)
    | inr (k, n) ↦
        let h = work-IsSpent c e x w here now k n in
        subst (λ (d : Controller p). IsSpent c d e x (if step_goes_on c e w then 1 else 0))
          (sym (ground arith))
          (subst (λ (b : Bool). IsSpent c (work p c e x w now k) e x (if b then 1 else 0))
            (sym (ground arith)) h)
  ]

  -- In every run of the workers of an execution, with steps in any order, the steps that do more than
  -- wait are at most as many as the load: four for a job in the channel, and up to four for a worker.
  -- The load that is left is less by at least their number.
  pub run_workers-le-load :
      (c : Controller p) (e : ℕ) (x : Execution) (steps : List (ℕ × ℕ))
      → get_elem? c.executions_made e ≡ some x
      → (x' : Execution) × (get_elem? (run_workers p c e steps).executions_made e ≡ some x')
        × (going c e steps + load x' ≤ load x)
  unfolding run_workers going
  run_workers-le-load c e x [] here = (x, here, omega arith)
  run_workers-le-load c e x ((w, now) ∷ steps) here =
      let s = worker_step-IsSpent c e w now x here in
      let (z, at, less) =
        run_workers-le-load (worker_step p c e w now) e s.execution steps s.place in
      (z, at, omega (arith, less, s.less))

  work_waits :
      (c : Controller p) (e w now : ℕ) (x : Execution) (k : Worker)
      → goes_on c x k ≡ false
      → work p c e x w now k ≡ c
  unfolding work receive poll
  work_waits c e w now x idle h = ground arith
  work_waits c e w now x (watching job r) h = ground arith
  work_waits c e w now x gone h = refl
  work_waits c e w now x k h = cc

  -- A step that does not go on changes nothing, whatever the worker.
  pub worker_step_waits :
      (c : Controller p) (e w now : ℕ) → step_goes_on c e w ≡ false → worker_step p c e w now ≡ c
  unfolding worker_step
  worker_step_waits c e w now h = elim (Option-cases (get_elem? c.executions_made e)) [
    | inl n ↦ ground arith
    | inr (x, n) ↦ elim (Option-cases (get_elem? x.workers w)) [
      | inl m ↦ ground arith
      | inr (k, m) ↦ ground (arith, work_waits c e w now x k)
    ]
  ]
