-- ===== src/Lifecycle/Workers/Progress.antt =====
-- What the workers add to the progress: one where a pod begins, and one where it has ended.
use batch_job_controller.Base.{
  ℕ, zero, suc, ◌+◌, ◌*◌, ◌%◌, ◌^◌, ◌≤◌, List, [], ◌∷◌, some, ◌≡◌, refl, sym, subst, arith, length,
  get_elem?, set, get_elem?-set_self, get_elem?-lt, Option-cases, Bool-cases, inl, inr,
}
use native.Mathlib.Nat.{mod-le}
use mathlib.Core.Option.{some-injective}
use batch_job_controller.Metrics.Prom.{Prom}
use batch_job_controller.Lifecycle.State.{
  Job, Worker, idle, creating, created, watching, gone, Execution, Controller,
}
use batch_job_controller.Lifecycle.Controller.{pod_of}
use batch_job_controller.Lifecycle.Workers.{set_worker, receive, begin, poll, work, worker_step}

-- how much a worker adds at most before it is idle or gone
abbrev pub due : Worker → ℕ
due gone = 0
due idle = 0
due (watching job r) = 1
due (created job) = 2
due (creating job) = 2

abbrev pub dues : List Worker → ℕ
dues [] = 0
dues (k ∷ ks) = due k + dues ks

-- how much the workers of an execution add at most
abbrev pub outstanding : Execution → ℕ
outstanding x = 2 * length x.job_chan + dues x.workers

dues-set :
    (ks : List Worker) (w : ℕ) (k k' : Worker)
    → get_elem? ks w ≡ some k
    → dues (set ks w k') + due k ≡ dues ks + due k'
dues-set [] w k k' h = cc
dues-set (j ∷ ks) zero k k' h = rw (some-injective j k h) (omega arith)
dues-set (j ∷ ks) (suc w) k k' h = omega (arith, dues-set ks w k k' h)

pub wrap-le : (n : ℕ) → n % 2 ^ 64 ≤ n
wrap-le n = mod-le n (2 ^ 64)

module _ (p : Prom) where
  pub record IsCounted (c c' : Controller p) (e : ℕ) (x : Execution) : Type 0 where
    pub execution : Execution
    pub place : get_elem? c'.executions_made e ≡ some execution
    pub closed : execution.closed ≡ x.closed
    pub bound : c'.progress + outstanding execution ≤ c.progress + outstanding x

  module _ (c : Controller p) (e : ℕ) (x : Execution) (w : ℕ)
      (here : get_elem? c.executions_made e ≡ some x) where
    stays : (d : Controller p) → d ≡ c → IsCounted c d e x
    stays d q = rw q (record { execution = x; place = here; closed = refl; bound = omega arith })

    moved :
        (d : Controller p) (chan : List Job) (k k' : Worker) (n : ℕ)
        → get_elem? x.workers w ≡ some k
        → d.executions_made
          ≡ set c.executions_made e (set_worker p (record x { job_chan = chan }) w k')
        → d.progress ≤ c.progress + n
        → n + 2 * length chan + due k' ≤ 2 * length x.job_chan + due k
        → IsCounted c d e x
    moved d chan k k' n at m less enough = record {
      execution = set_worker p (record x { job_chan = chan }) w k';
      place =
          rw m (get_elem?-set_self c.executions_made e _ (get_elem?-lt c.executions_made e here));
      closed = refl;
      bound = omega (arith, dues-set x.workers w k k' at);
    }

    receive-IsCounted :
        (chan : List Job)
        → x.job_chan ≡ chan
        → get_elem? x.workers w ≡ some idle
        → IsCounted c (receive p c e x w chan) e x
    unfolding receive
    receive-IsCounted [] f at = elim (Bool-cases x.closed) [
      | inl y ↦ moved _ x.job_chan idle gone 0 at (ground arith) (ground arith) (omega arith)
      | inr n ↦ stays _ (ground arith)
    ]
    receive-IsCounted (job ∷ rest) f at =
        moved _ rest idle (creating job) 0 at refl (omega arith) (rw f (omega arith))

    begin-IsCounted :
        (job : Job) (now : ℕ)
        → get_elem? x.workers w ≡ some (created job)
        → IsCounted c (begin p c e x w job now) e x
    unfolding begin
    begin-IsCounted job now at = elim (Option-cases (pod_of p c e job.node)) [
      | inl n ↦
          moved _ x.job_chan (created job) gone 0 at (ground arith) (ground arith) (omega arith)
      | inr (r, n) ↦ elim (Option-cases (get_elem? c.pods_made r)) [
        | inl m ↦
            moved _ x.job_chan (created job) gone 0 at (ground arith) (ground arith) (omega arith)
        | inr (q, m) ↦
            moved _ x.job_chan (created job) (watching job r) 1 at (ground arith)
              (ground (arith, wrap-le (c.progress + 1))) (omega arith)
      ]
    ]

    poll-IsCounted :
        (job : Job) (r : ℕ)
        → get_elem? x.workers w ≡ some (watching job r)
        → IsCounted c (poll p c e x w r) e x
    unfolding poll
    poll-IsCounted job r at = elim (Option-cases (get_elem? c.pods_made r)) [
      | inl m ↦ stays _ (ground arith)
      | inr (q, m) ↦ elim (Option-cases q.terminated) [
        | inl t ↦ stays _ (ground arith)
        | inr (t, o) ↦
            moved _ x.job_chan (watching job r) idle 1 at (ground arith)
              (ground (arith, wrap-le (c.progress + 1))) (omega arith)
      ]
    ]

    work-IsCounted :
        (now : ℕ) (k : Worker)
        → get_elem? x.workers w ≡ some k
        → IsCounted c (work p c e x w now k) e x
    unfolding work
    work-IsCounted now idle at = receive-IsCounted x.job_chan refl at
    work-IsCounted now (creating job) at =
        moved _ x.job_chan (creating job) (created job) 0 at refl (omega arith) (omega arith)
    work-IsCounted now (created job) at = begin-IsCounted job now at
    work-IsCounted now (watching job r) at = poll-IsCounted job r at
    work-IsCounted now gone at = stays c refl

  pub worker_step-IsCounted :
      (c : Controller p) (e w now : ℕ) (x : Execution)
      → get_elem? c.executions_made e ≡ some x
      → IsCounted c (worker_step p c e w now) e x
  unfolding worker_step
  worker_step-IsCounted c e w now x here = elim (Option-cases (get_elem? x.workers w)) [
    | inl n ↦ stays c e x w here _ (ground arith)
    | inr (k, n) ↦
        subst (λ (d : Controller p). IsCounted c d e x) (sym (ground arith))
          (work-IsCounted c e x w here now k n)
  ]
