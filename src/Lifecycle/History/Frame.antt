-- ===== src/Lifecycle/History/Frame.antt =====
-- What a step of a worker changes: its execution, the progress, the created jobs, and when pods started.
use batch_job_controller.Base.{
  ℕ, zero, suc, ◌+◌, ◌≡◌, refl, sym, subst, arith, ap, List, [], ◌∷◌, ◌++◌, none, some, length,
  length-set, get_elem?, set, Option-cases, Bool-cases, inl, inr,
}
use mathlib.Core.Option.{some-injective}
use batch_job_controller.Metrics.Prom.{Prom}
use batch_job_controller.Lifecycle.State.{
  Pod, Job, Worker, idle, creating, created, watching, gone, Execution, Controller,
}
use batch_job_controller.Lifecycle.Controller.{pod_of, add_progress}
use batch_job_controller.Lifecycle.Workers.{
  set_worker, move, began, receive, begin, poll, work, worker_step,
}

-- how many pods have not ended
abbrev pub open_pod : Pod → ℕ
open_pod q = elim q.terminated [ none ↦ 1 | some t ↦ 0 ]

abbrev pub open_pods : List Pod → ℕ
open_pods [] = 0
open_pods (q ∷ qs) = open_pod q + open_pods qs

pub open_pods-set :
    (qs : List Pod) (r : ℕ) (q q' : Pod)
    → get_elem? qs r ≡ some q
    → open_pods (set qs r q') + open_pod q ≡ open_pods qs + open_pod q'
open_pods-set [] r q q' h = cc
open_pods-set (k ∷ qs) zero q q' h = rw (some-injective k q h) (omega arith)
open_pods-set (k ∷ qs) (suc r) q q' h = omega (arith, open_pods-set qs r q q' h)

pub set-same :
    (es : List Execution) (e : ℕ) (x : Execution) → get_elem? es e ≡ some x → set es e x ≡ es
set-same [] e x h = refl
set-same (y ∷ es) zero x h = rw (some-injective y x h) refl
set-same (y ∷ es) (suc e) x h = ap (λ (k : List Execution). y ∷ k) (set-same es e x h)

module _ (p : Prom) where
  pub record IsFramed (c c' : Controller p) (e : ℕ) (x : Execution) : Type 0 where
    pub execution : Execution
    pub written : c'.executions_made ≡ set c.executions_made e execution
    pub pods : execution.pods ≡ x.pods
    pub closed : execution.closed ≡ x.closed
    pub prom : c'.prom ≡ c.prom
    pub executions : c'.executions ≡ c.executions
    pub nodes : c'.nodes ≡ c.nodes
    pub pool : c'.pod_pool_size ≡ c.pod_pool_size
    pub known_pods : length c'.pods_made ≡ length c.pods_made
    pub open_pods : open_pods c'.pods_made ≡ open_pods c.pods_made

  module _ (c : Controller p) (e : ℕ) (x : Execution) (w : ℕ)
      (here : get_elem? c.executions_made e ≡ some x) where
    onto : (d d' : Controller p) → d ≡ d' → IsFramed c d' e x → IsFramed c d e x
    onto d d' q h = subst (λ (k : Controller p). IsFramed c k e x) (sym q) h

    pub unchanged : IsFramed c c e x
    unchanged = record {
      execution = x;
      written = sym (set-same c.executions_made e x here);
      pods = refl;
      closed = refl;
      prom = refl;
      executions = refl;
      nodes = refl;
      pool = refl;
      known_pods = refl;
      open_pods = refl;
    }

    moved :
        (chan : List Job) (k : Worker)
        → IsFramed c (move p c e (record x { job_chan = chan }) w k) e x
    moved chan k = record {
      execution = set_worker p (record x { job_chan = chan }) w k;
      written = refl;
      pods = refl;
      closed = refl;
      prom = refl;
      executions = refl;
      nodes = refl;
      pool = refl;
      known_pods = refl;
      open_pods = refl;
    }

    began-IsFramed :
        (job : Job) (r : ℕ) (q : Pod) (now : ℕ)
        → get_elem? c.pods_made r ≡ some q
        → IsFramed c (began p c e x w job r q now) e x
    unfolding add_progress
    began-IsFramed job r q now m = record {
      execution = set_worker p x w (watching job r);
      written = refl;
      pods = refl;
      closed = refl;
      prom = refl;
      executions = refl;
      nodes = refl;
      pool = refl;
      known_pods = length-set c.pods_made r (record q { started = some now; status = "Started" });
      open_pods = omega (
        arith,
        open_pods-set c.pods_made r q (record q { started = some now; status = "Started" }) m,
      );
    }

    ticked : (d : Controller p) (n : ℕ) → IsFramed c d e x → IsFramed c (add_progress p d n) e x
    unfolding add_progress
    ticked d n h = record {
      execution = h.execution;
      written = h.written;
      pods = h.pods;
      closed = h.closed;
      prom = h.prom;
      executions = h.executions;
      nodes = h.nodes;
      pool = h.pool;
      known_pods = h.known_pods;
      open_pods = h.open_pods;
    }

    logged :
        (d : Controller p) (jobs : List Job)
        → IsFramed c d e x
        → IsFramed c (record d { created = jobs }) e x
    logged d jobs h = record {
      execution = h.execution;
      written = h.written;
      pods = h.pods;
      closed = h.closed;
      prom = h.prom;
      executions = h.executions;
      nodes = h.nodes;
      pool = h.pool;
      known_pods = h.known_pods;
      open_pods = h.open_pods;
    }

    receive-IsFramed : (chan : List Job) → IsFramed c (receive p c e x w chan) e x
    unfolding receive
    receive-IsFramed [] = elim (Bool-cases x.closed) [
      | inl y ↦ onto _ _ (ground arith) (moved x.job_chan gone)
      | inr n ↦ onto _ _ (ground arith) unchanged
    ]
    receive-IsFramed (job ∷ rest) = moved rest (creating job)

    begin-IsFramed : (job : Job) (now : ℕ) → IsFramed c (begin p c e x w job now) e x
    unfolding begin
    begin-IsFramed job now = elim (Option-cases (pod_of p c e job.node)) [
      | inl n ↦ onto _ _ (ground arith) (moved x.job_chan gone)
      | inr (r, n) ↦ elim (Option-cases (get_elem? c.pods_made r)) [
        | inl m ↦ onto _ _ (ground arith) (moved x.job_chan gone)
        | inr (q, m) ↦ onto _ _ (ground arith) (began-IsFramed job r q now m)
      ]
    ]

    poll-IsFramed : (r : ℕ) → IsFramed c (poll p c e x w r) e x
    unfolding poll
    poll-IsFramed r = elim (Option-cases (get_elem? c.pods_made r)) [
      | inl m ↦ onto _ _ (ground arith) unchanged
      | inr (q, m) ↦ elim (Option-cases q.terminated) [
        | inl t ↦ onto _ _ (ground arith) unchanged
        | inr (t, o) ↦ onto _ _ (ground arith) (ticked _ 1 (moved x.job_chan idle))
      ]
    ]

    work-IsFramed : (now : ℕ) (k : Worker) → IsFramed c (work p c e x w now k) e x
    unfolding work
    work-IsFramed now idle = receive-IsFramed x.job_chan
    work-IsFramed now (creating job) =
        logged _ (c.created ++ job ∷ []) (moved x.job_chan (created job))
    work-IsFramed now (created job) = begin-IsFramed job now
    work-IsFramed now (watching job r) = poll-IsFramed r
    work-IsFramed now gone = unchanged

  -- A step of a worker of an execution writes that execution and no other, and leaves its pods, the
  -- collector, the maps and how many pods have not ended.
  pub worker_step-IsFramed :
      (c : Controller p) (e w now : ℕ) (x : Execution)
      → get_elem? c.executions_made e ≡ some x
      → IsFramed c (worker_step p c e w now) e x
  unfolding worker_step
  worker_step-IsFramed c e w now x here = elim (Option-cases (get_elem? x.workers w)) [
    | inl n ↦ onto c e x w here _ _ (ground arith) (unchanged c e x w here)
    | inr (k, n) ↦ onto c e x w here _ _ (ground arith) (work-IsFramed c e x w here now k)
  ]

  pub worker_step_absent :
      (c : Controller p) (e w now : ℕ)
      → get_elem? c.executions_made e ≡ none
      → worker_step p c e w now ≡ c
  unfolding worker_step
  worker_step_absent c e w now n = ground arith
