-- ===== src/Lifecycle/Workers/Jobs.antt =====
-- No job is lost or started twice: the jobs waiting in the channel, those in the hands of workers and
-- those whose pods have been created are the same before and after every step.
use batch_job_controller.Base.{
  ℕ, zero, suc, List, [], ◌∷◌, ◌++◌, some, ◌≡◌, refl, subst, arith, length, length-set, get_elem?,
  set, get_elem?-set_self, get_elem?-lt, Option-cases, Bool-cases, inl, inr, append_assoc,
}
use mathlib.Core.List.{Perm, perm_middle, perm_append_comm}
use mathlib.Core.List.Perm
use mathlib.Core.Option.{some-injective}
use batch_job_controller.Metrics.Prom.{Prom}
use batch_job_controller.Lifecycle.State.{
  Job, Worker, idle, creating, created, watching, gone, Execution, Controller,
}
use batch_job_controller.Lifecycle.Controller.{add_progress, pod_of}
use batch_job_controller.Lifecycle.Workers.{
  set_worker, move, began, receive, begin, poll, work, worker_step,
}

-- the job that a worker has received and has not created the pod of
abbrev pub in_hand : Worker → List Job
in_hand (creating job) = job ∷ []
in_hand idle = []
in_hand (created job) = []
in_hand (watching job r) = []
in_hand gone = []

abbrev pub all_in_hand : List Worker → List Job
all_in_hand [] = []
all_in_hand (k ∷ ks) = in_hand k ++ all_in_hand ks

pub swap_front : (xs ys zs : List Job) → Perm (xs ++ (ys ++ zs)) (ys ++ (xs ++ zs))
swap_front xs ys zs =
    subst (λ (l : List Job). Perm l (ys ++ (xs ++ zs))) (append_assoc xs ys zs)
      (subst (λ (l : List Job). Perm ((xs ++ ys) ++ zs) l) (append_assoc ys xs zs)
        (Perm.append_right zs (perm_append_comm xs ys)))

-- exchanging one worker's position exchanges its job
all_in_hand-set :
    (ks : List Worker) (w : ℕ) (k k' : Worker)
    → get_elem? ks w ≡ some k
    → Perm (in_hand k ++ all_in_hand (set ks w k')) (in_hand k' ++ all_in_hand ks)
all_in_hand-set [] w k k' h = cc
all_in_hand-set (j ∷ ks) zero k k' h =
    rw (some-injective j k h) (swap_front (in_hand k) (in_hand k') (all_in_hand ks))
all_in_hand-set (j ∷ ks) (suc w) k k' h =
    Perm.trans (swap_front (in_hand k) (in_hand j) (all_in_hand (set ks w k'))) (
      Perm.trans (Perm.append_left (in_hand j) (all_in_hand-set ks w k k' h))
        (swap_front (in_hand j) (in_hand k') (all_in_hand ks)))

module _ (p : Prom) where
  -- every job that an execution has to do or has done
  abbrev pub jobs : Controller p → Execution → List Job
  jobs c x = c.created ++ (all_in_hand x.workers ++ x.job_chan)

  -- What a step of a worker leaves of the jobs.
  pub record IsConserved (c c' : Controller p) (e : ℕ) (x x' : Execution) : Type 0 where
    pub place : get_elem? c'.executions_made e ≡ some x'
    pub same : Perm (jobs c' x') (jobs c x)
    pub workers : length x'.workers ≡ length x.workers

  module _ (c : Controller p) (e : ℕ) (x : Execution) (w : ℕ)
      (here : get_elem? c.executions_made e ≡ some x) where
    -- after a write of the execution, with the workers' pods aside
    moved :
        (c' : Controller p) (x' : Execution)
        → c'.executions_made ≡ set c.executions_made e x'
        → Perm (jobs c' x') (jobs c x)
        → length x'.workers ≡ length x.workers
        → IsConserved c c' e x x'
    moved c' x' m same n = record {
      place =
          rw m (get_elem?-set_self c.executions_made e x' (get_elem?-lt c.executions_made e here));
      same = same;
      workers = n;
    }

    -- a position that holds no job, before and after
    moved_aside :
        (c' : Controller p) (k k' : Worker)
        → get_elem? x.workers w ≡ some k
        → in_hand k ≡ []
        → in_hand k' ≡ []
        → c'.executions_made ≡ set c.executions_made e (set_worker p x w k')
        → c'.created ≡ c.created
        → IsConserved c c' e x (set_worker p x w k')
    moved_aside c' k k' at n n' m same =
        moved c' (set_worker p x w k') m
          (rw same (
            Perm.append_left c.created (
              Perm.append_right x.job_chan (
                subst
                  (λ (l : List Job).
                    Perm (l ++ all_in_hand (set x.workers w k')) (all_in_hand x.workers))
                  n
                  (subst
                    (λ (l : List Job).
                      Perm (in_hand k ++ all_in_hand (set x.workers w k'))
                        (l ++ all_in_hand x.workers))
                    n' (all_in_hand-set x.workers w k k' at))))))
          (length-set x.workers w k')

    onto :
        (d d' : Controller p) (x' : Execution)
        → d ≡ d'
        → IsConserved c d' e x x'
        → IsConserved c d e x x'
    onto d d' x' q h = rw q h

    unchanged : IsConserved c c e x x
    unchanged = record { place = here; same = Perm.refl _; workers = refl }

    receive-IsConserved :
        (chan : List Job)
        → x.job_chan ≡ chan
        → get_elem? x.workers w ≡ some idle
        → (x' : Execution) × IsConserved c (receive p c e x w chan) e x x'
    unfolding receive
    receive-IsConserved [] f at = elim (Bool-cases x.closed) [
      | inl y ↦ (
        set_worker p x w gone,
        onto _ (move p c e x w gone) _ (ground arith)
            (moved_aside _ idle gone at refl refl refl refl),
      )
      | inr n ↦ (x, onto _ c _ (ground arith) unchanged)
    ]
    receive-IsConserved (job ∷ rest) f at =
        let ks = set x.workers w (creating job) in
        let swapped : Perm (all_in_hand ks ++ rest) (all_in_hand x.workers ++ x.job_chan) = rw f (
          Perm.trans (Perm.append_right rest (all_in_hand-set x.workers w idle (creating job) at))
            (Perm.symm (perm_middle (all_in_hand x.workers) rest))) in
        (
          set_worker p (record x { job_chan = rest }) w (creating job),
          moved _ _ refl (Perm.append_left c.created swapped)
              (length-set x.workers w (creating job)),
        )

    create-IsConserved :
        (job : Job)
        → get_elem? x.workers w ≡ some (creating job)
        → IsConserved c
            (record (move p c e x w (created job)) { created = c.created ++ job ∷ [] })
            e
            x
            (set_worker p x w (created job))
    create-IsConserved job at =
        moved _ _ refl
          (rw append_assoc (
            Perm.append_left c.created (
              Perm.append_right x.job_chan
                (all_in_hand-set x.workers w (creating job) (created job) at))))
          (length-set x.workers w (created job))

    begin-IsConserved :
        (job : Job) (now : ℕ)
        → get_elem? x.workers w ≡ some (created job)
        → (x' : Execution) × IsConserved c (begin p c e x w job now) e x x'
    unfolding begin
    begin-IsConserved job now at = elim (Option-cases (pod_of p c e job.node)) [
      | inl n ↦ (
        _,
        onto _ (move p c e x w gone) _ (ground arith)
            (moved_aside _ (created job) gone at refl refl refl refl),
      )
      | inr (r, n) ↦ elim (Option-cases (get_elem? c.pods_made r)) [
        | inl m ↦ (
          _,
          onto _ (move p c e x w gone) _ (ground arith)
              (moved_aside _ (created job) gone at refl refl refl refl),
        )
        | inr (q, m) ↦ (
          _,
          onto _ (began p c e x w job r q now) _ (ground arith)
              (moved_aside _ (created job) (watching job r) at refl refl refl refl),
        )
      ]
    ]

    poll-IsConserved :
        (job : Job) (r : ℕ)
        → get_elem? x.workers w ≡ some (watching job r)
        → (x' : Execution) × IsConserved c (poll p c e x w r) e x x'
    unfolding poll
    poll-IsConserved job r at = elim (Option-cases (get_elem? c.pods_made r)) [
      | inl m ↦ (x, onto _ c _ (ground arith) unchanged)
      | inr (q, m) ↦ elim (Option-cases q.terminated) [
        | inl t ↦ (x, onto _ c _ (ground arith) unchanged)
        | inr (t, o) ↦ (
          _,
          onto _ (add_progress p (move p c e x w idle) 1) _ (ground arith)
              (moved_aside _ (watching job r) idle at refl refl refl refl),
        )
      ]
    ]

    work-IsConserved :
        (now : ℕ) (k : Worker)
        → get_elem? x.workers w ≡ some k
        → (x' : Execution) × IsConserved c (work p c e x w now k) e x x'
    unfolding work
    work-IsConserved now idle at = receive-IsConserved x.job_chan refl at
    work-IsConserved now (creating job) at = (_, create-IsConserved job at)
    work-IsConserved now (created job) at = begin-IsConserved job now at
    work-IsConserved now (watching job r) at = poll-IsConserved job r at
    work-IsConserved now gone at = (x, unchanged)

  pub worker_step-IsConserved :
      (c : Controller p) (e w now : ℕ) (x : Execution)
      → get_elem? c.executions_made e ≡ some x
      → (x' : Execution) × IsConserved c (worker_step p c e w now) e x x'
  unfolding worker_step
  worker_step-IsConserved c e w now x here = elim (Option-cases (get_elem? x.workers w)) [
    | inl n ↦ (x, onto c e x w here _ c _ (ground arith) (unchanged c e x w here))
    | inr (k, n) ↦
        let (x', h) = work-IsConserved c e x w here now k n in
        (x', onto c e x w here _ (work p c e x w now k) x' (ground arith) h)
  ]
