-- ===== src/Lifecycle/History/Jobs.antt =====
-- The jobs of a history: which have been sent, and where they are.
pub mod Total
use batch_job_controller.Base.{
  ℕ, zero, suc, ◌≡◌, ◌∙◌, refl, sym, ap, subst, arith, String, true, List, [], ◌∷◌, ◌++◌, Option,
  none, some, append_assoc, append-nil, get_elem?, get_elem?-lt, get_elem?-set_self, set, length,
  Option-cases, Bool-cases, inl, inr, ltb,
}
use mathlib.Core.Option.{some-injective}
use mathlib.Core.List.{Perm, perm_append_comm}
use mathlib.Core.List.Perm
use batch_job_controller.Base.Dict.{lookup}
use batch_job_controller.Base.Int.{ℤ, pos, negsuc}
use batch_job_controller.Metrics.Prom.{Prom}
use batch_job_controller.Lifecycle.Disk.{DirEntry, SortFunc, read_dir}
use batch_job_controller.Lifecycle.State.{
  Job, Error, unknown_execution, idle, Execution, Controller,
}
use batch_job_controller.Lifecycle.Controller.{
  Added, returned, blocked, replicate, made, start, new_execution, for_id, register, send, add_pod,
  forget, prune_count, close, forget_first, all_added,
}
use batch_job_controller.Lifecycle.Outcome.{pod_terminated}
use batch_job_controller.Lifecycle.Workers.{worker_step}
use batch_job_controller.Lifecycle.Workers.Jobs.{swap_front, all_in_hand, worker_step-IsConserved}
use batch_job_controller.Lifecycle.History.{
  Event, executed, added, sent, completed, worked, terminated, reported, happen, history,
}
use batch_job_controller.Lifecycle.History.Frame.{
  set-same, worker_step-IsFramed, worker_step_absent,
}
use batch_job_controller.Lifecycle.History.Calls.{pod_terminated-IsBeside, report_received-IsBeside}

-- the jobs that wait in an execution's channel or are in a worker's hand
abbrev pub own : Execution → List Job
own x = all_in_hand x.workers ++ x.job_chan

abbrev pub pending : List Execution → List Job
pending [] = []
pending (x ∷ es) = own x ++ pending es

-- the executions but one
abbrev others : List Execution → ℕ → List Execution
others [] e = []
others (x ∷ es) zero = es
others (x ∷ es) (suc e) = x ∷ others es e

pending-at :
    (es : List Execution) (e : ℕ) (x y : Execution)
    → get_elem? es e ≡ some x
    → Perm (pending (set es e y)) (own y ++ pending (others es e))
pending-at [] e x y h = cc
pending-at (z ∷ es) zero x y h = Perm.refl _
pending-at (z ∷ es) (suc e) x y h =
    Perm.trans (Perm.append_left (own z) (pending-at es e x y h))
      (swap_front (own z) (own y) (pending (others es e)))

pending-same :
    (es : List Execution) (e : ℕ) (x y : Execution)
    → get_elem? es e ≡ some x
    → own y ≡ own x
    → pending (set es e y) ≡ pending es
pending-same [] e x y h f = cc
pending-same (z ∷ es) zero x y h f =
    ap (λ (l : List Job). l ++ pending es)
      (f ∙ ap (λ (k : Execution). own k) (sym (some-injective z x h)))
pending-same (z ∷ es) (suc e) x y h f =
    ap (λ (l : List Job). own z ++ l) (pending-same es e x y h f)

pending-append :
    (es : List Execution) (x : Execution) → pending (es ++ x ∷ []) ≡ pending es ++ own x
pending-append [] x = append-nil _
pending-append (y ∷ es) x =
    ap (λ (l : List Job). own y ++ l) (pending-append es x)
    ∙ sym (append_assoc (own y) (pending es) (own x))

all_in_hand-replicate : (n : ℕ) → all_in_hand (replicate n idle) ≡ []
all_in_hand-replicate zero = refl
all_in_hand-replicate (suc n) = all_in_hand-replicate n

swap_back : (xs ys zs : List Job) → Perm ((xs ++ ys) ++ zs) ((xs ++ zs) ++ ys)
swap_back xs ys zs =
    subst (λ (l : List Job). Perm l ((xs ++ zs) ++ ys)) (sym (append_assoc xs ys zs))
      (subst (λ (l : List Job). Perm (xs ++ (ys ++ zs)) l) (sym (append_assoc xs zs ys))
        (Perm.append_left xs (perm_append_comm ys zs)))

module _ (p : Prom) where
  -- The jobs that a call or a send puts into a channel.
  abbrev pub accepted : Job → Option (Controller p × Added) → List Job
  accepted job none = []
  accepted job (some (c, returned none)) = job ∷ []
  accepted job (some (c, returned (some err))) = []
  accepted job (some (c, blocked)) = []

  -- every job of a controller: its pod is created, or it is with a worker, or in a channel
  abbrev pub all_jobs : Controller p → List Job
  all_jobs c = c.created ++ pending c.executions_made

  unfoldable pub sends : Controller p → Event p → List Job
  sends c (added job) = accepted job (add_pod p c job)
  sends c (sent e job) = elim (get_elem? c.executions_made e) [
    | none ↦ []
    | some x ↦ accepted job (send p c e x job)
  ]
  sends c (executed id jobs now) = []
  sends c (completed id) = []
  sends c (worked e w now) = []
  sends c (terminated id node phase now) = []
  sends c (reported id node err results now) = []

  -- the jobs that the calls of a history put into the channels
  unfoldable pub sent_jobs : SortFunc → Controller p → List (Event p) → List Job
  unfolding sends happen
  sent_jobs by_time c [] = []
  sent_jobs by_time c (v ∷ events) =
      sends c v ++ elim (happen p by_time c v) [ none ↦ [] | some c' ↦ sent_jobs by_time c' events ]

  written :
      (c c' : Controller p) (e : ℕ) (x y : Execution) (more : List Job)
      → get_elem? c.executions_made e ≡ some x
      → c'.executions_made ≡ set c.executions_made e y
      → Perm (c'.created ++ own y) ((c.created ++ own x) ++ more)
      → Perm (all_jobs c') (all_jobs c ++ more)
  written c c' e x y more here m h =
      let es = c.executions_made in
      let P = pending (others es e) in
      let front : Perm (all_jobs c') (((c.created ++ own x) ++ more) ++ P) =
        Perm.trans (rw m (Perm.append_left c'.created (pending-at es e x y here))) (
          subst (λ (l : List Job). Perm l (((c.created ++ own x) ++ more) ++ P))
            (append_assoc c'.created (own y) P) (Perm.append_right P h)) in
      let back : Perm ((c.created ++ own x) ++ P) (all_jobs c) =
        subst (λ (l : List Job). Perm l (all_jobs c)) (sym (append_assoc c.created (own x) P))
          (Perm.append_left c.created (
            Perm.symm (
              subst (λ (k : List Execution). Perm (pending k) (own x ++ P)) (set-same es e x here)
                (pending-at es e x x here)))) in
      Perm.trans front
        (Perm.trans (swap_back (c.created ++ own x) more P) (Perm.append_right more back))

  same_jobs :
      (c c' : Controller p)
      → c'.created ≡ c.created
      → pending c'.executions_made ≡ pending c.executions_made
      → Perm (all_jobs c') (all_jobs c ++ [])
  same_jobs c c' f g = rw (f, g, append-nil) (Perm.refl _)

  worked-jobs :
      (c : Controller p) (e w now : ℕ)
      → Perm (all_jobs (worker_step p c e w now)) (all_jobs c ++ [])
  worked-jobs c e w now = elim (Option-cases (get_elem? c.executions_made e)) [
    | inl n ↦ rw (worker_step_absent p c e w now n, append-nil) (Perm.refl _)
    | inr (x, here) ↦
        let f = worker_step-IsFramed p c e w now x here in
        let (y, h) = worker_step-IsConserved p c e w now x here in
        let at =
          get_elem?-set_self c.executions_made e f.execution
            (get_elem?-lt c.executions_made e here) in
        let same : y ≡ f.execution = some-injective y f.execution (sym h.place ∙ rw f.written at) in
        written c (worker_step p c e w now) e x y [] here (rw same f.written) (rw append-nil h.same)
  ]

  own_last :
      (made hands chan : List Job) (job : Job)
      → made ++ (hands ++ (chan ++ job ∷ [])) ≡ (made ++ (hands ++ chan)) ++ job ∷ []
  own_last made hands chan job = rw (append_assoc, append_assoc) refl

  sent-jobs :
      (c : Controller p) (e : ℕ) (x : Execution) (job : Job) (c' : Controller p) (a : Added)
      → get_elem? c.executions_made e ≡ some x
      → send p c e x job ≡ some (c', a)
      → Perm (all_jobs c') (all_jobs c ++ accepted job (some (c', a)))
  unfolding send
  sent-jobs c e x job c' a here f =
      let D =
        λ (r : Controller p × Added). Perm (all_jobs (r.0)) (all_jobs c ++ accepted job (some r)) in
      let y : Execution = record x { job_chan = x.job_chan ++ job ∷ [] } in
      let c₁ : Controller p = record c { executions_made = set c.executions_made e y } in
      elim (Bool-cases x.closed) [
        | inl k ↦ absurd (ground arith)
        | inr k ↦ elim (Bool-cases (ltb (length x.job_chan) x.cap)) [
          | inl room ↦ subst D (some-injective (c₁, returned none) (c', a) (ground arith)) (
              written c c₁ e x y (job ∷ []) here refl (
                subst (λ (l : List Job). Perm (c.created ++ own y) l)
                  (own_last c.created (all_in_hand x.workers) x.job_chan job) (Perm.refl _)))
          | inr full ↦
              subst D (some-injective (c, blocked) (c', a) (ground arith))
                (rw append-nil (Perm.refl _))
        ]
      ]

  added-jobs :
      (c c' : Controller p) (job : Job) (a : Added)
      → add_pod p c job ≡ some (c', a)
      → Perm (all_jobs c') (all_jobs c ++ accepted job (some (c', a)))
  unfolding add_pod for_id register
  added-jobs c c' job a f = elim (Option-cases (lookup job.id c.executions)) [
    | inl n ↦
        subst
          (λ (r : Controller p × Added).
            Perm (all_jobs (r.0)) (all_jobs c ++ accepted job (some r)))
          (some-injective (c, returned (some (unknown_execution job.id))) (c', a) (ground arith))
          (rw append-nil (Perm.refl _))
    | inr (e, n) ↦ elim (Option-cases (get_elem? c.executions_made e)) [
      | inl m ↦ absurd (ground arith)
      | inr (x, here) ↦
          let d = (register p c e x job).0 in
          Perm.trans
            (sent-jobs d e (register p c e x job).1 job c' a
              (get_elem?-set_self c.executions_made e _ (get_elem?-lt c.executions_made e here))
              (ground arith))
            (subst
              (λ (l : List Job).
                Perm ((c.created ++ l) ++ accepted job (some (c', a)))
                  (all_jobs c ++ accepted job (some (c', a))))
              (sym (pending-same c.executions_made e x (register p c e x job).1 here refl))
              (Perm.refl _))
    ]
  ]
