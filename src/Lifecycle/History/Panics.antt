-- ===== src/Lifecycle/History/Panics.antt =====
-- What can panic in a history, and what every history keeps.
use batch_job_controller.Base.{
  ℕ, ◌+◌, ◌-◌, ◌≡◌, ◌↔◌, refl, ◌∙◌, sym, subst, arith, String, Bool, true, ◌||◌, List, [], ◌∷◌,
  Option, none, some, length, take, get_elem?, Option-cases, Bool-cases, inl, inr, ◌>>=◌,
}
use mathlib.Core.Option.{some-injective}
use batch_job_controller.Base.Dict.{lookup}
use batch_job_controller.Base.Int.{ℤ, pos, negsuc}
use batch_job_controller.Metrics.Prom.{Prom}
use batch_job_controller.Lifecycle.Disk.{SortFunc}
use batch_job_controller.Lifecycle.Disk.Removal.{length-perm}
use batch_job_controller.Lifecycle.State.{Job, Execution, Controller}
use batch_job_controller.Lifecycle.Controller.{start, new_execution, for_id, add_pod, all_added}
use batch_job_controller.Lifecycle.Controller.Retention.{
  forget_all, forget_first-eq, forget_first-past, forget_all-IsForgotten,
}
use batch_job_controller.Lifecycle.Workers.{worker_step}
use batch_job_controller.Lifecycle.History.{
  Event, executed, added, sent, completed, worked, terminated, reported, happen, history,
}
use batch_job_controller.Lifecycle.History.WellFormed.{
  are_below-lookup, get_elem?-of_lt, IsWellFormed,
}
use batch_job_controller.Lifecycle.History.Calls.{
  start-IsWellFormed, write-IsWellFormed, forget_all-IsWellFormed, worker_step-IsWellFormed,
}
use batch_job_controller.Lifecycle.History.Ends.{
  is_negative, is_closed, panics, Ends, goes, stops, send-Ends, registered-Ends,
  pod_terminated-Ends, report_received-Ends,
}

module _ (p : Prom) (by_time : SortFunc) where
  new_execution-Ends :
      (c : Controller p) (id : String) (jobs now : ℕ)
      → IsWellFormed p c
      → (size : ℤ) → c.pod_pool_size ≡ size
      → Ends p (new_execution p c id jobs now) (is_negative size)
  unfolding new_execution
  new_execution-Ends c id jobs now h (pos n) e =
      (start p c id jobs now n, ground arith, start-IsWellFormed p c id jobs now n h)
  new_execution-Ends c id jobs now h (negsuc n) e = ground arith

  add_pod-Ends :
      (c : Controller p) (job : Job)
      → IsWellFormed p c
      → Ends p (add_pod p c job >>= λ r. some (r.0)) (panics p c (added job))
  unfolding add_pod for_id
  add_pod-Ends c job h = elim (Option-cases (lookup job.id c.executions)) [
    | inl n ↦ goes p _ _ c (ground arith) (ground arith) h
    | inr (e, n) ↦
        let (x, here) =
          get_elem?-of_lt c.executions_made e
            (are_below-lookup (length c.executions_made) c.executions job.id e h.executions n) in
        subst (λ (b : Bool). Ends p (add_pod p c job >>= λ r. some (r.0)) b) (sym (ground arith))
          (subst (λ (r : Option (Controller p)). Ends p r x.closed) (sym (ground arith))
            (registered-Ends p c e x job here h))
  ]

  surplus-Ends :
      (c : Controller p) (id : String) (e : ℕ) (x : Execution) (history : ℤ)
      → IsWellFormed p c
      → lookup id c.executions ≡ some e
      → get_elem? c.executions_made e ≡ some x
      → c.disk.readable ≡ true
      → c.report_history ≡ history
      → Ends p (all_added p by_time c id >>= λ r. some (r.0)) (is_negative history || x.closed)
  unfolding all_added for_id
  surplus-Ends c id e x (negsuc k) h n here r past =
      let files = by_time.sort c.disk.entries in
      let all = length-perm (by_time.sort-perm c.disk.entries) in
      let looped =
        forget_first-past p (length c.disk.entries + k + 1) files c (omega (arith, all)) in
      ground (arith, n, looped)
  surplus-Ends c id e x (pos m) h n here r past =
      let files = by_time.sort c.disk.entries in
      let surplus = length c.disk.entries - m in
      let all = length-perm (by_time.sort-perm c.disk.entries) in
      let looped = forget_first-eq p surplus files c (omega (arith, all)) in
      let gone = take surplus files in
      let f = forget_all-IsForgotten p c gone h.sound in
      let here' : get_elem? (forget_all p gone c).executions_made e ≡ some x = rw f.heap here in
      elim (Bool-cases x.closed) [
        | inl y ↦ stops p _ _ (ground (arith, n, all, looped, here')) y
        | inr o ↦ goes p _ _ _ (ground (arith, n, all, looped, here')) o (
            write-IsWellFormed p (forget_all p gone c) e x (record x { closed = true }) here' refl
              (forget_all-IsWellFormed p gone c h))
      ]

  all_added-Ends :
      (c : Controller p) (id : String)
      → IsWellFormed p c
      → Ends p (all_added p by_time c id >>= λ r. some (r.0)) (panics p c (completed id))
  unfolding all_added for_id
  all_added-Ends c id h = elim (Option-cases (lookup id c.executions)) [
    | inl n ↦ goes p _ _ c (ground arith) (ground arith) h
    | inr (e, n) ↦
        let (x, here) =
          get_elem?-of_lt c.executions_made e
            (are_below-lookup (length c.executions_made) c.executions id e h.executions n) in
        elim (Bool-cases c.disk.readable) [
          | inl r ↦
              subst (λ (b : Bool). Ends p (all_added p by_time c id >>= λ r. some (r.0)) b)
                (sym (ground arith)) (surplus-Ends c id e x c.report_history h n here r refl)
          | inr r ↦ goes p _ _ c (ground arith) (ground arith) h
        ]
  ]

  sent-Ends :
      (c : Controller p) (e : ℕ) (job : Job)
      → IsWellFormed p c
      → Ends p (happen p by_time c (sent e job)) (is_closed p c e)
  unfolding happen
  sent-Ends c e job h = elim (Option-cases (get_elem? c.executions_made e)) [
    | inl n ↦ stops p _ _ (ground arith) (ground arith)
    | inr (x, here) ↦
        subst (λ (b : Bool). Ends p (happen p by_time c (sent e job)) b) (sym (ground arith))
          (subst (λ (r : Option (Controller p)). Ends p r x.closed) (sym (ground arith))
            (send-Ends p c e x job here h))
  ]

  happen-Ends :
      (c : Controller p) (v : Event p)
      → IsWellFormed p c
      → Ends p (happen p by_time c v) (panics p c v)
  unfolding happen
  happen-Ends c (executed id jobs now) h = new_execution-Ends c id jobs now h c.pod_pool_size refl
  happen-Ends c (added job) h = add_pod-Ends c job h
  happen-Ends c (sent e job) h = sent-Ends c e job h
  happen-Ends c (completed id) h = all_added-Ends c id h
  happen-Ends c (worked e w now) h =
      (worker_step p c e w now, refl, worker_step-IsWellFormed p c e w now h)
  happen-Ends c (terminated id node phase now) h = pod_terminated-Ends p c id node phase now h
  happen-Ends c (reported id node err results now) h =
      report_received-Ends p c id node err results now h

  -- In a well-formed state a call panics exactly where it makes an execution with a negative pool size,
  -- sends to a closed channel, or, with a readable report directory, is an `AllAdded` that closes a
  -- closed channel or keeps a negative number of entries. No step of a worker, no `PodTerminated` and
  -- no `ReportReceived` does.
  pub happen-none_iff :
      (c : Controller p) (v : Event p)
      → IsWellFormed p c
      → (happen p by_time c v ≡ none) ↔ (panics p c v ≡ true)
  happen-none_iff c v h = elim (Bool-cases (panics p c v)) [
    | inl y ↦
        let n : happen p by_time c v ≡ none =
          subst (λ (b : Bool). Ends p (happen p by_time c v) b) y (happen-Ends c v h) in
        (λ e. y, λ e. n)
    | inr n ↦
        let (c', f, g) =
          subst (λ (b : Bool). Ends p (happen p by_time c v) b) n (happen-Ends c v h) in
        (λ e. cc, λ e. cc)
  ]

  happen-IsWellFormed :
      (c c' : Controller p) (v : Event p)
      → happen p by_time c v ≡ some c'
      → IsWellFormed p c
      → IsWellFormed p c'
  happen-IsWellFormed c c' v e h = elim (Bool-cases (panics p c v)) [
    | inl y ↦
        let n : happen p by_time c v ≡ none =
          subst (λ (b : Bool). Ends p (happen p by_time c v) b) y (happen-Ends c v h) in
        cc
    | inr n ↦
        let (d, f, g) =
          subst (λ (b : Bool). Ends p (happen p by_time c v) b) n (happen-Ends c v h) in
        subst (λ (k : Controller p). IsWellFormed p k) (some-injective d c' (sym f ∙ e)) g
  ]

  -- Every history of calls and steps in any order, where none panics, leads from a well-formed state to
  -- a well-formed one: the maps hold places that are there, and the collector is sound and keeps no
  -- latest sample.
  pub history-IsWellFormed :
      (c c' : Controller p) (events : List (Event p))
      → history p by_time c events ≡ some c'
      → IsWellFormed p c
      → IsWellFormed p c'
  unfolding history
  history-IsWellFormed c c' [] e h =
      subst (λ (k : Controller p). IsWellFormed p k) (some-injective c c' e) h
  history-IsWellFormed c c' (v ∷ events) e h = elim (Option-cases (happen p by_time c v)) [
    | inl n ↦ absurd (ground arith)
    | inr (d, f) ↦ history-IsWellFormed d c' events (ground arith) (happen-IsWellFormed c d v f h)
  ]
