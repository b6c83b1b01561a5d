-- ===== src/Lifecycle/History/Progress.antt =====
-- The progress of a history: what its worker steps and its calls of `AddPod` add to it.
pub mod Total
use batch_job_controller.Base.{
  ℕ, zero, suc, ◌+◌, ◌*◌, ◌%◌, ◌^◌, ◌≤◌, ◌≡◌, ◌∙◌, refl, sym, ap, subst, arith, String, Bool, true,
  false, List, [], ◌∷◌, ◌++◌, Option, none, some, length, length-append, get_elem?, get_elem?-lt,
  get_elem?-set_self, set, Option-cases, Bool-cases, inl, inr, ◌>>=◌, ltb,
}
use mathlib.Core.Option.{some-injective}
use batch_job_controller.Base.Dict.{lookup}
use batch_job_controller.Base.Int.{ℤ, pos, negsuc}
use batch_job_controller.Metrics.Prom.{Prom}
use batch_job_controller.Metrics.Collector.{Collector, Results, processing_finished}
use batch_job_controller.Lifecycle.Disk.{DirEntry, SortFunc, read_dir}
use batch_job_controller.Lifecycle.State.{Pod, Job, Error, Worker, idle, Execution, Controller}
use batch_job_controller.Lifecycle.Controller.{
  Added, returned, blocked, replicate, made, start, new_execution, for_id, register, send, add_pod,
  forget, prune_count, close, forget_first, all_added,
}
use batch_job_controller.Lifecycle.Outcome.{
  pod_for_id, terminate, pod_terminated, note_report, report_all, report_received,
}
use batch_job_controller.Lifecycle.Workers.{worker_step}
use batch_job_controller.Lifecycle.Workers.Progress.{
  outstanding, dues, wrap-le, worker_step-IsCounted,
}
use batch_job_controller.Lifecycle.History.{
  Event, executed, added, sent, completed, worked, terminated, reported, happen, history,
}
use batch_job_controller.Lifecycle.History.Frame.{
  open_pod, open_pods, open_pods-set, worker_step-IsFramed, worker_step_absent,
}
use batch_job_controller.Lifecycle.History.Jobs.{accepted, sends, sent_jobs}

-- how much the workers of all executions add at most
abbrev pub all_outstanding : List Execution → ℕ
all_outstanding [] = 0
all_outstanding (x ∷ es) = outstanding x + all_outstanding es

pub all_outstanding-set :
    (es : List Execution) (e : ℕ) (x y : Execution)
    → get_elem? es e ≡ some x
    → all_outstanding (set es e y) + outstanding x ≡ all_outstanding es + outstanding y
all_outstanding-set [] e x y h = cc
all_outstanding-set (z ∷ es) zero x y h = rw (some-injective z x h) (omega arith)
all_outstanding-set (z ∷ es) (suc e) x y h = omega (arith, all_outstanding-set es e x y h)

pub all_outstanding-append :
    (es : List Execution) (x : Execution)
    → all_outstanding (es ++ x ∷ []) ≡ all_outstanding es + outstanding x
all_outstanding-append [] x = omega arith
all_outstanding-append (z ∷ es) x = omega (arith, all_outstanding-append es x)

open_pods-append : (qs : List Pod) (q : Pod) → open_pods (qs ++ q ∷ []) ≡ open_pods qs + open_pod q
open_pods-append [] q = omega arith
open_pods-append (k ∷ qs) q = omega (arith, open_pods-append qs q)

pub dues-replicate : (n : ℕ) → dues (replicate n idle) ≡ 0
dues-replicate zero = refl
dues-replicate (suc n) = omega (arith, dues-replicate n)

module _ (p : Prom) where
  -- the progress, and what is to come: two for a waiting job, one for each pod that has not ended
  abbrev pub expected : Controller p → ℕ
  expected c = c.progress + (all_outstanding c.executions_made + open_pods c.pods_made)

  -- how many pods a call registers
  unfoldable pub registers : Controller p → Event p → ℕ
  registers c (added job) = elim (lookup job.id c.executions) [ none ↦ 0 | some e ↦ 1 ]
  registers c (sent e job) = 0
  registers c (executed id jobs now) = 0
  registers c (completed id) = 0
  registers c (worked e w now) = 0
  registers c (terminated id node phase now) = 0
  registers c (reported id node err results now) = 0

  unfoldable pub registered_pods : SortFunc → Controller p → List (Event p) → ℕ
  unfolding registers happen
  registered_pods by_time c [] = 0
  registered_pods by_time c (v ∷ events) =
      registers c v
      + elim (happen p by_time c v) [ none ↦ 0 | some c' ↦ registered_pods by_time c' events ]

  pub worked-expected :
      (c : Controller p) (e w now : ℕ) → expected (worker_step p c e w now) ≤ expected c
  worked-expected c e w now = elim (Option-cases (get_elem? c.executions_made e)) [
    | inl n ↦ rw (worker_step_absent p c e w now n) (omega arith)
    | inr (x, here) ↦
        let f = worker_step-IsFramed p c e w now x here in
        let t = worker_step-IsCounted p c e w now x here in
        let at =
          get_elem?-set_self c.executions_made e f.execution
            (get_elem?-lt c.executions_made e here) in
        let same : t.execution ≡ f.execution = some-injective _ _ (sym t.place ∙ rw f.written at) in
        let bound : (worker_step p c e w now).progress + outstanding f.execution
            ≤ c.progress + outstanding x =
          subst
            (λ (y : Execution).
              (worker_step p c e w now).progress + outstanding y ≤ c.progress + outstanding x)
            same t.bound in
        rw (f.written, f.open_pods)
          (omega (arith, bound, all_outstanding-set c.executions_made e x f.execution here))
  ]

  pub sent-expected :
      (c : Controller p) (e : ℕ) (x : Execution) (job : Job) (c' : Controller p) (a : Added)
      → get_elem? c.executions_made e ≡ some x
      → send p c e x job ≡ some (c', a)
      → expected c' ≤ expected c + 2 * length (accepted p job (some (c', a)))
  unfolding send
  sent-expected c e x job c' a here f =
      let D = λ (r : Controller p × Added).
        expected (r.0) ≤ expected c + 2 * length (accepted p job (some r)) in
      let y : Execution = record x { job_chan = x.job_chan ++ job ∷ [] } in
      let c₁ : Controller p = record c { executions_made = set c.executions_made e y } in
      elim (Bool-cases x.closed) [
        | inl k ↦ absurd (ground arith)
        | inr k ↦ elim (Bool-cases (ltb (length x.job_chan) x.cap)) [
          | inl room ↦ subst D (some-injective (c₁, returned none) (c', a) (ground arith)) (
              omega (
                arith,
                all_outstanding-set c.executions_made e x y here,
                length-append x.job_chan (job ∷ []),
              ))
          | inr full ↦ subst D (some-injective (c, blocked) (c', a) (ground arith)) (omega arith)
        ]
      ]

  registered-expected :
      (c : Controller p) (e : ℕ) (x : Execution) (job : Job)
      → get_elem? c.executions_made e ≡ some x
      → expected (register p c e x job).0 ≡ expected c + 1
  unfolding register
  registered-expected c e x job here = omega (
    arith,
    all_outstanding-set c.executions_made e x (register p c e x job).1 here,
    open_pods-append c.pods_made (record {
      node = job.node;
      started = none;
      terminated = none;
      report_received = none;
      status = "";
    }),
  )

  pub added-expected :
      (c c' : Controller p) (job : Job) (a : Added)
      → add_pod p c job ≡ some (c', a)
      → expected c'
        ≤ expected c + (2 * length (accepted p job (some (c', a))) + registers c (added job))
  unfolding add_pod for_id registers
  added-expected c c' job a f = elim (Option-cases (lookup job.id c.executions)) [
    | inl n ↦
        let is : c ≡ c' = ground arith in
        subst
          (λ (d : Controller p).
            expected d
            ≤ expected c + (2 * length (accepted p job (some (c', a))) + registers c (added job)))
          is (omega arith)
    | inr (e, n) ↦ elim (Option-cases (get_elem? c.executions_made e)) [
      | inl m ↦ absurd (ground arith)
      | inr (x, here) ↦
          let d = (register p c e x job).0 in
          let s =
            sent-expected d e (register p c e x job).1 job c' a
              (get_elem?-set_self c.executions_made e _ (get_elem?-lt c.executions_made e here))
              (ground arith) in
          let one : registers c (added job) ≡ 1 = ground arith in
          omega (arith, s, one, registered-expected c e x job here)
    ]
  ]
