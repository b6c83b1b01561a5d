-- ===== src/System/Fixed.antt =====
-- What no call and no step of the controller changes: the pool size and the history.
use batch_job_controller.Base.{
  ℕ, zero, suc, String, Bool, List, [], ◌∷◌, Option, some, ◌≡◌, ◌∙◌, refl, subst, arith, length,
  get_elem?, Option-cases, inl, inr,
}
use mathlib.Core.Option.{some-injective}
use batch_job_controller.Base.Dict.{lookup}
use batch_job_controller.Base.Int.{ℤ, pos, negsuc}
use batch_job_controller.Metrics.Prom.{Prom}
use batch_job_controller.Metrics.Collector.{Results, processing_finished}
use batch_job_controller.Lifecycle.Disk.{SortFunc, DirEntry, read_dir}
use batch_job_controller.Lifecycle.State.{
  Job, Pod, Error, Worker, idle, creating, created, watching, gone, Execution, Controller,
}
use batch_job_controller.Lifecycle.Controller.{
  Added, add_progress, start, new_execution, for_id, register, send, add_pod, prune_count, forget,
  forget_first, close, all_added,
}
use batch_job_controller.Lifecycle.Outcome.{
  pod_for_id, terminate, pod_terminated, report_all, note_report, report_received,
}
use batch_job_controller.Lifecycle.Workers.{receive, begin, poll, work, worker_step}
use batch_job_controller.Lifecycle.History.{
  Event, executed, added, sent, completed, worked, terminated, reported, happen, history,
}

module _ (p : Prom) where
  abbrev pub IsFixed : Controller p → Controller p → Type 0
  IsFixed c c' = (c'.pod_pool_size ≡ c.pod_pool_size) × (c'.report_history ≡ c.report_history)

  onto : (c d c' : Controller p) → d ≡ c' → IsFixed c d → IsFixed c c'
  onto c d c' e h = subst (λ (x : Controller p). IsFixed c x) e h

  IsFixed-trans : (c d c' : Controller p) → IsFixed c d → IsFixed d c' → IsFixed c c'
  IsFixed-trans c d c' (a, b) (e, f) = (e ∙ a, f ∙ b)

  new_execution-IsFixed :
      (c c' : Controller p) (id : String) (jobs now : ℕ)
      → new_execution p c id jobs now ≡ some c'
      → IsFixed c c'
  unfolding new_execution start
  new_execution-IsFixed c c' id jobs now h = started c.pod_pool_size refl
    where
      started : (size : ℤ) → c.pod_pool_size ≡ size → IsFixed c c'
      started (pos n) e =
          let is : start p c id jobs now n ≡ c' = ground arith in
          subst (λ (d : Controller p). IsFixed c d) is (refl, refl)
      started (negsuc n) e = absurd (ground arith)

  send-IsFixed :
      (c c' : Controller p) (e : ℕ) (x : Execution) (job : Job) (a : Added)
      → send p c e x job ≡ some (c', a)
      → IsFixed c c'
  unfolding send
  send-IsFixed c c' e x job a h = ground arith

  add_pod-IsFixed :
      (c c' : Controller p) (job : Job) (a : Added) → add_pod p c job ≡ some (c', a) → IsFixed c c'
  unfolding add_pod for_id register
  add_pod-IsFixed c c' job a h = elim (Option-cases (lookup job.id c.executions)) [
    | inl n ↦ ground arith
    | inr (e, n) ↦ elim (Option-cases (get_elem? c.executions_made e)) [
      | inl m ↦ absurd (ground arith)
      | inr (x, here) ↦
          let r = register p c e x job in send-IsFixed (r.0) c' e (r.1) job a (ground arith)
    ]
  ]

  forget_first-IsFixed :
      (n : ℕ) (files : List DirEntry) (c d : Controller p)
      → forget_first p n files c ≡ some d
      → IsFixed c d
  unfolding forget_first forget
  forget_first-IsFixed zero files c d h = ground arith
  forget_first-IsFixed (suc n) [] c d h = cc
  forget_first-IsFixed (suc n) (f ∷ files) c d h =
      forget_first-IsFixed n files (forget p c f.name) d h

  close-IsFixed : (c c' : Controller p) (e : ℕ) → close p c e ≡ some c' → IsFixed c c'
  unfolding close
  close-IsFixed c c' e h = ground arith

  all_added-IsFixed :
      (by_time : SortFunc) (c : Controller p) (id : String) (r : Controller p × Option Error)
      → all_added p by_time c id ≡ some r
      → IsFixed c (r.0)
  unfolding all_added for_id
  all_added-IsFixed by_time c id r h = elim (Option-cases (lookup id c.executions)) [
    | inl n ↦ ground arith
    | inr (e, n) ↦ elim (Option-cases (read_dir c.disk)) [
      | inl m ↦ ground arith
      | inr (files, m) ↦
          elim (Option-cases (
            forget_first p (prune_count p (length files) c.report_history) (by_time.sort files)
              c)) [
                | inl q ↦ absurd (ground arith)
                | inr (d, q) ↦ elim (Option-cases (close p d e)) [
                  | inl o ↦ absurd (ground arith)
                  | inr (d', o) ↦
                      let is : d' ≡ r.0 = ground arith in
                      subst (λ (x : Controller p). IsFixed c x) is
                        (IsFixed-trans c d d' (forget_first-IsFixed _ (by_time.sort files) c d q)
                          (close-IsFixed d d' e o))
                ]
              ]
    ]
  ]

  work-IsFixed :
      (c : Controller p) (e : ℕ) (x : Execution) (w now : ℕ) (k : Worker)
      → IsFixed c (work p c e x w now k)
  unfolding work receive begin poll add_progress
  work-IsFixed c e x w now idle = received x.job_chan
    where
      received : (chan : List Job) → IsFixed c (receive p c e x w chan)
      received [] = ground arith
      received (job ∷ chan) = (refl, refl)
  work-IsFixed c e x w now (creating job) = (refl, refl)
  work-IsFixed c e x w now (created job) = ground arith
  work-IsFixed c e x w now (watching job r) = ground arith
  work-IsFixed c e x w now gone = (refl, refl)

  worker_step-IsFixed : (c : Controller p) (e w now : ℕ) → IsFixed c (worker_step p c e w now)
  unfolding worker_step
  worker_step-IsFixed c e w now = elim (Option-cases (get_elem? c.executions_made e)) [
    | inl n ↦ ground arith
    | inr (x, n) ↦ elim (Option-cases (get_elem? x.workers w)) [
      | inl m ↦ ground arith
      | inr (k, m) ↦
          let is : work p c e x w now k ≡ worker_step p c e w now = ground arith in
          subst (λ (d : Controller p). IsFixed c d) is (work-IsFixed c e x w now k)
    ]
  ]

  terminate-IsFixed :
      (c c' : Controller p) (id node phase : String) (now r : ℕ) (q : Pod)
      → terminate p c id node phase now r q ≡ some c'
      → IsFixed c c'
  unfolding terminate add_progress
  terminate-IsFixed c c' id node phase now r q h = (ground arith, ground arith)

  pod_terminated-IsFixed :
      (c : Controller p) (id node phase : String) (now : ℕ) (r : Controller p × Option Error)
      → pod_terminated p c id node phase now ≡ some r
      → IsFixed c (r.0)
  unfolding pod_terminated
  pod_terminated-IsFixed c id node phase now r h = elim (Option-cases (pod_for_id p c id node)) [
    | inl n ↦ ground arith
    | inr (at_, n) ↦ elim (Option-cases (get_elem? c.pods_made at_)) [
      | inl m ↦ absurd (ground arith)
      | inr (q, m) ↦ elim (Option-cases q.terminated) [
        | inr (ended, o) ↦ ground arith
        | inl o ↦ elim (Option-cases (terminate p c id node phase now at_ q)) [
          | inl k ↦ absurd (ground arith)
          | inr (d, k) ↦
              let is : d ≡ r.0 = ground arith in
              subst (λ (x : Controller p). IsFixed c x) is
                (terminate-IsFixed c d id node phase now at_ q k)
        ]
      ]
    ]
  ]

  note_report-IsFixed :
      (c : Controller p) (id node : String) (now : ℕ) → IsFixed c (note_report p c id node now)
  unfolding note_report
  note_report-IsFixed c id node now = ground arith

  report_received-IsFixed :
      (c c' : Controller p) (id node : String) (err : Bool) (results : Results p) (now : ℕ)
      → report_received p c id node err results now ≡ some c'
      → IsFixed c c'
  unfolding report_received
  report_received-IsFixed c c' id node err results now h =
      elim (Option-cases (report_all p c.prom id node results)) [
        | inl n ↦ absurd (ground arith)
        | inr (m, n) ↦ elim (Option-cases (processing_finished p m node id err)) [
          | inl k ↦ absurd (ground arith)
          | inr (m', k) ↦
              let is : note_report p (record c { prom = m' }) id node now ≡ c' = ground arith in
              subst (λ (q : Controller p). IsFixed c q) is
                (note_report-IsFixed (record c { prom = m' }) id node now)
        ]
      ]

  module _ (by_time : SortFunc) where
    happen-IsFixed :
        (c c' : Controller p) (v : Event p) → happen p by_time c v ≡ some c' → IsFixed c c'
    unfolding happen
    happen-IsFixed c c' (executed id jobs now) h = new_execution-IsFixed c c' id jobs now h
    happen-IsFixed c c' (added job) h = elim (Option-cases (add_pod p c job)) [
      | inl n ↦ absurd (ground arith)
      | inr ((d, a), n) ↦ onto c d c' (ground arith) (add_pod-IsFixed c d job a n)
    ]
    happen-IsFixed c c' (sent e job) h = elim (Option-cases (get_elem? c.executions_made e)) [
      | inl n ↦ absurd (ground arith)
      | inr (x, here) ↦ elim (Option-cases (send p c e x job)) [
        | inl n ↦ absurd (ground arith)
        | inr ((d, a), n) ↦ onto c d c' (ground arith) (send-IsFixed c d e x job a n)
      ]
    ]
    happen-IsFixed c c' (completed id) h = elim (Option-cases (all_added p by_time c id)) [
      | inl n ↦ absurd (ground arith)
      | inr (r, n) ↦ onto c (r.0) c' (ground arith) (all_added-IsFixed by_time c id r n)
    ]
    happen-IsFixed c c' (worked e w now) h =
        onto c (worker_step p c e w now) c' (some-injective _ c' h) (worker_step-IsFixed c e w now)
    happen-IsFixed c c' (terminated id node phase now) h =
        elim (Option-cases (pod_terminated p c id node phase now)) [
          | inl n ↦ absurd (ground arith)
          | inr (r, n) ↦
              onto c (r.0) c' (ground arith) (pod_terminated-IsFixed c id node phase now r n)
        ]
    happen-IsFixed c c' (reported id node err results now) h =
        report_received-IsFixed c c' id node err results now h

    pub history-IsFixed :
        (c c' : Controller p) (events : List (Event p))
        → history p by_time c events ≡ some c'
        → IsFixed c c'
    unfolding history
    history-IsFixed c c' [] h = onto c c c' (some-injective c c' h) (refl, refl)
    history-IsFixed c c' (v ∷ events) h = elim (Option-cases (happen p by_time c v)) [
      | inl n ↦ absurd (ground arith)
      | inr (d, n) ↦
          IsFixed-trans c d c' (happen-IsFixed c d v n) (history-IsFixed d c' events (ground arith))
    ]
