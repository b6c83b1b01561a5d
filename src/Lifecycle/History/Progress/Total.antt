-- ===== src/Lifecycle/History/Progress/Total.antt =====
-- The progress of a whole history, against the jobs and pods that it adds.
use batch_job_controller.Base.{
  ℕ, zero, suc, ◌+◌, ◌*◌, ◌%◌, ◌^◌, ◌≤◌, ◌≡◌, ◌∙◌, refl, sym, ap, subst, arith, String, Bool, true,
  List, [], ◌∷◌, Option, none, some, length, length-append, get_elem?, set, Option-cases,
  Bool-cases, inl, inr,
}
use mathlib.Core.Option.{some-injective}
use batch_job_controller.Base.Int.{ℤ, pos, negsuc}
use batch_job_controller.Metrics.Prom.{Prom}
use batch_job_controller.Metrics.Collector.{Results, processing_finished}
use batch_job_controller.Lifecycle.Disk.{DirEntry, SortFunc, read_dir}
use batch_job_controller.Lifecycle.State.{Pod, Error, Execution, Controller}
use batch_job_controller.Lifecycle.Controller.{
  start, made, new_execution, for_id, send, add_pod, forget, prune_count, close, forget_first,
  all_added, add_progress,
}
use batch_job_controller.Lifecycle.Outcome.{
  pod_for_id, set_pod, terminate, pod_terminated, note_report, report_all, report_received,
}
use batch_job_controller.Lifecycle.Workers.{worker_step}
use batch_job_controller.Lifecycle.Workers.Progress.{wrap-le}
use batch_job_controller.Lifecycle.History.{
  Event, executed, added, sent, completed, worked, terminated, reported, happen, history,
}
use batch_job_controller.Lifecycle.History.Frame.{open_pod, open_pods, open_pods-set}
use batch_job_controller.Lifecycle.History.Calls.{pod_terminated-IsBeside, report_received-IsBeside}
use batch_job_controller.Lifecycle.History.Jobs.{accepted, sends, sent_jobs}
use batch_job_controller.Lifecycle.History.Progress.{
  all_outstanding-set, all_outstanding-append, dues-replicate, expected, registers, registered_pods,
  worked-expected, sent-expected, added-expected,
}

module _ (p : Prom) where
  started-expected :
      (c c' : Controller p) (id : String) (jobs now : ℕ)
      → new_execution p c id jobs now ≡ some c'
      → expected p c' ≤ expected p c
  unfolding new_execution start
  started-expected c c' id jobs now f = started_by c.pod_pool_size refl
    where
      started_by : (size : ℤ) → c.pod_pool_size ≡ size → expected p c' ≤ expected p c
      started_by (pos n) e =
          let is : start p c id jobs now n ≡ c' = ground arith in
          subst (λ (d : Controller p). expected p d ≤ expected p c) is
            (omega
              (arith, all_outstanding-append c.executions_made (made p id n), dues-replicate n))
      started_by (negsuc n) e = absurd (ground arith)

  unmoved : (c c' : Controller p) → c ≡ c' → expected p c' ≤ expected p c
  unmoved c c' e = subst (λ (d : Controller p). expected p d ≤ expected p c) e (omega arith)

  forget_first-expected :
      (n : ℕ) (files : List DirEntry) (c d : Controller p)
      → forget_first p n files c ≡ some d
      → expected p d ≡ expected p c
  unfolding forget_first forget
  forget_first-expected zero files c d h = ap (expected p) (sym (some-injective c d h))
  forget_first-expected (suc n) [] c d h = cc
  forget_first-expected (suc n) (f ∷ files) c d h =
      forget_first-expected n files (forget p c f.name) d h

  close-expected :
      (c c' : Controller p) (e : ℕ) → close p c e ≡ some c' → expected p c' ≤ expected p c
  unfolding close
  close-expected c c' e f = elim (Option-cases (get_elem? c.executions_made e)) [
    | inl n ↦ absurd (ground arith)
    | inr (x, here) ↦ elim (Bool-cases x.closed) [
      | inl y ↦ absurd (ground arith)
      | inr y ↦
          let x' : Execution = record x { closed = true } in
          let d : Controller p = record c { executions_made = set c.executions_made e x' } in
          let is : d ≡ c' = ground arith in
          subst (λ (k : Controller p). expected p k ≤ expected p c) is
            (omega (arith, all_outstanding-set c.executions_made e x x' here))
    ]
  ]

  completed-expected :
      (by_time : SortFunc) (c c' : Controller p) (id : String) (err : Option Error)
      → all_added p by_time c id ≡ some (c', err)
      → expected p c' ≤ expected p c
  unfolding all_added
  completed-expected by_time c c' id err f = elim (Option-cases (for_id p c id)) [
    | inl n ↦ unmoved c c' (ground arith)
    | inr (e, n) ↦ elim (Option-cases (read_dir c.disk)) [
      | inl r ↦ unmoved c c' (ground arith)
      | inr (files, r) ↦
          elim (Option-cases (
            forget_first p (prune_count p (length files) c.report_history) (by_time.sort files)
              c)) [
                | inl k ↦ absurd (ground arith)
                | inr (d, k) ↦ elim (Option-cases (close p d e)) [
                  | inl m ↦ absurd (ground arith)
                  | inr (d', m) ↦
                      let is : d' ≡ c' = ground arith in
                      let closed = close-expected d d' e m in
                      let kept = forget_first-expected _ (by_time.sort files) c d k in
                      subst (λ (q : Controller p). expected p q ≤ expected p c) is
                        (omega (arith, closed, kept))
                ]
              ]
    ]
  ]

  terminate-progress :
      (c c' : Controller p) (id node phase : String) (now r : ℕ) (q : Pod)
      → get_elem? c.pods_made r ≡ some q
      → q.terminated ≡ none
      → terminate p c id node phase now r q ≡ some c'
      → c'.progress + open_pods c'.pods_made ≤ c.progress + open_pods c.pods_made
  unfolding terminate add_progress
  terminate-progress c c' id node phase now r q here o f =
      let q' : Pod = record q { terminated = some now; status = phase } in
      let k : c'.progress ≡ (c.progress + 1) % 2 ^ 64 = ground arith in
      let m : c'.pods_made ≡ set c.pods_made r q' = ground arith in
      let one : open_pod q ≡ 1 = rw o refl in
      rw (k, m)
        (omega (arith, wrap-le (c.progress + 1), open_pods-set c.pods_made r q q' here, one))

  terminated-progress :
      (c c' : Controller p) (id node phase : String) (now : ℕ) (err : Option Error)
      → pod_terminated p c id node phase now ≡ some (c', err)
      → c'.progress + open_pods c'.pods_made ≤ c.progress + open_pods c.pods_made
  unfolding pod_terminated
  terminated-progress c c' id node phase now err f = elim (Option-cases (pod_for_id p c id node)) [
    | inl n ↦ same (ground arith)
    | inr (r, n) ↦ elim (Option-cases (get_elem? c.pods_made r)) [
      | inl m ↦ absurd (ground arith)
      | inr (q, here) ↦ elim (Option-cases q.terminated) [
        | inl o ↦ elim (Option-cases (terminate p c id node phase now r q)) [
          | inl k ↦ absurd (ground arith)
          | inr (d, k) ↦
              let is : d ≡ c' = ground arith in
              terminate-progress c c' id node phase now r q here o (k ∙ ap some is)
        ]
        | inr (t, o) ↦ same (ground arith)
      ]
    ]
  ]
    where
      same : c ≡ c' → c'.progress + open_pods c'.pods_made ≤ c.progress + open_pods c.pods_made
      same e =
          subst
            (λ (d : Controller p).
              d.progress + open_pods d.pods_made ≤ c.progress + open_pods c.pods_made)
            e (omega arith)

  note_report-progress :
      (c : Controller p) (id node : String) (now : ℕ)
      → (note_report p c id node now).progress + open_pods (note_report p c id node now).pods_made
        ≡ c.progress + open_pods c.pods_made
  unfolding note_report
  note_report-progress c id node now = elim (Option-cases (pod_for_id p c id node)) [
    | inl n ↦ is c (ground arith) refl
    | inr (r, n) ↦ elim (Option-cases (get_elem? c.pods_made r)) [
      | inl m ↦ is c (ground arith) refl
      | inr (q, here) ↦
          let q' : Pod = record q { report_received = some now; status = "ReportReceived" } in
          is (set_pod p c r q') (ground arith)
            (omega (arith, open_pods-set c.pods_made r q q' here))
    ]
  ]
    where
      total : Controller p → ℕ
      total d = d.progress + open_pods d.pods_made

      is :
          (d : Controller p)
          → note_report p c id node now ≡ d
          → total d ≡ total c
          → total (note_report p c id node now) ≡ total c
      is d e f = ap total e ∙ f

  reported-progress :
      (c c' : Controller p) (id node : String) (err : Bool) (results : Results p) (now : ℕ)
      → report_received p c id node err results now ≡ some c'
      → c'.progress + open_pods c'.pods_made ≤ c.progress + open_pods c.pods_made
  unfolding report_received
  reported-progress c c' id node err results now f =
      elim (Option-cases (report_all p c.prom id node results)) [
        | inl n ↦ absurd (ground arith)
        | inr (m, n) ↦ elim (Option-cases (processing_finished p m node id err)) [
          | inl k ↦ absurd (ground arith)
          | inr (m', k) ↦
              let d : Controller p = record c { prom = m' } in
              let is : note_report p d id node now ≡ c' = ground arith in
              subst
                (λ (q : Controller p).
                  q.progress + open_pods q.pods_made ≤ c.progress + open_pods c.pods_made)
                is (omega (arith, note_report-progress d id node now))
        ]
      ]

  settled :
      (c c' : Controller p) (n : ℕ)
      → c'.executions_made ≡ c.executions_made
      → c'.progress + open_pods c'.pods_made ≤ c.progress + open_pods c.pods_made
      → expected p c' ≤ expected p c + n
  settled c c' n m h = rw m (omega (arith, h))

  more : {a b : ℕ} (n : ℕ) → a ≤ b → a ≤ b + n
  more n h = omega (arith, h)

  happen-expected :
      (by_time : SortFunc) (c c' : Controller p) (v : Event p)
      → happen p by_time c v ≡ some c'
      → expected p c' ≤ expected p c + (2 * length (sends p c v) + registers p c v)
  unfolding happen sends
  happen-expected by_time c c' (executed id jobs now) h =
      more _ (started-expected c c' id jobs now h)
  happen-expected by_time c c' (added job) h = elim (Option-cases (add_pod p c job)) [
    | inl n ↦ absurd (ground arith)
    | inr ((d, a), n) ↦
        let is : d ≡ c' = ground arith in
        let same : sends p c (added job) ≡ accepted p job (some (d, a)) = ap (accepted p job) n in
        rw (same, ← is) (added-expected p c d job a n)
  ]
  happen-expected by_time c c' (sent e job) h =
      elim (Option-cases (get_elem? c.executions_made e)) [
        | inl n ↦ absurd (ground arith)
        | inr (x, here) ↦ elim (Option-cases (send p c e x job)) [
          | inl n ↦ absurd (ground arith)
          | inr ((d, a), n) ↦
              let is : d ≡ c' = ground arith in
              let same : sends p c (sent e job) ≡ accepted p job (some (d, a)) = ground arith in
              rw (same, ← is) (omega (arith, sent-expected p c e x job d a here n))
        ]
      ]
  happen-expected by_time c c' (completed id) h = elim (Option-cases (all_added p by_time c id)) [
    | inl n ↦ absurd (ground arith)
    | inr ((d, err), n) ↦
        let is : d ≡ c' = ground arith in
        more _ (rw (← is) (completed-expected by_time c d id err n))
  ]
  happen-expected by_time c c' (worked e w now) h =
      more _ (rw (← some-injective (worker_step p c e w now) c' h) (worked-expected p c e w now))
  happen-expected by_time c c' (terminated id node phase now) h =
      elim (Option-cases (pod_terminated p c id node phase now)) [
        | inl n ↦ absurd (ground arith)
        | inr ((d, err), n) ↦
            let is : d ≡ c' = ground arith in
            rw (← is) (
              settled c d _ (pod_terminated-IsBeside p c d id node phase now err n).executions_made
                (terminated-progress c d id node phase now err n))
      ]
  happen-expected by_time c c' (reported id node err results now) h =
      settled c c' _ (report_received-IsBeside p c c' id node err results now h).executions_made
        (reported-progress c c' id node err results now h)

  -- In every history, with calls and steps in any order, the progress and what is still expected of it
  -- (two for each job that waits or is with a worker that has not begun it, one where it has begun, and
  -- one for each pod that has not ended) grow by at most two for each job that the history puts into a
  -- channel and one for each pod that it registers: a job counts at most three times.
  pub history-expected :
      (by_time : SortFunc) (c c' : Controller p) (events : List (Event p))
      → history p by_time c events ≡ some c'
      → expected p c'
        ≤ expected p c
          + (2 * length (sent_jobs p by_time c events) + registered_pods p by_time c events)
  unfolding history sent_jobs registered_pods
  history-expected by_time c c' [] h = more _ (unmoved c c' (some-injective c c' h))
  history-expected by_time c c' (v ∷ events) h = elim (Option-cases (happen p by_time c v)) [
    | inl n ↦ absurd (ground arith)
    | inr (d, n) ↦
        let rest = history-expected by_time d c' events (ground arith) in
        let first = happen-expected by_time c d v n in
        rw n
          (omega (arith, rest, first, length-append (sends p c v) (sent_jobs p by_time d events)))
  ]
