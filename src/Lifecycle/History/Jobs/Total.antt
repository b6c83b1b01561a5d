-- ===== src/Lifecycle/History/Jobs/Total.antt =====
-- The jobs of a whole history.
use batch_job_controller.Base.{
  ℕ, zero, suc, ◌≡◌, ◌∙◌, refl, ap, subst, arith, String, true, List, [], ◌∷◌, ◌++◌, Option, some,
  append_assoc, append-nil, get_elem?, set, length, Option-cases, Bool-cases, inl, inr,
}
use mathlib.Core.Option.{some-injective}
use mathlib.Core.List.{Perm}
use mathlib.Core.List.Perm
use batch_job_controller.Base.Dict.{lookup}
use batch_job_controller.Base.Int.{ℤ, pos, negsuc}
use batch_job_controller.Metrics.Prom.{Prom}
use batch_job_controller.Lifecycle.Disk.{DirEntry, SortFunc, read_dir}
use batch_job_controller.Lifecycle.State.{Error, Execution, Controller}
use batch_job_controller.Lifecycle.Controller.{
  made, start, new_execution, for_id, send, add_pod, forget, prune_count, close, forget_first,
  all_added,
}
use batch_job_controller.Lifecycle.Outcome.{pod_terminated}
use batch_job_controller.Lifecycle.Workers.{worker_step}
use batch_job_controller.Lifecycle.History.{
  Event, executed, added, sent, completed, worked, terminated, reported, happen, history,
}
use batch_job_controller.Lifecycle.History.Calls.{pod_terminated-IsBeside, report_received-IsBeside}
use batch_job_controller.Lifecycle.History.Jobs.{
  accepted, added-jobs, all_in_hand-replicate, all_jobs, pending, pending-append, pending-same,
  same_jobs, sends, sent-jobs, sent_jobs, worked-jobs,
}

module _ (p : Prom) where
  started-jobs :
      (c c' : Controller p) (id : String) (jobs now : ℕ)
      → new_execution p c id jobs now ≡ some c'
      → Perm (all_jobs p c') (all_jobs p c ++ [])
  unfolding new_execution start
  started-jobs c c' id jobs now f = started_by c.pod_pool_size refl
    where
      started_by : (size : ℤ) → c.pod_pool_size ≡ size → Perm (all_jobs p c') (all_jobs p c ++ [])
      started_by (pos n) e =
          let is : start p c id jobs now n ≡ c' = ground arith in
          subst (λ (d : Controller p). Perm (all_jobs p d) (all_jobs p c ++ [])) is
            (same_jobs p c (start p c id jobs now n) refl
              (rw (pending-append, all_in_hand-replicate, append-nil) refl))
      started_by (negsuc n) e = absurd (ground arith)

  unmoved : (c c' : Controller p) → c ≡ c' → Perm (all_jobs p c') (all_jobs p c ++ [])
  unmoved c c' e = rw (← e, append-nil) (Perm.refl _)

  forget_first_same :
      (n : ℕ) (files : List DirEntry) (c d : Controller p)
      → forget_first p n files c ≡ some d
      → (d.executions_made ≡ c.executions_made) × (d.created ≡ c.created)
  unfolding forget_first forget
  forget_first_same zero files c d h = ground arith
  forget_first_same (suc n) [] c d h = cc
  forget_first_same (suc n) (f ∷ files) c d h = forget_first_same n files (forget p c f.name) d h

  completed-jobs :
      (by_time : SortFunc) (c c' : Controller p) (id : String) (err : Option Error)
      → all_added p by_time c id ≡ some (c', err)
      → Perm (all_jobs p c') (all_jobs p c ++ [])
  unfolding all_added for_id close
  completed-jobs by_time c c' id err f = elim (Option-cases (lookup id c.executions)) [
    | inl n ↦ unmoved c c' (ground arith)
    | inr (e, n) ↦ elim (Option-cases (read_dir c.disk)) [
      | inl r ↦ unmoved c c' (ground arith)
      | inr (files, r) ↦
          elim (Option-cases (
            forget_first p (prune_count p (length files) c.report_history) (by_time.sort files)
              c)) [
                | inl k ↦ absurd (ground arith)
                | inr (d, k) ↦
                    let (made, same) = forget_first_same _ (by_time.sort files) c d k in
                    elim (Option-cases (get_elem? d.executions_made e)) [
                      | inl o ↦ absurd (ground arith)
                      | inr (x, here) ↦ elim (Bool-cases x.closed) [
                        | inl y ↦ absurd (ground arith)
                        | inr y ↦
                            let d' : Controller p = record d {
                              executions_made =
                                  set d.executions_made e (record x { closed = true });
                            } in
                            let is : d' ≡ c' = ground arith in
                            subst (λ (q : Controller p). Perm (all_jobs p q) (all_jobs p c ++ []))
                              is
                              (same_jobs p c d' same (
                                pending-same d.executions_made e x (record x { closed = true }) here
                                  refl
                                ∙ ap (λ (es : List Execution). pending es) made))
                      ]
                    ]
              ]
    ]
  ]

  happen-jobs :
      (by_time : SortFunc) (c c' : Controller p) (v : Event p)
      → happen p by_time c v ≡ some c'
      → Perm (all_jobs p c') (all_jobs p c ++ sends p c v)
  unfolding happen sends
  happen-jobs by_time c c' (executed id jobs now) h = started-jobs c c' id jobs now h
  happen-jobs by_time c c' (added job) h = elim (Option-cases (add_pod p c job)) [
    | inl n ↦ absurd (ground arith)
    | inr ((d, a), n) ↦
        let is : d ≡ c' = ground arith in
        let same : sends p c (added job) ≡ accepted p job (some (d, a)) = ap (accepted p job) n in
        rw (same, ← is) (added-jobs p c d job a n)
  ]
  happen-jobs by_time c c' (sent e job) h = elim (Option-cases (get_elem? c.executions_made e)) [
    | inl n ↦ absurd (ground arith)
    | inr (x, here) ↦ elim (Option-cases (send p c e x job)) [
      | inl n ↦ absurd (ground arith)
      | inr ((d, a), n) ↦
          let is : d ≡ c' = ground arith in
          let same : sends p c (sent e job) ≡ accepted p job (some (d, a)) = ground arith in
          rw (same, ← is) (sent-jobs p c e x job d a here n)
    ]
  ]
  happen-jobs by_time c c' (completed id) h = elim (Option-cases (all_added p by_time c id)) [
    | inl n ↦ absurd (ground arith)
    | inr ((d, err), n) ↦
        let is : d ≡ c' = ground arith in rw (← is) (completed-jobs by_time c d id err n)
  ]
  happen-jobs by_time c c' (worked e w now) h =
      rw (← some-injective (worker_step p c e w now) c' h) (worked-jobs p c e w now)
  happen-jobs by_time c c' (terminated id node phase now) h =
      elim (Option-cases (pod_terminated p c id node phase now)) [
        | inl n ↦ absurd (ground arith)
        | inr ((d, err), n) ↦
            let is : d ≡ c' = ground arith in
            let b = pod_terminated-IsBeside p c d id node phase now err n in
            rw (← is) (
              same_jobs p c d b.created
                (ap (λ (es : List Execution). pending es) b.executions_made))
      ]
  happen-jobs by_time c c' (reported id node err results now) h =
      let b = report_received-IsBeside p c c' id node err results now h in
      same_jobs p c c' b.created (ap (λ (es : List Execution). pending es) b.executions_made)

  -- In every history, with calls and steps in any order, the jobs whose pods have been created, that a
  -- worker holds and that wait in a channel are together those of the start and those that the history
  -- has put into a channel, each as often: no job is lost and no pod is created twice for one send.
  pub history-jobs :
      (by_time : SortFunc) (c c' : Controller p) (events : List (Event p))
      → history p by_time c events ≡ some c'
      → Perm (all_jobs p c') (all_jobs p c ++ sent_jobs p by_time c events)
  unfolding history sent_jobs
  history-jobs by_time c c' [] h = unmoved c c' (some-injective c c' h)
  history-jobs by_time c c' (v ∷ events) h = elim (Option-cases (happen p by_time c v)) [
    | inl n ↦ absurd (ground arith)
    | inr (d, n) ↦
        let rest = history-jobs by_time d c' events (ground arith) in
        let first = happen-jobs by_time c d v n in
        rw (n, ← append_assoc (all_jobs p c) (sends p c v) (sent_jobs p by_time d events))
          (Perm.trans rest (Perm.append_right (sent_jobs p by_time d events) first))
  ]
