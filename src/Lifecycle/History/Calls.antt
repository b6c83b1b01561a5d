-- ===== src/Lifecycle/History/Calls.antt =====
-- What the calls of the controller leave alone, and that they keep the state well formed.
use batch_job_controller.Base.{
  ℕ, ◌≡◌, refl, sym, subst, arith, String, Bool, false, List, [], ◌∷◌, Option, some, length,
  length-append, length-set, get_elem?, set, Option-cases, inl, inr,
}
use batch_job_controller.Metrics.Prom.{Prom}
use batch_job_controller.Metrics.Collector.{
  Collector, Results, execution_started, pods, prune_execution, processing_finished,
}
use batch_job_controller.Metrics.Collector.Totals.{IsSound}
use batch_job_controller.Metrics.Collector.Pruning.{prune_execution-IsPruned}
use batch_job_controller.Lifecycle.Disk.{DirEntry}
use batch_job_controller.Lifecycle.State.{Pod, Job, Execution, Error, Controller}
use batch_job_controller.Lifecycle.Controller.{made, start, register, forget}
use batch_job_controller.Lifecycle.Controller.Admission.{fresh_pod}
use batch_job_controller.Lifecycle.Controller.Retention.{forget_all}
use batch_job_controller.Lifecycle.Outcome.{
  set_pod, pod_for_id, pod_terminated, terminate, note_report, report_received, report_all,
}
use batch_job_controller.Lifecycle.Workers.{worker_step}
use batch_job_controller.Lifecycle.History.WellFormed.{
  are_below-insert, are_below-delete, are_below_mono, are_all_below_mono, are_all_below-get_elem?,
  are_all_below-set, are_all_below-append, IsWellFormed,
}
use batch_job_controller.Lifecycle.History.Frame.{worker_step-IsFramed, worker_step_absent}

module _ (p : Prom) where
  -- What a call about a pod leaves alone.
  pub record IsBeside (c c' : Controller p) : Type 0 where
    pub executions : c'.executions ≡ c.executions
    pub executions_made : c'.executions_made ≡ c.executions_made
    pub created : c'.created ≡ c.created
    pub known_pods : length c'.pods_made ≡ length c.pods_made

  pub IsBeside-IsWellFormed :
      (c c' : Controller p)
      → IsBeside c c'
      → IsSound p c'.prom
      → c'.prom.latest_metric ≡ false
      → IsWellFormed p c
      → IsWellFormed p c'
  IsBeside-IsWellFormed c c' b s l h = record {
    executions = rw (b.executions, b.executions_made) h.executions;
    pods = rw (b.executions_made, b.known_pods) h.pods;
    sound = s;
    latest = l;
  }

  beside : {c : Controller p} → IsBeside c c
  beside = record { executions = refl; executions_made = refl; created = refl; known_pods = refl }

  pod_set : (c : Controller p) (r : ℕ) (q : Pod) → IsBeside c (set_pod p c r q)
  pod_set c r q = record {
    executions = refl;
    executions_made = refl;
    created = refl;
    known_pods = length-set c.pods_made r q;
  }

  along :
      {c c' : Controller p} {m : Collector p} → IsBeside (record c { prom = m }) c' → IsBeside c c'
  along b = record {
    executions = b.executions;
    executions_made = b.executions_made;
    created = b.created;
    known_pods = b.known_pods;
  }

  pub terminate-IsBeside :
      (c c' : Controller p) (id node phase : String) (now r : ℕ) (q : Pod)
      → terminate p c id node phase now r q ≡ some c'
      → IsBeside c c'
  unfolding terminate
  terminate-IsBeside c c' id node phase now r q e = record {
    executions = ground arith;
    executions_made = ground arith;
    created = ground arith;
    known_pods =
        ground
          (arith, length-set c.pods_made r (record q { terminated = some now; status = phase }));
  }

  pub pod_terminated-IsBeside :
      (c c' : Controller p) (id node phase : String) (now : ℕ) (err : Option Error)
      → pod_terminated p c id node phase now ≡ some (c', err)
      → IsBeside c c'
  unfolding pod_terminated
  pod_terminated-IsBeside c c' id node phase now err e =
      elim (Option-cases (pod_for_id p c id node)) [
        | inl n ↦ subst (λ (d : Controller p). IsBeside c d) (ground arith) beside
        | inr (r, n) ↦ elim (Option-cases (get_elem? c.pods_made r)) [
          | inl m ↦ absurd (ground arith)
          | inr (q, m) ↦ elim (Option-cases q.terminated) [
            | inl t ↦ elim (Option-cases (terminate p c id node phase now r q)) [
              | inl k ↦ absurd (ground arith)
              | inr (d, k) ↦
                  subst (λ (d : Controller p). IsBeside c d) (ground arith)
                    (terminate-IsBeside c d id node phase now r q k)
            ]
            | inr (t, o) ↦ subst (λ (d : Controller p). IsBeside c d) (ground arith) beside
          ]
        ]
      ]

  pub note_report-IsBeside :
      (c : Controller p) (id node : String) (now : ℕ) → IsBeside c (note_report p c id node now)
  unfolding note_report
  note_report-IsBeside c id node now = elim (Option-cases (pod_for_id p c id node)) [
    | inl n ↦ subst (λ (d : Controller p). IsBeside c d) (sym (ground arith)) beside
    | inr (r, n) ↦ elim (Option-cases (get_elem? c.pods_made r)) [
      | inl m ↦ subst (λ (d : Controller p). IsBeside c d) (sym (ground arith)) beside
      | inr (q, m) ↦
          let q' : Pod = record q { report_received = some now; status = "ReportReceived" } in
          subst (λ (d : Controller p). IsBeside c d) (sym (ground arith)) (pod_set c r q')
    ]
  ]

  pub report_received-IsBeside :
      (c c' : Controller p) (id node : String) (err : Bool) (results : Results p) (now : ℕ)
      → report_received p c id node err results now ≡ some c'
      → IsBeside c c'
  unfolding report_received
  report_received-IsBeside c c' id node err results now e =
      elim (Option-cases (report_all p c.prom id node results)) [
        | inl n ↦ absurd (ground arith)
        | inr (m, n) ↦ elim (Option-cases (processing_finished p m node id err)) [
          | inl k ↦ absurd (ground arith)
          | inr (m', k) ↦
              subst (λ (d : Controller p). IsBeside c d) (ground arith)
                (along (note_report-IsBeside (record c { prom = m' }) id node now))
        ]
      ]

  pub start-IsWellFormed :
      (c : Controller p) (id : String) (jobs now size : ℕ)
      → IsWellFormed p c
      → IsWellFormed p (start p c id jobs now size)
  unfolding start execution_started pods
  start-IsWellFormed c id jobs now size h =
      let more = length-append c.executions_made (made p id size ∷ []) in
      record {
        executions =
            are_below-insert _ c.executions id (length c.executions_made)
              (are_below_mono (length c.executions_made) _ c.executions (omega (arith, more))
                h.executions)
              (omega (arith, more));
        pods =
            are_all_below-append (length c.pods_made) c.executions_made (made p id size) h.pods
              refl;
        sound = record {
          proc_error = h.sound.proc_error;
          proc_error_arity = h.sound.proc_error_arity;
          duration = h.sound.duration;
          duration_arity = h.sound.duration_arity;
          gauges = h.sound.gauges;
        };
        latest = h.latest;
      }

  pub write-IsWellFormed :
      (c : Controller p) (e : ℕ) (x y : Execution)
      → get_elem? c.executions_made e ≡ some x
      → y.pods ≡ x.pods
      → IsWellFormed p c
      → IsWellFormed p (record c { executions_made = set c.executions_made e y })
  write-IsWellFormed c e x y here same h = record {
    executions = rw length-set h.executions;
    pods =
        are_all_below-set (length c.pods_made) c.executions_made e y h.pods (
          rw same (are_all_below-get_elem? (length c.pods_made) c.executions_made e x h.pods here));
    sound = h.sound;
    latest = h.latest;
  }

  pub register-IsWellFormed :
      (c : Controller p) (e : ℕ) (x : Execution) (job : Job)
      → get_elem? c.executions_made e ≡ some x
      → IsWellFormed p c
      → IsWellFormed p (register p c e x job).0
  unfolding register
  register-IsWellFormed c e x job here h =
      let more = length-append c.pods_made (fresh_pod p job.node ∷ []) in
      record {
        executions = rw length-set h.executions;
        pods =
            are_all_below-set _ c.executions_made e _
              (are_all_below_mono (length c.pods_made) _ c.executions_made (omega (arith, more))
                h.pods)
              (are_below-insert _ x.pods job.node (length c.pods_made)
                (are_below_mono (length c.pods_made) _ x.pods (omega (arith, more))
                  (are_all_below-get_elem? (length c.pods_made) c.executions_made e x h.pods here))
                (omega (arith, more)));
        sound = h.sound;
        latest = h.latest;
      }

  pub forget_all-IsWellFormed :
      (gone : List DirEntry) (c : Controller p)
      → IsWellFormed p c
      → IsWellFormed p (forget_all p gone c)
  unfolding forget prune_execution
  forget_all-IsWellFormed [] c h = h
  forget_all-IsWellFormed (f ∷ gone) c h =
      forget_all-IsWellFormed gone (forget p c f.name) (record {
        executions = are_below-delete (length c.executions_made) c.executions f.name h.executions;
        pods = h.pods;
        sound = (prune_execution-IsPruned p c.prom f.name h.sound).sound;
        latest = h.latest;
      })

  pub worker_step-IsWellFormed :
      (c : Controller p) (e w now : ℕ) → IsWellFormed p c → IsWellFormed p (worker_step p c e w now)
  worker_step-IsWellFormed c e w now h = elim (Option-cases (get_elem? c.executions_made e)) [
    | inl n ↦ rw (worker_step_absent p c e w now n) h
    | inr (x, here) ↦
        let f = worker_step-IsFramed p c e w now x here in
        record {
          executions = rw (f.executions, f.written, length-set) h.executions;
          pods =
              rw (f.written, f.known_pods)
                (are_all_below-set (length c.pods_made) c.executions_made e f.execution h.pods (
                  rw f.pods (
                    are_all_below-get_elem? (length c.pods_made) c.executions_made e x h.pods
                      here)));
          sound = subst (λ (m : Collector p). IsSound p m) (sym f.prom) h.sound;
          latest = rw f.prom h.latest;
        }
  ]
