-- ===== src/System/Steps.antt =====
-- The safe states of the running program, and its steps from them.
use batch_job_controller.Base.{
  ℕ, String, Bool, true, false, ◌||◌, List, Option, none, some, ◌≡◌, ◌≢◌, ◌⊎◌, ◌∙◌, refl, sym, ap,
  subst, arith, ◌==◌, Option-cases, Bool-cases, inl, inr, append-nil, get_elem?, ◌∷◌, [], any, not,
  ◌&&◌,
}
use batch_job_controller.Metrics.Prom.{Prom}
use batch_job_controller.Metrics.Names.{get_text}
use batch_job_controller.Lifecycle.Disk.{SortFunc}
use batch_job_controller.Lifecycle.State.{Error, Execution, Controller}
use batch_job_controller.Lifecycle.Outcome.{pod_terminated}
use batch_job_controller.Lifecycle.Workers.{worker_step}
use batch_job_controller.Lifecycle.History
use batch_job_controller.Lifecycle.History.{Event, happen}
use batch_job_controller.Lifecycle.History.WellFormed.{IsWellFormed}
use batch_job_controller.Lifecycle.History.Calls.{
  IsBeside, pod_terminated-IsBeside, report_received-IsBeside,
}
use batch_job_controller.Lifecycle.History.Ends.{is_negative, panics}
use batch_job_controller.Lifecycle.History.Panics.{happen-none_iff, history-IsWellFormed}
use batch_job_controller.Job.{label_execution_id}
use batch_job_controller.Http.Web.{Request, PostServer}
use batch_job_controller.Http.Routes.{Route, results, files, events, api_handler}
use batch_job_controller.Http.Posts.Reporting.{is_null}
use batch_job_controller.System.NullPosts.{api_handler-null}
use batch_job_controller.Reconciler.{
  Found, ClusterPod, found, not_found, get_failed, State, reconcile,
}
use batch_job_controller.Cron.{CronJob, Stage, trigger, advance, is_going}
use batch_job_controller.System.{
  put_run, System, Move, triggered, advanced, worked, posted, reconciled, Outside, after_post,
  system_step,
}
use batch_job_controller.System.Posts.{Receives, api_handler-Receives}
use batch_job_controller.System.Whole.{system_step-Leads}
use batch_job_controller.System.Safety.{
  closed_in, IsAsOpen, worker_step-IsAsOpen, are_open, IsAsOpen-are_open, are_open-alone,
  put_run-are_open, flag_of, put_run-flag_of,
}
use batch_job_controller.System.Going.{step-GoesOn}
use batch_job_controller.Job.Identity.{IsLabelled}
use batch_job_controller.System.Fixed.{history-IsFixed}
use batch_job_controller.Cron.Stages.{is_marked, step-IsMarked}

module _ (p : Prom) (o : Outside p) (by_time : SortFunc) where
  -- Is a step the post of a report whose body is the JSON text `null`?
  abbrev pub is_null_post : Move → Bool
  is_null_post (triggered id now) = false
  is_null_post (advanced i) = false
  is_null_post (worked e w now) = false
  is_null_post (posted results r now) = is_null p o.web r
  is_null_post (posted files r now) = false
  is_null_post (posted events r now) = false
  is_null_post (reconciled pod now) = false

  -- The controller is well-formed, at most one run of the cron job goes on, the channels are open that it will
  -- use, the flag is set exactly where the run is past its writing, and the configured pool size and history are
  -- not negative.
  pub record IsSafe (y : System p) : Type 0 where
    pub well_formed : IsWellFormed p y.controller
    pub still_open : are_open p y.controller y.runs ≡ true
    pub marked : y.job.running ≡ flag_of y.runs
    pub pool : is_negative y.controller.pod_pool_size ≡ false
    pub retained : is_negative y.controller.report_history ≡ false

  IsBeside-IsAsOpen : (c c' : Controller p) → IsBeside p c c' → IsAsOpen p c c'
  IsBeside-IsAsOpen c c' b = record {
    executions = b.executions;
    closed = λ k. ap (λ (es : List Execution). closed_in es k) b.executions_made;
  }

  some_of :
      (c : Controller p) (v : Event p)
      → IsWellFormed p c
      → panics p c v ≡ false
      → happen p by_time c v ≢ none
  some_of c v wf h n = let y = (happen-none_iff p by_time c v wf).0 n in cc

  -- what a step that ends keeps, once the channels are open after it
  kept_by :
      (y y' : System p) (v : Move)
      → IsSafe y
      → system_step p o by_time y v ≡ some y'
      → are_open p y'.controller y'.runs ≡ true
      → y'.job.running ≡ flag_of y'.runs
      → IsSafe y'
  kept_by y y' v s h open_ marked =
      let l = system_step-Leads p o by_time y y' v h in
      let (pool, retained) = history-IsFixed p by_time y.controller y'.controller l.events l.run in
      record {
        well_formed =
            history-IsWellFormed p by_time y.controller y'.controller l.events l.run s.well_formed;
        still_open = open_;
        marked = marked;
        pool = ap is_negative pool ∙ s.pool;
        retained = ap is_negative retained ∙ s.retained;
      }

  -- What a move does: it ends safely, or it is the post of a report of `null` and panics.
  abbrev pub EndsSafely : System p → Move → Type 0
  EndsSafely y v =
      ((is_null_post v ≡ true) × (system_step p o by_time y v ≡ none))
      ⊎ ((y' : System p) × (system_step p o by_time y v ≡ some y') × IsSafe y')

  ends :
      (y y' : System p) (v : Move)
      → IsSafe y
      → system_step p o by_time y v ≡ some y'
      → are_open p y'.controller y'.runs ≡ true
      → y'.job.running ≡ flag_of y'.runs
      → EndsSafely y v
  ends y y' v s h open_ marked = inr (y', h, kept_by y y' v s h open_ marked)

  -- is a run past the test of the flag and before its writing?
  abbrev is_admitted : Stage → Bool
  is_admitted s = is_going s && not (is_marked s)

  -- Does a step begin no run of the cron job between the test of the flag by another and its writing?
  abbrev pub is_apart : System p → Move → Bool
  is_apart y (triggered id now) = not (any is_admitted y.runs)
  is_apart y (advanced i) = true
  is_apart y (worked e w now) = true
  is_apart y (posted route r now) = true
  is_apart y (reconciled pod now) = true

  pub triggered-EndsSafely :
      (y : System p) (id : String) (now : ℕ)
      → IsSafe y
      → is_apart y (triggered id now) ≡ true
      → EndsSafely y (triggered id now)
  unfolding system_step trigger
  triggered-EndsSafely y id now s apart = elim (Bool-cases y.job.running) [
    | inl b ↦
        ends y _ (triggered id now) s refl (ground (arith, b, append-nil y.runs, s.still_open))
          (ground (arith, b, append-nil y.runs, s.marked))
    | inr b ↦ alone b y.runs refl
  ]
    where
      alone :
          y.job.running ≡ false
          → (runs : List Stage) → y.runs ≡ runs
          → EndsSafely y (triggered id now)
      alone b [] e =
          ends y _ (triggered id now) s refl (ground (arith, b, e)) (ground (arith, b, e))
      alone b (r ∷ []) e = absurd (
          ground (
            arith,
            b,
            ap flag_of e,
            ap (any is_admitted) e,
            ap (are_open p y.controller) e,
            s.marked,
            apart,
            s.still_open,
          ))
      alone b (r ∷ r' ∷ runs) e =
          absurd (ground (arith, ap (are_open p y.controller) e, s.still_open))

  pub advanced-EndsSafely :
      (y : System p) (i : ℕ) → IsLabelled o.templates → IsSafe y → EndsSafely y (advanced i)
  unfolding system_step advance
  advanced-EndsSafely y i labelled s = elim (Option-cases (get_elem? y.runs i)) [
    | inl n ↦ ends y y (advanced i) s (ground (arith, n)) s.still_open s.marked
    | inr (stage, n) ↦
        let (is, at_) = are_open-alone p y.controller y.runs i stage s.still_open n in
        let j : CronJob p = record y.job { controller = y.controller; stage = stage } in
        let g =
          step-GoesOn p o.templates o.cron_cluster by_time j stage labelled s.well_formed s.pool
            (ground (arith, is, s.still_open)) s.retained refl in
        let stage' = (g.next).stage in
        let same : put_run y.runs i stage' ≡ put_run (stage ∷ []) 0 stage' =
          ap (λ (rs : List Stage). put_run rs i stage') is
          ∙ ap (λ (n : ℕ). put_run (stage ∷ []) n stage') at_ in
        let to : System p = record y {
          controller = (g.next).controller;
          job = g.next;
          runs = put_run y.runs i stage';
        } in
        ends y to (advanced i) s (ground (arith, n, g.run))
          (ap (are_open p (g.next).controller) same
            ∙ put_run-are_open p (g.next).controller stage stage' g.still_open)
          (step-IsMarked p o.templates o.cron_cluster by_time j g.next stage g.run refl
              (s.marked ∙ ap flag_of is)
            ∙ sym (ap flag_of same ∙ put_run-flag_of stage stage'))
  ]

  pub worked-EndsSafely : (y : System p) (e w now : ℕ) → IsSafe y → EndsSafely y (worked e w now)
  unfolding system_step
  worked-EndsSafely y e w now s =
      let c' = worker_step p y.controller e w now in
      ends y (record y { controller = c' }) (worked e w now) s refl
        (IsAsOpen-are_open p y.controller c' y.runs (worker_step-IsAsOpen p y.controller e w now)
          ∙ s.still_open)
        s.marked

  received-is_open :
      (y : System p) (s' : PostServer p) (r : Request) (now : ℕ)
      → IsSafe y
      → Receives p o.web now y.controller r s'
      → are_open p (after_post p o by_time y s').controller (after_post p o by_time y s').runs
        ≡ true
  received-is_open y s' r now s (inl same) = ground (arith, same, s.still_open)
  received-is_open y s' r now s (inr (rs, c', e, is)) =
      let b = report_received-IsBeside p y.controller c' r.execution_id r.node false rs now e in
      let kept =
        IsAsOpen-are_open p y.controller c' y.runs (IsBeside-IsAsOpen y.controller c' b)
        ∙ s.still_open in
      ground (arith, is, kept)

  pub posted-EndsSafely :
      (y : System p) (route : Route) (r : Request) (now : ℕ)
      → IsSafe y
      → EndsSafely y (posted route r now)
  unfolding system_step
  posted-EndsSafely y route r now s =
      let server : PostServer p = record y.server { controller = some y.controller } in
      elim (Option-cases (api_handler p o.web now o.nil_event route server r)) [
        | inl n ↦
            let (is, null) =
              api_handler-null p o.web now y.controller server refl r o.nil_event route
                s.well_formed.latest s.well_formed.sound n in
            inl (
              subst (λ (at : Route). is_null_post (posted at r now) ≡ true) (sym is) null,
              ground arith,
            )
        | inr ((s', a), n) ↦
            let open_ = received-is_open y s' r now s (
              api_handler-Receives p o.web now y.controller server refl r s' a o.nil_event route
                n) in
            ends y (after_post p o by_time y s') (posted route r now) s (ground arith) open_
              (ground (arith, s.marked))
      ]

  -- a pod that has ended is dealt with, whatever becomes of its log
  terminated-EndsSafely :
      (y : System p) (pod : ClusterPod) (now : ℕ) (t : Controller p × Option Error)
      → IsSafe y
      → (pod.phase == "Succeeded" || pod.phase == "Failed") ≡ true
      → pod_terminated p y.controller
          (get_text label_execution_id pod.labels)
          pod.node_name
          pod.phase
          now
        ≡ some t
      → EndsSafely y (reconciled (found pod) now)
  unfolding system_step reconcile
  terminated-EndsSafely y pod now t s e n =
      let id = get_text label_execution_id pod.labels in
      let s0 : State p = record { controller = y.controller; files = y.server.files } in
      let b = pod_terminated-IsBeside p y.controller (t.0) id pod.node_name pod.phase now (t.1) n in
      let kept =
        IsAsOpen-are_open p y.controller (t.0) y.runs (IsBeside-IsAsOpen y.controller (t.0) b)
        ∙ s.still_open in
      elim (Option-cases (reconcile p o.pod_cluster s0 (found pod) now)) [
        | inl m ↦ absurd (ground (arith, n, e))
        | inr (q, m) ↦
            let is : t.0 ≡ q.0.controller = ground (arith, n, e) in
            ends y
              (record y {
                controller = q.0.controller;
                server = record y.server { files = q.0.files };
              })
              (reconciled (found pod) now) s (ground (arith, m))
              (subst (λ (c : Controller p). are_open p c y.runs ≡ true) is kept) s.marked
      ]

  pub reconciled-EndsSafely :
      (y : System p) (pod : Found) (now : ℕ) → IsSafe y → EndsSafely y (reconciled pod now)
  unfolding system_step reconcile happen
  reconciled-EndsSafely y not_found now s =
      ends y y (reconciled not_found now) s refl s.still_open s.marked
  reconciled-EndsSafely y (get_failed err) now s =
      ends y y (reconciled (get_failed err) now) s refl s.still_open s.marked
  reconciled-EndsSafely y (found pod) now s =
      elim (Bool-cases (pod.phase == "Succeeded" || pod.phase == "Failed")) [
        | inr n ↦ ends y y (reconciled (found pod) now) s (ground arith) s.still_open s.marked
        | inl e ↦
            let id = get_text label_execution_id pod.labels in
            elim (Option-cases (pod_terminated p y.controller id pod.node_name pod.phase now)) [
              | inl n ↦ absurd (
                  some_of y.controller (History.terminated id pod.node_name pod.phase now)
                    s.well_formed refl (ground (arith, n)))
              | inr (t, n) ↦ terminated-EndsSafely y pod now t s e n
            ]
      ]
