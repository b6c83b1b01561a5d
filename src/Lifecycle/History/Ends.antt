-- ===== src/Lifecycle/History/Ends.antt =====
-- How the calls of the controller end that take no order of the report directory.
use batch_job_controller.Base.{
  ℕ, ◌<◌, ◌≡◌, refl, ◌∙◌, ◌++◌, arith, String, Bool, true, false, ◌&&◌, ◌||◌, [], ◌∷◌, Option, none,
  some, length, get_elem?, get_elem?-lt, get_elem?-set_self, set, Option-cases, Bool-cases, inl,
  inr, ◌>>=◌, ltb,
}
use batch_job_controller.Base.Dict.{lookup}
use batch_job_controller.Base.Int.{ℤ, pos, negsuc}
use batch_job_controller.Metrics.Prom.{Prom}
use batch_job_controller.Metrics.Collector.{Results}
use batch_job_controller.Lifecycle.State.{Job, Execution, Controller}
use batch_job_controller.Lifecycle.Controller.{for_id, pod_of, register, send}
use batch_job_controller.Lifecycle.Outcome.{pod_for_id, pod_terminated, report_received}
use batch_job_controller.Lifecycle.Outcome.Termination.{pod_terminated_first}
use batch_job_controller.Lifecycle.Outcome.Reception.{report_received_lem}
use batch_job_controller.Lifecycle.History.{
  Event, executed, added, sent, completed, worked, terminated, reported,
}
use batch_job_controller.Lifecycle.History.WellFormed.{
  are_below-lookup, are_all_below-get_elem?, get_elem?-of_lt, IsWellFormed,
}
use batch_job_controller.Lifecycle.History.Calls.{
  IsBeside-IsWellFormed, pod_terminated-IsBeside, report_received-IsBeside, write-IsWellFormed,
  register-IsWellFormed,
}

abbrev pub is_negative : ℤ → Bool
is_negative (pos n) = false
is_negative (negsuc n) = true

module _ (p : Prom) where
  abbrev pub is_closed : Controller p → ℕ → Bool
  is_closed c e = elim (get_elem? c.executions_made e) [ none ↦ true | some x ↦ x.closed ]

  -- The calls that panic: a new execution with a negative pool size, a send to a closed channel, and an
  -- `AllAdded` that closes a closed channel or is asked to keep a negative number of entries.
  abbrev pub panics : Controller p → Event p → Bool
  panics c (executed id jobs now) = is_negative c.pod_pool_size
  panics c (added job) = elim (lookup job.id c.executions) [ none ↦ false | some e ↦ is_closed c e ]
  panics c (sent e job) = is_closed c e
  panics c (completed id) = elim (lookup id c.executions) [
    | none ↦ false
    | some e ↦ c.disk.readable && (is_negative c.report_history || is_closed c e)
  ]
  panics c (worked e w now) = false
  panics c (terminated id node phase now) = false
  panics c (reported id node err results now) = false

  -- A panic, or a well-formed state.
  abbrev pub Ends : Option (Controller p) → Bool → Type 0
  Ends r true = r ≡ none
  Ends r false = (c' : Controller p) × (r ≡ some c') × IsWellFormed p c'

  pub goes :
      (r : Option (Controller p)) (b : Bool) (c' : Controller p)
      → r ≡ some c'
      → b ≡ false
      → IsWellFormed p c'
      → Ends r b
  goes r b c' e f h = rw f (c', e, h)

  pub stops : (r : Option (Controller p)) (b : Bool) → r ≡ none → b ≡ true → Ends r b
  stops r b e f = rw f e

  pub send-Ends :
      (c : Controller p) (e : ℕ) (x : Execution) (job : Job)
      → get_elem? c.executions_made e ≡ some x
      → IsWellFormed p c
      → Ends (send p c e x job >>= λ r. some (r.0)) x.closed
  unfolding send
  send-Ends c e x job here h = elim (Bool-cases x.closed) [
    | inl y ↦ stops _ _ (ground arith) y
    | inr n ↦ elim (Bool-cases (ltb (length x.job_chan) x.cap)) [
      | inl room ↦
          let x' : Execution = record x { job_chan = x.job_chan ++ job ∷ [] } in
          goes _ _ (record c { executions_made = set c.executions_made e x' }) (ground arith) n
            (write-IsWellFormed p c e x x' here refl h)
      | inr full ↦ goes _ _ c (ground arith) n h
    ]
  ]

  pub registered-Ends :
      (c : Controller p) (e : ℕ) (x : Execution) (job : Job)
      → get_elem? c.executions_made e ≡ some x
      → IsWellFormed p c
      → Ends
          (send p (register p c e x job).0 e (register p c e x job).1 job >>= λ r. some (r.0))
          x.closed
  unfolding register
  registered-Ends c e x job here h =
      send-Ends (register p c e x job).0 e (register p c e x job).1 job
        (get_elem?-set_self c.executions_made e _ (get_elem?-lt c.executions_made e here))
        (register-IsWellFormed p c e x job here h)

  pod_for_id-lt :
      (c : Controller p) (id node : String) (r : ℕ)
      → IsWellFormed p c
      → pod_for_id p c id node ≡ some r
      → r < length c.pods_made
  unfolding pod_for_id for_id pod_of
  pod_for_id-lt c id node r h f = elim (Option-cases (lookup id c.executions)) [
    | inl n ↦ absurd (ground arith)
    | inr (e, n) ↦ elim (Option-cases (get_elem? c.executions_made e)) [
      | inl m ↦ absurd (ground arith)
      | inr (x, m) ↦
          are_below-lookup (length c.pods_made) x.pods node r
            (are_all_below-get_elem? (length c.pods_made) c.executions_made e x h.pods m)
            (ground arith)
    ]
  ]

  pub pod_terminated-Ends :
      (c : Controller p) (id node phase : String) (now : ℕ)
      → IsWellFormed p c
      → Ends (pod_terminated p c id node phase now >>= λ r. some (r.0)) false
  unfolding pod_terminated
  pod_terminated-Ends c id node phase now h = elim (Option-cases (pod_for_id p c id node)) [
    | inl n ↦ (c, ground arith, h)
    | inr (r, n) ↦
        let (q, at) = get_elem?-of_lt c.pods_made r (pod_for_id-lt c id node r h n) in
        elim (Option-cases q.terminated) [
          | inl o ↦
              let (c', e, t) =
                pod_terminated_first p c id node phase now r q (record { place = n; pod = at }) o
                  h.sound in
              (
                c',
                ground (arith, e),
                IsBeside-IsWellFormed p c c'
                    (pod_terminated-IsBeside p c c' id node phase now none e) t.sound
                    (t.latest ∙ h.latest) h,
              )
          | inr (t, o) ↦ (c, ground arith, h)
        ]
  ]

  pub report_received-Ends :
      (c : Controller p) (id node : String) (err : Bool) (results : Results p) (now : ℕ)
      → IsWellFormed p c
      → Ends (report_received p c id node err results now) false
  report_received-Ends c id node err results now h =
      let (c', e, r) = report_received_lem p c id node err results now h.latest h.sound in
      (
        c',
        e,
        IsBeside-IsWellFormed p c c' (report_received-IsBeside p c c' id node err results now e)
            r.sound (r.latest ∙ h.latest) h,
      )
