-- ===== src/System/Safety.antt =====
-- The channels that a run of the cron job uses, and the calls that leave them open.
use batch_job_controller.Base.{
  false, ℕ, zero, suc, String, Bool, true, not, ◌&&◌, List, [], ◌∷◌, ◌++◌, none, some, ◌≡◌, ◌∙◌,
  refl, sym, ap, subst, arith, length, get_elem?, get_elem?-lt, get_elem?-set_self, set,
  Option-cases, Bool-cases, inl, inr, ltb,
}
use mathlib.Core.Option.{some-injective}
use batch_job_controller.Base.Dict.{lookup}
use batch_job_controller.Metrics.Prom.{Prom}
use batch_job_controller.Lifecycle.State.{Job, Execution, Controller}
use batch_job_controller.Lifecycle.Controller.{Added, for_id, register, send, add_pod}
use batch_job_controller.Lifecycle.Workers.{worker_step}
use batch_job_controller.Lifecycle.History.Frame.{worker_step-IsFramed, worker_step_absent}
use batch_job_controller.Lifecycle.History.Ends.{is_closed}
use batch_job_controller.Cron.{
  Stage, resting, admitted, listing, deleting, addressing, adding, sending, closing, is_going,
}
use batch_job_controller.System.{put_run}
use batch_job_controller.Cron.Stages.{is_marked}

-- Is the channel of the execution at a place closed, or is there none?
abbrev pub closed_in : List Execution → ℕ → Bool
closed_in es k = elim (get_elem? es k) [ none ↦ true | some x ↦ x.closed ]

closed_in-set :
    (es : List Execution) (e k : ℕ) (x y : Execution)
    → get_elem? es e ≡ some x
    → y.closed ≡ x.closed
    → closed_in (set es e y) k ≡ closed_in es k
closed_in-set [] e k x y h c = refl
closed_in-set (z ∷ es) zero zero x y h c =
    c ∙ ap (λ (q : Execution). q.closed) (sym (some-injective z x h))
closed_in-set (z ∷ es) zero (suc k) x y h c = refl
closed_in-set (z ∷ es) (suc e) zero x y h c = refl
closed_in-set (z ∷ es) (suc e) (suc k) x y h c = closed_in-set es e k x y h c

-- the flag, as runs of which there is at most one leave it
abbrev pub flag_of : List Stage → Bool
flag_of [] = false
flag_of (s ∷ []) = is_marked s
flag_of (s ∷ r ∷ runs) = true

pub put_run-flag_of : (r s : Stage) → flag_of (put_run (r ∷ []) 0 s) ≡ is_marked s
unfolding put_run
put_run-flag_of r resting = refl
put_run-flag_of r (admitted id now) = refl
put_run-flag_of r (listing id now) = refl
put_run-flag_of r (deleting id nodes) = refl
put_run-flag_of r (addressing id nodes) = refl
put_run-flag_of r (adding id address nodes) = refl
put_run-flag_of r (sending id address e job nodes) = refl
put_run-flag_of r (closing id) = refl

module _ (p : Prom) where
  -- A step leaves the executions that are known and which of their channels are closed.
  pub record IsAsOpen (c c' : Controller p) : Type 0 where
    pub executions : c'.executions ≡ c.executions
    pub closed : (k : ℕ) → is_closed p c' k ≡ is_closed p c k

  pub same-IsAsOpen : (c c' : Controller p) → c ≡ c' → IsAsOpen c c'
  same-IsAsOpen c c' e =
      subst (λ (d : Controller p). IsAsOpen c d) e
        (record { executions = refl; closed = λ k. refl })

  pub send-IsAsOpen :
      (c c' : Controller p) (e : ℕ) (x : Execution) (job : Job) (a : Added)
      → get_elem? c.executions_made e ≡ some x
      → send p c e x job ≡ some (c', a)
      → IsAsOpen c c'
  unfolding send
  send-IsAsOpen c c' e x job a here h = elim (Bool-cases x.closed) [
    | inl y ↦ absurd (ground arith)
    | inr y ↦ elim (Bool-cases (ltb (length x.job_chan) x.cap)) [
      | inl room ↦
          let x' : Execution = record x { job_chan = x.job_chan ++ job ∷ [] } in
          let is : record c { executions_made = set c.executions_made e x' } ≡ c' = ground arith in
          subst (λ (d : Controller p). IsAsOpen c d) is
            (record {
              executions = refl;
              closed = λ k. closed_in-set c.executions_made e k x x' here refl;
            })
      | inr full ↦ same-IsAsOpen c c' (ground arith)
    ]
  ]

  then-IsAsOpen : (c d c' : Controller p) → IsAsOpen c d → IsAsOpen d c' → IsAsOpen c c'
  then-IsAsOpen c d c' g h = record {
    executions = h.executions ∙ g.executions;
    closed = λ k. h.closed k ∙ g.closed k;
  }

  pub add_pod-IsAsOpen :
      (c c' : Controller p) (job : Job) (a : Added) → add_pod p c job ≡ some (c', a) → IsAsOpen c c'
  unfolding add_pod for_id register
  add_pod-IsAsOpen c c' job a h = elim (Option-cases (lookup job.id c.executions)) [
    | inl n ↦ same-IsAsOpen c c' (ground arith)
    | inr (e, n) ↦ elim (Option-cases (get_elem? c.executions_made e)) [
      | inl m ↦ absurd (ground arith)
      | inr (x, here) ↦
          let r = register p c e x job in
          then-IsAsOpen c (r.0) c'
            (record {
              executions = refl;
              closed = λ k. closed_in-set c.executions_made e k x (r.1) here refl;
            })
            (send-IsAsOpen (r.0) c' e (r.1) job a
              (get_elem?-set_self c.executions_made e _ (get_elem?-lt c.executions_made e here))
              (ground arith))
    ]
  ]

  pub worker_step-IsAsOpen : (c : Controller p) (e w now : ℕ) → IsAsOpen c (worker_step p c e w now)
  worker_step-IsAsOpen c e w now = elim (Option-cases (get_elem? c.executions_made e)) [
    | inl n ↦ same-IsAsOpen c (worker_step p c e w now) (sym (worker_step_absent p c e w now n))
    | inr (x, here) ↦
        let f = worker_step-IsFramed p c e w now x here in
        record {
          executions = f.executions;
          closed = λ k.
              ap (λ (es : List Execution). closed_in es k) f.written
              ∙ closed_in-set c.executions_made e k x f.execution here f.closed;
        }
  ]

  -- Is the execution of an id, if it is known, open?
  abbrev pub is_open_id : Controller p → String → Bool
  is_open_id c id = elim (lookup id c.executions) [ none ↦ true | some e ↦ not (is_closed p c e) ]

  -- Are the channels open that a run of the cron job at a stage will use?
  abbrev pub is_open_at : Controller p → Stage → Bool
  is_open_at c resting = true
  is_open_at c (admitted id now) = true
  is_open_at c (listing id now) = true
  is_open_at c (deleting id nodes) = is_open_id c id
  is_open_at c (addressing id nodes) = is_open_id c id
  is_open_at c (adding id address nodes) = is_open_id c id
  is_open_at c (sending id address e job nodes) = is_open_id c id && not (is_closed p c e)
  is_open_at c (closing id) = is_open_id c id

  pub IsAsOpen-is_open_id :
      (c c' : Controller p) (id : String) → IsAsOpen c c' → is_open_id c' id ≡ is_open_id c id
  IsAsOpen-is_open_id c c' id h = elim (Option-cases (lookup id c.executions)) [
    | inl n ↦ ground (arith, h.executions)
    | inr (e, n) ↦ ground (arith, h.executions, h.closed e)
  ]

  pub IsAsOpen-is_open_at :
      (c c' : Controller p) (stage : Stage)
      → IsAsOpen c c'
      → is_open_at c' stage ≡ is_open_at c stage
  IsAsOpen-is_open_at c c' resting h = refl
  IsAsOpen-is_open_at c c' (admitted id now) h = refl
  IsAsOpen-is_open_at c c' (listing id now) h = refl
  IsAsOpen-is_open_at c c' (deleting id nodes) h = IsAsOpen-is_open_id c c' id h
  IsAsOpen-is_open_at c c' (addressing id nodes) h = IsAsOpen-is_open_id c c' id h
  IsAsOpen-is_open_at c c' (adding id address nodes) h = IsAsOpen-is_open_id c c' id h
  IsAsOpen-is_open_at c c' (sending id address e job nodes) h =
      rw (IsAsOpen-is_open_id c c' id h, h.closed e) refl
  IsAsOpen-is_open_at c c' (closing id) h = IsAsOpen-is_open_id c c' id h

  -- There is at most one run, and the channels are open that it will use.
  abbrev pub are_open : Controller p → List Stage → Bool
  are_open c [] = true
  are_open c (s ∷ []) = is_going s && is_open_at c s
  are_open c (s ∷ r ∷ runs) = false

  pub IsAsOpen-are_open :
      (c c' : Controller p) (runs : List Stage) → IsAsOpen c c' → are_open c' runs ≡ are_open c runs
  IsAsOpen-are_open c c' [] h = refl
  IsAsOpen-are_open c c' (s ∷ []) h =
      ap (λ (b : Bool). is_going s && b) (IsAsOpen-is_open_at c c' s h)
  IsAsOpen-are_open c c' (s ∷ r ∷ runs) h = refl

  pub are_open-alone :
      (c : Controller p) (runs : List Stage) (i : ℕ) (s : Stage)
      → are_open c runs ≡ true
      → get_elem? runs i ≡ some s
      → (runs ≡ s ∷ []) × (i ≡ 0)
  are_open-alone c [] i s o h = absurd (ground arith)
  are_open-alone c (r ∷ []) zero s o h = (ap (λ (q : Stage). q ∷ []) (some-injective r s h), refl)
  are_open-alone c (r ∷ []) (suc i) s o h = absurd (ground arith)
  are_open-alone c (r ∷ r' ∷ runs) i s o h = absurd (ground arith)

  pub put_run-are_open :
      (c : Controller p) (r s : Stage)
      → is_open_at c s ≡ true
      → are_open c (put_run (r ∷ []) 0 s) ≡ true
  unfolding put_run
  put_run-are_open c r s h = ground (arith, h)
