-- ===== src/System/Going.antt =====
-- A run of the cron job goes on: its steps do not panic while the channels it uses are open.
use batch_job_controller.Base.{
  ℕ, String, true, false, List, [], ◌∷◌, some, ◌≡◌, ◌∙◌, refl, arith, get_elem?, Option-cases,
  Bool-cases, inl, inr, subst, none, length, eq_refl, get_elem?-append_length, Option,
}
use batch_job_controller.Base.Dict.{lookup, insert, lookup-insert}
use batch_job_controller.Metrics.Prom.{Prom}
use batch_job_controller.Lifecycle.Disk.{SortFunc}
use batch_job_controller.Lifecycle.State.{Job, Controller}
use batch_job_controller.Lifecycle.Controller.{
  start, made, new_execution, Added, returned, blocked, for_id, send, add_pod, all_added,
}
use batch_job_controller.Lifecycle.History
use batch_job_controller.Lifecycle.History.{Event, added, sent, completed, happen}
use batch_job_controller.Lifecycle.History.WellFormed.{IsWellFormed}
use batch_job_controller.Lifecycle.History.Ends.{is_negative, is_closed, panics}
use batch_job_controller.Lifecycle.History.Panics.{happen-none_iff}
use batch_job_controller.Job.{Templates, PodTemplate, new_job}
use batch_job_controller.Base.Results.{Result, good, bad}
use batch_job_controller.Cron.{
  delete_all, begin_execution, usable_nodes, CronJob, Cluster, Node, Stage, resting, admitted,
  listing, deleting, addressing, adding, sending, closing, job_of, rest, after_add, add_node,
  send_again, callback_address, step,
}
use batch_job_controller.Base.Int.{ℤ, pos, negsuc}
use batch_job_controller.Job.Identity.{IsLabelled, new_job-some}
use batch_job_controller.System.Safety.{
  send-IsAsOpen, add_pod-IsAsOpen, is_open_id, is_open_at, IsAsOpen-is_open_id,
}

module _ (p : Prom) where
  start-is_open :
      (c : Controller p) (id : String) (jobs now size : ℕ)
      → is_open_id p (start p c id jobs now size) id ≡ true
  unfolding start
  start-is_open c id jobs now size =
      let l : lookup id (insert id (length c.executions_made) c.executions)
          ≡ some (length c.executions_made) =
        lookup-insert id id (length c.executions_made) c.executions ∙ rw eq_refl refl in
      ground (arith, l, get_elem?-append_length c.executions_made (made p id size))

  new_execution-is_open :
      (c c' : Controller p) (id : String) (jobs now : ℕ)
      → new_execution p c id jobs now ≡ some c'
      → is_open_id p c' id ≡ true
  unfolding new_execution
  new_execution-is_open c c' id jobs now h = started c.pod_pool_size refl
    where
      started : (size : ℤ) → c.pod_pool_size ≡ size → is_open_id p c' id ≡ true
      started (pos n) e =
          let is : start p c id jobs now n ≡ c' = ground arith in
          subst (λ (d : Controller p). is_open_id p d id ≡ true) is (start-is_open c id jobs now n)
      started (negsuc n) e = absurd (ground arith)

  module _ (t : Templates) (k : Cluster) (by_time : SortFunc) where
    -- A run goes on, with the channels open that it will use, and where it is over it leaves the flag unset.
    pub record GoesOn (j : CronJob p) (stage : Stage) : Type 0 where
      pub next : CronJob p
      pub run : step p t k by_time j stage ≡ some next
      pub still_open : is_open_at p next.controller next.stage ≡ true

    goes_on :
        (j : CronJob p) (stage : Stage) (j' : CronJob p)
        → step p t k by_time j stage ≡ some j'
        → is_open_at p j'.controller j'.stage ≡ true
        → GoesOn j stage
    goes_on j stage j' h o = record { next = j'; run = h; still_open = o }

    -- a call that does not panic gives something
    returns :
        (c : Controller p) (v : Event p)
        → IsWellFormed p c
        → panics p c v ≡ false
        → (c' : Controller p) × (happen p by_time c v ≡ some c')
    returns c v wf h = elim (Option-cases (happen p by_time c v)) [
      | inl n ↦ let y = (happen-none_iff p by_time c v wf).0 n in cc
      | inr (c', n) ↦ (c', n)
    ]

    after_open :
        (j : CronJob p) (id address : String) (e : ℕ) (job : Job) (nodes : List Node)
        (r : Controller p × Added)
        → is_open_id p (r.0) id ≡ true
        → is_closed p (r.0) e ≡ false
        → let j' = after_add p t k by_time j id address e job nodes r in
          is_open_at p j'.controller j'.stage ≡ true
    after_open j id address e job nodes (c, returned err) o q = o
    after_open j id address e job nodes (c, blocked) o q = ground arith

    send_again-GoesOn :
        (j : CronJob p) (id address : String) (e : ℕ) (job : Job) (nodes : List Node)
        → IsWellFormed p j.controller
        → is_open_at p j.controller (sending id address e job nodes) ≡ true
        → GoesOn j (sending id address e job nodes)
    unfolding step send_again happen
    send_again-GoesOn j id address e job nodes wf o =
        let (c', h) = returns j.controller (sent e job) wf (ground arith) in
        elim (Option-cases (get_elem? j.controller.executions_made e)) [
          | inl n ↦ absurd (ground arith)
          | inr (x, here) ↦ elim (Option-cases (send p j.controller e x job)) [
            | inl m ↦ absurd (ground arith)
            | inr (r, m) ↦
                let same = send-IsAsOpen p j.controller (r.0) e x job (r.1) here m in
                goes_on j _ (after_add p t k by_time j id address e job nodes r) (ground arith) (
                  after_open j id address e job nodes r
                    (IsAsOpen-is_open_id p j.controller (r.0) id same ∙ ground arith)
                    (same.closed e ∙ ground arith))
          ]
        ]

    begin_execution-GoesOn :
        (j : CronJob p) (id : String) (now : ℕ)
        → IsWellFormed p j.controller
        → is_negative j.controller.pod_pool_size ≡ false
        → GoesOn j (listing id now)
    unfolding step begin_execution happen
    begin_execution-GoesOn j id now wf pool =
        elim (Option-cases (k.list_nodes j.cfg.job_node_selector)) [
          | inl n ↦ goes_on j _ (rest p t k by_time j) (ground arith) refl
          | inr (items, n) ↦
              let nodes = usable_nodes j.cfg.run_on_unscheduled_nodes items in
              let (c', h) = returns j.controller (History.executed id (length nodes) now) wf pool in
              goes_on j _ (record j { controller = c'; stage = deleting id nodes })
                (ground (arith, h)) (new_execution-is_open j.controller c' id (length nodes) now h)
        ]

    add_node-GoesOn :
        (j : CronJob p) (id address : String) (n : Node) (nodes : List Node)
        → IsLabelled t
        → IsWellFormed p j.controller
        → is_open_id p j.controller id ≡ true
        → GoesOn j (adding id address (n ∷ nodes))
    unfolding step add_node happen for_id
    add_node-GoesOn j id address n nodes labelled wf o =
        made (new_job t j.cfg n.name id address j.cfg.owner j.extender) refl
      where
        added_by :
            (c' : Controller p) × (happen p by_time j.controller (added (job_of p t k by_time id n))
              ≡ some c')
        added_by = returns j.controller (added (job_of p t k by_time id n)) wf (ground arith)

        made :
            (m : Option (Result PodTemplate))
            → new_job t j.cfg n.name id address j.cfg.owner j.extender ≡ m
            → GoesOn j (adding id address (n ∷ nodes))
        made none q =
            absurd (new_job-some t j.cfg n.name id address j.cfg.owner j.extender labelled q)
        made (some (bad err)) q = goes_on j _ (rest p t k by_time j) (ground arith) refl
        made (some (good pod)) q =
            elim (Option-cases (add_pod p j.controller (job_of p t k by_time id n))) [
              | inl m ↦ let h = added_by.1 in absurd (ground arith)
              | inr (r, m) ↦
                  let same =
                    add_pod-IsAsOpen p j.controller (r.0) (job_of p t k by_time id n) (r.1) m in
                  let open_still : is_open_id p (r.0) id ≡ true =
                    IsAsOpen-is_open_id p j.controller (r.0) id same ∙ o in
                  elim (Option-cases (lookup id j.controller.executions)) [
                    | inl l ↦
                        goes_on j _ (record j { controller = r.0; stage = adding id address nodes })
                          (ground arith) open_still
                    | inr (e, l) ↦
                        goes_on j _
                          (after_add p t k by_time j id address e (job_of p t k by_time id n) nodes
                            r)
                          (ground arith)
                          (after_open j id address e (job_of p t k by_time id n) nodes r open_still
                            (same.closed e ∙ ground arith))
                  ]
            ]

    closes :
        (c : Controller p) (id : String)
        → is_open_id p c id ≡ true
        → is_negative c.report_history ≡ false
        → panics p c (completed id) ≡ false
    closes c id o q = elim (Option-cases (lookup id c.executions)) [
      | inl n ↦ ground arith
      | inr (e, n) ↦ ground arith
    ]

    -- A step of a run of the cron job does not panic, in a well-formed state where the channels are open that
    -- the run will use, the pool size and the history are not negative, and no decoded template has the nil map
    -- for its labels; and the channels are open after it.
    pub step-GoesOn :
        (j : CronJob p) (stage : Stage)
        → IsLabelled t
        → IsWellFormed p j.controller
        → is_negative j.controller.pod_pool_size ≡ false
        → is_open_at p j.controller stage ≡ true
        → is_negative j.controller.report_history ≡ false
        → j.stage ≡ stage
        → GoesOn j stage
    unfolding step happen
    step-GoesOn j resting labelled wf pool o q at_ = goes_on j _ j refl (rw at_ refl)
    step-GoesOn j (admitted id now) labelled wf pool o q at_ =
        goes_on j _ (record j { running = true; stage = listing id now }) refl refl
    step-GoesOn j (listing id now) labelled wf pool o q at_ =
        begin_execution-GoesOn j id now wf pool
    step-GoesOn j (deleting id nodes) labelled wf pool o q at_ =
        elim (Bool-cases (delete_all p t k by_time j.cfg)) [
          | inl y ↦ goes_on j _ (rest p t k by_time j) (ground arith) refl
          | inr y ↦ goes_on j _ (record j { stage = addressing id nodes }) (ground arith) o
        ]
    step-GoesOn j (addressing id nodes) labelled wf pool o q at_ =
        elim (Option-cases (callback_address p t k by_time j.cfg)) [
          | inl n ↦ goes_on j _ (rest p t k by_time j) (ground arith) refl
          | inr (a, n) ↦ goes_on j _ (record j { stage = adding id a nodes }) (ground arith) o
        ]
    step-GoesOn j (adding id address []) labelled wf pool o q at_ =
        goes_on j _ (record j { stage = closing id }) (ground arith) o
    step-GoesOn j (adding id address (n ∷ nodes)) labelled wf pool o q at_ =
        add_node-GoesOn j id address n nodes labelled wf o
    step-GoesOn j (sending id address e job nodes) labelled wf pool o q at_ =
        send_again-GoesOn j id address e job nodes wf o
    step-GoesOn j (closing id) labelled wf pool o q at_ =
        let (c', h) = returns j.controller (completed id) wf (closes j.controller id o q) in
        elim (Option-cases (all_added p by_time j.controller id)) [
          | inl n ↦ absurd (ground arith)
          | inr (r, n) ↦
              goes_on j _ (rest p t k by_time (record j { controller = r.0 })) (ground arith) refl
        ]
