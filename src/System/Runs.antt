-- ===== src/System/Runs.antt =====
-- What the program does to the controller is a history of its calls and of steps of its workers.
use batch_job_controller.Base.{
  ℕ, String, List, [], ◌∷◌, Option, none, some, ◌≡◌, ◌∙◌, refl, ap, arith, length, get_elem?,
  Option-cases, Bool-cases, inl, inr,
}
use mathlib.Core.Option.{some-injective}
use batch_job_controller.Metrics.Prom.{Prom}
use batch_job_controller.Lifecycle.Disk.{SortFunc}
use batch_job_controller.Lifecycle.State.{Job, Controller}
use batch_job_controller.Lifecycle.History.{
  Event, executed, added, sent, completed, happen, history,
}
use batch_job_controller.Cron.{
  delete_all, CronJob, Cluster, Node, Stage, resting, admitted, listing, deleting, addressing,
  adding, sending, closing, usable_nodes, begin_execution, job_of, after_add, add_node, send_again,
  callback_address, step,
}
use batch_job_controller.Lifecycle.Controller.{
  Added, returned, blocked, new_execution, for_id, send, add_pod, all_added,
}
use batch_job_controller.Job.{Templates, PodTemplate, new_job}
use batch_job_controller.Base.Results.{Result, good, bad}

module _ (p : Prom) (by_time : SortFunc) where
  -- Some history leads from a controller to another.
  pub record Leads (c c' : Controller p) : Type 0 where
    pub events : List (Event p)
    pub run : history p by_time c events ≡ some c'

  pub nothing : (c c' : Controller p) → c ≡ c' → Leads c c'
  unfolding history
  nothing c c' e = record { events = []; run = ap some e }

  pub one : (c c' : Controller p) (v : Event p) → happen p by_time c v ≡ some c' → Leads c c'
  unfolding history
  one c c' v e = record { events = v ∷ []; run = rw e refl }

  module _ (t : Templates) (k : Cluster) where
    begin_execution-Leads :
        (j j' : CronJob p) (id : String) (now : ℕ)
        → begin_execution p t k by_time j id now ≡ some j'
        → Leads j.controller j'.controller
    unfolding begin_execution happen
    begin_execution-Leads j j' id now h =
        elim (Option-cases (k.list_nodes j.cfg.job_node_selector)) [
          | inl n ↦ nothing j.controller j'.controller (ground arith)
          | inr (items, n) ↦
              let jobs = length (usable_nodes j.cfg.run_on_unscheduled_nodes items) in
              elim (Option-cases (new_execution p j.controller id jobs now)) [
                | inl m ↦ absurd (ground arith)
                | inr (c, m) ↦
                    let is : c ≡ j'.controller = ground arith in
                    one j.controller j'.controller (executed id jobs now) (m ∙ ap some is)
              ]
        ]

    add_node-Leads :
        (j j' : CronJob p) (id address : String) (n : Node) (nodes : List Node)
        → add_node p t k by_time j id address n nodes ≡ some j'
        → Leads j.controller j'.controller
    unfolding add_node happen
    add_node-Leads j j' id address n nodes h =
        go (new_job t j.cfg n.name id address j.cfg.owner j.extender) refl
      where
        by_place :
            (r : Controller p × Added) (o : Option ℕ)
            → add_pod p j.controller (job_of p t k by_time id n) ≡ some r
            → for_id p j.controller id ≡ o
            → (elim o [
              | none ↦ some (record j { controller = r.0; stage = adding id address nodes })
              | some e ↦
                  some (after_add p t k by_time j id address e (job_of p t k by_time id n) nodes r)
            ])
              ≡ some j'
            → r.0 ≡ j'.controller
        by_place r none a f h' = ap (λ (i : CronJob p). i.controller) (some-injective _ j' h')
        by_place (c, returned err) (some e) a f h' =
            ap (λ (i : CronJob p). i.controller) (some-injective _ j' h')
        by_place (c, blocked) (some e) a f h' =
            ap (λ (i : CronJob p). i.controller) (some-injective _ j' h')

        go :
            (made : Option (Result PodTemplate))
            → new_job t j.cfg n.name id address j.cfg.owner j.extender ≡ made
            → Leads j.controller j'.controller
        go none e = absurd (ground arith)
        go (some (bad err)) e = nothing j.controller j'.controller (ground arith)
        go (some (good pod)) e =
            elim (Option-cases (add_pod p j.controller (job_of p t k by_time id n))) [
              | inl m ↦ absurd (ground arith)
              | inr (r, m) ↦
                  one j.controller j'.controller (added (job_of p t k by_time id n))
                    (rw m (ap some (by_place r (for_id p j.controller id) m refl (ground arith))))
            ]

    send_again-Leads :
        (j j' : CronJob p) (id address : String) (e : ℕ) (job : Job) (nodes : List Node)
        → send_again p t k by_time j id address e job nodes ≡ some j'
        → Leads j.controller j'.controller
    unfolding send_again happen
    send_again-Leads j j' id address e job nodes h =
        elim (Option-cases (get_elem? j.controller.executions_made e)) [
          | inl n ↦ absurd (ground arith)
          | inr (x, here) ↦ elim (Option-cases (send p j.controller e x job)) [
            | inl m ↦ absurd (ground arith)
            | inr (r, m) ↦
                let is : r.0 ≡ j'.controller = ended r (some-injective _ j' (ground arith)) in
                one j.controller j'.controller (sent e job) (ground arith)
          ]
        ]
      where
        ended :
            (r : Controller p × Added)
            → after_add p t k by_time j id address e job nodes r ≡ j'
            → r.0 ≡ j'.controller
        ended (c, returned err) h' = ap (λ (i : CronJob p). i.controller) h'
        ended (c, blocked) h' = ap (λ (i : CronJob p). i.controller) h'

    pub step-Leads :
        (j j' : CronJob p) (stage : Stage)
        → step p t k by_time j stage ≡ some j'
        → Leads j.controller j'.controller
    unfolding step happen
    step-Leads j j' resting h = nothing j.controller j'.controller (ground arith)
    step-Leads j j' (admitted id now) h = nothing j.controller j'.controller (ground arith)
    step-Leads j j' (listing id now) h = begin_execution-Leads j j' id now h
    step-Leads j j' (deleting id nodes) h = elim (Bool-cases (delete_all p t k by_time j.cfg)) [
      | inl y ↦ nothing j.controller j'.controller (ground arith)
      | inr y ↦ nothing j.controller j'.controller (ground arith)
    ]
    step-Leads j j' (addressing id nodes) h =
        elim (Option-cases (callback_address p t k by_time j.cfg)) [
          | inl n ↦ nothing j.controller j'.controller (ground arith)
          | inr (a, n) ↦ nothing j.controller j'.controller (ground arith)
        ]
    step-Leads j j' (adding id address []) h = nothing j.controller j'.controller (ground arith)
    step-Leads j j' (adding id address (n ∷ nodes)) h = add_node-Leads j j' id address n nodes h
    step-Leads j j' (sending id address e job nodes) h =
        send_again-Leads j j' id address e job nodes h
    step-Leads j j' (closing id) h = elim (Option-cases (all_added p by_time j.controller id)) [
      | inl n ↦ absurd (ground arith)
      | inr (r, n) ↦
          let is : r.0 ≡ j'.controller = ground arith in
          one j.controller j'.controller (completed id) (rw n (ap some is))
    ]
