-- ===== src/Cron/Stages.antt =====
-- Runs of `startPods`: the flag, the order of the stages, and that a run comes to an end.
use batch_job_controller.Base.{
  ℕ, ◌+◌, ◌*◌, ◌<◌, String, Bool, true, false, not, ◌&&◌, ◌||◌, List, [], ◌∷◌, map, none, some, ◌≡◌,
  ◌⊎◌, inl, inr, refl, ◌∙◌, arith, length, get_elem?, ◌==◌, Option-cases, Bool-cases,
}
use batch_job_controller.Base.Dict.{lookup}
use mathlib.Core.Option.{some-injective}
use batch_job_controller.Metrics.Prom.{Prom}
use batch_job_controller.Lifecycle.Disk.{SortFunc}
use batch_job_controller.Lifecycle.State.{Job, Execution, Controller}
use batch_job_controller.Lifecycle.Controller.{returned, blocked, for_id, send, add_pod, all_added}
use batch_job_controller.Job.{Templates, new_job}
use batch_job_controller.Base.Results.{good, bad}
use batch_job_controller.Cron.{
  delete_all, Condition, Node, is_ready, is_usable, Cluster, Stage, resting, admitted, listing,
  deleting, addressing, adding, sending, closing, CronJob, step, advance, begin_execution, add_node,
  send_again, callback_address,
}

-- A node is usable exactly when it is not marked as unschedulable, or such nodes are wanted too, and the first of its
-- conditions of the type "Ready" has the status "True".
pub is_usable_lem :
    (n : Node) (anyway : Bool)
    → is_usable n anyway ≡ (
        (anyway || not n.unschedulable)
        && elim (lookup "Ready" (map (λ (c : Condition). (c.type_of, c.status)) n.conditions)) [
          | none ↦ false
          | some s ↦ s == "True"
        ])
unfolding is_usable
is_usable_lem n anyway = ground (arith, ready n.conditions)
  where
    ready :
        (cs : List Condition)
        → is_ready cs ≡ elim (lookup "Ready" (map (λ (c : Condition). (c.type_of, c.status)) cs)) [
          | none ↦ false
          | some s ↦ s == "True"
        ]
    ready [] = refl
    ready (c ∷ cs) = ground (arith, ready cs)

-- is the flag set by a run at this stage?
abbrev pub is_marked : Stage → Bool
is_marked resting = false
is_marked (admitted id now) = false
is_marked (listing id now) = true
is_marked (deleting id nodes) = true
is_marked (addressing id nodes) = true
is_marked (adding id address nodes) = true
is_marked (sending id address e job nodes) = true
is_marked (closing id) = true

-- does a run at this stage have its nodes and its execution?
abbrev pub has_begun : Stage → Bool
has_begun resting = false
has_begun (admitted id now) = false
has_begun (listing id now) = false
has_begun (deleting id nodes) = true
has_begun (addressing id nodes) = true
has_begun (adding id address nodes) = true
has_begun (sending id address e job nodes) = true
has_begun (closing id) = true

-- a bound of the steps that are left, of a run that has its execution and is not made to wait
abbrev pub steps_left : Stage → ℕ
steps_left resting = 0
steps_left (admitted id now) = 0
steps_left (listing id now) = 0
steps_left (closing id) = 1
steps_left (adding id address nodes) = 2 * length nodes + 2
steps_left (sending id address e job nodes) = 2 * length nodes + 3
steps_left (addressing id nodes) = 2 * length nodes + 3
steps_left (deleting id nodes) = 2 * length nodes + 4

module _ (p : Prom) where
  -- the flag is as the run has left it
  abbrev pub IsMarked : CronJob p → Type 0
  IsMarked j = j.running ≡ is_marked j.stage

  -- What a step of a run makes of it: it ends, or goes on with fewer steps left, or waits in a send.
  pub record IsOn (j j' : CronJob p) : Type 0 where
    pub marked : IsMarked j'
    pub less :
        (steps_left j'.stage < steps_left j.stage)
        ⊎ ((j'.stage ≡ j.stage) × (j'.controller ≡ j.controller))

  module _ (t : Templates) (k : Cluster) (by_time : SortFunc) where
    IsOn-of :
        (j j' i : CronJob p) (stage : Stage)
        → j.stage ≡ stage
        → i ≡ j'
        → IsMarked i
        → (steps_left i.stage < steps_left stage)
          ⊎ ((i.stage ≡ stage) × (i.controller ≡ j.controller))
        → IsOn j j'
    IsOn-of j j' i stage e q m less = rw (← q) (record { marked = m; less = rw e less })

    abbrev ended : CronJob p → CronJob p
    ended j = record j { running = false; stage = resting }

    add_node-IsOn :
        (j j' : CronJob p) (id address : String) (n : Node) (nodes : List Node)
        → add_node p t k by_time j id address n nodes ≡ some j'
        → j.stage ≡ adding id address (n ∷ nodes)
        → j.running ≡ true
        → IsOn j j'
    unfolding add_node
    add_node-IsOn j j' id address n nodes h e m =
        elim (Option-cases (new_job t j.cfg n.name id address j.cfg.owner j.extender)) [
          | inl f ↦ absurd (ground arith)
          | inr (bad err, f) ↦ IsOn-of j j' (ended j) _ e (ground arith) refl (inl (omega arith))
          | inr (good pod, f) ↦
              elim (Option-cases (add_pod p j.controller (record { id = id; node = n.name }))) [
                | inl g ↦ absurd (ground arith)
                | inr ((c, returned err), g) ↦
                    IsOn-of j j' (record j { controller = c; stage = adding id address nodes }) _ e
                      (ground arith) m (inl (omega arith))
                | inr ((c, blocked), g) ↦ elim (Option-cases (for_id p j.controller id)) [
                  | inl l ↦
                      IsOn-of j j' (record j { controller = c; stage = adding id address nodes }) _
                        e (ground arith) m (inl (omega arith))
                  | inr (q, l) ↦
                      IsOn-of j j'
                        (record j {
                          controller = c;
                          stage = sending id address q (record { id = id; node = n.name }) nodes;
                        })
                        _ e (ground arith) m (inl (omega arith))
                ]
              ]
        ]

    send_blocked :
        (c c' : Controller p) (e : ℕ) (x : Execution) (job : Job)
        → send p c e x job ≡ some (c', blocked)
        → c' ≡ c
    unfolding send
    send_blocked c c' e x job h = ground arith

    send_again-IsOn :
        (j j' : CronJob p) (id address : String) (q : ℕ) (job : Job) (nodes : List Node)
        → send_again p t k by_time j id address q job nodes ≡ some j'
        → j.stage ≡ sending id address q job nodes
        → j.running ≡ true
        → IsOn j j'
    unfolding send_again
    send_again-IsOn j j' id address q job nodes h e m =
        elim (Option-cases (get_elem? j.controller.executions_made q)) [
          | inl n ↦ absurd (ground arith)
          | inr (x, n) ↦ elim (Option-cases (send p j.controller q x job)) [
            | inl f ↦ absurd (ground arith)
            | inr ((c, returned err), f) ↦
                IsOn-of j j' (record j { controller = c; stage = adding id address nodes }) _ e
                  (ground arith) m (inl (omega arith))
            | inr ((c, blocked), f) ↦
                IsOn-of j j' (record j { controller = c; stage = sending id address q job nodes }) _
                  e (ground arith) m (inr (refl, send_blocked j.controller c q x job f))
          ]
        ]

    step-IsOn :
        (j j' : CronJob p) (stage : Stage)
        → step p t k by_time j stage ≡ some j'
        → j.stage ≡ stage
        → j.running ≡ true
        → has_begun stage ≡ true
        → IsOn j j'
    unfolding step
    step-IsOn j j' resting h e m b = cc
    step-IsOn j j' (admitted id now) h e m b = cc
    step-IsOn j j' (listing id now) h e m b = cc
    step-IsOn j j' (deleting id nodes) h e m b =
        elim (Bool-cases (delete_all p t k by_time j.cfg)) [
          | inl y ↦ IsOn-of j j' (ended j) _ e (ground arith) refl (inl (omega arith))
          | inr n ↦
              IsOn-of j j' (record j { stage = addressing id nodes }) _ e (ground arith) m
                (inl (omega arith))
        ]
    step-IsOn j j' (addressing id nodes) h e m b =
        elim (Option-cases (callback_address p t k by_time j.cfg)) [
          | inl n ↦ IsOn-of j j' (ended j) _ e (ground arith) refl (inl (omega arith))
          | inr (address, n) ↦
              IsOn-of j j' (record j { stage = adding id address nodes }) _ e (ground arith) m
                (inl (omega arith))
        ]
    step-IsOn j j' (adding id address []) h e m b =
        IsOn-of j j' (record j { stage = closing id }) _ e (some-injective _ _ h) m
          (inl (omega arith))
    step-IsOn j j' (adding id address (n ∷ nodes)) h e m b =
        add_node-IsOn j j' id address n nodes h e m
    step-IsOn j j' (sending id address q job nodes) h e m b =
        send_again-IsOn j j' id address q job nodes h e m
    step-IsOn j j' (closing id) h e m b =
        elim (Option-cases (all_added p by_time j.controller id)) [
          | inl n ↦ absurd (ground arith)
          | inr ((c, err), n) ↦
              IsOn-of j j' (record j { controller = c; running = false; stage = resting }) _ e
                (ground arith) refl (inl (omega arith))
        ]

    -- A step of a run that has its execution and the flag set, where it does not panic, keeps the flag in step
    -- with the run, and leaves fewer steps or the same stage with the controller unchanged.
    pub advance-IsOn :
        (j j' : CronJob p)
        → advance p t k by_time j ≡ some j'
        → IsMarked j
        → has_begun j.stage ≡ true
        → IsOn j j'
    unfolding advance
    advance-IsOn j j' h m b = step-IsOn j j' j.stage h refl (m ∙ marked j.stage b) b
      where
        marked : (stage : Stage) → has_begun stage ≡ true → is_marked stage ≡ true
        marked resting b' = b'
        marked (admitted id now) b' = cc
        marked (listing id now) b' = refl
        marked (deleting id nodes) b' = refl
        marked (addressing id nodes) b' = refl
        marked (adding id address nodes) b' = refl
        marked (sending id address e job nodes) b' = refl
        marked (closing id) b' = refl

    -- A step of a run keeps the flag in step with the run.
    pub step-IsMarked :
        (j j' : CronJob p) (stage : Stage)
        → step p t k by_time j stage ≡ some j'
        → j.stage ≡ stage
        → j.running ≡ is_marked stage
        → IsMarked j'
    unfolding step begin_execution
    step-IsMarked j j' resting h e m = ground arith
    step-IsMarked j j' (admitted id now) h e m = ground arith
    step-IsMarked j j' (listing id now) h e m =
        elim (Option-cases (k.list_nodes j.cfg.job_node_selector)) [
          | inl n ↦ ground arith
          | inr (items, n) ↦ ground arith
        ]
    step-IsMarked j j' (deleting id nodes) h e m = (step-IsOn j j' _ h e m refl).marked
    step-IsMarked j j' (addressing id nodes) h e m = (step-IsOn j j' _ h e m refl).marked
    step-IsMarked j j' (adding id address nodes) h e m = (step-IsOn j j' _ h e m refl).marked
    step-IsMarked j j' (sending id address q job nodes) h e m = (step-IsOn j j' _ h e m refl).marked
    step-IsMarked j j' (closing id) h e m = (step-IsOn j j' _ h e m refl).marked
