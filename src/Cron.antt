-- ===== src/Cron.antt =====
-- pkg/cron/cron.go: `isUsable` and `startPods`. A run of `startPods` waits where the channel of its
-- execution is full, and other goroutines run meanwhile: it is a machine of stages, one step at a time.
-- `none` is a panic. The cron library runs `startPods` in a goroutine of its own for each trigger, and `Start` in
-- one more: the runs of one job share its flag and its controller, and System has any number of them.
-- Overlap looks at their flag alone.
pub mod Stages
pub mod Abandoned
pub mod Overlap
pub mod Completion
use batch_job_controller.Base.{
  ℕ, zero, suc, ◌+◌, ◌*◌, String, Bool, true, false, not, ◌&&◌, ◌||◌, List, [], ◌∷◌, Option, none,
  some, length, get_elem?, ◌>>=◌, ◌==◌, if◌then◌else◌,
}
use batch_job_controller.Base.Dict.{Dict}
use batch_job_controller.Base.Int.{ℤ}
use batch_job_controller.Config.{Config, Owner}
use batch_job_controller.Metrics.Prom.{Prom}
use batch_job_controller.Lifecycle.Disk.{SortFunc}
use batch_job_controller.Lifecycle.State.{Job, Controller}
use batch_job_controller.Lifecycle.Controller.{
  Added, returned, blocked, new_execution, for_id, send, add_pod, all_added,
}
use batch_job_controller.Job.{Templates, CustomPodEnv, new_job, matching_labels}
use batch_job_controller.Base.Results.{Result, good, bad}

-- `corev1.NodeCondition`, by its type and its status
pub record Condition : Type 0 where
  pub type_of : String
  pub status : String

-- `corev1.Node`
pub record Node : Type 0 where
  pub name : String
  pub unschedulable : Bool
  pub conditions : List Condition

-- the loop of `isUsable`, which returns at the first condition of the type "Ready"
unfoldable pub is_ready : List Condition → Bool
is_ready [] = false
is_ready (c ∷ conditions) =
    let rest = is_ready conditions in if c.type_of == "Ready" then c.status == "True" else rest

-- `isUsable`
unfoldable pub is_usable : Node → (run_on_unscheduled_nodes : Bool) → Bool
unfolding is_ready
is_usable node run_on_unscheduled_nodes =
    if not run_on_unscheduled_nodes && node.unschedulable then false else is_ready node.conditions

-- the loop that gathers the usable nodes
unfoldable pub usable_nodes : Bool → List Node → List Node
unfolding is_usable
usable_nodes run_on_unscheduled_nodes [] = []
usable_nodes run_on_unscheduled_nodes (n ∷ nodes) =
    let rest = usable_nodes run_on_unscheduled_nodes nodes in
    if is_usable n run_on_unscheduled_nodes then n ∷ rest else rest

-- What the cluster and the environment answer: `List` of the nodes, `DeleteAllOf` the pods (true is an
-- error), the variable POD_IP, and the cluster address of a service.
pub record Cluster : Type 0 where
  pub list_nodes : (selector : Dict String) → Option (List Node)
  pub delete_fails : (namespace : String) → (labels : Dict String) → (propagation : String) → Bool
  pub pod_ip : Option String
  pub service_ip : (namespace name : String) → Option String

-- Where a run of `startPods` stands: it is over, past the test of the flag and before its writing, before
-- the list of the nodes and `NewExecution` (with the id and the time that the clock gives it), before
-- `deleteAll`, before the address is looked up, in the loop over the nodes, in the send of an `AddPod` to the
-- execution at a place, before `AllAdded`.
pub data Stage : Type 0 where
  resting : Stage
  admitted listing : (id : String) → (now : ℕ) → Stage
  deleting addressing : (id : String) → List Node → Stage
  adding : (id address : String) → List Node → Stage
  sending : (id address : String) → ℕ → Job → List Node → Stage
  closing : (id : String) → Stage

abbrev pub is_going : Stage → Bool
is_going resting = false
is_going (admitted id now) = true
is_going (listing id now) = true
is_going (deleting id nodes) = true
is_going (addressing id nodes) = true
is_going (adding id address nodes) = true
is_going (sending id address e job nodes) = true
is_going (closing id) = true

-- `cronJob` with the controller that it was given, and the stage of a run of it
pub record CronJob (p : Prom) : Type 0 where
  pub controller : Controller p
  pub running : Bool
  pub stage : Stage
  pub cfg : Config
  pub extender : List CustomPodEnv

module _ (p : Prom) (t : Templates) (k : Cluster) (by_time : SortFunc) where
  open k use {list_nodes, delete_fails, pod_ip, service_ip}

  -- the deferred write, on every return
  abbrev pub rest : CronJob p → CronJob p
  rest j = record j { running = false; stage = resting }

  -- the run goes on at a stage
  abbrev pub at : CronJob p → Stage → CronJob p
  at j stage = record j { stage = stage }

  -- a call of `startPods`: the test of the flag, with which a run begins or is over
  unfoldable pub trigger : CronJob p → (id : String) → (now : ℕ) → CronJob p
  trigger j id now = if j.running then at j resting else at j (admitted id now)

  -- the list of the nodes and the execution for the usable ones
  unfoldable pub begin_execution : CronJob p → (id : String) → (now : ℕ) → Option (CronJob p)
  unfolding usable_nodes
  begin_execution j id now = elim (list_nodes j.cfg.job_node_selector) [
    | none ↦ some (rest j)
    | some items ↦
        let nodes = usable_nodes j.cfg.run_on_unscheduled_nodes items in
        new_execution p j.controller id (length nodes) now >>= λ c.
        some (record j { controller = c; stage = deleting id nodes })
  ]

  -- what follows a call of `AddPod`, or of its send; an error is dropped
  abbrev pub after_add :
      CronJob p → (id address : String) → ℕ → Job → List Node → Controller p × Added → CronJob p
  after_add j id address e job nodes (c, returned err) = record j {
    controller = c;
    stage = adding id address nodes;
  }
  after_add j id address e job nodes (c, blocked) = record j {
    controller = c;
    stage = sending id address e job nodes;
  }

  abbrev pub job_of : (id : String) → Node → Job
  job_of id n = record { id = id; node = n.name }

  -- one round of the loop over the nodes
  unfoldable pub add_node :
      CronJob p → (id address : String) → Node → List Node → Option (CronJob p)
  add_node j id address n nodes =
      new_job t j.cfg n.name id address j.cfg.owner j.extender >>= λ made. elim made [
        | bad err ↦ some (rest j)
        | good pod ↦ add_pod p j.controller (job_of id n) >>= λ r. elim (for_id p j.controller id) [
          | none ↦ some (record j { controller = r.0; stage = adding id address nodes })
          | some e ↦ some (after_add j id address e (job_of id n) nodes r)
        ]
      ]

  -- the send of an `AddPod` that has waited
  unfoldable pub send_again :
      CronJob p → (id address : String) → ℕ → Job → List Node → Option (CronJob p)
  send_again j id address e job nodes = elim (get_elem? j.controller.executions_made e) [
    | none ↦ none
    | some x ↦ send p j.controller e x job >>= λ r. some (after_add j id address e job nodes r)
  ]

  -- `deleteAll` of the pods: does it fail?
  abbrev pub delete_all : Config → Bool
  delete_all cfg = delete_fails cfg.namespace (matching_labels cfg.name) "Background"

  -- the address for the callbacks
  unfoldable pub callback_address : Config → Option String
  callback_address cfg = elim pod_ip [
    | some ip ↦ some ip
    | none ↦ service_ip cfg.namespace cfg.callback_service_name
  ]

  -- the next step of a run of `startPods`
  unfoldable pub step : CronJob p → Stage → Option (CronJob p)
  unfolding begin_execution callback_address add_node send_again
  step j resting = some j
  step j (admitted id now) = some (record j { running = true; stage = listing id now })
  step j (listing id now) = begin_execution j id now
  step j (deleting id nodes) =
      if delete_all j.cfg then some (rest j) else some (at j (addressing id nodes))
  step j (addressing id nodes) = elim (callback_address j.cfg) [
    | none ↦ some (rest j)
    | some address ↦ some (at j (adding id address nodes))
  ]
  step j (adding id address []) = some (at j (closing id))
  step j (adding id address (n ∷ nodes)) = add_node j id address n nodes
  step j (sending id address e job nodes) = send_again j id address e job nodes
  step j (closing id) =
      all_added p by_time j.controller id >>= λ r. some (rest (record j { controller = r.0 }))

  unfoldable pub advance : CronJob p → Option (CronJob p)
  unfolding step
  advance j = step j j.stage

  -- so many steps of a run
  abbrev pub advance_times : ℕ → CronJob p → Option (CronJob p)
  advance_times zero j = some j
  advance_times (suc n) j = advance j >>= λ j'. advance_times n j'

  -- What `Start` sets up: the expression that the cron library runs `startPods` by, and the delay after
  -- which one more goroutine runs it, if there is one.
  pub record Schedule : Type 0 where
    pub expression : String
    pub startup : Option ℤ

  -- `Start`, for the library's `AddFunc` by its error
  unfoldable pub start_cron : (add_func : String → Option String) → CronJob p → Result Schedule
  start_cron add_func j = elim (add_func j.cfg.cron_expression) [
    | some err ↦ bad err
    | none ↦ good (record {
      expression = j.cfg.cron_expression;
      startup = if j.cfg.run_on_startup then some j.cfg.startup_delay else none;
    })
  ]
