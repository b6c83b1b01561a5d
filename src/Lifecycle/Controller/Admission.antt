-- ===== src/Lifecycle/Controller/Admission.antt =====
-- `NewExecution`, `AddPod` and `Has`: who is let in.
use batch_job_controller.Base.{
  ℕ, ◌≤◌, String, true, false, List, [], ◌∷◌, ◌++◌, none, some, ◌≡◌, refl, ◌∙◌, arith, length,
  get_elem?, set, get_elem?-set_self, get_elem?-append_length, get_elem?-lt, eq_refl,
}
use batch_job_controller.Base.Dict.{insert, has, lookup-insert}
use batch_job_controller.Base.Int.{pos}
use batch_job_controller.Metrics.Prom.{Prom}
use batch_job_controller.Lifecycle.State.{Pod, Job, idle, Execution, Controller}
use batch_job_controller.Lifecycle.Controller.{
  blocked, new_execution, for_id, pod_of, add_pod, has_node, replicate, start, made,
}
use batch_job_controller.Lifecycle.Outcome.{pod_for_id}
use batch_job_controller.Lifecycle.Outcome.Termination.{IsPod}

module _ (p : Prom) where
  -- the execution that an id stands for
  pub record IsExecution (c : Controller p) (id : String) (e : ℕ) (x : Execution) : Type 0 where
    pub place : for_id p c id ≡ some e
    pub execution : get_elem? c.executions_made e ≡ some x

  -- a pod as `AddPod` registers it
  abbrev pub fresh_pod : String → Pod
  fresh_pod node = record {
    node = node;
    started = none;
    terminated = none;
    report_received = none;
    status = "";
  }

  -- What `AddPod` leaves, with a channel that holds `queue`.
  pub record IsAdmitted (c c' : Controller p) (job : Job) (e : ℕ) (x : Execution) (jobs : List Job)
      : Type 0 where
    pub let_in : has_node p c' job.node job.id ≡ true
    pub pod : IsPod p c' job.id job.node (length c.pods_made) (fresh_pod job.node)
    pub queue :
        (x' : Execution) × IsExecution c' job.id e x'
        × (x'.job_chan ≡ jobs)
        × (x'.workers ≡ x.workers)

  module _ (c : Controller p) (job : Job) (e : ℕ) (x : Execution)
      (is : IsExecution c job.id e x) where
    abbrev admitted : List Job → Execution
    admitted queue = record x {
      pods = insert job.node (length c.pods_made) x.pods;
      job_chan = queue;
    }

    abbrev after : Execution → Controller p
    after y = record c {
      nodes = insert job.node true c.nodes;
      pods_made = c.pods_made ++ fresh_pod job.node ∷ [];
      executions_made = set c.executions_made e y;
    }

    has_of_place : has job.id c.executions ≡ true
    unfolding for_id
    has_of_place = ground (arith, is.place)

    after-IsAdmitted : (queue : List Job) → IsAdmitted c (after (admitted queue)) job e x queue
    unfolding has_node for_id pod_for_id pod_of
    after-IsAdmitted queue =
        let at =
          get_elem?-set_self c.executions_made e (admitted queue)
            (get_elem?-lt c.executions_made e is.execution) in
        record {
          let_in =
              ground (
                arith,
                has_of_place,
                lookup-insert job.node job.node true c.nodes,
                eq_refl job.node,
              );
          pod = record {
            place = ground (
              arith,
              is.place,
              at,
              lookup-insert job.node job.node (length c.pods_made) x.pods,
              eq_refl job.node,
            );
            pod = get_elem?-append_length c.pods_made (fresh_pod job.node);
          };
          queue = (admitted queue, record { place = is.place; execution = at }, refl, refl);
        }

    -- With the channel full it waits in the send, with the pod registered and let in already.
    pub add_pod_full :
        x.closed ≡ false
        → x.cap ≤ length x.job_chan
        → (c' : Controller p) × (add_pod p c job ≡ some (c', blocked))
          × IsAdmitted c c' job e x x.job_chan
    unfolding add_pod
    add_pod_full open_chan full =
        (after (admitted x.job_chan), ground (arith, is.place, is.execution), after-IsAdmitted _)

  -- A new execution is known, is open and empty, and has as many idle workers as its channel has room.
  pub record IsNew (c : Controller p) (id : String) (size : ℕ) : Type 0 where
    pub made :
        (e : ℕ) × (x : Execution) × IsExecution c id e x
        × (x.closed ≡ false)
        × (x.job_chan ≡ [])
        × (x.cap ≡ size)
        × (x.workers ≡ replicate size idle)
    pub no_progress : c.progress ≡ 0

  -- With a pool size that is not negative, a new execution can be made: it is open, its channel is empty
  -- and has room for as many jobs as there are workers, all workers are idle, and the progress starts at 0.
  pub new_execution-IsNew :
      (c : Controller p) (id : String) (jobs now size : ℕ)
      → c.pod_pool_size ≡ pos size
      → (c' : Controller p) × (new_execution p c id jobs now ≡ some c') × IsNew c' id size
  unfolding new_execution for_id
  new_execution-IsNew c id jobs now size h = (
    start p c id jobs now size,
    ground arith,
    record {
      made = (
        length c.executions_made,
        made p id size,
        record {
          place =
              ground
                (arith, lookup-insert id id (length c.executions_made) c.executions, eq_refl id);
          execution = get_elem?-append_length c.executions_made (made p id size);
        },
        refl,
        refl,
        refl,
        refl,
      );
      no_progress = refl;
    },
  )

  -- With a pool of no worker the first `AddPod` waits in the send, and no worker is there to receive.
  pub zero_pool_blocks :
      (c : Controller p) (id node : String) (jobs now : ℕ)
      → c.pod_pool_size ≡ pos 0
      → (c' : Controller p) × (c'' : Controller p) × (e : ℕ) × (x : Execution) × (new_execution p c
            id jobs now
          ≡ some c')
        × (add_pod p c' (record { id = id; node = node }) ≡ some (c'', blocked))
        × IsExecution c'' id e x
        × (x.workers ≡ [])
  zero_pool_blocks c id node jobs now h =
      let (c', e, n) = new_execution-IsNew c id jobs now 0 h in
      let (i, x, is, o, q, cap, none_at_work) = n.made in
      let (c'', f, a) =
        add_pod_full c' (record { id = id; node = node }) i x is o (omega (arith, cap)) in
      let (y, on, full, same) = a.queue in (c', c'', i, y, e, f, on, same ∙ none_at_work)
