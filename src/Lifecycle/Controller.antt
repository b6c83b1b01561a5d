-- ===== src/Lifecycle/Controller.antt =====
-- pkg/lifecycle/lifecycle.go: the operations of the controller. `none` is a panic; an operation
-- that returns an error returns it beside the state.
pub mod Admission
pub mod Retention
pub mod Current
use batch_job_controller.Base.{
  ℕ, zero, suc, ◌+◌, ◌-◌, ◌*◌, ◌%◌, ◌^◌, String, Bool, true, false, not, ◌&&◌, ◌||◌, List, [], ◌∷◌,
  ◌++◌, Option, none, some, length, get_elem?, set, ◌>>=◌, ◌==◌, ltb, leb, if◌then◌else◌,
}
use batch_job_controller.Base.Dict.{Dict, lookup, insert, delete, has}
use batch_job_controller.Base.Int.{ℤ, pos, negsuc, next}
use batch_job_controller.Config.{Config}
use batch_job_controller.Metrics.Prom.{Prom}
use batch_job_controller.Metrics.Collector.{
  Collector, Result, Results, execution_started, pods, prune_execution, metric_for,
  processing_finished, duration,
}
use batch_job_controller.Lifecycle.Disk.{Disk, DirEntry, SortFunc, remove_all, make_entry, read_dir}
use batch_job_controller.Lifecycle.State.{
  Instant, Pod, Job, Worker, idle, Execution, Error, unknown_execution, unknown_pod, os_error,
  Controller, elapsed_ms,
}

abbrev pub replicate {ℓ} : {A : Type ℓ} → ℕ → A → List A
replicate zero a = []
replicate (suc n) a = a ∷ replicate n a

-- `make(chan Job, size)` panics on a negative size
abbrev pub chan_size : ℤ → Option ℕ
chan_size (pos n) = some n
chan_size (negsuc n) = none

-- What became of a call of `AddPod`: it returned, or it waits in the send.
pub data Added : Type 0 where
  returned : Option Error → Added
  blocked : Added

module _ (p : Prom) where
  open p use {Float, of_int, mul, div, parse_float}

  -- `NewController`
  unfoldable pub new_controller : Config → Collector p → Disk → Controller p
  new_controller cfg prom disk = record {
    prom = prom;
    executions = [];
    nodes = [];
    report_history = next cfg.report_history;
    pod_pool_size = cfg.pod_pool_size;
    config = cfg;
    progress = 0;
    progress_step = of_int (pos 0);
    executions_made = [];
    pods_made = [];
    created = [];
    disk = disk;
  }

  -- `addProgress`: an atomic add to a `uint64`
  unfoldable pub add_progress : Controller p → ℕ → Controller p
  add_progress c n = record c { progress = (c.progress + n) % 2 ^ 64 }

  -- the directory of the execution and the link `latest` to it, on Unix
  unfoldable pub make_report_dir : Disk → (id : String) → ℕ → Disk
  make_report_dir d id now = make_entry (remove_all (make_entry d id now) "latest") "latest" now

  -- the execution as it is made, with its goroutines started
  abbrev pub made : (id : String) → ℕ → Execution
  made id size = record {
    id = id;
    pods = [];
    job_chan = [];
    cap = size;
    closed = false;
    workers = replicate size idle;
  }

  -- `NewExecution` behind the making of the channel
  unfoldable pub start : Controller p → (id : String) → (jobs now size : ℕ) → Controller p
  unfolding make_report_dir
  start c id jobs now size =
      let fj = of_int (pos jobs) in
      record c {
        executions = insert id (length c.executions_made) c.executions;
        executions_made = c.executions_made ++ made id size ∷ [];
        progress_step = div (of_int (pos 100)) (mul fj (of_int (pos 3)));
        progress = 0;
        prom = execution_started p (pods p c.prom fj) (parse_float id);
        disk = make_report_dir c.disk id now;
      }

  -- `NewExecution`, for the id that the clock gives
  unfoldable pub new_execution :
      Controller p → (id : String) → (jobs now : ℕ) → Option (Controller p)
  unfolding start
  new_execution c id jobs now = do size ← chan_size c.pod_pool_size; some (start c id jobs now size)

  -- `forID`: the place of the execution
  unfoldable pub for_id : Controller p → (id : String) → Option ℕ
  for_id c id = lookup id c.executions

  -- `pod` of an execution, by the place of the execution
  unfoldable pub pod_of : Controller p → ℕ → (node : String) → Option ℕ
  pod_of c e node = elim (get_elem? c.executions_made e) [
    | none ↦ none
    | some x ↦ lookup node x.pods
  ]

  -- `Has`
  unfoldable pub has_node : Controller p → (node execution_id : String) → Bool
  has_node c node execution_id = has node c.nodes && has execution_id c.executions

  -- the send to the channel of an execution: it panics where the channel is closed, and waits where
  -- the buffer is full
  unfoldable pub send : Controller p → ℕ → Execution → Job → Option (Controller p × Added)
  send c e x job =
      if x.closed
      then none
      else if ltb (length x.job_chan) x.cap
      then some (
        record c {
          executions_made =
              set c.executions_made e (record x { job_chan = x.job_chan ++ job ∷ [] });
        },
        returned none,
      )
      else some (c, blocked)

  -- what `AddPod` does before the send
  unfoldable pub register : Controller p → ℕ → Execution → Job → Controller p × Execution
  register c e x job =
      let x' : Execution = record x { pods = insert job.node (length c.pods_made) x.pods } in
      (
        record c {
          nodes = insert job.node true c.nodes;
          pods_made =
              c.pods_made
              ++ record {
                node = job.node;
                started = none;
                terminated = none;
                report_received = none;
                status = "";
              }
                ∷ [];
          executions_made = set c.executions_made e x';
        },
        x',
      )

  -- `AddPod`
  unfoldable pub add_pod : Controller p → Job → Option (Controller p × Added)
  unfolding for_id send register
  add_pod c job = elim (for_id c job.id) [
    | none ↦ some (c, returned (some (unknown_execution job.id)))
    | some e ↦ elim (get_elem? c.executions_made e) [
      | none ↦ none
      | some x ↦ send (register c e x job).0 e (register c e x job).1 job
    ]
  ]

  -- how many of the listed files go; `len(files) - c.reportHistory` where that is positive
  abbrev pub prune_count : ℕ → ℤ → ℕ
  prune_count len (pos h) = len - h
  prune_count len (negsuc k) = len + k + 1

  -- one round of the loop in `AllAdded`
  unfoldable pub forget : Controller p → String → Controller p
  forget c name = record c {
    executions = delete name c.executions;
    prom = prune_execution p c.prom name;
    disk = remove_all c.disk name;
  }

  -- the loop: `files[i]` panics past the end
  unfoldable pub forget_first : ℕ → List DirEntry → Controller p → Option (Controller p)
  unfolding forget
  forget_first zero files c = some c
  forget_first (suc n) [] c = none
  forget_first (suc n) (f ∷ files) c = forget_first n files (forget c f.name)

  -- `close(e.jobChan)`, which panics where it is closed
  unfoldable pub close : Controller p → ℕ → Option (Controller p)
  close c e = elim (get_elem? c.executions_made e) [
    | none ↦ none
    | some x ↦
        if x.closed
        then none
        else some
            (record c { executions_made = set c.executions_made e (record x { closed = true }) })
  ]

  -- `AllAdded`
  unfoldable pub all_added :
      SortFunc → Controller p → (execution_id : String) → Option (Controller p × Option Error)
  unfolding for_id forget_first close read_dir
  all_added by_time c execution_id = elim (for_id c execution_id) [
    | none ↦ some (c, some (unknown_execution execution_id))
    | some e ↦ elim (read_dir c.disk) [
      | none ↦ some (c, some os_error)
      | some files ↦ (do
        c' ← forget_first (prune_count (length files) c.report_history) (by_time.sort files) c
        c'' ← close c' e
        some (c'', none))
    ]
  ]
