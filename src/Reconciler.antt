-- ===== src/Reconciler.antt =====
-- pkg/controller: the reconciler that watches the job pods, and its event filter. `none` is a panic.
pub mod Outcomes
use batch_job_controller.Base.{
  ℕ, String, Bool, true, false, not, ◌&&◌, ◌||◌, List, [], ◌∷◌, Option, none, some, ◌>>=◌, ◌<>◌,
  ◌==◌, if◌then◌else◌,
}
use batch_job_controller.Base.Dict.{Dict, insert}
use batch_job_controller.Config.{Config, report_dir, report_file_name}
use batch_job_controller.Metrics.Prom.{Prom}
use batch_job_controller.Metrics.Names.{get_text}
use batch_job_controller.Lifecycle.State.{Error, Controller, is_not_found}
use batch_job_controller.Lifecycle.Controller.{has_node}
use batch_job_controller.Lifecycle.Outcome.{pod_terminated}
use batch_job_controller.Job.{label_owner, label_execution_id}
use batch_job_controller.Base.Results.{Result, good, bad}

-- `corev1.Pod` as the reconciler reads it
pub record ClusterPod : Type 0 where
  pub name : String
  pub namespace : String
  pub labels : Dict String
  pub node_name : String
  pub phase : String
  pub containers : List String

-- `matches`, which is the filter of every kind of event
unfoldable pub matches : (labels : Dict String) → Bool
matches labels =
    not (get_text label_execution_id labels == "") && not (get_text label_owner labels == "")

-- What `Get` finds.
pub data Found : Type 0 where
  found : ClusterPod → Found
  not_found : Found
  get_failed : String → Found

-- What `Stream` of a request for the log of a container gives: an error, or a stream, by the text that is read of
-- it and the error that the reading ends with, if it does.
pub data LogStream : Type 0 where
  unopened : String → LogStream
  stream : (text : String) → Option String → LogStream

-- What the reconciler calls: `GetLogs` of a container of a pod with `Stream`, and the file system.
pub record Cluster : Type 0 where
  pub log_stream : (namespace name container : String) → LogStream
  pub mkdir_error : String → Option String
  pub write_error : String → Option String
  -- what a file holds after its write has failed, where the write has come to touch it
  pub left_in : (path content : String) → Option String

-- What `Reconcile` changes: the controller, and the log files by their paths.
pub record State (p : Prom) : Type 0 where
  pub controller : Controller p
  pub files : Dict String

-- The end of `Reconcile`: no error, or the error that makes the request be tried again.
pub data Outcome : Type 0 where
  done : Outcome
  cluster_error : String → Outcome
  lifecycle_error : Error → Outcome

module _ (p : Prom) (k : Cluster) where
  open k use {log_stream, mkdir_error, write_error, left_in}

  -- the path of the log of a container
  abbrev pub log_path : Config → (execution_id node container : String) → String
  log_path cfg execution_id node container =
      report_file_name cfg execution_id (node <> "-container-" <> container <> ".log")

  -- `savePodLog`; its error is only logged
  unfoldable pub save_pod_log :
      Config → (execution_id node container content : String) → Dict String → Dict String
  save_pod_log cfg execution_id node container content files =
      elim (mkdir_error (report_dir cfg execution_id)) [
        | some err ↦ files
        | none ↦ elim (write_error (log_path cfg execution_id node container)) [
          | some err ↦ elim (left_in (log_path cfg execution_id node container) content) [
            | none ↦ files
            | some part ↦ insert (log_path cfg execution_id node container) part files
          ]
          | none ↦ insert (log_path cfg execution_id node container) content files
        ]
      ]

  -- `getPodLog`: the log, or its error; what was read before an error is dropped
  unfoldable pub get_pod_log : (namespace name container : String) → Result String
  get_pod_log namespace name container = elim (log_stream namespace name container) [
    | unopened err ↦ bad err
    | stream text (some err) ↦ bad err
    | stream text none ↦ good text
  ]

  -- `savePodLogs` over the containers; a log that cannot be read is skipped
  unfoldable pub save_pod_logs :
      Config
      → (pod : ClusterPod) → (execution_id : String) → List String
      → Dict String
      → Dict String
  unfolding save_pod_log get_pod_log
  save_pod_logs cfg pod execution_id [] files = files
  save_pod_logs cfg pod execution_id (c ∷ containers) files =
      save_pod_logs cfg pod execution_id containers (elim (get_pod_log pod.namespace pod.name c) [
        | bad err ↦ files
        | good content ↦ save_pod_log cfg execution_id pod.node_name c content files
      ])

  -- the branch of a pod that has ended
  unfoldable pub ended :
      State p → ClusterPod → (execution_id : String) → (now : ℕ) → Option (State p × Outcome)
  ended s pod execution_id now =
      let cfg = s.controller.config in
      let wanted = cfg.save_pod_log && has_node p s.controller pod.node_name execution_id in
      let files' =
        if wanted then save_pod_logs cfg pod execution_id pod.containers s.files else s.files in
      pod_terminated p s.controller execution_id pod.node_name pod.phase now >>= λ r. some (
        record { controller = r.0; files = files' },
        elim (r.1) [
          | none ↦ done
          | some err ↦ if is_not_found err then done else lifecycle_error err
        ],
      )

  -- `Reconcile`
  unfoldable pub reconcile : State p → Found → (now : ℕ) → Option (State p × Outcome)
  unfolding ended
  reconcile s not_found now = some (s, done)
  reconcile s (get_failed err) now = some (s, cluster_error err)
  reconcile s (found pod) now =
      let execution_id = get_text label_execution_id pod.labels in
      if pod.phase == "Succeeded" || pod.phase == "Failed"
      then ended s pod execution_id now
      else some (s, done)

-- What `SetupWithManager` builds: the kind that it is for, the kind that it watches, with its handler, and the
-- filter of the events.
pub record Watching : Type 0 where
  pub for_kind : String
  pub watched : String
  pub handler : String
  pub filter : Dict String → Bool

-- `SetupWithManager`, for the making of the client and `Complete` of what is built, each by its error
unfoldable pub setup_with_manager :
    (client_error : Option String) → (complete : Watching → Option String) → Option String
setup_with_manager client_error complete = elim client_error [
  | some err ↦ some err
  | none ↦ complete (record {
    for_kind = "Pod";
    watched = "Pod";
    handler = "EnqueueRequestForObject";
    filter = matches;
  })
]
