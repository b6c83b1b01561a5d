-- ===== src/Job.antt =====
-- pkg/job/job.go and pkg/job/custom.go: the pod of a job. Templates, YAML and owner references are the
-- interface `Templates`.
pub mod Environment
pub mod Identity
use batch_job_controller.Base.{
  String, Bool, true, false, List, [], ◌∷◌, ◌++◌, Option, none, some, ◌<>◌, ◌==◌, ◌>>=◌, any,
  if◌then◌else◌,
}
use batch_job_controller.Base.Results.{Result, good, bad}
use batch_job_controller.Base.Dict.{Dict, insert}
use batch_job_controller.Base.Int.{ℤ, itoa}
use batch_job_controller.Config.{Config, Owner, pod_name}

-- `corev1.EnvVar`: its name, its value, and whatever else it is told by (`ValueFrom`)
pub record EnvVar : Type 0 where
  pub name : String
  pub value : String
  pub value_from : Option String

pub record Container : Type 0 where
  pub name : String
  pub env : List EnvVar

-- `corev1.Pod`, as far as the program reads and writes it; the labels may be the nil map, `none`
pub record PodTemplate : Type 0 where
  pub name : String
  pub namespace : String
  pub annotations : Dict String
  pub labels : Option (Dict String)
  pub node_name : String
  pub service_account_name : String
  pub image_pull_secrets : List String
  pub restart_policy : String
  pub containers : List Container
  pub init_containers : List Container
  pub owner_references : List Owner

abbrev pub env_node_name : String
env_node_name = "NODE_NAME"

abbrev pub env_execution_id : String
env_execution_id = "EXECUTION_ID"

abbrev pub env_namespace : String
env_namespace = "NAMESPACE"

abbrev pub env_callback_service_name : String
env_callback_service_name = "CALLBACK_SERVICE_NAME"

abbrev pub env_callback_service_port : String
env_callback_service_port = "CALLBACK_SERVICE_PORT"

abbrev pub env_callback_service_result_url : String
env_callback_service_result_url = "CALLBACK_SERVICE_RESULT_URL"

abbrev pub env_callback_service_file_url : String
env_callback_service_file_url = "CALLBACK_SERVICE_FILE_URL"

abbrev pub env_callback_service_event_url : String
env_callback_service_event_url = "CALLBACK_SERVICE_EVENT_URL"

-- `reservedEnvVars`
abbrev pub reserved_env_vars : List String
reserved_env_vars =
    env_node_name ∷ env_execution_id ∷ env_namespace ∷ env_callback_service_name
    ∷ env_callback_service_port ∷ []

abbrev pub is_reserved : String → Bool
is_reserved name = any (λ k. k == name) reserved_env_vars

abbrev pub label_owner : String
label_owner = "batch-job-controller.bakito.github.com/owner"

abbrev pub label_execution_id : String
label_execution_id = "batch-job-controller.bakito.github.com/execution-id"

-- `CustomPodEnv`, by its `ExtendEnv`
abbrev pub CustomPodEnv : Type 0
CustomPodEnv = Config → (node_name id service_ip : String) → Container → List EnvVar

-- What the program calls of `text/template`, of the YAML decoder (into a pod with empty annotations and
-- labels, which a `null` in the text makes nil), of `controllerutil.SetOwnerReference` and of `net.JoinHostPort`.
pub record Templates : Type 0 where
  pub execute : (template namespace id node_name : String) → Result String
  pub decode : String → Result PodTemplate
  pub set_owner : Owner → PodTemplate → PodTemplate
  pub join_host_port : (host port : String) → String

-- `MatchingLabels`
unfoldable pub matching_labels : String → Dict String
matching_labels name = (label_owner, name) ∷ []

-- the loop of `mergeEnv` over the container's variables
unfoldable pub keep_env : List EnvVar → List EnvVar
keep_env [] = []
keep_env (e ∷ es) = let rest = keep_env es in if is_reserved e.name then rest else e ∷ rest

-- its loop over the extenders
unfoldable pub extend_env :
    List CustomPodEnv → Config → (node_name id service_ip : String) → Container → List EnvVar
extend_env [] cfg node_name id service_ip c = []
extend_env (x ∷ extender) cfg node_name id service_ip c =
    x cfg node_name id service_ip c ++ extend_env extender cfg node_name id service_ip c

abbrev pub env_var : (name value : String) → EnvVar
env_var name value = record { name = name; value = value; value_from = none }

module _ (t : Templates) where
  open t use {execute, decode, set_owner, join_host_port}

  -- "http://%s/report/%s/%s%s"
  unfoldable pub callback_url : Config → (node_name id address sub_path : String) → String
  callback_url cfg node_name id address sub_path =
      "http://"
      <> join_host_port address (itoa cfg.callback_service_port)
      <> "/report/"
      <> node_name
      <> "/"
      <> id
      <> sub_path

  -- the variables that the controller appends
  unfoldable pub own_env : Config → (node_name id address : String) → List EnvVar
  unfolding callback_url
  own_env cfg node_name id address =
      env_var env_execution_id id
      ∷ env_var env_namespace cfg.namespace
      ∷ env_var env_node_name node_name
      ∷ env_var env_callback_service_name address
      ∷ env_var env_callback_service_port (itoa cfg.callback_service_port)
      ∷ env_var env_callback_service_result_url (callback_url cfg node_name id address "/result")
      ∷ env_var env_callback_service_file_url (callback_url cfg node_name id address "/file")
      ∷ env_var env_callback_service_event_url (callback_url cfg node_name id address "/event")
      ∷ []

  -- `mergeEnv`
  unfoldable pub merge_env :
      Config → (node_name id address : String) → Container → List CustomPodEnv → List EnvVar
  unfolding keep_env extend_env own_env
  merge_env cfg node_name id address c extender =
      keep_env c.env
      ++ (extend_env extender cfg node_name id address c ++ own_env cfg node_name id address)

  unfoldable pub merge_all :
      Config → (node_name id address : String) → List CustomPodEnv → List Container → List Container
  unfolding merge_env
  merge_all cfg node_name id address extender [] = []
  merge_all cfg node_name id address extender (c ∷ cs) =
      record c { env = merge_env cfg node_name id address c extender }
      ∷ merge_all cfg node_name id address extender cs

  -- what `New` writes into the decoded pod, with the labels that it was given
  unfoldable pub fill :
      Config
      → (node_name id address : String) → List CustomPodEnv
      → PodTemplate
      → Dict String
      → PodTemplate
  unfolding merge_all
  fill cfg node_name id address extender pod given = record pod {
    name = pod_name cfg node_name id;
    namespace = cfg.namespace;
    labels = some (insert label_owner cfg.name (insert label_execution_id id given));
    node_name = node_name;
    service_account_name = cfg.job_service_account;
    image_pull_secrets = cfg.job_image_pull_secrets;
    restart_policy = "Never";
    containers = merge_all cfg node_name id address extender pod.containers;
    init_containers = merge_all cfg node_name id address extender pod.init_containers;
  }

  -- what `New` makes of the decoded pod; a write to the nil map of labels panics
  unfoldable pub complete :
      Config
      → (node_name id address : String) → Option Owner
      → List CustomPodEnv
      → PodTemplate
      → Option PodTemplate
  unfolding fill
  complete cfg node_name id address owner extender pod = pod.labels >>= λ given.
      let pod' = fill cfg node_name id address extender pod given in
      some (elim owner [ none ↦ pod' | some o ↦ set_owner o pod' ])

  -- `New`
  unfoldable pub new_job :
      Config
      → (node_name id address : String) → Option Owner
      → List CustomPodEnv
      → Option (Result PodTemplate)
  unfolding complete
  new_job cfg node_name id address owner extender =
      elim (execute cfg.job_pod_template cfg.namespace id node_name) [
        | bad err ↦ some (bad err)
        | good text ↦ elim (decode text) [
          | bad err ↦ some (bad err)
          | good pod ↦
              complete cfg node_name id address owner extender pod >>= λ made. some (good made)
        ]
      ]
