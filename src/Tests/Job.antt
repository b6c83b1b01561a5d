-- ===== src/Tests/Job.antt =====
-- Runs of the job pods: a container that sets a variable of its own, a reserved one and a callback address.
use batch_job_controller.Base.{
  ◌<>◌, ◌==◌, String, List, [], ◌∷◌, none, some, ◌≡◌, refl, if◌then◌else◌,
}
use batch_job_controller.Job.{
  EnvVar, Container, PodTemplate, Templates, env_var, merge_env, own_env, extend_env, fill, new_job,
  label_execution_id, label_owner,
}
use batch_job_controller.Base.Results.{good, bad}
use batch_job_controller.Job.Environment.{values_of, values_of-merge_env}
use batch_job_controller.Job.Identity.{IsOurs, new_job-IsOurs}
use batch_job_controller.Reconciler.{
  stream, ClusterPod, found, get_failed, Cluster, State, done, cluster_error, reconcile,
}
use batch_job_controller.Reconciler.Outcomes.{reconcile-IsTerminated}
use batch_job_controller.Lifecycle.Outcome.{pod_for_id}
use batch_job_controller.Lifecycle.Controller.{for_id, pod_of}
use batch_job_controller.Lifecycle.Outcome.Termination.{IsTerminated}
use batch_job_controller.Tests.Fixtures.{prom, config, controller, running_pod, collector-IsSound}

abbrev pub container : Container
container = record {
  name = "main";
  env =
      env_var "SIZE" "7"
      ∷ env_var "NODE_NAME" "mine"
      ∷ env_var "CALLBACK_SERVICE_RESULT_URL" "http://mine"
      ∷ [];
}

abbrev pub template : PodTemplate
template = record {
  name = "";
  namespace = "";
  annotations = [];
  labels = some (("app", "demo") ∷ []);
  node_name = "";
  service_account_name = "";
  image_pull_secrets = [];
  restart_policy = "Always";
  containers = container ∷ [];
  init_containers = [];
  owner_references = [];
}

abbrev pub templates : Templates
templates = record {
  execute = λ text namespace id node. good text;
  decode = λ text. if text == "kind: Pod" then good template else bad "syntax";
  set_owner = λ o pod. record pod { owner_references = o ∷ pod.owner_references };
  join_host_port = λ host port. host <> ":" <> port;
}

abbrev merged : List EnvVar
unfolding merge_env
merged = merge_env templates config "n" "20200102" "10.0.0.1" container []

abbrev base : String
base = "http://10.0.0.1:8090/report/n/20200102"

values_of-merge_env_example :
    values_of "NODE_NAME" (merge_env templates config "n" "20200102" "10.0.0.1" container [])
    ≡ "n" ∷ []
unfolding own_env extend_env
values_of-merge_env_example =
    values_of-merge_env templates config "n" "20200102" "10.0.0.1" container [] "NODE_NAME"

abbrev pod : PodTemplate
pod = fill templates config "n" "20200102" "10.0.0.1" [] template (("app", "demo") ∷ [])

new_job-good : new_job templates config "n" "20200102" "10.0.0.1" none [] ≡ some (good pod)
unfolding new_job
new_job-good = refl

new_job-IsOurs_example : IsOurs templates config "n" "20200102" pod
new_job-IsOurs_example =
    new_job-IsOurs templates config "n" "20200102" "10.0.0.1" [] pod new_job-good

pod-IsOurs : IsOurs templates config "n" "20200102" pod
pod-IsOurs = new_job-IsOurs templates config "n" "20200102" "10.0.0.1" [] pod new_job-good

abbrev pub cluster : Cluster
cluster = record {
  log_stream = λ ns pod c. stream "log" none;
  mkdir_error = λ path. none;
  write_error = λ path. none;
  left_in = λ path content. none;
}

abbrev state : State prom
state = record { controller = controller; files = [] }

abbrev pub cluster_pod : String → ClusterPod
cluster_pod phase = record {
  name = "jobs-job-n-20200102";
  namespace = "ns";
  labels = (label_execution_id, "20200102") ∷ (label_owner, "jobs") ∷ [];
  node_name = "n";
  phase = phase;
  containers = "main" ∷ [];
}

reconcile-failed :
    reconcile prom cluster state (get_failed "timeout") 7 ≡ some (state, cluster_error "timeout")
unfolding reconcile
reconcile-failed = refl

reconcile-IsTerminated_example :
    (s' : State prom) × (reconcile prom cluster state (found (cluster_pod "Failed")) 7000000
      ≡ some (s', done))
    × IsTerminated prom controller s'.controller "20200102" "n" "Failed" 7000000 0 running_pod
unfolding pod_for_id for_id pod_of
reconcile-IsTerminated_example =
    reconcile-IsTerminated prom cluster state (cluster_pod "Failed") "20200102" 7000000 0
      running_pod refl refl (record { place = refl; pod = refl }) refl collector-IsSound
