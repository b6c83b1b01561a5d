-- ===== src/Reconciler/Outcomes.antt =====
-- What a reconciliation does to the controller, and how it ends.
use batch_job_controller.Base.{
  ℕ, String, true, ◌&&◌, ◌||◌, none, some, ◌≡◌, arith, ◌==◌, if◌then◌else◌,
}
use batch_job_controller.Metrics.Prom.{Prom}
use batch_job_controller.Metrics.Names.{get_text}
use batch_job_controller.Metrics.Collector.Totals.{IsSound}
use batch_job_controller.Lifecycle.State.{Pod}
use batch_job_controller.Lifecycle.Controller.{has_node}
use batch_job_controller.Lifecycle.Outcome.Termination.{IsPod, IsTerminated, pod_terminated_first}
use batch_job_controller.Job.{label_execution_id}
use batch_job_controller.Reconciler.{
  ClusterPod, found, Cluster, State, done, reconcile, save_pod_logs,
}

module _ (p : Prom) (k : Cluster) where
  -- The reconciliation of a registered pod that has ended and whose end is not recorded yet records it,
  -- on a sound collector: the controller does what the first `PodTerminated` does, and the outcome is no
  -- error.
  pub reconcile-IsTerminated :
      (s : State p) (pod : ClusterPod) (id : String) (now r : ℕ) (q : Pod)
      → (pod.phase == "Succeeded" || pod.phase == "Failed") ≡ true
      → get_text label_execution_id pod.labels ≡ id
      → IsPod p s.controller id pod.node_name r q
      → q.terminated ≡ none
      → IsSound p s.controller.prom
      → (s' : State p) × (reconcile p k s (found pod) now ≡ some (s', done))
        × IsTerminated p s.controller s'.controller id pod.node_name pod.phase now r q
  unfolding reconcile
  reconcile-IsTerminated s pod id now r q phase labelled is running sound =
      let (c', e, t) =
        pod_terminated_first p s.controller id pod.node_name pod.phase now r q is running sound in
      (
        record {
          controller = c';
          files =
              if s.controller.config.save_pod_log && has_node p s.controller pod.node_name id
              then save_pod_logs p k s.controller.config pod id pod.containers s.files
              else s.files;
        },
        ground (arith, e),
        t,
      )
