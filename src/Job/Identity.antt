-- ===== src/Job/Identity.antt =====
-- `New`: the pod can be told by its execution and its owner, whatever the template says.
use batch_job_controller.Base.{
  String, List, Option, none, some, ◌>>=◌, ◌≡◌, ◌≢◌, ◌⊎◌, Option-cases, inl, inr, refl, subst,
  arith,
}
use batch_job_controller.Base.Dict.{Dict, lookup, insert, lookup-insert}
use batch_job_controller.Config.{Config, Owner, pod_name}
use batch_job_controller.Job.{
  PodTemplate, Templates, CustomPodEnv, fill, complete, new_job, label_owner, label_execution_id,
}
use batch_job_controller.Base.Results.{Result, good, bad}

module _ (t : Templates) where
  -- What the controller decides of a pod.
  pub record IsOurs (cfg : Config) (node_name id : String) (pod : PodTemplate) : Type 0 where
    pub name : pod.name ≡ pod_name cfg node_name id
    pub namespace : pod.namespace ≡ cfg.namespace
    pub execution : (pod.labels >>= lookup label_execution_id) ≡ some id
    pub owner : (pod.labels >>= lookup label_owner) ≡ some cfg.name
    pub node : pod.node_name ≡ node_name
    pub account : pod.service_account_name ≡ cfg.job_service_account
    pub secrets : pod.image_pull_secrets ≡ cfg.job_image_pull_secrets
    pub restart : pod.restart_policy ≡ "Never"

  fill-IsOurs :
      (cfg : Config) (node_name id address : String) (extender : List CustomPodEnv)
      (pod : PodTemplate) (given : Dict String)
      → IsOurs cfg node_name id (fill t cfg node_name id address extender pod given)
  unfolding fill
  fill-IsOurs cfg node_name id address extender pod given =
      let other =
        lookup-insert label_owner label_execution_id cfg.name
          (insert label_execution_id id given) in
      record {
        name = refl;
        namespace = refl;
        execution =
            ground (arith, other, lookup-insert label_execution_id label_execution_id id given);
        owner = ground (
          arith,
          lookup-insert label_owner label_owner cfg.name (insert label_execution_id id given),
        );
        node = refl;
        account = refl;
        secrets = refl;
        restart = refl;
      }

  Result-cases :
      {A : Type 0} (r : Result A) → ((a : A) × (r ≡ good a)) ⊎ ((err : String) × (r ≡ bad err))
  Result-cases (good a) = inl (a, refl)
  Result-cases (bad err) = inr (err, refl)

  -- A new pod without an owner, once it is made, has the name, the namespace, the labels, the node, the account,
  -- the secrets and the restart policy that the controller decides, whatever the template makes of them.
  pub new_job-IsOurs :
      (cfg : Config) (node_name id address : String) (extender : List CustomPodEnv)
      (pod : PodTemplate)
      → new_job t cfg node_name id address none extender ≡ some (good pod)
      → IsOurs cfg node_name id pod
  unfolding new_job
  new_job-IsOurs cfg node_name id address extender pod h =
      elim (Result-cases (t.execute cfg.job_pod_template cfg.namespace id node_name)) [
        | inr (err, e) ↦ absurd (ground arith)
        | inl (text, e) ↦ elim (Result-cases (t.decode text)) [
          | inr (err, d) ↦ absurd (ground arith)
          | inl (pod₀, d) ↦ elim (Option-cases pod₀.labels) [
            | inl n ↦ absurd (ground arith)
            | inr (given, n) ↦
                subst (IsOurs cfg node_name id) (ground arith)
                  (fill-IsOurs cfg node_name id address extender pod₀ given)
          ]
        ]
      ]

  -- no decoded template has the nil map for its labels
  abbrev pub IsLabelled : Type 0
  IsLabelled = (text : String) (pod : PodTemplate) → t.decode text ≡ good pod → pod.labels ≢ none

  pub new_job-some :
      (cfg : Config) (node_name id address : String) (owner : Option Owner)
      (extender : List CustomPodEnv)
      → IsLabelled
      → new_job t cfg node_name id address owner extender ≢ none
  unfolding new_job complete
  new_job-some cfg node_name id address owner extender l h =
      elim (Result-cases (t.execute cfg.job_pod_template cfg.namespace id node_name)) [
        | inr (err, e) ↦ ground arith
        | inl (text, e) ↦ elim (Result-cases (t.decode text)) [
          | inr (err, d) ↦ ground arith
          | inl (pod, d) ↦ l text pod d (ground arith)
        ]
      ]
