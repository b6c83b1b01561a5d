-- ===== src/System/Whole.antt =====
-- What a step of the running program does to the controller is a history of its calls.
use batch_job_controller.Base.{
  ℕ, false, ◌||◌, some, ◌≡◌, inl, inr, refl, ap, subst, arith, get_elem?, ◌==◌, Option-cases,
  Bool-cases,
}
use mathlib.Core.Option.{some-injective}
use batch_job_controller.Metrics.Prom.{Prom}
use batch_job_controller.Metrics.Names.{get_text}
use batch_job_controller.Lifecycle.Disk.{SortFunc}
use batch_job_controller.Lifecycle.State.{Controller}
use batch_job_controller.Lifecycle.Outcome.{pod_terminated}
use batch_job_controller.Lifecycle.Workers.{worker_step}
use batch_job_controller.Lifecycle.History
use batch_job_controller.Lifecycle.History.{Event, happen, history}
use batch_job_controller.Job.{label_execution_id}
use batch_job_controller.Http.Web.{Request, Response, PostServer}
use batch_job_controller.Http.Routes.{Route, api_handler}
use batch_job_controller.Reconciler.{Found, found, not_found, get_failed, State, Outcome, reconcile}
use batch_job_controller.Cron.{CronJob, advance}
use batch_job_controller.System.{
  System, Move, triggered, advanced, worked, posted, reconciled, Outside, after_post, system_step,
}
use batch_job_controller.System.Runs.{Leads, nothing, one, step-Leads}
use batch_job_controller.System.Posts.{api_handler-Receives}

module _ (p : Prom) (o : Outside p) (by_time : SortFunc) where
  reconcile-Leads :
      (s s' : State p) (out : Outcome) (pod : Found) (now : ℕ)
      → reconcile p o.pod_cluster s pod now ≡ some (s', out)
      → Leads p by_time s.controller s'.controller
  unfolding reconcile happen
  reconcile-Leads s s' out not_found now h =
      nothing p by_time s.controller s'.controller (ground arith)
  reconcile-Leads s s' out (get_failed err) now h =
      nothing p by_time s.controller s'.controller (ground arith)
  reconcile-Leads s s' out (found pod) now h =
      elim (Bool-cases (pod.phase == "Succeeded" || pod.phase == "Failed")) [
        | inr n ↦ nothing p by_time s.controller s'.controller (ground arith)
        | inl y ↦
            let id = get_text label_execution_id pod.labels in
            elim (Option-cases (pod_terminated p s.controller id pod.node_name pod.phase now)) [
              | inl n ↦ absurd (ground arith)
              | inr (r, n) ↦
                  let is : r.0 ≡ s'.controller = ground arith in
                  one p by_time s.controller s'.controller
                    (History.terminated id pod.node_name pod.phase now) (ground arith)
            ]
      ]

  post-Leads :
      (y : System p) (s' : PostServer p) (a : Response) (route : Route) (r : Request) (now : ℕ)
      → api_handler p o.web now o.nil_event route
          (record y.server { controller = some y.controller })
          r
        ≡ some (s', a)
      → Leads p by_time y.controller (after_post p o by_time y s').controller
  unfolding happen
  post-Leads y s' a route r now h =
      elim (api_handler-Receives p o.web now y.controller
        (record y.server { controller = some y.controller }) refl r s' a o.nil_event route h) [
          | inl same ↦
              nothing p by_time y.controller (after_post p o by_time y s').controller (ground arith)
          | inr (rs, c', e, is) ↦
              one p by_time y.controller (after_post p o by_time y s').controller
                (History.reported r.execution_id r.node false rs now) (ground (arith, e, is))
        ]

  pub system_step-Leads :
      (y y' : System p) (v : Move)
      → system_step p o by_time y v ≡ some y'
      → Leads p by_time y.controller y'.controller
  unfolding system_step advance happen
  system_step-Leads y y' (triggered id now) h =
      nothing p by_time y.controller y'.controller
        (ap (λ (x : System p). x.controller) (some-injective _ y' h))
  system_step-Leads y y' (advanced i) h = elim (Option-cases (get_elem? y.runs i)) [
    | inl m ↦ nothing p by_time y.controller y'.controller (ground arith)
    | inr (s, m) ↦
        let j : CronJob p = record y.job { controller = y.controller; stage = s } in
        elim (Option-cases (advance p o.templates o.cron_cluster by_time j)) [
          | inl n ↦ absurd (ground arith)
          | inr (j', n) ↦
              let is : j'.controller ≡ y'.controller = ground arith in
              subst (λ (c : Controller p). Leads p by_time y.controller c) is
                (step-Leads p by_time o.templates o.cron_cluster j j' s n)
        ]
  ]
  system_step-Leads y y' (worked e w now) h =
      let is : worker_step p y.controller e w now ≡ y'.controller = ground arith in
      one p by_time y.controller y'.controller (History.worked e w now) (ap some is)
  system_step-Leads y y' (posted route r now) h =
      elim (Option-cases (
        api_handler p o.web now o.nil_event route
          (record y.server { controller = some y.controller }) r)) [
            | inl n ↦ absurd (ground arith)
            | inr ((s', a), n) ↦
                let is : after_post p o by_time y s' ≡ y' = some-injective _ y' (ground arith) in
                subst (λ (x : System p). Leads p by_time y.controller x.controller) is
                  (post-Leads y s' a route r now n)
          ]
  system_step-Leads y y' (reconciled pod now) h =
      let s : State p = record { controller = y.controller; files = y.server.files } in
      elim (Option-cases (reconcile p o.pod_cluster s pod now)) [
        | inl n ↦ absurd (ground arith)
        | inr ((s', out), n) ↦
            let is : s'.controller ≡ y'.controller = ground arith in
            subst (λ (c : Controller p). Leads p by_time y.controller c) is
              (reconcile-Leads s s' out pod now n)
      ]
