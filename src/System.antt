-- ===== src/System.antt =====
-- The running program: the cron job of pkg/cron, the workers of pkg/lifecycle, the callback server of pkg/http
-- and the reconciler of pkg/controller work on the one controller that cmd/main.go hands to them, and write
-- to one report directory. Their steps come in any order.
pub mod Runs
pub mod Posts
pub mod Whole
pub mod Safety
pub mod Going
pub mod Fixed
pub mod NullPosts
pub mod Steps
pub mod Safe
pub mod Started
use batch_job_controller.Base.{
  ℕ, zero, suc, String, List, [], ◌∷◌, ◌++◌, if◌then◌else◌, get_elem?, Option, none, some, ◌>>=◌,
}
use batch_job_controller.Metrics.Prom.{Prom}
use batch_job_controller.Lifecycle.Disk.{SortFunc}
use batch_job_controller.Lifecycle.State.{Controller}
use batch_job_controller.Lifecycle.Workers.{worker_step}
use batch_job_controller.Job.{Templates}
use batch_job_controller.Http.Web.{Request, Response, Web, PostServer}
use batch_job_controller.Http.Routes.{Route, api_handler}
use batch_job_controller.Reconciler
use batch_job_controller.Reconciler.{Found, State, reconcile}
use batch_job_controller.Cron
use batch_job_controller.Cron.{CronJob, Stage, is_going, trigger, advance}

-- The controller is shared by pointer: the copies in the job and the server are written before each step.
-- The runs of the cron job that go on, each by its stage, share the job; its `stage` is written before each step
-- of a run.
pub record System (p : Prom) : Type 0 where
  pub controller : Controller p
  pub job : CronJob p
  pub runs : List Stage
  pub server : PostServer p

-- The trigger of the cron job and a step of the run at a place, a step of a worker, a post to a route, and a
-- reconciliation of what the cluster holds.
pub data Move : Type 0 where
  triggered : (id : String) → (now : ℕ) → Move
  advanced : (run : ℕ) → Move
  worked : (execution worker now : ℕ) → Move
  posted : Route → Request → (now : ℕ) → Move
  reconciled : Found → (now : ℕ) → Move

-- a run that has come to a stage, at the place of the run; one that is over goes
unfoldable pub put_run : List Stage → (run : ℕ) → Stage → List Stage
put_run [] i s = []
put_run (r ∷ runs) zero s = if is_going s then s ∷ runs else runs
put_run (r ∷ runs) (suc i) s = r ∷ put_run runs i s

-- What the parts call outside.
pub record Outside (p : Prom) : Type 0 where
  pub templates : Templates
  pub cron_cluster : Cron.Cluster
  pub pod_cluster : Reconciler.Cluster
  pub web : Web p
  pub nil_event : String

module _ (p : Prom) (o : Outside p) (by_time : SortFunc) where
  -- what a handler leaves; the controller that it was given is still there
  abbrev pub after_post : System p → PostServer p → System p
  after_post y s = elim s.controller [
    | none ↦ record y { server = s }
    | some c ↦ record y { controller = c; server = s }
  ]

  -- `none` is a panic, also of a handler, from which the server would recover
  unfoldable pub system_step : System p → Move → Option (System p)
  unfolding trigger put_run
  system_step y (triggered id now) =
      let j =
        trigger p o.templates o.cron_cluster by_time (record y.job { controller = y.controller }) id
          now in
      some (record y { job = j; runs = y.runs ++ (if is_going j.stage then j.stage ∷ [] else []) })
  system_step y (advanced i) = elim (get_elem? y.runs i) [
    | none ↦ some y
    | some s ↦
        advance p o.templates o.cron_cluster by_time
          (record y.job { controller = y.controller; stage = s })
        >>= λ j.
            some (record y { controller = j.controller; job = j; runs = put_run y.runs i j.stage })
  ]
  system_step y (worked e w now) =
      some (record y { controller = worker_step p y.controller e w now })
  system_step y (posted route r now) =
      api_handler p o.web now o.nil_event route (record y.server { controller = some y.controller })
        r
      >>= λ t. some (after_post y (t.0))
  system_step y (reconciled pod now) =
      reconcile p o.pod_cluster (record { controller = y.controller; files = y.server.files }) pod
        now
      >>= λ t. some (record y {
        controller = (t.0).controller;
        server = record y.server { files = (t.0).files };
      })

  unfoldable pub system_run : System p → List Move → Option (System p)
  unfolding system_step
  system_run y [] = some y
  system_run y (v ∷ vs) = system_step y v >>= λ y'. system_run y' vs
