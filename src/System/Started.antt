-- ===== src/System/Started.antt =====
-- The program from its set-up on.
use batch_job_controller.Base.{ℕ, String, true, false, List, [], some, ◌≡◌, ◌⊎◌, ◌∙◌, refl, ap}
use batch_job_controller.Base.Int.{next}
use batch_job_controller.Base.Results.{Result}
use batch_job_controller.Config.Load.{Reader, Environment}
use batch_job_controller.Metrics.Prom.{Prom}
use batch_job_controller.Lifecycle.Disk.{Disk, SortFunc}
use batch_job_controller.Lifecycle.State.{Controller}
use batch_job_controller.Lifecycle.Controller.{new_controller}
use batch_job_controller.Lifecycle.History.Ends.{is_negative}
use batch_job_controller.Cron.{resting}
use batch_job_controller.Job.Identity.{IsLabelled}
use batch_job_controller.Program.{done, Runnable, Main, ManagerLib, setup, add_all}
use batch_job_controller.Program.Lifetime.{setup-IsSetUp, set_up-IsWellFormed}
use batch_job_controller.System.{System, Move, Outside, system_run}
use batch_job_controller.System.Steps.{IsSafe}
use batch_job_controller.System.Safe.{Panicked, are_apart, system_run-IsSafe}

module _ (p : Prom) (k : ManagerLib) where
  -- What the cron job and the callback server are when `Start` has given them the configuration and the
  -- controller, and the cron job the runnables that extend the environment.
  abbrev pub started : Main p → List Runnable → System p
  started m runnables = record {
    controller = m.controller;
    job = record {
      controller = m.controller;
      running = false;
      stage = resting;
      cfg = m.config;
      extender = (add_all p k m [] runnables).1;
    };
    runs = [];
    server = record {
      controller = some m.controller;
      config = m.config;
      dirs = [];
      files = [];
      recorded = [];
    };
  }

  module _ (fuel : ℕ) (r : Result Reader) (env : Environment) (version : String) (disk : Disk) where
    started-IsSafe :
        (o : Outside p) (by_time : SortFunc) (m : Main p) (runnables : List Runnable)
        → setup p k fuel r env version disk ≡ some (done m)
        → m.config.latest_metrics_label ≡ false
        → is_negative m.config.pod_pool_size ≡ false
        → is_negative (next m.config.report_history) ≡ false
        → IsSafe p o by_time (started m runnables)
    unfolding new_controller
    started-IsSafe o by_time m runnables e off pool history =
        let s = setup-IsSetUp p k fuel r env version disk m e in
        record {
          well_formed = set_up-IsWellFormed p k fuel r env version disk m s off;
          still_open = refl;
          marked = refl;
          pool = ap (λ (c : Controller p). is_negative c.pod_pool_size) s.controller ∙ pool;
          retained = ap (λ (c : Controller p). is_negative c.report_history) s.controller ∙ history;
        }

    -- From a set-up on that ends without an exit or a panic, for a configuration that keeps no latest sample and
    -- whose pool size is not negative and history not below -1, and with templates that decode to no nil map of
    -- labels: whatever the runs of the cron job, the workers, the posts and the reconciler do, in any order in
    -- which no run of the cron job begins between the test of its flag by another and the writing, nothing
    -- panics but the handler of a posted report whose body is the JSON text `null`, and without such a post the
    -- program goes on in a safe state, with the controller well-formed, at most one run of the cron job, and its
    -- flag set exactly where this run has written it.
    pub started_run-IsSafe :
        (o : Outside p) (by_time : SortFunc) (m : Main p) (runnables : List Runnable)
        (vs : List Move)
        → IsLabelled o.templates
        → are_apart p o by_time (started m runnables) vs ≡ true
        → setup p k fuel r env version disk ≡ some (done m)
        → m.config.latest_metrics_label ≡ false
        → is_negative m.config.pod_pool_size ≡ false
        → is_negative (next m.config.report_history) ≡ false
        → Panicked p o by_time (started m runnables) vs
          ⊎ ((y : System p) × (system_run p o by_time (started m runnables) vs ≡ some y)
              × IsSafe p o by_time y)
    started_run-IsSafe o by_time m runnables vs l a e off pool history =
        system_run-IsSafe p o by_time (started m runnables) vs l
          (started-IsSafe o by_time m runnables e off pool history) a
