-- ===== src/Http/Routes.antt =====
-- The routes of `GenericAPIServer` in pkg/http/postserver.go, with the recovery from panics, and those of
-- `MockAPIServer` in pkg/http/mock.go, whose handlers have callbacks that do nothing.
pub mod Agreement
pub mod Paths
use batch_job_controller.Base.{ℕ, String, false, List, [], ◌∷◌, Option, none, some}
use batch_job_controller.Base.Int.{pos}
use batch_job_controller.Config.{Config}
use batch_job_controller.Metrics.Prom.{Prom}
use batch_job_controller.Metrics.Collector.{Results}
use batch_job_controller.Http.Event.{Event}
use batch_job_controller.Http.Web.{FormFile, Request, Response, answer, Web, PostServer}
use batch_job_controller.Http.Posts.{
  Answer, process_post_result, process_posted_files, process_posted_event, post_result, post_file,
  post_event, middleware,
}

-- The sub-paths of `/report/:node/:executionID` that answer a POST: `/result`, `/file` and `/event`.
pub data Route : Type 0 where
  results files events : Route

-- `&config.Config{Name: "mock"}`
abbrev pub mock_config : Config
mock_config = record {
  name = "mock";
  job_service_account = "";
  job_image_pull_secrets = [];
  job_node_selector = [];
  run_on_unscheduled_nodes = false;
  cron_expression = "";
  report_directory = "";
  report_history = pos 0;
  pod_pool_size = pos 0;
  run_on_startup = false;
  startup_delay = pos 0;
  metrics = record { port = pos 0; prefix = ""; gauges = [] };
  health_probe_port = pos 0;
  latest_metrics_label = false;
  custom = [];
  callback_service_name = "";
  callback_service_port = pos 0;
  leader_election_resource_lock = "";
  save_pod_log = false;
  namespace = "";
  job_pod_template = "";
  owner = none;
  dev_mode = false;
}

module _ (p : Prom) (w : Web p) where
  -- the handler that `GenericAPIServer` registers for a route, behind the middleware
  unfoldable pub api_handler :
      (now : ℕ)
      → (nil_event : String) → Route
      → PostServer p
      → Request
      → Option (PostServer p × Response)
  unfolding middleware post_result post_file post_event
  api_handler now nil_event results s r = middleware p w (post_result p w now) s r
  api_handler now nil_event files s r = middleware p w (post_file p w) s r
  api_handler now nil_event events s r = middleware p w (post_event p w nil_event) s r

  -- what the client gets: `gin.Recovery` answers a panic with 500
  unfoldable pub api_answer :
      (now : ℕ) → (nil_event : String) → Route → PostServer p → Request → Response
  unfolding api_handler
  api_answer now nil_event route s r = elim (api_handler now nil_event route s r) [
    | none ↦ answer 500 ""
    | some t ↦ t.1
  ]

  -- `postResult` of the mock server
  unfoldable pub mock_post_result : Request → Option (Unit {0} × Response)
  unfolding process_post_result
  mock_post_result r =
      process_post_result p w mock_config (λ s rs node execution_id body. some (s, none)) tt r

  -- `postFile` of the mock server
  unfoldable pub mock_post_file : Request → Option (Unit {0} × Response)
  unfolding process_posted_files
  mock_post_file r =
      process_posted_files p w (λ s execution_id node file. some (s, none))
        (λ s execution_id node file_name body. some (s, none)) tt r

  -- `postEvent` of the mock server
  unfoldable pub mock_post_event : (nil_event : String) → Request → Option (Unit {0} × Response)
  unfolding process_posted_event
  mock_post_event nil_event r =
      process_posted_event p w mock_config nil_event (λ s pod event. some (s, none)) tt r

  -- the handler that `MockAPIServer` registers for a route, without a middleware
  unfoldable pub mock_handler :
      (nil_event : String) → Route → Request → Option (Unit {0} × Response)
  unfolding mock_post_result mock_post_file mock_post_event
  mock_handler nil_event results r = mock_post_result r
  mock_handler nil_event files r = mock_post_file r
  mock_handler nil_event events r = mock_post_event nil_event r
