-- ===== src/Client/RoundTrip.antt =====
-- What the client sends is what the callback server receives.
pub mod Files
use batch_job_controller.Base.{
  ℕ, String, Bool, true, false, List, [], ◌∷◌, ◌++◌, map, Option, none, some, ◌≡◌, ◌≢◌, ◌∙◌, refl,
  sym, ap, subst, arith, ◌>>=◌, ◌<>◌, ◌==◌, eq_iff, get_last?, if◌then◌else◌, Option-cases,
  Bool-cases, inl, inr,
}
use mathlib.Core.Option.{some-injective}
use batch_job_controller.Base.Dict.{Dict, lookup, insert}
use batch_job_controller.Config.{Config, report_dir}
use batch_job_controller.Config.Load.{Environment, getenv}
use batch_job_controller.Job.{
  Templates, EnvVar, Container, CustomPodEnv, callback_url, merge_env,
  env_callback_service_result_url, env_callback_service_file_url,
}
use batch_job_controller.Job.Environment.{values_of, own_env_wins}
use batch_job_controller.Metrics.Prom.{Prom}
use batch_job_controller.Metrics.Collector.{Results}
use batch_job_controller.Metrics.Names.{get_text}
use batch_job_controller.Metrics.Collector.Totals.{IsSound}
use batch_job_controller.Lifecycle.State.{Controller}
use batch_job_controller.Lifecycle.Controller.{has_node}
use batch_job_controller.Lifecycle.Outcome.Reception.{IsReported}
use batch_job_controller.Http.Web.{
  bytes, value, FormFile, Request, Response, ok, Web, PostServer, saved_path,
}
use batch_job_controller.Http.Posts.{
  validate_results, post_result, middleware, body_file_name, post_file,
}
use batch_job_controller.Http.Posts.Reporting.{post_result_accepted}
use batch_job_controller.Http.Posts.Storing.{store_all, all_files, post_file_form, post_file_body}
use batch_job_controller.Http.Routes.{Route, results, files, api_handler}
use batch_job_controller.Http.Routes.Paths.{IsSegment, path_for}
use batch_job_controller.Client.{
  Encoder, Payload, raw, json_type, Post, Client, ClientError, default_client, named_files,
  handle_response, post_and_handle, send_result, send_as_file, send_files,
}
use batch_job_controller.Client.Network.{
  Connection, route_of-path_for, reply_of, form_of, deliver, deliver-raw, deliver-files,
}

-- The environment of a container's process: a variable has the last of its values.
abbrev pub Sees : Environment → List EnvVar → Type 0
Sees env vars =
    (name v : String) → get_last? (values_of name vars) ≡ some v → lookup name env ≡ some v

module _ (p : Prom) (w : Web p) (e : Encoder p) (n : Connection) (t : Templates) (now : ℕ)
    (nil_event : String) where
  result_address :
      (env : Environment) (retry_count : ℕ) (cfg : Config) (node id address : String)
      (k : Container) (extender : List CustomPodEnv)
      → Sees env (merge_env t cfg node id address k extender)
      → (default_client env retry_count).result_url ≡ callback_url t cfg node id address "/result"
  unfolding default_client
  result_address env retry_count cfg node id address k extender sees =
      let (a₁, a₂, a₃, a₄, a₅, result, file, event) =
        own_env_wins t cfg node id address k extender in
      let found =
        sees env_callback_service_result_url (callback_url t cfg node id address "/result")
          result in
      ap (λ (o : Option String). elim o [ none ↦ "" | some v ↦ v ]) found

  pub file_address :
      (env : Environment) (retry_count : ℕ) (cfg : Config) (node id address : String)
      (k : Container) (extender : List CustomPodEnv)
      → Sees env (merge_env t cfg node id address k extender)
      → (default_client env retry_count).file_url ≡ callback_url t cfg node id address "/file"
  unfolding default_client
  file_address env retry_count cfg node id address k extender sees =
      let (a₁, a₂, a₃, a₄, a₅, result, file, event) =
        own_env_wins t cfg node id address k extender in
      let found =
        sees env_callback_service_file_url (callback_url t cfg node id address "/file") file in
      ap (λ (o : Option String). elim o [ none ↦ "" | some v ↦ v ]) found

  -- a post that is answered with 200
  pub handled :
      (s s' : PostServer p) (q : Post)
      → deliver p w e n now nil_event s q ≡ some (s', (some (reply_of n ok), none))
      → post_and_handle p e (deliver p w e n now nil_event) s q ≡ some (s', none)
  unfolding post_and_handle handle_response
  handled s s' q h = rw h refl

  -- A pod that reports results with the default client, in the environment that the controller has made
  -- for its node and execution, gets no error, its results are in the report file as it has encoded them,
  -- and the controller has received the report with no processing error. The address has to lead to the
  -- server with its path, the node and the execution to be segments of one, the server to decode what the client encodes, the controller to know the node and the
  -- execution, the results to be valid, the directory and the file to be writable, and the collector to be
  -- sound and to keep no latest sample.
  pub send_result-received :
      (env : Environment) (retry_count : ℕ) (cfg : Config) (node id address : String)
      (k : Container) (extender : List CustomPodEnv) (s : PostServer p) (c : Controller p)
      (rs : Results p)
      → Sees env (merge_env t cfg node id address k extender)
      → n.path_of (callback_url t cfg node id address "/result") ≡ some (path_for node id results)
      → IsSegment node
      → IsSegment id
      → w.decode_results (e.encode_results rs) ≡ value rs
      → s.controller ≡ some c
      → has_node p c node id ≡ true
      → validate_results p w rs s.config.metrics ≡ none
      → w.mkdir_error (report_dir s.config id) ≡ none
      → w.write_error (saved_path s.config id (node <> ".json")) ≡ none
      → c.prom.latest_metric ≡ false
      → IsSound p c.prom
      → (s' : PostServer p) × (c' : Controller p) × (send_result p e
            (deliver p w e n now nil_event)
            (default_client env retry_count)
            s
            rs
          ≡ some (s', none))
        × (s'.controller ≡ some c')
        × IsReported p c c' id node false now
        × (lookup (saved_path s.config id (node <> ".json")) s'.files ≡ some (e.encode_results rs))
  unfolding send_result deliver api_handler
  send_result-received env retry_count cfg node id address k extender s c rs sees routed is_node
        is_id decodes known has v m f off sound =
      let r : Request = record {
        node = node;
        execution_id = id;
        body = bytes (e.encode_results rs);
        form = (n.multipart json_type (e.encode_results rs)).0;
        after_form = (n.multipart json_type (e.encode_results rs)).1;
        query_name = "";
        content_disposition = "";
        content_type = "application/json; charset=utf-8";
      } in
      let (s', c', a, g, reported, saved, recorded) =
        post_result_accepted p w now s c r (e.encode_results rs) rs known has refl decodes v m f off
          sound in
      let url = result_address env retry_count cfg node id address k extender sees in
      (
        s',
        c',
        handled s s'
            (record {
              url = (default_client env retry_count).result_url;
              content_type = json_type;
              content_disposition = "";
              payload = raw (e.encode_results rs);
            })
            (deliver-raw p w e n now nil_event s s' ok _ (e.encode_results rs) results node id refl
              (route_of-path_for n _ node id results (ap (λ (a : String). n.path_of a) url ∙ routed)
                is_node is_id)
              a),
        g,
        reported,
        saved,
      )
