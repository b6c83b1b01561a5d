-- ===== src/Tests/Http.antt =====
-- Runs of the handlers: a server whose file system takes everything, and a decoder that knows three bodies.
use batch_job_controller.Base.{
  ◌<>◌, ◌==◌, String, true, false, List, [], ◌∷◌, none, some, ◌≡◌, refl, if◌then◌else◌, arith, ◌↔◌,
  ◌⊎◌,
}
use batch_job_controller.Base.Dict.{Dict, lookup, insert}
use batch_job_controller.Metrics.Collector.{Results, assemble}
use batch_job_controller.Lifecycle.State.{Controller}
use batch_job_controller.Lifecycle.Controller.{has_node}
use batch_job_controller.Lifecycle.Outcome.Reception.{IsReported}
use batch_job_controller.Http.Event.{Event}
use batch_job_controller.Http.Web.{
  bytes, FormFile, Request, Response, ok, answer, failed, null, value, Web, PostServer, saved_path,
}
use batch_job_controller.Http.Posts.{validate_results, post_result, middleware}
use batch_job_controller.Http.Posts.Reporting.{
  post_result_not_ok, is_null, post_result-none_iff, post_result_accepted,
}
use batch_job_controller.Http.Posts.Recording.{Answers, post_event_lem}
use batch_job_controller.Tests.Fixtures.{prom, config, collector-IsSound, controller}

abbrev pub results : Results prom
results = ("size", record { value = 7; labels = ("disk", "sda") ∷ [] } ∷ []) ∷ []

abbrev pub event : Event
event = record {
  warning = true;
  action = "";
  reason = "Broken";
  message = "no disk";
  arguments = [];
}

abbrev pub web : Web prom
web = record {
  decode_results = λ body.
      if body == "null"
      then null
      else if body == "{}"
      then value []
      else if body == "seven"
      then value results
      else failed "syntax";
  decode_event = λ body.
      if body == "null" then null else if body == "broken" then value event else failed "syntax";
  is_valid_metric_name = λ name. true;
  invalid_name = λ name. name <> " is not valid";
  invalid_event = λ e. e.reason <> " is not valid";
  mkdir_error = λ path. none;
  write_error = λ path. none;
  left_in = λ path content. none;
  upload_error = λ path. none;
  get_pod_error = λ name. none;
  media_type = λ t. t;
  media_params = λ t. [];
  extensions_by_type = λ t. [];
  new_uuid = "0001";
}

abbrev pub server : PostServer prom
server = record {
  controller = some controller;
  config = config;
  dirs = [];
  files = [];
  recorded = [];
}

abbrev pub request_of : String → String → Request
request_of node body = record {
  node = node;
  execution_id = "20200102";
  body = bytes body;
  form = none;
  after_form = bytes body;
  query_name = "";
  content_disposition = "";
  content_type = "";
}

bad_request :
    post_result prom web 7 server (request_of "n" "[") ≡ some (server, answer 400 "syntax")
unfolding post_result
bad_request = refl

post_result_not_ok_example :
    (server.controller ≡ server.controller)
    × (server.recorded ≡ server.recorded)
    × ((server.files ≡ server.files)
        ⊎ (((answer 400 "syntax").status ≡ 500)
            × ((part : String) × (server.files
                  ≡ insert (saved_path config "20200102" "n.json") part server.files))))
post_result_not_ok_example =
    post_result_not_ok prom web 7 server server (request_of "n" "[") (answer 400 "syntax")
      bad_request (omega arith)

post_result-none_iff_example :
    (post_result prom web 7 server (request_of "n" "null") ≡ none)
    ↔ (is_null prom web (request_of "n" "null") ≡ true)
unfolding assemble
post_result-none_iff_example =
    post_result-none_iff prom web 7 server controller (request_of "n" "null") refl refl
      collector-IsSound

post_result_accepted_example :
    (s' : PostServer prom) × (c' : Controller prom) × (middleware prom web
        (post_result prom web 7)
        server
        (request_of "n" "seven")
      ≡ some (s', ok))
    × (s'.controller ≡ some c')
    × IsReported prom controller c' "20200102" "n" false 7
    × (lookup (saved_path config "20200102" "n.json") s'.files ≡ some "seven")
    × (s'.recorded ≡ [])
unfolding has_node validate_results assemble
post_result_accepted_example =
    post_result_accepted prom web 7 server controller (request_of "n" "seven") "seven" results refl
      refl refl refl refl refl refl refl collector-IsSound

post_event_lem_example :
    (resp : Response) × Answers prom web "no event" server (request_of "n" "broken") resp
post_event_lem_example = post_event_lem prom web "no event" server (request_of "n" "broken")

abbrev form : Dict (List FormFile)
form =
    ("a", record { filename = "x.log"; content = "1" } ∷ [])
    ∷ ("b", record { filename = "y.log"; content = "2" } ∷ [])
    ∷ []

abbrev form_request : Request
form_request = record (request_of "n" "") { form = some form }

abbrev lower_event : Event
lower_event = record event { reason = "état" }
