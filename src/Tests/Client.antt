-- ===== src/Tests/Client.antt =====
-- Runs of the client, connected to the callback server, and of the mock server.
use batch_job_controller.Base.{
  ℕ, suc, ◌+◌, String, Bool, true, false, List, [], ◌∷◌, map, Option, none, some, ◌≡◌, ◌≢◌, ◌⊎◌,
  ◌↔◌, inl, inr, refl, sym, ap, split, ◌∙◌, arith, ◌<>◌, ◌==◌, eq_iff, get_last?, if◌then◌else◌,
  Option-cases, Bool-cases,
}
use batch_job_controller.Base.Dict.{Dict, lookup, insert, lookup-insert}
use batch_job_controller.Base.Int.{itoa}
use batch_job_controller.Config.Load.{Environment}
use batch_job_controller.Job.{EnvVar, callback_url, merge_env}
use batch_job_controller.Job.Environment.{values_of}
use batch_job_controller.Metrics.Collector.{assemble}
use batch_job_controller.Lifecycle.State.{Controller}
use batch_job_controller.Lifecycle.Controller.{has_node}
use batch_job_controller.Lifecycle.Outcome.Reception.{IsReported}
use batch_job_controller.Http.Web.{bytes, answer, Web, PostServer, saved_path}
use batch_job_controller.Http.Posts.{validate_results}
use batch_job_controller.Http.Posts.Storing.{store_all}
use batch_job_controller.Http.Routes.{Route, results, api_handler, mock_handler}
use batch_job_controller.Http.Routes.Agreement.{IsOwn}
use batch_job_controller.Http.Routes.Agreement.Handlers.{mock_handler-same}
use batch_job_controller.Http.Routes.Paths.{Gin, IsSegment, fitting}
use batch_job_controller.Client.{Encoder, default_client, send_result, send_as_file, send_files}
use batch_job_controller.Client.Network.{Connection, deliver}
use batch_job_controller.Client.RoundTrip.{Sees, send_result-received}
use batch_job_controller.Client.RoundTrip.Files.{as_files, send_files-stored, send_as_file-stored}
use batch_job_controller.Tests.Fixtures.{prom, config, collector-IsSound, controller}
use batch_job_controller.Tests.Http
use batch_job_controller.Tests.Http.{web, server, request_of}
use batch_job_controller.Tests.Job.{container, templates}

-- the environment of a process, where the last of the values of a variable wins
abbrev environment_of : List EnvVar → Environment
environment_of [] = []
environment_of (e ∷ es) =
    let rest = environment_of es in
    elim (lookup e.name rest) [ none ↦ insert e.name e.value rest | some v ↦ rest ]

get_last?-cons :
    (x : String) (xs : List String)
    → get_last? (x ∷ xs) ≡ elim (get_last? xs) [ none ↦ some x | some y ↦ some y ]
get_last?-cons x [] = refl
get_last?-cons x (y ∷ []) = refl
get_last?-cons x (y ∷ z ∷ xs) = ground (arith, get_last?-cons y (z ∷ xs), get_last?-cons z xs)

environment_of-Sees :
    (vars : List EnvVar) (name : String)
    → lookup name (environment_of vars) ≡ get_last? (values_of name vars)
environment_of-Sees [] name = refl
environment_of-Sees (e ∷ es) name = elim (Bool-cases (e.name == name)) [
  | inl y ↦ ground (
    arith,
    eq_iff e.name name,
    environment_of-Sees es name,
    lookup-insert e.name name e.value (environment_of es),
    get_last?-cons e.value (values_of name es),
  )
  | inr n ↦
      ground
        (arith, environment_of-Sees es name, lookup-insert e.name name e.value (environment_of es))
]

abbrev encoder : Encoder prom
encoder = record {
  encode_results = λ rs. "seven";
  encode_event = λ e. "broken";
  quote = λ s. s;
  base = λ path. path;
}

-- a router that takes the first route that fits
abbrev find_first : List (Route × Dict String) → Option (Route × Dict String)
find_first [] = none
find_first (found ∷ others) = some found

abbrev first_fitting : Gin
first_fitting = record {
  find = λ routes path. find_first (fitting routes (split b'/' path));
  find-fitting = λ routes path found h. ap find_first h;
}

node-IsSegment : IsSegment "n"
unfolding split
node-IsSegment = record { whole = refl; some_text = cc }

id-IsSegment : IsSegment "20200102"
unfolding split
id-IsSegment = record { whole = refl; some_text = cc }

abbrev base_url : String
base_url = "http://10.0.0.1:8090/report/n/20200102"

abbrev connection : Connection
connection = record {
  path_of = λ url.
      if url == base_url <> "/result"
      then some "/report/n/20200102/result"
      else if url == base_url <> "/file"
      then some "/report/n/20200102/file"
      else none;
  gin = first_fitting;
  read_file = λ path. some path;
  multipart = λ content_type body.
      (none, if content_type == "application/x-www-form-urlencoded" then bytes "" else bytes body);
  status_text = λ status. itoa (batch_job_controller.Base.Int.pos status);
}

abbrev vars : List EnvVar
vars = merge_env templates config "n" "20200102" "10.0.0.1" container []

sees : Sees (environment_of vars) vars
sees name v h = environment_of-Sees vars name ∙ h

send_result-received_example :
    (s' : PostServer prom) × (c' : Controller prom) × (send_result prom encoder
        (deliver prom web encoder connection 7 "no event")
        (default_client (environment_of vars) 3)
        server
        Http.results
      ≡ some (s', none))
    × (s'.controller ≡ some c')
    × IsReported prom controller c' "20200102" "n" false 7
    × (lookup (saved_path config "20200102" "n.json") s'.files ≡ some "seven")
unfolding has_node validate_results assemble callback_url itoa
send_result-received_example =
    send_result-received prom web encoder connection templates 7 "no event" (environment_of vars) 3
      config "n" "20200102" "10.0.0.1" container [] server controller Http.results sees refl
      node-IsSegment id-IsSegment refl refl refl refl refl refl refl collector-IsSound

abbrev sent : List (String × String)
sent = ("x.log", "x.log") ∷ ("y.log", "y.log") ∷ []

send_files-stored_example :
    (s' : PostServer prom) × (send_files prom encoder
        (deliver prom web encoder connection 7 "no event")
        (default_client (environment_of vars) 3)
        server
        ("x.log" ∷ "y.log" ∷ [])
      ≡ some (s', none))
    × (s'.files ≡ store_all config "20200102" "n" (as_files encoder.base sent) [])
    × (s'.controller ≡ some controller)
unfolding has_node callback_url itoa
send_files-stored_example =
    send_files-stored prom web encoder connection templates 7 "no event" (environment_of vars) 3
      config "n" "20200102" "10.0.0.1" container [] server controller sent sees refl node-IsSegment
      id-IsSegment (refl, (refl, tt)) refl refl refl refl (λ path. refl)

-- a server that reads the name of the header
abbrev naming_web : Web prom
naming_web = record web { media_params = λ t. ("filename", "report.txt") ∷ [] }

send_as_file-stored_example :
    (s' : PostServer prom) × (send_as_file prom encoder
        (deliver prom naming_web encoder connection 7 "no event")
        (default_client (environment_of vars) 3)
        server
        "report.txt"
        "text"
        ""
      ≡ some (s', none))
    × ((other : String)
        → lookup other s'.files
          ≡ (if saved_path config "20200102" "n-report.txt" == other then some "text" else none))
unfolding has_node callback_url itoa
send_as_file-stored_example =
    send_as_file-stored prom naming_web encoder connection templates 7 "no event"
      (environment_of vars) 3 config "n" "20200102" "10.0.0.1" container [] server controller
      "report.txt" "text" "" sees refl node-IsSegment id-IsSegment refl refl refl refl refl refl
      refl

bad_request :
    api_handler prom web 7 "no event" results server (request_of "n" "[")
    ≡ some (server, answer 400 "syntax")
unfolding api_handler has_node
bad_request = refl

mock_handler-same_example :
    IsOwn (answer 400 "syntax")
    ⊎ (mock_handler prom web "no event" results (request_of "n" "[")
        ≡ some (tt, answer 400 "syntax"))
mock_handler-same_example =
    mock_handler-same prom web server server (answer 400 "syntax") 7 "no event" results
      (request_of "n" "[") (λ name. refl) bad_request
