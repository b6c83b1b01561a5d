-- ===== src/Http/Posts.antt =====
-- The handlers of pkg/http: `middleware`, `processPostResult`, `processPostedFiles` and
-- `processPostedEvent` with their callbacks. `none` is a panic. A handler takes the state of its server, of
-- any type, since the mock server's handlers are the same with other callbacks.
pub mod Reporting
pub mod Recording
pub mod Storing
use batch_job_controller.Base.{
  ℕ, String, Bool, true, false, not, ◌&&◌, List, [], ◌∷◌, ◌++◌, map, Option, none, some, ◌>>=◌,
  ◌<>◌, ◌==◌, all, if◌then◌else◌,
}
use batch_job_controller.Base.Dict.{Dict, lookup, insert, keys}
use batch_job_controller.Config.{Config, Metrics, name_for, pod_name, report_file_name}
use batch_job_controller.Metrics.Prom.{Prom}
use batch_job_controller.Metrics.Collector.{Results}
use batch_job_controller.Metrics.Names.{get_text}
use batch_job_controller.Lifecycle.State.{Controller}
use batch_job_controller.Lifecycle.Controller.{has_node}
use batch_job_controller.Lifecycle.Outcome.{report_received}
use batch_job_controller.Http.Event.{Event, args, event_type, validate}
use batch_job_controller.Http.Web.{
  Body, bytes, unreadable, FormFile, Request, Response, ok, answer, Decoded, failed, null, value,
  Recorded, Web, PostServer, leave, mk_report_dir, save_file,
}

-- The end of a callback: nil, or an error with the answer that the callback gave.
abbrev pub Answer : Type 0
Answer = Option Response

abbrev pub finish {ℓ} : {S : Type ℓ} → S × Answer → S × Response
finish (s, none) = (s, ok)
finish (s, some r) = (s, r)

-- the loops over the files of a form; they end at the first error
unfoldable pub save_each :
    {S : Type 0} → (S → FormFile → Option (S × Answer)) → S → List FormFile → Option (S × Answer)
save_each callback s [] = some (s, none)
save_each callback s (f ∷ files) = callback s f >>= λ t. elim (t.1) [
  | some r ↦ some (t.0, some r)
  | none ↦ save_each callback t.0 files
]

unfoldable pub save_fields :
    {S : Type 0}
    → (S → FormFile → Option (S × Answer))
    → S
    → Dict (List FormFile)
    → Option (S × Answer)
unfolding save_each
save_fields callback s [] = some (s, none)
save_fields callback s ((field, files) ∷ form) = save_each callback s files >>= λ t. elim (t.1) [
  | some r ↦ some (t.0, some r)
  | none ↦ save_fields callback t.0 form
]

module _ (p : Prom) (w : Web p) where
  open w use {
    decode_results, decode_event, is_valid_metric_name, invalid_name, invalid_event, upload_error,
    get_pod_error, media_type, media_params, extensions_by_type, new_uuid,
  }

  -- the first name of a metric that is not valid, in `Validate` of the results
  abbrev pub first_invalid : Metrics → List String → Option String
  first_invalid m [] = none
  first_invalid m (name ∷ names) =
      let rest = first_invalid m names in
      if is_valid_metric_name (name_for m name) then rest else some name

  -- `Validate` of the results: the text of an error
  unfoldable pub validate_results : Results p → Metrics → Option String
  validate_results [] m = some "results must not be empty"
  validate_results (r ∷ results) m = elim (first_invalid m (keys (r ∷ results))) [
    | none ↦ none
    | some name ↦ some (invalid_name name)
  ]

  -- `processPostResult`. The decoded `null` is a nil pointer, and the call of `Validate` through it panics.
  unfoldable pub process_post_result :
      {S : Type 0}
      → Config
      → (S → Results p → (node execution_id body : String) → Option (S × Answer))
      → S
      → Request
      → Option (S × Response)
  unfolding validate_results
  process_post_result cfg callback s r = elim r.body [
    | unreadable err ↦ some (s, answer 400 err)
    | bytes body ↦ elim (decode_results body) [
      | failed err ↦ some (s, answer 400 err)
      | null ↦ none
      | value results ↦ elim (validate_results results cfg.metrics) [
        | some err ↦ some (s, answer 400 err)
        | none ↦ callback s results r.node r.execution_id body >>= λ t. some (finish t)
      ]
    ]
  ]

  -- `postResultCallback`; a call through a nil controller panics
  unfoldable pub post_result_callback :
      (now : ℕ)
      → PostServer p
      → Results p
      → (node execution_id body : String) → Option (PostServer p × Answer)
  post_result_callback now s results node execution_id body =
      let (s', saved) = save_file p w s execution_id (node <> ".json") body in
      elim saved [
        | some err ↦ some (s', some (answer 500 err))
        | none ↦ (do
          c ← s'.controller
          c' ← report_received p c execution_id node false results now
          some (record s' { controller = some c' }, none))
      ]

  -- `postResult`
  unfoldable pub post_result : (now : ℕ) → PostServer p → Request → Option (PostServer p × Response)
  unfolding process_post_result post_result_callback
  post_result now s r = process_post_result s.config (post_result_callback now) s r

  -- `evaluateExtension`
  unfoldable pub evaluate_extension : (content_type : String) → String
  evaluate_extension ct =
      if media_type ct == "text/plain"
      then ".txt"
      else elim (extensions_by_type ct) [ [] ↦ ".file" | ext ∷ exts ↦ ext ]

  -- the name for the body of a request: of the query, of the disposition, or a new one
  unfoldable pub body_file_name : Request → String
  unfolding evaluate_extension
  body_file_name r =
      let given = get_text "filename" (media_params r.content_disposition) in
      if not (r.query_name == "")
      then r.query_name
      else if not (given == "")
      then given
      else new_uuid <> evaluate_extension r.content_type

  -- `processPostedFiles`
  unfoldable pub process_posted_files :
      {S : Type 0}
      → (S → (execution_id node : String) → FormFile → Option (S × Answer))
      → (S → (execution_id node file_name body : String) → Option (S × Answer))
      → S
      → Request
      → Option (S × Response)
  unfolding save_fields body_file_name
  process_posted_files on_form on_body s r = elim r.form [
    | some form ↦
        save_fields (λ s'. on_form s' r.execution_id r.node) s form >>= λ t. some (finish t)
    | none ↦ elim r.after_form [
      | unreadable err ↦ some (s, answer 400 err)
      | bytes body ↦
          on_body s r.execution_id r.node (body_file_name r) body >>= λ t. some (finish t)
    ]
  ]

  -- `SaveUploadedFile` after `MkReportDir`
  unfoldable pub upload : PostServer p → (path : String) → FormFile → PostServer p × Option String
  upload s path file = elim (upload_error path) [
    | some err ↦ (leave p w s path file.content, some err)
    | none ↦ (record s { files = insert path file.content s.files }, none)
  ]

  abbrev pub internal_error : PostServer p × Option String → PostServer p × Answer
  internal_error (s, some err) = (s, some (answer 500 err))
  internal_error (s, none) = (s, none)

  -- `saveFormFilesCallback`
  unfoldable pub save_form_files_callback :
      PostServer p → (execution_id node : String) → FormFile → Option (PostServer p × Answer)
  unfolding upload
  save_form_files_callback s execution_id node file =
      let (s', made) = mk_report_dir p w s execution_id in
      some (elim made [
        | some err ↦ (s', some (answer 500 err))
        | none ↦
            internal_error (
              upload s' (report_file_name s.config execution_id (node <> "-" <> file.filename))
                file)
      ])

  -- `saveBodyFileCallback`
  unfoldable pub save_body_file_callback :
      PostServer p → (execution_id node file_name body : String) → Option (PostServer p × Answer)
  save_body_file_callback s execution_id node file_name body =
      some (internal_error (save_file p w s execution_id (node <> "-" <> file_name) body))

  -- `postFile`
  unfoldable pub post_file : PostServer p → Request → Option (PostServer p × Response)
  unfolding process_posted_files save_form_files_callback save_body_file_callback
  post_file s r = process_posted_files save_form_files_callback save_body_file_callback s r

  -- `processPostedEvent`; `Validate` of a nil event returns an error
  unfoldable pub process_posted_event :
      {S : Type 0}
      → Config
      → (nil_event : String) → (S → (pod_name : String) → Event → Option (S × Answer))
      → S
      → Request
      → Option (S × Response)
  process_posted_event cfg nil_event callback s r = elim r.body [
    | unreadable err ↦ some (s, answer 400 err)
    | bytes body ↦ elim (decode_event body) [
      | failed err ↦ some (s, answer 400 ("error decoding event: " <> err))
      | null ↦ some (s, answer 400 nil_event)
      | value event ↦ elim (validate event) [
        | none ↦ none
        | some true ↦ callback s (pod_name cfg r.node r.execution_id) event >>= λ t. some (finish t)
        | some false ↦ some (s, answer 400 (invalid_event event))
      ]
    ]
  ]

  -- `postEventCallback`
  unfoldable pub post_event_callback :
      PostServer p → (pod : String) → Event → Option (PostServer p × Answer)
  unfolding args event_type
  post_event_callback s pod event = elim (get_pod_error pod) [
    | some err ↦ some (s, some (answer 404 ("error finding pod: " <> err)))
    | none ↦
        let action = if event.action == "" then "n/a" else event.action in
        some (
          record s {
            recorded =
                s.recorded
                ++ record {
                  pod = pod;
                  type_of = event_type event;
                  reason = event.reason;
                  action = action;
                  note = event.message;
                  arguments = args event;
                }
                  ∷ [];
          },
          none,
        )
  ]

  -- `postEvent`
  unfoldable pub post_event :
      (nil_event : String) → PostServer p → Request → Option (PostServer p × Response)
  unfolding process_posted_event post_event_callback
  post_event nil_event s r = process_posted_event s.config nil_event post_event_callback s r

  -- `middleware` in front of a handler
  unfoldable pub middleware :
      (PostServer p → Request → Option (PostServer p × Response))
      → PostServer p
      → Request
      → Option (PostServer p × Response)
  middleware next s r = elim s.controller [
    | none ↦ next s r
    | some c ↦
        if not (has_node p c r.node r.execution_id) && not s.config.dev_mode
        then some (s, answer 406 "node / execution ID not allowed")
        else next s r
  ]
