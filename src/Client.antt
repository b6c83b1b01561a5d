-- ===== src/Client.antt =====
-- pkg/client/client.go: the client of the callback server for the job pods. The HTTP library is an interface:
-- a transport that posts what a call builds.
pub mod Errors
pub mod Network
pub mod RoundTrip
use batch_job_controller.Base.{
  ℕ, String, Bool, true, false, not, List, [], ◌∷◌, Option, none, some, ◌>>=◌, ◌<>◌, ◌==◌, eqb,
  if◌then◌else◌,
}
use batch_job_controller.Base.Dict.{Dict, insert}
use batch_job_controller.Config.Load.{Environment, getenv}
use batch_job_controller.Job.{
  env_callback_service_result_url, env_callback_service_file_url, env_callback_service_event_url,
}
use batch_job_controller.Metrics.Prom.{Prom}
use batch_job_controller.Metrics.Collector.{Results}
use batch_job_controller.Http.Event.{Event}

-- What the client uses of `encoding/json` (by resty), of `%q` and of `filepath.Base`.
pub record Encoder (p : Prom) : Type 0 where
  pub encode_results : Results p → String
  pub encode_event : Event → String
  pub quote : String → String
  pub base : String → String

-- The body of a post: a text, or the files of a form, by field name the path.
pub data Payload : Type 0 where
  raw : String → Payload
  files : Dict String → Payload

pub record Post : Type 0 where
  pub url : String
  pub content_type : String
  pub content_disposition : String
  pub payload : Payload

-- `resty.Response`, as the client reads it
pub record Reply : Type 0 where
  pub status_code : ℕ
  pub status : String
  pub text : String

-- The errors: that of the library, or `httpError`.
pub data ClientError : Type 0 where
  transport_error : String → ClientError
  http_error : (status message : String) → ClientError

-- A post from a state of the world to another, with the response (nil is `none`) and the error of the
-- library. `none` is a panic of the other side.
abbrev pub Transport : Type 0 → Type 0
Transport S = S → Post → Option (S × (Option Reply × Option String))

-- `client`; the retries are the library's
pub record Client : Type 0 where
  pub result_url : String
  pub file_url : String
  pub event_url : String
  pub retry_count : ℕ

-- `New`
abbrev pub new_client : (result_url file_url event_url : String) → (retry_count : ℕ) → Client
new_client result_url file_url event_url retry_count = record {
  result_url = result_url;
  file_url = file_url;
  event_url = event_url;
  retry_count = retry_count;
}

-- `Default`
unfoldable pub default_client : Environment → (retry_count : ℕ) → Client
default_client env retry_count =
    new_client (getenv env env_callback_service_result_url)
      (getenv env env_callback_service_file_url) (getenv env env_callback_service_event_url)
      retry_count

-- the header that `New` sets for all requests
abbrev pub json_type : String
json_type = "application/json; charset=utf-8"

abbrev pub library_error : Option String → Option ClientError
library_error none = none
library_error (some err) = some (transport_error err)

abbrev pub failed_with : Reply → ClientError
failed_with resp = http_error resp.status resp.text

-- `Error` of `httpError`; that of the library has its own text
unfoldable pub error_text : ClientError → String
error_text (transport_error err) = err
error_text (http_error status message) = status <> ": " <> message

-- `handleResponse`
unfoldable pub handle_response : Option Reply → Option String → Option ClientError
handle_response none err = library_error err
handle_response (some resp) err =
    if eqb resp.status_code 200 then library_error err else some (failed_with resp)

-- the end of `SendFiles`; `none` is the call of a method of a nil response
unfoldable pub handle_files : Option Reply → Option String → Option (Option ClientError)
handle_files resp (some err) = some (some (transport_error err))
handle_files none none = none
handle_files (some resp) none =
    if eqb resp.status_code 200 then some none else some (some (failed_with resp))

module _ (p : Prom) (e : Encoder p) where
  open e use {encode_results, encode_event, quote, base}

  -- the loop of `SendFiles` over the paths
  unfoldable pub named_files : List String → Dict String → Dict String
  named_files [] named = named
  named_files (path ∷ paths) named = named_files paths (insert (base path) path named)

  module _ {S : Type 0} (post : Transport S) where
    unfoldable pub post_and_handle : S → Post → Option (S × Option ClientError)
    unfolding handle_response
    post_and_handle s q = post s q >>= λ t. some (t.0, handle_response (t.1.0) (t.1.1))

    -- `SendResult`
    unfoldable pub send_result : Client → S → Results p → Option (S × Option ClientError)
    unfolding post_and_handle
    send_result c s results = post_and_handle s (record {
      url = c.result_url;
      content_type = json_type;
      content_disposition = "";
      payload = raw (encode_results results);
    })

    -- `PostEvent`
    unfoldable pub post_event :
        Client
        → S
        → Bool
        → (reason message : String) → (arguments : List String) → Option (S × Option ClientError)
    unfolding post_and_handle
    post_event c s is_warning reason message arguments = post_and_handle s (record {
      url = c.event_url;
      content_type = json_type;
      content_disposition = "";
      payload = raw (
          encode_event (record {
            warning = is_warning;
            action = "";
            reason = reason;
            message = message;
            arguments = arguments;
          }));
    })

    -- `SendAsFile`
    unfoldable pub send_as_file :
        Client → S → (name data_ content_type : String) → Option (S × Option ClientError)
    unfolding post_and_handle
    send_as_file c s name data_ content_type = post_and_handle s (record {
      url = c.file_url;
      content_type = if content_type == "" then json_type else content_type;
      content_disposition = "attachment;filename=" <> quote name;
      payload = raw data_;
    })

    abbrev pub after_files : S × (Option Reply × Option String) → Option (S × Option ClientError)
    after_files (s, (resp, err)) = handle_files resp err >>= λ failed. some (s, failed)

    -- `SendFiles`; the library puts the type of the form in place of the content type
    unfoldable pub send_files : Client → S → List String → Option (S × Option ClientError)
    unfolding named_files handle_files
    send_files c s paths =
        post s (record {
          url = c.file_url;
          content_type = json_type;
          content_disposition = "";
          payload = files (named_files paths []);
        })
        >>= after_files
