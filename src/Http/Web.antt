-- ===== src/Http/Web.antt =====
-- What the handlers of pkg/http read and write: requests, answers, the report files and the events, and
-- an interface for the libraries and the system that they call.
use batch_job_controller.Base.{ℕ, String, Bool, List, ◌∷◌, Option, none, some}
use batch_job_controller.Base.Dict.{Dict, insert}
use batch_job_controller.Config.{Config, report_dir, report_file_name}
use batch_job_controller.Config.Paths.{clean}
use batch_job_controller.Metrics.Prom.{Prom}
use batch_job_controller.Metrics.Collector.{Results}
use batch_job_controller.Lifecycle.State.{Controller}
use batch_job_controller.Http.Event.{Event}

-- What `GetRawData` gives: the body, or the text of an error.
pub data Body : Type 0 where
  bytes : String → Body
  unreadable : String → Body

-- `multipart.FileHeader` with the file's content
pub record FormFile : Type 0 where
  pub filename : String
  pub content : String

-- A request below `/report/:node/:executionID`, as the handlers look at it. `form` is what
-- `MultipartForm` gives, where nil is `none`, in the order of one iteration over its map, and `after_form`
-- what `GetRawData` gives once `MultipartForm` has looked at the body.
pub record Request : Type 0 where
  pub node : String
  pub execution_id : String
  pub body : Body
  pub form : Option (Dict (List FormFile))
  pub after_form : Body
  pub query_name : String
  pub content_disposition : String
  pub content_type : String

-- The answer: the status, 200 where a handler sets none, and the text.
pub record Response : Type 0 where
  pub status : ℕ
  pub text : String

abbrev pub ok : Response
ok = record { status = 200; text = "" }

abbrev pub answer : ℕ → String → Response
answer status text = record { status = status; text = text }

-- What a JSON decoder makes of a body: the text of an error, nil for the JSON text `null` (the decoded
-- variable is a pointer), or a value.
pub data Decoded {ℓ} (A : Type ℓ) : Type ℓ where
  failed : String → Decoded A
  null : Decoded A
  value : A → Decoded A

-- An event as `Eventf` is given it; its arguments are those of the format in `note`.
pub record Recorded : Type 0 where
  pub pod : String
  pub type_of : String
  pub reason : String
  pub action : String
  pub note : String
  pub arguments : List String

-- The libraries and the system. Errors are told by their texts.
pub record Web (p : Prom) : Type 0 where
  pub decode_results : String → Decoded (Results p)
  pub decode_event : String → Decoded Event
  pub is_valid_metric_name : String → Bool
  -- the texts of the validators' errors
  pub invalid_name : String → String
  pub invalid_event : Event → String
  -- `os.MkdirAll`, `os.WriteFile` and `SaveUploadedFile` at a path
  pub mkdir_error : String → Option String
  pub write_error : String → Option String
  pub upload_error : String → Option String
  -- what a file holds after such a write has failed, where the write has come to touch it
  pub left_in : (path content : String) → Option String
  -- `Get` of the pod of a name in the namespace
  pub get_pod_error : String → Option String
  -- `mime.ParseMediaType`: the type, and the parameters
  pub media_type : String → String
  pub media_params : String → Dict String
  pub extensions_by_type : String → List String
  -- `uuid.New().String()`
  pub new_uuid : String

-- `PostServer` with what its handlers change: the controller (nil until it is injected), the report
-- files by their paths, the directories made and the events recorded.
pub record PostServer (p : Prom) : Type 0 where
  pub controller : Option (Controller p)
  pub config : Config
  pub dirs : List String
  pub files : Dict String
  pub recorded : List Recorded

-- the path that `SaveFile` writes to
abbrev pub saved_path : Config → (execution_id name : String) → String
saved_path cfg execution_id name = clean (report_file_name cfg execution_id name)

module _ (p : Prom) (w : Web p) where
  open w use {mkdir_error, write_error, left_in}

  -- `MkReportDir` of the configuration, by the server
  unfoldable pub mk_report_dir :
      PostServer p → (execution_id : String) → PostServer p × Option String
  mk_report_dir s execution_id =
      let dir = report_dir s.config execution_id in
      elim (mkdir_error dir) [
        | some err ↦ (s, some err)
        | none ↦ (record s { dirs = dir ∷ s.dirs }, none)
      ]

  -- a failed write of a file, which may have truncated it or written a part
  abbrev pub leave : PostServer p → (path content : String) → PostServer p
  leave s path content = elim (left_in path content) [
    | none ↦ s
    | some part ↦ record s { files = insert path part s.files }
  ]

  -- `os.WriteFile`
  unfoldable pub write_file : PostServer p → (path content : String) → PostServer p × Option String
  write_file s path content = elim (write_error path) [
    | some err ↦ (leave s path content, some err)
    | none ↦ (record s { files = insert path content s.files }, none)
  ]

  -- `SaveFile`; the name that it returns too is only logged
  unfoldable pub save_file :
      PostServer p → (execution_id name content : String) → PostServer p × Option String
  unfolding mk_report_dir write_file
  save_file s execution_id name content =
      let (s', made) = mk_report_dir s execution_id in
      elim made [
        | some err ↦ (s', some err)
        | none ↦ write_file s' (saved_path s.config execution_id name) content
      ]
