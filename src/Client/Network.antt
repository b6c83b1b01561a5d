-- ===== src/Client/Network.antt =====
-- A connection of the client to the callback server: it hands each post to the handler of its route, and
-- the answer back. Gin, the reading of files and the status texts are parameters.
use batch_job_controller.Base.{ℕ, String, List, [], ◌∷◌, Option, none, some, ◌>>=◌, ◌≡◌, arith}
use batch_job_controller.Base.Dict.{Dict}
use batch_job_controller.Metrics.Prom.{Prom}
use batch_job_controller.Http.Web.{Body, bytes, FormFile, Request, Response, Web, PostServer}
use batch_job_controller.Http.Routes.{Route, api_handler}
use batch_job_controller.Http.Routes.Paths.{
  Gin, IsSegment, registered, node_and_id, path_for, find-path_for,
}
use batch_job_controller.Client.{Encoder, Payload, raw, files, Post, Reply}

-- What lies between the client and the handlers.
pub record Connection : Type 0 where
  -- the path of an address, where the server is reached by it
  pub path_of : String → Option String
  pub gin : Gin
  pub read_file : String → Option String
  -- what `MultipartForm` makes of a body of a content type: the form, and what is left to read
  pub multipart : (content_type body : String) → Option (Dict (List FormFile)) × Body
  pub status_text : ℕ → String

-- the route, the node and the execution of an address
abbrev pub route_of : Connection → (url : String) → Option (Route × String × String)
route_of n url = n.path_of url >>= λ path.
    n.gin.find registered path >>= λ t. some (t.0, (node_and_id (t.1)).0, (node_and_id (t.1)).1)

pub route_of-path_for :
    (n : Connection) (url node id : String) (route : Route)
    → n.path_of url ≡ some (path_for node id route)
    → IsSegment node
    → IsSegment id
    → route_of n url ≡ some (route, node, id)
route_of-path_for n url node id route h is_node is_id =
    let (params, found, named) = find-path_for n.gin node id route is_node is_id in
    ground (arith, h, found, named)

abbrev pub reply_of : Connection → Response → Reply
reply_of n a = record { status_code = a.status; status = n.status_text a.status; text = a.text }

module _ (p : Prom) (w : Web p) (e : Encoder p) (n : Connection) where
  -- the form that is made of the files, if all can be read
  unfoldable pub form_of : Dict String → Option (Dict (List FormFile))
  form_of [] = some []
  form_of ((field, path) ∷ named) = n.read_file path >>= λ content. form_of named >>= λ form.
      some ((field, record { filename = e.base path; content = content } ∷ []) ∷ form)

  abbrev pub with_body : (node execution_id : String) → Post → (body : String) → Request
  with_body node execution_id q body = record {
    node = node;
    execution_id = execution_id;
    body = bytes body;
    form = (n.multipart q.content_type body).0;
    after_form = (n.multipart q.content_type body).1;
    query_name = "";
    content_disposition = q.content_disposition;
    content_type = q.content_type;
  }

  -- the request as the handlers see it
  abbrev pub request_of : (node execution_id : String) → Post → Payload → Option Request
  request_of node execution_id q (raw body) = some (with_body node execution_id q body)
  request_of node execution_id q (files named) = form_of named >>= λ form.
      some (record (with_body node execution_id q "") { form = some form })

  unfoldable pub deliver :
      (now : ℕ)
      → (nil_event : String) → PostServer p
      → Post
      → Option (PostServer p × (Option Reply × Option String))
  unfolding form_of
  deliver now nil_event s q = elim (route_of n q.url) [
    | none ↦ some (s, (none, some "no such host"))
    | some (route, node, execution_id) ↦ elim (request_of node execution_id q q.payload) [
      | none ↦ some (s, (none, some "no such file"))
      | some r ↦ api_handler p w now nil_event route s r >>= λ t.
          some (t.0, (some (reply_of n (t.1)), none))
    ]
  ]

  -- a post of a text that the handler of its route answers
  pub deliver-raw :
      (now : ℕ) (nil_event : String) (s s' : PostServer p) (a : Response) (q : Post) (body : String)
      (route : Route) (node id : String)
      → q.payload ≡ raw body
      → route_of n q.url ≡ some (route, node, id)
      → api_handler p w now nil_event route s (with_body node id q body) ≡ some (s', a)
      → deliver now nil_event s q ≡ some (s', (some (reply_of n a), none))
  unfolding deliver
  deliver-raw now nil_event s s' a q body route node id is routed h = ground (arith, routed, is, h)

  -- and one of files that can be read
  pub deliver-files :
      (now : ℕ) (nil_event : String) (s s' : PostServer p) (a : Response) (q : Post)
      (named : Dict String) (form : Dict (List FormFile)) (route : Route) (node id : String)
      → q.payload ≡ files named
      → form_of named ≡ some form
      → route_of n q.url ≡ some (route, node, id)
      → api_handler p w now nil_event route s (record (with_body node id q "") { form = some form })
        ≡ some (s', a)
      → deliver now nil_event s q ≡ some (s', (some (reply_of n a), none))
  unfolding deliver
  deliver-files now nil_event s s' a q named form route node id is read routed h =
      ground (arith, routed, is, read, h)
