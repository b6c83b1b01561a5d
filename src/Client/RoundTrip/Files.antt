-- ===== src/Client/RoundTrip/Files.antt =====
-- The files that the client sends are the files that the callback server stores.
use batch_job_controller.Base.{
  ℕ, String, Bool, true, false, not, ◌&&◌, ◌||◌, List, [], ◌∷◌, ◌++◌, map, all, Option, none, some,
  ◌≡◌, ◌∙◌, refl, sym, ap, subst, arith, ◌>>=◌, ◌<>◌, ◌==◌, append-nil, append_assoc, if◌then◌else◌,
}
use batch_job_controller.Base.Dict.{Dict, lookup, insert, has}
use batch_job_controller.Config.{Config, report_dir}
use batch_job_controller.Config.Load.{Environment}
use batch_job_controller.Job.{Templates, Container, CustomPodEnv, callback_url, merge_env}
use batch_job_controller.Metrics.Prom.{Prom}
use batch_job_controller.Metrics.Names.{get_text}
use batch_job_controller.Lifecycle.State.{Controller}
use batch_job_controller.Lifecycle.Controller.{has_node}
use batch_job_controller.Http.Web.{
  bytes, FormFile, Request, Response, ok, Web, PostServer, saved_path,
}
use batch_job_controller.Http.Posts.{body_file_name, post_file, middleware}
use batch_job_controller.Http.Posts.Storing.{store_all, all_files, post_file_form, post_file_body}
use batch_job_controller.Http.Routes.{files, api_handler}
use batch_job_controller.Client.{
  Encoder, Payload, raw, json_type, Post, Reply, Transport, handle_files, after_files,
  default_client, named_files, send_as_file, send_files,
}
use batch_job_controller.Http.Routes.Paths.{IsSegment, path_for}
use batch_job_controller.Client.Network.{
  route_of-path_for, Connection, reply_of, form_of, with_body, deliver, deliver-raw, deliver-files,
}
use batch_job_controller.Client.RoundTrip.{Sees, file_address, handled}

-- The paths and their contents, where all can be read.
abbrev pub AreRead : Connection → List (String × String) → Type 0
AreRead n [] = Unit
AreRead n ((path, content) ∷ sent) = (n.read_file path ≡ some content) × AreRead n sent

module _ (base : String → String) where
  -- Is no base name there twice?
  abbrev pub distinct_bases : List (String × String) → Bool
  distinct_bases [] = true
  distinct_bases (f ∷ sent) = all (λ g. not (base f.0 == base g.0)) sent && distinct_bases sent

  abbrev pub as_files : List (String × String) → List FormFile
  as_files = map (λ f. record { filename = base f.0; content = f.1 })

  abbrev named : List (String × String) → Dict String
  named = map (λ f. (base f.0, f.0))

  abbrev as_form : List (String × String) → Dict (List FormFile)
  as_form = map (λ f. (base f.0, record { filename = base f.0; content = f.1 } ∷ []))

  -- is no base name a key?
  abbrev are_new : Dict String → List (String × String) → Bool
  are_new acc = all (λ g. not (has (base g.0) acc))

  insert-new :
      (k v : String) (acc : Dict String) → has k acc ≡ false → insert k v acc ≡ acc ++ (k, v) ∷ []
  insert-new k v [] h = refl
  insert-new k v ((j, w) ∷ acc) h = ground (arith, insert-new k v acc)

  has-append :
      (k j v : String) (acc : Dict String) → has k (acc ++ (j, v) ∷ []) ≡ (has k acc || j == k)
  has-append k j v [] = ground arith
  has-append k j v ((i, w) ∷ acc) = ground (arith, has-append k j v acc)

  are_new-append :
      (acc : Dict String) (f : String × String) (sent : List (String × String))
      → are_new acc sent ≡ true
      → all (λ g. not (base f.0 == base g.0)) sent ≡ true
      → are_new (acc ++ (base f.0, f.0) ∷ []) sent ≡ true
  are_new-append acc f [] h d = refl
  are_new-append acc f (g ∷ sent) h d =
      ground (arith, are_new-append acc f sent, has-append (base g.0) (base f.0) f.0 acc)

  all_files-as_form : (sent : List (String × String)) → all_files (as_form sent) ≡ as_files sent
  all_files-as_form [] = refl
  all_files-as_form (f ∷ sent) =
      ap (λ (l : List FormFile). record { filename = base f.0; content = f.1 } ∷ l)
        (all_files-as_form sent)

module _ (p : Prom) (w : Web p) (e : Encoder p) (n : Connection) where
  named_files-named :
      (sent : List (String × String)) (acc : Dict String)
      → are_new e.base acc sent ≡ true
      → distinct_bases e.base sent ≡ true
      → named_files p e (map (λ f. f.0) sent) acc ≡ acc ++ named e.base sent
  unfolding named_files
  named_files-named [] acc h d = sym (append-nil acc)
  named_files-named (f ∷ sent) acc h d =
      let fresh : has (e.base f.0) acc ≡ false = ground arith in
      let rest =
        named_files-named sent (acc ++ (e.base f.0, f.0) ∷ [])
          (are_new-append e.base acc f sent (ground arith) (ground arith)) (ground arith) in
      ap (λ (d : Dict String). named_files p e (map (λ g. g.0) sent) d)
        (insert-new e.base (e.base f.0) f.0 acc fresh)
      ∙ (rest ∙ append_assoc acc ((e.base f.0, f.0) ∷ []) (named e.base sent))

  form_of-named :
      (sent : List (String × String))
      → AreRead n sent
      → form_of p w e n (named e.base sent) ≡ some (as_form e.base sent)
  unfolding form_of
  form_of-named [] h = refl
  form_of-named ((path, content) ∷ sent) (h, hs) = rw (h, form_of-named sent hs) refl

  known-middleware :
      (next : PostServer p → Request → Option (PostServer p × Response)) (s : PostServer p)
      (c : Controller p) (r : Request)
      → s.controller ≡ some c
      → has_node p c r.node r.execution_id ≡ true
      → middleware p w next s r ≡ next s r
  unfolding middleware
  known-middleware next s c r known has = ground (arith, known, has)

  all_new : (sent : List (String × String)) → are_new e.base [] sent ≡ true
  all_new [] = refl
  all_new (f ∷ sent) = all_new sent

  handled_files :
      (post : Transport (PostServer p)) (s' : PostServer p)
      (o : Option (PostServer p × (Option Reply × Option String)))
      → o ≡ some (s', (some (reply_of n ok), none))
      → (o >>= after_files p e post) ≡ some (s', none)
  unfolding handle_files
  handled_files post s' o h = rw h refl

  module _ (t : Templates) (now : ℕ) (nil_event : String) (env : Environment) (retry_count : ℕ)
      (cfg : Config) (node id address : String) (k : Container) (extender : List CustomPodEnv) where
    -- A pod that sends files of distinct base names with the default client, in the environment that the
    -- controller has made for its node and execution, gets no error, and the server has stored exactly these
    -- files, with their contents, each under the node's name and its base name. The files have to be
    -- readable, the address to lead to the server with its path, the node and the execution to be segments of one, the controller to know the node and the
    -- execution, and the directory and the files to be writable.
    pub send_files-stored :
        (s : PostServer p) (c : Controller p) (sent : List (String × String))
        → Sees env (merge_env t cfg node id address k extender)
        → n.path_of (callback_url t cfg node id address "/file") ≡ some (path_for node id files)
        → IsSegment node
        → IsSegment id
        → AreRead n sent
        → distinct_bases e.base sent ≡ true
        → s.controller ≡ some c
        → has_node p c node id ≡ true
        → w.mkdir_error (report_dir s.config id) ≡ none
        → ((path : String) → w.upload_error path ≡ none)
        → (s' : PostServer p) × (send_files p e
              (deliver p w e n now nil_event)
              (default_client env retry_count)
              s
              (map (λ f. f.0) sent)
            ≡ some (s', none))
          × (s'.files ≡ store_all s.config id node (as_files e.base sent) s.files)
          × (s'.controller ≡ some c)
    unfolding send_files api_handler
    send_files-stored s c sent sees routed is_node is_id read distinct known has m u =
        let form = as_form e.base sent in
        let q : Post = record {
          url = (default_client env retry_count).file_url;
          content_type = json_type;
          content_disposition = "";
          payload = Payload.files (named_files p e (map (λ f. f.0) sent) []);
        } in
        let r : Request = record (with_body p w e n node id q "") { form = some form } in
        let (s', a, stored, kept, recorded) = post_file_form p w s r form refl m u in
        let url =
          file_address p w e n t now nil_event env retry_count cfg node id address k extender
            sees in
        let opened : form_of p w e n (named_files p e (map (λ f. f.0) sent) []) ≡ some form =
          ap (λ (d : Dict String). form_of p w e n d)
            (named_files-named sent [] (all_new sent) distinct)
          ∙ form_of-named sent read in
        let delivered =
          deliver-files p w e n now nil_event s s' ok q _ form files node id refl opened
            (route_of-path_for n _ node id files (ap (λ (a : String). n.path_of a) url ∙ routed)
              is_node is_id)
            (known-middleware (post_file p w) s c r known has ∙ a) in
        (
          s',
          handled_files (deliver p w e n now nil_event) s' _ delivered,
          stored
              ∙ ap (λ (l : List FormFile). store_all s.config id node l s.files)
                  (all_files-as_form e.base sent),
          kept ∙ known,
        )

    -- A pod that sends a text as a file of a name with the default client, in the environment that the controller
    -- has made for its node and execution, gets no error; the text is in the file of the node's name and this
    -- name, and the other files stay. The name must not be empty and the server has to read it from the header as
    -- the client writes it, `MultipartForm` to find no form in the body and leave it, since the content type is
    -- not that of a form, the address to lead to the server with its path, the node and the execution to be
    -- segments of one, the controller to know the node and the execution, and the directory and the file to be
    -- writable.
    pub send_as_file-stored :
        (s : PostServer p) (c : Controller p) (name text content_type : String)
        → Sees env (merge_env t cfg node id address k extender)
        → n.path_of (callback_url t cfg node id address "/file") ≡ some (path_for node id files)
        → IsSegment node
        → IsSegment id
        → get_text "filename" (w.media_params ("attachment;filename=" <> e.quote name)) ≡ name
        → (name == "") ≡ false
        → n.multipart (if content_type == "" then json_type else content_type) text
          ≡ (none, bytes text)
        → s.controller ≡ some c
        → has_node p c node id ≡ true
        → w.mkdir_error (report_dir s.config id) ≡ none
        → w.write_error (saved_path s.config id (node <> "-" <> name)) ≡ none
        → let path = saved_path s.config id (node <> "-" <> name) in
          (s' : PostServer p) × (send_as_file p e
              (deliver p w e n now nil_event)
              (default_client env retry_count)
              s
              name
              text
              content_type
            ≡ some (s', none))
          × ((other : String)
              → lookup other s'.files ≡ (if path == other then some text else lookup other s.files))
    unfolding send_as_file api_handler body_file_name
    send_as_file-stored s c name text content_type sees routed is_node is_id read named no_form
          known has m u =
        let q : Post = record {
          url = (default_client env retry_count).file_url;
          content_type = if content_type == "" then json_type else content_type;
          content_disposition = "attachment;filename=" <> e.quote name;
          payload = raw text;
        } in
        let r : Request = with_body p w e n node id q text in
        let is : body_file_name p w r ≡ name = ground (arith, read, named) in
        let (s', a, stored) = post_file_body p w s r text (ground arith) (ground arith) m (
          subst (λ (f : String). w.write_error (saved_path s.config id (node <> "-" <> f)) ≡ none)
            (sym is) u) in
        let url =
          file_address p w e n t now nil_event env retry_count cfg node id address k extender
            sees in
        (
          s',
          handled p w e n t now nil_event s s' q (
              deliver-raw p w e n now nil_event s s' ok q text files node id refl
                (route_of-path_for n _ node id files (ap (λ (a : String). n.path_of a) url ∙ routed)
                  is_node is_id)
                (known-middleware (post_file p w) s c r known has ∙ a)),
          λ other.
              subst
                (λ (f : String). lookup other s'.files ≡ (
                  if saved_path s.config id (node <> "-" <> f) == other
                  then some text
                  else lookup other s.files))
                is (stored other),
        )
