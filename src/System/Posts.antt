-- ===== src/System/Posts.antt =====
-- What a post to the callback server does to the controller: a report is received, and nothing else happens.
use batch_job_controller.Base.{
  ℕ, String, false, not, ◌&&◌, List, [], ◌∷◌, Option, none, some, ◌≡◌, ◌⊎◌, ◌∙◌, inl, inr, refl,
  sym, subst, arith, ◌>>=◌, ◌<>◌, Option-cases, Bool-cases,
}
use batch_job_controller.Base.Dict.{Dict}
use batch_job_controller.Metrics.Prom.{Prom}
use batch_job_controller.Metrics.Collector.{Results}
use batch_job_controller.Lifecycle.State.{Controller}
use batch_job_controller.Lifecycle.Controller.{has_node}
use batch_job_controller.Lifecycle.Outcome.{report_received}
use batch_job_controller.Http.Web.{
  Body, bytes, unreadable, FormFile, Request, Response, Decoded, failed, null, value, Recorded, Web,
  PostServer, mk_report_dir, write_file, save_file,
}
use batch_job_controller.Http.Posts.{
  Answer, finish, save_each, save_fields, validate_results, process_post_result,
  post_result_callback, post_result, upload, internal_error, save_form_files_callback,
  save_body_file_callback, body_file_name, process_posted_files, post_file, post_event, middleware,
}
use batch_job_controller.Http.Posts.Recording.{recording, event_of, post_event_lem}
use batch_job_controller.Http.Routes.{Route, results, files, events, api_handler}

module _ (p : Prom) (w : Web p) where
  -- A run of a handler that ends keeps the controller.
  abbrev Keeps : {A : Type 0} → PostServer p → Option (PostServer p × A) → Type 0
  Keeps s none = Unit
  Keeps s (some (s', a)) = s'.controller ≡ s.controller

  keeps :
      {A : Type 0} (s : PostServer p) {o : Option (PostServer p × A)}
      (o' : Option (PostServer p × A))
      → o ≡ o'
      → Keeps s o'
      → Keeps s o
  keeps {A} s {o} o' e h = subst (λ (n : Option (PostServer p × A)). Keeps s n) (sym e) h

  save_file-controller :
      (s : PostServer p) (id name content : String)
      → (save_file p w s id name content).0.controller ≡ s.controller
  unfolding save_file mk_report_dir write_file
  save_file-controller s id name content = ground arith

  Keeps-next :
      (s : PostServer p) (o : Option (PostServer p × Answer))
      (k : PostServer p → Option (PostServer p × Answer))
      → Keeps s o
      → ((s' : PostServer p) → Keeps s' (k s'))
      → Keeps s (o >>= λ t. elim (t.1) [ some r ↦ some (t.0, some r) | none ↦ k (t.0) ])
  Keeps-next s none k h g = tt
  Keeps-next s (some (s', none)) k h g = on (k s') (g s')
    where
      on : (o : Option (PostServer p × Answer)) → Keeps s' o → Keeps s o
      on none q = tt
      on (some (s'', a)) q = q ∙ h
  Keeps-next s (some (s', some r)) k h g = h

  finish-Keeps :
      (s : PostServer p) (o : Option (PostServer p × Answer))
      → Keeps s o
      → Keeps s (o >>= λ t. some (finish t))
  finish-Keeps s none h = tt
  finish-Keeps s (some (s', none)) h = h
  finish-Keeps s (some (s', some r)) h = h

  internal_error-Keeps :
      (s : PostServer p) (t : PostServer p × Option String)
      → t.0.controller ≡ s.controller
      → Keeps s (some (internal_error p w t))
  internal_error-Keeps s (s', none) h = h
  internal_error-Keeps s (s', some err) h = h

  save_form_files_callback-Keeps :
      (id node : String) (s : PostServer p) (f : FormFile)
      → Keeps s (save_form_files_callback p w s id node f)
  unfolding save_form_files_callback mk_report_dir upload
  save_form_files_callback-Keeps id node s f = ground arith

  save_each-Keeps :
      (id node : String) (s : PostServer p) (fs : List FormFile)
      → Keeps s (save_each (λ s'. save_form_files_callback p w s' id node) s fs)
  unfolding save_each
  save_each-Keeps id node s [] = refl
  save_each-Keeps id node s (f ∷ fs) =
      Keeps-next s (save_form_files_callback p w s id node f)
        (λ s'. save_each (λ s''. save_form_files_callback p w s'' id node) s' fs)
        (save_form_files_callback-Keeps id node s f) (λ s'. save_each-Keeps id node s' fs)

  save_fields-Keeps :
      (id node : String) (s : PostServer p) (form : Dict (List FormFile))
      → Keeps s (save_fields (λ s'. save_form_files_callback p w s' id node) s form)
  unfolding save_fields
  save_fields-Keeps id node s [] = refl
  save_fields-Keeps id node s ((field, fs) ∷ form) =
      Keeps-next s (save_each (λ s'. save_form_files_callback p w s' id node) s fs)
        (λ s'. save_fields (λ s''. save_form_files_callback p w s'' id node) s' form)
        (save_each-Keeps id node s fs) (λ s'. save_fields-Keeps id node s' form)

  post_file-Keeps : (s : PostServer p) (r : Request) → Keeps s (post_file p w s r)
  unfolding post_file process_posted_files save_body_file_callback
  post_file-Keeps s r = by_form r.form refl
    where
      by_body : (b : Body) → r.form ≡ none → r.after_form ≡ b → Keeps s (post_file p w s r)
      by_body (unreadable err) f b =
          keeps s (some (s, record { status = 400; text = err })) (ground arith) refl
      by_body (bytes body) f b =
          let t = save_file p w s r.execution_id (r.node <> "-" <> body_file_name p w r) body in
          keeps s (some (internal_error p w t) >>= λ u. some (finish u)) (ground arith) (
            finish-Keeps s (some (internal_error p w t)) (
              internal_error-Keeps s t (
                save_file-controller s r.execution_id (r.node <> "-" <> body_file_name p w r)
                  body)))

      by_form : (f : Option (Dict (List FormFile))) → r.form ≡ f → Keeps s (post_file p w s r)
      by_form none f = by_body r.after_form f refl
      by_form (some form) f =
          keeps s
            (save_fields (λ s'. save_form_files_callback p w s' r.execution_id r.node) s form
              >>= λ t. some (finish t))
            (ground arith)
            (finish-Keeps s
              (save_fields (λ s'. save_form_files_callback p w s' r.execution_id r.node) s form)
              (save_fields-Keeps r.execution_id r.node s form))

  post_event-Keeps :
      (nil_event : String) (s : PostServer p) (r : Request) → Keeps s (post_event p w nil_event s r)
  post_event-Keeps nil_event s r =
      let (resp, (answered, told)) = post_event_lem p w nil_event s r in
      keeps s (some (recording p w s (event_of p w s r), resp)) answered
        (recorded (event_of p w s r))
    where
      recorded : (e : Option Recorded) → (recording p w s e).controller ≡ s.controller
      recorded none = refl
      recorded (some e) = refl

  -- What a handler makes of the controller: nothing, or it receives a report.
  abbrev pub Receives : (now : ℕ) → Controller p → Request → PostServer p → Type 0
  Receives now c r s' =
      (s'.controller ≡ some c)
      ⊎ ((rs : Results p) × (c' : Controller p) × (report_received p c r.execution_id r.node false
              rs now
            ≡ some c')
          × (s'.controller ≡ some c'))

  abbrev AllReceive :
      {A : Type 0} → (now : ℕ) → Controller p → Request → Option (PostServer p × A) → Type 0
  AllReceive now c r none = Unit
  AllReceive now c r (some (s', a)) = Receives now c r s'

  kept :
      {A : Type 0} (now : ℕ) (c : Controller p) (r : Request) (s : PostServer p)
      (o : Option (PostServer p × A))
      → s.controller ≡ some c
      → Keeps s o
      → AllReceive now c r o
  kept now c r s none known h = tt
  kept now c r s (some (s', a)) known h = inl (h ∙ known)

  finish-AllReceive :
      (now : ℕ) (c : Controller p) (r : Request) (o : Option (PostServer p × Answer))
      → AllReceive now c r o
      → AllReceive now c r (o >>= λ t. some (finish t))
  finish-AllReceive now c r none h = tt
  finish-AllReceive now c r (some (s', none)) h = h
  finish-AllReceive now c r (some (s', some a)) h = h

  module _ (now : ℕ) (c : Controller p) (s : PostServer p) (known : s.controller ≡ some c)
      (r : Request) where
    become :
        {A : Type 0} (o o' : Option (PostServer p × A))
        → o ≡ o'
        → AllReceive now c r o'
        → AllReceive now c r o
    become o o' e h = subst (λ n. AllReceive now c r n) (sym e) h

    callback-AllReceive :
        (rs : Results p) (body : String)
        → AllReceive now c r (post_result_callback p w now s rs r.node r.execution_id body)
    unfolding post_result_callback
    callback-AllReceive rs body =
        let s' = (save_file p w s r.execution_id (r.node <> ".json") body).0 in
        let same : s'.controller ≡ some c =
          save_file-controller s r.execution_id (r.node <> ".json") body ∙ known in
        elim (Option-cases ((save_file p w s r.execution_id (r.node <> ".json") body).1)) [
          | inr (err, n) ↦
              become _ (some (s', some (record { status = 500; text = err }))) (ground arith)
                (inl same)
          | inl n ↦ elim (Option-cases (report_received p c r.execution_id r.node false rs now)) [
            | inl m ↦ become _ none (ground (arith, same)) tt
            | inr (c', m) ↦
                become _ (some (record s' { controller = some c' }, none)) (ground (arith, same))
                  (inr (rs, c', m, refl))
          ]
        ]

    post_result-AllReceive : AllReceive now c r (post_result p w now s r)
    unfolding post_result process_post_result
    post_result-AllReceive = by_body r.body refl
      where
        by_valid :
            (body : String) (rs : Results p) (v : Option String)
            → r.body ≡ bytes body
            → w.decode_results body ≡ value rs
            → validate_results p w rs s.config.metrics ≡ v
            → AllReceive now c r (post_result p w now s r)
        by_valid body rs (some err) b d v =
            become _ (some (s, record { status = 400; text = err })) (ground arith) (inl known)
        by_valid body rs none b d v =
            become _
              (post_result_callback p w now s rs r.node r.execution_id body >>= λ t.
                some (finish t))
              (ground arith) (finish-AllReceive now c r _ (callback-AllReceive rs body))

        by_decoded :
            (body : String) (d : Decoded (Results p))
            → r.body ≡ bytes body
            → w.decode_results body ≡ d
            → AllReceive now c r (post_result p w now s r)
        by_decoded body (failed err) b d =
            become _ (some (s, record { status = 400; text = err })) (ground arith) (inl known)
        by_decoded body null b d = become _ none (ground arith) tt
        by_decoded body (value rs) b d =
            by_valid body rs (validate_results p w rs s.config.metrics) b d refl

        by_body : (b : Body) → r.body ≡ b → AllReceive now c r (post_result p w now s r)
        by_body (unreadable err) b =
            become _ (some (s, record { status = 400; text = err })) (ground arith) (inl known)
        by_body (bytes body) b = by_decoded body (w.decode_results body) b refl

    admitted :
        (next : PostServer p → Request → Option (PostServer p × Response))
        → AllReceive now c r (next s r)
        → AllReceive now c r (middleware p w next s r)
    unfolding middleware
    admitted next h =
        elim (Bool-cases (not (has_node p c r.node r.execution_id) && not s.config.dev_mode)) [
          | inl y ↦
              become _ (some (s, record { status = 406; text = "node / execution ID not allowed" }))
                (ground (arith, known)) (inl known)
          | inr y ↦ become _ (next s r) (ground (arith, known)) h
        ]

    api_handler-AllReceive :
        (nil_event : String) (route : Route)
        → AllReceive now c r (api_handler p w now nil_event route s r)
    unfolding api_handler
    api_handler-AllReceive nil_event results = admitted (post_result p w now) post_result-AllReceive
    api_handler-AllReceive nil_event files =
        admitted (post_file p w) (kept now c r s _ known (post_file-Keeps s r))
    api_handler-AllReceive nil_event events =
        admitted (post_event p w nil_event)
          (kept now c r s _ known (post_event-Keeps nil_event s r))

    -- A handler that ends has left the controller as it was, or has let it receive a report of the node and
    -- the execution of the request with no processing error.
    pub api_handler-Receives :
        (s' : PostServer p) (a : Response) (nil_event : String) (route : Route)
        → api_handler p w now nil_event route s r ≡ some (s', a)
        → Receives now c r s'
    api_handler-Receives s' a nil_event route e =
        subst (λ (o : Option (PostServer p × Response)). AllReceive now c r o) e
          (api_handler-AllReceive nil_event route)
