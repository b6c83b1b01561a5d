-- ===== src/Http/Routes/Agreement/Handlers.antt =====
-- The handlers of the callback server against those of the mock server.
use batch_job_controller.Base.{
  ℕ, String, false, not, ◌&&◌, [], ◌∷◌, ◌++◌, Option, none, some, ◌≡◌, ◌⊎◌, inl, inr, refl, sym,
  subst, arith, ◌>>=◌, ◌<>◌, Option-cases, Bool-cases,
}
use batch_job_controller.Config.{pod_name, report_file_name}
use batch_job_controller.Metrics.Prom.{Prom}
use batch_job_controller.Metrics.Collector.{Results}
use batch_job_controller.Lifecycle.Controller.{has_node}
use batch_job_controller.Lifecycle.Outcome.{report_received}
use batch_job_controller.Http.Event.{Event}
use batch_job_controller.Http.Web.{
  FormFile, Request, Response, ok, answer, Web, PostServer, mk_report_dir, save_file,
}
use batch_job_controller.Http.Posts.{
  Answer, finish, post_result_callback, post_result, save_form_files_callback, upload,
  internal_error, save_body_file_callback, post_file, post_event_callback, post_event, middleware,
}
use batch_job_controller.Http.Posts.Recording.{as_recorded}
use batch_job_controller.Http.Routes.{
  Route, results, files, events, mock_config, api_handler, mock_handler,
}
use batch_job_controller.Http.Routes.Agreement.{
  Agrees, AtMostFails, IsOwn, SameNames, agree_by, process_post_result-Agrees,
  process_posted_event-Agrees, process_posted_files-Agrees,
}

module _ (p : Prom) (w : Web p) where
  at_most :
      {S : Type 0} {o : Option (S × Answer)} (o' : Option (S × Answer))
      → o ≡ o'
      → AtMostFails o'
      → AtMostFails o
  at_most o' e h = subst (λ n. AtMostFails n) (sym e) h

  internal : (t : PostServer p × Option String) → AtMostFails (some (internal_error p w t))
  internal (s', none) = tt
  internal (s', some err) = refl

  save_form_files_callback_fails :
      (s : PostServer p) (id node : String) (f : FormFile)
      → AtMostFails (save_form_files_callback p w s id node f)
  unfolding save_form_files_callback
  save_form_files_callback_fails s id node f = elim (Option-cases ((mk_report_dir p w s id).1)) [
    | inr (err, n) ↦
        at_most {o = save_form_files_callback p w s id node f}
          (some ((mk_report_dir p w s id).0, some (answer 500 err))) (ground arith) refl
    | inl n ↦
        let s' = (mk_report_dir p w s id).0 in
        let t = upload p w s' (report_file_name s.config id (node <> "-" <> f.filename)) f in
        at_most {o = save_form_files_callback p w s id node f} (some (internal_error p w t))
          (ground arith) (internal t)
  ]

  module _ (s : PostServer p) where
    post_result_callback_fails :
        (now : ℕ) (rs : Results p) (node id body : String)
        → AtMostFails (post_result_callback p w now s rs node id body)
    unfolding post_result_callback
    post_result_callback_fails now rs node id body =
        let (s', saved) = save_file p w s id (node <> ".json") body in
        elim (Option-cases ((save_file p w s id (node <> ".json") body).1)) [
          | inr (err, n) ↦ at_most (some (s', some (answer 500 err))) (ground arith) refl
          | inl n ↦ elim (Option-cases s'.controller) [
            | inl m ↦ at_most none (ground arith) tt
            | inr (c, m) ↦ elim (Option-cases (report_received p c id node false rs now)) [
              | inl k ↦ at_most none (ground arith) tt
              | inr (c', k) ↦
                  at_most (some (record s' { controller = some c' }, none)) (ground arith) tt
            ]
          ]
        ]

    save_body_file_callback_fails :
        (id node name body : String) → AtMostFails (save_body_file_callback p w s id node name body)
    unfolding save_body_file_callback
    save_body_file_callback_fails id node name body =
        internal (save_file p w s id (node <> "-" <> name) body)

    post_event_callback-Agrees :
        (pod : String) (e : Event)
        → Agrees p w (post_event_callback p w s pod e >>= λ t. some (finish t)) (some (tt, ok))
    unfolding post_event_callback
    post_event_callback-Agrees pod e = elim (Option-cases (w.get_pod_error pod)) [
      | inl n ↦
          let s' : PostServer p = record s {
            recorded = s.recorded ++ as_recorded p w pod e ∷ [];
          } in
          agree_by p w {o' = some (s', ok)} {m' = some (tt, ok)} (ground arith) refl (inr refl)
      | inr (err, n) ↦
          agree_by p w {o' = some (s, answer 404 ("error finding pod: " <> err))}
            {m' = some (tt, ok)} (ground arith) refl (inl (inr (inl refl)))
    ]

    -- behind the middleware
    admitted :
        (next : PostServer p → Request → Option (PostServer p × Response)) (r : Request)
        (m : Option (Unit {0} × Response))
        → Agrees p w (next s r) m
        → Agrees p w (middleware p w next s r) m
    unfolding middleware
    admitted next r m h = elim (Option-cases s.controller) [
      | inl n ↦ agree_by p w {o' = next s r} {m' = m} (ground arith) refl h
      | inr (c, n) ↦
          elim (Bool-cases (not (has_node p c r.node r.execution_id) && not s.config.dev_mode)) [
            | inl y ↦
                agree_by p w {o' = some (s, answer 406 "node / execution ID not allowed")} {m' = m}
                  (ground arith) refl (inl (inl refl))
            | inr y ↦ agree_by p w {o' = next s r} {m' = m} (ground arith) refl h
          ]
    ]

    handler-Agrees :
        (now : ℕ) (nil_event : String) (route : Route) (r : Request)
        → SameNames p w s.config.metrics mock_config.metrics
        → Agrees p w (api_handler p w now nil_event route s r) (mock_handler p w nil_event route r)
    unfolding api_handler mock_handler post_result post_file post_event
    handler-Agrees now nil_event results r same = admitted (post_result p w now) r _ (
        process_post_result-Agrees p w s.config s r (post_result_callback p w now)
          (post_result_callback_fails now) same)
    handler-Agrees now nil_event files r same = admitted (post_file p w) r _ (
        process_posted_files-Agrees p w s.config s r (save_form_files_callback p w)
          (save_body_file_callback p w)
          (λ s' f. save_form_files_callback_fails s' r.execution_id r.node f)
          (λ name body. save_body_file_callback_fails r.execution_id r.node name body))
    handler-Agrees now nil_event events r same = admitted (post_event p w nil_event) r _ (
        process_posted_event-Agrees p w s.config s r nil_event (post_event_callback p w)
          (λ e. post_event_callback-Agrees (pod_name s.config r.node r.execution_id) e))

    -- On every route, where the callback server answers a request without a panic, the mock server gives
    -- the same answer, or the answer of the callback server is 406, 404 or 500. The names of metrics have to
    -- be valid with the configured prefix exactly where they are with the empty one.
    pub mock_handler-same :
        (s' : PostServer p) (a : Response) (now : ℕ) (nil_event : String) (route : Route)
        (r : Request)
        → SameNames p w s.config.metrics mock_config.metrics
        → api_handler p w now nil_event route s r ≡ some (s', a)
        → IsOwn a ⊎ (mock_handler p w nil_event route r ≡ some (tt, a))
    mock_handler-same s' a now nil_event route r same e =
        subst
          (λ (o : Option (PostServer p × Response)).
            Agrees p w o (mock_handler p w nil_event route r))
          e (handler-Agrees now nil_event route r same)
