-- ===== src/Http/Routes/Agreement.antt =====
-- Where the mock server answers as the callback server does.
pub mod Handlers
use batch_job_controller.Base.{
  ℕ, String, Bool, true, false, not, ◌&&◌, List, [], ◌∷◌, ◌++◌, Option, none, some, ◌≡◌, ◌⊎◌, inl,
  inr, refl, sym, ap, subst, arith, ◌>>=◌, ◌<>◌, Option-cases, Bool-cases,
}
use batch_job_controller.Base.Dict.{Dict, keys}
use batch_job_controller.Config.{Config, Metrics, name_for, pod_name, report_file_name}
use batch_job_controller.Metrics.Prom.{Prom}
use batch_job_controller.Metrics.Collector.{Results}
use batch_job_controller.Lifecycle.Controller.{has_node}
use batch_job_controller.Lifecycle.Outcome.{report_received}
use batch_job_controller.Http.Event.{Event, validate}
use batch_job_controller.Http.Web.{
  Body, bytes, unreadable, FormFile, Request, Response, ok, answer, Decoded, failed, null, value,
  Web, PostServer, mk_report_dir, save_file,
}
use batch_job_controller.Http.Posts.{
  Answer, finish, save_each, save_fields, first_invalid, validate_results, process_post_result,
  post_result_callback, post_result, body_file_name, process_posted_files, save_form_files_callback,
  upload, internal_error, save_body_file_callback, post_file, process_posted_event,
  post_event_callback, post_event, middleware,
}
use batch_job_controller.Http.Posts.Recording.{as_recorded}
use batch_job_controller.Http.Routes.{
  Route, results, files, events, mock_config, api_handler, mock_post_result, mock_post_file,
  mock_post_event, mock_handler,
}

-- The answers that only the callback server gives: the node is not let in, the pod of an event is not
-- found, or something could not be stored.
abbrev pub IsOwn : Response → Type 0
IsOwn a = (a.status ≡ 406) ⊎ ((a.status ≡ 404) ⊎ (a.status ≡ 500))

-- A callback ends with no error, or with 500.
abbrev AtMostFails : {S : Type 0} → Option (S × Answer) → Type 0
AtMostFails none = Unit
AtMostFails (some (s, none)) = Unit
AtMostFails (some (s, some r)) = r.status ≡ 500

AtMostFails-next :
    {S : Type 0} (o : Option (S × Answer)) (k : S → Option (S × Answer))
    → AtMostFails o
    → ((s : S) → AtMostFails (k s))
    → AtMostFails (o >>= λ t. elim (t.1) [ some r ↦ some (t.0, some r) | none ↦ k (t.0) ])
AtMostFails-next none k h g = tt
AtMostFails-next (some (s, none)) k h g = g s
AtMostFails-next (some (s, some r)) k h g = h

module _ {S : Type 0} (callback : S → FormFile → Option (S × Answer))
    (fails : (s : S) (f : FormFile) → AtMostFails (callback s f)) where
  save_each_fails : (s : S) (fs : List FormFile) → AtMostFails (save_each callback s fs)
  unfolding save_each
  save_each_fails s [] = tt
  save_each_fails s (f ∷ fs) =
      AtMostFails-next (callback s f) (λ s'. save_each callback s' fs) (fails s f)
        (λ s'. save_each_fails s' fs)

  save_fields_fails :
      (s : S) (form : Dict (List FormFile)) → AtMostFails (save_fields callback s form)
  unfolding save_fields
  save_fields_fails s [] = tt
  save_fields_fails s ((field, fs) ∷ form) =
      AtMostFails-next (save_each callback s fs) (λ s'. save_fields callback s' form)
        (save_each_fails s fs) (λ s'. save_fields_fails s' form)

-- a callback that does nothing ends with no error for every form
nothing_each :
    {S : Type 0} (s : S) (fs : List FormFile)
    → save_each (λ (s' : S) (f : FormFile). some (s', none)) s fs ≡ some (s, none)
unfolding save_each
nothing_each s [] = refl
nothing_each s (f ∷ fs) = nothing_each s fs

nothing_fields :
    {S : Type 0} (s : S) (form : Dict (List FormFile))
    → save_fields (λ (s' : S) (f : FormFile). some (s', none)) s form ≡ some (s, none)
unfolding save_fields
nothing_fields s [] = refl
nothing_fields s ((field, fs) ∷ form) = rw (nothing_each s fs) (nothing_fields s form)

module _ (p : Prom) (w : Web p) where
  -- The names of metrics are valid with one prefix where they are with the other.
  abbrev pub SameNames : Metrics → Metrics → Type 0
  SameNames m n =
      (name : String)
      → w.is_valid_metric_name (name_for m name) ≡ w.is_valid_metric_name (name_for n name)

  first_invalid-same :
      (m n : Metrics) (names : List String)
      → SameNames m n
      → first_invalid p w m names ≡ first_invalid p w n names
  first_invalid-same m n [] same = refl
  first_invalid-same m n (name ∷ names) same =
      rw (same name, first_invalid-same m n names same) refl

  validate_results-same :
      (rs : Results p) (m n : Metrics)
      → SameNames m n
      → validate_results p w rs m ≡ validate_results p w rs n
  unfolding validate_results
  validate_results-same [] m n same = refl
  validate_results-same (r ∷ rs) m n same =
      ap (λ (o : Option String). elim o [ none ↦ none | some name ↦ some (w.invalid_name name) ])
        (first_invalid-same m n (keys (r ∷ rs)) same)

  -- the mock handler answers the same, or the answer is one of the callback server's own
  abbrev Agrees : {S : Type 0} → Option (S × Response) → Option (Unit {0} × Response) → Type 0
  Agrees none m = Unit
  Agrees (some (s, a)) m = IsOwn a ⊎ (m ≡ some (tt, a))

  finished :
      {S : Type 0} (o : Option (S × Answer))
      → AtMostFails o
      → Agrees (o >>= λ t. some (finish t)) (some (tt, ok))
  finished none h = tt
  finished (some (s, none)) h = inr refl
  finished (some (s, some r)) h = inl (inr (inr h))

  agree_by :
      {S : Type 0} {o o' : Option (S × Response)} {m m' : Option (Unit {0} × Response)}
      → o ≡ o'
      → m ≡ m'
      → Agrees o' m'
      → Agrees o m
  agree_by {S} {o} {o'} {m} {m'} e f h =
      subst (λ (n : Option (Unit {0} × Response)). Agrees o n) (sym f)
        (subst (λ (n : Option (S × Response)). Agrees n m') (sym e) h)

  module _ {S : Type 0} (cfg : Config) (s : S) (r : Request) where
    process_post_result-Agrees :
        (callback : S → Results p → (node execution_id body : String) → Option (S × Answer))
        → ((rs : Results p) (node id body : String) → AtMostFails (callback s rs node id body))
        → SameNames cfg.metrics mock_config.metrics
        → Agrees (process_post_result p w cfg callback s r) (mock_post_result p w r)
    unfolding process_post_result mock_post_result
    process_post_result-Agrees callback fails same = by_body r.body refl
      where
        by_valid :
            (body : String) (rs : Results p) (v : Option String)
            → r.body ≡ bytes body
            → w.decode_results body ≡ value rs
            → validate_results p w rs cfg.metrics ≡ v
            → Agrees (process_post_result p w cfg callback s r) (mock_post_result p w r)
        by_valid body rs (some err) e d v =
            agree_by {o' = some (s, answer 400 err)} {m' = some (tt, answer 400 err)} (ground arith)
              (ground (arith, validate_results-same rs cfg.metrics mock_config.metrics same))
              (inr refl)
        by_valid body rs none e d v =
            agree_by {o' = callback s rs r.node r.execution_id body >>= λ t. some (finish t)}
              {m' = some (tt, ok)} (ground arith)
              (ground (arith, validate_results-same rs cfg.metrics mock_config.metrics same))
              (finished (callback s rs r.node r.execution_id body)
                (fails rs r.node r.execution_id body))

        by_decoded :
            (body : String) (d : Decoded (Results p))
            → r.body ≡ bytes body
            → w.decode_results body ≡ d
            → Agrees (process_post_result p w cfg callback s r) (mock_post_result p w r)
        by_decoded body (failed err) e d =
            agree_by {o' = some (s, answer 400 err)} {m' = some (tt, answer 400 err)} (ground arith)
              (ground arith) (inr refl)
        by_decoded body null e d = agree_by {o' = none} {m' = none} (ground arith) (ground arith) tt
        by_decoded body (value rs) e d =
            by_valid body rs (validate_results p w rs cfg.metrics) e d refl

        by_body :
            (b : Body)
            → r.body ≡ b
            → Agrees (process_post_result p w cfg callback s r) (mock_post_result p w r)
        by_body (unreadable err) e =
            agree_by {o' = some (s, answer 400 err)} {m' = some (tt, answer 400 err)} (ground arith)
              (ground arith) (inr refl)
        by_body (bytes body) e = by_decoded body (w.decode_results body) e refl

    process_posted_files-Agrees :
        (on_form : S → (execution_id node : String) → FormFile → Option (S × Answer))
        (on_body : S → (execution_id node file_name body : String) → Option (S × Answer))
        → ((s' : S) (f : FormFile) → AtMostFails (on_form s' r.execution_id r.node f))
        → ((name body : String) → AtMostFails (on_body s r.execution_id r.node name body))
        → Agrees (process_posted_files p w on_form on_body s r) (mock_post_file p w r)
    unfolding process_posted_files mock_post_file
    process_posted_files-Agrees on_form on_body g h = by_form r.form refl
      where
        by_body :
            (b : Body)
            → r.form ≡ none
            → r.after_form ≡ b
            → Agrees (process_posted_files p w on_form on_body s r) (mock_post_file p w r)
        by_body (unreadable err) f e =
            agree_by {o' = some (s, answer 400 err)} {m' = some (tt, answer 400 err)} (ground arith)
              (ground arith) (inr refl)
        by_body (bytes body) f e =
            agree_by
              {o' = on_body s r.execution_id r.node (body_file_name p w r) body >>= λ t.
                some (finish t)}
              {m' = some (tt, ok)} (ground arith) (ground arith)
              (finished _ (h (body_file_name p w r) body))

        by_form :
            (f : Option (Dict (List FormFile)))
            → r.form ≡ f
            → Agrees (process_posted_files p w on_form on_body s r) (mock_post_file p w r)
        by_form none f = by_body r.after_form f refl
        by_form (some form) f =
            agree_by
              {o' = save_fields (λ s'. on_form s' r.execution_id r.node) s form >>= λ t.
                some (finish t)}
              {m' = some (tt, ok)} (ground arith) (ground (arith, nothing_fields tt form))
              (finished _ (save_fields_fails (λ s'. on_form s' r.execution_id r.node) g s form))

    process_posted_event-Agrees :
        (nil_event : String) (callback : S → (pod_name : String) → Event → Option (S × Answer))
        → ((e : Event)
            → Agrees
                (callback s (pod_name cfg r.node r.execution_id) e >>= λ t. some (finish t))
                (some (tt, ok)))
        → Agrees
            (process_posted_event p w cfg nil_event callback s r)
            (mock_post_event p w nil_event r)
    unfolding process_posted_event mock_post_event
    process_posted_event-Agrees nil_event callback h = by_body r.body refl
      where
        by_valid :
            (body : String) (e : Event) (v : Option Bool)
            → r.body ≡ bytes body
            → w.decode_event body ≡ value e
            → validate e ≡ v
            → Agrees
                (process_posted_event p w cfg nil_event callback s r)
                (mock_post_event p w nil_event r)
        by_valid body e none b d v =
            agree_by {o' = none} {m' = none} (ground arith) (ground arith) tt
        by_valid body e (some true) b d v =
            agree_by
              {o' = callback s (pod_name cfg r.node r.execution_id) e >>= λ t. some (finish t)}
              {m' = some (tt, ok)} (ground arith) (ground arith) (h e)
        by_valid body e (some false) b d v =
            agree_by {o' = some (s, answer 400 (w.invalid_event e))}
              {m' = some (tt, answer 400 (w.invalid_event e))} (ground arith) (ground arith)
              (inr refl)

        by_decoded :
            (body : String) (d : Decoded Event)
            → r.body ≡ bytes body
            → w.decode_event body ≡ d
            → Agrees
                (process_posted_event p w cfg nil_event callback s r)
                (mock_post_event p w nil_event r)
        by_decoded body (failed err) b d =
            let a = answer 400 ("error decoding event: " <> err) in
            agree_by {o' = some (s, a)} {m' = some (tt, a)} (ground arith) (ground arith) (inr refl)
        by_decoded body null b d =
            agree_by {o' = some (s, answer 400 nil_event)} {m' = some (tt, answer 400 nil_event)}
              (ground arith) (ground arith) (inr refl)
        by_decoded body (value e) b d = by_valid body e (validate e) b d refl

        by_body :
            (b : Body)
            → r.body ≡ b
            → Agrees
                (process_posted_event p w cfg nil_event callback s r)
                (mock_post_event p w nil_event r)
        by_body (unreadable err) e =
            agree_by {o' = some (s, answer 400 err)} {m' = some (tt, answer 400 err)} (ground arith)
              (ground arith) (inr refl)
        by_body (bytes body) e = by_decoded body (w.decode_event body) e refl
