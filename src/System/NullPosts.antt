-- ===== src/System/NullPosts.antt =====
-- The posts whose handlers panic.
use batch_job_controller.Base.{
  ℕ, String, true, false, not, ◌&&◌, List, [], ◌∷◌, Option, none, some, ◌≡◌, ◌≢◌, inl, inr, refl,
  arith, ◌>>=◌, ◌<>◌, Bool-cases,
}
use batch_job_controller.Base.Dict.{Dict}
use batch_job_controller.Metrics.Prom.{Prom}
use batch_job_controller.Metrics.Collector.Totals.{IsSound}
use batch_job_controller.Lifecycle.State.{Controller}
use batch_job_controller.Lifecycle.Controller.{has_node}
use batch_job_controller.Http.Web.{
  Body, bytes, unreadable, FormFile, Request, Response, Web, PostServer, mk_report_dir, save_file,
}
use batch_job_controller.Http.Posts.{
  Answer, finish, save_each, save_fields, post_result, upload, internal_error,
  save_form_files_callback, save_body_file_callback, body_file_name, process_posted_files,
  post_file, post_event, middleware,
}
use batch_job_controller.Http.Posts.Reporting.{is_null, post_result-none_iff}
use batch_job_controller.Http.Posts.Recording.{post_event_lem}
use batch_job_controller.Http.Routes.{Route, results, files, events, api_handler}

module _ (p : Prom) (w : Web p) where
  next-some :
      {S A : Type 0} (o : Option (S × Option A)) (k : S → Option (S × Option A))
      → o ≢ none
      → ((s : S) → k s ≢ none)
      → (o >>= λ t. elim (t.1) [ some r ↦ some (t.0, some r) | none ↦ k (t.0) ]) ≢ none
  next-some none k h g e = h refl
  next-some (some (s, none)) k h g e = g s e
  next-some (some (s, some r)) k h g e = cc

  finish-some :
      {S : Type 0} (o : Option (S × Answer)) → o ≢ none → (o >>= λ t. some (finish t)) ≢ none
  finish-some none h e = h refl
  finish-some (some t) h e = cc

  form_callback-some :
      (id node : String) (s : PostServer p) (f : FormFile)
      → save_form_files_callback p w s id node f ≢ none
  unfolding save_form_files_callback mk_report_dir upload
  form_callback-some id node s f e = ground arith

  save_each-some :
      (id node : String) (s : PostServer p) (fs : List FormFile)
      → save_each (λ s'. save_form_files_callback p w s' id node) s fs ≢ none
  unfolding save_each
  save_each-some id node s [] e = cc
  save_each-some id node s (f ∷ fs) e =
      next-some (save_form_files_callback p w s id node f)
        (λ s'. save_each (λ s''. save_form_files_callback p w s'' id node) s' fs)
        (form_callback-some id node s f) (λ s'. save_each-some id node s' fs) e

  save_fields-some :
      (id node : String) (s : PostServer p) (form : Dict (List FormFile))
      → save_fields (λ s'. save_form_files_callback p w s' id node) s form ≢ none
  unfolding save_fields
  save_fields-some id node s [] e = cc
  save_fields-some id node s ((field, fs) ∷ form) e =
      next-some (save_each (λ s'. save_form_files_callback p w s' id node) s fs)
        (λ s'. save_fields (λ s''. save_form_files_callback p w s'' id node) s' form)
        (save_each-some id node s fs) (λ s'. save_fields-some id node s' form) e

  post_file-some : (s : PostServer p) (r : Request) → post_file p w s r ≢ none
  unfolding post_file process_posted_files save_body_file_callback
  post_file-some s r e = by_form r.form refl
    where
      by_body : (b : Body) → r.form ≡ none → r.body ≡ b → ⊥
      by_body (unreadable err) f b = ground arith
      by_body (bytes body) f b =
          finish-some
            (some (
              internal_error p w
                (save_file p w s r.execution_id (r.node <> "-" <> body_file_name p w r) body)))
            (λ n. cc) (ground arith)

      by_form : (f : Option (Dict (List FormFile))) → r.form ≡ f → ⊥
      by_form none f = by_body r.body f refl
      by_form (some form) f =
          finish-some
            (save_fields (λ s'. save_form_files_callback p w s' r.execution_id r.node) s form)
            (save_fields-some r.execution_id r.node s form) (ground arith)

  module _ (now : ℕ) (c : Controller p) (s : PostServer p) (known : s.controller ≡ some c)
      (r : Request) where
    -- a request that panics is admitted
    admitted-none :
        (next : PostServer p → Request → Option (PostServer p × Response))
        → middleware p w next s r ≡ none
        → next s r ≡ none
    unfolding middleware
    admitted-none next h =
        elim (Bool-cases (not (has_node p c r.node r.execution_id) && not s.config.dev_mode)) [
          | inl y ↦ absurd (ground (arith, known))
          | inr y ↦ ground (arith, known)
        ]

    pub api_handler-null :
        (nil_event : String) (route : Route)
        → c.prom.latest_metric ≡ false
        → IsSound p c.prom
        → api_handler p w now nil_event route s r ≡ none
        → (route ≡ results) × (is_null p w r ≡ true)
    unfolding api_handler
    api_handler-null nil_event results off sound h = (
      refl,
      (post_result-none_iff p w now s c r known off sound).0
          (admitted-none (post_result p w now) h),
    )
    api_handler-null nil_event files off sound h =
        absurd (post_file-some s r (admitted-none (post_file p w) h))
    api_handler-null nil_event events off sound h =
        let (resp, (answered, told)) = post_event_lem p w nil_event s r in
        absurd (cc (answered, admitted-none (post_event p w nil_event) h))
