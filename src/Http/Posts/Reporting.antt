-- ===== src/Http/Posts/Reporting.antt =====
-- `postResult` behind its middleware: what a report does.
use batch_job_controller.Base.{
  ℕ, String, Bool, true, false, ◌∷◌, none, some, ◌≡◌, ◌≢◌, ◌↔◌, ◌⊎◌, inl, inr, Option-cases,
  Bool-cases, ltb, refl, arith, ◌<>◌, eq_refl,
}
use batch_job_controller.Base.Dict.{lookup, insert, lookup-insert}
use batch_job_controller.Metrics.Prom.{Prom}
use batch_job_controller.Metrics.Collector.{Results}
use batch_job_controller.Metrics.Collector.Totals.{IsSound}
use batch_job_controller.Lifecycle.State.{Controller}
use batch_job_controller.Lifecycle.Controller.{has_node}
use batch_job_controller.Lifecycle.Outcome.Reception.{IsReported, report_received_lem}
use batch_job_controller.Http.Web.{
  Body, bytes, unreadable, Decoded, failed, Request, Response, ok, null, value, Web, PostServer,
  save_file, saved_path,
}
use batch_job_controller.Http.Posts.{post_result, validate_results, middleware}
use batch_job_controller.Config.{report_dir}

module _ (p : Prom) (w : Web p) where
  -- A report whose handling ends with another answer than 200 has reported nothing to the controller
  -- and has recorded no event. The files stay, or the answer is 500 and of the files only the report file may
  -- have changed.
  pub post_result_not_ok :
      (now : ℕ) (s s' : PostServer p) (r : Request) (resp : Response)
      → post_result p w now s r ≡ some (s', resp)
      → resp.status ≢ 200
      → let path = saved_path s.config r.execution_id (r.node <> ".json") in
        (s'.controller ≡ s.controller)
        × (s'.recorded ≡ s.recorded)
        × ((s'.files ≡ s.files)
            ⊎ ((resp.status ≡ 500) × ((part : String) × (s'.files ≡ insert path part s.files))))
  unfolding post_result save_file
  post_result_not_ok now s s' r resp h bad = (ground arith, ground arith, by_body r.body refl)
    where
      path : String
      path = saved_path s.config r.execution_id (r.node <> ".json")

      by_body :
          (b : Body)
          → r.body ≡ b
          → (s'.files ≡ s.files)
            ⊎ ((resp.status ≡ 500) × ((part : String) × (s'.files ≡ insert path part s.files)))
      by_body (unreadable err) e = inl (ground arith)
      by_body (bytes body) e = elim (Option-cases (w.left_in path body)) [
        | inl n ↦ inl (ground arith)
        | inr (part, n) ↦ elim (Option-cases (w.write_error path)) [
          | inl m ↦ inl (ground arith)
          | inr (err, m) ↦
              elim (Option-cases (w.mkdir_error (report_dir s.config r.execution_id))) [
                | inl k ↦ elim (Bool-cases (ltb resp.status 500)) [
                  | inl y ↦ inl (ground arith)
                  | inr y ↦ inr (ground arith, (part, ground arith))
                ]
                | inr (err', k) ↦ inl (ground arith)
              ]
        ]
      ]

  -- Is the body the JSON text `null`?
  abbrev pub is_null : Request → Bool
  is_null r = elim r.body [
    | unreadable err ↦ false
    | bytes body ↦ elim (w.decode_results body) [
      | failed err ↦ false
      | null ↦ true
      | value results ↦ false
    ]
  ]

  module _ (now : ℕ) (s : PostServer p) (c : Controller p) (r : Request)
      (known : s.controller ≡ some c) (off : c.prom.latest_metric ≡ false)
      (sound : IsSound p c.prom) where
    value-returns :
        (body : String) (results : Results p)
        → r.body ≡ bytes body
        → w.decode_results body ≡ value results
        → post_result p w now s r ≢ none
    unfolding post_result save_file
    value-returns body results b d n =
        let (c', e, reported) =
          report_received_lem p c r.execution_id r.node false results now off sound in
        ground (arith, e)

    decoded-null :
        (body : String) (d : Decoded (Results p))
        → r.body ≡ bytes body
        → w.decode_results body ≡ d
        → post_result p w now s r ≡ none
        → is_null r ≡ true
    unfolding post_result
    decoded-null body (failed err) b e n = ground arith
    decoded-null body null b e n = ground arith
    decoded-null body (value results) b e n = absurd (value-returns body results b e n)

    body-null : (b : Body) → r.body ≡ b → post_result p w now s r ≡ none → is_null r ≡ true
    unfolding post_result
    body-null (unreadable err) b n = ground arith
    body-null (bytes body) b n = decoded-null body (w.decode_results body) b refl n

    -- With a controller whose collector is sound and keeps no latest sample, the handler of a report
    -- panics exactly on a body that is the JSON text `null`.
    pub post_result-none_iff : (post_result p w now s r ≡ none) ↔ (is_null r ≡ true)
    unfolding post_result
    post_result-none_iff = (body-null r.body refl, λ n. ground arith)

  -- For a node and an execution that the controller knows, a body that decodes to valid results, and a
  -- directory and a file that can be written, the answer is 200. The body is in the report file of the
  -- node, and the controller has received the report, with no processing error. The collector has to be
  -- sound and to keep no latest sample.
  pub post_result_accepted :
      (now : ℕ) (s : PostServer p) (c : Controller p) (r : Request) (body : String)
      (results : Results p)
      → s.controller ≡ some c
      → has_node p c r.node r.execution_id ≡ true
      → r.body ≡ bytes body
      → w.decode_results body ≡ value results
      → validate_results p w results s.config.metrics ≡ none
      → w.mkdir_error (report_dir s.config r.execution_id) ≡ none
      → w.write_error (saved_path s.config r.execution_id (r.node <> ".json")) ≡ none
      → c.prom.latest_metric ≡ false
      → IsSound p c.prom
      → (s' : PostServer p) × (c' : Controller p) × (middleware p w (post_result p w now) s r
          ≡ some (s', ok))
        × (s'.controller ≡ some c')
        × IsReported p c c' r.execution_id r.node false now
        × (lookup (saved_path s.config r.execution_id (r.node <> ".json")) s'.files ≡ some body)
        × (s'.recorded ≡ s.recorded)
  unfolding middleware post_result save_file
  post_result_accepted now s c r body results known has b d v m f off sound =
      let (c', e, reported) =
        report_received_lem p c r.execution_id r.node false results now off sound in
      let path = saved_path s.config r.execution_id (r.node <> ".json") in
      (
        record s {
          controller = some c';
          dirs = report_dir s.config r.execution_id ∷ s.dirs;
          files = insert path body s.files;
        },
        c',
        ground (arith, e),
        refl,
        reported,
        rw (lookup-insert, eq_refl) refl,
        refl,
      )
