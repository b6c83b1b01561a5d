-- ===== src/Http/Posts/Storing.antt =====
-- `postFile`: which files are stored.
use batch_job_controller.Base.{
  String, List, [], ◌∷◌, ◌++◌, Option, none, some, ◌≡◌, refl, arith, ◌>>=◌, ◌<>◌, ◌==◌,
  if◌then◌else◌, Option-cases, inl, inr,
}
use batch_job_controller.Base.Dict.{Dict, lookup, insert, lookup-insert}
use batch_job_controller.Config.{Config, report_dir, report_file_name}
use batch_job_controller.Metrics.Prom.{Prom}
use batch_job_controller.Http.Web.{
  bytes, FormFile, Request, ok, Web, PostServer, mk_report_dir, save_file, saved_path,
}
use batch_job_controller.Http.Posts.{
  Answer, save_each, save_fields, post_file, body_file_name, save_form_files_callback,
}

-- all files of a form, in the order of the iteration
abbrev pub all_files : Dict (List FormFile) → List FormFile
all_files [] = []
all_files ((field, files) ∷ form) = files ++ all_files form

-- the report files once these are stored
abbrev pub store_all :
    Config → (execution_id node : String) → List FormFile → Dict String → Dict String
store_all cfg execution_id node [] stored = stored
store_all cfg execution_id node (f ∷ files) stored =
    store_all cfg execution_id node files
      (insert (report_file_name cfg execution_id (node <> "-" <> f.filename)) f.content stored)

module _ {S : Type 0} (callback : S → FormFile → Option (S × Answer)) where
  save_each-append :
      (s : S) (xs ys : List FormFile)
      → save_each callback s (xs ++ ys) ≡ (
          save_each callback s xs >>= λ t. elim (t.1) [
            | some r ↦ some (t.0, some r)
            | none ↦ save_each callback t.0 ys
          ])
  unfolding save_each
  save_each-append s [] ys = refl
  save_each-append s (x ∷ xs) ys = elim (Option-cases (callback s x)) [
    | inl n ↦ rw n refl
    | inr ((s', none), n) ↦ rw n (save_each-append s' xs ys)
    | inr ((s', some r), n) ↦ rw n refl
  ]

  -- the nested loops over a form do what one loop over all its files does
  save_fields-all_files :
      (s : S) (form : Dict (List FormFile))
      → save_fields callback s form ≡ save_each callback s (all_files form)
  unfolding save_fields
  save_fields-all_files s [] = unfold save_each in refl
  save_fields-all_files s ((field, files) ∷ form) =
      rw save_each-append (elim (Option-cases (save_each callback s files)) [
        | inl n ↦ rw n refl
        | inr ((s', none), n) ↦ rw n (save_fields-all_files s' form)
        | inr ((s', some r), n) ↦ rw n refl
      ])

module _ (p : Prom) (w : Web p) where
  abbrev on_form :
      (execution_id node : String) → PostServer p → FormFile → Option (PostServer p × Answer)
  on_form execution_id node s f = save_form_files_callback p w s execution_id node f

  -- the files of a form, where the directory and the files can be written
  each_stored :
      (s : PostServer p) (execution_id node : String) (files : List FormFile)
      → w.mkdir_error (report_dir s.config execution_id) ≡ none
      → ((path : String) → w.upload_error path ≡ none)
      → (s' : PostServer p) × (save_each (on_form execution_id node) s files ≡ some (s', none))
        × (s'.files ≡ store_all s.config execution_id node files s.files)
        × (s'.controller ≡ s.controller)
        × (s'.recorded ≡ s.recorded)
  unfolding save_each save_form_files_callback mk_report_dir
  each_stored s execution_id node [] m u = (s, refl, refl, refl, refl)
  each_stored s execution_id node (f ∷ files) m u =
      let s₁ : PostServer p = record s {
        dirs = report_dir s.config execution_id ∷ s.dirs;
        files =
            insert (report_file_name s.config execution_id (node <> "-" <> f.filename)) f.content
              s.files;
      } in
      let (s', e, g, k, l) = each_stored s₁ execution_id node files m u in
      (
        s',
        ground
            (arith, m, e, u (report_file_name s.config execution_id (node <> "-" <> f.filename))),
        g,
        k,
        l,
      )

  -- Where the report directory and the files can be written, `postFile` answers a form with 200 and
  -- stores every file of every field below the execution's directory, its name behind the node's. The
  -- controller and the events stay as they are.
  pub post_file_form :
      (s : PostServer p) (r : Request) (form : Dict (List FormFile))
      → r.form ≡ some form
      → w.mkdir_error (report_dir s.config r.execution_id) ≡ none
      → ((path : String) → w.upload_error path ≡ none)
      → (s' : PostServer p) × (post_file p w s r ≡ some (s', ok))
        × (s'.files ≡ store_all s.config r.execution_id r.node (all_files form) s.files)
        × (s'.controller ≡ s.controller)
        × (s'.recorded ≡ s.recorded)
  unfolding post_file
  post_file_form s r form f m u =
      let (s', e, g, k, l) = each_stored s r.execution_id r.node (all_files form) m u in
      let looped = save_fields-all_files (on_form r.execution_id r.node) s form in
      (s', ground (arith, looped, e), g, k, l)

  -- A body without a form, read and stored with no error, is answered with 200. It is in one file of
  -- the execution's directory, whose name is the node's before the name of the query, the name of the
  -- content disposition where that is empty, and a new name where both are. The other files stay.
  pub post_file_body :
      (s : PostServer p) (r : Request) (body : String)
      → r.form ≡ none
      → r.after_form ≡ bytes body
      → w.mkdir_error (report_dir s.config r.execution_id) ≡ none
      → w.write_error (saved_path s.config r.execution_id (r.node <> "-" <> body_file_name p w r))
        ≡ none
      → let path = saved_path s.config r.execution_id (r.node <> "-" <> body_file_name p w r) in
        (s' : PostServer p) × (post_file p w s r ≡ some (s', ok))
        × ((other : String)
            → lookup other s'.files ≡ (if path == other then some body else lookup other s.files))
  unfolding post_file save_file
  post_file_body s r body f b m u =
      let path = saved_path s.config r.execution_id (r.node <> "-" <> body_file_name p w r) in
      (
        record s {
          dirs = report_dir s.config r.execution_id ∷ s.dirs;
          files = insert path body s.files;
        },
        ground (arith, m, u),
        λ other. lookup-insert path other body s.files,
      )
