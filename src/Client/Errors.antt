-- ===== src/Client/Errors.antt =====
-- When a call of the client returns an error.
use batch_job_controller.Base.{
  String, Option, none, some, ◌≡◌, ◌≢◌, ◌⊎◌, ◌↔◌, inl, inr, refl, arith, eqb, Bool-cases,
}
use batch_job_controller.Client.{
  Reply, ClientError, transport_error, failed_with, handle_response, handle_files,
}

-- `SendFiles` and the other calls treat what the library gives in their own ways. Where it gives a response
-- or an error, neither panics, and both return an error or neither; `SendFiles` prefers the library's.
pub handle_files-handle_response :
    (resp : Option Reply) (err : Option String)
    → (resp ≢ none) ⊎ (err ≢ none)
    → (f : Option ClientError) × (handle_files resp err ≡ some f)
      × ((f ≡ none) ↔ (handle_response resp err ≡ none))
      × ((text : String) → err ≡ some text → f ≡ some (transport_error text))
unfolding handle_files handle_response
handle_files-handle_response none none (inl h) = absurd (h refl)
handle_files-handle_response none none (inr h) = absurd (h refl)
handle_files-handle_response none (some err) h =
    (some (transport_error err), refl, (λ e. cc, λ e. cc), λ text e. cc)
handle_files-handle_response (some resp) none h = elim (Bool-cases (eqb resp.status_code 200)) [
  | inl y ↦ (none, ground arith, (λ e. ground arith, λ e. refl), λ text e. cc)
  | inr n ↦
      (some (failed_with resp), ground arith, (λ e. cc, λ e. absurd (ground arith)), λ text e. cc)
]
handle_files-handle_response (some resp) (some err) h =
    (some (transport_error err), refl, (λ e. cc, λ e. absurd (ground arith)), λ text e. cc)
