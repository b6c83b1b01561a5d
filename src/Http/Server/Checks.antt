-- ===== src/Http/Server/Checks.antt =====
-- The timeout of the self check.
use batch_job_controller.Base.{
  String, none, some, ◌≡◌, ◌≢◌, inl, inr, ap, arith, Option-cases, ◌∙◌, sym,
}
use batch_job_controller.Base.Dict.{lookup}
use batch_job_controller.Base.Int.{ℤ, itoa}
use batch_job_controller.Config.Load.{Environment}
use batch_job_controller.Http.Server.{
  Dialer, env_health_check_timeout, default_timeout, health_timeout, healthz_check,
}

module _ (d : Dialer) where
  timeout_unless_bad :
      (env : Environment)
      → ((to : String) → lookup env_health_check_timeout env ≡ some to → d.parse_duration to ≢ none)
      → health_timeout d env ≡ default_timeout
  unfolding health_timeout
  timeout_unless_bad env valid = elim (Option-cases (lookup env_health_check_timeout env)) [
    | inl n ↦ ground arith
    | inr (to, n) ↦ elim (Option-cases (d.parse_duration to)) [
      | inl m ↦ absurd (valid to n m)
      | inr (t, m) ↦ ground arith
    ]
  ]

  -- No valid value of the variable for the timeout has an effect: the self checks of any two environments
  -- that do not set it, or set it to a valid duration, are the same, with the default timeout.
  pub healthz_check_ignores :
      (env env' : Environment) (port : ℤ)
      → ((to : String) → lookup env_health_check_timeout env ≡ some to → d.parse_duration to ≢ none)
      → ((to : String)
          → lookup env_health_check_timeout env' ≡ some to
          → d.parse_duration to ≢ none)
      → (healthz_check d env port ≡ healthz_check d env' port)
        × (health_timeout d env ≡ default_timeout)
  unfolding healthz_check
  healthz_check_ignores env env' port valid valid' =
      let e = timeout_unless_bad env valid in
      let e' = timeout_unless_bad env' valid' in
      (ap (λ (t : ℤ). d.dial t (d.join_host_port "127.0.0.1" (itoa port))) (e ∙ sym e'), e)
