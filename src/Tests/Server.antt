-- ===== src/Tests/Server.antt =====
-- Runs of a server: a shutdown, and self checks of environments with and without a timeout.
use batch_job_controller.Base.{
  String, true, [], ◌∷◌, none, some, ◌≡◌, ◌≢◌, refl, subst, ◌<>◌, if◌then◌else◌, ◌==◌,
}
use mathlib.Core.Option.{some-injective}
use batch_job_controller.Base.Int.{pos}
use batch_job_controller.Http.Server.{
  Dialer, default_timeout, health_timeout, healthz_check, closed, Serving, begin_serving, cancel,
  shut_down, close_idle, return_nil, Reaches, here, after,
}
use batch_job_controller.Http.Server.Checks.{healthz_check_ignores}
use batch_job_controller.Http.Server.Shutdown.{begin_serving-IsOrderly, shut_down_active}

abbrev dialer : Dialer
dialer = record {
  parse_duration = λ to. if to == "1s" then some (pos 1000000000) else none;
  join_host_port = λ host port. host <> ":" <> port;
  dial = λ timeout address. none;
}

healthz_check_ignores_example :
    (healthz_check dialer (("SELF_HEALTH_CHECK_CONNECTION_TIMEOUT", "1s") ∷ []) (pos 8080)
      ≡ healthz_check dialer [] (pos 8080))
    × (health_timeout dialer (("SELF_HEALTH_CHECK_CONNECTION_TIMEOUT", "1s") ∷ [])
        ≡ default_timeout)
healthz_check_ignores_example =
    healthz_check_ignores dialer (("SELF_HEALTH_CHECK_CONNECTION_TIMEOUT", "1s") ∷ []) [] (pos 8080)
      is_valid (λ to e. cc)
  where
    is_valid : (to : String) → some "1s" ≡ some to → dialer.parse_duration to ≢ none
    is_valid to e =
        subst (λ (t : String). dialer.parse_duration t ≢ none) (some-injective "1s" to e) (λ f. cc)

abbrev cancelled : Serving
cancelled = record begin_serving { cancelled = true }

abbrev not_listening : Serving
not_listening = record cancelled { listener = closed }

abbrev shut : Serving
shut = record not_listening { idle_conns_closed = true }

abbrev ended : Serving
ended = record shut { returned = some none }

ended-Reaches : Reaches begin_serving ended
ended-Reaches =
    after _ _ _
      (after _ _ _
        (after _ _ _ (after _ _ _ (here begin_serving) (cancel begin_serving))
          (shut_down cancelled refl refl))
        (close_idle not_listening refl refl (λ e. cc)))
      (return_nil shut refl refl refl)

begin_serving-IsOrderly_example :
    (ended.cancelled ≡ true) × (ended.listener ≡ closed) × (ended.idle_conns_closed ≡ true)
begin_serving-IsOrderly_example = begin_serving-IsOrderly ended ended-Reaches refl

shut_down_active_example :
    (s : Serving) × Reaches begin_serving s × (s.returned ≡ some none) × (s.active ≡ 3)
shut_down_active_example = shut_down_active 3
