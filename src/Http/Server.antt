-- ===== src/Http/Server.antt =====
-- `Server` of pkg/http/fileserver.go: the self check with its timeout, and `Start` with its goroutine for the
-- shutdown, as steps of the two and of the clients.
pub mod Checks
pub mod Shutdown
use batch_job_controller.Base.{
  ℕ, suc, ◌+◌, String, Bool, true, false, Option, none, some, ◌≡◌, ◌≢◌, ◌<>◌,
}
use batch_job_controller.Base.Dict.{lookup}
use batch_job_controller.Base.Int.{ℤ, pos, itoa}
use batch_job_controller.Config.Load.{Environment}

-- `envHealthCheckTimeout`
abbrev pub env_health_check_timeout : String
env_health_check_timeout = "SELF_HEALTH_CHECK_CONNECTION_TIMEOUT"

-- 200 milliseconds, in nanoseconds
abbrev pub default_timeout : ℤ
default_timeout = pos 200000000

-- What the self check calls: `time.ParseDuration`, which gives 0 with an error (`none`), `JoinHostPort`, and
-- the dialing of an address with a timeout, by its error.
pub record Dialer : Type 0 where
  pub parse_duration : String → Option ℤ
  pub join_host_port : (host port : String) → String
  pub dial : (timeout : ℤ) → (address : String) → Option String

module _ (d : Dialer) where
  -- the timeout of `HealthzCheck`: the test of the error is as in the source
  unfoldable pub health_timeout : Environment → ℤ
  health_timeout env = elim (lookup env_health_check_timeout env) [
    | none ↦ default_timeout
    | some to ↦ elim (d.parse_duration to) [ none ↦ pos 0 | some parsed ↦ default_timeout ]
  ]

  -- the check that `HealthzCheck` returns, for the server's port, by its error
  unfoldable pub healthz_check : Environment → (port : ℤ) → Option String
  unfolding health_timeout
  healthz_check env port = d.dial (health_timeout env) (d.join_host_port "127.0.0.1" (itoa port))

  -- `ReadyzCheck`
  unfoldable pub readyz_check : Environment → (port : ℤ) → Option String
  unfolding healthz_check
  readyz_check env port = healthz_check env port

-- How `ListenAndServe` stands: it serves, or has returned `ErrServerClosed` or another error.
pub data Listener : Type 0 where
  serving closed : Listener
  broken : String → Listener

-- A call of `Start`: the connections with an active request, whether the context is done, the listener,
-- whether the goroutine has closed `idleConnsClosed`, and what the call has returned.
pub record Serving : Type 0 where
  pub active : ℕ
  pub cancelled : Bool
  pub listener : Listener
  pub idle_conns_closed : Bool
  pub returned : Option (Option String)

abbrev pub begin_serving : Serving
begin_serving = record {
  active = 0;
  cancelled = false;
  listener = serving;
  idle_conns_closed = false;
  returned = none;
}

-- `Shutdown` closes the listener, if there is one left, and then waits for the active connections until its
-- context is done. It is given the context of the server, which is done already: it returns, whatever is
-- active. The goroutine closes `idleConnsClosed` after it, in a step of its own.
pub data Step : Serving → Serving → Type 0 where
  connected : (s : Serving) → s.listener ≡ serving → Step s (record s { active = suc s.active })
  served : (s : Serving) (n : ℕ) → s.active ≡ suc n → Step s (record s { active = n })
  cancel : (s : Serving) → Step s (record s { cancelled = true })
  failed :
      (s : Serving) (err : String)
      → s.listener ≡ serving
      → Step s (record s { listener = broken err })
  shut_down :
      (s : Serving)
      → s.cancelled ≡ true
      → s.listener ≡ serving
      → Step s (record s { listener = closed })
  close_idle :
      (s : Serving)
      → s.cancelled ≡ true
      → s.idle_conns_closed ≡ false
      → s.listener ≢ serving
      → Step s (record s { idle_conns_closed = true })
  return_error :
      (s : Serving) (err : String)
      → s.returned ≡ none
      → s.listener ≡ broken err
      → Step s (record s { returned = some (some err) })
  return_nil :
      (s : Serving)
      → s.returned ≡ none
      → s.listener ≡ closed
      → s.idle_conns_closed ≡ true
      → Step s (record s { returned = some none })

-- What some steps lead to.
pub data Reaches : Serving → Serving → Type 0 where
  here : (s : Serving) → Reaches s s
  after : (s s' s'' : Serving) → Reaches s s' → Step s' s'' → Reaches s s''
