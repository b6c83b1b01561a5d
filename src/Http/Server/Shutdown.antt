-- ===== src/Http/Server/Shutdown.antt =====
-- When `Start` of the server returns nil.
use batch_job_controller.Base.{ℕ, zero, suc, true, none, some, ◌≡◌, ◌≢◌, refl}
use batch_job_controller.Http.Server.{
  serving, closed, Serving, begin_serving, Step, connected, served, cancel, failed, shut_down,
  close_idle, return_error, return_nil, Reaches, here, after,
}

-- What holds of a call of `Start` at all times.
pub record IsOrderly (s : Serving) : Type 0 where
  pub closing : s.listener ≡ closed → s.cancelled ≡ true
  pub ended : s.returned ≡ some none → (s.listener ≡ closed) × (s.idle_conns_closed ≡ true)

Step-IsOrderly : (s s' : Serving) → Step s s' → IsOrderly s → IsOrderly s'
Step-IsOrderly _ _ (connected s l) h = record { closing = h.closing; ended = h.ended }
Step-IsOrderly _ _ (served s n a) h = record { closing = h.closing; ended = h.ended }
Step-IsOrderly _ _ (cancel s) h = record { closing = λ c. refl; ended = h.ended }
Step-IsOrderly _ _ (failed s err l) h = record {
  closing = λ c. cc;
  ended = λ r. absurd (clash ((h.ended r).0) l);
}
  where
    clash : s.listener ≡ closed → s.listener ≢ serving
    clash a b = cc
Step-IsOrderly _ _ (shut_down s c l) h = record {
  closing = λ e. c;
  ended = λ r. absurd (clash ((h.ended r).0) l);
}
  where
    clash : s.listener ≡ closed → s.listener ≢ serving
    clash a b = cc
Step-IsOrderly _ _ (close_idle s c i l) h = record {
  closing = h.closing;
  ended = λ r. ((h.ended r).0, refl);
}
Step-IsOrderly _ _ (return_error s err r l) h = record { closing = h.closing; ended = λ e. cc }
Step-IsOrderly _ _ (return_nil s r l i) h = record { closing = h.closing; ended = λ e. (l, i) }

Reaches-IsOrderly : (s s' : Serving) → Reaches s s' → IsOrderly s → IsOrderly s'
Reaches-IsOrderly _ _ (here s) h = h
Reaches-IsOrderly _ _ (after s s' s'' r t) h = Step-IsOrderly s' s'' t (Reaches-IsOrderly s s' r h)

-- Whatever the clients do, `Start` returns nil only once its context is done, the listener is closed and the
-- goroutine for the shutdown has ended.
pub begin_serving-IsOrderly :
    (s : Serving)
    → Reaches begin_serving s
    → s.returned ≡ some none
    → (s.cancelled ≡ true) × (s.listener ≡ closed) × (s.idle_conns_closed ≡ true)
begin_serving-IsOrderly s r e =
    let h = Reaches-IsOrderly begin_serving s r (record { closing = λ c. cc; ended = λ c. cc }) in
    let (l, i) = h.ended e in (h.closing l, l, i)

connecting : (n : ℕ) → Reaches begin_serving (record begin_serving { active = n })
connecting zero = here begin_serving
connecting (suc n) =
    after _ _ _ (connecting n) (connected (record begin_serving { active = n }) refl)

-- `Start` can return nil with any number of requests still active.
pub shut_down_active :
    (n : ℕ) → (s : Serving) × Reaches begin_serving s × (s.returned ≡ some none) × (s.active ≡ n)
shut_down_active n =
    let s₀ : Serving = record begin_serving { active = n } in
    let s₁ : Serving = record s₀ { cancelled = true } in
    let s₂ : Serving = record s₁ { listener = closed } in
    let s₃ : Serving = record s₂ { idle_conns_closed = true } in
    let s₄ : Serving = record s₃ { returned = some none } in
    (
      s₄,
      after _ _ _
          (after _ _ _
            (after _ _ _ (after _ _ _ (connecting n) (cancel s₀)) (shut_down s₁ refl refl))
            (close_idle s₂ refl refl (λ e. cc)))
          (return_nil s₃ refl refl refl),
      refl,
      refl,
    )
