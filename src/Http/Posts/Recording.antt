-- ===== src/Http/Posts/Recording.antt =====
-- `postEvent`: when an event is recorded.
use batch_job_controller.Base.{
  ℕ, ◌↔◌, String, true, false, [], ◌∷◌, ◌++◌, Option, none, some, ◌≡◌, ◌≢◌, ◌⊎◌, inl, inr, refl,
  arith, ◌<>◌, ◌==◌, if◌then◌else◌, Option-cases,
}
use batch_job_controller.Config.{pod_name}
use batch_job_controller.Metrics.Prom.{Prom}
use batch_job_controller.Http.Event.{Event, event_type, args, validate}
use batch_job_controller.Http.Event.Validation.{validate_total}
use batch_job_controller.Http.Web.{
  Body, bytes, unreadable, Request, Response, ok, answer, Decoded, failed, null, value, Recorded,
  Web, PostServer,
}
use batch_job_controller.Http.Posts.{post_event}

module _ (p : Prom) (w : Web p) where
  -- the event as it is recorded
  abbrev pub as_recorded : (pod : String) → Event → Recorded
  as_recorded pod e = record {
    pod = pod;
    type_of = event_type e;
    reason = e.reason;
    action = if e.action == "" then "n/a" else e.action;
    note = e.message;
    arguments = args e;
  }

  -- What is recorded, in terms of the request alone: a body that decodes to a valid event, for a pod that
  -- is found.
  abbrev pub event_of : PostServer p → Request → Option Recorded
  event_of s r = elim r.body [
    | unreadable err ↦ none
    | bytes body ↦ elim (w.decode_event body) [
      | failed err ↦ none
      | null ↦ none
      | value e ↦ elim (validate e) [
        | none ↦ none
        | some true ↦ elim (w.get_pod_error (pod_name s.config r.node r.execution_id)) [
          | some err ↦ none
          | none ↦ some (as_recorded (pod_name s.config r.node r.execution_id) e)
        ]
        | some false ↦ none
      ]
    ]
  ]

  -- the state and the answer that follow
  abbrev pub recording : PostServer p → Option Recorded → PostServer p
  recording s none = s
  recording s (some e) = record s { recorded = s.recorded ++ e ∷ [] }

  Body-cases :
      (b : Body) → ((err : String) × (b ≡ unreadable err)) ⊎ ((body : String) × (b ≡ bytes body))
  Body-cases (bytes body) = inr (body, refl)
  Body-cases (unreadable err) = inl (err, refl)

  Decoded-cases :
      (d : Decoded Event)
      → ((err : String) × (d ≡ failed err)) ⊎ ((d ≡ null) ⊎ ((e : Event) × (d ≡ value e)))
  Decoded-cases (failed err) = inl (err, refl)
  Decoded-cases null = inr (inl refl)
  Decoded-cases (value e) = inr (inr (e, refl))

  -- What the answer tells of the request.
  abbrev pub Answers : (nil_event : String) → PostServer p → Request → Response → Type 0
  Answers nil_event s r resp =
      (post_event p w nil_event s r ≡ some (recording s (event_of s r), resp))
      × ((resp.status ≡ 200) ↔ (event_of s r ≢ none))

  post_event_valid :
      (nil_event : String) (s : PostServer p) (r : Request) (body : String) (e : Event)
      → r.body ≡ bytes body
      → w.decode_event body ≡ value e
      → validate e ≡ some true
      → (resp : Response) × Answers nil_event s r resp
  unfolding post_event
  post_event_valid nil_event s r body e b d v =
      elim (Option-cases (w.get_pod_error (pod_name s.config r.node r.execution_id))) [
        | inl n ↦ (ok, (ground arith, ((λ h. ground arith), λ h. refl)))
        | inr (err, n) ↦ (
          answer 404 ("error finding pod: " <> err),
          (ground arith, ((λ h. absurd (omega arith)), λ h. absurd (h (ground arith)))),
        )
      ]

  -- `postEvent` never panics. Where the body decodes to a valid event and the pod is found, it records
  -- the event and answers with 200. Otherwise it changes nothing and answers with another status.
  pub post_event_lem :
      (nil_event : String) (s : PostServer p) (r : Request)
      → (resp : Response) × Answers nil_event s r resp
  unfolding post_event
  post_event_lem nil_event s r = elim (Body-cases r.body) [
    | inl (err, b) ↦ (answer 400 err, (ground arith, refused 400 (ground arith) (omega arith)))
    | inr (body, b) ↦ elim (Decoded-cases (w.decode_event body)) [
      | inl (err, d) ↦ (
        answer 400 ("error decoding event: " <> err),
        (ground arith, refused 400 (ground arith) (omega arith)),
      )
      | inr (inl d) ↦
          (answer 400 nil_event, (ground arith, refused 400 (ground arith) (omega arith)))
      | inr (inr (e, d)) ↦ elim (Option-cases (validate e)) [
        | inl v ↦ absurd (validate_total e v)
        | inr (true, v) ↦ post_event_valid nil_event s r body e b d v
        | inr (false, v) ↦ (
          answer 400 (w.invalid_event e),
          (ground arith, refused 400 (ground arith) (omega arith)),
        )
      ]
    ]
  ]
    where
      refused : (n : ℕ) → event_of s r ≡ none → n ≢ 200 → (n ≡ 200) ↔ (event_of s r ≢ none)
      refused n none_at bad = ((λ h. absurd (bad h)), λ h. absurd (h none_at))
