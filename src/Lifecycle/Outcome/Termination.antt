-- ===== src/Lifecycle/Outcome/Termination.antt =====
-- `PodTerminated`: what its first call does, and that a second one does nothing.
use batch_job_controller.Base.{
  ℕ, ◌+◌, ◌%◌, ◌^◌, String, Bool, true, false, ◌&&◌, List, Option, none, some, ◌≡◌, refl, ◌∙◌,
  arith, get_elem?, set, get_elem?-set_self, get_elem?-lt, ◌==◌, if◌then◌else◌, Bool-cases, inl,
  inr,
}
use batch_job_controller.Base.Int.{pos}
use batch_job_controller.Metrics.Prom.{Prom}
use batch_job_controller.Metrics.Collector.{Collector}
use batch_job_controller.Metrics.Collector.Totals.{
  IsSound, sampled, processing_finished-IsFinished, duration-IsTimed,
}
use batch_job_controller.Lifecycle.State.{Instant, Pod, Controller, elapsed_ms}
use batch_job_controller.Lifecycle.Outcome.{pod_for_id, terminate, pod_terminated}

abbrev pub is_set : Instant → Bool
is_set none = false
is_set (some t) = true

module _ (p : Prom) where
  -- the pod that is registered for a node in an execution
  pub record IsPod (c : Controller p) (id node : String) (r : ℕ) (q : Pod) : Type 0 where
    pub place : pod_for_id p c id node ≡ some r
    pub pod : get_elem? c.pods_made r ≡ some q

  -- the samples of the processing metric after a pod ended
  abbrev pub processed :
      Bool
      → Bool
      → (node id : String) → (List String → Option p.Float)
      → List String
      → Option p.Float
  processed well latest node id old ls =
      if well then old ls else sampled p latest node id (p.of_int (pos 1)) old ls

  -- did the pod succeed, with its report received?
  abbrev pub went_well : String → Pod → Bool
  went_well phase q = phase == "Succeeded" && is_set q.report_received

  -- What the first `PodTerminated` of a pod leaves.
  pub record IsTerminated (c c' : Controller p) (id node phase : String) (now r : ℕ) (q : Pod)
      : Type 0 where
    pub pod : IsPod c' id node r (record q { terminated = some now; status = phase })
    pub progress : c'.progress ≡ (c.progress + 1) % 2 ^ 64
    pub sound : IsSound p c'.prom
    pub latest : c'.prom.latest_metric ≡ c.prom.latest_metric
    pub duration :
        (ls : List String)
        → p.value c'.prom.duration_gauge.gauge ls
          ≡ sampled p c.prom.latest_metric node id
              (p.of_int (elapsed_ms now q.started))
              (p.value c.prom.duration_gauge.gauge)
              ls
    pub processing :
        (ls : List String)
        → p.value c'.prom.proc_error_gauge.gauge ls
          ≡ processed
              (went_well phase q)
              c.prom.latest_metric
              node
              id
              (p.value c.prom.proc_error_gauge.gauge)
              ls

  module _ (c : Controller p) (id node phase : String) (now r : ℕ) (q : Pod)
      (is : IsPod c id node r q) (s : IsSound p c.prom) where
    -- the state but for the collector
    abbrev ended : Collector p → Controller p
    ended m = record c {
      progress = (c.progress + 1) % 2 ^ 64;
      pods_made = set c.pods_made r (record q { terminated = some now; status = phase });
      prom = m;
    }

    ended-IsPod :
        (m : Collector p)
        → IsPod (ended m) id node r (record q { terminated = some now; status = phase })
    unfolding pod_for_id
    ended-IsPod m = record {
      place = is.place;
      pod = get_elem?-set_self c.pods_made r _ (get_elem?-lt c.pods_made r is.pod);
    }

    terminate_lem :
        (c' : Controller p) × (terminate p c id node phase now r q ≡ some c')
        × IsTerminated c c' id node phase now r q
    unfolding terminate
    terminate_lem =
        let (m, e, t) = duration-IsTimed p c.prom node id (p.of_int (elapsed_ms now q.started)) s in
        elim (Bool-cases (went_well phase q)) [
          | inl well ↦ (
            ended m,
            ground (arith, e, well),
            record {
              pod = ended-IsPod m;
              progress = refl;
              sound = t.sound;
              latest = t.latest;
              duration = t.value;
              processing = λ ls. rw (well, t.processing) refl;
            },
          )
          | inr ill ↦
              let (m', e', f) = processing_finished-IsFinished p m node id true t.sound in
              (
                ended m',
                ground (arith, e, e', ill),
                record {
                  pod = ended-IsPod m';
                  progress = refl;
                  sound = f.sound;
                  latest = f.latest ∙ t.latest;
                  duration = λ ls. rw f.durations (t.value ls);
                  processing = λ ls. rw ill (f.value ls ∙ rw (t.processing, t.latest) refl);
                },
              )
        ]

  -- The first `PodTerminated` of a registered pod returns no error and never panics on a sound
  -- collector. It records the end and the phase of the pod and its duration, adds one to the
  -- progress, and sets the error sample unless the pod succeeded and its report had been received.
  pub pod_terminated_first :
      (c : Controller p) (id node phase : String) (now r : ℕ) (q : Pod)
      → IsPod c id node r q
      → q.terminated ≡ none
      → IsSound p c.prom
      → (c' : Controller p) × (pod_terminated p c id node phase now ≡ some (c', none))
        × IsTerminated c c' id node phase now r q
  unfolding pod_terminated
  pod_terminated_first c id node phase now r q is open_end s =
      let (c', e, t) = terminate_lem c id node phase now r q is s in
      (c', ground (arith, is.place, is.pod, e), t)
