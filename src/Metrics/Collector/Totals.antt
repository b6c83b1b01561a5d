-- ===== src/Metrics/Collector/Totals.antt =====
-- The collector's invariant, and that its operations keep it and never panic.
use batch_job_controller.Base.{
  ℕ, String, Bool, true, false, List, [], ◌∷◌, ◌++◌, Option, none, some, ◌≡◌, ◌≢◌, refl, ◌∙◌, arith,
  length, length-append, get_last?, same_texts, if◌then◌else◌, Option-cases, inl, inr, ◌&&◌,
}
use batch_job_controller.Base.Dict.{Dict}
use batch_job_controller.Base.Int.{pos}
use batch_job_controller.Metrics.Prom.{Prom}
use batch_job_controller.Metrics.Series.{
  Heap, read, ExecutionIdMetric, cache_labels, with_label_values,
}
use batch_job_controller.Metrics.Series.Laws.{read-alloc, value-with_label_values}
use batch_job_controller.Metrics.Series.Tracking.{
  IsTracked, with_label_values-IsTracked, alloc-IsTracked,
}
use batch_job_controller.Metrics.Collector.{
  CustomMetric, Collector, set_fresh, set_and_latest, processing_finished, duration,
}
use batch_job_controller.Metrics.Names.{label_value_latest}

module _ (p : Prom) where
  -- One more sample for a new slice: what the metric is afterwards.
  pub record IsWritten (h h' : Heap) (m m' : ExecutionIdMetric p) (ls : List String) (x : p.Float)
      : Type 0 where
    pub others : (o : ExecutionIdMetric p) → IsTracked p h o → IsTracked p h' o
    pub tracked : IsTracked p h m → IsTracked p h' m'
    pub arity : p.arity m'.gauge ≡ p.arity m.gauge
    pub value :
        (ms : List String)
        → p.value m'.gauge ms ≡ (if same_texts ls ms then some x else p.value m.gauge ms)

  pub with_label_values-total :
      (h : Heap) (m : ExecutionIdMetric p) (r : ℕ) (x : p.Float)
      → get_last? (read h r) ≢ none
      → length (read h r) ≡ p.arity m.gauge
      → (m' : ExecutionIdMetric p) × (with_label_values p h m r x ≡ some m')
        × (p.arity m'.gauge ≡ p.arity m.gauge)
  unfolding with_label_values
  with_label_values-total h m r x l n = elim (Option-cases (get_last? (read h r))) [
    | inl e ↦ absurd (l e)
    | inr (ex, e) ↦ (
      record (cache_labels p m ex r) { gauge = p.put m.gauge (read h r) x },
      ground (arith, e),
      ground (arith, p.arity-put m.gauge (read h r) x),
    )
  ]

  pub set_fresh-IsWritten :
      (h : Heap) (m : ExecutionIdMetric p) (ls : List String) (x : p.Float)
      → get_last? ls ≢ none
      → length ls ≡ p.arity m.gauge
      → (r : Heap × ExecutionIdMetric p) × (set_fresh p h m ls x ≡ some r)
        × IsWritten h r.0 m r.1 ls x
  unfolding set_fresh
  set_fresh-IsWritten h m ls x l n =
      let old = read-alloc h ls in
      let (m', e, a) =
        with_label_values-total (h ++ ls ∷ []) m (length h) x (rw old l) (rw old n) in
      (
        (h ++ ls ∷ [], m'),
        rw e,
        record {
          others = λ o t. alloc-IsTracked p h ls o t;
          tracked = λ t.
              with_label_values-IsTracked p (h ++ ls ∷ []) m m' (length h) x
                (omega (arith, length-append h (ls ∷ []))) e (alloc-IsTracked p h ls m t);
          arity = a;
          value =
              λ ms. rw (← old) (value-with_label_values p (h ++ ls ∷ []) m m' (length h) x ms e);
        },
      )

  -- The samples after `set_and_latest`: one for the execution, and one more if the latest is kept.
  abbrev pub sampled :
      Bool
      → (node id : String) → p.Float
      → (List String → Option p.Float)
      → List String
      → Option p.Float
  sampled latest node id x old ls =
      if latest && same_texts (node ∷ label_value_latest ∷ []) ls
      then some x
      else if same_texts (node ∷ id ∷ []) ls
      then some x
      else old ls

  pub record IsSampled (latest : Bool) (h h' : Heap) (m m' : ExecutionIdMetric p) (node id : String)
      (x : p.Float) : Type 0 where
    pub others : (o : ExecutionIdMetric p) → IsTracked p h o → IsTracked p h' o
    pub tracked : IsTracked p h m → IsTracked p h' m'
    pub arity : p.arity m'.gauge ≡ p.arity m.gauge
    pub value :
        (ls : List String) → p.value m'.gauge ls ≡ sampled latest node id x (p.value m.gauge) ls

  pub set_and_latest-IsSampled :
      (latest : Bool) (h : Heap) (m : ExecutionIdMetric p) (node id : String) (x : p.Float)
      → p.arity m.gauge ≡ 2
      → (r : Heap × ExecutionIdMetric p) × (set_and_latest p latest h m node id x ≡ some r)
        × IsSampled latest h r.0 m r.1 node id x
  unfolding set_and_latest
  set_and_latest-IsSampled false h m node id x a =
      let (r, e, q) = set_fresh-IsWritten h m (node ∷ id ∷ []) x (λ n. cc) (omega arith) in
      (r, rw e, record { others = q.others; tracked = q.tracked; arity = q.arity; value = q.value })
  set_and_latest-IsSampled true h m node id x a =
      let (r, e, q) = set_fresh-IsWritten h m (node ∷ id ∷ []) x (λ n. cc) (omega arith) in
      let (s, f, w) =
        set_fresh-IsWritten r.0 r.1 (node ∷ label_value_latest ∷ []) x (λ n. cc)
          (omega (arith, q.arity)) in
      (
        s,
        rw e f,
        record {
          others = λ o t. w.others o (q.others o t);
          tracked = λ t. w.tracked (q.tracked t);
          arity = w.arity ∙ q.arity;
          value = λ ls. ground (arith, w.value ls, q.value ls);
        },
      )

  -- A custom gauge is sound: tracked, with as many label values as it has labels.
  pub record IsSoundGauge (h : Heap) (g : CustomMetric p) : Type 0 where
    pub tracked : IsTracked p h g.gauge
    pub arity : p.arity g.gauge.gauge ≡ length g.labels
    pub some_label : get_last? g.labels ≢ none

  abbrev pub AreSoundGauges : Heap → Dict (CustomMetric p) → Type 0
  AreSoundGauges h [] = Unit
  AreSoundGauges h ((k, g) ∷ gs) = IsSoundGauge h g × AreSoundGauges h gs

  pub record IsSound (c : Collector p) : Type 0 where
    pub proc_error : IsTracked p c.heap c.proc_error_gauge
    pub proc_error_arity : p.arity c.proc_error_gauge.gauge ≡ 2
    pub duration : IsTracked p c.heap c.duration_gauge
    pub duration_arity : p.arity c.duration_gauge.gauge ≡ 2
    pub gauges : AreSoundGauges c.heap c.gauges

  pub AreSoundGauges-grow :
      (h h' : Heap) (gs : Dict (CustomMetric p))
      → ((o : ExecutionIdMetric p) → IsTracked p h o → IsTracked p h' o)
      → AreSoundGauges h gs
      → AreSoundGauges h' gs
  AreSoundGauges-grow h h' [] keep s = tt
  AreSoundGauges-grow h h' ((k, g) ∷ gs) keep (q, s) = (
    record { tracked = keep g.gauge q.tracked; arity = q.arity; some_label = q.some_label },
    AreSoundGauges-grow h h' gs keep s,
  )

  -- What `ProcessingFinished` leaves: the samples of the node and the execution (and of the latest,
  -- where it is kept) are set and no others, and the rest is as it was.
  pub record IsFinished (c c' : Collector p) (node id : String) (x : p.Float) : Type 0 where
    pub sound : IsSound c'
    pub value :
        (ls : List String)
        → p.value c'.proc_error_gauge.gauge ls
          ≡ sampled c.latest_metric node id x (p.value c.proc_error_gauge.gauge) ls
    pub durations : c'.duration_gauge ≡ c.duration_gauge
    pub customs : c'.gauges ≡ c.gauges
    pub latest : c'.latest_metric ≡ c.latest_metric

  -- The same for `Duration`.
  pub record IsTimed (c c' : Collector p) (node id : String) (x : p.Float) : Type 0 where
    pub sound : IsSound c'
    pub value :
        (ls : List String)
        → p.value c'.duration_gauge.gauge ls
          ≡ sampled c.latest_metric node id x (p.value c.duration_gauge.gauge) ls
    pub processing : c'.proc_error_gauge ≡ c.proc_error_gauge
    pub customs : c'.gauges ≡ c.gauges
    pub latest : c'.latest_metric ≡ c.latest_metric

  -- the value that `ProcessingFinished` records
  abbrev pub outcome : Bool → p.Float
  outcome err = if err then p.of_int (pos 1) else p.of_int (pos 0)

  -- On a sound collector `ProcessingFinished` never panics, and sets its samples.
  pub processing_finished-IsFinished :
      (c : Collector p) (node id : String) (err : Bool)
      → IsSound c
      → (c' : Collector p) × (processing_finished p c node id err ≡ some c')
        × IsFinished c c' node id (outcome err)
  unfolding processing_finished
  processing_finished-IsFinished c node id err s =
      let (r, e, q) =
        set_and_latest-IsSampled c.latest_metric c.heap c.proc_error_gauge node id (outcome err)
          s.proc_error_arity in
      (
        record c { heap = r.0; proc_error_gauge = r.1 },
        rw e,
        record {
          sound = record {
            proc_error = q.tracked s.proc_error;
            proc_error_arity = q.arity ∙ s.proc_error_arity;
            duration = q.others c.duration_gauge s.duration;
            duration_arity = s.duration_arity;
            gauges = AreSoundGauges-grow c.heap r.0 c.gauges q.others s.gauges;
          };
          value = q.value;
          durations = refl;
          customs = refl;
          latest = refl;
        },
      )

  -- On a sound collector `Duration` never panics, and sets its samples.
  pub duration-IsTimed :
      (c : Collector p) (node id : String) (d : p.Float)
      → IsSound c
      → (c' : Collector p) × (duration p c node id d ≡ some c') × IsTimed c c' node id d
  unfolding duration
  duration-IsTimed c node id d s =
      let (r, e, q) =
        set_and_latest-IsSampled c.latest_metric c.heap c.duration_gauge node id d
          s.duration_arity in
      (
        record c { heap = r.0; duration_gauge = r.1 },
        rw e,
        record {
          sound = record {
            proc_error = q.others c.proc_error_gauge s.proc_error;
            proc_error_arity = s.proc_error_arity;
            duration = q.tracked s.duration;
            duration_arity = q.arity ∙ s.duration_arity;
            gauges = AreSoundGauges-grow c.heap r.0 c.gauges q.others s.gauges;
          };
          value = q.value;
          processing = refl;
          customs = refl;
          latest = refl;
        },
      )
