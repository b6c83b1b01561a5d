-- ===== src/Metrics/Collector/Leak.antt =====
-- `MetricFor` where a latest sample is kept: the slice that was remembered for the execution is
-- overwritten, so `Prune` deletes the latest sample in place of the execution's.
use batch_job_controller.Base.{
  String, true, false, ◌||◌, List, [], ◌∷◌, ◌++◌, none, some, ◌≡◌, ◌≢◌, refl, sym, ◌∙◌, ap, arith,
  length, set, set_last, length-set_last, get_last?, get_last?-set_last, same_texts, same_texts_iff,
  eq_iff, eq_refl, Bool-cases, inl, inr,
}
use batch_job_controller.Base.Dict.{lookup, insert, lookup-insert}
use batch_job_controller.Metrics.Collector.Pruning.{lookup-prune_gauges}
use batch_job_controller.Metrics.Prom.{Prom}
use batch_job_controller.Metrics.Series.{
  Heap, write_last, ExecutionIdMetric, cached, with_label_values, prune,
}
use batch_job_controller.Metrics.Series.Laws.{
  among, among-alloc, exist, read-alloc, value-with_label_values, cached-with_label_values,
}
use batch_job_controller.Metrics.Series.Tracking.{among-append}
use batch_job_controller.Metrics.Series.Prune.{value-prune}
use batch_job_controller.Metrics.Collector.{
  CustomMetric, Collector, Result, report, metric_for, prune_execution, to_latest,
}
use batch_job_controller.Metrics.Names.{label_values, label_execution_id, label_value_latest}
use batch_job_controller.Metrics.Collector.Totals.{IsSoundGauge, with_label_values-total}
use batch_job_controller.Metrics.Collector.Reports.{length-label_values, get_last?-label_values}

-- the heap after a slice was made and its last element written
abbrev rewritten : Heap → List String → String → Heap
rewritten h ls v = write_last (h ++ ls ∷ []) (length h) v

set-append_length : (h : Heap) (s t : List String) → set (h ++ s ∷ []) (length h) t ≡ h ++ t ∷ []
set-append_length [] s t = refl
set-append_length (u ∷ h) s t = ap (λ (k : Heap). u ∷ k) (set-append_length h s t)

rewritten_lem :
    (h : Heap) (ls : List String) (v : String) → rewritten h ls v ≡ h ++ set_last ls v ∷ []
rewritten_lem h ls v = rw read-alloc (set-append_length h ls (set_last ls v))

-- the code's write is skipped on no label value, where there is nothing to write either
to_latest_lem :
    (h : Heap) (ls : List String)
    → to_latest (h ++ ls ∷ []) (length h) ls ≡ h ++ set_last ls label_value_latest ∷ []
to_latest_lem h [] = refl
to_latest_lem h (v ∷ vs) = rewritten_lem h (v ∷ vs) label_value_latest

last_differs :
    (ls ms : List String) (a b : String)
    → get_last? ls ≡ some a
    → get_last? ms ≡ some b
    → a ≢ b
    → same_texts ls ms ≡ false
last_differs ls ms a b p q n = elim (Bool-cases (same_texts ls ms)) [
  | inl e ↦ absurd (n (cc (ap (λ (k : List String). get_last? k) ((same_texts_iff ls ms).0 e))))
  | inr e ↦ e
]

last_latest :
    (ls : List String) (a : String)
    → get_last? ls ≡ some a
    → get_last? (set_last ls label_value_latest) ≡ some label_value_latest
last_latest [] a h = cc
last_latest (v ∷ vs) a h = get_last?-set_last v vs label_value_latest

module _ (p : Prom) (h : Heap) (m₀ m m' : ExecutionIdMetric p) (values s : List String)
    (id : String) (x : p.Float) (own : get_last? values ≡ some id)
    (top : get_last? s ≡ some label_value_latest) (ne : id ≢ label_value_latest)
    (e : with_label_values p (h ++ values ∷ []) m₀ (length h) x ≡ some m)
    (e' : with_label_values p (h ++ s ∷ []) m (length h) x ≡ some m') where
  cached_twice : cached p m' id ≡ cached p m₀ id ++ length h ∷ []
  cached_twice =
      let c =
        cached-with_label_values p (h ++ values ∷ []) m₀ m (length h) x id id (rw read-alloc own)
          e in
      let c' =
        cached-with_label_values p (h ++ s ∷ []) m m' (length h) x label_value_latest id
          (rw read-alloc top) e' in
      ground (arith, c, c', eq_refl id, eq_iff label_value_latest id)

  among_twice :
      (ls : List String)
      → exist h (cached p m₀ id) ≡ true
      → among (h ++ s ∷ []) (cached p m' id) ls ≡ (among h (cached p m₀ id) ls || same_texts s ls)
  among_twice ls b = rw (
    cached_twice,
    among-append p (h ++ s ∷ []) (cached p m₀ id) (length h) ls,
    among-alloc h s (cached p m₀ id) ls b,
    read-alloc,
  )

  value_twice : p.value m'.gauge values ≡ some x
  value_twice =
      let v = value-with_label_values p (h ++ values ∷ []) m₀ m (length h) x values e in
      let v' = value-with_label_values p (h ++ s ∷ []) m m' (length h) x values e' in
      ground (arith, v, v', read-alloc h values, same_texts_iff values values)

  survives :
      exist h (cached p m₀ id) ≡ true
      → among h (cached p m₀ id) values ≡ false
      → (p.value (prune p (h ++ s ∷ []) m' id).gauge values ≡ some x)
        × (p.value (prune p (h ++ s ∷ []) m' id).gauge s ≡ none)
  survives b new =
      let kept = last_differs s values label_value_latest id top own (λ n. ne (sym n)) in
      (
        rw (value-prune, among_twice values b, new, kept) value_twice,
        ground (arith, value-prune p (h ++ s ∷ []) m' id s, among_twice s b, same_texts_iff s s),
      )

module _ (p : Prom) where
  -- After a report with a latest sample, pruning the execution leaves the execution's sample in
  -- place and deletes the latest one.
  pub report_survives_prune :
      (h : Heap) (g : CustomMetric p) (node id : String) (result : Result p)
      → IsSoundGauge p h g
      → get_last? g.labels ≡ some label_execution_id
      → id ≢ label_value_latest
      → let values = label_values g.labels node id result.labels in
        among h (cached p g.gauge id) values ≡ false
        → (r : Heap × CustomMetric p) × (report p true h g node id result ≡ some r)
          × ((p.value (prune p r.0 r.1.gauge id).gauge values ≡ some result.value)
              × (p.value (prune p r.0 r.1.gauge id).gauge (set_last values label_value_latest)
                  ≡ none))
  unfolding report
  report_survives_prune h g node id result q l ne new =
      let values = label_values g.labels node id result.labels in
      let x = result.value in
      let s = set_last values label_value_latest in
      let own = get_last?-label_values g.labels node id result.labels l in
      let top = last_latest values id own in
      let many = length-label_values g.labels node id result.labels ∙ sym q.arity in
      let old = read-alloc h values in
      let now = read-alloc h s in
      let (m, e, a) =
        with_label_values-total p (h ++ values ∷ []) g.gauge (length h) x (rw old (λ n. cc))
          (rw old many) in
      let (m', e', a') =
        with_label_values-total p (h ++ s ∷ []) m (length h) x (rw now (λ n. cc))
          (rw now (length-set_last values label_value_latest ∙ many ∙ sym a)) in
      (
        (h ++ s ∷ [], record g { gauge = m' }),
        rw (e, to_latest_lem, e') refl,
        survives p h g.gauge m m' values s id x own top ne e e' (q.tracked.bounded id) new,
      )

  -- Where the latest sample is kept, a report of label values that the gauge does not remember yet for
  -- the execution survives the pruning of that execution: its sample is still there, and the latest
  -- sample is gone. The gauge is a sound one whose last label is the execution, and the execution is
  -- not called "latest".
  pub metric_for_survives_prune :
      (c : Collector p) (id node name : String) (result : Result p) (g : CustomMetric p)
      → IsSoundGauge p c.heap g
      → c.latest_metric ≡ true
      → lookup name c.gauges ≡ some g
      → get_last? g.labels ≡ some label_execution_id
      → id ≢ label_value_latest
      → among c.heap (cached p g.gauge id) (label_values g.labels node id result.labels) ≡ false
      → let values = label_values g.labels node id result.labels in
        (c' : Collector p) × (g' : CustomMetric p) × (metric_for p c id node name result ≡ some c')
        × (lookup name (prune_execution p c' id).gauges ≡ some g')
        × (p.value g'.gauge.gauge values ≡ some result.value)
        × (p.value g'.gauge.gauge (set_last values label_value_latest) ≡ none)
  unfolding metric_for prune_execution
  metric_for_survives_prune c id node name result g q on found l ne new =
      let (r, e, (kept, lost)) = report_survives_prune c.heap g node id result q l ne new in
      (
        record c { heap = r.0; gauges = insert name r.1 c.gauges },
        record (r.1) { gauge = prune p r.0 r.1.gauge id },
        rw (found, metric_for) (rw (on, e) refl),
        ground (
          arith,
          lookup-prune_gauges p r.0 id name (insert name r.1 c.gauges),
          lookup-insert name name r.1 c.gauges,
          eq_refl name,
        ),
        kept,
        lost,
      )
