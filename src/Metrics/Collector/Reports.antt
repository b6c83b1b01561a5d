-- ===== src/Metrics/Collector/Reports.antt =====
-- `MetricFor` where no latest sample is kept.
use batch_job_controller.Base.{
  suc, String, false, List, [], ◌∷◌, map, none, some, ◌≡◌, ◌≢◌, refl, sym, ◌∙◌, ap, arith, length,
  get_last?, same_texts, ◌==◌, if◌then◌else◌, Option-cases, inl, inr, ◌>>=◌, Bool-cases, subst,
  eq_refl,
}
use batch_job_controller.Base.Dict.{Dict, lookup, insert, lookup-insert}
use batch_job_controller.Metrics.Prom.{Prom}
use batch_job_controller.Metrics.Series.{Heap}
use batch_job_controller.Metrics.Collector.{
  CustomMetric, Collector, Result, report, metric_for, set_fresh,
}
use batch_job_controller.Metrics.Names.{label_values, get_text, label_node, label_execution_id}
use batch_job_controller.Metrics.Collector.Totals.{
  set_fresh-IsWritten, IsSoundGauge, AreSoundGauges, AreSoundGauges-grow, IsSound,
}

length-map {ℓ κ} :
    {A : Type ℓ} {B : Type κ} (f : A → B) (xs : List A) → length (map f xs) ≡ length xs
length-map f [] = refl
length-map f (x ∷ xs) = ap suc (length-map f xs)

get_last?-map {ℓ κ} :
    {A : Type ℓ} {B : Type κ} (f : A → B) (xs : List A) {x : A}
    → get_last? xs ≡ some x
    → get_last? (map f xs) ≡ some (f x)
get_last?-map f [] h = cc
get_last?-map f (x ∷ []) h = cc
get_last?-map f (x ∷ y ∷ xs) h = get_last?-map f (y ∷ xs) h

-- a report has one label value for each label
pub length-label_values :
    (labels : List String) (node id : String) (given : Dict String)
    → length (label_values labels node id given) ≡ length labels
unfolding label_values
length-label_values labels node id given = length-map _ labels

-- whose last is the execution, where the execution is the last label
pub get_last?-label_values :
    (labels : List String) (node id : String) (given : Dict String)
    → get_last? labels ≡ some label_execution_id
    → get_last? (label_values labels node id given) ≡ some id
unfolding label_values
get_last?-label_values labels node id given h =
    get_last?-map _ labels h
    ∙ ground (arith, lookup-insert "executionID" "executionID" id (insert "node" node given))

some_last-label_values :
    (labels : List String) (node id : String) (given : Dict String)
    → get_last? labels ≢ none
    → get_last? (label_values labels node id given) ≢ none
unfolding label_values
some_last-label_values labels node id given h e = elim (Option-cases (get_last? labels)) [
  | inl n ↦ h n
  | inr (l, n) ↦ cc (
      get_last?-map
        (λ (k : String). get_text k (insert label_execution_id id (insert label_node node given)))
        labels n)
]

module _ (p : Prom) where
  pub AreSoundGauges-lookup :
      (h : Heap) (gs : Dict (CustomMetric p)) (k : String) (g : CustomMetric p)
      → AreSoundGauges p h gs
      → lookup k gs ≡ some g
      → IsSoundGauge p h g
  AreSoundGauges-lookup h [] k g s e = cc
  AreSoundGauges-lookup h ((j, f) ∷ gs) k g (q, s) e = elim (Bool-cases (j == k)) [
    | inl y ↦ subst (IsSoundGauge p h) (ground arith) q
    | inr n ↦ AreSoundGauges-lookup h gs k g s (ground arith)
  ]

  pub AreSoundGauges-insert :
      (h : Heap) (gs : Dict (CustomMetric p)) (k : String) (g : CustomMetric p)
      → IsSoundGauge p h g
      → AreSoundGauges p h gs
      → AreSoundGauges p h (insert k g gs)
  AreSoundGauges-insert h [] k g q s = (q, tt)
  AreSoundGauges-insert h ((j, f) ∷ gs) k g q (r, s) = elim (Bool-cases (j == k)) [
    | inl y ↦ rw y (q, s)
    | inr n ↦ rw n (r, AreSoundGauges-insert h gs k g q s)
  ]

  pub report-eq-set_fresh :
      (h : Heap) (g : CustomMetric p) (node id : String) (result : Result p)
      → report p false h g node id result ≡ (
          set_fresh p h g.gauge (label_values g.labels node id result.labels) result.value >>= λ r.
          some (r.0, record g { gauge = r.1 }))
  unfolding report set_fresh
  report-eq-set_fresh h g node id result = ground arith

  -- Where no latest sample is kept, `MetricFor` for a known gauge of a sound collector never panics,
  -- leaves the collector sound, and sets the sample of its label values and no other of the gauge.
  pub metric_for-IsSound :
      (c : Collector p) (id node name : String) (result : Result p) (g : CustomMetric p)
      → c.latest_metric ≡ false
      → lookup name c.gauges ≡ some g
      → IsSound p c
      → (c' : Collector p) × (g' : CustomMetric p) × (metric_for p c id node name result ≡ some c')
        × IsSound p c'
        × (lookup name c'.gauges ≡ some g')
        × ((ls : List String)
            → p.value g'.gauge.gauge ls ≡ (
                if same_texts (label_values g.labels node id result.labels) ls
                then some result.value
                else p.value g.gauge.gauge ls))
  unfolding metric_for
  metric_for-IsSound c id node name result g off found s =
      let q = AreSoundGauges-lookup c.heap c.gauges name g s.gauges found in
      let values = label_values g.labels node id result.labels in
      let (r, e, w) =
        set_fresh-IsWritten p c.heap g.gauge values result.value
          (some_last-label_values g.labels node id result.labels q.some_label)
          (length-label_values g.labels node id result.labels ∙ sym q.arity) in
      let g' : CustomMetric p = record g { gauge = r.1 } in
      (
        record c { heap = r.0; gauges = insert name g' c.gauges },
        g',
        rw (found, metric_for) (rw (off, report-eq-set_fresh, e) refl),
        record {
          proc_error = w.others c.proc_error_gauge s.proc_error;
          proc_error_arity = s.proc_error_arity;
          duration = w.others c.duration_gauge s.duration;
          duration_arity = s.duration_arity;
          gauges =
              AreSoundGauges-insert r.0 c.gauges name g'
                (record {
                  tracked = w.tracked q.tracked;
                  arity = w.arity ∙ q.arity;
                  some_label = q.some_label;
                })
                (AreSoundGauges-grow p c.heap r.0 c.gauges w.others s.gauges);
        },
        rw (lookup-insert, eq_refl) refl,
        w.value,
      )

  -- A report touches nothing but the custom gauges.
  pub record IsAside (c c' : Collector p) : Type 0 where
    pub processing : c'.proc_error_gauge ≡ c.proc_error_gauge
    pub durations : c'.duration_gauge ≡ c.duration_gauge
    pub latest : c'.latest_metric ≡ c.latest_metric

  pub metric_for-IsAside :
      (c c' : Collector p) (id node name : String) (result : Result p)
      → metric_for p c id node name result ≡ some c'
      → IsAside c c'
  unfolding metric_for
  metric_for-IsAside c c' id node name result e = elim (Option-cases (lookup name c.gauges)) [
    | inl n ↦ ground arith
    | inr (g, n) ↦ elim (Option-cases (report p c.latest_metric c.heap g node id result)) [
      | inl f ↦ ground arith
      | inr (r, f) ↦ ground arith
    ]
  ]

  -- Where no latest sample is kept, `MetricFor` never panics on a sound collector, whatever the name.
  pub metric_for-total :
      (c : Collector p) (id node name : String) (result : Result p)
      → c.latest_metric ≡ false
      → IsSound p c
      → (c' : Collector p) × (metric_for p c id node name result ≡ some c')
        × IsSound p c'
        × IsAside c c'
  metric_for-total c id node name result off s = elim (Option-cases (lookup name c.gauges)) [
    | inl n ↦ (
      c,
      unfold metric_for in rw (n, metric_for) refl,
      s,
      record { processing = refl; durations = refl; latest = refl },
    )
    | inr (g, n) ↦
        let (c', g', e, s', rest, value) = metric_for-IsSound c id node name result g off n s in
        (c', e, s', metric_for-IsAside c c' id node name result e)
  ]
