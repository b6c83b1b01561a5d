-- ===== src/Metrics/Collector/Samples/Refinement.antt =====
-- The collector refines the tables of samples.
use batch_job_controller.Base.{
  String, Bool, false, List, [], ◌∷◌, Option, none, some, ◌≡◌, ◌∙◌, refl, sym, ap, subst, arith,
  ◌==◌, eq_iff, eq_refl, if◌then◌else◌, Option-cases, Bool-cases, inl, inr,
}
use mathlib.Core.Option.{some-injective}
use batch_job_controller.Base.Dict.{Dict, lookup, insert, lookup-insert}
use batch_job_controller.Metrics.Prom.{Prom}
use batch_job_controller.Metrics.Series.{ExecutionIdMetric}
use batch_job_controller.Metrics.Collector.{
  Result, CustomMetric, Collector, metric_for, prune_execution, set_fresh,
}
use batch_job_controller.Metrics.Names.{label_values}
use batch_job_controller.Metrics.Collector.Totals.{
  IsSound, processing_finished-IsFinished, duration-IsTimed,
}
use batch_job_controller.Metrics.Collector.Pruning.{
  prune_execution-IsPruned, lookup-prune_gauges, prune_execution_custom,
}
use batch_job_controller.Metrics.Collector.Reports.{
  metric_for-IsSound, metric_for-IsAside, report-eq-set_fresh,
}
use batch_job_controller.Metrics.Collector.Samples.{
  Change, finished, timed, pruned, reported, Samples, Shows, change, change_all, drop_samples,
  expect, expect_all, labels_in, sample_in, samples_of, set_sample, with_report,
}

module _ (p : Prom) where
  set_one :
      (c : Collector p) (s : Samples p) (name k : String) (g g'' : CustomMetric p)
      (values : List String) (x : p.Float) (ls : List String)
      → lookup name c.gauges ≡ some g
      → sample_in p c.gauges k ls ≡ s.customs k ls
      → p.value g''.gauge.gauge ls ≡ set_sample p values x (p.value g.gauge.gauge) ls
      → sample_in p (insert name g'' c.gauges) k ls
        ≡ (if name == k then set_sample p values x (s.customs k) else s.customs k) ls
  set_one c s name k g g'' values x ls n h v = elim (Bool-cases (name == k)) [
    | inl y ↦
        let found : lookup k c.gauges ≡ some g = ground (arith, eq_iff name k) in
        ground (arith, lookup-insert name k g'' c.gauges)
    | inr o ↦ ground (arith, lookup-insert name k g'' c.gauges)
  ]

  module _ (labels_of : String → Option (List String)) where
    finished-Shows :
        (c : Collector p) (s : Samples p) (node id : String) (err : Bool)
        → Shows p c labels_of s
        → (c' : Collector p) × (change p c (finished node id err) ≡ some c')
          × Shows p c' labels_of (expect p labels_of s (finished node id err))
    unfolding change expect
    finished-Shows c s node id err h =
        let (c', e, f) = processing_finished-IsFinished p c node id err h.sound in
        (
          c',
          e,
          record {
            sound = f.sound;
            latest = f.latest ∙ h.latest;
            labels =
                λ k. ap (λ (gs : Dict (CustomMetric p)). labels_in p gs k) f.customs ∙ h.labels k;
            processing = λ ls. f.value ls ∙ rw (h.latest, h.processing ls) refl;
            durations = λ ls. rw f.durations (h.durations ls);
            customs = λ k ls.
                ap (λ (gs : Dict (CustomMetric p)). sample_in p gs k ls) f.customs ∙ h.customs k ls;
          },
        )

    timed-Shows :
        (c : Collector p) (s : Samples p) (node id : String) (d : p.Float)
        → Shows p c labels_of s
        → (c' : Collector p) × (change p c (timed node id d) ≡ some c')
          × Shows p c' labels_of (expect p labels_of s (timed node id d))
    unfolding change expect
    timed-Shows c s node id d h =
        let (c', e, f) = duration-IsTimed p c node id d h.sound in
        (
          c',
          e,
          record {
            sound = f.sound;
            latest = f.latest ∙ h.latest;
            labels =
                λ k. ap (λ (gs : Dict (CustomMetric p)). labels_in p gs k) f.customs ∙ h.labels k;
            processing = λ ls. rw f.processing (h.processing ls);
            durations = λ ls. f.value ls ∙ rw (h.latest, h.durations ls) refl;
            customs = λ k ls.
                ap (λ (gs : Dict (CustomMetric p)). sample_in p gs k ls) f.customs ∙ h.customs k ls;
          },
        )

    pruned-Shows :
        (c : Collector p) (s : Samples p) (id : String)
        → Shows p c labels_of s
        → Shows p (prune_execution p c id) labels_of (expect p labels_of s (pruned id))
    unfolding expect prune_execution
    pruned-Shows c s id h =
        let f = prune_execution-IsPruned p c id h.sound in
        record {
          sound = f.sound;
          latest = h.latest;
          labels = λ k. ground (arith, lookup-prune_gauges p c.heap id k c.gauges, h.labels k);
          processing = λ ls. f.processing ls ∙ rw (h.processing ls) refl;
          durations = λ ls. f.durations ls ∙ rw (h.durations ls) refl;
          customs = λ k ls. pruned_custom k ls;
        }
      where
        pruned_custom :
            (k : String) (ls : List String)
            → sample_in p (prune_execution p c id).gauges k ls ≡ drop_samples p id (s.customs k) ls
        pruned_custom k ls = elim (Option-cases (lookup k c.gauges)) [
          | inl n ↦ ground (arith, lookup-prune_gauges p c.heap id k c.gauges, h.customs k ls, n)
          | inr (g, n) ↦
              let (g', e, v) = prune_execution_custom p c id k g h.sound n in
              ground (arith, e, v ls, h.customs k ls, n)
        ]

    -- the gauges after a report for a known one
    reported_gauges :
        (c c' : Collector p) (id node name : String) (result : Result p) (g : CustomMetric p)
        → c.latest_metric ≡ false
        → lookup name c.gauges ≡ some g
        → metric_for p c id node name result ≡ some c'
        → (m : ExecutionIdMetric p) × (c'.gauges ≡ insert name (record g { gauge = m }) c.gauges)
    unfolding metric_for
    reported_gauges c c' id node name result g off found e =
        elim (Option-cases
          (set_fresh p c.heap g.gauge (label_values g.labels node id result.labels) result.value)) [
            | inl n ↦ absurd (ground (arith, report-eq-set_fresh p c.heap g node id result))
            | inr (r, n) ↦ (r.1, ground (arith, report-eq-set_fresh p c.heap g node id result))
          ]

    absent-Shows :
        (c : Collector p) (s : Samples p) (id node name : String) (result : Result p)
        → lookup name c.gauges ≡ none
        → Shows p c labels_of s
        → (metric_for p c id node name result ≡ some c)
          × Shows p c labels_of (expect p labels_of s (reported id node name result))
    unfolding expect metric_for
    absent-Shows c s id node name result n h =
        let unknown : labels_of name ≡ none =
          sym (h.labels name)
          ∙ ap (λ (o : Option (CustomMetric p)). elim o [ none ↦ none | some g ↦ some g.labels ])
              n in
        let same : expect p labels_of s (reported id node name result) ≡ s =
          ap (λ (o : Option (List String)). with_report p s id node name result o) unknown in
        (ground arith, subst (λ (t : Samples p). Shows p c labels_of t) (sym same) h)

    reported-Shows :
        (c : Collector p) (s : Samples p) (id node name : String) (result : Result p)
        → Shows p c labels_of s
        → (c' : Collector p) × (metric_for p c id node name result ≡ some c')
          × Shows p c' labels_of (expect p labels_of s (reported id node name result))
    unfolding expect
    reported-Shows c s id node name result h = elim (Option-cases (lookup name c.gauges)) [
      | inl n ↦ let a = absent-Shows c s id node name result n h in (c, a.0, a.1)
      | inr (g, n) ↦
          let (c', g', e, sound, now, v) =
            metric_for-IsSound p c id node name result g h.latest n h.sound in
          let (m, gs) = reported_gauges c c' id node name result g h.latest n e in
          let aside = metric_for-IsAside p c c' id node name result e in
          let values = label_values g.labels node id result.labels in
          let g'' : CustomMetric p = record g { gauge = m } in
          let known : labels_of name ≡ some g.labels =
            sym (h.labels name)
            ∙ ap (λ (o : Option (CustomMetric p)). elim o [ none ↦ none | some k ↦ some k.labels ])
                n in
          let same : expect p labels_of s (reported id node name result) ≡ record s {
            customs = λ k.
                if name == k then set_sample p values result.value (s.customs k) else s.customs k;
          } =
            ap (λ (o : Option (List String)). with_report p s id node name result o) known in
          let is : g' ≡ g'' = some-injective g' g'' (
            sym now
            ∙ (ap (λ (d : Dict (CustomMetric p)). lookup name d) gs
                ∙ rw (lookup-insert, eq_refl) refl)) in
          let v' : (ls : List String)
              → p.value m.gauge ls ≡ set_sample p values result.value (p.value g.gauge.gauge) ls =
            λ ls. ap (λ (k : CustomMetric p). p.value k.gauge.gauge ls) (sym is) ∙ v ls in
          (
            c',
            e,
            subst (λ (t : Samples p). Shows p c' labels_of t) (sym same)
                (record {
                  sound = sound;
                  latest = aside.latest ∙ h.latest;
                  labels = λ k.
                      ap (λ (d : Dict (CustomMetric p)). labels_in p d k) gs
                      ∙ ground
                          (arith, lookup-insert name k g'' c.gauges, eq_iff name k, h.labels k, n);
                  processing = λ ls.
                      ap (λ (x : ExecutionIdMetric p). p.value x.gauge ls) aside.processing
                      ∙ h.processing ls;
                  durations = λ ls.
                      ap (λ (x : ExecutionIdMetric p). p.value x.gauge ls) aside.durations
                      ∙ h.durations ls;
                  customs = λ k ls.
                      ap (λ (d : Dict (CustomMetric p)). sample_in p d k ls) gs
                      ∙ set_one c s name k g g'' values result.value ls n (h.customs k ls) (v' ls);
                }),
          )
    ]

    change-Shows :
        (c : Collector p) (s : Samples p) (v : Change p)
        → Shows p c labels_of s
        → (c' : Collector p) × (change p c v ≡ some c')
          × Shows p c' labels_of (expect p labels_of s v)
    unfolding change
    change-Shows c s (finished node id err) h = finished-Shows c s node id err h
    change-Shows c s (timed node id d) h = timed-Shows c s node id d h
    change-Shows c s (pruned id) h = (prune_execution p c id, refl, pruned-Shows c s id h)
    change-Shows c s (reported id node name result) h = reported-Shows c s id node name result h

    change_all-Shows :
        (c : Collector p) (s : Samples p) (vs : List (Change p))
        → Shows p c labels_of s
        → (c' : Collector p) × (change_all p c vs ≡ some c')
          × Shows p c' labels_of (expect_all p labels_of s vs)
    unfolding change_all expect_all
    change_all-Shows c s [] h = (c, refl, h)
    change_all-Shows c s (v ∷ vs) h =
        let (d, e, g) = change-Shows c s v h in
        let (c', f, k) = change_all-Shows d (expect p labels_of s v) vs g in (c', rw e f, k)

  -- The collector, where it is sound and keeps no latest sample, refines the tables of samples: a sequence
  -- of calls of `ProcessingFinished`, `Duration`, `Prune` and `MetricFor` never panics, and afterwards the
  -- samples of every metric are those that the same calls leave of the tables, by setting and dropping
  -- alone. The collector is sound again, keeps no latest sample, and its gauges have the same labels.
  pub change_all-refines :
      (c : Collector p) (vs : List (Change p))
      → IsSound p c
      → c.latest_metric ≡ false
      → (c' : Collector p) × (change_all p c vs ≡ some c')
        × Shows p c'
            (labels_in p c.gauges)
            (expect_all p (labels_in p c.gauges) (samples_of p c) vs)
  change_all-refines c vs sound off =
      change_all-Shows (labels_in p c.gauges) c (samples_of p c) vs (record {
        sound = sound;
        latest = off;
        labels = λ k. refl;
        processing = λ ls. refl;
        durations = λ ls. refl;
        customs = λ k ls. refl;
      })
