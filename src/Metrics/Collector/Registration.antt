-- ===== src/Metrics/Collector/Registration.antt =====
-- The registration of a new collector.
use batch_job_controller.Base.{
  ℕ, suc, String, false, List, [], ◌∷◌, some, ◌≡◌, ◌≢◌, ◌∙◌, refl, sym, ap, subst, arith, get_elem?,
  ◌==◌, eq_iff, eq_refl, Bool-cases, inl, inr,
}
use mathlib.Core.Option.{some-injective}
use batch_job_controller.Base.Dict.{Dict, lookup, insert, lookup-insert}
use batch_job_controller.Config.{Config, Metric, name_for}
use batch_job_controller.Metrics.Prom.{Desc, Prom}
use batch_job_controller.Metrics.Series.{new_metric}
use batch_job_controller.Metrics.Collector.{
  CustomMetric, describe_custom, describe, new_gauges, assemble, unregistered, new_prom_collector,
}
use batch_job_controller.Metrics.Names.{current_execution_metric, enrich_labels, contains, reserved}
use batch_job_controller.Metrics.Collector.Labels.{some_last-enrich_labels}
use batch_job_controller.Metrics.Collector.Fresh.{
  any_reserved, new_prom_collector_cases, new_gauges-none_iff,
}

enrich_labels-ne-nil : (labels : List String) → enrich_labels labels ≢ []
enrich_labels-ne-nil labels e = some_last-enrich_labels labels (rw e refl)

module _ (p : Prom) where
  -- A gauge of this name, with the full name and with labels.
  record HasGauge (full : String → String) (k : String) (gs : Dict (CustomMetric p)) : Type 0 where
    gauge : CustomMetric p
    found : lookup k gs ≡ some gauge
    named : (p.desc gauge.gauge.gauge).name ≡ full k
    labelled : (p.desc gauge.gauge.gauge).labels ≢ []

  new_gauge-desc :
      (name help : String) (labels : List String)
      → p.desc (new_metric p name help labels).gauge
        ≡ record { name = name; help = help; labels = labels }
  unfolding new_metric
  new_gauge-desc name help labels = p.desc-fresh name help labels

  -- the gauge that `NewPromCollector` makes for a name
  abbrev gauge_for : (full : String → String) → String → Metric → CustomMetric p
  gauge_for full k metric = record {
    labels = enrich_labels metric.labels;
    gauge = new_metric p (full k) metric.help (enrich_labels metric.labels);
  }

  HasGauge-new :
      (full : String → String) (k : String) (metric : Metric) (gs : Dict (CustomMetric p))
      → HasGauge full k (insert k (gauge_for full k metric) gs)
  HasGauge-new full k metric gs =
      let d = new_gauge-desc (full k) metric.help (enrich_labels metric.labels) in
      record {
        gauge = gauge_for full k metric;
        found = lookup-insert k k (gauge_for full k metric) gs ∙ rw eq_refl refl;
        named = ap (λ (x : Desc). x.name) d;
        labelled = rw d (enrich_labels-ne-nil metric.labels);
      }

  HasGauge-insert :
      (full : String → String) (k j : String) (metric : Metric) (gs : Dict (CustomMetric p))
      → HasGauge full k gs
      → HasGauge full k (insert j (gauge_for full j metric) gs)
  HasGauge-insert full k j metric gs h = elim (Bool-cases (j == k)) [
    | inl y ↦
        subst (λ (i : String). HasGauge full k (insert i (gauge_for full i metric) gs))
          (sym ((eq_iff j k).0 y)) (HasGauge-new full k metric gs)
    | inr n ↦ record {
      gauge = h.gauge;
      found = lookup-insert j k (gauge_for full j metric) gs ∙ rw n h.found;
      named = h.named;
      labelled = h.labelled;
    }
  ]

  -- the loop keeps such a gauge, and makes one for a name that is configured
  new_gauges-kept :
      (full : String → String) (k : String) (ms : Dict Metric) (gs out : Dict (CustomMetric p))
      → new_gauges p full ms gs ≡ some out
      → HasGauge full k gs
      → HasGauge full k out
  unfolding new_gauges
  new_gauges-kept full k [] gs out e h = subst (HasGauge full k) (some-injective gs out e) h
  new_gauges-kept full k ((j, metric) ∷ ms) gs out e h = elim (Bool-cases (contains j reserved)) [
    | inl y ↦ absurd (ground arith)
    | inr n ↦
        new_gauges-kept full k ms (insert j (gauge_for full j metric) gs) out (rw n at e)
          (HasGauge-insert full k j metric gs h)
  ]

  new_gauges-made :
      (full : String → String) (k : String) (metric : Metric) (ms : Dict Metric)
      (gs out : Dict (CustomMetric p))
      → new_gauges p full ms gs ≡ some out
      → lookup k ms ≡ some metric
      → HasGauge full k out
  unfolding new_gauges
  new_gauges-made full k metric [] gs out e h = absurd (cc)
  new_gauges-made full k metric ((j, m) ∷ ms) gs out e h = elim (Bool-cases (contains j reserved)) [
    | inl y ↦ absurd (ground arith)
    | inr n ↦ elim (Bool-cases (j == k)) [
      | inl same ↦ new_gauges-kept full k ms (insert j (gauge_for full j m) gs) out (rw n at e) (
          subst (λ (i : String). HasGauge full k (insert i (gauge_for full i m) gs))
            (sym ((eq_iff j k).0 same)) (HasGauge-new full k m gs))
      | inr other ↦
          new_gauges-made full k metric ms (insert j (gauge_for full j m) gs) out (rw n at e)
            (rw other at h)
    ]
  ]

  lookup-describe_custom :
      (gs : Dict (CustomMetric p)) (k : String) (g : CustomMetric p)
      → lookup k gs ≡ some g
      → (i : ℕ) × (get_elem? (describe_custom p gs) i ≡ some (p.desc g.gauge.gauge))
  unfolding describe_custom
  lookup-describe_custom [] k g h = absurd (ground arith)
  lookup-describe_custom ((j, x) ∷ gs) k g h = elim (Bool-cases (j == k)) [
    | inl y ↦ (0, ground (arith, h, y))
    | inr n ↦ let (i, e) = lookup-describe_custom gs k g (ground (arith, h, n)) in (suc i, e)
  ]

  -- such a gauge does not go with the one of the execution
  clash :
      (version : String) (cfg : Config) (gs : Dict (CustomMetric p))
      → HasGauge (name_for cfg.metrics) current_execution_metric gs
      → p.registers (describe p (assemble p version cfg gs)) ≡ false
  unfolding describe assemble
  clash version cfg gs h =
      let c = assemble p version cfg gs in
      elim (Bool-cases (p.registers (describe p c))) [
        | inr n ↦ n
        | inl y ↦
            let d =
              p.desc-fresh (name_for cfg.metrics current_execution_metric)
                "The current execution ID" [] in
            let (i, at_i) = lookup-describe_custom gs current_execution_metric h.gauge h.found in
            let same =
              p.registers-same (describe p c) 0 (suc (suc (suc (suc (suc i))))) _
                (p.desc h.gauge.gauge.gauge) y refl at_i (rw d (sym h.named)) in
            absurd (h.labelled (sym same.1 ∙ ap (λ (x : Desc). x.labels) d))
      ]

  -- A configuration with a gauge called "current_execution_id", and none of a reserved name, is not refused:
  -- the registration of its collector panics.
  pub new_prom_collector_clash :
      (version : String) (cfg : Config) (metric : Metric)
      → lookup current_execution_metric cfg.metrics.gauges ≡ some metric
      → any_reserved cfg.metrics.gauges ≡ false
      → new_prom_collector p version cfg ≡ unregistered
  new_prom_collector_clash version cfg metric h free =
      elim (new_prom_collector_cases p version cfg) [
        | inl (n, e) ↦
            absurd (cc ((new_gauges-none_iff p (name_for cfg.metrics) cfg.metrics.gauges []).0 n))
        | inr (gs, n, e) ↦
            let g =
              new_gauges-made (name_for cfg.metrics) current_execution_metric metric
                cfg.metrics.gauges [] gs n h in
            ground (arith, e, clash version cfg gs g)
      ]
