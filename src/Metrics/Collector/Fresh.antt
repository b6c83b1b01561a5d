-- ===== src/Metrics/Collector/Fresh.antt =====
-- `NewPromCollector`: how it ends, and what it returns.
use batch_job_controller.Base.{
  String, Bool, true, List, [], ◌∷◌, none, some, ◌≡◌, ◌≢◌, ◌⊎◌, ◌↔◌, refl, if◌then◌else◌, arith,
  any, Bool-cases, inl, inr, subst, Option-cases,
}
use mathlib.Core.Option.{some-injective}
use batch_job_controller.Base.Dict.{Dict, insert, keys}
use batch_job_controller.Config.{Config, Metric, name_for}
use batch_job_controller.Metrics.Prom.{Prom}
use batch_job_controller.Metrics.Series.{new_metric}
use batch_job_controller.Metrics.Series.Tracking.{new_metric-IsTracked}
use batch_job_controller.Metrics.Collector.{
  CustomMetric, Collector, describe, Made, refused_name, unregistered, made, new_prom_collector,
  new_gauges, assemble,
}
use batch_job_controller.Metrics.Names.{contains, reserved, enrich_labels}
use batch_job_controller.Metrics.Collector.Labels.{some_last-enrich_labels}
use batch_job_controller.Metrics.Collector.Totals.{IsSoundGauge, AreSoundGauges, IsSound}
use batch_job_controller.Metrics.Collector.Reports.{AreSoundGauges-insert}

-- Is one of the configured gauges called by a reserved name?
abbrev pub any_reserved : Dict Metric → Bool
any_reserved gs = any (λ (k : String). contains k reserved) (keys gs)

module _ (p : Prom) where
  pub new_gauges-none_iff :
      (full : String → String) (gs : Dict Metric) (done : Dict (CustomMetric p))
      → (new_gauges p full gs done ≡ none) ↔ (any_reserved gs ≡ true)
  unfolding new_gauges
  new_gauges-none_iff full [] done = ground arith
  new_gauges-none_iff full ((k, g) ∷ gs) done =
      let g' : CustomMetric p = record {
        labels = enrich_labels g.labels;
        gauge = new_metric p (full k) g.help (enrich_labels g.labels);
      } in
      let ih = new_gauges-none_iff full gs (insert k g' done) in
      elim (Bool-cases (contains k reserved)) [ inl y ↦ rw y (ground arith) | inr n ↦ rw n ih ]

  -- the end of `NewPromCollector`, once the custom gauges are there
  abbrev pub registered : (version : String) → Config → Dict (CustomMetric p) → Made p
  registered version cfg gs =
      let c = assemble p version cfg gs in
      if p.registers (describe p c) then made c else unregistered

  pub new_prom_collector_cases :
      (version : String) (cfg : Config)
      → ((new_gauges p (name_for cfg.metrics) cfg.metrics.gauges [] ≡ none)
          × (new_prom_collector p version cfg ≡ refused_name))
        ⊎ ((gs : Dict (CustomMetric p)) × (new_gauges p (name_for cfg.metrics) cfg.metrics.gauges []
              ≡ some gs)
            × (new_prom_collector p version cfg ≡ registered version cfg gs))
  unfolding new_prom_collector
  new_prom_collector_cases version cfg =
      elim (Option-cases (new_gauges p (name_for cfg.metrics) cfg.metrics.gauges [])) [
        | inl n ↦ inl (n, rw (n, new_prom_collector) refl)
        | inr (gs, n) ↦ inr (gs, n, rw (n, new_prom_collector) refl)
      ]

  -- what a collector that has been made was made of
  pub made_of :
      (version : String) (cfg : Config) (c : Collector p)
      → new_prom_collector p version cfg ≡ made c
      → (gs : Dict (CustomMetric p)) × (new_gauges p (name_for cfg.metrics) cfg.metrics.gauges []
          ≡ some gs)
        × (p.registers (describe p (assemble p version cfg gs)) ≡ true)
        × (assemble p version cfg gs ≡ c)
  made_of version cfg c h = elim (new_prom_collector_cases version cfg) [
    | inl (n, e) ↦ absurd (cc)
    | inr (gs, n, e) ↦ elim (Bool-cases (p.registers (describe p (assemble p version cfg gs)))) [
      | inl y ↦ (gs, n, y, ground (arith, e, h, y))
      | inr o ↦ absurd (ground (arith, e, h, o))
    ]
  ]

  new_gauge-IsSound :
      (name help : String) (labels : List String)
      → IsSoundGauge p [] (record {
        labels = enrich_labels labels;
        gauge = new_metric p name help (enrich_labels labels);
      })
  unfolding new_metric
  new_gauge-IsSound name help labels = record {
    tracked = new_metric-IsTracked p [] name help (enrich_labels labels);
    arity = p.arity-fresh name help (enrich_labels labels);
    some_label = some_last-enrich_labels labels;
  }

  new_gauges-AreSoundGauges :
      (full : String → String) (gs : Dict Metric) (done out : Dict (CustomMetric p))
      → new_gauges p full gs done ≡ some out
      → AreSoundGauges p [] done
      → AreSoundGauges p [] out
  unfolding new_gauges
  new_gauges-AreSoundGauges full [] done out e s =
      subst (AreSoundGauges p []) (some-injective done out e) s
  new_gauges-AreSoundGauges full ((k, g) ∷ gs) done out e s =
      elim (Bool-cases (contains k reserved)) [
        | inl y ↦ absurd (ground arith)
        | inr n ↦
            new_gauges-AreSoundGauges full gs (insert k _ done) out (rw n at e)
              (AreSoundGauges-insert p [] done k _ (new_gauge-IsSound (full k) g.help g.labels) s)
      ]

  -- `NewPromCollector` returns its error exactly where a configured gauge has a reserved name.
  pub new_prom_collector-refused_iff :
      (version : String) (cfg : Config)
      → (new_prom_collector p version cfg ≡ refused_name) ↔ (any_reserved cfg.metrics.gauges ≡ true)
  new_prom_collector-refused_iff version cfg =
      let i = new_gauges-none_iff (name_for cfg.metrics) cfg.metrics.gauges [] in
      elim (new_prom_collector_cases version cfg) [
        | inl (n, e) ↦ (λ h. i.0 n, λ h. e)
        | inr (gs, n, e) ↦ (λ h. absurd (not_refused gs e h), λ h. absurd (cc (i.1 h)))
      ]
    where
      not_refused :
          (gs : Dict (CustomMetric p))
          → new_prom_collector p version cfg ≡ registered version cfg gs
          → new_prom_collector p version cfg ≢ refused_name
      not_refused gs e h =
          elim (Bool-cases (p.registers (describe p (assemble p version cfg gs)))) [
            | inl y ↦ ground (arith, e, h, y)
            | inr n ↦ ground (arith, e, h, n)
          ]

  assemble-IsSound :
      (version : String) (cfg : Config) (gs : Dict (CustomMetric p))
      → AreSoundGauges p [] gs
      → IsSound p (assemble p version cfg gs)
  unfolding assemble new_metric
  assemble-IsSound version cfg gs s = record {
    proc_error = new_metric-IsTracked p [] _ _ _;
    proc_error_arity = p.arity-fresh _ _ _;
    duration = new_metric-IsTracked p [] _ _ _;
    duration_arity = p.arity-fresh _ _ _;
    gauges = s;
  }

  -- A new collector is sound.
  pub new_prom_collector-IsSound :
      (version : String) (cfg : Config) (c : Collector p)
      → new_prom_collector p version cfg ≡ made c
      → IsSound p c
  new_prom_collector-IsSound version cfg c e =
      let (gs, n, r, is) = made_of version cfg c e in
      subst (IsSound p) is (
        assemble-IsSound version cfg gs
          (new_gauges-AreSoundGauges (name_for cfg.metrics) cfg.metrics.gauges [] gs n tt))
