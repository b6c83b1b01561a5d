-- ===== src/Metrics/Collector/Pruning.antt =====
-- `Prune` of the collector: all samples of one execution go, and no others.
use batch_job_controller.Base.{
  String, Bool, false, List, [], ◌∷◌, none, some, ◌≡◌, refl, arith, get_last?, eq_iff, ◌==◌,
  if◌then◌else◌, Option-cases, Bool-cases, inl, inr,
}
use batch_job_controller.Base.Dict.{Dict, lookup}
use batch_job_controller.Metrics.Prom.{Prom}
use batch_job_controller.Metrics.Series.{Heap, ExecutionIdMetric, prune}
use batch_job_controller.Metrics.Series.Tracking.{IsTracked}
use batch_job_controller.Metrics.Series.Prune.{
  prune_own, prune_others, prune-IsTracked, arity-prune,
}
use batch_job_controller.Metrics.Collector.{CustomMetric, Collector, prune_execution, prune_gauges}
use batch_job_controller.Metrics.Collector.Totals.{AreSoundGauges, IsSound}
use batch_job_controller.Metrics.Collector.Reports.{AreSoundGauges-lookup}

-- Is the execution the last of the label values?
abbrev pub filed_under : String → List String → Bool
filed_under id ls = elim (get_last? ls) [ none ↦ false | some j ↦ j == id ]

module _ (p : Prom) where
  pub lookup-prune_gauges :
      (h : Heap) (id k : String) (gs : Dict (CustomMetric p))
      → lookup k (prune_gauges p h id gs) ≡ elim (lookup k gs) [
        | none ↦ none
        | some g ↦ some (record g { gauge = prune p h g.gauge id })
      ]
  unfolding prune_gauges
  lookup-prune_gauges h id k [] = refl
  lookup-prune_gauges h id k ((j, g) ∷ gs) = ground (arith, lookup-prune_gauges h id k gs)

  value-prune_filed :
      (h : Heap) (m : ExecutionIdMetric p) (id : String) (ls : List String)
      → IsTracked p h m
      → p.value (prune p h m id).gauge ls ≡ (if filed_under id ls then none else p.value m.gauge ls)
  value-prune_filed h m id ls t = elim (Option-cases (get_last? ls)) [
    | inl n ↦ ground (arith, prune_others p h m id ls t (λ e. cc))
    | inr (j, n) ↦ elim (Bool-cases (j == id)) [
      | inl y ↦ ground (arith, eq_iff j id, prune_own p h m id ls t (ground (arith, eq_iff j id)))
      | inr y ↦ ground (arith, prune_others p h m id ls t (λ e. ground (arith, eq_iff j id)))
    ]
  ]

  prune_gauges-AreSoundGauges :
      (h : Heap) (id : String) (gs : Dict (CustomMetric p))
      → AreSoundGauges p h gs
      → AreSoundGauges p h (prune_gauges p h id gs)
  unfolding prune_gauges
  prune_gauges-AreSoundGauges h id [] s = tt
  prune_gauges-AreSoundGauges h id ((k, g) ∷ gs) (q, s) = (
    record {
      tracked = prune-IsTracked p h g.gauge id q.tracked;
      arity = ground (arith, arity-prune p h g.gauge id, q.arity);
      some_label = q.some_label;
    },
    prune_gauges-AreSoundGauges h id gs s,
  )

  -- What `Prune` leaves of the built-in metrics.
  pub record IsPruned (c c' : Collector p) (id : String) : Type 0 where
    pub sound : IsSound p c'
    pub processing :
        (ls : List String)
        → p.value c'.proc_error_gauge.gauge ls
          ≡ (if filed_under id ls then none else p.value c.proc_error_gauge.gauge ls)
    pub durations :
        (ls : List String)
        → p.value c'.duration_gauge.gauge ls
          ≡ (if filed_under id ls then none else p.value c.duration_gauge.gauge ls)

  -- Pruning an execution of a sound collector leaves it sound. Of the processing and the duration
  -- metric exactly the samples whose last label value is the execution are gone.
  pub prune_execution-IsPruned :
      (c : Collector p) (id : String) → IsSound p c → IsPruned c (prune_execution p c id) id
  unfolding prune_execution
  prune_execution-IsPruned c id s = record {
    sound = record {
      proc_error = prune-IsTracked p c.heap c.proc_error_gauge id s.proc_error;
      proc_error_arity =
          ground (arith, arity-prune p c.heap c.proc_error_gauge id, s.proc_error_arity);
      duration = prune-IsTracked p c.heap c.duration_gauge id s.duration;
      duration_arity = ground (arith, arity-prune p c.heap c.duration_gauge id, s.duration_arity);
      gauges = prune_gauges-AreSoundGauges c.heap id c.gauges s.gauges;
    };
    processing = λ ls. value-prune_filed c.heap c.proc_error_gauge id ls s.proc_error;
    durations = λ ls. value-prune_filed c.heap c.duration_gauge id ls s.duration;
  }

  -- Pruning an execution of a sound collector takes from a custom gauge exactly the samples whose
  -- last label value is the execution.
  pub prune_execution_custom :
      (c : Collector p) (id k : String) (g : CustomMetric p)
      → IsSound p c
      → lookup k c.gauges ≡ some g
      → (g' : CustomMetric p) × (lookup k (prune_execution p c id).gauges ≡ some g')
        × ((ls : List String)
            → p.value g'.gauge.gauge ls
              ≡ (if filed_under id ls then none else p.value g.gauge.gauge ls))
  unfolding prune_execution
  prune_execution_custom c id k g s found = (
    record g { gauge = prune p c.heap g.gauge id },
    ground (arith, lookup-prune_gauges c.heap id k c.gauges, found),
    λ ls.
        value-prune_filed c.heap g.gauge id ls
          (AreSoundGauges-lookup p c.heap c.gauges k g s.gauges found).tracked,
  )
