-- ===== src/Metrics/Collector/Samples.antt =====
-- What the collector promises, without its slices and its remembered labels: tables of samples, by their
-- label values, that are set and dropped.
pub mod Refinement
use batch_job_controller.Base.{
  String, Bool, false, List, [], ◌∷◌, Option, none, some, ◌≡◌, ◌∙◌, refl, sym, ap, subst, arith,
  ◌>>=◌, ◌==◌, eq_iff, eq_refl, same_texts, if◌then◌else◌, Option-cases, Bool-cases, inl, inr,
}
use mathlib.Core.Option.{some-injective}
use batch_job_controller.Base.Dict.{Dict, lookup, insert, lookup-insert}
use batch_job_controller.Metrics.Prom.{Prom}
use batch_job_controller.Metrics.Series.{ExecutionIdMetric}
use batch_job_controller.Metrics.Collector.{
  Result, CustomMetric, Collector, processing_finished, duration, metric_for, prune_execution,
  set_fresh,
}
use batch_job_controller.Metrics.Names.{label_values}
use batch_job_controller.Metrics.Collector.Totals.{
  IsSound, outcome, processing_finished-IsFinished, duration-IsTimed,
}
use batch_job_controller.Metrics.Collector.Pruning.{
  filed_under, prune_execution-IsPruned, lookup-prune_gauges, prune_execution_custom,
}
use batch_job_controller.Metrics.Collector.Reports.{
  metric_for-IsSound, metric_for-IsAside, report-eq-set_fresh,
}

module _ (p : Prom) where
  -- A call of `ProcessingFinished`, `Duration`, `Prune` or `MetricFor`.
  pub data Change : Type 0 where
    finished : (node id : String) → Bool → Change
    timed : (node id : String) → p.Float → Change
    pruned : (id : String) → Change
    reported : (id node name : String) → Result p → Change

  unfoldable pub change : Collector p → Change → Option (Collector p)
  change c (finished node id err) = processing_finished p c node id err
  change c (timed node id d) = duration p c node id d
  change c (pruned id) = some (prune_execution p c id)
  change c (reported id node name result) = metric_for p c id node name result

  unfoldable pub change_all : Collector p → List Change → Option (Collector p)
  unfolding change
  change_all c [] = some c
  change_all c (v ∷ vs) = change c v >>= λ c'. change_all c' vs

  -- The samples that there are: of the two built-in metrics, and of the custom ones by their names.
  abbrev pub Table : Type 0
  Table = List String → Option p.Float

  pub record Samples : Type 0 where
    pub processing : Table
    pub durations : Table
    pub customs : String → Table

  abbrev pub set_sample : List String → p.Float → Table → Table
  set_sample ls x t = λ ms. if same_texts ls ms then some x else t ms

  abbrev pub drop_samples : (id : String) → Table → Table
  drop_samples id t = λ ms. if filed_under id ms then none else t ms

  -- what a report does, for the labels of the gauge of its name, if there is one
  abbrev pub with_report :
      Samples → (id node name : String) → Result p → Option (List String) → Samples
  with_report s id node name result none = s
  with_report s id node name result (some labels) = record s {
    customs = λ k.
        if name == k
        then set_sample (label_values labels node id result.labels) result.value (s.customs k)
        else s.customs k;
  }

  -- What a call does to the samples.
  unfoldable pub expect : (labels_of : String → Option (List String)) → Samples → Change → Samples
  expect labels_of s (finished node id err) = record s {
    processing = set_sample (node ∷ id ∷ []) (outcome p err) s.processing;
  }
  expect labels_of s (timed node id d) = record s {
    durations = set_sample (node ∷ id ∷ []) d s.durations;
  }
  expect labels_of s (pruned id) = record {
    processing = drop_samples id s.processing;
    durations = drop_samples id s.durations;
    customs = λ k. drop_samples id (s.customs k);
  }
  expect labels_of s (reported id node name result) =
      with_report s id node name result (labels_of name)

  unfoldable pub expect_all :
      (labels_of : String → Option (List String)) → Samples → List Change → Samples
  unfolding expect
  expect_all labels_of s [] = s
  expect_all labels_of s (v ∷ vs) = expect_all labels_of (expect labels_of s v) vs

  -- the samples and the labels of a collector
  abbrev pub sample_in : Dict (CustomMetric p) → String → Table
  sample_in gs k ls = elim (lookup k gs) [ none ↦ none | some g ↦ p.value g.gauge.gauge ls ]

  abbrev pub labels_in : Dict (CustomMetric p) → String → Option (List String)
  labels_in gs k = elim (lookup k gs) [ none ↦ none | some g ↦ some g.labels ]

  abbrev pub samples_of : Collector p → Samples
  samples_of c = record {
    processing = p.value c.proc_error_gauge.gauge;
    durations = p.value c.duration_gauge.gauge;
    customs = sample_in c.gauges;
  }

  -- A sound collector that keeps no latest sample shows these samples, and its gauges have these labels.
  pub record Shows (c : Collector p) (labels_of : String → Option (List String)) (s : Samples)
      : Type 0 where
    pub sound : IsSound p c
    pub latest : c.latest_metric ≡ false
    pub labels : (k : String) → labels_in c.gauges k ≡ labels_of k
    pub processing : (ls : List String) → p.value c.proc_error_gauge.gauge ls ≡ s.processing ls
    pub durations : (ls : List String) → p.value c.duration_gauge.gauge ls ≡ s.durations ls
    pub customs : (k : String) (ls : List String) → sample_in c.gauges k ls ≡ s.customs k ls
