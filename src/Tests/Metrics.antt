-- ===== src/Tests/Metrics.antt =====
-- Runs of the collector, with a sample of the processing metric and one of the gauge "size".
use batch_job_controller.Base.{true, List, [], ◌∷◌, none, some, ◌≡◌, refl}
use batch_job_controller.Config.{Config}
use batch_job_controller.Base.Dict.{lookup}
use batch_job_controller.Metrics.Collector.{
  Collector, unregistered, new_prom_collector, Result, CustomMetric, prune_execution, metric_for,
  assemble,
}
use batch_job_controller.Metrics.Names.{label_values}
use batch_job_controller.Metrics.Collector.Leak.{metric_for_survives_prune}
use batch_job_controller.Metrics.Collector.Samples.{
  Change, finished, pruned, reported, change_all, expect_all, samples_of, labels_in, Shows,
}
use batch_job_controller.Metrics.Collector.Samples.Refinement.{change_all-refines}
use batch_job_controller.Metrics.Series.{new_metric}
use batch_job_controller.Metrics.Collector.Registration.{new_prom_collector_clash}
use batch_job_controller.Tests.Fixtures.{
  prom, config, collector, collector-IsSound, size_gauge, differ,
}

abbrev seven : Result prom
seven = record { value = 7; labels = ("disk", "sda") ∷ [] }

abbrev with_latest : Collector prom
with_latest = record collector { latest_metric = true }

metric_for_survives_prune_example :
    (c' : Collector prom) × (g' : CustomMetric prom) × (metric_for prom with_latest "20200102" "n"
        "size" seven
      ≡ some c')
    × (lookup "size" (prune_execution prom c' "20200102").gauges ≡ some g')
    × (prom.value g'.gauge.gauge ("sda" ∷ "n" ∷ "20200102" ∷ []) ≡ some 7)
    × (prom.value g'.gauge.gauge ("sda" ∷ "n" ∷ "latest" ∷ []) ≡ none)
unfolding label_values assemble new_metric
metric_for_survives_prune_example =
    metric_for_survives_prune prom with_latest "20200102" "n" "size" seven size_gauge
      (collector-IsSound.gauges.0) refl refl refl (differ "20200102" "latest" refl) refl

-- an outcome and a report, and a second report once the execution is pruned
abbrev changes : List (Change prom)
changes =
    finished "n" "20200102" true
    ∷ reported "20200102" "n" "size" seven
    ∷ pruned "20200102"
    ∷ reported "20200103" "n" "size" seven
    ∷ []

change_all-refines_example :
    (c' : Collector prom) × (change_all prom collector changes ≡ some c')
    × Shows prom c'
        (labels_in prom collector.gauges)
        (expect_all prom (labels_in prom collector.gauges) (samples_of prom collector) changes)
unfolding assemble
change_all-refines_example = change_all-refines prom collector changes collector-IsSound refl

abbrev clashing : Config
clashing = record config {
  metrics = record config.metrics {
    gauges = ("current_execution_id", record { help = "The id"; labels = [] }) ∷ [];
  };
}

new_prom_collector_clash_example : new_prom_collector prom "1.0" clashing ≡ unregistered
new_prom_collector_clash_example =
    new_prom_collector_clash prom "1.0" clashing (record { help = "The id"; labels = [] }) refl refl
