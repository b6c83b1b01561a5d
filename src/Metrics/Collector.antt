-- ===== src/Metrics/Collector.antt =====
-- pkg/metrics/metrics.go: the collector and its operations, with its registration.
pub mod Totals
pub mod Labels
pub mod Reports
pub mod Leak
pub mod Pruning
pub mod Fresh
pub mod Registration
pub mod Samples
use batch_job_controller.Base.{
  ℕ, zero, suc, String, Bool, true, false, List, [], ◌∷◌, ◌++◌, map, Option, none, some, ◌>>=◌,
  ◌<>◌, ◌==◌, ◌||◌, any, not, if◌then◌else◌,
}
use batch_job_controller.Base.Dict.{Dict, lookup, insert}
use batch_job_controller.Base.Int.{ℤ, pos, itoa}
use batch_job_controller.Config.{Config, Metric, name_for}
use batch_job_controller.Metrics.Names.{
  label_node, label_value_latest, label_execution_id, version_metric, proc_error_help, version_help,
  pods_help, current_execution_help, duration_help, current_execution_metric, proc_error_metric,
  duration_metric, pods_metric, label_prefix, label_cron, contains, reserved, enrich_labels,
  get_text, label_values,
}
use batch_job_controller.Metrics.Prom.{Desc, Prom}
use batch_job_controller.Metrics.Series.{
  Heap, alloc, write_last, ExecutionIdMetric, new_metric, with_label_values, prune,
}

-- `values[len(values)-1] = labelValueLatest`, in the slice that was just remembered
abbrev pub to_latest : Heap → ℕ → List String → Heap
to_latest h r [] = h
to_latest h r (v ∷ vs) = write_last h r label_value_latest

-- `Result`; a nil map is the empty one, since `MetricFor` makes it
pub record Result (p : Prom) : Type 0 where
  pub value : p.Float
  pub labels : Dict String

-- `Results`
abbrev pub Results : Prom → Type 0
Results p = Dict (List (Result p))

module _ (p : Prom) where
  open p use {Float, Vec, of_int, fresh, put, desc, registers}

  -- `customMetric`
  pub record CustomMetric : Type 0 where
    pub gauge : ExecutionIdMetric p
    pub labels : List String

  -- `Collector`, with the heap of the slices that its metrics remember
  pub record Collector : Type 0 where
    pub gauges : Dict CustomMetric
    pub execution_id_gauge : Vec
    pub proc_error_gauge : ExecutionIdMetric p
    pub duration_gauge : ExecutionIdMetric p
    pub pods_gauge : Vec
    pub version_gauge : Vec
    pub namespace : String
    pub latest_metric : Bool
    pub heap : Heap

  -- the loop of `Describe` over the custom gauges
  unfoldable pub describe_custom : Dict CustomMetric → List Desc
  describe_custom [] = []
  describe_custom ((k, g) ∷ gs) = desc g.gauge.gauge ∷ describe_custom gs

  -- `Describe`: the descriptors that it sends, in their order
  unfoldable pub describe : Collector → List Desc
  unfolding describe_custom
  describe c =
      desc c.execution_id_gauge
      ∷ desc c.pods_gauge
      ∷ desc c.version_gauge
      ∷ desc c.proc_error_gauge.gauge
      ∷ desc c.duration_gauge.gauge
      ∷ describe_custom c.gauges

  -- the loop of `Collect` over the custom gauges
  unfoldable pub collect_custom : Dict CustomMetric → List Vec
  collect_custom [] = []
  collect_custom ((k, g) ∷ gs) = g.gauge.gauge ∷ collect_custom gs

  -- `Collect`: the vectors whose samples it sends, in their order
  unfoldable pub collect : Collector → List Vec
  unfolding collect_custom
  collect c =
      c.execution_id_gauge
      ∷ c.pods_gauge
      ∷ c.version_gauge
      ∷ c.proc_error_gauge.gauge
      ∷ c.duration_gauge.gauge
      ∷ collect_custom c.gauges

  -- `ExecutionStarted`
  unfoldable pub execution_started : Collector → Float → Collector
  execution_started c x = record c { execution_id_gauge = put c.execution_id_gauge [] x }

  -- `Pods`
  unfoldable pub pods : Collector → Float → Collector
  pods c x = record c { pods_gauge = put c.pods_gauge [] x }

  -- the loop of `Prune` over the custom gauges
  unfoldable pub prune_gauges : Heap → String → Dict CustomMetric → Dict CustomMetric
  prune_gauges h id [] = []
  prune_gauges h id ((k, g) ∷ gs) =
      (k, record g { gauge = prune p h g.gauge id }) ∷ prune_gauges h id gs

  -- `Prune`
  unfoldable pub prune_execution : Collector → String → Collector
  unfolding prune_gauges
  prune_execution c id = record c {
    proc_error_gauge = prune p c.heap c.proc_error_gauge id;
    duration_gauge = prune p c.heap c.duration_gauge id;
    gauges = prune_gauges c.heap id c.gauges;
  }

  -- a variadic call `m.withLabelValues(ls...)` of listed texts makes a slice of its own
  unfoldable pub set_fresh :
      Heap → ExecutionIdMetric p → List String → Float → Option (Heap × ExecutionIdMetric p)
  set_fresh h m ls x = do let (h', r) = alloc h ls; m' ← with_label_values p h' m r x; some (h', m')

  -- the two writes that `ProcessingFinished` and `Duration` make
  unfoldable pub set_and_latest :
      Bool
      → Heap
      → ExecutionIdMetric p
      → (node id : String) → Float
      → Option (Heap × ExecutionIdMetric p)
  unfolding set_fresh
  set_and_latest latest h m node id x = do
    r ← set_fresh h m (node ∷ id ∷ []) x
    if latest then set_fresh r.0 r.1 (node ∷ label_value_latest ∷ []) x else some r

  -- `ProcessingFinished`
  unfoldable pub processing_finished : Collector → (node id : String) → Bool → Option Collector
  processing_finished c node id err = do
    let x = if err then of_int (pos 1) else of_int (pos 0)
    r ← set_and_latest c.latest_metric c.heap c.proc_error_gauge node id x
    some (record c { heap = r.0; proc_error_gauge = r.1 })

  -- `Duration`
  unfoldable pub duration : Collector → (node id : String) → Float → Option Collector
  duration c node id d = do
    r ← set_and_latest c.latest_metric c.heap c.duration_gauge node id d
    some (record c { heap = r.0; duration_gauge = r.1 })

  -- the body of `MetricFor`, for a gauge that exists: both calls are given the same slice
  unfoldable pub report :
      Bool → Heap → CustomMetric → (node id : String) → Result p → Option (Heap × CustomMetric)
  unfolding label_values
  report latest h g node id result = do
    let values = label_values g.labels node id result.labels
    let (h', r) = alloc h values
    m ← with_label_values p h' g.gauge r result.value
    let h'' = to_latest h' r values
    let again =
        with_label_values p h'' m r result.value >>= λ m'. some (h'', record g { gauge = m' })
    if latest then again else some (h', record g { gauge = m })

  -- `MetricFor`
  unfoldable pub metric_for : Collector → (id node name : String) → Result p → Option Collector
  unfolding report
  metric_for c id node name result = elim (lookup name c.gauges) [
    | none ↦ some c
    | some g ↦ (do
      r ← report c.latest_metric c.heap g node id result
      some (record c { heap = r.0; gauges = insert name r.1 c.gauges }))
  ]

  -- the loop of `NewPromCollector` over the configured gauges; `none` is its error
  unfoldable pub new_gauges :
      (prefix_of : String → String) → Dict Metric → Dict CustomMetric → Option (Dict CustomMetric)
  new_gauges full [] done = some done
  new_gauges full ((name, metric) ∷ rest) done =
      let labels = enrich_labels metric.labels in
      let go = new_gauges full rest (
        insert name
          (record { labels = labels; gauge = new_metric p (full name) metric.help labels }) done) in
      if contains name reserved then none else go

  -- the collector that `NewPromCollector` fills in, once the custom gauges are there
  unfoldable pub assemble : (version : String) → Config → Dict CustomMetric → Collector
  assemble version cfg gauges =
      let full = name_for cfg.metrics in
      let version_gauge =
        fresh version_metric version_help
          ("version" ∷ "name" ∷ label_prefix ∷ "poolSize" ∷ "reportHistory" ∷ label_cron ∷ []) in
      record {
        gauges = gauges;
        execution_id_gauge = fresh (full current_execution_metric) current_execution_help [];
        proc_error_gauge =
            new_metric p (full proc_error_metric) proc_error_help
              (label_node ∷ label_execution_id ∷ []);
        duration_gauge =
            new_metric p (full duration_metric) duration_help
              (label_node ∷ label_execution_id ∷ []);
        pods_gauge = fresh (full pods_metric) pods_help [];
        version_gauge =
            put version_gauge
              (version
                ∷ cfg.name
                ∷ cfg.metrics.prefix
                ∷ itoa cfg.pod_pool_size
                ∷ itoa cfg.report_history
                ∷ cfg.cron_expression
                ∷ [])
              (of_int (pos 1));
        namespace = cfg.namespace;
        latest_metric = cfg.latest_metrics_label;
        heap = [];
      }

  -- How `NewPromCollector` ends: with its error, with the panic of `MustRegister`, or with a collector.
  pub data Made : Type 0 where
    refused_name : Made
    unregistered : Made
    made : Collector → Made

  -- `NewPromCollector`, for a version text
  unfoldable pub new_prom_collector : (version : String) → Config → Made
  unfolding new_gauges assemble describe name_for enrich_labels new_metric
  new_prom_collector version cfg = elim (new_gauges (name_for cfg.metrics) cfg.metrics.gauges []) [
    | none ↦ refused_name
    | some gauges ↦
        let c = assemble version cfg gauges in
        if registers (describe c) then made c else unregistered
  ]
