-- ===== src/Metrics/Names.antt =====
-- pkg/metrics/metrics.go: the names of the collector's gauges and labels, and the labels that a gauge has.
use batch_job_controller.Base.{
  String, Bool, List, [], ◌∷◌, ◌++◌, map, none, some, ◌==◌, any, if◌then◌else◌,
}
use batch_job_controller.Base.Dict.{Dict, lookup, insert}

abbrev pub label_node : String
label_node = "node"

abbrev pub label_value_latest : String
label_value_latest = "latest"

abbrev pub label_execution_id : String
label_execution_id = "executionID"

abbrev pub version_metric : String
version_metric = "com_github_bakito_batch_job_controller"

abbrev pub proc_error_help : String
proc_error_help = "Node with processing error, 1: has error / 0: no error"

abbrev pub version_help : String
version_help = "information about github.com/bakito/batch-job-controller"

abbrev pub pods_help : String
pods_help = "The number of pods started for the last execution"

abbrev pub current_execution_help : String
current_execution_help = "The current execution ID"

abbrev pub duration_help : String
duration_help = "Execution Duration in milliseconds"

abbrev pub current_execution_metric : String
current_execution_metric = "current_execution_id"

abbrev pub proc_error_metric : String
proc_error_metric = "processing"

abbrev pub duration_metric : String
duration_metric = "duration"

abbrev pub pods_metric : String
pods_metric = "pods"

abbrev pub label_prefix : String
label_prefix = "prefix"

abbrev pub label_cron : String
label_cron = "cron"

-- `m[l]` of the set that `enrichLabels` builds
abbrev pub contains : String → List String → Bool
contains l ls = any (λ k. k == l) ls

-- the names that `NewPromCollector` refuses
abbrev pub reserved : List String
reserved = proc_error_metric ∷ duration_metric ∷ pods_metric ∷ []

-- `enrichLabels`
unfoldable pub enrich_labels : List String → List String
enrich_labels labels =
    let out = if contains label_node labels then labels else labels ++ label_node ∷ [] in
    if contains label_execution_id labels then out else out ++ label_execution_id ∷ []

abbrev pub get_text : String → Dict String → String
get_text k m = elim (lookup k m) [ none ↦ "" | some s ↦ s ]

-- the label values of a report, in the order of the gauge's labels
unfoldable pub label_values : List String → (node id : String) → Dict String → List String
label_values labels node id given =
    let filled = insert label_execution_id id (insert label_node node given) in
    map (λ l. get_text l filled) labels
