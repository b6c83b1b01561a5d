-- ===== src/Metrics/Collector/Labels.antt =====
-- The labels of a custom gauge.
use batch_job_controller.Base.{
  String, true, List, [], ◌∷◌, ◌++◌, none, ◌≡◌, ◌≢◌, arith, any-append, get_last?, ◌==◌,
}
use batch_job_controller.Metrics.Names.{label_node, label_execution_id, contains, enrich_labels}

-- The enriched labels hold the node and the execution.
pub contains-enrich_labels :
    (labels : List String)
    → (contains label_node (enrich_labels labels) ≡ true)
      × (contains label_execution_id (enrich_labels labels) ≡ true)
unfolding enrich_labels
contains-enrich_labels labels = (
  ground (
    arith,
    any-append (λ (k : String). k == "node") labels ("node" ∷ []),
    any-append (λ (k : String). k == "node") labels ("executionID" ∷ []),
    any-append (λ (k : String). k == "node") (labels ++ "node" ∷ []) ("executionID" ∷ []),
  ),
  ground (
    arith,
    any-append (λ (k : String). k == "executionID") labels ("node" ∷ []),
    any-append (λ (k : String). k == "executionID") labels ("executionID" ∷ []),
    any-append (λ (k : String). k == "executionID") (labels ++ "node" ∷ []) ("executionID" ∷ []),
  ),
)

some_last : (l : String) (ls : List String) → get_last? (l ∷ ls) ≢ none
some_last l [] n = cc
some_last l (l' ∷ ls) n = some_last l' ls n

some_last_of_contains : (k : String) (ls : List String) → contains k ls ≡ true → get_last? ls ≢ none
some_last_of_contains k [] h n = cc
some_last_of_contains k (l ∷ ls) h n = some_last l ls n

pub some_last-enrich_labels : (labels : List String) → get_last? (enrich_labels labels) ≢ none
some_last-enrich_labels labels =
    some_last_of_contains label_execution_id (enrich_labels labels)
      (contains-enrich_labels labels).1
