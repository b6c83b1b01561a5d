-- ===== src/Metrics/Series.antt =====
-- pkg/metrics/types.go: `executionIDMetric`, a gauge vector that remembers, for each execution, the
-- label values that were used with it, so that they can be deleted again. The remembered slices are
-- shared with the callers, which may write to them later: they lie on an explicit heap.
pub mod Laws
pub mod Tracking
pub mod Prune
use batch_job_controller.Base.{
  ℕ, suc, zero, String, Bool, true, false, List, [], ◌∷◌, ◌++◌, Option, none, some, ◌>>=◌, ◌>>◌,
  guard, length, get_elem?, get_last?, set, set_last, eqb, if◌then◌else◌,
}
use batch_job_controller.Base.Dict.{Dict, lookup, insert}
use batch_job_controller.Metrics.Prom.{Prom}

-- The slices of texts that have been made; a slice is its place in the list.
abbrev pub Heap : Type 0
Heap = List (List String)

abbrev pub read : Heap → ℕ → List String
read [] r = []
read (s ∷ h) zero = s
read (s ∷ h) (suc r) = read h r

-- a new slice, and where it is
abbrev pub alloc : Heap → List String → Heap × ℕ
alloc h s = (h ++ s ∷ [], length h)

-- `s[len(s)-1] = v`, seen by everybody who holds the slice
abbrev pub write_last : Heap → ℕ → String → Heap
write_last h r v = set h r (set_last (read h r) v)

module _ (p : Prom) where
  open p use {Float, Vec, fresh, arity, put, delete}

  -- `executionIDMetric`; the mutex is not modelled
  pub record ExecutionIdMetric : Type 0 where
    pub gauge : Vec
    pub labels : Dict (List ℕ)

  -- `newMetric`
  unfoldable pub new_metric : (name help : String) (label_names : List String) → ExecutionIdMetric
  new_metric name help label_names = record { gauge = fresh name help label_names; labels = [] }

  -- what the map `labels` holds for an execution, where a missing entry is the nil slice
  abbrev pub cached : ExecutionIdMetric → String → List ℕ
  cached m ex_id = elim (lookup ex_id m.labels) [ none ↦ [] | some rs ↦ rs ]

  -- `cacheLabels`
  unfoldable pub cache_labels : ExecutionIdMetric → String → ℕ → ExecutionIdMetric
  cache_labels m ex_id r = record m { labels = insert ex_id (cached m ex_id ++ r ∷ []) m.labels }

  -- `withLabelValues(labels...)` and `Set(x)` on what it returns. It panics on no label value, and
  -- `WithLabelValues` on a wrong number of them.
  unfoldable pub with_label_values : Heap → ExecutionIdMetric → ℕ → Float → Option ExecutionIdMetric
  unfolding cache_labels
  with_label_values h m r x = do
    ex_id ← get_last? (read h r)
    let m' = cache_labels m ex_id r
    guard (eqb (length (read h r)) (arity m'.gauge))
    some (record m' { gauge = put m'.gauge (read h r) x })

  -- the loop of `prune` over the remembered slices
  unfoldable pub delete_all : Heap → List ℕ → Vec → Vec
  delete_all h [] v = v
  delete_all h (r ∷ rs) v = delete_all h rs (delete v (read h r))

  -- `prune`
  unfoldable pub prune : Heap → ExecutionIdMetric → String → ExecutionIdMetric
  unfolding delete_all
  prune h m execution_id = elim (lookup execution_id m.labels) [
    | none ↦ m
    | some rs ↦ record m { gauge = delete_all h rs m.gauge }
  ]
