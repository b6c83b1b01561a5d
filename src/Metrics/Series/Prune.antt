-- ===== src/Metrics/Series/Prune.antt =====
-- `prune` deletes the samples of one execution and no others.
use batch_job_controller.Base.{
  ℕ, String, List, [], ◌∷◌, none, some, ◌≡◌, ◌≢◌, refl, ◌∙◌, arith, get_last?, if◌then◌else◌,
  Option-cases, Bool-cases, inl, inr,
}
use batch_job_controller.Base.Dict.{lookup}
use batch_job_controller.Metrics.Prom.{Prom}
use batch_job_controller.Metrics.Series.{Heap, read, ExecutionIdMetric, cached, prune, delete_all}
use batch_job_controller.Metrics.Series.Laws.{among}
use batch_job_controller.Metrics.Series.Tracking.{IsTracked}

module _ (p : Prom) where
  value-delete_all :
      (h : Heap) (rs : List ℕ) (v : p.Vec) (ls : List String)
      → p.value (delete_all p h rs v) ls ≡ (if among h rs ls then none else p.value v ls)
  unfolding delete_all
  value-delete_all h [] v ls = refl
  value-delete_all h (r ∷ rs) v ls =
      ground
        (arith, value-delete_all h rs (p.delete v (read h r)) ls, p.value-delete v (read h r) ls)

  pub value-prune :
      (h : Heap) (m : ExecutionIdMetric p) (id : String) (ls : List String)
      → p.value (prune p h m id).gauge ls
        ≡ (if among h (cached p m id) ls then none else p.value m.gauge ls)
  unfolding prune
  value-prune h m id ls = elim (Option-cases (lookup id m.labels)) [
    | inl n ↦ ground arith
    | inr (rs, n) ↦ ground (arith, value-delete_all h rs m.gauge ls)
  ]

  pub cached-prune :
      (h : Heap) (m : ExecutionIdMetric p) (id j : String)
      → cached p (prune p h m id) j ≡ cached p m j
  unfolding prune
  cached-prune h m id j = ground arith

  -- Where every sample is tracked, `prune` deletes all samples of the execution.
  pub prune_own :
      (h : Heap) (m : ExecutionIdMetric p) (id : String) (ls : List String)
      → IsTracked p h m
      → get_last? ls ≡ some id
      → p.value (prune p h m id).gauge ls ≡ none
  prune_own h m id ls t l = elim (Option-cases (p.value m.gauge ls)) [
    | inl n ↦ ground (arith, value-prune h m id ls)
    | inr (x, n) ↦ ground (arith, value-prune h m id ls, t.remembered ls)
  ]

  -- It leaves every other sample as it is.
  pub prune_others :
      (h : Heap) (m : ExecutionIdMetric p) (id : String) (ls : List String)
      → IsTracked p h m
      → get_last? ls ≢ some id
      → p.value (prune p h m id).gauge ls ≡ p.value m.gauge ls
  prune_others h m id ls t l = elim (Bool-cases (among h (cached p m id) ls)) [
    | inl a ↦ absurd (l (t.filed id ls a))
    | inr a ↦ ground (arith, value-prune h m id ls)
  ]

  pub prune-IsTracked :
      (h : Heap) (m : ExecutionIdMetric p) (id : String)
      → IsTracked p h m
      → IsTracked p h (prune p h m id)
  prune-IsTracked h m id t = record {
    remembered = λ ls v. elim (Option-cases (get_last? ls)) [
      | inl n ↦ ground (arith, value-prune h m id ls, t.remembered ls)
      | inr (j, n) ↦ ground (arith, value-prune h m id ls, t.remembered ls, cached-prune h m id j)
    ];
    filed = λ j ls a. t.filed j ls (ground (arith, cached-prune h m id j));
    bounded = λ j. ground (arith, cached-prune h m id j, t.bounded j);
  }

  arity-delete_all :
      (h : Heap) (rs : List ℕ) (v : p.Vec) → p.arity (delete_all p h rs v) ≡ p.arity v
  unfolding delete_all
  arity-delete_all h [] v = refl
  arity-delete_all h (r ∷ rs) v =
      arity-delete_all h rs (p.delete v (read h r)) ∙ p.arity-delete v (read h r)

  pub arity-prune :
      (h : Heap) (m : ExecutionIdMetric p) (id : String)
      → p.arity (prune p h m id).gauge ≡ p.arity m.gauge
  unfolding prune
  arity-prune h m id = elim (Option-cases (lookup id m.labels)) [
    | inl n ↦ ground arith
    | inr (rs, n) ↦ ground (arith, arity-delete_all h rs m.gauge)
  ]
