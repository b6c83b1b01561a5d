-- ===== src/Metrics/Series/Laws.antt =====
-- What one `Set` through `withLabelValues` does, and the invariant that it keeps.
use batch_job_controller.Base.{
  ℕ, zero, suc, ◌<◌, String, Bool, true, List, [], ◌∷◌, ◌++◌, some, ◌≡◌, refl, arith, length, any,
  all, get_last?, same_texts, eq_iff, ◌==◌, if◌then◌else◌, ltb,
}
use batch_job_controller.Base.Dict.{lookup-insert}
use batch_job_controller.Metrics.Prom.{Prom}
use batch_job_controller.Metrics.Series.{Heap, read, ExecutionIdMetric, cached, with_label_values}

-- Is the slice `ls` among the slices at `rs`?
abbrev pub among : Heap → List ℕ → List String → Bool
among h rs ls = any (λ r. same_texts (read h r) ls) rs

-- The slices at `rs` exist.
abbrev pub exist : Heap → List ℕ → Bool
exist h rs = all (λ r. ltb r (length h)) rs

pub read-alloc : (h : Heap) (s : List String) → read (h ++ s ∷ []) (length h) ≡ s
read-alloc [] s = refl
read-alloc (t ∷ h) s = read-alloc h s

pub read-alloc_old :
    (h : Heap) (s : List String) (r : ℕ) → r < length h → read (h ++ s ∷ []) r ≡ read h r
read-alloc_old [] s r b = elim b [ ]
read-alloc_old (t ∷ h) s zero b = refl
read-alloc_old (t ∷ h) s (suc r) b = read-alloc_old h s r (omega arith)

pub among-alloc :
    (h : Heap) (s : List String) (rs : List ℕ) (ls : List String)
    → exist h rs ≡ true
    → among (h ++ s ∷ []) rs ls ≡ among h rs ls
among-alloc h s [] ls b = refl
among-alloc h s (r ∷ rs) ls b = ground (arith, among-alloc h s rs ls, read-alloc_old h s r)

module _ (p : Prom) where
  pub value-with_label_values :
      (h : Heap) (m m' : ExecutionIdMetric p) (r : ℕ) (x : p.Float) (ls : List String)
      → with_label_values p h m r x ≡ some m'
      → p.value m'.gauge ls ≡ (if same_texts (read h r) ls then some x else p.value m.gauge ls)
  unfolding with_label_values
  value-with_label_values h m m' r x ls e = ground (arith, p.value-put m.gauge (read h r) ls x)

  pub cached-with_label_values :
      (h : Heap) (m m' : ExecutionIdMetric p) (r : ℕ) (x : p.Float) (ex id : String)
      → get_last? (read h r) ≡ some ex
      → with_label_values p h m r x ≡ some m'
      → cached p m' id ≡ (if ex == id then cached p m id ++ r ∷ [] else cached p m id)
  unfolding with_label_values
  cached-with_label_values h m m' r x ex id l e =
      ground (arith, eq_iff ex id, lookup-insert ex id (cached p m ex ++ r ∷ []) m.labels)
