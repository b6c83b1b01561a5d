-- ===== src/Metrics/Series/Tracking.antt =====
-- The invariant of `executionIDMetric`: every sample can be found again by its execution.
use batch_job_controller.Base.{
  ℕ, ◌<◌, String, Bool, true, false, ◌&&◌, ◌||◌, List, [], ◌∷◌, ◌++◌, none, some, ◌≡◌, ◌≢◌, refl,
  sym, ◌∙◌, arith, length, length-append, any-append, get_last?, same_texts, same_texts_iff, eq_iff,
  Option-cases, inl, inr, ltb,
}
use batch_job_controller.Metrics.Prom.{Prom}
use batch_job_controller.Metrics.Series.{
  Heap, read, ExecutionIdMetric, cached, with_label_values, new_metric,
}
use batch_job_controller.Metrics.Series.Laws.{
  among, exist, among-alloc, value-with_label_values, cached-with_label_values,
}

module _ (p : Prom) where
  -- Is the sample of `ls` remembered under the execution that its last label names?
  abbrev pub is_remembered : Heap → ExecutionIdMetric p → List String → Bool
  is_remembered h m ls = elim (get_last? ls) [ none ↦ false | some id ↦ among h (cached p m id) ls ]

  -- Every sample that the vector holds is remembered; what is remembered under an execution has
  -- it for its last label; and the remembered slices exist.
  pub record IsTracked (h : Heap) (m : ExecutionIdMetric p) : Type 0 where
    pub remembered : (ls : List String) → p.value m.gauge ls ≢ none → is_remembered h m ls ≡ true
    pub filed :
        (id : String) (ls : List String)
        → among h (cached p m id) ls ≡ true
        → get_last? ls ≡ some id
    pub bounded : (id : String) → exist h (cached p m id) ≡ true

  pub among-append :
      (h : Heap) (rs : List ℕ) (r : ℕ) (ls : List String)
      → among h (rs ++ r ∷ []) ls ≡ (among h rs ls || same_texts (read h r) ls)
  among-append h rs r ls =
      ground (arith, any-append (λ (q : ℕ). same_texts (read h q) ls) rs (r ∷ []))

  exist-append :
      (h : Heap) (rs : List ℕ) (r : ℕ) → exist h (rs ++ r ∷ []) ≡ (exist h rs && ltb r (length h))
  exist-append h [] r = ground arith
  exist-append h (q ∷ rs) r = ground (arith, exist-append h rs r)

  module _ (h : Heap) (m m' : ExecutionIdMetric p) (r : ℕ) (x : p.Float) (ex : String)
      (l : get_last? (read h r) ≡ some ex) (e : with_label_values p h m r x ≡ some m')
      (t : IsTracked h m) where
    put-remembered : (ls : List String) → p.value m'.gauge ls ≢ none → is_remembered h m' ls ≡ true
    put-remembered ls v = elim (Option-cases (get_last? ls)) [
      | inl n ↦ ground (
        arith,
        t.remembered ls,
        value-with_label_values p h m m' r x ls e,
        same_texts_iff (read h r) ls,
      )
      | inr (id, n) ↦ ground (
        arith,
        t.remembered ls,
        value-with_label_values p h m m' r x ls e,
        same_texts_iff (read h r) ls,
        cached-with_label_values p h m m' r x ex id l e,
        among-append h (cached p m id) r ls,
        eq_iff ex id,
      )
    ]

    put-filed :
        (id : String) (ls : List String)
        → among h (cached p m' id) ls ≡ true
        → get_last? ls ≡ some id
    put-filed id ls a = ground (
      arith,
      t.filed id ls,
      same_texts_iff (read h r) ls,
      cached-with_label_values p h m m' r x ex id l e,
      among-append h (cached p m id) r ls,
      eq_iff ex id,
    )

    put-bounded : r < length h → (id : String) → exist h (cached p m' id) ≡ true
    put-bounded b id = ground (
      arith,
      t.bounded id,
      cached-with_label_values p h m m' r x ex id l e,
      exist-append h (cached p m id) r,
      eq_iff ex id,
    )

  -- setting a sample keeps the invariant
  pub with_label_values-IsTracked :
      (h : Heap) (m m' : ExecutionIdMetric p) (r : ℕ) (x : p.Float)
      → r < length h
      → with_label_values p h m r x ≡ some m'
      → IsTracked h m
      → IsTracked h m'
  with_label_values-IsTracked h m m' r x b e t = elim (Option-cases (get_last? (read h r))) [
    | inl n ↦ unfold with_label_values in absurd (ground arith)
    | inr (ex, l) ↦ record {
      remembered = put-remembered h m m' r x ex l e t;
      filed = put-filed h m m' r x ex l e t;
      bounded = put-bounded h m m' r x ex l e t b;
    }
  ]

  exist-alloc :
      (h : Heap) (s : List String) (rs : List ℕ) → exist h rs ≡ true → exist (h ++ s ∷ []) rs ≡ true
  exist-alloc h s [] b = refl
  exist-alloc h s (r ∷ rs) b = ground (arith, exist-alloc h s rs, length-append h (s ∷ []))

  -- so does the making of a slice
  pub alloc-IsTracked :
      (h : Heap) (s : List String) (m : ExecutionIdMetric p)
      → IsTracked h m
      → IsTracked (h ++ s ∷ []) m
  alloc-IsTracked h s m t = record {
    remembered = λ ls v. elim (Option-cases (get_last? ls)) [
      | inl n ↦ ground (arith, t.remembered ls)
      | inr (id, n) ↦
          ground (arith, t.remembered ls, among-alloc h s (cached p m id) ls, t.bounded id)
    ];
    filed = λ id ls a. t.filed id ls (sym (among-alloc h s (cached p m id) ls (t.bounded id)) ∙ a);
    bounded = λ id. exist-alloc h s (cached p m id) (t.bounded id);
  }

  pub new_metric-IsTracked :
      (h : Heap) (name help : String) (labels : List String)
      → IsTracked h (new_metric p name help labels)
  unfolding new_metric
  new_metric-IsTracked h name help labels = record {
    remembered = λ ls v. absurd (v (p.value-fresh name help labels ls));
    filed = λ id ls a. cc;
    bounded = λ id. refl;
  }
