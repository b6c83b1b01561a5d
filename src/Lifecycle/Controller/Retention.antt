-- ===== src/Lifecycle/Controller/Retention.antt =====
-- `AllAdded`: which executions and report directories are kept, and the close of the channel.
use batch_job_controller.Base.{
  ℕ, zero, suc, ◌≤◌, ◌<◌, ◌-◌, String, Bool, true, false, List, [], ◌∷◌, map, none, some, ◌≡◌, refl,
  ◌∙◌, arith, length, take, drop, length-drop, get_elem?, get_last?, set, get_elem?-set_self,
  get_elem?-lt, eq_iff, if◌then◌else◌, Option-cases, inl, inr,
}
use mathlib.Core.List.{Perm, Nodup}
use batch_job_controller.Base.Dict.{lookup, has, lookup-delete}
use batch_job_controller.Base.Int.{pos}
use batch_job_controller.Metrics.Prom.{Prom}
use batch_job_controller.Metrics.Collector.Totals.{IsSound}
use batch_job_controller.Metrics.Collector.Pruning.{prune_execution-IsPruned}
use batch_job_controller.Lifecycle.Disk.{DirEntry, SortFunc, remove_all}
use batch_job_controller.Lifecycle.Disk.Removal.{
  listed, without_all, without_all-sorted, length-perm, IsNoNewer, take-IsNoNewer-drop,
}
use batch_job_controller.Lifecycle.State.{Error, Execution, Controller, unknown_execution, os_error}
use batch_job_controller.Lifecycle.Controller.{forget, forget_first, all_added}
use batch_job_controller.Lifecycle.Controller.Admission.{IsExecution}

-- Is the last label value the name of one of the entries?
abbrev pub filed_among : List DirEntry → List String → Bool
filed_among gone ls = elim (get_last? ls) [ none ↦ false | some j ↦ listed j gone ]

module _ (p : Prom) where
  abbrev pub forget_all : List DirEntry → Controller p → Controller p
  forget_all [] c = c
  forget_all (f ∷ files) c = forget_all files (forget p c f.name)

  pub forget_first-eq :
      (n : ℕ) (files : List DirEntry) (c : Controller p)
      → n ≤ length files
      → forget_first p n files c ≡ some (forget_all (take n files) c)
  unfolding forget_first
  forget_first-eq zero files c h = refl
  forget_first-eq (suc n) [] c h = absurd (omega arith)
  forget_first-eq (suc n) (f ∷ files) c h =
      forget_first-eq n files (forget p c f.name) (omega arith)

  pub forget_first-past :
      (n : ℕ) (files : List DirEntry) (c : Controller p)
      → length files < n
      → forget_first p n files c ≡ none
  unfolding forget_first
  forget_first-past zero files c h = absurd (omega arith)
  forget_first-past (suc n) [] c h = refl
  forget_first-past (suc n) (f ∷ files) c h =
      forget_first-past n files (forget p c f.name) (omega arith)

  -- What the loop over the entries leaves.
  pub record IsForgotten (c c' : Controller p) (gone : List DirEntry) : Type 0 where
    pub known :
        (id : String)
        → lookup id c'.executions ≡ (if listed id gone then none else lookup id c.executions)
    pub heap : c'.executions_made ≡ c.executions_made
    pub writable : c'.disk.writable ≡ c.disk.writable
    pub entries : c.disk.writable ≡ true → c'.disk.entries ≡ without_all gone c.disk.entries
    pub sound : IsSound p c'.prom
    pub processing :
        (ls : List String)
        → p.value c'.prom.proc_error_gauge.gauge ls
          ≡ (if filed_among gone ls then none else p.value c.prom.proc_error_gauge.gauge ls)

  pub forget_all-IsForgotten :
      (c : Controller p) (gone : List DirEntry)
      → IsSound p c.prom
      → IsForgotten c (forget_all gone c) gone
  unfolding forget remove_all
  forget_all-IsForgotten c [] s = record {
    known = λ id. refl;
    heap = refl;
    writable = refl;
    entries = λ w. refl;
    sound = s;
    processing = λ ls. ground arith;
  }
  forget_all-IsForgotten c (f ∷ gone) s =
      let q = prune_execution-IsPruned p c.prom f.name s in
      let r = forget_all-IsForgotten (forget p c f.name) gone q.sound in
      record {
        known = λ id. ground (arith, r.known id, lookup-delete f.name id c.executions);
        heap = r.heap;
        writable = ground (arith, r.writable);
        entries = λ w. ground (arith, r.entries);
        sound = r.sound;
        processing = λ ls. elim (Option-cases (get_last? ls)) [
          | inl n ↦ ground (arith, r.processing ls, q.processing ls)
          | inr (j, n) ↦
              ground (arith, r.processing ls, q.processing ls, eq_iff j f.name, eq_iff f.name j)
        ];
      }

  -- What `AllAdded` leaves, for the entries that go and those that stay.
  pub record IsRetained (c c' : Controller p) (e : ℕ) (x : Execution) (gone kept : List DirEntry)
      : Type 0 where
    pub closed : get_elem? c'.executions_made e ≡ some (record x { closed = true })
    pub known :
        (id : String)
        → lookup id c'.executions ≡ (if listed id gone then none else lookup id c.executions)
    pub left : Perm c'.disk.entries kept
    pub sound : IsSound p c'.prom
    pub processing :
        (ls : List String)
        → p.value c'.prom.proc_error_gauge.gauge ls
          ≡ (if filed_among gone ls then none else p.value c.prom.proc_error_gauge.gauge ls)

  abbrev pub too_many : Controller p → ℕ → ℕ
  too_many c h = length c.disk.entries - h

  -- For a known execution with an open channel, a readable and writable report directory with
  -- entries of distinct names, a report history that is not negative and a sound collector,
  -- `AllAdded` never panics and returns no error. It closes the channel. With more entries than the
  -- history allows it removes the surplus, oldest first: at most the history is left, no removed
  -- entry is newer than one that is left, and of the executions and the samples of the processing
  -- metric exactly those named like a removed entry are gone.
  pub all_added-IsRetained :
      (by_time : SortFunc) (c : Controller p) (id : String) (e : ℕ) (x : Execution) (h : ℕ)
      → IsExecution p c id e x
      → x.closed ≡ false
      → c.disk.readable ≡ true
      → c.disk.writable ≡ true
      → c.report_history ≡ pos h
      → Nodup (map (λ (f : DirEntry). f.name) c.disk.entries)
      → IsSound p c.prom
      → let files = by_time.sort c.disk.entries in
        let n = too_many c h in
        (c' : Controller p) × (all_added p by_time c id ≡ some (c', none))
        × IsRetained c c' e x (take n files) (drop n files)
        × IsNoNewer (take n files) (drop n files)
        × (length c'.disk.entries ≤ h)
  unfolding all_added
  all_added-IsRetained by_time c id e x h is open_chan r w history distinct s =
      let files = by_time.sort c.disk.entries in
      let n = too_many c h in
      let all = length-perm (by_time.sort-perm c.disk.entries) in
      let f = forget_all-IsForgotten c (take n files) s in
      let c₁ = forget_all (take n files) c in
      let at = f.heap ∙ refl in
      let here : get_elem? c₁.executions_made e ≡ some x = rw f.heap is.execution in
      let looped = forget_first-eq n files c (omega (arith, all)) in
      let left : Perm c₁.disk.entries (drop n files) =
        rw (f.entries w)
          (without_all-sorted n c.disk.entries files (by_time.sort-perm c.disk.entries) distinct) in
      (
        record c₁ { executions_made = set c₁.executions_made e (record x { closed = true }) },
        ground (arith, is.place, all, looped, here),
        record {
          closed =
              get_elem?-set_self c₁.executions_made e _ (get_elem?-lt c₁.executions_made e here);
          known = f.known;
          left = left;
          sound = f.sound;
          processing = f.processing;
        },
        take-IsNoNewer-drop n files (by_time.sort-IsOldestFirst c.disk.entries),
        omega (arith, length-perm left, length-drop n files, all),
      )

  -- An `AllAdded` that returns an error has changed nothing: the channel stays open.
  pub all_added_error :
      (by_time : SortFunc) (c c' : Controller p) (id : String) (err : Error)
      → all_added p by_time c id ≡ some (c', some err)
      → (c' ≡ c) × (err ≡ (if has id c.executions then os_error else unknown_execution id))
  unfolding all_added
  all_added_error by_time c c' id err h = ground arith
