-- ===== src/Lifecycle/Controller/Current.antt =====
-- `AllAdded` for the execution that runs: whether it is kept.
use batch_job_controller.Base.{
  ℕ, ◌≤◌, ◌-◌, String, true, false, List, ◌++◌, none, some, ◌≡◌, refl, sym, ◌∙◌, subst, map, arith,
  length, take, drop, take-append-drop, length-drop, all, Bool-cases, inl, inr, leb,
}
use mathlib.Core.List.{Nodup}
use mathlib.Core.List.Perm
use batch_job_controller.Base.Int.{pos}
use batch_job_controller.Metrics.Prom.{Prom}
use batch_job_controller.Metrics.Collector.Totals.{IsSound}
use batch_job_controller.Lifecycle.Disk.{DirEntry, SortFunc}
use batch_job_controller.Lifecycle.Disk.Removal.{listed, length-perm}
use batch_job_controller.Lifecycle.Disk.Newest.{
  is_in_order, all-perm, all-take, all-drop, newest_kept,
}
use batch_job_controller.Lifecycle.State.{Execution, Controller}
use batch_job_controller.Lifecycle.Controller.{for_id, all_added}
use batch_job_controller.Lifecycle.Controller.Admission.{IsExecution}
use batch_job_controller.Lifecycle.Controller.Retention.{all_added-IsRetained}

fits : (a b : ℕ) → leb a b ≡ true → a ≤ b
fits a b h = ground arith

exceeds : (a b : ℕ) → leb a b ≡ false → b ≤ a
exceeds a b h = ground arith

module _ (p : Prom) where
  -- An `AllAdded` with a history of one execution or more keeps the execution that it is called for, where every
  -- other entry of the report directory but the link to the latest one is older than its directory. The
  -- conditions are those under which it returns no error: the execution is known and its channel open, the report
  -- directory is readable and writable and its entries have distinct names, and the collector is sound.
  pub all_added_keeps :
      (by_time : SortFunc) (c : Controller p) (id : String) (e : ℕ) (x : Execution) (h t : ℕ)
      → IsExecution p c id e x
      → x.closed ≡ false
      → c.disk.readable ≡ true
      → c.disk.writable ≡ true
      → c.report_history ≡ pos h
      → 2 ≤ h
      → Nodup (map (λ (f : DirEntry). f.name) c.disk.entries)
      → all (is_in_order id t) c.disk.entries ≡ true
      → IsSound p c.prom
      → (c' : Controller p) × (all_added p by_time c id ≡ some (c', none))
        × IsExecution p c' id e (record x { closed = true })
  unfolding for_id
  all_added_keeps by_time c id e x h t is open_chan r w history two distinct ordered s =
      let files = by_time.sort c.disk.entries in
      let n = length c.disk.entries - h in
      let (c', f, kept, older, few) =
        all_added-IsRetained p by_time c id e x h is open_chan r w history distinct s in
      let o : all (is_in_order id t) files ≡ true =
        all-perm (is_in_order id t) (by_time.sort-perm c.disk.entries) ∙ ordered in
      let d : Nodup (map (λ (f : DirEntry). f.name) (take n files ++ drop n files)) =
        subst (λ (l : List DirEntry). Nodup (map (λ (f : DirEntry). f.name) l))
          (sym (take-append-drop n files))
          (Perm.nodup (Perm.map _ (Perm.symm (by_time.sort-perm c.disk.entries))) distinct) in
      let stays : listed id (take n files) ≡ false =
        elim (Bool-cases (leb (length c.disk.entries) h)) [
          | inl all_fit ↦
              let no_surplus : n ≡ 0 = omega (arith, fits _ _ all_fit) in
              subst (λ (m : ℕ). listed id (take m files) ≡ false) (sym no_surplus) refl
          | inr more ↦
              newest_kept id t (take n files) (drop n files) (all-take _ n files o)
                (all-drop _ n files o) d older
                (omega (
                  arith,
                  length-drop n files,
                  length-perm (by_time.sort-perm c.disk.entries),
                  exceeds _ _ more,
                ))
        ] in
      (
        c',
        f,
        record { place = ground (arith, kept.known id, stays, is.place); execution = kept.closed },
      )
