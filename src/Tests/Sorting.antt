-- ===== src/Tests/Sorting.antt =====
-- A sort of directory entries by their time of modification: insertion, which keeps entries of one time in
-- their order.
use batch_job_controller.Base.{List, [], ◌∷◌, arith, leb, if◌then◌else◌, Bool-cases, inl, inr}
use mathlib.Core.List.{Perm}
use mathlib.Core.List.Perm
use batch_job_controller.Lifecycle.Disk.{DirEntry, IsOldestFirst, SortFunc}

abbrev pub insert_entry : DirEntry → List DirEntry → List DirEntry
insert_entry e [] = e ∷ []
insert_entry e (f ∷ fs) =
    let rest = insert_entry e fs in if leb e.mod_time f.mod_time then e ∷ f ∷ fs else f ∷ rest

abbrev pub sort_entries : List DirEntry → List DirEntry
sort_entries [] = []
sort_entries (e ∷ es) = insert_entry e (sort_entries es)

insert_entry-perm : (e : DirEntry) (fs : List DirEntry) → Perm (insert_entry e fs) (e ∷ fs)
insert_entry-perm e [] = Perm.refl _
insert_entry-perm e (f ∷ fs) = elim (Bool-cases (leb e.mod_time f.mod_time)) [
  | inl y ↦ rw y (Perm.refl _)
  | inr n ↦ rw n (Perm.trans (Perm.cons f (insert_entry-perm e fs)) (Perm.swap e f fs))
]

pub sort_entries-perm : (es : List DirEntry) → Perm (sort_entries es) es
sort_entries-perm [] = Perm.refl _
sort_entries-perm (e ∷ es) =
    Perm.trans (insert_entry-perm e (sort_entries es)) (Perm.cons e (sort_entries-perm es))

insert_entry-IsOldestFirst :
    (e : DirEntry) (fs : List DirEntry) → IsOldestFirst fs → IsOldestFirst (insert_entry e fs)
insert_entry-IsOldestFirst e [] h = tt
insert_entry-IsOldestFirst e (f ∷ []) h = ground arith
insert_entry-IsOldestFirst e (f ∷ g ∷ fs) h = ground (arith, insert_entry-IsOldestFirst e (g ∷ fs))

pub sort_entries-IsOldestFirst : (es : List DirEntry) → IsOldestFirst (sort_entries es)
sort_entries-IsOldestFirst [] = tt
sort_entries-IsOldestFirst (e ∷ es) =
    insert_entry-IsOldestFirst e (sort_entries es) (sort_entries-IsOldestFirst es)

abbrev pub by_time : SortFunc
by_time = record {
  sort = sort_entries;
  sort-perm = sort_entries-perm;
  sort-IsOldestFirst = sort_entries-IsOldestFirst;
}
