-- ===== src/Lifecycle/Disk.antt =====
-- The report directory, as `NewExecution` and `AllAdded` see it: its entries with their times of
-- modification. A directory that may not be read or written makes the `os` calls fail.
pub mod Removal
pub mod Newest
use batch_job_controller.Base.{
  ℕ, ◌≤◌, String, Bool, not, ◌&&◌, List, [], ◌∷◌, ◌++◌, Option, none, some, any, ◌==◌,
  if◌then◌else◌,
}
use mathlib.Core.List.{Perm}

pub record DirEntry : Type 0 where
  pub name : String
  pub mod_time : ℕ

pub record Disk : Type 0 where
  pub entries : List DirEntry
  pub readable : Bool
  pub writable : Bool

-- `os.Stat` and `os.Lstat` find the entry
abbrev pub exists : Disk → String → Bool
exists d name = any (λ (e : DirEntry). e.name == name) d.entries

-- the entries but those of one name
abbrev pub without : String → List DirEntry → List DirEntry
without name [] = []
without name (e ∷ es) = let rest = without name es in if e.name == name then rest else e ∷ rest

-- `os.RemoveAll` and `os.Remove` of an entry; an error is only logged
unfoldable pub remove_all : Disk → String → Disk
remove_all d name = if d.writable then record d { entries = without name d.entries } else d

-- `os.MkdirAll` after `os.Stat`, and `os.Symlink`, which fails where the entry is there
unfoldable pub make_entry : Disk → String → ℕ → Disk
make_entry d name now =
    if d.writable && not (exists d name)
    then record d { entries = d.entries ++ record { name = name; mod_time = now } ∷ [] }
    else d

-- `os.ReadDir`
unfoldable pub read_dir : Disk → Option (List DirEntry)
read_dir d = if d.readable then some d.entries else none

-- Oldest first.
abbrev pub IsOldestFirst : List DirEntry → Type 0
IsOldestFirst [] = Unit
IsOldestFirst (e ∷ []) = Unit
IsOldestFirst (e ∷ f ∷ es) = (e.mod_time ≤ f.mod_time) × IsOldestFirst (f ∷ es)

-- `slices.SortFunc` by the time of modification: which order it gives to entries of one time is
-- not documented.
pub record SortFunc : Type 0 where
  pub sort : List DirEntry → List DirEntry
  pub sort-perm : (es : List DirEntry) → Perm (sort es) es
  pub sort-IsOldestFirst : (es : List DirEntry) → IsOldestFirst (sort es)
