-- ===== src/Lifecycle/Disk/Removal.antt =====
-- The removal of entries from the report directory, whatever the order of the listing.
use batch_job_controller.Base.{
  ℕ, suc, ◌≤◌, zero, String, Bool, true, false, List, [], ◌∷◌, ◌++◌, ◌≡◌, refl, sym, ◌∙◌, ap, subst,
  map, any, length, take, drop, take-append-drop, arith, ◌==◌, eq_iff, eq_refl, Bool-cases, inl,
  inr,
}
use mathlib.Core.List.{Perm, Permᴰ, Nodup, Mem, filter, Nodup-cons, mem-cons}
use mathlib.Core.List.Perm
use mathlib.Core.Logic.{∥∥₁_elim}
use mathlib.Core.Logic.Or
use native.Mathlib.Nat.{ℕ_set}
use batch_job_controller.Lifecycle.Disk.{DirEntry, without, IsOldestFirst}

abbrev pub AllSince : ℕ → List DirEntry → Type 0
AllSince t [] = Unit
AllSince t (e ∷ es) = (t ≤ e.mod_time) × AllSince t es

-- The entries but those whose names are listed.
abbrev pub without_all : List DirEntry → List DirEntry → List DirEntry
without_all [] es = es
without_all (f ∷ fs) es = without_all fs (without f.name es)

abbrev pub listed : String → List DirEntry → Bool
listed name es = any (λ (e : DirEntry). e.name == name) es

other : (name : String) (e : DirEntry) → Dec (e.name == name ≡ false)
other name e = elim (Bool-cases (e.name == name)) [ inl y ↦ no (λ n. cc) | inr n ↦ yes n ]

without-eq-filter : (name : String) (es : List DirEntry) → without name es ≡ filter (other name) es
unfolding other
without-eq-filter name [] = refl
without-eq-filter name (e ∷ es) = ground (arith, without-eq-filter name es)

without-perm :
    (name : String) {es fs : List DirEntry} → Perm es fs → Perm (without name es) (without name fs)
without-perm name h = rw (without-eq-filter, without-eq-filter) (Perm.filter (other name) h)

without_all-perm :
    (gone : List DirEntry) {es fs : List DirEntry}
    → Perm es fs
    → Perm (without_all gone es) (without_all gone fs)
without_all-perm [] h = h
without_all-perm (f ∷ gone) h = without_all-perm gone (without-perm f.name h)

pub mem-of_listed :
    (name : String) (es : List DirEntry)
    → listed name es ≡ true
    → Mem name (map (λ (e : DirEntry). e.name) es)
mem-of_listed name [] h = cc
mem-of_listed name (e ∷ es) h = elim (Bool-cases (e.name == name)) [
  | inl y ↦ mem-cons.1 (Or.inl (sym ((eq_iff e.name name).0 y)))
  | inr n ↦ mem-cons.1 (Or.inr (mem-of_listed name es (rw n at h)))
]

without_absent :
    (name : String) (es : List DirEntry) → listed name es ≡ false → without name es ≡ es
without_absent name [] h = refl
without_absent name (e ∷ es) h = ground (arith, without_absent name es)

-- Removing the first of two parts by name leaves the second, where the names are distinct.
without_all-append :
    (fs gs : List DirEntry)
    → Nodup (map (λ (e : DirEntry). e.name) (fs ++ gs))
    → without_all fs (fs ++ gs) ≡ gs
without_all-append [] gs d = refl
without_all-append (f ∷ fs) gs d =
    let (new, rest) = Nodup-cons.0 d in
    let absent : without f.name (fs ++ gs) ≡ fs ++ gs =
      elim (Bool-cases (listed f.name (fs ++ gs))) [
        | inl y ↦ absurd (new (mem-of_listed f.name (fs ++ gs) y))
        | inr n ↦ without_absent f.name (fs ++ gs) n
      ] in
    rw (eq_refl, absent) (without_all-append fs gs rest)

-- Removing the first `n` of the sorted entries leaves the others.
pub without_all-sorted :
    (n : ℕ) (es sorted : List DirEntry)
    → Perm sorted es
    → Nodup (map (λ (e : DirEntry). e.name) es)
    → Perm (without_all (take n sorted) es) (drop n sorted)
without_all-sorted n es sorted h d =
    let split = take-append-drop n sorted in
    let d' =
      subst (λ (l : List DirEntry). Nodup (map (λ (e : DirEntry). e.name) l)) (sym split)
        (Perm.nodup (Perm.map _ (Perm.symm h)) d) in
    Perm.trans (without_all-perm (take n sorted) (Perm.symm h)) (
      subst (λ (l : List DirEntry). Perm (without_all (take n sorted) l) (drop n sorted)) split
        (rw (without_all-append (take n sorted) (drop n sorted) d') (Perm.refl _)))

length-permᴰ : {es fs : List DirEntry} → Permᴰ es fs → length es ≡ length fs
length-permᴰ Permᴰ.nil = refl
length-permᴰ (Permᴰ.cons e h) = ap suc (length-permᴰ h)
length-permᴰ (Permᴰ.swap e f) = refl
length-permᴰ (Permᴰ.trans h k) = length-permᴰ h ∙ length-permᴰ k

pub length-perm : {es fs : List DirEntry} → Perm es fs → length es ≡ length fs
length-perm h = ∥∥₁_elim h (ℕ_set _ _) length-permᴰ

-- Everything in the first list is at most as new as everything in the second.
abbrev pub IsNoNewer : List DirEntry → List DirEntry → Type 0
IsNoNewer [] gs = Unit
IsNoNewer (f ∷ fs) gs = AllSince f.mod_time gs × IsNoNewer fs gs

AllSince-weaken : (s t : ℕ) (es : List DirEntry) → s ≤ t → AllSince t es → AllSince s es
AllSince-weaken s t [] h a = tt
AllSince-weaken s t (e ∷ es) h (b, a) = (omega arith, AllSince-weaken s t es h a)

AllSince-head :
    (e : DirEntry) (es : List DirEntry) → IsOldestFirst (e ∷ es) → AllSince e.mod_time es
AllSince-head e [] h = tt
AllSince-head e (f ∷ es) (b, h) =
    (b, AllSince-weaken e.mod_time f.mod_time es b (AllSince-head f es h))

IsOldestFirst-tail : (e : DirEntry) (es : List DirEntry) → IsOldestFirst (e ∷ es) → IsOldestFirst es
IsOldestFirst-tail e [] h = tt
IsOldestFirst-tail e (f ∷ es) (b, h) = h

AllSince-drop : (t n : ℕ) (es : List DirEntry) → AllSince t es → AllSince t (drop n es)
AllSince-drop t zero es a = a
AllSince-drop t (suc n) [] a = tt
AllSince-drop t (suc n) (e ∷ es) (b, a) = AllSince-drop t n es a

-- Of entries in the order of their times, the first are no newer than the others.
pub take-IsNoNewer-drop :
    (n : ℕ) (es : List DirEntry) → IsOldestFirst es → IsNoNewer (take n es) (drop n es)
take-IsNoNewer-drop zero es h = tt
take-IsNoNewer-drop (suc n) [] h = tt
take-IsNoNewer-drop (suc n) (e ∷ es) h = (
  AllSince-drop e.mod_time n es (AllSince-head e es h),
  take-IsNoNewer-drop n es (IsOldestFirst-tail e es h),
)
