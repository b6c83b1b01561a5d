-- ===== src/Lifecycle/Disk/Newest.antt =====
-- Which entries stay when the oldest are removed: the directory of the current execution among them.
use batch_job_controller.Base.{
  ℕ, zero, suc, ◌≤◌, String, Bool, true, false, ◌||◌, List, [], ◌∷◌, ◌++◌, ◌≡◌, refl, sym, subst,
  ◌∙◌, map, length, take, drop, all, any-append, arith, ◌==◌, ltb, leb, eq_iff, if◌then◌else◌,
  Bool-cases, inl, inr,
}
use mathlib.Core.List.{Perm, Permᴰ, Nodup, Nodup-cons, Mem, mem-cons}
use mathlib.Core.Bool.{Bool-set}
use mathlib.Core.Logic.{∥∥₁_elim}
use mathlib.Core.Logic.Or
use batch_job_controller.Lifecycle.Disk.{DirEntry}
use batch_job_controller.Lifecycle.Disk.Removal.{listed, mem-of_listed, IsNoNewer, AllSince}

-- Is the entry the execution's, not older than a time, or the link to it, or older than that time?
abbrev pub is_in_order : (id : String) → ℕ → DirEntry → Bool
is_in_order id t f =
    if f.name == id then leb t f.mod_time else (f.name == "latest" || ltb f.mod_time t)

all-permᴰ : (q : DirEntry → Bool) {es fs : List DirEntry} → Permᴰ es fs → all q es ≡ all q fs
all-permᴰ q Permᴰ.nil = refl
all-permᴰ q (Permᴰ.cons e h) = ground (arith, all-permᴰ q h)
all-permᴰ q (Permᴰ.swap e f) = ground arith
all-permᴰ q (Permᴰ.trans h k) = all-permᴰ q h ∙ all-permᴰ q k

pub all-perm : (q : DirEntry → Bool) {es fs : List DirEntry} → Perm es fs → all q es ≡ all q fs
all-perm q h = ∥∥₁_elim h (Bool-set _ _) (all-permᴰ q)

pub all-take :
    (q : DirEntry → Bool) (n : ℕ) (es : List DirEntry) → all q es ≡ true → all q (take n es) ≡ true
all-take q zero es h = refl
all-take q (suc n) [] h = refl
all-take q (suc n) (e ∷ es) h = ground (arith, all-take q n es)

pub all-drop :
    (q : DirEntry → Bool) (n : ℕ) (es : List DirEntry) → all q es ≡ true → all q (drop n es) ≡ true
all-drop q zero es h = h
all-drop q (suc n) [] h = refl
all-drop q (suc n) (e ∷ es) h = all-drop q n es (ground arith)

Nodup-right :
    (fs gs : List DirEntry)
    → Nodup (map (λ (e : DirEntry). e.name) (fs ++ gs))
    → Nodup (map (λ (e : DirEntry). e.name) gs)
Nodup-right [] gs d = d
Nodup-right (f ∷ fs) gs d = Nodup-right fs gs (Nodup-cons.0 d).1

linked :
    (id : String) (t : ℕ) (f g : DirEntry)
    → f.name == id ≡ true
    → is_in_order id t f ≡ true
    → is_in_order id t g ≡ true
    → g.name == id ≡ false
    → f.mod_time ≤ g.mod_time
    → g.name ≡ "latest"
linked id t f g own o o' other since = ground (arith, eq_iff g.name "latest")

-- an entry of the execution is not older than two others
two_newer :
    (id : String) (t : ℕ) (f : DirEntry) (kept : List DirEntry)
    → (f.name == id) ≡ true
    → is_in_order id t f ≡ true
    → all (is_in_order id t) kept ≡ true
    → listed id kept ≡ false
    → Nodup (map (λ (e : DirEntry). e.name) kept)
    → AllSince f.mod_time kept
    → 2 ≤ length kept
    → ⊥
two_newer id t f [] own o all_o absent d since two = omega arith
two_newer id t f (g ∷ []) own o all_o absent d since two = omega arith
two_newer id t f (g ∷ g' ∷ kept) own o all_o absent d (since, (since', rest)) two =
    (Nodup-cons.0 d).0 (
      mem-cons.1 (
        Or.inl (
          linked id t f g own o (ground arith) (ground arith) since
          ∙ sym (linked id t f g' own o (ground arith) (ground arith) since'))))

absent :
    (id : String) (f : DirEntry) (gone kept : List DirEntry)
    → f.name == id ≡ true
    → Nodup (map (λ (e : DirEntry). e.name) (f ∷ (gone ++ kept)))
    → listed id kept ≡ false
absent id f gone kept own d = elim (Bool-cases (listed id (gone ++ kept))) [
  | inl y ↦ absurd (
      (Nodup-cons.0 d).0 (
        subst (λ (s : String). Mem s (map (λ (e : DirEntry). e.name) (gone ++ kept)))
          (sym ((eq_iff f.name id).0 own)) (mem-of_listed id (gone ++ kept) y)))
  | inr n ↦ ground (arith, any-append (λ (e : DirEntry). e.name == id) gone kept)
]

pub newest_kept :
    (id : String) (t : ℕ) (gone kept : List DirEntry)
    → all (is_in_order id t) gone ≡ true
    → all (is_in_order id t) kept ≡ true
    → Nodup (map (λ (e : DirEntry). e.name) (gone ++ kept))
    → IsNoNewer gone kept
    → 2 ≤ length kept
    → listed id gone ≡ false
newest_kept id t [] kept og ok d older two = refl
newest_kept id t (f ∷ gone) kept og ok d (since, older) two = elim (Bool-cases (f.name == id)) [
  | inl own ↦ absurd (
      two_newer id t f kept own (ground arith) ok (absent id f gone kept own d)
        (Nodup-right (f ∷ gone) kept d) since two)
  | inr n ↦
      ground (arith, newest_kept id t gone kept (ground arith) ok (Nodup-cons.0 d).1 older two)
]
