-- ===== src/Lifecycle/History/WellFormed.antt =====
-- The state that every history keeps: the maps hold places that are there, and the collector is sound.
use batch_job_controller.Base.{
  ℕ, zero, suc, ◌≤◌, ◌<◌, ◌≡◌, refl, arith, String, Bool, true, false, ◌&&◌, List, [], ◌∷◌, ◌++◌,
  some, length, get_elem?, set, ltb,
}
use batch_job_controller.Base.Dict.{Dict, lookup, insert, delete}
use mathlib.Core.Option.{some-injective}
use batch_job_controller.Config.{Config}
use batch_job_controller.Metrics.Prom.{Prom}
use batch_job_controller.Metrics.Collector.{Collector}
use batch_job_controller.Lifecycle.Disk.{Disk}
use batch_job_controller.Lifecycle.Controller.{new_controller}
use batch_job_controller.Metrics.Collector.Totals.{IsSound}
use batch_job_controller.Lifecycle.State.{Execution, Controller}

-- All places that a map holds are below a bound.
abbrev pub are_below : ℕ → Dict ℕ → Bool
are_below n [] = true
are_below n ((k, r) ∷ d) = ltb r n && are_below n d

-- So are those of the pods of all executions.
abbrev pub are_all_below : ℕ → List Execution → Bool
are_all_below n [] = true
are_all_below n (x ∷ es) = are_below n x.pods && are_all_below n es

pub are_below-lookup :
    (n : ℕ) (d : Dict ℕ) (k : String) (r : ℕ) → are_below n d ≡ true → lookup k d ≡ some r → r < n
are_below-lookup n [] k r h f = cc
are_below-lookup n ((j, q) ∷ d) k r h f = ground (arith, are_below-lookup n d k r)

pub are_below-insert :
    (n : ℕ) (d : Dict ℕ) (k : String) (r : ℕ)
    → are_below n d ≡ true
    → r < n
    → are_below n (insert k r d) ≡ true
are_below-insert n [] k r h f = ground arith
are_below-insert n ((j, q) ∷ d) k r h f = ground (arith, are_below-insert n d k r)

pub are_below-delete :
    (n : ℕ) (d : Dict ℕ) (k : String) → are_below n d ≡ true → are_below n (delete k d) ≡ true
are_below-delete n [] k h = refl
are_below-delete n ((j, q) ∷ d) k h = ground (arith, are_below-delete n d k)

pub are_below_mono : (n m : ℕ) (d : Dict ℕ) → n ≤ m → are_below n d ≡ true → are_below m d ≡ true
are_below_mono n m [] l h = refl
are_below_mono n m ((j, q) ∷ d) l h = ground (arith, are_below_mono n m d l)

pub are_all_below_mono :
    (n m : ℕ) (es : List Execution) → n ≤ m → are_all_below n es ≡ true → are_all_below m es ≡ true
are_all_below_mono n m [] l h = refl
are_all_below_mono n m (x ∷ es) l h =
    ground (arith, are_below_mono n m x.pods l, are_all_below_mono n m es l)

pub are_all_below-get_elem? :
    (n : ℕ) (es : List Execution) (e : ℕ) (x : Execution)
    → are_all_below n es ≡ true
    → get_elem? es e ≡ some x
    → are_below n x.pods ≡ true
are_all_below-get_elem? n [] e x h f = cc
are_all_below-get_elem? n (y ∷ es) zero x h f = rw (← some-injective y x f) (ground arith)
are_all_below-get_elem? n (y ∷ es) (suc e) x h f = are_all_below-get_elem? n es e x (ground arith) f

pub are_all_below-set :
    (n : ℕ) (es : List Execution) (e : ℕ) (x : Execution)
    → are_all_below n es ≡ true
    → are_below n x.pods ≡ true
    → are_all_below n (set es e x) ≡ true
are_all_below-set n [] e x h f = refl
are_all_below-set n (y ∷ es) zero x h f = ground arith
are_all_below-set n (y ∷ es) (suc e) x h f = ground (arith, are_all_below-set n es e x)

pub are_all_below-append :
    (n : ℕ) (es : List Execution) (x : Execution)
    → are_all_below n es ≡ true
    → are_below n x.pods ≡ true
    → are_all_below n (es ++ x ∷ []) ≡ true
are_all_below-append n [] x h f = ground arith
are_all_below-append n (y ∷ es) x h f = ground (arith, are_all_below-append n es x)

pub get_elem?-of_lt :
    {A : Type 0} (xs : List A) (i : ℕ) → i < length xs → (x : A) × (get_elem? xs i ≡ some x)
get_elem?-of_lt [] i h = absurd (omega arith)
get_elem?-of_lt (x ∷ xs) zero h = (x, refl)
get_elem?-of_lt (x ∷ xs) (suc i) h = get_elem?-of_lt xs i (omega arith)

-- The maps hold places that are there; the collector is sound and keeps no latest sample.
pub record IsWellFormed (p : Prom) (c : Controller p) : Type 0 where
  pub executions : are_below (length c.executions_made) c.executions ≡ true
  pub pods : are_all_below (length c.pods_made) c.executions_made ≡ true
  pub sound : IsSound p c.prom
  pub latest : c.prom.latest_metric ≡ false

-- A new controller is well-formed, where its collector is sound and keeps no latest sample.
pub new_controller-IsWellFormed :
    (p : Prom) (cfg : Config) (prom : Collector p) (disk : Disk)
    → IsSound p prom
    → prom.latest_metric ≡ false
    → IsWellFormed p (new_controller p cfg prom disk)
unfolding new_controller
new_controller-IsWellFormed p cfg prom disk s l = record {
  executions = refl;
  pods = refl;
  sound = s;
  latest = l;
}
