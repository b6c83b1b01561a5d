-- ===== src/Config/Load/Owners.antt =====
-- `findOwner` against a relation: the first owners are followed to the top.
use batch_job_controller.Base.{
  ℕ, zero, suc, ◌≤◌, List, [], ◌∷◌, Option, none, some, ◌≡◌, subst, arith, Option-cases, inl, inr,
}
use mathlib.Core.Option.{some-injective}
use batch_job_controller.Config.{Owner}
use batch_job_controller.Config.Load.{Reference, Reader, find_owner}

-- Following the first owners from an object leads to the one that has no owner, or to nothing where an
-- object on the way is not found.
pub data Leads (r : Reader) : Reference → Option Owner → Type 0 where
  missing : (ref : Reference) → r.get ref ≡ none → Leads r ref none
  top : (ref : Reference) → r.get ref ≡ some [] → Leads r ref (some ref)
  up :
      (ref owner : Reference) (others : List Reference) {o : Option Owner}
      → r.get ref ≡ some (owner ∷ others)
      → Leads r owner o
      → Leads r ref o

-- What `findOwner` finds is where the owners lead.
pub find_owner-Leads :
    (fuel : ℕ) (r : Reader) (ref : Reference) (o : Option Owner)
    → find_owner fuel r ref ≡ some o
    → Leads r ref o
unfolding find_owner
find_owner-Leads zero r ref o h = cc
find_owner-Leads (suc fuel) r ref o h = elim (Option-cases (r.get ref)) [
  | inl n ↦ subst (Leads r ref) (some-injective none o (ground arith)) (missing ref n)
  | inr ([], n) ↦ subst (Leads r ref) (some-injective (some ref) o (ground arith)) (top ref n)
  | inr (owner ∷ others, n) ↦ up ref owner others n (find_owner-Leads fuel r owner o (ground arith))
]

-- how many objects are looked at
abbrev pub steps : {r : Reader} {ref : Reference} {o : Option Owner} → Leads r ref o → ℕ
steps (missing ref n) = 1
steps (top ref n) = 1
steps (up ref owner others n l) = suc (steps l)

-- Where the first owners lead from an object to one without an owner, or to one that is not found, `findOwner`
-- returns that owner, or none, with any fuel that is at least the number of the objects on the way.
pub find_owner_enough :
    (r : Reader) (ref : Reference) (o : Option Owner) (l : Leads r ref o) (fuel : ℕ)
    → steps l ≤ fuel
    → find_owner fuel r ref ≡ some o
unfolding find_owner
find_owner_enough r ref o (missing _ n) zero h = absurd (omega arith)
find_owner_enough r ref o (top _ n) zero h = absurd (omega arith)
find_owner_enough r ref o (up _ owner others n l) zero h = absurd (omega arith)
find_owner_enough r ref o (missing _ n) (suc fuel) h = ground arith
find_owner_enough r ref o (top _ n) (suc fuel) h = ground arith
find_owner_enough r ref o (up _ owner others n l) (suc fuel) h =
    ground (arith, find_owner_enough r owner o l fuel)
