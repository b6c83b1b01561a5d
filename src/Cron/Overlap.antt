-- ===== src/Cron/Overlap.antt =====
-- The flag `running` of pkg/cron/cron.go, when several goroutines call `startPods` of one job at a time: the cron
-- library starts a goroutine for each trigger, and `Start` one more. No lock is held between the test of the
-- flag and its writing.
use batch_job_controller.Base.{
  ℕ, zero, suc, Bool, true, false, List, [], ◌∷◌, ◌++◌, map, ◌≡◌, ◌∙◌, refl, ap, if◌then◌else◌,
}

-- Where a goroutine is: before the test of the flag, past it and before the writing, in the run with its
-- deferred write to come, or back from the call.
pub data Starter : Type 0 where
  testing admitted going returned : Starter

-- the flag and the goroutines
abbrev pub Starters : Type 0
Starters = Bool × List Starter

-- what a goroutine does next
unfoldable pub next_of : Bool → Starter → Bool × Starter
next_of running testing = if running then (running, returned) else (running, admitted)
next_of running admitted = (true, going)
next_of running going = (false, returned)
next_of running returned = (running, returned)

-- the step of the goroutine at a place
unfoldable pub turn : Starters → ℕ → Starters
unfolding next_of
turn (running, []) i = (running, [])
turn (running, g ∷ gs) zero = let (running', g') = next_of running g in (running', g' ∷ gs)
turn (running, g ∷ gs) (suc i) = let (running', gs') = turn (running, gs) i in (running', g ∷ gs')

unfoldable pub turns : Starters → List ℕ → Starters
unfolding turn
turns s [] = s
turns s (i ∷ is) = turns (turn s i) is

abbrev pub all_at : Starter → ℕ → List Starter
all_at g zero = []
all_at g (suc n) = g ∷ all_at g n

-- each goroutine once, in their order
abbrev pub in_order : ℕ → List ℕ
in_order zero = []
in_order (suc n) = 0 ∷ map suc (in_order n)

abbrev behind : Starter → Starters → Starters
behind g (running, gs) = (running, g ∷ gs)

turns-behind :
    (g : Starter) (s : Starters) (is : List ℕ)
    → turns (behind g s) (map suc is) ≡ behind g (turns s is)
unfolding turns
turns-behind g s [] = refl
turns-behind g s (i ∷ is) = turns-behind g (turn s i) is

turns-append : (s : Starters) (is js : List ℕ) → turns s (is ++ js) ≡ turns (turns s is) js
unfolding turns
turns-append s [] js = refl
turns-append s (i ∷ is) js = turns-append (turn s i) is js

all_tested : (n : ℕ) → turns (false, all_at testing n) (in_order n) ≡ (false, all_at admitted n)
unfolding turns
all_tested zero = refl
all_tested (suc n) =
    turns-behind admitted (false, all_at testing n) (in_order n)
    ∙ ap (behind admitted) (all_tested n)

all_set : (n : ℕ) → turns (true, all_at admitted n) (in_order n) ≡ (true, all_at going n)
unfolding turns
all_set zero = refl
all_set (suc n) =
    turns-behind going (true, all_at admitted n) (in_order n) ∙ ap (behind going) (all_set n)

-- Of any number of goroutines that call `startPods` with the flag unset, all can be in the run at one time: one
-- after the other tests the flag, and then one after the other sets it.
pub turns_overlap :
    (n : ℕ)
    → turns (false, all_at testing (suc n)) (in_order (suc n) ++ in_order (suc n))
      ≡ (true, all_at going (suc n))
unfolding turns
turns_overlap n =
    turns-append (false, all_at testing (suc n)) (in_order (suc n)) (in_order (suc n))
    ∙ (ap (λ (s : Starters). turns s (in_order (suc n))) (all_tested (suc n))
        ∙ (turns-behind going (true, all_at admitted n) (in_order n)
            ∙ ap (behind going) (all_set n)))
