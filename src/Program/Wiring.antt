-- ===== src/Program/Wiring.antt =====
-- What `Start` of cmd/main.go hands to the runnables, in whatever order they come.
use batch_job_controller.Base.{
  ℕ, String, Bool, true, false, not, ◌&&◌, ◌||◌, List, [], ◌∷◌, ◌++◌, Option, none, some, ◌≡◌, ◌∙◌,
  refl, sym, ap, subst, arith, append-nil, append_assoc, length, any, any-append, if◌then◌else◌,
  Bool-cases, inl, inr,
}
use batch_job_controller.Config.{Config}
use batch_job_controller.Job.{CustomPodEnv}
use batch_job_controller.Metrics.Prom.{Prom}
use batch_job_controller.Program.{
  done, Runnable, Injected, Manager, ManagerLib, Main, cron_job, gather, get_recorder,
  inject_recorder, add_checks, add_checks_of, add, add_to_manager, add_all, start_main,
}

-- What a runnable is to be given: what it takes and nothing else.
abbrev pub given : Config → (recorder : ℕ) → Runnable → Injected
given cfg recorder r = record {
  runnable = r;
  recorder = if r.takes_recorder then some recorder else none;
  config = if r.takes_config then some cfg else none;
  controller = r.takes_controller;
  reader = r.takes_reader;
  client = r.takes_client;
}

-- the runnables that the manager takes, with what they are given
abbrev pub all_given : ManagerLib → Config → ℕ → List Runnable → List Injected
all_given k cfg recorder [] = []
all_given k cfg recorder (r ∷ rs) =
    let rest = all_given k cfg recorder rs in
    if k.takes r then given cfg recorder r ∷ rest else rest

abbrev pub prepend : Option CustomPodEnv → List CustomPodEnv → List CustomPodEnv
prepend none es = es
prepend (some e) es = e ∷ es

-- the runnables that extend the environment of the pods, in their order
abbrev pub extenders : List Runnable → List CustomPodEnv
extenders [] = []
extenders (r ∷ rs) = prepend r.extends (extenders rs)

all_given-append :
    (k : ManagerLib) (cfg : Config) (e : ℕ) (rs ss : List Runnable)
    → all_given k cfg e (rs ++ ss) ≡ all_given k cfg e rs ++ all_given k cfg e ss
all_given-append k cfg e [] ss = refl
all_given-append k cfg e (r ∷ rs) ss = ground (arith, all_given-append k cfg e rs ss)

-- the recorders once one is needed or not
abbrev pub with_one : (made needed : Bool) → (name : String) → List String → List String
with_one made needed name recorders =
    if needed && not made then recorders ++ name ∷ [] else recorders

with_one-with_one :
    (made a b : Bool) (name : String) (recorders : List String)
    → with_one (made || a) b name (with_one made a name recorders)
      ≡ with_one made (a || b) name recorders
with_one-with_one made a b name recorders = ground arith

module _ (p : Prom) (k : ManagerLib) where
  -- is the recorder made, and which is it, or which will it be?
  abbrev pub is_made : Main p → Bool
  is_made m = elim m.event_recorder [ none ↦ false | some e ↦ true ]

  abbrev pub place_of : Option ℕ → List String → ℕ
  place_of none recorders = length recorders
  place_of (some e) recorders = e

  abbrev pub recorder_of : Main p → ℕ
  recorder_of m = place_of m.event_recorder m.manager.recorders

  abbrev pub recorders_with : Main p → Bool → List String
  recorders_with m needed = with_one (is_made m) needed m.config.name m.manager.recorders

  -- Runnables have been wired: the manager has got each that it takes, with what it is to be given, in
  -- their order, and at most one recorder has been made, where one was needed.
  pub record IsWired (m m' : Main p) (rs : List Runnable) : Type 0 where
    pub config : m'.config ≡ m.config
    pub controller : m'.controller ≡ m.controller
    pub recorder : recorder_of m' ≡ recorder_of m
    pub made : is_made m' ≡ (is_made m || any (λ r. r.takes_recorder) rs)
    pub recorders : m'.manager.recorders ≡ recorders_with m (any (λ r. r.takes_recorder) rs)
    pub added : m'.manager.added ≡ m.manager.added ++ all_given k m.config (recorder_of m) rs

  add_checks_of-recorders :
      (m : Manager) (r : Runnable) → (add_checks_of p k m r).recorders ≡ m.recorders
  unfolding add_checks_of add_checks
  add_checks_of-recorders m r = ground arith

  add_checks_of-added : (m : Manager) (r : Runnable) → (add_checks_of p k m r).added ≡ m.added
  unfolding add_checks_of add_checks
  add_checks_of-added m r = ground arith

  add-recorders : (m : Manager) (i : Injected) → (add p k m i).recorders ≡ m.recorders
  unfolding add
  add-recorders m i = ground arith

  add-added :
      (m : Manager) (i : Injected)
      → (add p k m i).added ≡ (if k.takes i.runnable then m.added ++ i ∷ [] else m.added)
  unfolding add
  add-added m i = ground arith

  -- what the injection of the recorder does
  record IsInjected (m m' : Main p) (r : Runnable) (recorder : Option ℕ) : Type 0 where
    config : m'.config ≡ m.config
    controller : m'.controller ≡ m.controller
    is_given : recorder ≡ (if r.takes_recorder then some (recorder_of m) else none)
    place : recorder_of m' ≡ recorder_of m
    made : is_made m' ≡ (is_made m || r.takes_recorder)
    recorders : m'.manager.recorders ≡ recorders_with m r.takes_recorder
    added : m'.manager.added ≡ m.manager.added

  inject_recorder-IsInjected :
      (m : Main p) (r : Runnable)
      → IsInjected m (inject_recorder p k m r).0 r (inject_recorder p k m r).1
  unfolding inject_recorder get_recorder
  inject_recorder-IsInjected m r = record {
    config = ground arith;
    controller = ground arith;
    is_given = ground arith;
    place = ground arith;
    made = ground arith;
    recorders = ground arith;
    added = ground arith;
  }

  add_to_manager-IsWired : (m : Main p) (r : Runnable) → IsWired m (add_to_manager p k m r) (r ∷ [])
  unfolding add_to_manager
  add_to_manager-IsWired m r =
      let (m', recorder) = inject_recorder p k m r in
      let h = inject_recorder-IsInjected m r in
      let i : Injected = record (given m.config (recorder_of m) r) {
        recorder = (inject_recorder p k m r).1;
      } in
      let same : i ≡ given m.config (recorder_of m) r = rw h.is_given refl in
      let d = add_checks_of p k (inject_recorder p k m r).0.manager r in
      let recs : (add p k d i).recorders ≡ (inject_recorder p k m r).0.manager.recorders =
        add-recorders d i ∙ add_checks_of-recorders (inject_recorder p k m r).0.manager r in
      let all : d.added ≡ m.manager.added =
        add_checks_of-added (inject_recorder p k m r).0.manager r ∙ h.added in
      let added : (add p k d i).added ≡ (
          if k.takes r
          then m.manager.added ++ given m.config (recorder_of m) r ∷ []
          else m.manager.added) =
        add-added d i ∙ rw (all, same) refl in
      record {
        config = h.config;
        controller = h.controller;
        recorder = ap (place_of (inject_recorder p k m r).0.event_recorder) recs ∙ h.place;
        made = h.made ∙ ground arith;
        recorders = recs ∙ h.recorders ∙ ground arith;
        added = added ∙ ground (arith, append-nil m.manager.added);
      }

  -- after nothing, and one after the other
  none-IsWired : (m : Main p) → IsWired m m []
  none-IsWired m = record {
    config = refl;
    controller = refl;
    recorder = refl;
    made = ground arith;
    recorders = refl;
    added = sym (append-nil m.manager.added);
  }

  then-IsWired :
      (m₁ m₂ m₃ : Main p) (rs ss : List Runnable)
      → IsWired m₁ m₂ rs
      → IsWired m₂ m₃ ss
      → IsWired m₁ m₃ (rs ++ ss)
  then-IsWired m₁ m₂ m₃ rs ss g h = record {
    config = h.config ∙ g.config;
    controller = h.controller ∙ g.controller;
    recorder = h.recorder ∙ g.recorder;
    made = h.made ∙ ground (arith, g.made, any-append (λ (r : Runnable). r.takes_recorder) rs ss);
    recorders =
        h.recorders
        ∙ rw (g.config, g.made, g.recorders, any-append (λ (r : Runnable). r.takes_recorder) rs ss)
            (with_one-with_one (is_made m₁) _ _ m₁.config.name m₁.manager.recorders);
    added =
        h.added
        ∙ rw
            (
              g.added,
              g.config,
              g.recorder,
              append_assoc,
              all_given-append k m₁.config (recorder_of m₁) rs ss,
            )
            refl;
  }

  gather-append :
      (es : List CustomPodEnv) (o : Option CustomPodEnv) (fs : List CustomPodEnv)
      → gather p k es o ++ fs ≡ es ++ prepend o fs
  gather-append es none fs = refl
  gather-append es (some e) fs = append_assoc es (e ∷ []) fs

  add_all-IsWired :
      (m : Main p) (extender : List CustomPodEnv) (rs : List Runnable)
      → IsWired m (add_all p k m extender rs).0 rs
  unfolding add_all
  add_all-IsWired m extender [] = none-IsWired m
  add_all-IsWired m extender (r ∷ rs) =
      then-IsWired m (add_to_manager p k m r) _ (r ∷ []) rs (add_to_manager-IsWired m r)
        (add_all-IsWired (add_to_manager p k m r) _ rs)

  add_all-extenders :
      (m : Main p) (extender : List CustomPodEnv) (rs : List Runnable)
      → (add_all p k m extender rs).1 ≡ extender ++ extenders rs
  unfolding add_all
  add_all-extenders m extender [] = sym (append-nil extender)
  add_all-extenders m extender (r ∷ rs) =
      add_all-extenders (add_to_manager p k m r) (gather p k extender r.extends) rs
      ∙ gather-append extender r.extends (extenders rs)

  -- Where `Start` gets to the end of the manager without an exit, the manager has got every runnable that
  -- it takes, in their order, and last the cron job with exactly the runnables among them that extend the
  -- environment. Each has been given what it takes and nothing else, all the same recorder, of which one
  -- is made where a runnable takes one and there is none yet; the configuration and the controller stay.
  pub start_main-IsWired :
      (m m' : Main p) (rs : List Runnable)
      → start_main p k m rs ≡ done m'
      → IsWired m m' (rs ++ cron_job (extenders rs) ∷ [])
  unfolding start_main
  start_main-IsWired m m' rs h =
      let m₁ = (add_all p k m [] rs).0 in
      let m₂ = add_to_manager p k m₁ (cron_job (add_all p k m [] rs).1) in
      let wired : IsWired m m₂ (rs ++ cron_job (add_all p k m [] rs).1 ∷ []) =
        then-IsWired m m₁ m₂ rs _ (add_all-IsWired m [] rs)
          (add_to_manager-IsWired m₁ (cron_job (add_all p k m [] rs).1)) in
      elim (Bool-cases (k.watches m₂.manager)) [
        | inl w ↦ elim (Bool-cases (k.runs m₂.manager)) [
          | inl r ↦
              let is : m₂ ≡ m' = ground arith in
              subst (λ (n : Main p). IsWired m n (rs ++ cron_job (extenders rs) ∷ [])) is
                (subst (λ (es : List CustomPodEnv). IsWired m m₂ (rs ++ cron_job es ∷ []))
                  (add_all-extenders m [] rs) wired)
          | inr r ↦ absurd (ground arith)
        ]
        | inr w ↦ absurd (ground arith)
      ]
