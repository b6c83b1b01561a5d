-- ===== src/System/Safe.antt =====
-- Runs of the program from a safe state.
use batch_job_controller.Base.{
  Bool, ◌&&◌, true, List, [], ◌∷◌, ◌++◌, none, some, ◌≡◌, ◌⊎◌, refl, ap, arith, inl, inr,
}
use batch_job_controller.Metrics.Prom.{Prom}
use batch_job_controller.Lifecycle.Disk.{SortFunc}
use batch_job_controller.System.{
  System, Move, triggered, advanced, worked, posted, reconciled, Outside, system_step, system_run,
}
use batch_job_controller.Job.Identity.{IsLabelled}
use batch_job_controller.System.Steps.{
  is_null_post, IsSafe, EndsSafely, triggered-EndsSafely, advanced-EndsSafely, worked-EndsSafely,
  posted-EndsSafely, reconciled-EndsSafely, is_apart,
}

module _ (p : Prom) (o : Outside p) (by_time : SortFunc) where
  -- From a safe state every step ends in a safe state, the post of a report of `null` apart.
  system_step-EndsSafely :
      (y : System p) (v : Move)
      → IsLabelled o.templates
      → IsSafe p o by_time y
      → is_apart p o by_time y v ≡ true
      → EndsSafely p o by_time y v
  system_step-EndsSafely y (triggered id now) l s a = triggered-EndsSafely p o by_time y id now s a
  system_step-EndsSafely y (advanced i) l s a = advanced-EndsSafely p o by_time y i l s
  system_step-EndsSafely y (worked e w now) l s a = worked-EndsSafely p o by_time y e w now s
  system_step-EndsSafely y (posted route r now) l s a =
      posted-EndsSafely p o by_time y route r now s
  system_step-EndsSafely y (reconciled pod now) l s a =
      reconciled-EndsSafely p o by_time y pod now s

  -- Does no run of the cron job begin between the test of the flag by another and its writing, in steps up to the
  -- first panic?
  unfoldable pub are_apart : System p → List Move → Bool
  are_apart y [] = true
  are_apart y (v ∷ vs) =
      is_apart p o by_time y v
      && elim (system_step p o by_time y v) [ none ↦ true | some y' ↦ are_apart y' vs ]

  -- The post of a report of `null` that panics after steps that do not.
  pub record Panicked (y : System p) (vs : List Move) : Type 0 where
    pub before : List Move
    pub post : Move
    pub after : List Move
    pub middle : System p
    pub moves : vs ≡ before ++ post ∷ after
    pub ran : system_run p o by_time y before ≡ some middle
    pub posts : is_null_post p o by_time post ≡ true
    pub panics : system_step p o by_time middle post ≡ none

  -- From a safe state (the controller well-formed, at most one run of the cron job, the channels open that it
  -- will use, its flag set where it has written it, the pool size and the history not negative), with
  -- templates that decode to no nil map of labels, and with steps that begin no run of the cron job between
  -- the test of the flag by another and the writing: a run of the program, in any order of its steps, ends in
  -- a safe state, or comes to a posted report whose body is the JSON text `null`: this handler panics, and
  -- nothing before it has panicked.
  pub system_run-IsSafe :
      (y : System p) (vs : List Move)
      → IsLabelled o.templates
      → IsSafe p o by_time y
      → are_apart y vs ≡ true
      → Panicked y vs
        ⊎ ((y' : System p) × (system_run p o by_time y vs ≡ some y') × IsSafe p o by_time y')
  unfolding system_run are_apart
  system_run-IsSafe y [] l s a = inr (y, refl, s)
  system_run-IsSafe y (v ∷ vs) l s a = elim (system_step-EndsSafely y v l s (ground (arith, a))) [
    | inl (posts, n) ↦ inl (record {
      before = [];
      post = v;
      after = vs;
      middle = y;
      moves = refl;
      ran = refl;
      posts = posts;
      panics = n;
    })
    | inr (d, n, s') ↦ elim (system_run-IsSafe d vs l s' (ground (arith, n, a))) [
      | inl q ↦ inl (record {
        before = v ∷ q.before;
        post = q.post;
        after = q.after;
        middle = q.middle;
        moves = ap (λ (us : List Move). v ∷ us) q.moves;
        ran = ground (arith, n, q.ran);
        posts = q.posts;
        panics = q.panics;
      })
      | inr (y', m, s'') ↦ inr (y', ground (arith, n, m), s'')
    ]
  ]
