-- ===== src/Cron/Completion.antt =====
-- A run of the cron job whose channel has room for all its jobs.
use batch_job_controller.Base.{
  ℕ, zero, suc, ◌+◌, ◌≤◌, ◌<◌, ◌-◌, String, true, false, List, [], ◌∷◌, ◌++◌, map, take, none, some,
  ◌≡◌, ◌∙◌, refl, sym, ap, subst, arith, eq_refl, length, Option-cases, inl, inr, get_elem?,
  get_elem?-lt, get_elem?-set_self, get_elem?-append_length, set, length-append, append-nil,
  append_assoc,
}
use mathlib.Core.Option.{some-injective}
use batch_job_controller.Base.Results.{good}
use batch_job_controller.Base.Dict.{lookup, insert, lookup-insert}
use batch_job_controller.Base.Int.{pos}
use batch_job_controller.Metrics.Prom.{Prom}
use batch_job_controller.Lifecycle.Disk.{SortFunc, make_entry, remove_all}
use batch_job_controller.Lifecycle.Disk.Removal.{length-perm}
use batch_job_controller.Lifecycle.State.{Job, idle, Execution, Controller}
use batch_job_controller.Lifecycle.Controller.{
  returned, replicate, make_report_dir, start, made, new_execution, for_id, register, send, add_pod,
  all_added,
}
use batch_job_controller.Lifecycle.Controller.Retention.{
  forget_all, forget_first-eq, forget_all-IsForgotten,
}
use batch_job_controller.Lifecycle.History.{added, happen, history}
use batch_job_controller.Lifecycle.History.WellFormed.{IsWellFormed}
use batch_job_controller.Lifecycle.History.Calls.{start-IsWellFormed}
use batch_job_controller.Lifecycle.History.Panics.{history-IsWellFormed}
use batch_job_controller.Job.{Templates, PodTemplate, new_job}
use batch_job_controller.Cron.{
  CronJob, Cluster, Node, advance_times, Stage, resting, admitted, listing, deleting, addressing,
  adding, job_of, delete_all, callback_address, usable_nodes, add_node, trigger, advance,
}

-- The open channel of an execution, in a controller that can end its run.
record IsFilled (p : Prom) (c : Controller p) (id : String) (e size h : ℕ) (queue : List Job)
    : Type 0 where
  well_formed : IsWellFormed p c
  place : lookup id c.executions ≡ some e
  execution : Execution
  here : get_elem? c.executions_made e ≡ some execution
  open_chan : execution.closed ≡ false
  jobs : execution.job_chan ≡ queue
  room : execution.cap ≡ size
  workers : execution.workers ≡ replicate size idle
  readable : c.disk.readable ≡ true
  retained : c.report_history ≡ pos h

set-set {ℓ} : {A : Type ℓ} (xs : List A) (i : ℕ) (y z : A) → set (set xs i y) i z ≡ set xs i z
set-set [] i y z = refl
set-set (x ∷ xs) zero y z = refl
set-set {A} (x ∷ xs) (suc i) y z = ap (λ (l : List A). x ∷ l) (set-set xs i y z)

module _ (p : Prom) (t : Templates) (k : Cluster) (by_time : SortFunc) where
  advance_times-add :
      (m n : ℕ) (j j' : CronJob p)
      → advance_times p t k by_time m j ≡ some j'
      → advance_times p t k by_time (m + n) j ≡ advance_times p t k by_time n j'
  advance_times-add zero n j j' h =
      ap (λ (m : ℕ). advance_times p t k by_time m j) (let e : 0 + n ≡ n = omega arith in e)
      ∙ ap (λ (d : CronJob p). advance_times p t k by_time n d) (some-injective j j' h)
  advance_times-add (suc m) n j j' h = elim (Option-cases (advance p t k by_time j)) [
    | inl o ↦ absurd (ground (arith, o, h))
    | inr (d, o) ↦
        ap (λ (q : ℕ). advance_times p t k by_time q j)
          (let e : suc m + n ≡ suc (m + n) = omega arith in e)
        ∙ ground (arith, o, advance_times-add m n d j' (ground (arith, o, h)))
  ]

  add_pod-IsFilled :
      (c : Controller p) (id : String) (e size h : ℕ) (queue : List Job) (n : Node)
      → IsFilled p c id e size h queue
      → length queue < size
      → (c' : Controller p) × (add_pod p c (job_of p t k by_time id n) ≡ some (c', returned none))
        × IsFilled p c' id e size h (queue ++ job_of p t k by_time id n ∷ [])
  unfolding add_pod for_id register send history happen
  add_pod-IsFilled c id e size h queue n f room =
      let job = job_of p t k by_time id n in
      let x : Execution = record f.execution {
        pods = insert job.node (length c.pods_made) f.execution.pods;
      } in
      let y : Execution = record x { job_chan = f.execution.job_chan ++ job ∷ [] } in
      let c' : Controller p = record (register p c e f.execution job).0 {
        executions_made = set c.executions_made e y;
      } in
      let sent : add_pod p c job ≡ some (c', returned none) =
        ground
          (arith, f.place, f.here, f.open_chan, f.jobs, f.room, set-set c.executions_made e x y) in
      (
        c',
        sent,
        record {
          well_formed =
              history-IsWellFormed p by_time c c' (added job ∷ []) (ground (arith, sent))
                f.well_formed;
          place = f.place;
          execution = y;
          here = get_elem?-set_self c.executions_made e y (get_elem?-lt c.executions_made e f.here);
          open_chan = f.open_chan;
          jobs = ap (λ (l : List Job). l ++ job ∷ []) f.jobs;
          room = f.room;
          workers = f.workers;
          readable = f.readable;
          retained = f.retained;
        },
      )

  -- the run at a stage, with the controller of then
  abbrev running_at : CronJob p → Controller p → Stage → CronJob p
  running_at j c stage = record j { controller = c; running = true; stage = stage }

  adding-IsFilled :
      (j : CronJob p) (c : Controller p) (id address : String) (e size h : ℕ) (queue : List Job)
      (nodes : List Node)
      → ((n : Node)
          → (pod : PodTemplate) × (new_job t j.cfg n.name id address j.cfg.owner j.extender
              ≡ some (good pod)))
      → IsFilled p c id e size h queue
      → length queue + length nodes ≤ size
      → (c' : Controller p) × (advance_times p t k by_time
            (length nodes)
            (running_at j c (adding id address nodes))
          ≡ some (running_at j c' (adding id address [])))
        × IsFilled p c' id e size h (queue ++ map (job_of p t k by_time id) nodes)
  unfolding advance add_node for_id
  adding-IsFilled j c id address e size h queue [] builds f room =
      (c, refl, subst (λ (q : List Job). IsFilled p c id e size h q) (sym (append-nil queue)) f)
  adding-IsFilled j c id address e size h queue (n ∷ nodes) builds f room =
      let job = job_of p t k by_time id n in
      let (pod, built) = builds n in
      let (d, sent, g) = add_pod-IsFilled c id e size h queue n f (omega arith) in
      let (c', ran, g') =
        adding-IsFilled j d id address e size h (queue ++ job ∷ []) nodes builds g
          (omega (arith, length-append queue (job ∷ []))) in
      let once : advance p t k by_time (running_at j c (adding id address (n ∷ nodes)))
          ≡ some (running_at j d (adding id address nodes)) =
        ground (arith, built, sent, f.place) in
      (
        c',
        ground (arith, once, ran),
        subst (λ (q : List Job). IsFilled p c' id e size h q)
            (append_assoc queue (job ∷ []) (map (job_of p t k by_time id) nodes)) g',
      )

  -- `AllAdded` closes the channel, and leaves it as it is otherwise
  closing-IsClosed :
      (c : Controller p) (id : String) (e size h : ℕ) (queue : List Job)
      → IsFilled p c id e size h queue
      → (c' : Controller p) × (x : Execution) × (all_added p by_time c id ≡ some (c', none))
        × (get_elem? c'.executions_made e ≡ some x)
        × (x.closed ≡ true)
        × (x.job_chan ≡ queue)
        × (x.workers ≡ replicate size idle)
  unfolding all_added for_id
  closing-IsClosed c id e size h queue f =
      let files = by_time.sort c.disk.entries in
      let surplus = length c.disk.entries - h in
      let all = length-perm (by_time.sort-perm c.disk.entries) in
      let looped = forget_first-eq p surplus files c (omega (arith, all)) in
      let gone = take surplus files in
      let heap = (forget_all-IsForgotten p c gone (f.well_formed).sound).heap in
      let here : get_elem? (forget_all p gone c).executions_made e ≡ some f.execution =
        rw heap f.here in
      let x : Execution = record f.execution { closed = true } in
      (
        record (forget_all p gone c) {
          executions_made = set (forget_all p gone c).executions_made e x;
        },
        x,
        ground (arith, f.place, f.readable, f.retained, f.open_chan, all, looped, here),
        get_elem?-set_self (forget_all p gone c).executions_made e x
            (get_elem?-lt (forget_all p gone c).executions_made e here),
        refl,
        f.jobs,
        f.workers,
      )

  start-IsFilled :
      (c : Controller p) (id : String) (jobs now size h : ℕ)
      → IsWellFormed p c
      → c.disk.readable ≡ true
      → c.report_history ≡ pos h
      → IsFilled p (start p c id jobs now size) id (length c.executions_made) size h []
  unfolding start make_report_dir make_entry remove_all
  start-IsFilled c id jobs now size h wf readable history = record {
    well_formed = start-IsWellFormed p c id jobs now size wf;
    place = lookup-insert id id (length c.executions_made) c.executions ∙ rw eq_refl refl;
    execution = made p id size;
    here = get_elem?-append_length c.executions_made (made p id size);
    open_chan = refl;
    jobs = refl;
    room = refl;
    workers = refl;
    readable = ground (arith, readable);
    retained = history;
  }

  -- A run that is triggered with the flag unset, for a well-formed controller with a readable report directory
  -- and a history that is not negative, ends by its own steps, six and one for each usable node, where no other
  -- run comes between, where the pool has as many places as there are usable nodes, the old pods can be deleted,
  -- the address is found and every pod can be built. The flag is unset then, and the channel of the new
  -- execution is closed and holds the jobs of exactly the usable nodes, in their order; its workers are still to
  -- begin.
  pub trigger_completes :
      (j : CronJob p) (id address : String) (now size h : ℕ) (items : List Node)
      → j.running ≡ false
      → k.list_nodes j.cfg.job_node_selector ≡ some items
      → delete_all p t k by_time j.cfg ≡ false
      → callback_address p t k by_time j.cfg ≡ some address
      → ((n : Node)
          → (pod : PodTemplate) × (new_job t j.cfg n.name id address j.cfg.owner j.extender
              ≡ some (good pod)))
      → IsWellFormed p j.controller
      → j.controller.disk.readable ≡ true
      → j.controller.report_history ≡ pos h
      → j.controller.pod_pool_size ≡ pos size
      → length (usable_nodes j.cfg.run_on_unscheduled_nodes items) ≤ size
      → let nodes = usable_nodes j.cfg.run_on_unscheduled_nodes items in
        (j₂ : CronJob p) × (x : Execution) × (advance_times p t k by_time
            (length nodes + 6)
            (trigger p t k by_time j id now)
          ≡ some j₂)
        × (j₂.running ≡ false)
        × (j₂.stage ≡ resting)
        × (get_elem? j₂.controller.executions_made (length j.controller.executions_made) ≡ some x)
        × (x.closed ≡ true)
        × (x.job_chan ≡ map (job_of p t k by_time id) nodes)
        × (x.workers ≡ replicate size idle)
  unfolding trigger advance new_execution
  trigger_completes j id address now size h items off listed deleted found builds wf readable
        history pool room =
      let nodes = usable_nodes j.cfg.run_on_unscheduled_nodes items in
      let e = length j.controller.executions_made in
      let c₀ = start p j.controller id (length nodes) now size in
      let at = running_at j c₀ in
      let begun = start-IsFilled j.controller id (length nodes) now size h wf readable history in
      let (c₁, ran, filled) =
        adding-IsFilled j c₀ id address e size h [] nodes builds begun (omega (arith, room)) in
      let (c₂, x, added_all, here, closed, jobs, workers) =
        closing-IsClosed c₁ id e size h (map (job_of p t k by_time id) nodes) filled in
      let j₂ : CronJob p = record j { controller = c₂; running = false; stage = resting } in
      let set_ : advance p t k by_time (record j { stage = admitted id now })
          ≡ some (record j { running = true; stage = listing id now }) =
        refl in
      let begun_by : advance p t k by_time (record j { running = true; stage = listing id now })
          ≡ some (at (deleting id nodes)) =
        ground (arith, listed, pool) in
      let first : advance p t k by_time (at (deleting id nodes)) ≡ some (at (addressing id nodes)) =
        ground (arith, deleted) in
      let second : advance p t k by_time (at (addressing id nodes))
          ≡ some (at (adding id address nodes)) =
        ground (arith, found) in
      let last : advance_times p t k by_time 2 (running_at j c₁ (adding id address [])) ≡ some j₂ =
        ground (arith, added_all) in
      let total =
        advance_times-add (length nodes) 2 (at (adding id address nodes))
          (running_at j c₁ (adding id address [])) ran
        ∙ last in
      (
        j₂,
        x,
        ap (λ (q : ℕ). advance_times p t k by_time q (trigger p t k by_time j id now))
              (let s : length nodes + 6 ≡ suc (suc (suc (suc (length nodes + 2)))) = omega arith in
                s)
            ∙ ground (arith, off, set_, listed, pool, begun_by, first, second, total),
        refl,
        refl,
        here,
        closed,
        jobs,
        workers,
      )
