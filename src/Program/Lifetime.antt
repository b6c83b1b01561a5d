-- ===== src/Program/Lifetime.antt =====
-- The controller from the set-up of the program on.
use batch_job_controller.Base.{
  ℕ, String, Bool, true, false, ◌&&◌, ◌⊎◌, [], ◌∷◌, some, ◌≡◌, ◌∙◌, ◌↔◌, refl, sym, ap, subst,
  arith, Option-cases, inl, inr,
}
use batch_job_controller.Base.Dict.{lookup}
use batch_job_controller.Config.{Config}
use batch_job_controller.Base.Results.{Result}
use batch_job_controller.Config.Load.{Reader, Environment, loaded, refused, get}
use batch_job_controller.Metrics.Prom.{Prom}
use batch_job_controller.Metrics.Collector.{
  Collector, Made, refused_name, unregistered, made, assemble, new_prom_collector,
}
use batch_job_controller.Metrics.Collector.Fresh.{made_of, new_prom_collector-IsSound}
use batch_job_controller.Lifecycle.Disk.{Disk}
use batch_job_controller.Lifecycle.State.{Controller}
use batch_job_controller.Lifecycle.Controller.{new_controller}
use batch_job_controller.Lifecycle.History.WellFormed.{IsWellFormed, new_controller-IsWellFormed}
use batch_job_controller.Program.{
  Ended, exited, panicked, done, Main, ManagerLib, new_manager, ready, assemble_main, setup,
}

module _ (p : Prom) (k : ManagerLib) where
  -- What set-up has made, of a configuration that it has loaded.
  pub record IsSetUp (m : Main p) (fuel : ℕ) (r : Result Reader) (env : Environment)
      (version : String) (disk : Disk) : Type 0 where
    pub namespace : String
    pub named : lookup "NAMESPACE" env ≡ some namespace
    pub config : get fuel r env namespace ≡ some (loaded m.config)
    pub collected : new_prom_collector p version m.config ≡ made m.controller.prom
    pub controller : m.controller ≡ new_controller p m.config m.controller.prom disk
    pub healthz : m.manager.healthz ≡ "healthz" ∷ []
    pub readyz : m.manager.readyz ≡ "readyz" ∷ []

  -- whether the manager takes the two checks of `Setup`
  abbrev pub takes_checks : Bool
  takes_checks =
      k.takes_healthz new_manager "healthz"
      && k.takes_readyz (record new_manager { healthz = "healthz" ∷ [] }) "readyz"

  -- What is behind the reading of the configuration, by the manager, its checks and the collector.
  assembled_of : (disk : Disk) → Config → (makes checks : Bool) → Made p → Ended (Main p)
  assembled_of disk cfg false checks c = panicked
  assembled_of disk cfg true false c = exited
  assembled_of disk cfg true true refused_name = exited
  assembled_of disk cfg true true unregistered = panicked
  assembled_of disk cfg true true (made c) = done (ready p k cfg disk c)

  assemble_main_lem :
      (version : String) (disk : Disk) (cfg : Config)
      → assemble_main p k version disk cfg
        ≡ assembled_of disk cfg (k.makes cfg) takes_checks (new_prom_collector p version cfg)
  unfolding assemble_main assembled_of
  assemble_main_lem version disk cfg = by (new_prom_collector p version cfg) refl
    where
      by :
          (c : Made p)
          → new_prom_collector p version cfg ≡ c
          → assemble_main p k version disk cfg
            ≡ assembled_of disk cfg (k.makes cfg) takes_checks (new_prom_collector p version cfg)
      by refused_name e = ground (arith, e)
      by unregistered e = ground (arith, e)
      by (made c) e = ground (arith, e)

  assembled :
      (m : Main p) (disk : Disk) (cfg : Config) (makes checks : Bool) (c : Made p)
      → assembled_of disk cfg makes checks c ≡ done m
      → (d : Collector p) × (c ≡ made d) × (ready p k cfg disk d ≡ m)
  unfolding assembled_of
  assembled m disk cfg false checks c h = absurd (cc)
  assembled m disk cfg true false c h = absurd (cc)
  assembled m disk cfg true true refused_name h = absurd (cc)
  assembled m disk cfg true true unregistered h = absurd (cc)
  assembled m disk cfg true true (made d) h = (d, refl, cc)

  assembled-panicked_iff :
      (disk : Disk) (cfg : Config) (makes checks : Bool) (c : Made p)
      → (assembled_of disk cfg makes checks c ≡ panicked)
        ↔ ((makes ≡ false) ⊎ ((checks ≡ true) × (c ≡ unregistered)))
  unfolding assembled_of
  assembled-panicked_iff disk cfg false checks c = (λ h. inl refl, λ h. refl)
  assembled-panicked_iff disk cfg true false c =
      (λ h. absurd (cc), λ h. elim h [ inl e ↦ absurd (cc) | inr (e, u) ↦ absurd (cc) ])
  assembled-panicked_iff disk cfg true true refused_name =
      (λ h. absurd (cc), λ h. elim h [ inl e ↦ absurd (cc) | inr (e, u) ↦ absurd (cc) ])
  assembled-panicked_iff disk cfg true true unregistered = (λ h. inr (refl, refl), λ h. refl)
  assembled-panicked_iff disk cfg true true (made c) =
      (λ h. absurd (cc), λ h. elim h [ inl e ↦ absurd (cc) | inr (e, u) ↦ absurd (cc) ])

  module _ (fuel : ℕ) (r : Result Reader) (env : Environment) (version : String) (disk : Disk) where
    -- Set-up panics exactly where it has loaded a configuration for its namespace and either the manager cannot
    -- be made of it, or the manager takes the two checks and the registry does not take the new collector.
    pub setup-panicked_iff : (setup p k fuel r env version disk ≡ some panicked) ↔ (
        (namespace : String) × (cfg : Config) × (lookup "NAMESPACE" env ≡ some namespace)
        × (get fuel r env namespace ≡ some (loaded cfg))
        × ((k.makes cfg ≡ false)
            ⊎ ((takes_checks ≡ true) × (new_prom_collector p version cfg ≡ unregistered))))
    unfolding setup
    setup-panicked_iff = (
      panicked_by,
      λ (namespace, cfg, n, g, m).
          let stopped : assemble_main p k version disk cfg ≡ panicked = panics cfg m in
          ground (arith, n, g, stopped),
    )
      where
        panics :
            (cfg : Config)
            → (k.makes cfg ≡ false)
              ⊎ ((takes_checks ≡ true) × (new_prom_collector p version cfg ≡ unregistered))
            → assemble_main p k version disk cfg ≡ panicked
        panics cfg m =
            assemble_main_lem version disk cfg
            ∙ (assembled-panicked_iff disk cfg (k.makes cfg) takes_checks
                  (new_prom_collector p version cfg)).1
                m

        panicked_by :
            setup p k fuel r env version disk ≡ some panicked
            → ((namespace : String) × (cfg : Config) × (lookup "NAMESPACE" env ≡ some namespace)
                × (get fuel r env namespace ≡ some (loaded cfg))
                × ((k.makes cfg ≡ false)
                    ⊎ ((takes_checks ≡ true) × (new_prom_collector p version cfg ≡ unregistered))))
        panicked_by h = elim (Option-cases (lookup "NAMESPACE" env)) [
          | inl n ↦ absurd (ground arith)
          | inr (namespace, n) ↦ elim (Option-cases (get fuel r env namespace)) [
            | inl g ↦ absurd (ground arith)
            | inr (refused err, g) ↦ absurd (ground arith)
            | inr (loaded cfg, g) ↦ (
              namespace,
              cfg,
              n,
              g,
              (assembled-panicked_iff disk cfg (k.makes cfg) takes_checks
                    (new_prom_collector p version cfg)).0
                  (sym (assemble_main_lem version disk cfg) ∙ ground arith),
            )
          ]
        ]

    ready-IsSetUp :
        (namespace : String) (cfg : Config) (c : Collector p)
        → lookup "NAMESPACE" env ≡ some namespace
        → get fuel r env namespace ≡ some (loaded cfg)
        → new_prom_collector p version cfg ≡ made c
        → IsSetUp (ready p k cfg disk c) fuel r env version disk
    unfolding new_controller
    ready-IsSetUp namespace cfg c n g e = record {
      namespace = namespace;
      named = n;
      config = g;
      collected = e;
      controller = refl;
      healthz = refl;
      readyz = refl;
    }

    pub setup-IsSetUp :
        (m : Main p)
        → setup p k fuel r env version disk ≡ some (done m)
        → IsSetUp m fuel r env version disk
    unfolding setup
    setup-IsSetUp m h = elim (Option-cases (lookup "NAMESPACE" env)) [
      | inl n ↦ absurd (ground arith)
      | inr (namespace, n) ↦ elim (Option-cases (get fuel r env namespace)) [
        | inl g ↦ absurd (ground arith)
        | inr (refused err, g) ↦ absurd (ground arith)
        | inr (loaded cfg, g) ↦
            let (c, e, is) =
              assembled m disk cfg (k.makes cfg) takes_checks (new_prom_collector p version cfg)
                (sym (assemble_main_lem version disk cfg) ∙ ground arith) in
            subst (λ (x : Main p). IsSetUp x fuel r env version disk) is
              (ready-IsSetUp namespace cfg c n g e)
      ]
    ]

    latest-new_prom_collector :
        (cfg : Config) (c : Collector p)
        → new_prom_collector p version cfg ≡ made c
        → c.latest_metric ≡ cfg.latest_metrics_label
    unfolding assemble
    latest-new_prom_collector cfg c e =
        let (gs, n, taken, is) = made_of p version cfg c e in
        ap (λ (d : Collector p). d.latest_metric) (sym is)

    pub set_up-IsWellFormed :
        (m : Main p)
        → IsSetUp m fuel r env version disk
        → m.config.latest_metrics_label ≡ false
        → IsWellFormed p m.controller
    set_up-IsWellFormed m s l =
        subst (λ (c : Controller p). IsWellFormed p c) (sym s.controller)
          (new_controller-IsWellFormed p m.config m.controller.prom disk
            (new_prom_collector-IsSound p version m.config m.controller.prom s.collected)
            (latest-new_prom_collector m.config m.controller.prom s.collected ∙ l))
