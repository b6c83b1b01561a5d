-- ===== src/Config/Load/Outcomes.antt =====
-- What `getInternal` returns.
use batch_job_controller.Base.{
  ℕ, zero, suc, String, Bool, true, false, ◌&&◌, Option, none, some, ◌≡◌, ◌≢◌, ◌↔◌, refl, subst,
  arith, Option-cases, inl, inr,
}
use batch_job_controller.Base.Dict.{Dict, lookup}
use batch_job_controller.Base.Int.{ℤ, pos, negsuc}
use batch_job_controller.Config.{Config, Owner}
use batch_job_controller.Config.Load.{
  Reader, Environment, getenv, find_pod_owner, is_dev_mode, LoadError, no_config_map,
  no_config_file, unreadable_config, no_pod_template, loaded, refused, complete, get_internal,
  or_default_delay,
}
use batch_job_controller.Config.Load.Owners.{Leads, find_owner-Leads}

-- What holds of a configuration that was loaded.
pub record IsLoaded (r : Reader) (env : Environment) (namespace : String) (contents : Dict String)
    (cfg : Config) : Type 0 where
  pub template : lookup "pod-template.yaml" contents ≡ some cfg.job_pod_template
  pub namespaced : cfg.namespace ≡ namespace
  pub delay : cfg.startup_delay ≢ pos 0
  pub dev_mode : cfg.dev_mode ≡ is_dev_mode env
  pub owned :
      Leads r (record { kind = "Pod"; api_version = "v1"; name = getenv env "HOSTNAME" }) cfg.owner
  pub text : String
  pub decoded : Config
  pub listed : lookup "config.yaml" contents ≡ some text
  pub decodes_to : r.decode text ≡ some decoded
  pub directory :
      cfg.report_directory
      ≡ elim (lookup "REPORT_DIRECTORY" env) [ none ↦ decoded.report_directory | some dir ↦ dir ]
  pub name : cfg.name ≡ decoded.name
  pub cron_expression : cfg.cron_expression ≡ decoded.cron_expression
  pub report_history : cfg.report_history ≡ decoded.report_history
  pub pod_pool_size : cfg.pod_pool_size ≡ decoded.pod_pool_size
  pub metrics : cfg.metrics ≡ decoded.metrics

abbrev pub is_some : {A : Type 0} → Option A → Bool
is_some none = false
is_some (some a) = true

abbrev pub decodes : Reader → Option String → Bool
decodes r none = false
decodes r (some text) = is_some (r.decode text)

-- Does the config map hold a configuration that can be decoded, and a template?
abbrev pub is_complete : Reader → Option (Dict String) → Bool
is_complete r none = false
is_complete r (some contents) =
    decodes r (lookup "config.yaml" contents) && is_some (lookup "pod-template.yaml" contents)

or_default_delay_ne : (d : ℤ) → or_default_delay d ≢ pos 0
or_default_delay_ne (pos zero) h = ground arith
or_default_delay_ne (pos (suc n)) h = ground arith
or_default_delay_ne (negsuc n) h = ground arith

complete-IsLoaded :
    (fuel : ℕ) (r : Reader) (env : Environment) (namespace template : String)
    (contents : Dict String) (text : String) (cfg : Config) (owner : Option Owner)
    → lookup "config.yaml" contents ≡ some text
    → r.decode text ≡ some cfg
    → lookup "pod-template.yaml" contents ≡ some template
    → find_pod_owner fuel r env ≡ some owner
    → IsLoaded r env namespace contents (complete env namespace template owner cfg)
unfolding complete find_pod_owner
complete-IsLoaded fuel r env namespace template contents text cfg owner is decodes found leads =
    record {
      template = found;
      namespaced = refl;
      delay = or_default_delay_ne cfg.startup_delay;
      dev_mode = refl;
      owned =
          find_owner-Leads fuel r
            (record { kind = "Pod"; api_version = "v1"; name = getenv env "HOSTNAME" }) owner leads;
      text = text;
      decoded = cfg;
      listed = is;
      decodes_to = decodes;
      directory = refl;
      name = refl;
      cron_expression = refl;
      report_history = refl;
      pod_pool_size = refl;
      metrics = refl;
    }

-- A configuration that was loaded has the pod template of the config map, the namespace, a start-up delay
-- that is not zero, the development mode of the environment, and the owner to which the owners of the
-- controller's pod lead. The report directory is that of the environment, and the decoded one where the
-- environment has none; the name, the cron expression, the history, the pool size and the metrics are the
-- decoded ones.
pub get_internal-IsLoaded :
    (fuel : ℕ) (r : Reader) (env : Environment) (namespace : String) (contents : Dict String)
    (cfg : Config)
    → r.config_map namespace (getenv env "CONFIG_MAP_NAME") ≡ some contents
    → get_internal fuel r env namespace ≡ some (loaded cfg)
    → IsLoaded r env namespace contents cfg
unfolding get_internal
get_internal-IsLoaded fuel r env namespace contents cfg m h =
    elim (Option-cases (lookup "config.yaml" contents)) [
      | inl n ↦ absurd (ground arith)
      | inr (text, n) ↦ elim (Option-cases (r.decode text)) [
        | inl d ↦ absurd (ground arith)
        | inr (cfg₀, d) ↦ elim (Option-cases (lookup "pod-template.yaml" contents)) [
          | inl t ↦ absurd (ground arith)
          | inr (template, t) ↦ elim (Option-cases (find_pod_owner fuel r env)) [
            | inl o ↦ absurd (ground arith)
            | inr (owner, o) ↦
                subst (IsLoaded r env namespace contents) (ground arith)
                  (complete-IsLoaded fuel r env namespace template contents text cfg₀ owner n d t o)
          ]
        ]
      ]
    ]

-- The configuration is refused exactly where the config map cannot be read, lacks the configuration or the
-- template, or holds a configuration that cannot be decoded; with fuel for the owners, nothing else fails.
pub get_internal-refused_iff :
    (fuel : ℕ) (r : Reader) (env : Environment) (namespace : String) (owner : Option Owner)
    → find_pod_owner fuel r env ≡ some owner
    → ((e : LoadError) × (get_internal fuel r env namespace ≡ some (refused e)))
      ↔ (is_complete r (r.config_map namespace (getenv env "CONFIG_MAP_NAME")) ≡ false)
unfolding get_internal
get_internal-refused_iff fuel r env namespace owner o = (
  (λ (e, h). ground arith),
  λ h. elim (Option-cases (r.config_map namespace (getenv env "CONFIG_MAP_NAME"))) [
    | inl m ↦ (no_config_map, ground arith)
    | inr (contents, m) ↦ elim (Option-cases (lookup "config.yaml" contents)) [
      | inl n ↦ (no_config_file, ground arith)
      | inr (text, n) ↦ elim (Option-cases (r.decode text)) [
        | inl d ↦ (unreadable_config, ground arith)
        | inr (cfg, d) ↦ elim (Option-cases (lookup "pod-template.yaml" contents)) [
          | inl t ↦ (no_pod_template, ground arith)
          | inr (template, t) ↦ absurd (ground arith)
        ]
      ]
    ]
  ],
)
