-- ===== src/Tests/Config.antt =====
-- Runs of the configuration: a pod owned by a replica set, and report files of a plain and of a climbing name.
use batch_job_controller.Base.{
  arith, ◌<>◌, ◌==◌, ◌↔◌, String, false, [], ◌∷◌, none, some, ◌≡◌, refl, if◌then◌else◌, split,
}
use batch_job_controller.Base.Dict.{Dict}
use batch_job_controller.Config.{Config, report_file_name}
use batch_job_controller.Config.Paths.{clean}
use batch_job_controller.Config.Paths.Reports.{IsPlain, report_file_outside}
use batch_job_controller.Config.Load.{
  Reference, Reader, Environment, find_owner, find_pod_owner, loaded, refused, LoadError, complete,
  get_internal,
}
use batch_job_controller.Config.Load.Owners.{Leads, top, up, find_owner_enough}
use batch_job_controller.Config.Load.Outcomes.{
  IsLoaded, is_complete, get_internal-IsLoaded, get_internal-refused_iff,
}
use batch_job_controller.Tests.Fixtures.{config, differ}

abbrev pub pod_ref : Reference
pod_ref = record { kind = "Pod"; api_version = "v1"; name = "controller-0" }

abbrev pub set_ref : Reference
set_ref = record { kind = "ReplicaSet"; api_version = "apps/v1"; name = "controller" }

abbrev pub contents : Dict String
contents = ("config.yaml", "name: jobs") ∷ ("pod-template.yaml", "kind: Pod") ∷ []

abbrev pub reader : Reader
reader = record {
  get = λ ref. if ref.kind == "Pod" then some (set_ref ∷ []) else some [];
  config_map = λ namespace name. if name == "cm" then some contents else none;
  decode = λ text. some config;
}

abbrev pub environment : Environment
environment = ("HOSTNAME", "controller-0") ∷ ("CONFIG_MAP_NAME", "cm") ∷ ("DEV_MODE", "True") ∷ []

abbrev leads : Leads reader pod_ref (some set_ref)
leads = up pod_ref set_ref [] refl (top set_ref refl)

find_owner_enough_example : find_owner 2 reader pod_ref ≡ some (some set_ref)
find_owner_enough_example = find_owner_enough reader pod_ref (some set_ref) leads 2 (omega arith)

abbrev pub complete_config : Config
complete_config = complete environment "ns" "kind: Pod" (some set_ref) config

get_internal-loaded : get_internal 2 reader environment "ns" ≡ some (loaded complete_config)
unfolding get_internal
get_internal-loaded = refl

get_internal-IsLoaded_example : IsLoaded reader environment "ns" contents complete_config
get_internal-IsLoaded_example =
    get_internal-IsLoaded 2 reader environment "ns" contents complete_config refl
      get_internal-loaded

get_internal-refused_iff_example :
    ((e : LoadError) × (get_internal 2 reader environment "ns" ≡ some (refused e)))
    ↔ (is_complete reader (some contents) ≡ false)
unfolding find_pod_owner
get_internal-refused_iff_example =
    get_internal-refused_iff 2 reader environment "ns" (some set_ref) refl

differ-IsPlain :
    (s : String)
    → split b'/' s ≡ s ∷ []
    → s == "" ≡ false
    → s == "." ≡ false
    → s == ".." ≡ false
    → IsPlain s
differ-IsPlain s whole a b c = record {
  whole = whole;
  named = differ s "" a;
  not_here = differ s "." b;
  not_up = differ s ".." c;
}

report_file_outside_example :
    report_file_name config "20200102" ("n-" <> "/../../../../etc/passwd") ≡ "/etc/passwd"
unfolding clean split
report_file_outside_example =
    report_file_outside config "20200102" (differ "/var/www" "" refl)
      (differ-IsPlain "20200102" refl refl refl refl) "n-" "../../etc/passwd"
      (differ-IsPlain "n-" refl refl refl refl)
