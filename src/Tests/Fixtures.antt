-- ===== src/Tests/Fixtures.antt =====
-- The concrete client library, configuration, collector and controller of the runs.
use Prim.Native.Char.{code}
use batch_job_controller.Base.{
  ℕ, zero, suc, ◌+◌, ◌-◌, ◌*◌, ◌/◌, String, Bool, not, ◌&&◌, ◌||◌, get_elem?, same_texts_iff, true,
  false, List, [], ◌∷◌, Option, none, some, ◌≡◌, refl, length, same_texts, if◌then◌else◌, ◌==◌, ◌≢◌,
  eq_iff, arith,
}
use batch_job_controller.Base.Int.{ℤ, pos, negsuc}
use batch_job_controller.Config.{Config}
use batch_job_controller.Metrics.Prom.{Desc, Prom}
use batch_job_controller.Metrics.Collector.{Collector, new_prom_collector, assemble, CustomMetric}
use batch_job_controller.Metrics.Collector.Totals.{IsSound}
use batch_job_controller.Metrics.Collector.Fresh.{new_prom_collector-IsSound}
use batch_job_controller.Metrics.Series.{new_metric}
use batch_job_controller.Lifecycle.Disk.{Disk}
use batch_job_controller.Lifecycle.State.{Pod, Job, Worker, Execution, Controller}

-- A gauge vector: how many labels it has, and its samples.
pub record Gauge : Type 0 where
  pub desc : Desc
  pub samples : List String → Option ℕ

abbrev pub whole : ℤ → ℕ
whole (pos n) = n
whole (negsuc n) = 0

abbrev pub digits : ℕ → String → ℕ
digits n String.[] = n
digits n (String.◌∷◌ c s) = digits (10 * n + (code c - b'0')) s

-- Do two descriptors of one name agree?
abbrev pub agree : Desc → Desc → Bool
agree d e = not (d.name == e.name) || (d.help == e.help && same_texts d.labels e.labels)

abbrev pub all {ℓ} : {A : Type ℓ} → (A → Bool) → List A → Bool
all f [] = true
all f (x ∷ xs) = f x && all f xs

abbrev pub agree_all : List Desc → Bool
agree_all ds = all (λ d. all (agree d) ds) ds

all-get_elem? :
    {A : Type 0} (f : A → Bool) (xs : List A) (i : ℕ) (x : A)
    → all f xs ≡ true
    → get_elem? xs i ≡ some x
    → f x ≡ true
all-get_elem? f [] i x h e = absurd (ground arith)
all-get_elem? f (y ∷ ys) zero x h e = ground arith
all-get_elem? f (y ∷ ys) (suc i) x h e = all-get_elem? f ys i x (ground arith) e

pub agree_all-same :
    (ds : List Desc) (i j : ℕ) (d e : Desc)
    → agree_all ds ≡ true
    → get_elem? ds i ≡ some d
    → get_elem? ds j ≡ some e
    → d.name ≡ e.name
    → (d.help ≡ e.help) × (d.labels ≡ e.labels)
agree_all-same ds i j d e h at_i at_j same =
    let row = all-get_elem? (λ (x : Desc). all (agree x) ds) ds i d h at_i in
    let both = all-get_elem? (agree d) ds j e row at_j in
    ground
      (arith, both, eq_iff d.name e.name, eq_iff d.help e.help, same_texts_iff d.labels e.labels)

-- whole numbers in place of floating-point ones
abbrev pub prom : Prom
prom = record {
  Float = ℕ;
  of_int = whole;
  mul = λ a b. a * b;
  div = λ a b. a / b;
  parse_float = digits 0;
  Vec = Gauge;
  fresh = λ name help labels. record {
    desc = record { name = name; help = help; labels = labels };
    samples = λ ls. none;
  };
  arity = λ v. length v.desc.labels;
  put = λ v ls x. record v { samples = λ ms. if same_texts ls ms then some x else v.samples ms };
  delete = λ v ls. record v { samples = λ ms. if same_texts ls ms then none else v.samples ms };
  value = λ v ls. v.samples ls;
  desc = λ v. v.desc;
  registers = agree_all;
  desc-fresh = λ name help labels. refl;
  desc-put = λ v ls x. refl;
  registers-same = agree_all-same;
  arity-fresh = λ name help labels. refl;
  arity-put = λ v ls x. refl;
  arity-delete = λ v ls. refl;
  value-fresh = λ name help labels ls. refl;
  value-put = λ v ls ms x h. refl;
  value-delete = λ v ls ms. refl;
}

abbrev pub config : Config
config = record {
  name = "jobs";
  job_service_account = "runner";
  job_image_pull_secrets = "registry" ∷ [];
  job_node_selector = [];
  run_on_unscheduled_nodes = false;
  cron_expression = "@daily";
  report_directory = "/var/www";
  report_history = pos 1;
  pod_pool_size = pos 2;
  run_on_startup = true;
  startup_delay = pos 0;
  metrics = record {
    port = pos 9153;
    prefix = "demo";
    gauges = ("size", record { help = "The size"; labels = "disk" ∷ [] }) ∷ [];
  };
  health_probe_port = pos 0;
  latest_metrics_label = false;
  custom = [];
  callback_service_name = "callback";
  callback_service_port = pos 8090;
  leader_election_resource_lock = "";
  save_pod_log = false;
  namespace = "ns";
  job_pod_template = "kind: Pod";
  owner = none;
  dev_mode = false;
}

abbrev pub size_gauge : CustomMetric prom
size_gauge = record {
  labels = "disk" ∷ "node" ∷ "executionID" ∷ [];
  gauge = new_metric prom "demo_size" "The size" ("disk" ∷ "node" ∷ "executionID" ∷ []);
}

-- The new collector of the configuration.
abbrev pub collector : Collector prom
collector = assemble prom "1.0" config (("size", size_gauge) ∷ [])

pub collector-IsSound : IsSound prom collector
unfolding new_prom_collector
collector-IsSound = new_prom_collector-IsSound prom "1.0" config collector refl

abbrev pub running_pod : Pod
running_pod = record {
  node = "n";
  started = some 5000000;
  terminated = none;
  report_received = none;
  status = "Started";
}

abbrev pub job : Job
job = record { id = "20200102"; node = "m" }

-- An execution with the pod of the node "n" and room for one more job.
abbrev pub execution : Execution
execution = record {
  id = "20200102";
  pods = ("n", 0) ∷ [];
  job_chan = record { id = "20200102"; node = "n" } ∷ [];
  cap = 2;
  closed = false;
  workers = Worker.idle ∷ Worker.idle ∷ [];
}

abbrev pub disk : Disk
disk = record {
  entries =
      record { name = "20200102"; mod_time = 20 }
      ∷ record { name = "20200101"; mod_time = 10 }
      ∷ [];
  readable = true;
  writable = true;
}

-- A controller that runs the execution, whose pod is as given.
abbrev pub controller_with : Pod → Controller prom
controller_with pod = record {
  prom = collector;
  executions = ("20200102", 0) ∷ [];
  nodes = ("n", true) ∷ [];
  report_history = pos 1;
  pod_pool_size = pos 2;
  config = config;
  progress = 1;
  progress_step = 33;
  executions_made = execution ∷ [];
  pods_made = pod ∷ [];
  created = [];
  disk = disk;
}

abbrev pub controller : Controller prom
controller = controller_with running_pod

pub differ : (a b : String) → a == b ≡ false → a ≢ b
differ a b h = λ e. ground (arith, eq_iff a b)
