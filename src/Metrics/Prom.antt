-- ===== src/Metrics/Prom.antt =====
-- What pkg/metrics uses of the Prometheus client library and of `float64`, as an interface.
use batch_job_controller.Base.{
  ℕ, String, Bool, true, get_elem?, List, Option, none, some, ◌≡◌, length, same_texts,
  if◌then◌else◌,
}
use batch_job_controller.Base.Int.{ℤ}

-- A descriptor: the full name, the help text and the label names of a metric.
pub record Desc : Type 0 where
  pub name : String
  pub help : String
  pub labels : List String

-- `Vec` is a `GaugeVec`; `value v ls` is the sample that `Collect` gives for the label values `ls`.
-- The laws are what the library documents of its operations.
pub record Prom : Type 1 where
  pub Float : Type 0
  -- `float64(n)`
  pub of_int : ℤ → Float
  -- `*` and `/`
  pub mul : Float → Float → Float
  pub div : Float → Float → Float
  -- `strconv.ParseFloat(s, 64)`, without its error
  pub parse_float : String → Float
  pub Vec : Type 0
  -- `NewGaugeVec` of a name, a help text and the label names
  pub fresh : (name help : String) → List String → Vec
  pub arity : Vec → ℕ
  -- `WithLabelValues(ls...).Set(x)`, for as many label values as the vector has labels
  pub put : Vec → List String → Float → Vec
  -- `DeleteLabelValues(ls...)`
  pub delete : Vec → List String → Vec
  pub value : Vec → List String → Option Float
  -- what `Describe` of a vector sends
  pub desc : Vec → Desc
  -- does the registry take a collector with these descriptors, in `Register`?
  pub registers : List Desc → Bool
  pub arity-fresh :
      (name help : String) (labels : List String) → arity (fresh name help labels) ≡ length labels
  pub arity-put : (v : Vec) (ls : List String) (x : Float) → arity (put v ls x) ≡ arity v
  pub arity-delete : (v : Vec) (ls : List String) → arity (delete v ls) ≡ arity v
  pub desc-fresh :
      (name help : String) (labels : List String)
      → desc (fresh name help labels) ≡ record { name = name; help = help; labels = labels }
  pub desc-put : (v : Vec) (ls : List String) (x : Float) → desc (put v ls x) ≡ desc v
  -- descriptors of one name that the registry takes have the same help text and the same labels
  pub registers-same :
      (ds : List Desc) (i j : ℕ) (d e : Desc)
      → registers ds ≡ true
      → get_elem? ds i ≡ some d
      → get_elem? ds j ≡ some e
      → d.name ≡ e.name
      → (d.help ≡ e.help) × (d.labels ≡ e.labels)
  pub value-fresh :
      (name help : String) (labels ls : List String) → value (fresh name help labels) ls ≡ none
  pub value-put :
      (v : Vec) (ls ms : List String) (x : Float)
      → length ls ≡ arity v
      → value (put v ls x) ms ≡ (if same_texts ls ms then some x else value v ms)
  pub value-delete :
      (v : Vec) (ls ms : List String)
      → value (delete v ls) ms ≡ (if same_texts ls ms then none else value v ms)
