-- ===== src/Http/Event.antt =====
-- pkg/http/types.go: `Event`, its validation and its type.
pub mod Validation
use Prim.Native.Nat.{ℕ, ◌+◌, ◌/◌}
use Prim.Native.Char.{code}
use batch_job_controller.Base.{
  String, Bool, true, false, ◌&&◌, ◌||◌, not, List, [], ◌∷◌, Option, none, some, ◌==◌, ltb, leb,
  if◌then◌else◌,
}

-- `Event`
pub record Event : Type 0 where
  pub warning : Bool
  pub action : String
  pub reason : String
  pub message : String
  pub arguments : List String

-- `args`: the same texts, as values of type `any`
unfoldable pub args : Event → List String
args e = e.arguments

-- `Type`
unfoldable pub event_type : Event → String
event_type e = if e.warning then "Warning" else "Normal"

-- the first byte of the UTF-8 encoding of a code point
unfoldable pub first_byte : ℕ → ℕ
first_byte c =
    if ltb c 0x80
    then c
    else if ltb c 0x800
    then 0xc0 + c / 64
    else if ltb c 0x10000
    then 0xe0 + c / 4096
    else 0xf0 + c / 262144

-- `unicode.IsUpper` of a rune below 256
unfoldable pub is_upper_latin1 : ℕ → Bool
is_upper_latin1 b = leb b'A' b && leb b b'Z' || leb 0xc0 b && leb b 0xd6 || leb 0xd8 b && leb b 0xde

-- `firstIsUpper`: `reason.String()[0]` is a byte, and panics on the empty text
unfoldable pub first_is_upper : String → Option Bool
unfolding first_byte is_upper_latin1
first_is_upper String.[] = none
first_is_upper (String.◌∷◌ c s) = some (is_upper_latin1 (first_byte (code c)))

-- `Validate`, by the tags of the fields: `required` refuses the empty text, and the tags of a field
-- are tried in their order until one fails. `none` is a panic.
unfoldable pub validate_reason : String → Option Bool
unfolding first_is_upper
validate_reason s = if s == "" then some false else first_is_upper s

unfoldable pub validate : Event → Option Bool
unfolding validate_reason
validate e = elim (validate_reason e.reason) [
  | none ↦ none
  | some r ↦ some (r && not (e.message == ""))
]
