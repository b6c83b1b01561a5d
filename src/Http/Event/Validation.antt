-- ===== src/Http/Event/Validation.antt =====
-- Which events are valid.
use Prim.Native.Nat.{ℕ, ◌≤◌}
use Prim.Native.Char.{Char, code}
use batch_job_controller.Base.{
  String, true, false, ◌&&◌, not, none, some, ◌≡◌, ◌≢◌, refl, arith, ◌==◌, eq_iff, Bool-cases, inl,
  inr,
}
use batch_job_controller.Http.Event.{Event, first_byte, is_upper_latin1, validate}

nonempty : (c : Char) (s : String) → (String.◌∷◌ c s == "") ≡ false
nonempty c s = elim (Bool-cases (String.◌∷◌ c s == "")) [
  | inl y ↦ absurd (cc ((eq_iff (String.◌∷◌ c s) "").0 y))
  | inr n ↦ n
]

-- An event of an empty reason is refused, with no panic: `required` is tried first.
pub validate-empty_reason : (e : Event) → e.reason ≡ "" → validate e ≡ some false
unfolding validate
validate-empty_reason e h = rw (h, validate) refl

validate-cons :
    (e : Event) (c : Char) (s : String)
    → e.reason ≡ String.◌∷◌ c s
    → validate e ≡ some (is_upper_latin1 (first_byte (code c)) && not (e.message == ""))
unfolding validate
validate-cons e c s h = rw (h, validate) (rw (nonempty c s) refl)

validate_total_at : (e : Event) (reason : String) → e.reason ≡ reason → validate e ≢ none
validate_total_at e String.[] h n = cc (validate-empty_reason e h)
validate_total_at e (String.◌∷◌ c s) h n = cc (validate-cons e c s h)

-- `Validate` never panics.
pub validate_total : (e : Event) → validate e ≢ none
validate_total e = validate_total_at e e.reason refl

latin1_upper : (n : ℕ) → 0xe0 ≤ n → n ≤ 0xff → is_upper_latin1 (first_byte n) ≡ true
unfolding is_upper_latin1 first_byte
latin1_upper n h k = ground arith

-- An event with a message is valid also where its reason begins with a lower-case letter of the code
-- points 0xe0 to 0xff, such as "é": the byte that is tested is 0xc3, an upper-case letter by itself.
pub validate_accepts_lower :
    (e : Event) (c : Char) (s : String)
    → e.reason ≡ String.◌∷◌ c s
    → 0xe0 ≤ code c
    → code c ≤ 0xff
    → e.message ≢ ""
    → validate e ≡ some true
validate_accepts_lower e c s h k l m =
    rw (validate-cons e c s h, latin1_upper (code c) k l) (ground (arith, eq_iff e.message ""))
