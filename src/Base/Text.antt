-- ===== src/Base/Text.antt =====
-- What the program uses of Go's `strings` and `fmt` on texts.
use Prim.Native.Nat.{ℕ}
use Prim.Native.Char.{code}
use Prim.Native.String
use Prim.Native.String.{String}
use mathlib.Core.List.{List, [], ◌∷◌}
use batch_job_controller.Base.Tests.{if◌then◌else◌, eqb}

-- `s + t`, and what `fmt.Sprintf` makes of "%s%s"
infixr 65 ◌<>◌
abbrev pub ◌<>◌ : String → String → String
s <> t = String.◌++◌ s t

-- `strings.Split(s, c)` at a single character: `cur` is the piece being read.
abbrev pub split_from : ℕ → String → String → List String
split_from c cur String.[] = cur ∷ []
split_from c cur (String.◌∷◌ ch s) =
    let closed = cur ∷ split_from c "" s in
    let longer = split_from c (cur <> String.◌∷◌ ch String.[]) s in
    if eqb (code ch) c then closed else longer

unfoldable pub split : ℕ → String → List String
split c s = split_from c "" s

abbrev pub head_or {ℓ} : {A : Type ℓ} → A → List A → A
head_or d [] = d
head_or d (x ∷ xs) = x
