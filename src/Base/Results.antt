-- ===== src/Base/Results.antt =====
-- A Go result with an error that is told by its text.
use Prim.Native.String.{String}

-- a value, or the text of an error
pub data Result {ℓ} (A : Type ℓ) : Type ℓ where
  good : A → Result A
  bad : String → Result A
