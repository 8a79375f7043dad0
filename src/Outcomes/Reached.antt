-- ===== src/Outcomes/Reached.antt =====
-- kestrel_sdk/resources.py: the explicit cause and group graph of an exception.
use kestrel_sovereign_sdk.Prelude.{ℕ, true, Option, some, List, [], ◌∷◌, ◌≡◌}
use kestrel_sovereign_sdk.Outcomes.{ErrorGraph, object, member}

-- The objects to which a chain of causes and group members leads from the given error.
pub data Reached (h : ErrorGraph) (error : Option ℕ) : ℕ → Type 0 where
  raised : {u : ℕ} → error ≡ some u → Reached h error u
  caused : {u v : ℕ} → Reached h error u → (object h u).cause ≡ some v → Reached h error v
  grouped :
      {u v : ℕ} {es : List ℕ}
      → Reached h error u
      → (object h u).exceptions ≡ some es
      → member es v ≡ true
      → Reached h error v

-- No two entries are equal.
unfoldable pub IsDistinct : List ℕ → Type 0
unfolding member
IsDistinct [] = Unit
IsDistinct (x ∷ xs) = ¬ (member xs x ≡ true) × IsDistinct xs
