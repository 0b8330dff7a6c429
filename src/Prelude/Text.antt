-- ===== src/Prelude/Text.antt =====
-- Rust's `String` as the native text: `==` compares whole texts, `<>` appends, and `format` stands
-- for the `format!` macro over texts.
use Prim.Native.String
use Prim.Native.String.{String}
use mathlib.Core.Path.{◌≡◌, refl}
use mathlib.Core.Logic.{◌⊎◌, inl, inr}
use mathlib.Core.Bool.{Bool, true, false, ◌||◌}
use mathlib.Core.List.{List, [], ◌∷◌}
pub use text.Mathlib.Text.{◌==◌, starts_with}
pub use text.Mathlib.TextEquality.{eq_iff}
pub use text.Mathlib.TextPositions.{eq_refl}

infixr 65 ◌<>◌
abbrev pub ◌<>◌ : String → String → String
s <> t = String.◌++◌ s t

abbrev pub format : List String → String
format [] = ""
format (s ∷ ss) = s <> format ss

-- `vec.contains(&text)`
unfoldable pub contains : List String → String → Bool
contains [] s = false
contains (t ∷ ts) s = t == s || contains ts s

-- Two texts are equal with the test passing, or the test fails.
pub text-cases : (s t : String) → (s ≡ t) ⊎ ((s == t) ≡ false)
text-cases s t = go (s == t) refl
  where
    go : (b : Bool) → (s == t) ≡ b → (s ≡ t) ⊎ ((s == t) ≡ false)
    go true e = inl ((eq_iff s t).0 e)
    go false e = inr e

-- A text equal to one of two different texts is not equal to the other.
pub ==-apart : (s t u : String) → (t == u) ≡ false → (s == t) ≡ true → (s == u) ≡ false
==-apart s t u d e = rw ((eq_iff s t).0 e) d
