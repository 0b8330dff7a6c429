-- ===== src/Core/Wasm.antt =====
-- The check of the Wasm magic bytes that the control plane, the instance service, the node agent
-- and the runtime each make:
-- `module_bytes.len() < 4 || &module_bytes[0..4] != &[0x00, 0x61, 0x73, 0x6d]`.
use wasmatrix.Prelude.{
  ℕ, ◌≡◌, ◌↔◌, refl, Bool, false, not, ◌||◌, List, [], ◌∷◌, length, ltb, take, same_bytes, is_empty,
  arith, ◌++◌,
}

abbrev pub magic : List ℕ
magic = 0x00 ∷ 0x61 ∷ 0x73 ∷ 0x6d ∷ []

unfoldable pub lacks_magic : List ℕ → Bool
unfolding same_bytes
lacks_magic bytes = ltb (length bytes) 4 || not (same_bytes (take 4 bytes) magic)

-- The check passes exactly the byte vectors that begin with the four magic bytes.
pub lacks_magic_iff :
    (bytes : List ℕ) → (lacks_magic bytes ≡ false) ↔ ((rest : List ℕ) × (bytes ≡ magic ++ rest))
unfolding lacks_magic
lacks_magic_iff [] = (λ h. absurd (ground arith), λ (r, e). absurd (ground arith))
lacks_magic_iff (a ∷ b ∷ c ∷ d ∷ rest) = (λ h. (rest, ground arith), λ (r, e). ground arith)
lacks_magic_iff bytes = (λ h. absurd (ground arith), λ (r, e). absurd (ground arith))

pub is_empty_of_magic : (bytes : List ℕ) → lacks_magic bytes ≡ false → is_empty bytes ≡ false
unfolding lacks_magic
is_empty_of_magic [] h = absurd (ground arith)
is_empty_of_magic (b ∷ bytes) h = refl
