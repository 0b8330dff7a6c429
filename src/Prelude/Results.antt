-- ===== src/Prelude/Results.antt =====
-- `std::result::Result`, with `?` as `>>=`. `ok` and `err` are Rust's `Ok` and `Err`.
use native.Mathlib.Omega.{arith}
use mathlib.Core.Logic.{◌⊎◌, inl, inr}
use mathlib.Core.Path.{◌≡◌, refl}
use mathlib.Core.Bool.{Bool, true, false}
use mathlib.Core.Option.{Option, none, some}
use mathlib.Core.List.{List, [], ◌∷◌}

pub data Result {ℓ} (A E : Type ℓ) : Type ℓ where
  ok : A → Result A E
  err : E → Result A E

infixl 5 ◌>>=◌ ◌>>◌
abbrev pub ◌>>=◌ {ℓ} : {A B E : Type ℓ} → Result A E → (A → Result B E) → Result B E
ok a >>= f = f a
err e >>= f = err e

abbrev pub ◌>>◌ {ℓ} : {A B E : Type ℓ} → Result A E → Result B E → Result B E
m >> k = m >>= λ _. k

abbrev pub is_ok {ℓ} : {A E : Type ℓ} → Result A E → Bool
is_ok (ok a) = true
is_ok (err e) = false

pub ok_of_is_ok {ℓ} : {E : Type ℓ} (r : Result (Unit {ℓ}) E) → is_ok r ≡ true → r ≡ ok tt
ok_of_is_ok (ok tt) h = refl
ok_of_is_ok (err e) h = ground arith

pub Result-cases {ℓ} :
    {A E : Type ℓ} (r : Result A E) → ((a : A) × (r ≡ ok a)) ⊎ ((e : E) × (r ≡ err e))
Result-cases (ok a) = inl (a, refl)
Result-cases (err e) = inr (e, refl)

-- `map_err`
abbrev pub map_err {ℓ} : {A E F : Type ℓ} → (E → F) → Result A E → Result A F
map_err f (ok a) = ok a
map_err f (err e) = err (f e)

-- `ok_or`, `ok_or_else`
abbrev pub ok_or {ℓ} : {A E : Type ℓ} → Option A → E → Result A E
ok_or none e = err e
ok_or (some a) e = ok a

-- an early `return Err(e)` under `if`
abbrev pub fail_if {ℓ} : {E : Type ℓ} → Bool → E → Result (Unit {ℓ}) E
fail_if true e = err e
fail_if false e = ok tt

-- `into_iter().map(f).collect::<Result<_, _>>()`: the first error ends it
unfoldable pub collect {ℓ} : {A B E : Type ℓ} → (A → Result B E) → List A → Result (List B) E
collect f [] = ok []
collect f (x ∷ xs) = do y ← f x; ys ← collect f xs; ok (y ∷ ys)

-- `option.map(f).transpose()`
abbrev pub transpose {ℓ} : {A B E : Type ℓ} → (A → Result B E) → Option A → Result (Option B) E
transpose f none = ok none
transpose f (some x) = do y ← f x; ok (some y)

-- `Result::ok`
abbrev pub value_of {ℓ} : {A E : Type ℓ} → Result A E → Option A
value_of (ok a) = some a
value_of (err e) = none
