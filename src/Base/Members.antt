-- ===== src/Base/Members.antt =====
-- Whether a number is in a list, and lists in which none stands twice.
use Prim.Native.Nat.{ℕ}
use mathlib.Core.Path.{◌≡◌, refl}
use mathlib.Core.Bool.{Bool, false, ◌||◌}
use mathlib.Core.List.{List, [], ◌∷◌, ◌++◌}
use native.Mathlib.Omega.{arith}
use nps_mux.Base.Tests.{◌==◌}

abbrev pub mem : ℕ → List ℕ → Bool
mem i [] = false
mem i (x ∷ xs) = x == i || mem i xs

abbrev pub Unique : List ℕ → Type 0
Unique [] = Unit
Unique (x ∷ xs) = (mem x xs ≡ false) × Unique xs

pub mem-append_last : (i : ℕ) (xs : List ℕ) (x : ℕ) → mem i (xs ++ (x ∷ [])) ≡ (mem i xs || x == i)
mem-append_last i [] x = ground arith
mem-append_last i (y ∷ xs) x = ground (arith, mem-append_last i xs x)

pub append_last-Unique :
    (xs : List ℕ) (x : ℕ) → Unique xs → mem x xs ≡ false → Unique (xs ++ (x ∷ []))
append_last-Unique [] x h new = (refl, tt)
append_last-Unique (y ∷ xs) x (h, hs) new = (
  ground (arith, mem-append_last y xs x, h, new),
  append_last-Unique xs x hs (ground (arith, new)),
)
