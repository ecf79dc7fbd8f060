-- ===== src/Common/CStrings.antt =====
-- C strings as lists of character codes, `strcmp` as a test, and hash maps with such keys as
-- association lists (a later entry of a key replaces the earlier one).
use Prim.Native.Nat.{ℕ}
use Prim.Native.Char.{code}
use Prim.Native.String.{String}
use mathlib.Core.Path.{◌≡◌, refl}
use mathlib.Core.Logic.{◌↔◌}
use mathlib.Core.Bool.{Bool, true, false, ◌&&◌}
use mathlib.Core.Option.{Option, none, some}
use mathlib.Core.List.{List, [], ◌∷◌}
use native.Mathlib.Omega.{arith}
use dse_fmi.Common.Tests.{◌==◌, if◌then◌else◌}

abbrev pub Bytes : Type 0
Bytes = List ℕ

-- The character codes of a literal.
abbrev pub codes : String → Bytes
codes String.[] = []
codes (String.◌∷◌ c s) = code c ∷ codes s

-- strcmp(a, b) == 0
unfoldable pub str_eq : Bytes → Bytes → Bool
str_eq [] [] = true
str_eq [] (y ∷ ys) = false
str_eq (x ∷ xs) [] = false
str_eq (x ∷ xs) (y ∷ ys) = x == y && str_eq xs ys

pub str_eq_iff : (a b : Bytes) → (str_eq a b ≡ true) ↔ (a ≡ b)
unfolding str_eq
str_eq_iff [] [] = (λ h. refl, λ h. refl)
str_eq_iff [] (y ∷ ys) = (λ h. cc, λ h. cc)
str_eq_iff (x ∷ xs) [] = (λ h. cc, λ h. cc)
str_eq_iff (x ∷ xs) (y ∷ ys) =
    (λ h. ground (arith, str_eq_iff xs ys), λ h. ground (arith, str_eq_iff xs ys))

abbrev pub HashMap {ℓ} : Type ℓ → Type ℓ
HashMap V = List (Bytes × V)

module _ {ℓ} {V : Type ℓ} where
  -- hashmap_get: `none` is the NULL result.
  unfoldable pub hashmap_get : HashMap V → Bytes → Option V
  hashmap_get [] k = none
  hashmap_get ((j, v) ∷ m) k = if str_eq j k then some v else hashmap_get m k

  unfoldable pub hashmap_set : HashMap V → Bytes → V → HashMap V
  hashmap_set [] k v = (k, v) ∷ []
  hashmap_set ((j, w) ∷ m) k v = if str_eq j k then (k, v) ∷ m else (j, w) ∷ hashmap_set m k v

  pub hashmap_get-set :
      (m : HashMap V) (k j : Bytes) (v : V)
      → hashmap_get (hashmap_set m k v) j ≡ (if str_eq k j then some v else hashmap_get m j)
  unfolding hashmap_get hashmap_set
  hashmap_get-set [] k j v = refl
  hashmap_get-set ((i, w) ∷ m) k j v =
      ground (arith, str_eq_iff k j, str_eq_iff i k, str_eq_iff i j, hashmap_get-set m k j v)
