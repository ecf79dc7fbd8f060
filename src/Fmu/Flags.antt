-- ===== src/Fmu/Flags.antt =====
-- The flags of the log categories in a mask, by a table over all masks below 64.
use Prim.Native.Nat.{bit_and, bit_or}
use dse_fmi.Common.{
  ℕ, zero, suc, ◌<◌, ◌≡◌, refl, sym, ◌∙◌, Bool, true, false, Bool-cases, inl, inr, not, ◌&&◌, ◌||◌,
  Option, none, some, List, [], ◌∷◌, foldl, All, if_elim, subst, Bytes, codes, str_eq, ◌==◌, ==_iff,
  ltb, if◌then◌else◌, arith,
}
use dse_fmi.Fmu.Instance.{flag_or, category_map, category_flag, add_category}

abbrev pub flag : Bytes → ℕ
flag name = flag_or 0 (category_flag category_map name)

abbrev pub is_some : Option ℕ → Bool
is_some none = false
is_some (some f) = true

-- The name is in the list.
abbrev pub named : Bytes → List Bytes → Bool
named c [] = false
named c (n ∷ names) = str_eq n c || named c names

-- The name is one of the six categories.
abbrev pub known : Bytes → Bool
known c = is_some (category_flag category_map c)

unfoldable pub has : ℕ → ℕ → Bool
has m f = not (bit_and m f == 0)

every : (ℕ → Bool) → List ℕ → Bool
every p [] = true
every p (x ∷ xs) = p x && every p xs

below : (ℕ → Bool) → ℕ → Bool
below p zero = true
below p (suc n) = p n && below p n

unfoldable pub flags : List ℕ
flags = 0 ∷ 1 ∷ 2 ∷ 4 ∷ 8 ∷ 16 ∷ 32 ∷ []

abbrev step : ℕ → ℕ → ℕ → Bool
step m f g =
    ltb (bit_or m f) 64
    && (if has (bit_or m f) g
        then has m g || (f == g && not (g == 0))
        else not (has m g || (f == g && not (g == 0))))

table : below (λ m. every (λ f. every (step m f) flags) flags) 64 ≡ true
unfolding below every flags has
table = refl

-- Entries of a conjunction over a list or a range hold.
every_lem : (p : ℕ → Bool) (xs : List ℕ) → every p xs ≡ true → All (λ x. p x ≡ true) xs
unfolding every
every_lem p [] h = tt
every_lem p (x ∷ xs) h = (ground (arith, h), every_lem p xs (ground (arith, h)))

below_lem : (p : ℕ → Bool) (n m : ℕ) → below p n ≡ true → m < n → p m ≡ true
unfolding below
below_lem p zero m h l = absurd (omega (arith, l))
below_lem p (suc n) m h l = elim (Bool-cases (m == n)) [
  | inl e ↦ subst (λ k. p k ≡ true) (sym ((==_iff m n).0 e)) (ground (arith, h))
  | inr e ↦ below_lem p n m (ground (arith, h)) (ground (arith, l, e))
]

unfoldable pub IsFlag : ℕ → Type 1
IsFlag f = (Q : ℕ → Type 0) → All Q flags → Q f

pub flag-IsFlag : (name : Bytes) → IsFlag (flag name)
unfolding IsFlag flags category_flag
flag-IsFlag name Q (q0, (q1, (q2, (q4, (q8, (q16, (q32, _))))))) =
    if_elim (λ o. Q (flag_or 0 o)) (str_eq (codes "Trace") name) _ _ q1
      (if_elim (λ o. Q (flag_or 0 o)) (str_eq (codes "Debug") name) _ _ q2
        (if_elim (λ o. Q (flag_or 0 o)) (str_eq (codes "Info") name) _ _ q4
          (if_elim (λ o. Q (flag_or 0 o)) (str_eq (codes "Error") name) _ _ q8
            (if_elim (λ o. Q (flag_or 0 o)) (str_eq (codes "Fatal") name) _ _ q16
              (if_elim (λ o. Q (flag_or 0 o)) (str_eq (codes "All") name) _ _ q32 q0)))))

-- Adding a flag adds that flag and no other, and keeps the mask below 64.
step_lem : (m f g : ℕ) → m < 64 → IsFlag f → IsFlag g → step m f g ≡ true
unfolding IsFlag
step_lem m f g h i j =
    j (λ g. step m f g ≡ true)
      (every_lem (step m f) flags (
        i (λ f. every (step m f) flags ≡ true)
          (every_lem (λ f. every (step m f) flags) flags
            (below_lem (λ m. every (λ f. every (step m f) flags) flags) 64 m table h))))

step-bound : (m f g : ℕ) → step m f g ≡ true → bit_or m f < 64
step-bound m f g h = ground (arith, h)

step-has :
    (m f g : ℕ) → step m f g ≡ true → has (bit_or m f) g ≡ (has m g || (f == g && not (g == 0)))
step-has m f g h = ground (arith, h)

unfoldable pub added : ℕ → List Bytes → Bool
added g [] = false
added g (n ∷ names) = (flag n == g && not (g == 0)) || added g names

pub foldl-has :
    (names : List Bytes) (m g : ℕ)
    → m < 64
    → IsFlag g
    → has (foldl add_category m names) g ≡ (has m g || added g names)
unfolding added add_category
foldl-has [] m g h i = ground arith
foldl-has (n ∷ names) m g h i =
    let s = step_lem m (flag n) g h (flag-IsFlag n) i in
    foldl-has names (bit_or m (flag n)) g (step-bound m (flag n) g s) i
    ∙ rw (step-has m (flag n) g s) (ground arith)
