-- ===== src/Fmu/Vref.antt =====
-- The keys of the variable indexes: snprintf(vr_idx, VREF_KEY_LEN, "%i", vr) of dse/fmu/fmi2fmu.c and
-- fmi3fmu.c, for a value reference of 32 bits. The maps themselves are filled with the decimal text
-- that modelDescription.xml has (dse/fmu/fmi2variable.c).
use native.Mathlib.Nat.{pow-suc}
use dse_fmi.Common.{
  ℕ, zero, suc, ◌+◌, ◌-◌, ◌*◌, ◌/◌, ◌%◌, ◌^◌, ◌≤◌, ◌<◌, ◌≡◌, ◌≢◌, ◌↔◌, refl, sym, ◌∙◌, ap, [], ◌∷◌,
  ◌++◌, length, take, foldl, Bytes, ltb, false, Bool-cases, inl, inr, if◌then◌else◌, length-append,
  take-all, take-append, arith,
}

-- The decimal digits of a number below 10 ^ (k + 1).
unfoldable pub digits : ℕ → ℕ → Bytes
digits zero n = (48 + n % 10) ∷ []
digits (suc k) n =
    let front = digits k (n / 10) in if ltb n 10 then (48 + n) ∷ [] else front ++ (48 + n % 10) ∷ []

-- printf("%u") of a uint32, which has at most ten digits.
unfoldable pub decimal : ℕ → Bytes
unfolding digits
decimal n = digits 9 n

-- printf("%i") of a uint32: it is read as a signed number.
unfoldable pub print_int : ℕ → Bytes
unfolding decimal
print_int n = if ltb n (2 ^ 31) then decimal n else 45 ∷ decimal (2 ^ 32 - n)

-- VREF_KEY_LEN is 10 + 1: snprintf writes ten characters and the terminator.
unfoldable pub vref_key : ℕ → Bytes
unfolding print_int
vref_key vr = take 10 (print_int vr)

-- The number that a text of digits stands for.
abbrev add_digit : ℕ → ℕ → ℕ
add_digit acc c = acc * 10 + (c - 48)

abbrev value : Bytes → ℕ
value = foldl add_digit 0

foldl-snoc :
    (acc : ℕ) (xs : Bytes) (c : ℕ)
    → foldl add_digit acc (xs ++ c ∷ []) ≡ add_digit (foldl add_digit acc xs) c
foldl-snoc acc [] c = refl
foldl-snoc acc (x ∷ xs) c = foldl-snoc (add_digit acc x) xs c

div_ten-lt : (k n : ℕ) → n < 10 ^ suc (suc k) → n / 10 < 10 ^ suc k
div_ten-lt k n h = let p : 10 ^ suc (suc k) ≡ 10 ^ suc k * 10 = rw pow-suc refl in omega (arith, p)

value-digits : (k n : ℕ) → n < 10 ^ suc k → value (digits k n) ≡ n
unfolding digits
value-digits zero n h = omega arith
value-digits (suc k) n h = elim (Bool-cases (ltb n 10)) [
  | inl e ↦ rw e (ground arith)
  | inr e ↦
      rw (e, foldl-snoc 0 (digits k (n / 10)) (48 + n % 10))
        (rw (value-digits k (n / 10) (div_ten-lt k n h)) (omega arith))
]

length-digits : (k n : ℕ) → length (digits k n) ≤ k + 1
unfolding digits
length-digits zero n = omega arith
length-digits (suc k) n =
    ground (arith, length-digits k (n / 10), length-append (digits k (n / 10)) ((48 + n % 10) ∷ []))

value-decimal : (n : ℕ) → n < 2 ^ 32 → value (decimal n) ≡ n
unfolding decimal
value-decimal n h = value-digits 9 n (omega arith)

-- Of a uint32 no digit is cut off by a longer buffer, and the text determines the number.
pub take-decimal : (k n : ℕ) → 10 ≤ k → take k (decimal n) ≡ decimal n
unfolding decimal
take-decimal k n h = take-all k (digits 9 n) (omega (arith, h, length-digits 9 n))

pub decimal_injective : (m n : ℕ) → m < 2 ^ 32 → n < 2 ^ 32 → decimal m ≡ decimal n → m ≡ n
decimal_injective m n h k e = sym (value-decimal m h) ∙ ap value e ∙ value-decimal n k

-- Below 2^31 the key is the decimal text.
vref_key-decimal : (vr : ℕ) → vr < 2 ^ 31 → vref_key vr ≡ decimal vr
unfolding vref_key
vref_key-decimal vr h = rw (signed vr h) (take-all 10 (decimal vr) (length-digits 9 vr))
  where
    signed : (n : ℕ) → n < 2 ^ 31 → print_int n ≡ decimal n
    signed n l = ground arith

-- Value references below 2^31 have the key that the XML document gives them, and different value
-- references have different keys.
pub vref_key_injective :
    (vr u : ℕ)
    → vr < 2 ^ 31
    → u < 2 ^ 31
    → (vref_key vr ≡ decimal vr) × ((vref_key vr ≡ vref_key u) ↔ (vr ≡ u))
vref_key_injective vr u h k = (
  vref_key-decimal vr h,
  (
    λ e.
        sym (value-decimal vr (omega (arith, h)))
        ∙ ap value (sym (vref_key-decimal vr h) ∙ e ∙ vref_key-decimal u k)
        ∙ value-decimal u (omega (arith, k)),
    λ e. ap vref_key e,
  ),
)

digits_positive : (k n : ℕ) (t : Bytes) → digits k n ≢ 45 ∷ t
unfolding digits
digits_positive zero n t e = ground arith
digits_positive (suc k) n t e = elim (Bool-cases (ltb n 10)) [
  | inl b ↦ ground arith
  | inr b ↦ front (digits k (n / 10)) (digits_positive k (n / 10)) (rw b at e)
]
  where
    front : (xs : Bytes) → ((t : Bytes) → xs ≢ 45 ∷ t) → xs ++ (48 + n % 10) ∷ [] ≢ 45 ∷ t
    front [] g q = ground arith
    front (x ∷ xs) g q = g xs (ground arith)

vref_key_negative : (vr : ℕ) → 2 ^ 31 ≤ vr → vref_key vr ≡ 45 ∷ take 9 (decimal (2 ^ 32 - vr))
unfolding vref_key
vref_key_negative vr h = rw (signed vr h)
  where
    signed : (n : ℕ) → 2 ^ 31 ≤ n → print_int n ≡ 45 ∷ decimal (2 ^ 32 - n)
    signed n l = ground arith

length-digits_full : (k n : ℕ) → 10 ^ k ≤ n → length (digits k n) ≡ k + 1
unfolding digits
length-digits_full zero n h = omega arith
length-digits_full (suc k) n h =
    let p : 10 ^ suc k ≡ 10 ^ k * 10 = rw pow-suc refl in
    let q : 0 < 10 ^ k = pow_pos k in
    ground (
      arith,
      p,
      q,
      length-digits_full k (n / 10),
      length-append (digits k (n / 10)) ((48 + n % 10) ∷ []),
    )
  where
    pow_pos : (j : ℕ) → 0 < 10 ^ j
    pow_pos zero = omega arith
    pow_pos (suc j) = rw pow-suc (omega (arith, pow_pos j))

digits-suc : (k n : ℕ) → 10 ≤ n → digits (suc k) n ≡ digits k (n / 10) ++ (48 + n % 10) ∷ []
unfolding digits
digits-suc k n h = rw (two_digits n h)
  where
    two_digits : (m : ℕ) → 10 ≤ m → ltb m 10 ≡ false
    two_digits m l = ground arith

nine_digits : (n : ℕ) → 10 ^ 9 ≤ n → take 9 (decimal n) ≡ digits 8 (n / 10)
unfolding decimal
nine_digits n h =
    rw (ten_digits n h)
      (take-append 9 (digits 8 (n / 10)) _ (length-digits_full 8 (n / 10) (omega arith)))
  where
    ten_digits : (m : ℕ) → 10 ^ 9 ≤ m → digits 9 m ≡ digits 8 (m / 10) ++ (48 + m % 10) ∷ []
    ten_digits m l = digits-suc 8 m (omega arith)

-- From 2^31 on a key starts with a minus sign, so it is no decimal text: a variable that the XML
-- document gives such a value reference is never found.
pub vref_key-ne-decimal : (vr u : ℕ) → 2 ^ 31 ≤ vr → vref_key vr ≢ decimal u
unfolding decimal
vref_key-ne-decimal vr u h e =
    digits_positive 9 u (take 9 (decimal (2 ^ 32 - vr))) (sym e ∙ vref_key_negative vr h)

-- Two value references from 2^31 to 2^32 - 10^9 have the same key when their negative readings differ
-- in the last decimal digit at most, which is cut off.
pub vref_key_collides :
    (vr u : ℕ)
    → 2 ^ 31 ≤ vr
    → 2 ^ 31 ≤ u
    → vr + 10 ^ 9 ≤ 2 ^ 32
    → u + 10 ^ 9 ≤ 2 ^ 32
    → (2 ^ 32 - vr) / 10 ≡ (2 ^ 32 - u) / 10
    → vref_key vr ≡ vref_key u
vref_key_collides vr u h hu l lu e =
    vref_key_negative vr h
    ∙ ap (λ (t : Bytes). 45 ∷ t)
        (nine_digits (2 ^ 32 - vr) (omega arith)
          ∙ ap (digits 8) e
          ∙ sym (nine_digits (2 ^ 32 - u) (omega arith)))
    ∙ sym (vref_key_negative u hu)
