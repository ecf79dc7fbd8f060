-- ===== src/Common/Buckets.antt =====
-- A list gathered bucket by bucket: when each element falls into one bucket of the keys, the buckets
-- in a row are a permutation of the list, and they stand in the order of the keys.
use mathlib.Core.List.{Perm, perm_middle, append_assoc, append-nil}
use mathlib.Core.List.Perm
use Prim.Native.Nat.{ℕ, zero, suc, ◌+◌, ◌<◌, ◌≤◌}
use mathlib.Core.Path.{◌≡◌, refl, sym, ◌∙◌, ap}
use mathlib.Core.Bool.{Bool, true, ◌&&◌}
use mathlib.Core.List.{List, [], ◌∷◌, ◌++◌, foldl}
use mathlib.Core.Logic.{inl, inr}
use native.Mathlib.Omega.{arith}
use dse_fmi.Common.Tests.{◌==◌, if◌then◌else◌, Bool-cases}
use dse_fmi.Common.Lists.{select, All, Pairs, All-append, All-map, Pairs-append}

-- How often a key occurs.
abbrev pub occurs : ℕ → List ℕ → ℕ
occurs k [] = 0
occurs k (j ∷ js) = (if j == k then 1 else 0) + occurs k js

module _ {ℓ} {A : Type ℓ} where
  abbrev pub gather : List ℕ → (ℕ → List A) → List A
  gather [] f = []
  gather (k ∷ ks) f = f k ++ gather ks f

  -- for (k : keys) { body }, where the body appends `f k` to the output.
  pub foldl-gather :
      (body : List A → ℕ → List A) (f : ℕ → List A)
      → ((out : List A) (k : ℕ) → body out k ≡ out ++ f k)
      → (ks : List ℕ) (out : List A) → foldl body out ks ≡ out ++ gather ks f
  foldl-gather body f h [] out = sym (append-nil out)
  foldl-gather body f h (k ∷ ks) out =
      foldl-gather body f h ks (body out k) ∙ rw (h out k) (append_assoc out (f k) (gather ks f))

  -- for (x : xs) { if (p(x)) append x; }
  pub foldl-select :
      (p : A → Bool) (xs out : List A)
      → foldl (λ acc x. if p x then acc ++ x ∷ [] else acc) out xs ≡ out ++ select p xs
  foldl-select p [] out = sym (append-nil out)
  foldl-select p (x ∷ xs) out = elim (Bool-cases (p x)) [
    | inl e ↦ rw e (foldl-select p xs (out ++ x ∷ []) ∙ append_assoc out (x ∷ []) (select p xs))
    | inr e ↦ rw e (foldl-select p xs out)
  ]

module _ {ℓ} {A : Type ℓ} where
  -- The buckets of `x ∷ xs` are those of `xs` with `x` put in front of its own.
  put_in : ℕ → A → (ℕ → List A) → ℕ → List A
  put_in j x f k = if j == k then x ∷ f k else f k

  gather-put_in_absent :
      (j : ℕ) (x : A) (f : ℕ → List A) (ks : List ℕ)
      → occurs j ks ≡ 0
      → gather ks (put_in j x f) ≡ gather ks f
  unfolding put_in
  gather-put_in_absent j x f [] h = refl
  gather-put_in_absent j x f (k ∷ ks) h = ground (arith, gather-put_in_absent j x f ks)

  gather-put_in :
      (j : ℕ) (x : A) (f : ℕ → List A) (ks : List ℕ)
      → occurs j ks ≡ 1
      → Perm (gather ks (put_in j x f)) (x ∷ gather ks f)
  unfolding put_in
  gather-put_in j x f [] h = absurd (omega arith)
  gather-put_in j x f (k ∷ ks) h = elim (Bool-cases (j == k)) [
    | inl e ↦
        rw (e, put_in)
          (rw (gather-put_in_absent j x f ks (ground arith)) (Perm.refl (x ∷ (f k ++ gather ks f))))
    | inr e ↦
        rw (e, put_in)
          (Perm.trans (Perm.append_left (f k) (gather-put_in j x f ks (ground arith)))
            (perm_middle (f k) (gather ks f)))
  ]

  pub gather-perm :
      (ks : List ℕ) (f g : ℕ → List A)
      → ((k : ℕ) → Perm (f k) (g k))
      → Perm (gather ks f) (gather ks g)
  gather-perm [] f g h = Perm.refl []
  gather-perm (k ∷ ks) f g h = Perm.append (h k) (gather-perm ks f g h)

  gather-nil : (ks : List ℕ) → gather {A = A} ks (λ k. []) ≡ []
  gather-nil [] = refl
  gather-nil (k ∷ ks) = gather-nil ks

  pub gather_select-perm :
      (key : A → ℕ) (ks : List ℕ) (xs : List A)
      → All (λ x. occurs (key x) ks ≡ 1) xs
      → Perm (gather ks (λ k. select (λ x. key x == k) xs)) xs
  unfolding put_in
  gather_select-perm key ks [] h = rw (gather-nil ks) (Perm.refl [])
  gather_select-perm key ks (x ∷ xs) h =
      Perm.trans (gather-put_in (key x) x (λ k. select (λ y. key y == k) xs) ks h.0)
        (Perm.cons x (gather_select-perm key ks xs h.1))

  pub All-gather {κ} :
      (P : A → Type κ) (f : ℕ → List A)
      → ((k : ℕ) → All P (f k))
      → (ks : List ℕ) → All P (gather ks f)
  All-gather P f h [] = tt
  All-gather P f h (k ∷ ks) = All-append P (f k) (gather ks f) (h k) (All-gather P f h ks)

  -- Ordered keys and ordered buckets make an ordered row.
  pub gather-Pairs {κ μ ν} :
      (R : A → A → Type κ) (P : ℕ → A → Type μ) (L : ℕ → ℕ → Type ν)
      → ((j k : ℕ) → L j k → (x y : A) → P j x → P k y → R x y)
      → (f : ℕ → List A) → ((k : ℕ) → All (P k) (f k))
      → ((k : ℕ) → Pairs R (f k))
      → (ks : List ℕ) → Pairs L ks
      → Pairs R (gather ks f)
  gather-Pairs R P L step f inside ordered [] h = tt
  gather-Pairs R P L step f inside ordered (k ∷ ks) h =
      Pairs-append R (f k) (gather ks f) (ordered k)
        (gather-Pairs R P L step f inside ordered ks h.1)
        (All-map (P k) (λ x. All (R x) (gather ks f)) (f k) (λ x px. later x px ks h.0) (inside k))
    where
      later : (x : A) → P k x → (js : List ℕ) → All (L k) js → All (R x) (gather js f)
      later x px [] hl = tt
      later x px (j ∷ js) hl =
          All-append (R x) (f j) (gather js f)
            (All-map (P j) (R x) (f j) (λ y py. step k j hl.0 x y px py) (inside j))
            (later x px js hl.1)

  pub All-select {κ} :
      (P : A → Type κ) (p : A → Bool) (xs : List A) → All P xs → All P (select p xs)
  All-select P p [] h = tt
  All-select P p (x ∷ xs) h = elim (Bool-cases (p x)) [
    | inl e ↦ rw e (h.0, All-select P p xs h.1)
    | inr e ↦ rw e (All-select P p xs h.1)
  ]

  pub select_test : (p : A → Bool) (xs : List A) → All (λ x. p x ≡ true) (select p xs)
  select_test p [] = tt
  select_test p (x ∷ xs) = elim (Bool-cases (p x)) [
    | inl e ↦ rw e (e, select_test p xs)
    | inr e ↦ rw e (select_test p xs)
  ]

  pub select-select :
      (p q : A → Bool) (xs : List A) → select p (select q xs) ≡ select (λ x. q x && p x) xs
  select-select p q [] = refl
  select-select p q (x ∷ xs) = elim (Bool-cases (q x)) [
    | inl e ↦ rw e (elim (Bool-cases (p x)) [
      | inl e' ↦ rw e' (ap (λ (l : List A). x ∷ l) (select-select p q xs))
      | inr e' ↦ rw e' (select-select p q xs)
    ])
    | inr e ↦ rw e (select-select p q xs)
  ]

  pub All-Pairs {κ μ} :
      (P : A → Type κ) (R : A → A → Type μ)
      → ((x y : A) → P x → P y → R x y)
      → (xs : List A) → All P xs
      → Pairs R xs
  All-Pairs P R f [] h = tt
  All-Pairs P R f (x ∷ xs) h =
      (All-map P (R x) xs (λ y py. f x y h.0 py) h.1, All-Pairs P R f xs h.1)

-- 0, 1, ..., n - 1, counted from `i`.
abbrev pub count_up : ℕ → ℕ → List ℕ
count_up i zero = []
count_up i (suc n) = i ∷ count_up (suc i) n

occurs-count_up_below : (i n k : ℕ) → k < i → occurs k (count_up i n) ≡ 0
occurs-count_up_below i zero k h = refl
occurs-count_up_below i (suc n) k h =
    ground (arith, occurs-count_up_below (suc i) n k (omega arith))

pub occurs-count_up : (i n k : ℕ) → i ≤ k → k < i + n → occurs k (count_up i n) ≡ 1
occurs-count_up i zero k h l = absurd (omega arith)
occurs-count_up i (suc n) k h l = elim (Bool-cases (i == k)) [
  | inl e ↦ rw e (ground (arith, occurs-count_up_below (suc i) n k))
  | inr e ↦ rw e (ground (arith, occurs-count_up (suc i) n k))
]

count_up_above : (i j n : ℕ) → j ≤ i → All (λ k. j ≤ k) (count_up i n)
count_up_above i j zero h = tt
count_up_above i j (suc n) h = (h, count_up_above (suc i) j n (omega arith))

pub count_up-Pairs : (i n : ℕ) → Pairs ◌<◌ (count_up i n)
count_up-Pairs i zero = tt
count_up-Pairs i (suc n) =
    (count_up_above (suc i) (suc i) n (omega arith), count_up-Pairs (suc i) n)
