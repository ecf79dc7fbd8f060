-- ===== src/Fmimcl/Adapter/Assign.antt =====
-- Values assigned, in order, to the variables of references, and numbers in lists.
use dse_fmi.Common.{
  ℕ, Bool, false, ◌||◌, ◌≡◌, ◌≢◌, refl, sym, ◌∙◌, ap₂, List, [], ◌∷◌, map, length, All, All-map,
  Pairs, ◌==◌, if◌then◌else◌, arith,
}

-- The number is one of the list.
abbrev pub listed : ℕ → List ℕ → Bool
listed n [] = false
listed n (x ∷ xs) = n == x || listed n xs

-- The variables after the values were assigned, in order, to the references.
abbrev pub assign : List ℕ → List ℕ → (ℕ → ℕ) → ℕ → ℕ
assign [] vs old = old
assign (r ∷ rs) [] old = old
assign (r ∷ rs) (v ∷ vs) old = assign rs vs (λ q. if q == r then v else old q)

pub assign_frame :
    (rs vs : List ℕ) (old : ℕ → ℕ) (q : ℕ) → All (λ r. r ≢ q) rs → assign rs vs old q ≡ old q
assign_frame [] vs old q h = refl
assign_frame (r ∷ rs) [] old q h = refl
assign_frame (r ∷ rs) (v ∷ vs) old q h =
    assign_frame rs vs (λ p. if p == r then v else old p) q h.1 ∙ ground (arith, h.0)

pub assign-values :
    (rs vs : List ℕ) (old : ℕ → ℕ)
    → Pairs ◌≢◌ rs
    → length rs ≡ length vs
    → map (assign rs vs old) rs ≡ vs
assign-values [] [] old d e = refl
assign-values [] (v ∷ vs) old d e = absurd (omega (arith, e))
assign-values (r ∷ rs) [] old d e = absurd (omega (arith, e))
assign-values (r ∷ rs) (v ∷ vs) old d e =
    let next : ℕ → ℕ = λ p. if p == r then v else old p in
    ap₂ (λ (x : ℕ) (xs : List ℕ). x ∷ xs)
      (assign_frame rs vs next r (All-map _ _ rs (λ q n x. n (sym x)) d.0) ∙ ground arith)
      (assign-values rs vs next d.1 (omega (arith, e)))
