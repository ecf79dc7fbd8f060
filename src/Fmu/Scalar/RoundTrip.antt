-- ===== src/Fmu/Scalar/RoundTrip.antt =====
-- What is set on inputs is what is read back.
use dse_fmi.Common.{
  ℕ, ◌≡◌, ◌≢◌, refl, sym, subst, ◌∙◌, ap, ap₂, Option, none, some, List, [], ◌∷◌, map, All, All-map,
  Pairs, hashmap_get, arith,
}
use dse_fmi.Fmu.Vref.{vref_key}
use dse_fmi.Fmu.Instance.{FmuInstanceData, store}
use dse_fmi.Fmu.Scalar.{
  read_or, or_input, write_at, get_direct, get_indexed, get_real, set_direct, set_indexed, set_real,
}

-- A value for a value reference whose input is stored in the cell; `old` is what the caller's array
-- holds when it reads.
pub record Setting : Type 0 where
  pub vr : ℕ
  pub value : ℕ
  pub cell : ℕ
  pub old : ℕ

abbrev pub sets : List Setting → List (ℕ × ℕ)
sets = map (λ w. (w.vr, w.value))

abbrev pub gets : List Setting → List (ℕ × ℕ)
gets = map (λ w. (w.vr, w.old))

-- The value reference is an input and not also an output.
abbrev pub IsInput : FmuInstanceData → Setting → Type 0
IsInput fmu w =
    (hashmap_get fmu.scalar_output (vref_key w.vr) ≡ none)
    × (hashmap_get fmu.scalar_input (vref_key w.vr) ≡ some w.cell)

abbrev pub OtherCell : Setting → Setting → Type 0
OtherCell w u = w.cell ≢ u.cell

set_indexed_found :
    (vr v p : ℕ) (vrs : List (ℕ × ℕ)) (fmu : FmuInstanceData)
    → hashmap_get fmu.scalar_input (vref_key vr) ≡ some p
    → set_indexed fmu ((vr, v) ∷ vrs)
      ≡ set_indexed (record fmu { memory = store fmu.memory p v }) vrs
unfolding set_indexed
set_indexed_found vr v p vrs fmu e = ap (λ o. set_indexed (write_at fmu v o) vrs) e

-- The cells that no setting names keep their values.
set_indexed_frame :
    (ws : List Setting) (fmu : FmuInstanceData) (q : ℕ)
    → All (IsInput fmu) ws
    → All (λ w. w.cell ≢ q) ws
    → (set_indexed fmu (sets ws)).memory q ≡ fmu.memory q
set_indexed_frame [] fmu q h n = unfold set_indexed in refl
set_indexed_frame (w ∷ ws) fmu q h n =
    let after : FmuInstanceData = record fmu { memory = store fmu.memory w.cell w.value } in
    rw (set_indexed_found w.vr w.value w.cell (sets ws) fmu h.0.1)
      (set_indexed_frame ws after q h.1 n.1 ∙ ground (arith, n.0))

-- After the call each cell holds its value.
set_indexed-cells :
    (ws : List Setting) (fmu : FmuInstanceData)
    → All (IsInput fmu) ws
    → Pairs OtherCell ws
    → All (λ w. (set_indexed fmu (sets ws)).memory w.cell ≡ w.value) ws
set_indexed-cells [] fmu h d = tt
set_indexed-cells (w ∷ ws) fmu h d =
    let after : FmuInstanceData = record fmu { memory = store fmu.memory w.cell w.value } in
    subst (λ g. All (λ u. g.memory u.cell ≡ u.value) (w ∷ ws))
      (sym (set_indexed_found w.vr w.value w.cell (sets ws) fmu h.0.1))
      (
        set_indexed_frame ws after w.cell h.1 (All-map (OtherCell w) _ ws (λ u n e. n (sym e)) d.0)
            ∙ ground arith,
        set_indexed-cells ws after h.1 d.1,
      )

-- Only the memory changes.
OnlyMemory : FmuInstanceData → FmuInstanceData → Type 0
OnlyMemory fmu after = after ≡ record fmu { memory = after.memory }

set_indexed-OnlyMemory :
    (vrs : List (ℕ × ℕ)) (fmu : FmuInstanceData) → OnlyMemory fmu (set_indexed fmu vrs)
unfolding set_indexed OnlyMemory
set_indexed-OnlyMemory [] fmu = refl
set_indexed-OnlyMemory ((vr, v) ∷ vrs) fmu =
    written (hashmap_get fmu.scalar_input (vref_key vr)) (set_indexed-OnlyMemory vrs)
  where
    written :
        (o : Option ℕ)
        → ((g : FmuInstanceData) → OnlyMemory g (set_indexed g vrs))
        → OnlyMemory fmu (set_indexed (write_at fmu v o) vrs)
    written none ih = ih fmu
    written (some p) ih = ih (record fmu { memory = store fmu.memory p v })

get_indexed-values :
    (ws : List Setting) (fmu : FmuInstanceData)
    → All (IsInput fmu) ws
    → All (λ w. fmu.memory w.cell ≡ w.value) ws
    → get_indexed fmu (gets ws) ≡ map (λ w. w.value) ws
unfolding get_indexed
get_indexed-values [] fmu h m = refl
get_indexed-values (w ∷ ws) fmu h m =
    ap₂ (λ (v : ℕ) (vs : List ℕ). v ∷ vs)
      (ap (λ o. read_or fmu w.old o) (ap (or_input fmu w.vr) h.0.0 ∙ h.0.1) ∙ m.0)
      (get_indexed-values ws fmu h.1 m.1)

set_real-indexed :
    (fmu : FmuInstanceData) (vrs : List (ℕ × ℕ))
    → fmu.direct_index ≡ none
    → set_real fmu vrs ≡ set_indexed fmu vrs
unfolding set_real
set_real-indexed fmu vrs d =
    ap (λ o. elim o [ none ↦ set_indexed fmu vrs | some d ↦ set_direct d fmu vrs ]) d

get_real-indexed :
    (fmu : FmuInstanceData) (vrs : List (ℕ × ℕ))
    → fmu.direct_index ≡ none
    → (get_real fmu vrs).1 ≡ get_indexed fmu vrs
unfolding get_real
get_real-indexed fmu vrs d =
    ap
      (λ o.
        (elim o as (λ _. FmuInstanceData × List ℕ) [
          | none ↦ (fmu, get_indexed fmu vrs)
          | some d ↦ get_direct d fmu vrs
        ]).1)
      d

-- Without direct indexing, and for value references that are inputs with pairwise different cells and
-- not outputs as well: after fmi2SetReal, fmi2GetReal on the same value references returns the values
-- that were set, whatever the caller's array held; every other cell keeps its value; and apart from
-- the memory the instance is unchanged.
pub get_real-set_real :
    (fmu : FmuInstanceData) (ws : List Setting) (q : ℕ)
    → fmu.direct_index ≡ none
    → All (IsInput fmu) ws
    → Pairs OtherCell ws
    → All (λ w. w.cell ≢ q) ws
    → ((get_real (set_real fmu (sets ws)) (gets ws)).1 ≡ map (λ w. w.value) ws)
      × ((set_real fmu (sets ws)).memory q ≡ fmu.memory q)
      × (set_real fmu (sets ws) ≡ record fmu { memory = (set_real fmu (sets ws)).memory })
unfolding OnlyMemory
get_real-set_real fmu ws q d h p n =
    let after : FmuInstanceData = set_indexed fmu (sets ws) in
    let same : OnlyMemory fmu after = set_indexed-OnlyMemory (sets ws) fmu in
    let inputs : All (IsInput after) ws = subst (λ g. All (IsInput g) ws) (sym same) h in
    let values = get_indexed-values ws after inputs (set_indexed-cells ws fmu h p) in
    subst
      (λ g.
        ((get_real g (gets ws)).1 ≡ map (λ w. w.value) ws)
        × (g.memory q ≡ fmu.memory q)
        × (g ≡ record fmu { memory = g.memory }))
      (sym (set_real-indexed fmu (sets ws) d))
      (
        get_real-indexed after (gets ws) (ap (λ g. g.direct_index) same ∙ d) ∙ values,
        set_indexed_frame ws fmu q h n,
        same,
      )
