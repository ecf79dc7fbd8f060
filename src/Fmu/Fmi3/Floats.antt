-- ===== src/Fmu/Fmi3/Floats.antt =====
-- fmi3GetFloat64 and fmi3SetFloat64 beside fmi2GetReal and fmi2SetReal.
use dse_fmi.Common.{
  ℕ, ◌+◌, ◌≡◌, refl, sym, ◌∙◌, ap, ap₂, Bool, true, false, Option, none, some, List, [], ◌∷◌, ltb,
  if◌then◌else◌, if_elim,
}
use dse_fmi.Fmu.Instance.{FmuInstanceData, DirectIndex, store, fmu_log}
use dse_fmi.Fmu.Scalar.{
  invalid_index, get_direct, get_indexed, get_real, set_direct, set_indexed, set_real,
}
use dse_fmi.Fmu.Fmi3.{
  fmi3_log, fmi3_invalid, get_float64_direct, get_float64, set_float64_direct, set_float64,
}

invalid_index-memory : (fmu : FmuInstanceData) → (invalid_index fmu).memory ≡ fmu.memory
unfolding invalid_index fmu_log
invalid_index-memory fmu = if_elim (λ (g : FmuInstanceData). g.memory ≡ fmu.memory) _ _ _ refl refl

fmi3_invalid-memory : (fmu : FmuInstanceData) → (fmi3_invalid fmu).memory ≡ fmu.memory
unfolding fmi3_log
fmi3_invalid-memory fmu =
    if_elim (λ (g : FmuInstanceData). g.memory ≡ fmu.memory) fmu.log_enabled _ _ refl refl

either-memory :
    (b : Bool) (f g h k : FmuInstanceData)
    → f.memory ≡ g.memory
    → h.memory ≡ k.memory
    → (if b then f else h).memory ≡ (if b then g else k).memory
either-memory true f g h k p q = p
either-memory false f g h k p q = q

get_direct-same :
    (d : DirectIndex) (vrs : List (ℕ × ℕ)) (f g : FmuInstanceData)
    → f.memory ≡ g.memory
    → (get_float64_direct d f vrs).1 ≡ (get_direct d g vrs).1
unfolding get_float64_direct get_direct
get_direct-same d [] f g e = refl
get_direct-same d ((vr, old) ∷ vrs) f g e =
    ap₂ (λ (m : ℕ → ℕ) (l : List ℕ). (if ltb d.size vr then old else m (d.map + vr)) ∷ l) e
      (get_direct-same d vrs (if ltb d.size vr then fmi3_invalid f else f)
        (if ltb d.size vr then invalid_index g else g)
        (either-memory (ltb d.size vr) (fmi3_invalid f) (invalid_index g) f g
          (fmi3_invalid-memory f ∙ e ∙ sym (invalid_index-memory g)) e))

set_direct-same :
    (d : DirectIndex) (vrs : List (ℕ × ℕ)) (f g : FmuInstanceData)
    → f.memory ≡ g.memory
    → (set_float64_direct d f vrs).memory ≡ (set_direct d g vrs).memory
unfolding set_float64_direct set_direct
set_direct-same d [] f g e = e
set_direct-same d ((vr, v) ∷ vrs) f g e =
    let f' : FmuInstanceData = record f { memory = store f.memory (d.map + vr) v } in
    let g' : FmuInstanceData = record g { memory = store g.memory (d.map + vr) v } in
    set_direct-same d vrs (if ltb d.size vr then fmi3_invalid f else f')
      (if ltb d.size vr then invalid_index g else g')
      (either-memory (ltb d.size vr) (fmi3_invalid f) (invalid_index g) f' g'
        (fmi3_invalid-memory f ∙ e ∙ sym (invalid_index-memory g))
        (ap (λ (m : ℕ → ℕ). store m (d.map + vr) v) e))

-- With a direct index or without: fmi3GetFloat64 returns the values that fmi2GetReal returns,
-- invalid and unknown value references included, and fmi3SetFloat64 leaves the memory that
-- fmi2SetReal leaves.
pub get_float64-get_real :
    (fmu : FmuInstanceData) (vrs : List (ℕ × ℕ))
    → ((get_float64 fmu vrs).1 ≡ (get_real fmu vrs).1)
      × ((set_float64 fmu vrs).memory ≡ (set_real fmu vrs).memory)
unfolding get_float64 get_real set_float64 set_real
get_float64-get_real fmu vrs = (read fmu.direct_index, written fmu.direct_index)
  where
    read :
        (o : Option DirectIndex)
        → (elim o as (λ x. FmuInstanceData × List ℕ) [
          | none ↦ (fmu, get_indexed fmu vrs)
          | some d ↦ get_float64_direct d fmu vrs
        ]).1
          ≡ (elim o as (λ x. FmuInstanceData × List ℕ) [
            | none ↦ (fmu, get_indexed fmu vrs)
            | some d ↦ get_direct d fmu vrs
          ]).1
    read none = refl
    read (some d) = get_direct-same d vrs fmu fmu refl

    written :
        (o : Option DirectIndex)
        → (elim o as (λ x. FmuInstanceData) [
          | none ↦ set_indexed fmu vrs
          | some d ↦ set_float64_direct d fmu vrs
        ]).memory
          ≡ (elim o as (λ x. FmuInstanceData) [
            | none ↦ set_indexed fmu vrs
            | some d ↦ set_direct d fmu vrs
          ]).memory
    written none = refl
    written (some d) = set_direct-same d vrs fmu fmu refl
