-- ===== src/Fmu/Scalar.antt =====
-- fmi2GetReal and fmi2SetReal of dse/fmu/fmi2fmu.c.
pub mod RoundTrip
use dse_fmi.Common.{
  ℕ, ◌+◌, Bool, Option, none, some, List, [], ◌∷◌, Bytes, codes, hashmap_get, ltb, if◌then◌else◌,
}
use dse_fmi.Fmu.Vref.{vref_key}
use dse_fmi.Fmu.Instance.{FmuInstanceData, DirectIndex, store, fmu_log, log_error}

unfoldable pub invalid_index : FmuInstanceData → FmuInstanceData
invalid_index fmu = fmu_log fmu log_error (codes "Error") (codes "Invalid direct index")

-- Each element is a value reference and what value[i] held before the call.
unfoldable pub get_direct : DirectIndex → FmuInstanceData → List (ℕ × ℕ) → FmuInstanceData × List ℕ
unfolding invalid_index
get_direct d fmu [] = (fmu, [])
get_direct d fmu ((vr, old) ∷ vrs) =
    let invalid = ltb d.size vr in
    let (fmu', values) = get_direct d (if invalid then invalid_index fmu else fmu) vrs in
    (fmu', (if invalid then old else fmu.memory (d.map + vr)) ∷ values)

-- The output index first, then the input index.
abbrev pub or_input : FmuInstanceData → ℕ → Option ℕ → Option ℕ
or_input fmu vr none = hashmap_get fmu.scalar_input (vref_key vr)
or_input fmu vr (some p) = some p

unfoldable pub find_signal : FmuInstanceData → ℕ → Option ℕ
find_signal fmu vr = or_input fmu vr (hashmap_get fmu.scalar_output (vref_key vr))

abbrev pub read_or : FmuInstanceData → ℕ → Option ℕ → ℕ
read_or fmu old none = old
read_or fmu old (some p) = fmu.memory p

unfoldable pub get_indexed : FmuInstanceData → List (ℕ × ℕ) → List ℕ
unfolding find_signal
get_indexed fmu [] = []
get_indexed fmu ((vr, old) ∷ vrs) = read_or fmu old (find_signal fmu vr) ∷ get_indexed fmu vrs

unfoldable pub get_real : FmuInstanceData → List (ℕ × ℕ) → FmuInstanceData × List ℕ
unfolding get_direct get_indexed
get_real fmu vrs = elim fmu.direct_index [
  | none ↦ (fmu, get_indexed fmu vrs)
  | some d ↦ get_direct d fmu vrs
]

-- Each element is a value reference and value[i].
unfoldable pub set_direct : DirectIndex → FmuInstanceData → List (ℕ × ℕ) → FmuInstanceData
unfolding invalid_index
set_direct d fmu [] = fmu
set_direct d fmu ((vr, v) ∷ vrs) =
    set_direct d
      (if ltb d.size vr
        then invalid_index fmu
        else record fmu { memory = store fmu.memory (d.map + vr) v })
      vrs

abbrev pub write_at : FmuInstanceData → ℕ → Option ℕ → FmuInstanceData
write_at fmu v none = fmu
write_at fmu v (some p) = record fmu { memory = store fmu.memory p v }

unfoldable pub set_indexed : FmuInstanceData → List (ℕ × ℕ) → FmuInstanceData
set_indexed fmu [] = fmu
set_indexed fmu ((vr, v) ∷ vrs) =
    set_indexed (write_at fmu v (hashmap_get fmu.scalar_input (vref_key vr))) vrs

unfoldable pub set_real : FmuInstanceData → List (ℕ × ℕ) → FmuInstanceData
unfolding set_direct set_indexed
set_real fmu vrs = elim fmu.direct_index [
  | none ↦ set_indexed fmu vrs
  | some d ↦ set_direct d fmu vrs
]
