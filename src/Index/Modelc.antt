-- ===== src/Index/Modelc.antt =====
-- fmimodelc_index_scalar_signals, fmimodelc_index_binary_signals and fmimodelc_index_text_encoding
-- (dse/fmimodelc/runtime.c), which differ from those of the gateway in how they locate a variable, in
-- the bypass map, and in that they log to the console. The sets of dse.clib and the lookup of a
-- variable of the SimBus are parameters; an entry of the maps of binary variables is the position of
-- the variable.
pub mod Indexed
use dse_fmi.Common.{
  ℕ, ◌%◌, ◌^◌, Option, none, some, List, [], ◌∷◌, ◌++◌, Bytes, codes, if◌then◌else◌, ◌>>=◌,
}
use dse_fmi.Fmu.Instance.{FmuInstanceData, DirectIndex}
use dse_fmi.Index.Vectors.{SignalVector, ModelInstance, SchemaApi}
use dse_fmi.Index.Each.{each_instance}
use dse_fmi.Index.Gateway.{index_scalar_vectors, index_binary_at, index_encoding_at}

-- SimbusVectorIndex, of a vector that was found.
pub record SimbusVectorIndex : Type 0 where
  pub scalar : ℕ
  pub binary : ℕ
  pub direct_index : Option DirectIndex

pub record ModelcApi : Type 0 where
  pub schema : SchemaApi
  pub simbus_vector_lookup : Bytes → Option Bytes → Option SimbusVectorIndex
  pub set_to_array : List Bytes → List Bytes

abbrev pub names_of_vectors : List SignalVector → List Bytes
names_of_vectors [] = []
names_of_vectors (sv ∷ rest) =
    if sv.is_binary then names_of_vectors rest else sv.name ∷ names_of_vectors rest

-- What is added to the set: the names of the scalar vectors.
unfoldable pub vector_names : List ModelInstance → List Bytes
vector_names [] = []
vector_names (mi ∷ rest) = names_of_vectors mi.sv ++ vector_names rest

abbrev pub direct_of : Option SimbusVectorIndex → Option DirectIndex
direct_of none = none
direct_of (some index) = index.direct_index

abbrev pub scalar_index : Option SimbusVectorIndex → Option ℕ
scalar_index none = none
scalar_index (some index) = some index.scalar

abbrev pub binary_index : Option SimbusVectorIndex → Option ℕ
binary_index none = none
binary_index (some index) = some index.binary

-- The size is cut to a uint32.
abbrev pub install_bypass : FmuInstanceData → DirectIndex → FmuInstanceData
install_bypass fmu d = record fmu {
  direct_index = some (record { map = d.map; size = d.size % 2 ^ 32 });
}

module _ (api : ModelcApi) where
  abbrev pub locate_scalar : SignalVector → Bytes → Option ℕ
  locate_scalar sv signal = scalar_index (api.simbus_vector_lookup sv.name (some signal))

  abbrev pub locate_binary : SignalVector → Bytes → Option ℕ
  locate_binary sv signal = binary_index (api.simbus_vector_lookup sv.name (some signal))

  -- The loop over the names, from one of them on; each turn looks up the first name.
  unfoldable pub find_bypass : Bytes → List Bytes → FmuInstanceData → FmuInstanceData
  find_bypass first [] fmu = fmu
  find_bypass first (name ∷ rest) fmu = elim (direct_of (api.simbus_vector_lookup first none)) [
    | none ↦ find_bypass first rest fmu
    | some d ↦ install_bypass fmu d
  ]

  unfoldable pub bypass : List Bytes → FmuInstanceData → FmuInstanceData
  unfolding find_bypass
  bypass [] fmu = fmu
  bypass (first ∷ rest) fmu = find_bypass first (first ∷ rest) fmu

  unfoldable pub index_instances : FmuInstanceData → List ModelInstance → Option FmuInstanceData
  unfolding index_scalar_vectors
  index_instances fmu [] = some fmu
  index_instances fmu (mi ∷ rest) = do
    next ← index_scalar_vectors api.schema locate_scalar fmu mi.sv
    index_instances next rest

  -- The indexing by hash maps is left out if direct indexing has been configured.
  unfoldable pub unless_direct :
      FmuInstanceData → List ModelInstance → Option DirectIndex → Option FmuInstanceData
  unfolding index_instances
  unless_direct fmu instances (some d) = some fmu
  unless_direct fmu instances none = index_instances fmu instances

  unfoldable pub fmimodelc_index_scalar_signals :
      FmuInstanceData → List ModelInstance → Option FmuInstanceData
  unfolding vector_names bypass unless_direct
  fmimodelc_index_scalar_signals fmu instances =
      let after = bypass (api.set_to_array (vector_names instances)) fmu in
      unless_direct after instances after.direct_index

  unfoldable pub fmimodelc_index_binary_signals :
      FmuInstanceData → List ModelInstance → Option FmuInstanceData
  unfolding each_instance index_binary_at
  fmimodelc_index_binary_signals fmu instances =
      each_instance
        (λ g mi sv i signal. some (
          index_binary_at api.schema g mi sv signal (locate_binary sv signal)
            (api.schema.signal_annotation sv i (codes "fmi_variable_vref"))))
        fmu instances

  unfoldable pub fmimodelc_index_text_encoding :
      FmuInstanceData → List ModelInstance → Option FmuInstanceData
  unfolding each_instance index_encoding_at
  fmimodelc_index_text_encoding fmu instances =
      each_instance
        (λ g mi sv i signal.
          index_encoding_at api.schema g mi sv signal
            (api.schema.signal_annotation sv i (codes "fmi_variable_vref"))
            (api.schema.signal_annotation sv i
              (codes "dse.standards.fmi-ls-binary-to-text.encoding")))
        fmu instances
