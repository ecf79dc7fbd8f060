-- ===== src/Index/Gateway.antt =====
-- fmigateway_index_scalar_signals, fmigateway_index_binary_signals with _set_binary_variable, and
-- fmigateway_index_text_encoding (dse/fmigateway/index.c). The gateway's description has the vectors
-- of its own model instance, and the instances of its simulation; signal_index of the model library
-- is a parameter. A binary variable is its position among the variables of the instance.
pub mod Scalars
pub mod Binaries
pub mod Encodings
use dse_fmi.Common.{
  ℕ, zero, suc, ◌+◌, Bool, true, false, not, Option, none, some, List, [], ◌∷◌, length, foldl,
  Bytes, codes, str_eq, hashmap_set, if◌then◌else◌, ◌>>=◌,
}
use dse_fmi.Fmu.Instance.{FmuInstanceData, TextCodec, fmu_log, log_ok}
use dse_fmi.Index.Each.{each_instance}
use dse_fmi.Index.Vectors.{SignalVector, ModelInstance, SchemaApi, signal_annotation_list}

-- ModelSignalIndex, as far as the code reads it.
pub record SignalIndex : Type 0 where
  pub scalar : Option ℕ
  pub binary : Option ℕ

pub record ModelGatewayDesc : Type 0 where
  pub sv : List SignalVector
  pub instance_list : List ModelInstance

pub record GatewayApi : Type 0 where
  pub schema : SchemaApi
  pub signal_index : Bytes → Bytes → SignalIndex
  pub count_text : Bytes → ℕ → ℕ → Bytes

abbrev pub set_output : FmuInstanceData → Bytes → ℕ → FmuInstanceData
set_output fmu vref cell = record fmu { scalar_output = hashmap_set fmu.scalar_output vref cell }

abbrev pub set_input : FmuInstanceData → Bytes → ℕ → FmuInstanceData
set_input fmu vref cell = record fmu { scalar_input = hashmap_set fmu.scalar_input vref cell }

-- The tests of the causality; `none` is strcmp of a NULL pointer.
unfoldable pub set_by_causality :
    FmuInstanceData → Bytes → ℕ → Option Bytes → Option FmuInstanceData
set_by_causality fmu vref cell none = none
set_by_causality fmu vref cell (some causality) = some (
    if str_eq causality (codes "output")
    then set_output fmu vref cell
    else (if str_eq causality (codes "input") then set_input fmu vref cell else fmu))

abbrev pub with_variable :
    {A : Type 0}
    → (Bytes → A → Option FmuInstanceData)
    → FmuInstanceData
    → Option Bytes
    → Option A
    → Option FmuInstanceData
with_variable f fmu none variable = some fmu
with_variable f fmu (some vref) none = some fmu
with_variable f fmu (some vref) (some a) = f vref a

abbrev pub set_rx : ℕ → FmuInstanceData → Bytes → FmuInstanceData
set_rx p fmu vref = record fmu { binary_rx = hashmap_set fmu.binary_rx vref p }

abbrev pub set_tx : ℕ → FmuInstanceData → Bytes → FmuInstanceData
set_tx p fmu vref = record fmu { binary_tx = hashmap_set fmu.binary_tx vref p }

-- for (j = 0; list[j]; j++) _set_binary_variable(...), for one of the two maps.
unfoldable pub set_binary_variables :
    (ℕ → FmuInstanceData → Bytes → FmuInstanceData)
    → Option ℕ
    → Option (List Bytes)
    → FmuInstanceData
    → FmuInstanceData
set_binary_variables put variable none fmu = fmu
set_binary_variables put none (some vrefs) fmu = fmu
set_binary_variables put (some p) (some vrefs) fmu = foldl (put p) fmu vrefs

abbrev pub set_codec : FmuInstanceData → Bytes → FmuInstanceData
set_codec fmu vref = record fmu {
  encode_func = hashmap_set fmu.encode_func vref TextCodec.ascii85;
  decode_func = hashmap_set fmu.decode_func vref TextCodec.ascii85;
}

abbrev pub set_codecs : FmuInstanceData → Option (List Bytes) → FmuInstanceData
set_codecs fmu none = fmu
set_codecs fmu (some vrefs) = foldl set_codec fmu vrefs

-- The loops over the scalar signals; `locate` finds the variable of a signal.
module _ (schema : SchemaApi) (locate : SignalVector → Bytes → Option ℕ) where
  -- One turn of the inner loop, for signal i of the vector.
  unfoldable pub index_scalar_at :
      FmuInstanceData → SignalVector → ℕ → Bytes → Option FmuInstanceData
  unfolding set_by_causality
  index_scalar_at fmu sv i signal =
      with_variable
        (λ vref cell.
          set_by_causality fmu vref cell
            (schema.signal_annotation sv i (codes "fmi_variable_causality")))
        fmu (schema.signal_annotation sv i (codes "fmi_variable_vref")) (locate sv signal)

  unfoldable pub index_scalars_from :
      FmuInstanceData → SignalVector → ℕ → List Bytes → Option FmuInstanceData
  unfolding index_scalar_at
  index_scalars_from fmu sv i [] = some fmu
  index_scalars_from fmu sv i (signal ∷ rest) = do
    next ← index_scalar_at fmu sv i signal
    index_scalars_from next sv (suc i) rest

  unfoldable pub index_scalar_vectors : FmuInstanceData → List SignalVector → Option FmuInstanceData
  unfolding index_scalars_from
  index_scalar_vectors fmu [] = some fmu
  index_scalar_vectors fmu (sv ∷ rest) = do
    next ← if sv.is_binary then some fmu else index_scalars_from fmu sv 0 sv.signal
    index_scalar_vectors next rest

-- The bodies of the loops over the binary signals.
module _ (schema : SchemaApi) where
  unfoldable pub index_binary_at :
      FmuInstanceData
      → ModelInstance
      → SignalVector
      → Bytes
      → Option ℕ
      → Option Bytes
      → FmuInstanceData
  unfolding set_binary_variables
  index_binary_at fmu mi sv signal variable none = fmu
  index_binary_at fmu mi sv signal variable (some vref) =
      set_binary_variables set_tx variable
        (signal_annotation_list schema mi sv signal
          (codes "dse.standards.fmi-ls-bus-topology.tx_vref"))
        (set_binary_variables set_rx variable
          (signal_annotation_list schema mi sv signal
            (codes "dse.standards.fmi-ls-bus-topology.rx_vref"))
          fmu)

  -- The test of the encoding; `none` is strcmp of a NULL pointer.
  unfoldable pub index_encoding_at :
      FmuInstanceData
      → ModelInstance
      → SignalVector
      → Bytes
      → Option Bytes
      → Option Bytes
      → Option FmuInstanceData
  index_encoding_at fmu mi sv signal none encoding = some fmu
  index_encoding_at fmu mi sv signal (some vref) none = none
  index_encoding_at fmu mi sv signal (some vref) (some encoding) = some (
      if str_eq encoding (codes "ascii85")
      then set_codecs fmu (
          signal_annotation_list schema mi sv signal
            (codes "dse.standards.fmi-ls-binary-to-text.vref"))
      else fmu)

module _ (api : GatewayApi) where
  abbrev pub annotation : SignalVector → ℕ → Bytes → Option Bytes
  annotation sv i name = api.schema.signal_annotation sv i name

  abbrev pub scalar_of : SignalVector → Bytes → Option ℕ
  scalar_of sv signal = (api.signal_index sv.alias signal).scalar

  abbrev pub binary_of : SignalVector → Bytes → Option ℕ
  binary_of sv signal = (api.signal_index sv.alias signal).binary

  abbrev pub log_counts : Bytes → ℕ → ℕ → FmuInstanceData → FmuInstanceData
  log_counts format a b fmu = fmu_log fmu log_ok (codes "Debug") (api.count_text format a b)

  unfoldable pub index_scalar_signals : FmuInstanceData → ModelGatewayDesc → Option FmuInstanceData
  unfolding index_scalar_vectors
  index_scalar_signals fmu m = do
    g ← index_scalar_vectors api.schema scalar_of fmu m.sv
    some (
        log_counts (codes "  Scalar: input=%lu, output=%lu") (length g.scalar_input)
          (length g.scalar_output) g)

  abbrev pub binary_body :
      FmuInstanceData → ModelInstance → SignalVector → ℕ → Bytes → Option FmuInstanceData
  binary_body fmu mi sv i signal = some (
      index_binary_at api.schema fmu mi sv signal (binary_of sv signal)
        (annotation sv i (codes "fmi_variable_vref")))

  abbrev pub encoding_body :
      FmuInstanceData → ModelInstance → SignalVector → ℕ → Bytes → Option FmuInstanceData
  encoding_body fmu mi sv i signal =
      index_encoding_at api.schema fmu mi sv signal (annotation sv i (codes "fmi_variable_vref"))
        (annotation sv i (codes "dse.standards.fmi-ls-binary-to-text.encoding"))

  unfoldable pub index_binary_signals : FmuInstanceData → ModelGatewayDesc → Option FmuInstanceData
  unfolding each_instance index_binary_at
  index_binary_signals fmu m = do
    g ← each_instance binary_body fmu m.instance_list
    some (log_counts (codes "  Binary: rx=%lu, tx=%lu") (length g.binary_rx) (length g.binary_tx) g)

  unfoldable pub index_text_encoding : FmuInstanceData → ModelGatewayDesc → Option FmuInstanceData
  unfolding each_instance index_encoding_at
  index_text_encoding fmu m = do
    g ← each_instance encoding_body fmu m.instance_list
    some (
        log_counts (codes "  Encoding: enc=%lu, dec=%lu") (length g.encode_func)
          (length g.decode_func) g)
