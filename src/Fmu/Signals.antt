-- ===== src/Fmu/Signals.antt =====
-- The default signal handlers of dse/fmu/signal.c that work on the index of the variables:
-- __allocate_sv, fmu_default_signals_setup and fmu_lookup_ncodec. The vectors that `fmu->data` then
-- points to are returned with the instance, and the binary variables of the instance are those of the
-- vectors without scalars.
pub mod Vectors
pub mod Prepared
mod Tests
use dse_fmi.Common.{
  ℕ, ◌-◌, ◌%◌, ◌^◌, ◌≡◌, Bool, true, false, Option, none, some, List, [], ◌∷◌, ◌++◌, map, replicate,
  take, get_elem?, Bytes, codes, HashMap, hashmap_get, ◌==◌, if◌then◌else◌, ◌>>=◌,
}
use dse_fmi.Fmu.Vref.{print_int}
use dse_fmi.Fmu.Instance.{FmuInstanceData, BinaryVariable}
use dse_fmi.Fmu.Trace.{TraceApi, NCodecInstance}
use dse_fmi.Fmu.Variables.{XmlApi, FmuSignalVector, fmu_variable_count, fmu_variable_index}

-- What the setup uses besides: PATH_MAX, xmlParseFile, the array that calloc gives the scalars, and
-- hashlist_ntl, which makes a table of the entries of a list, in order.
pub record SetupApi (xml : XmlApi) : Type 0 where
  pub path_max : ℕ
  pub parse_file : Bytes → Option xml.Doc
  pub scalar : ℕ
  pub ntl : List FmuSignalVector → List FmuSignalVector
  pub ntl_eq : (l : List FmuSignalVector) → ntl l ≡ l

-- The arrays from calloc: no buffer, and no codec but the one that was opened.
abbrev pub binary_variable : Option NCodecInstance → BinaryVariable
binary_variable none = record {
  signal = record { binary = none; length = 0; buffer_size = 0 };
  ncodec = false;
}
binary_variable (some nc) = record {
  signal = record { binary = none; length = 0; buffer_size = 0 };
  ncodec = true;
}

abbrev pub binaries_of : List FmuSignalVector → List BinaryVariable
binaries_of [] = []
binaries_of (sv ∷ rest) =
    if sv.scalar == 0 then map binary_variable sv.ncodec ++ binaries_of rest else binaries_of rest

-- The codec at an index entry, in the vector that the entry points to; `none` is NULL.
abbrev pub codec_at : List (Option NCodecInstance) → Option ℕ → Option NCodecInstance
codec_at ncodec none = none
codec_at ncodec (some q) = get_elem? ncodec q >>= λ nc. nc

unfoldable pub lookup_ncodec :
    ℕ → FmuInstanceData → FmuSignalVector → ℕ → Bool → Option NCodecInstance
lookup_ncodec hashlist_key_len fmu sv vref input =
    let key = take (hashlist_key_len - 1) (print_int vref) in
    codec_at sv.ncodec (hashmap_get (if input then fmu.binary_rx else fmu.binary_tx) key)

module _ (xml : XmlApi) (api : SetupApi xml) where
  -- The count is cut to a uint32, the arrays are not.
  abbrev pub new_vector : Bool → ℕ → FmuSignalVector
  new_vector is_binary count = record {
    count = count % 2 ^ 32;
    signal = replicate count none;
    scalar = if is_binary then 0 else api.scalar;
    mime_type = if is_binary then replicate count none else [];
    ncodec = if is_binary then replicate count none else [];
  }

  unfoldable pub allocate_sv : xml.Doc → Bool → Option FmuSignalVector
  unfolding fmu_variable_count
  allocate_sv doc is_binary =
      let count = fmu_variable_count xml doc is_binary in
      if count == 0 then none else some (new_vector is_binary count)

  abbrev pub append_vector : List FmuSignalVector → Option FmuSignalVector → List FmuSignalVector
  append_vector l none = l
  append_vector l (some sv) = l ++ sv ∷ []

  module _ (trace : TraceApi) (create : Bytes → Option NCodecInstance) (env : HashMap Bytes) where
    -- The loop over the vectors; one without scalars is binary.
    unfoldable pub index_vectors :
        xml.Doc
        → FmuInstanceData
        → List FmuSignalVector
        → Option (FmuInstanceData × List FmuSignalVector)
    unfolding fmu_variable_index
    index_vectors doc fmu [] = some (fmu, [])
    index_vectors doc fmu (sv ∷ rest) = do
      s ← fmu_variable_index xml trace create env doc fmu sv (sv.scalar == 0)
      r ← index_vectors doc s.fmu rest
      some (r.0, s.sv ∷ r.1)

    abbrev pub xml_path : FmuInstanceData → Bytes
    xml_path fmu =
        take (api.path_max - 1) (fmu.resource_location ++ codes "/../modelDescription.xml")

    abbrev pub setup_vectors : xml.Doc → List FmuSignalVector
    setup_vectors doc =
        api.ntl (append_vector (append_vector [] (allocate_sv doc false)) (allocate_sv doc true))

    abbrev pub setup_with :
        FmuInstanceData → Option xml.Doc → Option (FmuInstanceData × List FmuSignalVector)
    setup_with fmu none = some (fmu, [])
    setup_with fmu (some doc) = do
      r ← index_vectors doc fmu (setup_vectors doc)
      some (record r.0 { binaries = binaries_of r.1 }, r.1)

    -- Without a document the instance is left as it is, and has no vectors.
    unfoldable pub default_signals_setup :
        FmuInstanceData → Option (FmuInstanceData × List FmuSignalVector)
    unfolding index_vectors allocate_sv
    default_signals_setup fmu = setup_with fmu (api.parse_file (xml_path fmu))
