-- ===== src/Fmu/Fmi3.antt =====
-- The FMI 3 interface (dse/fmu/fmi3fmu.c), where it does something: fmu_log, fmi3SetDebugLogging,
-- fmi3InstantiateCoSimulation, fmi3GetFloat64, fmi3SetFloat64, fmi3GetBinary, fmi3SetBinary,
-- fmi3SetString, fmi3ExitInitializationMode and fmi3DoStep. The other functions return fmi3OK. The
-- default handlers are installed, so `reset` is not NULL.
pub mod Floats
pub mod Receives
pub mod Sends
pub mod Steps
mod Tests
use dse_fmi.Common.{
  ℕ, zero, suc, ◌+◌, ◌≡◌, Bool, true, false, Option, none, some, List, [], ◌∷◌, ◌++◌, length,
  get_elem?, set, take, drop, Bytes, codes, hashmap_get, hashmap_set, ltb, ◌==◌, if◌then◌else◌,
  ◌>>=◌,
}
use dse_fmi.Fmu.Vref.{vref_key, decimal}
use dse_fmi.Fmu.Stream.{BinarySignal}
use dse_fmi.Fmu.Instance.{
  FmuInstanceData, LogMessage, DirectIndex, BinaryVariable, TextCodec, store, log_ok, log_error,
}
use dse_fmi.Fmu.Create.{UriApi, resource_path, new_instance}
use dse_fmi.Fmu.Scalar.{find_signal, read_or, get_indexed, set_indexed}
use dse_fmi.Fmu.Binary.{TextApi, copy_bytes, row_loop, signals_reset, decoded}
use dse_fmi.Fmu.Step.{ModelStep, copies}

-- fmu_log of FMI 3 has one guard only.
unfoldable pub fmi3_log : FmuInstanceData → ℕ → Bytes → Bytes → FmuInstanceData
fmi3_log fmu status category message =
    if fmu.log_enabled
    then record fmu {
      logged =
          fmu.logged ++ record { status = status; category = category; message = message } ∷ [];
    }
    else fmu

-- fmi3SetDebugLogging ignores its arguments.
unfoldable pub fmi3_set_debug_logging : Bool → List Bytes → FmuInstanceData → FmuInstanceData × ℕ
fmi3_set_debug_logging on categories fmu = (fmu, log_ok)

abbrev pub fmi3_invalid : FmuInstanceData → FmuInstanceData
fmi3_invalid fmu = fmi3_log fmu log_error (codes "Error") (codes "Invalid direct index")

-- Each element is a value reference and what values[i] held before the call.
unfoldable pub get_float64_direct :
    DirectIndex → FmuInstanceData → List (ℕ × ℕ) → FmuInstanceData × List ℕ
unfolding fmi3_log
get_float64_direct d fmu [] = (fmu, [])
get_float64_direct d fmu ((vr, old) ∷ vrs) =
    let invalid = ltb d.size vr in
    let (fmu', values) = get_float64_direct d (if invalid then fmi3_invalid fmu else fmu) vrs in
    (fmu', (if invalid then old else fmu.memory (d.map + vr)) ∷ values)

unfoldable pub get_float64 : FmuInstanceData → List (ℕ × ℕ) → FmuInstanceData × List ℕ
unfolding get_float64_direct get_indexed
get_float64 fmu vrs = elim fmu.direct_index [
  | none ↦ (fmu, get_indexed fmu vrs)
  | some d ↦ get_float64_direct d fmu vrs
]

-- Each element is a value reference and values[i].
unfoldable pub set_float64_direct : DirectIndex → FmuInstanceData → List (ℕ × ℕ) → FmuInstanceData
unfolding fmi3_log
set_float64_direct d fmu [] = fmu
set_float64_direct d fmu ((vr, v) ∷ vrs) =
    set_float64_direct d
      (if ltb d.size vr
        then fmi3_invalid fmu
        else record fmu { memory = store fmu.memory (d.map + vr) v })
      vrs

unfoldable pub set_float64 : FmuInstanceData → List (ℕ × ℕ) → FmuInstanceData
unfolding set_float64_direct set_indexed
set_float64 fmu vrs = elim fmu.direct_index [
  | none ↦ set_indexed fmu vrs
  | some d ↦ set_float64_direct d fmu vrs
]

-- fmi3SetString: an element is a value reference and values[i], which may be NULL.
unfoldable pub fmi3_set_string : FmuInstanceData → List (ℕ × Option Bytes) → FmuInstanceData
fmi3_set_string fmu [] = fmu
fmi3_set_string fmu ((vr, none) ∷ values) = fmi3_set_string fmu values
fmi3_set_string fmu ((vr, some text) ∷ values) =
    fmi3_set_string (record fmu { string_input = hashmap_set fmu.string_input (vref_key vr) text })
      values

abbrev pub status_of : ℕ → ℕ
status_of rc = if rc == 0 then log_ok else log_error

-- `init` is fmu_init of the FMU.
unfoldable pub fmi3_exit_initialization_mode :
    (FmuInstanceData → FmuInstanceData × ℕ) → FmuInstanceData → FmuInstanceData × ℕ
fmi3_exit_initialization_mode init fmu = let (g, rc) = init fmu in (g, status_of rc)

-- calloc and the first assignments; no category is set.
unfoldable pub fmi3_new_instance : Bytes → Bytes → Bool → FmuInstanceData
unfolding new_instance
fmi3_new_instance name location logging_on = record (new_instance name location logging_on) {
  version = 3;
  log_categories = 0;
}

abbrev pub fmi3_debug : FmuInstanceData → Bytes → FmuInstanceData
fmi3_debug fmu text = fmi3_log fmu log_ok (codes "Debug") text

abbrev pub fmi3_created : FmuInstanceData × ℕ → FmuInstanceData
fmi3_created (fmu, errno) =
    if errno == 0
    then fmu
    else fmi3_log fmu log_error (codes "Error")
        (codes "The FMU was not created correctly! (errro = " ++ (decimal errno ++ codes ")"))

abbrev pub fmi3_report_table : FmuInstanceData → Option ℕ → FmuInstanceData
fmi3_report_table fmu none = fmi3_debug fmu (codes "FMU Var Table is not configured")
fmi3_report_table fmu (some t) = fmu

-- `setup` is the handler of the signal table, and `create` the FMU's own fmu_create, with the errno
-- that it leaves; it may return another instance.
module _ (u : UriApi) (setup : FmuInstanceData → FmuInstanceData)
    (create : FmuInstanceData → FmuInstanceData × ℕ) where
  unfoldable pub fmi3_instantiate : Bytes → Bytes → Bool → FmuInstanceData
  unfolding fmi3_log fmi3_new_instance resource_path
  fmi3_instantiate name location logging_on =
      let fmu =
        fmi3_debug (fmi3_new_instance name location logging_on) (codes "FMU Model instantiated") in
      let path = resource_path u location in
      let located =
        fmi3_debug (record fmu { resource_location = path })
          (codes "Resource location: " ++ path) in
      let indexed = setup (fmi3_debug located (codes "Build indexes...")) in
      let done = fmi3_created (create indexed) in fmi3_report_table done done.table

module _ (api : TextApi) where
  abbrev pub fmi3_log_row : FmuInstanceData → Bytes → FmuInstanceData
  fmi3_log_row fmu row = fmi3_log fmu log_ok (codes "Trace") (api.hex_text row)

  unfoldable pub fmi3_log_bytes : ℕ → ℕ → FmuInstanceData → ℕ → Bytes → Option FmuInstanceData
  unfolding row_loop fmi3_log
  fmi3_log_bytes = row_loop fmi3_log_row

  -- _log_binary_signal; `none` is also a loop that does not end.
  unfoldable pub fmi3_log_binary_signal :
      FmuInstanceData → Bytes → BinarySignal → Bytes → Option FmuInstanceData
  unfolding fmi3_log_bytes
  fmi3_log_binary_signal fmu op s buffer =
      fmi3_log_bytes (s.length + 1) 0 (fmi3_log fmu log_ok (codes "Trace") (api.header_text op s))
        s.length buffer

  -- The value that is returned: the encoder's, or a copy.
  unfoldable pub fmi3_value : Option TextCodec → Bytes → ℕ → Option Bytes
  fmi3_value none buffer len = copy_bytes len buffer
  fmi3_value (some ef) buffer len = do bytes ← copy_bytes len buffer; some (api.encode ef bytes)

  -- The part of the loop of fmi3GetBinary behind the lookup; the second number is valueSizes[i], which
  -- keeps its value where nothing is returned.
  unfoldable pub get_binary_data :
      FmuInstanceData
      → Bytes
      → ℕ
      → BinarySignal
      → Option Bytes
      → Option (FmuInstanceData × (Option Bytes × ℕ))
  unfolding fmi3_value fmi3_log_binary_signal
  get_binary_data fmu key old s none = some (fmu, (none, old))
  get_binary_data fmu key old s (some buffer) =
      if s.length == 0 then some (fmu, (none, old)) else (do
        logged ← fmi3_log_binary_signal fmu (codes "GetBinary") s buffer
        value ← fmi3_value (hashmap_get fmu.encode_func key) buffer s.length
        some (record logged { free_list = logged.free_list ++ value ∷ [] }, (some value, s.length)))

  unfoldable pub get_binary_at :
      FmuInstanceData → Bytes → ℕ → Option ℕ → Option (FmuInstanceData × (Option Bytes × ℕ))
  unfolding get_binary_data
  get_binary_at fmu key old none = some (fmu, (none, old))
  get_binary_at fmu key old (some p) = do
    v ← get_elem? fmu.binaries p
    get_binary_data fmu key old v.signal v.signal.binary

  -- Each element is a value reference and what valueSizes[i] held before.
  unfoldable pub get_binary_loop :
      FmuInstanceData → List (ℕ × ℕ) → Option (FmuInstanceData × List (Option Bytes × ℕ))
  unfolding get_binary_at
  get_binary_loop fmu [] = some (fmu, [])
  get_binary_loop fmu ((vr, old) ∷ vrs) = do
    (next, value) ← get_binary_at fmu (vref_key vr) old (hashmap_get fmu.binary_tx (vref_key vr))
    (last, values) ← get_binary_loop next vrs
    some (last, value ∷ values)

  unfoldable pub get_binary :
      FmuInstanceData → List (ℕ × ℕ) → Option (FmuInstanceData × List (Option Bytes × ℕ))
  unfolding get_binary_loop
  get_binary fmu vrs = get_binary_loop (record fmu { free_list = [] }) vrs

  -- One turn of the loop of fmi3SetBinary for a value that is not NULL; the value has as many bytes as
  -- valueSizes[i] says, and the decoder's size replaces it.
  unfoldable pub set_binary_at : FmuInstanceData → Bytes → Bytes → Option ℕ → Option FmuInstanceData
  unfolding decoded
  set_binary_at fmu key value none = some fmu
  set_binary_at fmu key value (some p) = do
    v ← get_elem? fmu.binaries p
    let bytes = decoded api (hashmap_get fmu.decode_func key) value
    some (record fmu {
      binaries = set fmu.binaries p (record v { signal = api.buffer.buffer_append v.signal bytes });
    })

  unfoldable pub set_binary_loop :
      FmuInstanceData → List (ℕ × Option Bytes) → Option FmuInstanceData
  unfolding set_binary_at
  set_binary_loop fmu [] = some fmu
  set_binary_loop fmu ((vr, none) ∷ values) = set_binary_loop fmu values
  set_binary_loop fmu ((vr, some value) ∷ values) = do
    next ← set_binary_at fmu (vref_key vr) value (hashmap_get fmu.binary_rx (vref_key vr))
    set_binary_loop next values

  unfoldable pub set_binary : FmuInstanceData → List (ℕ × Option Bytes) → Option FmuInstanceData
  unfolding set_binary_loop signals_reset
  set_binary fmu values = set_binary_loop (signals_reset api fmu) values

  unfoldable pub fmi3_do_step : ModelStep → FmuInstanceData → ℕ → ℕ → FmuInstanceData × ℕ
  unfolding copies signals_reset
  fmi3_do_step model fmu time step_size =
      let reset : FmuInstanceData = signals_reset api fmu in
      let (g, rc) =
        model
          (record reset {
            memory = copies (λ mi. mi.variable) (λ mi. mi.signal) reset.marshal_list reset.memory;
          })
          time step_size in
      (
        record g {
          memory = copies (λ mi. mi.signal) (λ mi. mi.variable) g.marshal_list g.memory;
          signals_reset = false;
        },
        status_of rc,
      )
