-- ===== src/Fmu/Binary.antt =====
-- fmi2GetString, fmi2SetString and _log_binary_signal of dse/fmu/fmi2fmu.c, and
-- fmu_default_signals_reset of dse/fmu/signal.c.
pub mod Rows
pub mod Takes
pub mod Append
pub mod Answers
use dse_fmi.Common.{
  ℕ, zero, suc, ◌+◌, ◌%◌, ◌^◌, ◌≡◌, Bool, true, Option, none, some, List, [], ◌∷◌, ◌++◌, map,
  length, get_elem?, set, take, drop, Bytes, codes, hashmap_get, hashmap_set, ltb, ◌==◌,
  if◌then◌else◌, ◌>>=◌,
}
use dse_fmi.Fmu.Vref.{vref_key}
use dse_fmi.Fmu.Stream.{BinarySignal, bytes_of, BufferApi}
use dse_fmi.Fmu.Instance.{FmuInstanceData, BinaryVariable, TextCodec, fmu_log, log_ok}

-- What the calls use of other libraries: the buffers and the ASCII85 codec of dse.clib, the call of
-- dse.ncodec that empties the variable of a codec, and the texts that vsnprintf makes.
pub record TextApi : Type 0 where
  pub buffer : BufferApi
  pub encode : TextCodec → Bytes → Bytes
  pub decode : TextCodec → Bytes → Bytes
  pub truncate : BinarySignal → BinarySignal
  pub truncate_length : (s : BinarySignal) → (truncate s).length ≡ 0
  pub header_text : Bytes → BinarySignal → Bytes
  pub hex_text : Bytes → Bytes

-- A read of more bytes than there are aborts.
abbrev pub copy_bytes : ℕ → Bytes → Option Bytes
copy_bytes n buffer = if ltb (length buffer) n then none else some (take n buffer)

-- The loop of _log_binary_signal from byte j on, with j in a uint32_t; `log` writes one row. `none` is
-- a read behind the buffer, or fuel that is used up before the loop ends.
unfoldable pub row_loop :
    (FmuInstanceData → Bytes → FmuInstanceData)
    → ℕ
    → ℕ
    → FmuInstanceData
    → ℕ
    → Bytes
    → Option FmuInstanceData
row_loop log zero j fmu len buffer = none
row_loop log (suc fuel) j fmu len buffer =
    let next = (j + 16) % 2 ^ 32 in
    let rest = (do
      row ← copy_bytes 16 (drop j buffer)
      row_loop log fuel next (log fmu row) len buffer) in
    if ltb next len then rest else some fmu

module _ (api : TextApi) where
  abbrev pub log_row : FmuInstanceData → Bytes → FmuInstanceData
  log_row fmu row = fmu_log fmu log_ok (codes "Trace") (api.hex_text row)

  unfoldable pub log_bytes : ℕ → ℕ → FmuInstanceData → ℕ → Bytes → Option FmuInstanceData
  unfolding row_loop
  log_bytes = row_loop log_row

  -- A loop that ends takes fewer turns than the variable has bytes, but for the last.
  unfoldable pub log_binary_signal :
      FmuInstanceData → Bytes → BinarySignal → Bytes → Option FmuInstanceData
  unfolding log_bytes
  log_binary_signal fmu op s buffer =
      log_bytes (s.length + 1) 0 (fmu_log fmu log_ok (codes "Trace") (api.header_text op s))
        s.length buffer

  abbrev pub reset_one : BinaryVariable → BinaryVariable
  reset_one v =
      if v.ncodec
      then record v { signal = api.truncate v.signal }
      else record v { signal = record v.signal { length = 0 } }

  unfoldable pub signals_reset : FmuInstanceData → FmuInstanceData
  signals_reset fmu =
      if fmu.signals_reset
      then fmu
      else record fmu { binaries = map reset_one fmu.binaries; signals_reset = true }

  -- What strdup copies; `none` is a read behind the buffer.
  unfoldable pub c_string : Bytes → Option Bytes
  c_string [] = none
  c_string (b ∷ bs) =
      let rest = c_string bs in if b == 0 then some [] else (do s ← rest; some (b ∷ s))

  unfoldable pub encoded : Option TextCodec → Bytes → ℕ → Option Bytes
  unfolding c_string
  encoded none buffer len = c_string buffer
  encoded (some ef) buffer len = do bytes ← copy_bytes len buffer; some (api.encode ef bytes)

  -- The part of the loop of fmi2GetString behind the NULL test of the data.
  unfoldable pub get_string_data :
      FmuInstanceData
      → Bytes
      → BinarySignal
      → Option Bytes
      → Option (FmuInstanceData × Option Bytes)
  unfolding encoded log_binary_signal
  get_string_data fmu key s none = some (fmu, none)
  get_string_data fmu key s (some buffer) = if s.length == 0 then some (fmu, none) else (do
    logged ← log_binary_signal fmu (codes "GetString") s buffer
    value ← encoded (hashmap_get fmu.encode_func key) buffer s.length
    some (record logged { free_list = logged.free_list ++ value ∷ [] }, some value))

  -- One turn of the loop; `none` is also an index behind the vector.
  unfoldable pub get_string_at :
      FmuInstanceData → Bytes → Option ℕ → Option (FmuInstanceData × Option Bytes)
  unfolding get_string_data
  get_string_at fmu key none = some (fmu, none)
  get_string_at fmu key (some p) = do
    v ← get_elem? fmu.binaries p
    get_string_data fmu key v.signal v.signal.binary

  unfoldable pub get_string_loop :
      FmuInstanceData → List ℕ → Option (FmuInstanceData × List (Option Bytes))
  unfolding get_string_at
  get_string_loop fmu [] = some (fmu, [])
  get_string_loop fmu (vr ∷ vrs) = do
    (next, value) ← get_string_at fmu (vref_key vr) (hashmap_get fmu.binary_tx (vref_key vr))
    (last, values) ← get_string_loop next vrs
    some (last, value ∷ values)

  unfoldable pub get_string :
      FmuInstanceData → List ℕ → Option (FmuInstanceData × List (Option Bytes))
  unfolding get_string_loop
  get_string fmu vrs = get_string_loop (record fmu { free_list = [] }) vrs

  unfoldable pub decoded : Option TextCodec → Bytes → Bytes
  decoded none text = text
  decoded (some df) text = api.decode df text

  unfoldable pub append_to : FmuInstanceData → ℕ → BinaryVariable → Bytes → Option FmuInstanceData
  unfolding log_binary_signal
  append_to fmu p v bytes =
      let s = api.buffer.buffer_append v.signal bytes in
      log_binary_signal (record fmu { binaries = set fmu.binaries p (record v { signal = s }) })
        (codes "SetString") s (bytes_of s.binary)

  -- One turn of the loop of fmi2SetString for a text that is not NULL.
  unfoldable pub set_string_at : FmuInstanceData → Bytes → Bytes → Option ℕ → Option FmuInstanceData
  unfolding append_to decoded
  set_string_at fmu key text none =
      some (record fmu { string_input = hashmap_set fmu.string_input key text })
  set_string_at fmu key text (some p) = do
    v ← get_elem? fmu.binaries p
    append_to fmu p v (decoded (hashmap_get fmu.decode_func key) text)

  unfoldable pub set_string_loop :
      FmuInstanceData → List (ℕ × Option Bytes) → Option FmuInstanceData
  unfolding set_string_at
  set_string_loop fmu [] = some fmu
  set_string_loop fmu ((vr, none) ∷ values) = set_string_loop fmu values
  set_string_loop fmu ((vr, some text) ∷ values) = do
    next ← set_string_at fmu (vref_key vr) text (hashmap_get fmu.binary_rx (vref_key vr))
    set_string_loop next values

  -- The default handlers are installed, so `reset` is not NULL.
  unfoldable pub set_string : FmuInstanceData → List (ℕ × Option Bytes) → Option FmuInstanceData
  unfolding set_string_loop signals_reset
  set_string fmu values = set_string_loop (signals_reset fmu) values
