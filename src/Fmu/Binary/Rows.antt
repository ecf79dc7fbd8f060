-- ===== src/Fmu/Binary/Rows.antt =====
-- _log_binary_signal: where its loop over the rows of sixteen bytes ends, and where it does not.
use dse_fmi.Common.{
  ℕ, zero, suc, ◌+◌, ◌-◌, ◌*◌, ◌/◌, ◌%◌, ◌^◌, ◌≤◌, ◌<◌, ◌≡◌, refl, true, false, some, length, take,
  drop, length-drop, Bytes, ltb, arith,
}
use dse_fmi.Fmu.Stream.{BinarySignal, IsBuffer}
use dse_fmi.Fmu.Instance.{FmuInstanceData}
use dse_fmi.Fmu.Binary.{TextApi, copy_bytes, row_loop, log_row, log_bytes}

-- The greatest length whose rows are logged.
abbrev pub log_limit : ℕ
log_limit = 4294967280

-- The variable can be logged: its length lies in its buffer and is not above the limit.
abbrev pub IsLoggable : BinarySignal → Type 0
IsLoggable s = IsBuffer s × (s.length ≤ log_limit)

pub copy_bytes-fits :
    (n : ℕ) (buffer : Bytes) → n ≤ length buffer → copy_bytes n buffer ≡ some (take n buffer)
copy_bytes-fits n buffer h = rw (fits n (length buffer) h) refl
  where
    fits : (m k : ℕ) → m ≤ k → ltb k m ≡ false
    fits m k l = ground arith

module _ (log : FmuInstanceData → Bytes → FmuInstanceData) where
  -- What n rows from byte j on add to the log.
  abbrev pub log_rows : ℕ → ℕ → FmuInstanceData → Bytes → FmuInstanceData
  log_rows zero j g buffer = g
  log_rows (suc n) j g buffer = log_rows n (j + 16) (log g (take 16 (drop j buffer))) buffer

  row_ends : (j len : ℕ) → len ≤ j + 16 → j + 16 < 2 ^ 32 → ltb ((j + 16) % 2 ^ 32) len ≡ false
  row_ends j len h k = ground arith

  row_goes_on :
      (j len : ℕ)
      → j + 16 < len
      → j + 16 < 2 ^ 32
      → (ltb ((j + 16) % 2 ^ 32) len ≡ true) × ((j + 16) % 2 ^ 32 ≡ j + 16)
  row_goes_on j len h k = (ground arith, omega arith)

  pub row_loop-log_rows :
      (n fuel j : ℕ) (g : FmuInstanceData) (len : ℕ) (buffer : Bytes)
      → n < fuel
      → j + 16 * n < suc (len - 1)
      → len ≤ j + 16 * n + 16
      → len ≤ log_limit
      → len ≤ length buffer
      → row_loop log fuel j g len buffer ≡ some (log_rows n j g buffer)
  unfolding row_loop
  row_loop-log_rows n zero j g len buffer f a b l k = absurd (omega (arith, f))
  row_loop-log_rows zero (suc fuel) j g len buffer f a b l k =
      rw (row_ends j len (omega arith) (omega arith)) refl
  row_loop-log_rows (suc n) (suc fuel) j g len buffer f a b l k =
      let (more, next) = row_goes_on j len (omega arith) (omega arith) in
      rw (more, next, copy_bytes-fits 16 (drop j buffer) (omega (arith, length-drop j buffer)))
        (row_loop-log_rows n fuel (j + 16) (log g (take 16 (drop j buffer))) len buffer
          (omega arith) (omega arith) (omega arith) l k)

module _ (api : TextApi) where
  -- For a variable of at most 2^32 - 16 bytes that lie in its buffer, and fuel for one turn more than
  -- there are rows, the loop of _log_binary_signal ends without a read behind the buffer, and has
  -- logged exactly the full rows of sixteen bytes behind which the variable has more bytes, in order;
  -- the last one to sixteen bytes are not logged.
  pub log_bytes-rows :
      (fuel : ℕ) (g : FmuInstanceData) (len : ℕ) (buffer : Bytes)
      → len ≤ log_limit
      → len ≤ length buffer
      → (len - 1) / 16 < fuel
      → log_bytes api fuel 0 g len buffer
        ≡ some (log_rows (log_row api) ((len - 1) / 16) 0 g buffer)
  unfolding log_bytes
  log_bytes-rows fuel g len buffer l k f =
      row_loop-log_rows (log_row api) ((len - 1) / 16) fuel 0 g len buffer f (omega arith)
        (omega arith) l k
