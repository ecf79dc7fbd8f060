-- ===== src/Fmu/Instance.antt =====
-- struct FmuInstanceData of dse/fmu/fmu.h, and the log of dse/fmu/fmi2fmu.c.
-- A double is the 64-bit word of its representation. A `double*` is an address, and the memory maps
-- addresses to doubles; two doubles that overlap in part are not represented.
use Prim.Native.Nat.{bit_and, bit_or}
use dse_fmi.Common.{
  ℕ, Bool, true, false, not, ◌&&◌, ◌||◌, Option, none, some, List, [], ◌∷◌, ◌++◌, foldl, Bytes,
  codes, str_eq, HashMap, ◌==◌, if◌then◌else◌,
}
use dse_fmi.Fmu.Stream.{BinarySignal}

-- The pair dse_ascii85_encode / dse_ascii85_decode, the only EncodeFunc and DecodeFunc.
pub data TextCodec : Type 0 where
  ascii85 : TextCodec

-- What the logger callback receives.
pub record LogMessage : Type 0 where
  pub status : ℕ
  pub category : Bytes
  pub message : Bytes

-- One element of the arrays of the binary signal vectors; `ncodec` says that its codec is open.
pub record BinaryVariable : Type 0 where
  pub signal : BinarySignal
  pub ncodec : Bool

-- struct FmuVarTableMarshalItem: two addresses.
pub record MarshalItem : Type 0 where
  pub variable : ℕ
  pub signal : ℕ

-- direct_index, when its map is set.
pub record DirectIndex : Type 0 where
  pub map : ℕ
  pub size : ℕ

pub record FmuInstanceData : Type 0 where
  pub name : Bytes
  pub version : ℕ
  pub resource_location : Bytes
  pub log_enabled : Bool
  pub log_categories : ℕ
  pub logged : List LogMessage
  pub scalar_input : HashMap ℕ
  pub scalar_output : HashMap ℕ
  pub string_input : HashMap Bytes
  pub binary_rx : HashMap ℕ
  pub binary_tx : HashMap ℕ
  pub encode_func : HashMap TextCodec
  pub decode_func : HashMap TextCodec
  pub free_list : List Bytes
  pub signals_reset : Bool
  pub memory : ℕ → ℕ
  pub binaries : List BinaryVariable
  pub table : Option ℕ
  pub var_list : List MarshalItem
  pub marshal_list : List MarshalItem
  pub direct_index : Option DirectIndex

-- A store of a double at an address.
abbrev pub store : (ℕ → ℕ) → ℕ → ℕ → ℕ → ℕ
store memory p v q = if p == q then v else memory q

-- FmiLogStatus and fmi2Status.
abbrev pub log_ok : ℕ
log_ok = 0

abbrev pub log_error : ℕ
log_error = 3

-- _fmi_log_category_map, and FmiLogCategory_All.
abbrev pub category_map : List (Bytes × ℕ)
category_map =
    (codes "Trace", 1)
    ∷ (codes "Debug", 2)
    ∷ (codes "Info", 4)
    ∷ (codes "Error", 8)
    ∷ (codes "Fatal", 16)
    ∷ (codes "All", 32)
    ∷ []

abbrev pub category_all : ℕ
category_all = 32

-- The first entry of the name; `none` where the loop ends without one.
unfoldable pub category_flag : List (Bytes × ℕ) → Bytes → Option ℕ
category_flag [] name = none
category_flag ((n, flag) ∷ rest) name = if str_eq n name then some flag else category_flag rest name

abbrev pub flag_or : ℕ → Option ℕ → ℕ
flag_or d none = d
flag_or d (some f) = f

-- The guards of `fmu_log`: logging is on, a category is set, and the category of the message is one
-- of them, or all are. `none` is a NULL category.
unfoldable pub log_passes : FmuInstanceData → Option Bytes → Bool
unfolding category_flag
log_passes fmu none = false
log_passes fmu (some category) =
    fmu.log_enabled
    && not (fmu.log_categories == 0)
    && (not (bit_and fmu.log_categories category_all == 0)
        || not (bit_and fmu.log_categories (flag_or 0 (category_flag category_map category)) == 0))

-- The message text stands for what vsnprintf makes of the format and its arguments.
unfoldable pub fmu_log : FmuInstanceData → ℕ → Bytes → Bytes → FmuInstanceData
unfolding log_passes
fmu_log fmu status category message =
    if log_passes fmu (some category)
    then record fmu {
      logged =
          fmu.logged ++ record { status = status; category = category; message = message } ∷ [];
    }
    else fmu

-- log_categories |= flag, in a uint16_t that the flags fit in.
unfoldable pub add_category : ℕ → Bytes → ℕ
unfolding category_flag
add_category mask name = bit_or mask (flag_or 0 (category_flag category_map name))

-- fmi2SetDebugLogging
unfoldable pub set_debug_logging : Bool → List Bytes → FmuInstanceData → FmuInstanceData
unfolding add_category
set_debug_logging on categories fmu =
    if on
    then record fmu { log_enabled = true; log_categories = foldl add_category 0 categories }
    else record fmu { log_enabled = false; log_categories = 0 }
