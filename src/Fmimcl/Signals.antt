-- ===== src/Fmimcl/Signals.antt =====
-- The signals of the FMI MCL (struct FmuSignal of dse/fmimcl/fmimcl.h), and what it takes from
-- dse.clib's marshal.h: the enumerators of MarshalKind, MarshalDir and MarshalType, and the bytes of a
-- value of a type (marshal_type_size). They are not part of this repository, so they are fields of a record; `IsEnum` says that enumerators
-- are distinct and that the `__..._SIZE__` enumerator comes last.
use dse_fmi.Common.{ℕ, ◌<◌, ◌≢◌, Option, List, [], ◌∷◌, Bytes, Pairs}

pub record MarshalApi : Type 0 where
  pub kind_none : ℕ
  pub kind_primitive : ℕ
  pub kind_binary : ℕ
  pub kind_size : ℕ
  pub dir_none : ℕ
  pub dir_txrx : ℕ
  pub dir_rxonly : ℕ
  pub dir_txonly : ℕ
  pub dir_local : ℕ
  pub dir_parameter : ℕ
  pub type_none : ℕ
  pub type_double : ℕ
  pub type_int32 : ℕ
  pub type_bool : ℕ
  pub type_string : ℕ
  pub type_size : ℕ
  pub type_bytes : ℕ → ℕ

pub record FmuSignal : Type 0 where
  pub name : Bytes
  pub variable_vref : ℕ
  pub variable_name : Option Bytes
  pub variable_kind : ℕ
  pub variable_dir : ℕ
  pub variable_type : ℕ
  pub variable_annotation_encoding : Option Bytes

-- mDirOrder of `_sort_by_marshal_group`.
abbrev pub dir_order : MarshalApi → List ℕ
dir_order m =
    m.dir_none ∷ m.dir_local ∷ m.dir_rxonly ∷ m.dir_txrx ∷ m.dir_txonly ∷ m.dir_parameter ∷ []

pub record IsEnum (m : MarshalApi) : Type 0 where
  pub kinds_distinct : Pairs ◌≢◌ (m.kind_none ∷ m.kind_primitive ∷ m.kind_binary ∷ [])
  pub kind_none_below : m.kind_none < m.kind_size
  pub kind_primitive_below : m.kind_primitive < m.kind_size
  pub kind_binary_below : m.kind_binary < m.kind_size
  pub dirs_distinct : Pairs ◌≢◌ (dir_order m)
  pub type_none_below : m.type_none < m.type_size
  pub type_double_below : m.type_double < m.type_size
  pub type_int32_below : m.type_int32 < m.type_size
  pub type_bool_below : m.type_bool < m.type_size
  pub type_string_below : m.type_string < m.type_size
