-- ===== src/Fmimcl/Engine.antt =====
-- dse/fmimcl/engine.c: the signal storage ("source") and the table of marshal groups of a model.
pub mod Table
pub mod Distinct
use dse_fmi.Common.{
  ℕ, zero, suc, ◌+◌, ◌*◌, Bool, not, ◌&&◌, ◌||◌, Option, none, some, List, [], ◌∷◌, ◌++◌, map,
  length, take, replicate, get_elem?, set, Bytes, codes, str_eq, leb, ◌==◌, if◌then◌else◌, ◌>>=◌,
}
use dse_fmi.Fmimcl.Signals.{MarshalApi, FmuSignal}

-- The pair dse_ascii85_encode / dse_ascii85_decode, the only one that is installed.
pub data StringFunc : Type 0 where
  ascii85 : StringFunc

-- struct MarshalGroup, as `_create_mg` fills it in (its name, made of kind, dir and type, and its
-- pointers to the source vectors, which all groups share, are left out). `none` is a NULL array.
pub record MarshalGroup : Type 0 where
  pub kind : ℕ
  pub dir : ℕ
  pub type : ℕ
  pub count : ℕ
  pub offset : ℕ
  pub ref : List ℕ
  pub ptr : List ℕ
  pub binary_len : Option (List ℕ)
  pub string_encode : Option (List (Option StringFunc))
  pub string_decode : Option (List (Option StringFunc))

-- struct FmuData. A double and a pointer are 8-byte words; calloc makes them 0.
pub record FmuData : Type 0 where
  pub count : ℕ
  pub name : List Bytes
  pub scalar : List ℕ
  pub binary_len : List ℕ
  pub kind : List ℕ
  pub mg_table : List MarshalGroup

unfoldable pub count_signals : List FmuSignal → ℕ
count_signals [] = 0
count_signals (s ∷ ss) = count_signals ss + 1

unfoldable pub allocate_source : List FmuSignal → FmuData
unfolding count_signals
allocate_source signals =
    let count = count_signals signals in
    record {
      count = count;
      name = map (λ s. s.name) signals;
      scalar = replicate count 0;
      binary_len = replicate count 0;
      kind = map (λ s. s.variable_kind) signals;
      mg_table = [];
    }

-- The locals of `fmimcl_generate_marshal_table`.
pub record Pending : Type 0 where
  pub kind : ℕ
  pub dir : ℕ
  pub type : ℕ
  pub count : ℕ
  pub offset : ℕ
  pub ref_list : List ℕ
  pub mg_list : List MarshalGroup

-- The marshal group of the signal is another one.
unfoldable pub changed : Pending → FmuSignal → Bool
changed p s =
    not (p.kind == s.variable_kind)
    || not (p.dir == s.variable_dir)
    || not (p.type == s.variable_type)

module _ (m : MarshalApi) where
  -- calloc for the groups of kind MARSHAL_KIND_BINARY, NULL for the others.
  abbrev pub binary_array {ℓ} : {A : Type ℓ} → ℕ → ℕ → A → Option (List A)
  binary_array kind count a = if kind == m.kind_binary then some (replicate count a) else none

  -- calloc(count, marshal_type_size(type)) has room for `count` references of four bytes each.
  abbrev pub has_ref_room : ℕ → ℕ → Bool
  has_ref_room count type = leb (count * 4) (count * m.type_bytes type)

  -- `none` is the failure of assert(count == hashlist_length(ref_list)), or a write of a reference
  -- behind the array.
  unfoldable pub create_mg : ℕ → ℕ → ℕ → ℕ → ℕ → List ℕ → Option MarshalGroup
  create_mg kind dir type count offset ref_list =
      if (count == length ref_list) && has_ref_room count type
      then some (record {
        kind = kind;
        dir = dir;
        type = type;
        count = count;
        offset = offset;
        ref = take count ref_list;
        ptr = replicate count 0;
        binary_len = binary_array kind count 0;
        string_encode = binary_array kind count none;
        string_decode = binary_array kind count none;
      })
      else none

  -- if (count) hashlist_append(&mg_list, _create_mg(...)): the new group is appended, and
  -- `_create_mg` clears the list of references.
  unfoldable pub emit : Pending → Option Pending
  unfolding create_mg
  emit p = if p.count == 0 then some p else (do
    mg ← create_mg p.kind p.dir p.type p.count p.offset p.ref_list
    some (record p { mg_list = p.mg_list ++ mg ∷ []; ref_list = [] }))

  unfoldable pub table_step : Pending → FmuSignal → Option Pending
  unfolding emit changed
  table_step p s =
      if changed p s
      then (do
        q ← emit p
        some (record q {
          offset = q.offset + q.count;
          kind = s.variable_kind;
          dir = s.variable_dir;
          type = s.variable_type;
          count = 1;
          ref_list = q.ref_list ++ s.variable_vref ∷ [];
        }))
      else some (record p { count = p.count + 1; ref_list = p.ref_list ++ s.variable_vref ∷ [] })

  unfoldable pub table_loop : Pending → List FmuSignal → Option Pending
  unfolding table_step
  table_loop p [] = some p
  table_loop p (s ∷ ss) = do q ← table_step p s; table_loop q ss

  abbrev pub no_group : Pending
  no_group = record {
    kind = m.kind_none;
    dir = m.dir_none;
    type = m.type_none;
    count = 0;
    offset = 0;
    ref_list = [];
    mg_list = [];
  }

  unfoldable pub generate_marshal_table : List FmuSignal → Option (List MarshalGroup)
  unfolding table_loop
  generate_marshal_table signals = do p ← table_loop no_group signals; q ← emit p; some q.mg_list
