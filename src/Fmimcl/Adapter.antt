-- ===== src/Fmimcl/Adapter.antt =====
-- dse/fmimcl/adapter/fmi2mcl.c: the calls of an FMI 2 FMU. The error numbers are those of Linux.
pub mod Reads
pub mod Assign
pub mod Writes
use dse_fmi.Common.{ℕ, ◌-◌, Bool, ◌||◌, Option, none, some, List, [], ◌∷◌, ltb, ◌==◌, if◌then◌else◌}
use dse_fmi.Fmimcl.Signals.{MarshalApi}
use dse_fmi.Fmimcl.Engine.{MarshalGroup, FmuData}

abbrev pub einval : ℕ
einval = 22

abbrev pub ebadmsg : ℕ
ebadmsg = 74

-- The functions of the FMU (the vtable of struct Fmi2Adapter), on the state of its instance. A get
-- call is given the references, their number and what the target holds, and returns a status, what
-- the target holds then, and the state; `marshal_group_in` and `marshal_group_out` of dse.clib move
-- values between the targets of the groups and the source vectors; `minus` is the subtraction of
-- doubles.
pub record Fmi2Api : Type 1 where
  pub Inst : Type 0
  pub instantiate : Option Inst
  pub enter_initialization : Inst → ℕ × Inst
  pub exit_initialization : Inst → ℕ × Inst
  pub get_real : Inst → List ℕ → ℕ → List ℕ → ℕ × List ℕ × Inst
  pub get_integer : Inst → List ℕ → ℕ → List ℕ → ℕ × List ℕ × Inst
  pub get_boolean : Inst → List ℕ → ℕ → List ℕ → ℕ × List ℕ × Inst
  pub get_string : Inst → List ℕ → ℕ → List ℕ → ℕ × List ℕ × Inst
  pub set_real : Inst → List ℕ → ℕ → List ℕ → ℕ × Inst
  pub set_integer : Inst → List ℕ → ℕ → List ℕ → ℕ × Inst
  pub set_boolean : Inst → List ℕ → ℕ → List ℕ → ℕ × Inst
  pub set_string : Inst → List ℕ → ℕ → List ℕ → ℕ × Inst
  pub do_step : Inst → ℕ → ℕ → ℕ × Inst
  pub minus : ℕ → ℕ → ℕ
  pub marshal_group_in : FmuData → FmuData
  pub marshal_group_out : FmuData → FmuData

module _ (m : MarshalApi) where
  -- The groups that fmi2mcl_marshal_in reads.
  unfoldable pub is_read : MarshalGroup → Bool
  is_read mg = mg.dir == m.dir_txrx || mg.dir == m.dir_rxonly || mg.dir == m.dir_local

  -- The groups that fmi2mcl_marshal_out writes.
  unfoldable pub is_written : MarshalGroup → Bool
  is_written mg = mg.dir == m.dir_txrx || mg.dir == m.dir_txonly || mg.dir == m.dir_parameter

module _ (f : Fmi2Api) where
  open f use {Inst}

  -- After a successful start: the instance.
  abbrev entered : ℕ × Inst → ℕ × Option Inst
  entered (rc, i) =
      if ltb 0 rc
      then (rc, some i)
      else (let (rc', i') = f.exit_initialization i in (if ltb 0 rc' then rc' else 0, some i'))

  abbrev started : Option Inst → ℕ × Option Inst
  started none = (einval, none)
  started (some i) = entered (f.enter_initialization i)

  unfoldable pub mcl_init : ℕ × Option Inst
  mcl_init = started f.instantiate

  -- The times are the words of doubles; the model time is the third part of the result.
  unfoldable pub mcl_step : Inst → ℕ → ℕ → ℕ × Inst × ℕ
  mcl_step i model_time end_time =
      let (rc, i') = f.do_step i model_time (f.minus end_time model_time) in
      if ltb 0 rc then (ebadmsg, i', model_time) else (0, i', end_time)

  module _ (m : MarshalApi) where
    -- The switch over the type; other types are skipped.
    unfoldable pub get_group : MarshalGroup → Inst → ℕ × List ℕ × Inst
    get_group mg i =
        if mg.type == m.type_double
        then f.get_real i mg.ref mg.count mg.ptr
        else if mg.type == m.type_int32
        then f.get_integer i mg.ref mg.count mg.ptr
        else if mg.type == m.type_bool
        then f.get_boolean i mg.ref mg.count mg.ptr
        else if mg.type == m.type_string
        then f.get_string i mg.ref mg.count mg.ptr
        else (0, mg.ptr, i)

    unfoldable pub set_group : MarshalGroup → Inst → ℕ × Inst
    set_group mg i =
        if mg.type == m.type_double
        then f.set_real i mg.ref mg.count mg.ptr
        else if mg.type == m.type_int32
        then f.set_integer i mg.ref mg.count mg.ptr
        else if mg.type == m.type_bool
        then f.set_boolean i mg.ref mg.count mg.ptr
        else if mg.type == m.type_string
        then f.set_string i mg.ref mg.count mg.ptr
        else (0, i)

    -- The loop of fmi2mcl_marshal_in: what it returns, the groups and the state of the FMU.
    unfoldable pub read_groups : List MarshalGroup → Inst → ℕ × List MarshalGroup × Inst
    unfolding is_read get_group
    read_groups [] i = (0, [], i)
    read_groups (mg ∷ groups) i =
        let (rc, ptr, i') = (if is_read m mg then get_group mg i else (0, mg.ptr, i)) in
        let (rc', rest, i'') = read_groups groups i' in
        if ltb 0 rc
        then (ebadmsg, record mg { ptr = ptr } ∷ groups, i')
        else (rc', record mg { ptr = ptr } ∷ rest, i'')

    -- marshal_group_in follows if the loop did not return.
    unfoldable pub marshal_in : FmuData → Inst → ℕ × FmuData × Inst
    unfolding read_groups
    marshal_in d i =
        let (rc, groups, i') = read_groups d.mg_table i in
        let read : FmuData = record d { mg_table = groups } in
        (rc, if rc == 0 then f.marshal_group_in read else read, i')

    -- The loop of fmi2mcl_marshal_out.
    unfoldable pub write_groups : List MarshalGroup → Inst → ℕ × Inst
    unfolding is_written set_group
    write_groups [] i = (0, i)
    write_groups (mg ∷ groups) i =
        let (rc, i') = (if is_written m mg then set_group mg i else (0, i)) in
        let rest = write_groups groups i' in if ltb 0 rc then (ebadmsg, i') else rest

    unfoldable pub marshal_out : FmuData → Inst → ℕ × FmuData × Inst
    unfolding write_groups
    marshal_out d i =
        let out = f.marshal_group_out d in
        let (rc, i') = write_groups out.mg_table i in (rc, out, i')
