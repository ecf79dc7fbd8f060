-- ===== src/Fmimcl/Adapter/Writes.antt =====
-- fmi2mcl_marshal_out: what the FMU has after the groups were written.
use dse_fmi.Common.{
  ℕ, ◌≡◌, ◌≢◌, ◌⊎◌, Bool, true, ◌&&◌, List, [], ◌∷◌, map, length, All, Pairs, ◌==◌, if◌then◌else◌,
}
use dse_fmi.Fmimcl.Signals.{MarshalApi}
use dse_fmi.Fmimcl.Engine.{MarshalGroup}
use dse_fmi.Fmimcl.Adapter.{Fmi2Api, is_written, set_group}
use dse_fmi.Fmimcl.Adapter.Assign.{listed, assign}

module _ (f : Fmi2Api) (m : MarshalApi) where
  open f use {Inst}

  -- The FMU has a variable for each type and reference; a set function succeeds and assigns the
  -- values to the variables of its type, and changes no other.
  abbrev Sets : (Inst → ℕ → ℕ → ℕ) → ℕ → (Inst → List ℕ → ℕ → List ℕ → ℕ × Inst) → Type 0
  Sets value type set =
      (i : Inst) (r : List ℕ) (n : ℕ) (v : List ℕ)
      → ((set i r n v).0 ≡ 0)
        × ((t q : ℕ)
            → value (set i r n v).1 t q
              ≡ (if t == type then assign r v (value i t) q else value i t q))

  pub record IsMemory (value : Inst → ℕ → ℕ → ℕ) : Type 0 where
    pub real : Sets value m.type_double f.set_real
    pub integer : Sets value m.type_int32 f.set_integer
    pub boolean : Sets value m.type_bool f.set_boolean
    pub string : Sets value m.type_string f.set_string

  -- The type is one that fmi2mcl_marshal_out has a set function for.
  abbrev pub is_typed : MarshalGroup → Bool
  is_typed mg =
      if mg.type == m.type_double
      then true
      else if mg.type == m.type_int32
      then true
      else if mg.type == m.type_bool
      then true
      else mg.type == m.type_string

  -- The directions of the groups that go to the FMU.
  abbrev to_fmu : List ℕ
  to_fmu = m.dir_txrx ∷ m.dir_txonly ∷ m.dir_parameter ∷ []

  abbrev pub is_delivered : MarshalGroup → Bool
  is_delivered mg = listed mg.dir to_fmu && is_typed mg

  -- The calls for a group: it succeeds, and these are the variables then.
  abbrev Effect : (Inst → ℕ → ℕ → ℕ) → Inst → Bool → MarshalGroup → ℕ × Inst → Type 0
  Effect value i b mg r =
      (r.0 ≡ 0)
      × ((t q : ℕ)
          → value r.1 t q
            ≡ (if b && t == mg.type then assign mg.ref mg.ptr (value i t) q else value i t q))

  abbrev written : Inst → MarshalGroup → ℕ × Inst
  written i mg = if is_written m mg then set_group f m mg i else (0, i)

  -- The group does not assign to the variable.
  abbrev Spares : MarshalGroup → ℕ → ℕ → Type 0
  Spares mg t q = (mg.type ≢ t) ⊎ All (λ r. r ≢ q) mg.ref

  -- What is asked of the delivered groups: as many values as references, and no variable twice.
  abbrev pub IsTarget : MarshalGroup → Type 0
  IsTarget mg = Pairs ◌≢◌ mg.ref × (length mg.ref ≡ length mg.ptr)

  abbrev pub Apart : MarshalGroup → MarshalGroup → Type 0
  Apart a b = All (λ q. Spares b a.type q) a.ref

  -- The values that the FMU has for the references of a delivered group.
  abbrev pub received : (Inst → ℕ → ℕ → ℕ) → Inst → MarshalGroup → List ℕ
  received value i g = if is_delivered g then map (value i g.type) g.ref else g.ptr
