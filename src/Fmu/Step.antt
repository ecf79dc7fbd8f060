-- ===== src/Fmu/Step.antt =====
-- fmi2DoStep of dse/fmu/fmi2fmu.c, and the variable table of dse/fmu/signal.c, whose variables it
-- mirrors in the signals.
pub mod Copies
pub mod Mirror
use dse_fmi.Common.{
  ℕ, ◌+◌, ◌-◌, ◌≡◌, Bool, false, Option, none, some, List, [], ◌∷◌, ◌++◌, take, hashmap_get, ◌==◌,
  if◌then◌else◌,
}
use dse_fmi.Fmu.Vref.{print_int}
use dse_fmi.Fmu.Instance.{FmuInstanceData, MarshalItem, store, log_ok, log_error}
use dse_fmi.Fmu.Binary.{TextApi, signals_reset}

-- What the functions use of the hash lists of dse.clib: the length of a key, and hashlist_ntl, which
-- makes a table of the entries of a list, with what it leaves of the list.
pub record ListApi : Type 0 where
  pub hashlist_key_len : ℕ
  pub ntl : List MarshalItem → List MarshalItem
  pub ntl_rest : List MarshalItem → List MarshalItem
  pub ntl_eq : (l : List MarshalItem) → ntl l ≡ l

-- fmu_step of the FMU: the model's own code, which may change the instance.
abbrev pub ModelStep : Type 0
ModelStep = FmuInstanceData → ℕ → ℕ → FmuInstanceData × ℕ

-- The loop ends at a NULL signal.
unfoldable pub correct : ℕ → List MarshalItem → List MarshalItem
correct table [] = []
correct table (mi ∷ items) =
    let rest = correct table items in
    if mi.signal == 0 then mi ∷ items else record mi { variable = table + mi.variable } ∷ rest

module _ (l : ListApi) where
  abbrev add_item : FmuInstanceData → ℕ → Option ℕ → FmuInstanceData
  add_item fmu offset none = fmu
  add_item fmu offset (some p) = record fmu {
    var_list = fmu.var_list ++ record { variable = offset; signal = p } ∷ [];
  }

  -- The value that the function returns is 0 always.
  unfoldable pub register_var : FmuInstanceData → ℕ → Bool → ℕ → FmuInstanceData
  register_var fmu vref input offset =
      let key = take (l.hashlist_key_len - 1) (print_int vref) in
      add_item fmu offset (hashmap_get (if input then fmu.scalar_input else fmu.scalar_output) key)

  unfoldable pub register_var_table : FmuInstanceData → ℕ → FmuInstanceData
  unfolding correct
  register_var_table fmu table = record fmu {
    table = some table;
    marshal_list = correct table (l.ntl fmu.var_list);
    var_list = l.ntl_rest fmu.var_list;
  }

-- *mi->dst = *mi->src for each item; the loop ends at a NULL variable.
unfoldable pub copies : (MarshalItem → ℕ) → (MarshalItem → ℕ) → List MarshalItem → (ℕ → ℕ) → (ℕ → ℕ)
copies dst src [] memory = memory
copies dst src (mi ∷ items) memory =
    let rest = copies dst src items (store memory (dst mi) (memory (src mi))) in
    if mi.variable == 0 then memory else rest

-- What follows the call of the model in fmi2DoStep.
unfoldable pub leave_step : FmuInstanceData → FmuInstanceData
unfolding copies
leave_step g = record g {
  memory = copies (λ mi. mi.signal) (λ mi. mi.variable) g.marshal_list g.memory;
  signals_reset = false;
}

module _ (api : TextApi) where
  -- The state in which fmi2DoStep calls the model.
  unfoldable pub enter_step : FmuInstanceData → FmuInstanceData
  unfolding copies
  enter_step fmu =
      let g = signals_reset api fmu in
      record g { memory = copies (λ mi. mi.variable) (λ mi. mi.signal) g.marshal_list g.memory }

  unfoldable pub do_step : ModelStep → FmuInstanceData → ℕ → ℕ → FmuInstanceData × ℕ
  unfolding enter_step leave_step
  do_step model fmu time step_size =
      let (g, rc) = model (enter_step fmu) time step_size in
      (leave_step g, if rc == 0 then log_ok else log_error)
