-- ===== src/Fmu/Fmi3/Steps.antt =====
-- fmi3DoStep: the variable table mirrors the signals, as for FMI 2.
use dse_fmi.Common.{ℕ, ◌+◌, ◌≡◌, ◌↔◌, false, List, [], All}
use dse_fmi.Fmu.Instance.{FmuInstanceData}
use dse_fmi.Fmu.Binary.{TextApi}
use dse_fmi.Fmu.Step.{ListApi, ModelStep, register_var_table, enter_step, leave_step, do_step}
use dse_fmi.Fmu.Step.Mirror.{Variable, IsRegistered, IsDistinct, register_all, do_step-mirrors}
use dse_fmi.Fmu.Fmi3.{fmi3_do_step}

module _ (l : ListApi) (api : TextApi) where
  -- The variables of an FMU are registered, each under a value reference whose signal is stored in a
  -- cell of its own, and then their table, none of whose doubles is such a cell. When fmi3DoStep
  -- calls the model, each variable in the table has the value of its signal; after the step, if the
  -- model left the list of registered variables alone, each signal has the value that the model left
  -- in its variable; the binary signals count as not reset; and the status is fmi3OK exactly if the
  -- model returned 0.
  pub fmi3_do_step-mirrors :
      (fmu : FmuInstanceData) (vars : List Variable) (table : ℕ) (model : ModelStep)
      (time step_size : ℕ)
      → fmu.var_list ≡ []
      → All (IsRegistered l fmu) vars
      → IsDistinct table vars
      → ((g : FmuInstanceData) → (model g time step_size).0.marshal_list ≡ g.marshal_list)
      → let ready = register_var_table l (register_all l fmu vars) table in
        let entered = enter_step api ready in
        let left = (model entered time step_size).0 in
        let (after, status) = fmi3_do_step api model ready time step_size in
        All (λ v. entered.memory (table + v.offset) ≡ fmu.memory v.cell) vars
        × All (λ v. after.memory v.cell ≡ left.memory (table + v.offset)) vars
        × (after.signals_reset ≡ false)
        × ((status ≡ 0) ↔ ((model entered time step_size).1 ≡ 0))
  unfolding fmi3_do_step do_step enter_step leave_step
  fmi3_do_step-mirrors fmu vars table model time step_size e h d k =
      do_step-mirrors l api fmu vars table model time step_size e h d k
