-- ===== src/Fmu/Step/Mirror.antt =====
-- The variable table around a step: the model reads the signals in its variables, and what it leaves
-- in them is written to the signals.
use dse_fmi.Common.{
  ℕ, ◌+◌, ◌-◌, ◌≡◌, ◌≢◌, ◌↔◌, refl, sym, ◌∙◌, ap, subst, Bool, false, some, List, [], ◌∷◌, ◌++◌,
  map, foldl, take, All, Pairs, hashmap_get, append-nil, append_assoc, if◌then◌else◌, arith,
}
use dse_fmi.Fmu.Vref.{print_int}
use dse_fmi.Fmu.Instance.{FmuInstanceData, MarshalItem}
use dse_fmi.Fmu.Binary.{TextApi}
use dse_fmi.Fmu.Step.{
  ListApi, ModelStep, add_item, register_var, correct, register_var_table, enter_step, leave_step,
  do_step,
}
use dse_fmi.Fmu.Step.Copies.{
  IsCopy, nonzero, reset-marshal_list, enter_step-values, leave_step-values,
}

-- A registered variable: `cell` is where its signal is stored.
pub record Variable : Type 0 where
  pub vref : ℕ
  pub input : Bool
  pub offset : ℕ
  pub cell : ℕ

abbrev item : Variable → MarshalItem
item v = record { variable = v.offset; signal = v.cell }

-- The item of the variable in a table at the address.
abbrev pub bound : ℕ → Variable → MarshalItem
bound table v = record { variable = table + v.offset; signal = v.cell }

abbrev pub IsDistinct : ℕ → List Variable → Type 0
IsDistinct table vars =
    All (λ v. (v.cell ≢ 0) × (table + v.offset ≢ 0)) vars
    × Pairs
        (λ a b.
          (a.cell ≢ b.cell)
          × (a.offset ≢ b.offset)
          × (table + a.offset ≢ b.cell)
          × (a.cell ≢ table + b.offset))
        vars

correct-bound :
    (table : ℕ) (vars : List Variable)
    → All (λ v. (v.cell ≢ 0) × (table + v.offset ≢ 0)) vars
    → correct table (map item vars) ≡ map (bound table) vars
unfolding correct
correct-bound table [] h = refl
correct-bound table (v ∷ vars) h =
    rw (nonzero v.cell h.0.0)
      (ap (λ (items : List MarshalItem). bound table v ∷ items) (correct-bound table vars h.1))

map-All :
    {A B : Type 0} (f : A → B) (P : A → Type 0) (Q : B → Type 0) (xs : List A)
    → ((a : A) → P a → Q (f a))
    → All P xs
    → All Q (map f xs)
map-All f P Q [] k h = tt
map-All f P Q (x ∷ xs) k h = (k x h.0, map-All f P Q xs k h.1)

All-map_back :
    {A B : Type 0} (f : A → B) (Q : B → Type 0) (xs : List A)
    → All Q (map f xs)
    → All (λ a. Q (f a)) xs
All-map_back f Q [] h = tt
All-map_back f Q (x ∷ xs) h = (h.0, All-map_back f Q xs h.1)

item-IsCopy :
    (table : ℕ) (vars : List Variable)
    → IsDistinct table vars
    → IsCopy (λ mi. mi.variable) (λ mi. mi.signal) (map (bound table) vars)
      × IsCopy (λ mi. mi.signal) (λ mi. mi.variable) (map (bound table) vars)
item-IsCopy table [] h = ((tt, tt), (tt, tt))
item-IsCopy table (v ∷ vars) h =
    let (one, two) = item-IsCopy table vars (h.0.1, h.1.1) in
    (
      (
        (map-All (bound table) _ _ vars (λ w n. (λ e. n.1 (omega (arith, e)), n.2)) h.1.0, one.0),
        (h.0.0.1, one.1),
      ),
      ((map-All (bound table) _ _ vars (λ w n. (n.0, n.3)) h.1.0, two.0), (h.0.0.1, two.1)),
    )

append_items : FmuInstanceData → List MarshalItem → FmuInstanceData
append_items fmu items = record fmu { var_list = fmu.var_list ++ items }

module _ (l : ListApi) where
  abbrev pub IsRegistered : FmuInstanceData → Variable → Type 0
  IsRegistered fmu v =
      hashmap_get (if v.input then fmu.scalar_input else fmu.scalar_output)
        (take (l.hashlist_key_len - 1) (print_int v.vref))
      ≡ some v.cell

  abbrev pub register_all : FmuInstanceData → List Variable → FmuInstanceData
  register_all = foldl (λ g v. register_var l g v.vref v.input v.offset)

  register_var-item :
      (fmu : FmuInstanceData) (v : Variable)
      → IsRegistered fmu v
      → register_var l fmu v.vref v.input v.offset ≡ append_items fmu (item v ∷ [])
  unfolding register_var append_items
  register_var-item fmu v e = ap (add_item l fmu v.offset) e

  register_all-items :
      (vars : List Variable) (fmu : FmuInstanceData)
      → All (IsRegistered fmu) vars
      → register_all fmu vars ≡ append_items fmu (map item vars)
  unfolding append_items
  register_all-items [] fmu h =
      ap (λ items. record fmu { var_list = items }) (sym (append-nil fmu.var_list))
  register_all-items (v ∷ vars) fmu h =
      ap (λ g. register_all g vars) (register_var-item fmu v h.0)
      ∙ register_all-items vars (append_items fmu (item v ∷ [])) h.1
      ∙ ap (λ items. record fmu { var_list = items })
          (append_assoc fmu.var_list (item v ∷ []) (map item vars))

  ready_list :
      (fmu : FmuInstanceData) (vars : List Variable) (table : ℕ)
      → fmu.var_list ≡ []
      → All (IsRegistered fmu) vars
      → All (λ v. (v.cell ≢ 0) × (table + v.offset ≢ 0)) vars
      → (register_var_table l (register_all fmu vars) table).marshal_list ≡ map (bound table) vars
  unfolding register_var_table append_items
  ready_list fmu vars table e h n =
      ap (correct table) (
        l.ntl_eq _
        ∙ ap (λ g. g.var_list) (register_all-items vars fmu h)
        ∙ ap (λ items. items ++ map item vars) e)
      ∙ correct-bound table vars n

  ready_memory :
      (fmu : FmuInstanceData) (vars : List Variable) (table : ℕ)
      → All (IsRegistered fmu) vars
      → (register_var_table l (register_all fmu vars) table).memory ≡ fmu.memory
  unfolding register_var_table append_items
  ready_memory fmu vars table h = ap (λ g. g.memory) (register_all-items vars fmu h)

  module _ (api : TextApi) where
    -- The variables of an FMU are registered, each under a value reference whose signal is stored
    -- in a cell of its own, and then their table, none of whose doubles is such a cell. When
    -- fmi2DoStep calls the model, each variable in the table has the value of its signal; after
    -- the step, if the model left the list of registered variables alone, each signal has the value
    -- that the model left in its variable; the binary signals count as not reset; and the status is
    -- fmi2OK exactly if the model returned 0.
    pub do_step-mirrors :
        (fmu : FmuInstanceData) (vars : List Variable) (table : ℕ) (model : ModelStep)
        (time step_size : ℕ)
        → fmu.var_list ≡ []
        → All (IsRegistered fmu) vars
        → IsDistinct table vars
        → ((g : FmuInstanceData) → (model g time step_size).0.marshal_list ≡ g.marshal_list)
        → let ready = register_var_table l (register_all fmu vars) table in
          let entered = enter_step api ready in
          let left = (model entered time step_size).0 in
          let (after, status) = do_step api model ready time step_size in
          All (λ v. entered.memory (table + v.offset) ≡ fmu.memory v.cell) vars
          × All (λ v. after.memory v.cell ≡ left.memory (table + v.offset)) vars
          × (after.signals_reset ≡ false)
          × ((status ≡ 0) ↔ ((model entered time step_size).1 ≡ 0))
    unfolding do_step enter_step leave_step
    do_step-mirrors fmu vars table model time step_size e h d k =
        let ready : FmuInstanceData = register_var_table l (register_all fmu vars) table in
        let entered : FmuInstanceData = enter_step api ready in
        let left : FmuInstanceData = (model entered time step_size).0 in
        let list : ready.marshal_list ≡ map (bound table) vars =
          ready_list fmu vars table e h d.0 in
        let (into, out) = item-IsCopy table vars d in
        let kept : left.marshal_list ≡ map (bound table) vars =
          k entered ∙ reset-marshal_list api ready ∙ list in
        (
          subst (λ m. All (λ v. entered.memory (table + v.offset) ≡ m v.cell) vars)
              (ready_memory fmu vars table h)
              (All-map_back (bound table) _ vars
                (enter_step-values api ready (map (bound table) vars) list into)),
          All-map_back (bound table) _ vars
              (leave_step-values left (map (bound table) vars) kept out),
          refl,
          ground arith,
        )
