-- ===== src/Fmu/Fmi3/Tests.antt =====
-- Runs of the functions of FMI 3.
use dse_fmi.Common.{
  ℕ, zero, suc, ◌+◌, ◌≤◌, ◌≡◌, ◌↔◌, refl, true, false, Option, none, some, List, [], ◌∷◌, map,
  get_elem?, All, codes, hashmap_get, str_eq, if◌then◌else◌, ap, sym, Returns, arith, Bool,
}
use dse_fmi.Fmu.Instance.{FmuInstanceData, BinaryVariable}
use dse_fmi.Fmu.Binary.Takes.{held, extend, IsSound, size_of, received}
use dse_fmi.Fmu.Binary.Rows.{IsLoggable}
use dse_fmi.Fmu.Binary.{decoded}
use dse_fmi.Fmu.Vref.{digits, decimal, print_int, vref_key}
use dse_fmi.Fmu.Binary.Append.{kept}
use dse_fmi.Fmu.Binary.Answers.{OnlyTexts}
use dse_fmi.Fmu.Scalar.{get_real, set_real}
use dse_fmi.Fmu.Step.{register_var_table, enter_step}
use dse_fmi.Fmu.Step.Mirror.{register_all}
use dse_fmi.Fmu.Tests.{
  fmu, text, lists, variable, table_variables, increment, are-IsRegistered, received-InVector,
  set_texts, sender,
}
use dse_fmi.Fmu.Fmi3.{get_float64, set_float64, get_binary, set_binary, fmi3_do_step}
use dse_fmi.Fmu.Fmi3.Floats.{get_float64-get_real}
use dse_fmi.Fmu.Fmi3.Receives.{length_limit, set_binary-received}
use dse_fmi.Fmu.Fmi3.Sends.{returned, sent, IsSendable, get_binary-sent}
use dse_fmi.Fmu.Fmi3.Steps.{fmi3_do_step-mirrors}

abbrev asked : List (ℕ × ℕ)
asked = (1, 7) ∷ (9, 7) ∷ []

get_float64-get_real_example :
    ((get_float64 fmu asked).1 ≡ (get_real fmu asked).1)
    × ((set_float64 fmu asked).memory ≡ (set_real fmu asked).memory)
get_float64-get_real_example = get_float64-get_real fmu asked

set_texts-fit :
    (p : ℕ)
    → size_of (
        extend
          (kept text false (get_elem? fmu.binaries p))
          (received text fmu.binary_rx fmu.decode_func p set_texts))
      ≤ length_limit
unfolding hashmap_get vref_key print_int decimal digits str_eq decoded
set_texts-fit zero = omega arith
set_texts-fit (suc p) = omega arith

set_binary-received_example : Returns (set_binary text fmu set_texts) (λ after.
    ((p : ℕ)
      → held (get_elem? after.binaries p)
        ≡ extend
            (kept text false (get_elem? fmu.binaries p))
            (received text fmu.binary_rx fmu.decode_func p set_texts))
    × All IsSound after.binaries
    × (after ≡ record fmu { binaries = after.binaries; signals_reset = true }))
set_binary-received_example =
    set_binary-received text fmu set_texts (omega arith, tt) received-InVector set_texts-fit

-- The variable of the sender without an encoder.
abbrev plain : FmuInstanceData
plain = record sender { encode_func = [] }

plain-IsSendable : IsSendable plain
unfolding hashmap_get
plain-IsSendable key p = found (str_eq (codes "6") key)
  where
    found :
        (b : Bool)
        → (if b then some 0 else none) ≡ some p
        → (v : BinaryVariable) × (get_elem? plain.binaries p ≡ some v) × IsLoggable v.signal
    found true e = (
      variable (7 ∷ 8 ∷ []),
      ap
          (λ o. elim o as (λ _. Option BinaryVariable) [
            | none ↦ none
            | some q ↦ get_elem? plain.binaries q
          ])
          (sym e),
      (omega arith, omega arith),
    )
    found false e = absurd (ground (arith, e))

get_binary-sent_example : Returns (get_binary text plain ((6, 0) ∷ (7, 5) ∷ [])) (λ r.
    (r.1 ≡ map (sent text plain) ((6, 0) ∷ (7, 5) ∷ []))
    × (r.0.free_list ≡ returned r.1)
    × OnlyTexts plain r.0)
get_binary-sent_example = get_binary-sent text plain ((6, 0) ∷ (7, 5) ∷ []) plain-IsSendable

fmi3_do_step-mirrors_example :
    let ready = register_var_table lists (register_all lists fmu table_variables) 1000 in
    let entered = enter_step text ready in
    let left = (increment entered 0 1).0 in
    let (after, status) = fmi3_do_step text increment ready 0 1 in
    All (λ v. entered.memory (1000 + v.offset) ≡ fmu.memory v.cell) table_variables
    × All (λ v. after.memory v.cell ≡ left.memory (1000 + v.offset)) table_variables
    × (after.signals_reset ≡ false)
    × ((status ≡ 0) ↔ ((increment entered 0 1).1 ≡ 0))
fmi3_do_step-mirrors_example =
    fmi3_do_step-mirrors lists text fmu table_variables 1000 increment 0 1 refl are-IsRegistered
      (
        ((omega arith, omega arith), ((omega arith, omega arith), tt)),
        (((omega arith, omega arith, omega arith, omega arith), tt), (tt, tt)),
      )
      (λ g. refl)
