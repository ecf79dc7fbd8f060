-- ===== src/Fmu/Step/Copies.antt =====
-- The copies between variables and signals around a step of fmi2DoStep.
use dse_fmi.Common.{
  ℕ, ◌≡◌, ◌≢◌, refl, sym, ◌∙◌, ap, subst, false, List, [], ◌∷◌, All, Pairs, All-map, ◌==◌, if_elim,
  if◌then◌else◌, arith,
}
use dse_fmi.Fmu.Instance.{FmuInstanceData, MarshalItem, store}
use dse_fmi.Fmu.Binary.{TextApi, signals_reset}
use dse_fmi.Fmu.Step.{copies, enter_step, leave_step}

-- The items may be copied from `src` to `dst`: no target is another target or a source, and no
-- variable is NULL.
abbrev pub IsCopy : (MarshalItem → ℕ) → (MarshalItem → ℕ) → List MarshalItem → Type 0
IsCopy dst src items =
    Pairs (λ a b. (dst a ≢ dst b) × (dst a ≢ src b)) items × All (λ a. a.variable ≢ 0) items

pub nonzero : (n : ℕ) → n ≢ 0 → (n == 0) ≡ false
nonzero n h = ground (arith, h)

copies-cons :
    (dst src : MarshalItem → ℕ) (mi : MarshalItem) (items : List MarshalItem) (memory : ℕ → ℕ)
    → mi.variable ≢ 0
    → copies dst src (mi ∷ items) memory
      ≡ copies dst src items (store memory (dst mi) (memory (src mi)))
unfolding copies
copies-cons dst src mi items memory h =
    ap (λ b. if b then memory else copies dst src items (store memory (dst mi) (memory (src mi))))
      (nonzero mi.variable h)

store-ne : (memory : ℕ → ℕ) (p v q : ℕ) → p ≢ q → store memory p v q ≡ memory q
store-ne memory p v q h = ground (arith, h)

store_self : (memory : ℕ → ℕ) (p v : ℕ) → store memory p v p ≡ v
store_self memory p v = ground arith

-- A cell that is no target keeps its value.
copies_frame :
    (dst src : MarshalItem → ℕ) (items : List MarshalItem) (memory : ℕ → ℕ) (q : ℕ)
    → All (λ a. a.variable ≢ 0) items
    → All (λ a. dst a ≢ q) items
    → copies dst src items memory q ≡ memory q
copies_frame dst src [] memory q h n = unfold copies in refl
copies_frame dst src (mi ∷ items) memory q h n =
    ap (λ m. m q) (copies-cons dst src mi items memory h.0)
    ∙ copies_frame dst src items _ q h.1 n.1
    ∙ store-ne memory (dst mi) _ q n.0

-- Each target has the value of its source.
pub copies-values :
    (dst src : MarshalItem → ℕ) (items : List MarshalItem) (memory : ℕ → ℕ)
    → IsCopy dst src items
    → All (λ a. copies dst src items memory (dst a) ≡ memory (src a)) items
copies-values dst src [] memory h = tt
copies-values dst src (mi ∷ items) memory h =
    let next : ℕ → ℕ = store memory (dst mi) (memory (src mi)) in
    subst (λ m. All (λ a. m (dst a) ≡ memory (src a)) (mi ∷ items))
      (sym (copies-cons dst src mi items memory h.1.0))
      (
        copies_frame dst src items next (dst mi) h.1.1
              (All-map _ _ items (λ a n e. n.0 (sym e)) h.0.0)
            ∙ store_self memory (dst mi) _,
        All-map2 items h.0.0 (copies-values dst src items next (h.0.1, h.1.1)),
      )
  where
    All-map2 :
        (rest : List MarshalItem)
        → All (λ b. (dst mi ≢ dst b) × (dst mi ≢ src b)) rest
        → All
            (λ a.
              copies dst src items (store memory (dst mi) (memory (src mi))) (dst a)
              ≡ store memory (dst mi) (memory (src mi)) (src a))
            rest
        → All
            (λ a.
              copies dst src items (store memory (dst mi) (memory (src mi))) (dst a)
              ≡ memory (src a))
            rest
    All-map2 [] n e = tt
    All-map2 (b ∷ rest) n e =
        (e.0 ∙ store-ne memory (dst mi) _ (src b) n.0.1, All-map2 rest n.1 e.1)

-- The signals' memory and the table are not what the reset changes.
pub reset-memory :
    (api : TextApi) (fmu : FmuInstanceData) → (signals_reset api fmu).memory ≡ fmu.memory
unfolding signals_reset
reset-memory api fmu =
    if_elim (λ (g : FmuInstanceData). g.memory ≡ fmu.memory) fmu.signals_reset _ _ refl refl

pub reset-marshal_list :
    (api : TextApi) (fmu : FmuInstanceData)
    → (signals_reset api fmu).marshal_list ≡ fmu.marshal_list
unfolding signals_reset
reset-marshal_list api fmu =
    if_elim (λ (g : FmuInstanceData). g.marshal_list ≡ fmu.marshal_list) fmu.signals_reset _ _ refl
      refl

pub enter_step-values :
    (api : TextApi) (g : FmuInstanceData) (items : List MarshalItem)
    → g.marshal_list ≡ items
    → IsCopy (λ mi. mi.variable) (λ mi. mi.signal) items
    → All (λ mi. (enter_step api g).memory mi.variable ≡ g.memory mi.signal) items
unfolding enter_step
enter_step-values api g items e h =
    let direct : (ℕ → ℕ) → List MarshalItem → ℕ → ℕ =
      λ m is. copies (λ mi. mi.variable) (λ mi. mi.signal) is m in
    subst (λ (f : ℕ → ℕ). All (λ mi. f mi.variable ≡ g.memory mi.signal) items)
      (ap (λ is. direct g.memory is) (sym (reset-marshal_list api g ∙ e))
        ∙ ap (λ m. direct m (signals_reset api g).marshal_list) (sym (reset-memory api g)))
      (copies-values _ _ items g.memory h)

pub leave_step-values :
    (g : FmuInstanceData) (items : List MarshalItem)
    → g.marshal_list ≡ items
    → IsCopy (λ mi. mi.signal) (λ mi. mi.variable) items
    → All (λ mi. (leave_step g).memory mi.signal ≡ g.memory mi.variable) items
unfolding leave_step
leave_step-values g items e h =
    subst (λ (f : ℕ → ℕ). All (λ mi. f mi.signal ≡ g.memory mi.variable) items)
      (ap (λ is. copies (λ mi. mi.signal) (λ mi. mi.variable) is g.memory) (sym e))
      (copies-values _ _ items g.memory h)
