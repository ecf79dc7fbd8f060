-- ===== src/Fmu/Binary/Append.antt =====
-- The reset of fmi2SetString, and the texts that a whole call brings to a binary variable.
use dse_fmi.Common.{
  ℕ, zero, suc, ◌<◌, ◌≤◌, ◌≡◌, refl, sym, ◌∙◌, ap, subst, Bool, true, false, Bool-cases, inl, inr,
  Option, none, some, List, [], ◌∷◌, map, length, get_elem?, take, All, length-map, Bytes,
  hashmap_get, if◌then◌else◌, Returns, Returns-map, arith,
}
use dse_fmi.Fmu.Stream.{bytes_of, content}
use dse_fmi.Fmu.Instance.{FmuInstanceData, BinaryVariable}
use dse_fmi.Fmu.Binary.{TextApi, reset_one, signals_reset, set_string_loop, set_string}
use dse_fmi.Fmu.Binary.Rows.{log_limit}
use dse_fmi.Fmu.Binary.Takes.{
  held, extend, IsSound, InVector, size_of, HasRoom, received, set_string_loop-Takes,
}

module _ (api : TextApi) where
  reset_one-empty : (v : BinaryVariable) → content (reset_one api v).signal ≡ []
  reset_one-empty v = elim (Bool-cases v.ncodec) [
    | inl t ↦
        rw t (
          ap (λ n. take n (bytes_of (api.truncate v.signal).binary)) (api.truncate_length v.signal))
    | inr t ↦ rw t refl
  ]

  reset_one-IsSound : (v : BinaryVariable) → IsSound (reset_one api v)
  reset_one-IsSound v = elim (Bool-cases v.ncodec) [
    | inl t ↦ rw t (omega (arith, api.truncate_length v.signal))
    | inr t ↦ rw t (omega arith)
  ]

  -- What is left of a variable when the loop of fmi2SetString begins.
  abbrev pub kept : Bool → Option BinaryVariable → Option Bytes
  kept reset none = none
  kept reset (some v) = some (if reset then content v.signal else [])

  map-kept :
      (vs : List BinaryVariable) (p : ℕ)
      → held (get_elem? (map (reset_one api) vs) p) ≡ kept false (get_elem? vs p)
  map-kept [] p = refl
  map-kept (v ∷ vs) zero = ap (λ (b : Bytes). some b) (reset_one-empty v)
  map-kept (v ∷ vs) (suc p) = map-kept vs p

  map-IsSound : (vs : List BinaryVariable) → All IsSound (map (reset_one api) vs)
  map-IsSound [] = tt
  map-IsSound (v ∷ vs) = (reset_one-IsSound v, map-IsSound vs)

  held-kept : (o : Option BinaryVariable) → held o ≡ kept true o
  held-kept none = refl
  held-kept (some v) = refl

  pub record IsReset (fmu : FmuInstanceData) (b : Bool) (g : FmuInstanceData) : Type 0 where
    pub contents : (p : ℕ) → held (get_elem? g.binaries p) ≡ kept b (get_elem? fmu.binaries p)
    pub sound : All IsSound g.binaries
    pub size : length g.binaries ≡ length fmu.binaries
    pub rx : g.binary_rx ≡ fmu.binary_rx
    pub df : g.decode_func ≡ fmu.decode_func
    pub reset : g.signals_reset ≡ true

  pub if-IsReset :
      (fmu : FmuInstanceData) (b : Bool)
      → fmu.signals_reset ≡ b
      → All IsSound fmu.binaries
      → IsReset fmu b (
          if b
          then fmu
          else record fmu { binaries = map (reset_one api) fmu.binaries; signals_reset = true })
  if-IsReset fmu true e h = record {
    contents = λ p. held-kept (get_elem? fmu.binaries p);
    sound = h;
    size = refl;
    rx = refl;
    df = refl;
    reset = e;
  }
  if-IsReset fmu false e h = record {
    contents = λ p. map-kept fmu.binaries p;
    sound = map-IsSound fmu.binaries;
    size = length-map (reset_one api) fmu.binaries;
    rx = refl;
    df = refl;
    reset = refl;
  }

  pub IsReset-room :
      (limit : ℕ) (fmu g : FmuInstanceData) (b : Bool) (values : List (ℕ × Option Bytes))
      → IsReset fmu b g
      → ((p : ℕ)
          → size_of (
              extend
                (kept b (get_elem? fmu.binaries p))
                (received api fmu.binary_rx fmu.decode_func p values))
            ≤ limit)
      → HasRoom limit g (λ p. received api g.binary_rx g.decode_func p values)
  IsReset-room limit fmu g b values r room p = rw (r.contents p, r.rx, r.df) (room p)

  -- When the indexes of the received variables lie in the vector of binary variables, each variable's
  -- length lies in its buffer, and no variable comes to more than 2^32 - 16 bytes by this call,
  -- fmi2SetString ends and reads nothing out of bounds. Afterwards each variable holds what it held
  -- before, or nothing if the variables were not yet reset in this step, followed by the decoded
  -- texts of the value references that lead to it, in the order of the call; each length lies in its
  -- buffer again; and the variables count as reset.
  pub set_string-received :
      (fmu : FmuInstanceData) (values : List (ℕ × Option Bytes))
      → All IsSound fmu.binaries
      → InVector fmu.binary_rx (length fmu.binaries)
      → ((p : ℕ)
          → size_of (
              extend
                (kept fmu.signals_reset (get_elem? fmu.binaries p))
                (received api fmu.binary_rx fmu.decode_func p values))
            ≤ log_limit)
      → Returns (set_string api fmu values) (λ after.
        ((p : ℕ)
          → held (get_elem? after.binaries p)
            ≡ extend
                (kept fmu.signals_reset (get_elem? fmu.binaries p))
                (received api fmu.binary_rx fmu.decode_func p values))
        × All IsSound after.binaries
        × (after.signals_reset ≡ true))
  unfolding set_string signals_reset
  set_string-received fmu values h n room =
      let g : FmuInstanceData = signals_reset api fmu in
      let b : Bool = fmu.signals_reset in
      let r : IsReset fmu b g = if-IsReset fmu b refl h in
      Returns-map (set_string_loop api g values) _ _
        (set_string_loop-Takes api values g r.sound
          (λ key q e.
            subst (λ l. q < l) (sym r.size) (n key q (ap (λ m. hashmap_get m key) (sym r.rx) ∙ e)))
          (IsReset-room log_limit fmu g b values r room))
        (λ after t. (
          λ p.
              t.contents p
              ∙ ap (λ o. extend o (received api g.binary_rx g.decode_func p values)) (r.contents p)
              ∙ ap
                  (λ rx.
                    extend (kept b (get_elem? fmu.binaries p))
                      (received api rx g.decode_func p values))
                  r.rx
              ∙ ap
                  (λ df.
                    extend (kept b (get_elem? fmu.binaries p))
                      (received api fmu.binary_rx df p values))
                  r.df,
          t.sound,
          t.reset ∙ r.reset,
        ))
