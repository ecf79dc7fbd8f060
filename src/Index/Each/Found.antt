-- ===== src/Index/Each/Found.antt =====
-- The loops over instances, binary vectors and signals, for a body that adds the entries it finds.
use dse_fmi.Common.{
  ℕ, suc, ◌≡◌, sym, ◌∙◌, ap, Bool, true, false, Option, some, List, [], ◌∷◌, Bytes, if◌then◌else◌,
  ◌>>=◌,
}
use dse_fmi.Fmu.Instance.{FmuInstanceData}
use dse_fmi.Index.Vectors.{SignalVector, ModelInstance}
use dse_fmi.Index.Each.{each_signal, each_vector, each_instance}

module _ {E : Type 0} (nil : E) (join : E → E → E)
    (found : ModelInstance → SignalVector → ℕ → Bytes → E) where
  abbrev pub found_from : ModelInstance → SignalVector → ℕ → List Bytes → E
  found_from mi sv i [] = nil
  found_from mi sv i (signal ∷ rest) = join (found mi sv i signal) (found_from mi sv (suc i) rest)

  abbrev pub found_vector : ModelInstance → SignalVector → E
  found_vector mi sv = if sv.is_binary then found_from mi sv 0 sv.signal else nil

  abbrev pub found_vectors : ModelInstance → List SignalVector → E
  found_vectors mi [] = nil
  found_vectors mi (sv ∷ rest) = join (found_vector mi sv) (found_vectors mi rest)

  -- What is found for the signals of the binary vectors of the instances, in order.
  abbrev pub found_all : List ModelInstance → E
  found_all [] = nil
  found_all (mi ∷ rest) = join (found_vectors mi mi.sv) (found_all rest)

module _ (Ok : ModelInstance → SignalVector → ℕ → Bytes → Type 0) where
  abbrev pub OkFrom : ModelInstance → SignalVector → ℕ → List Bytes → Type 0
  OkFrom mi sv i [] = Unit {0}
  OkFrom mi sv i (signal ∷ rest) = Ok mi sv i signal × OkFrom mi sv (suc i) rest

  abbrev pub OkVectors : ModelInstance → List SignalVector → Type 0
  OkVectors mi [] = Unit {0}
  OkVectors mi (sv ∷ rest) =
      (if sv.is_binary then OkFrom mi sv 0 sv.signal else Unit {0}) × OkVectors mi rest

  -- The condition, for each signal of the binary vectors of each instance.
  abbrev pub OkAll : List ModelInstance → Type 0
  OkAll [] = Unit {0}
  OkAll (mi ∷ rest) = OkVectors mi mi.sv × OkAll rest

  module _
      (h : (mi : ModelInstance) (sv : SignalVector) (i : ℕ) (signal : Bytes)
        → Ok mi sv i signal) where
    everywhere-OkFrom :
        (mi : ModelInstance) (sv : SignalVector) (i : ℕ) (l : List Bytes) → OkFrom mi sv i l
    everywhere-OkFrom mi sv i [] = tt
    everywhere-OkFrom mi sv i (signal ∷ rest) =
        (h mi sv i signal, everywhere-OkFrom mi sv (suc i) rest)

    everywhere-OkVector :
        (mi : ModelInstance) (sv : SignalVector) (b : Bool)
        → if b then OkFrom mi sv 0 sv.signal else Unit {0}
    everywhere-OkVector mi sv true = everywhere-OkFrom mi sv 0 sv.signal
    everywhere-OkVector mi sv false = tt

    everywhere-OkVectors : (mi : ModelInstance) (l : List SignalVector) → OkVectors mi l
    everywhere-OkVectors mi [] = tt
    everywhere-OkVectors mi (sv ∷ rest) =
        (everywhere-OkVector mi sv sv.is_binary, everywhere-OkVectors mi rest)

    pub everywhere-OkAll : (l : List ModelInstance) → OkAll l
    everywhere-OkAll [] = tt
    everywhere-OkAll (mi ∷ rest) = (everywhere-OkVectors mi mi.sv, everywhere-OkAll rest)

module _ {E : Type 0} (nil : E) (join : E → E → E)
    (found : ModelInstance → SignalVector → ℕ → Bytes → E)
    (Ok : ModelInstance → SignalVector → ℕ → Bytes → Type 0)
    (body : FmuInstanceData → ModelInstance → SignalVector → ℕ → Bytes → Option FmuInstanceData)
    (put : FmuInstanceData → E → FmuInstanceData)
    (put-nil : (fmu : FmuInstanceData) → put fmu nil ≡ fmu)
    (put-join : (fmu : FmuInstanceData) (a b : E) → put (put fmu a) b ≡ put fmu (join a b))
    (put-found : (fmu : FmuInstanceData) (mi : ModelInstance) (sv : SignalVector) (i : ℕ)
        (signal : Bytes)
      → Ok mi sv i signal
      → body fmu mi sv i signal ≡ some (put fmu (found mi sv i signal))) where
  each_signal-found :
      (fmu : FmuInstanceData) (mi : ModelInstance) (sv : SignalVector) (i : ℕ) (l : List Bytes)
      → OkFrom Ok mi sv i l
      → each_signal body fmu mi sv i l ≡ some (put fmu (found_from nil join found mi sv i l))
  unfolding each_signal
  each_signal-found fmu mi sv i [] h = ap some (sym (put-nil fmu))
  each_signal-found fmu mi sv i (signal ∷ rest) h =
      let e = found mi sv i signal in
      ap (λ o. o >>= λ next. each_signal body next mi sv (suc i) rest)
        (put-found fmu mi sv i signal h.0)
      ∙ each_signal-found (put fmu e) mi sv (suc i) rest h.1
      ∙ ap some (put-join fmu e (found_from nil join found mi sv (suc i) rest))

  vector-found :
      (fmu : FmuInstanceData) (mi : ModelInstance) (sv : SignalVector) (b : Bool)
      → (if b then OkFrom Ok mi sv 0 sv.signal else Unit {0})
      → (if b then each_signal body fmu mi sv 0 sv.signal else some fmu)
        ≡ some (put fmu (if b then found_from nil join found mi sv 0 sv.signal else nil))
  vector-found fmu mi sv true h = each_signal-found fmu mi sv 0 sv.signal h
  vector-found fmu mi sv false h = ap some (sym (put-nil fmu))

  each_vector-found :
      (fmu : FmuInstanceData) (mi : ModelInstance) (l : List SignalVector)
      → OkVectors Ok mi l
      → each_vector body fmu mi l ≡ some (put fmu (found_vectors nil join found mi l))
  unfolding each_vector
  each_vector-found fmu mi [] h = ap some (sym (put-nil fmu))
  each_vector-found fmu mi (sv ∷ rest) h =
      let e = found_vector nil join found mi sv in
      ap (λ o. o >>= λ next. each_vector body next mi rest)
        (vector-found fmu mi sv sv.is_binary h.0)
      ∙ each_vector-found (put fmu e) mi rest h.1
      ∙ ap some (put-join fmu e (found_vectors nil join found mi rest))

  pub each_instance-found :
      (fmu : FmuInstanceData) (l : List ModelInstance)
      → OkAll Ok l
      → each_instance body fmu l ≡ some (put fmu (found_all nil join found l))
  unfolding each_instance
  each_instance-found fmu [] h = ap some (sym (put-nil fmu))
  each_instance-found fmu (mi ∷ rest) h =
      let e = found_vectors nil join found mi mi.sv in
      ap (λ o. o >>= λ next. each_instance body next rest) (each_vector-found fmu mi mi.sv h.0)
      ∙ each_instance-found (put fmu e) rest h.1
      ∙ ap some (put-join fmu e (found_all nil join found rest))
