-- ===== src/Index/Gateway/Scalars.antt =====
-- fmigateway_index_scalar_signals: which variable each value reference leads to.
use dse_fmi.Common.{
  ℕ, suc, ◌≡◌, refl, sym, ◌∙◌, ap, ap₂, Bool, true, false, Option, none, some, List, [], ◌∷◌, ◌++◌,
  Bytes, codes, hashmap_get, str_eq, if◌then◌else◌, if_elim, Returns, Bool-cases, inl, inr, ◌>>=◌,
  arith, str_eq_iff, ◌&&◌,
}
use dse_fmi.Fmu.Instance.{FmuInstanceData, LogMessage, fmu_log}
use dse_fmi.Index.Vectors.{SignalVector, SchemaApi}
use dse_fmi.Index.Latest.{latest, set_all, set_all-append, hashmap_get-set_all}
use dse_fmi.Index.Gateway.{
  GatewayApi, ModelGatewayDesc, scalar_of, with_variable, set_input, set_output, set_by_causality,
  index_scalar_at, index_scalars_from, index_scalar_vectors, index_scalar_signals,
}

abbrev pub relog : FmuInstanceData → List LogMessage → FmuInstanceData
relog fmu messages = record fmu { logged = messages }

abbrev pub message_of : ℕ → Bytes → Bytes → LogMessage
message_of status category message = record {
  status = status;
  category = category;
  message = message;
}

abbrev pub entry : Bytes → Option Bytes → Option ℕ → Option Bytes → List (Bytes × ℕ)
entry c none cell causality = []
entry c (some vref) none causality = []
entry c (some vref) (some cell) none = []
entry c (some vref) (some cell) (some causality) =
    if str_eq causality c then (vref, cell) ∷ [] else []

-- What strcmp must not meet.
abbrev pub HasCausality : Option Bytes → Option ℕ → Option Bytes → Type 0
HasCausality none cell causality = Unit {0}
HasCausality (some vref) none causality = Unit {0}
HasCausality (some vref) (some cell) causality = (c : Bytes) × (causality ≡ some c)

module _ (schema : SchemaApi) (locate : SignalVector → Bytes → Option ℕ) where
  abbrev pub entries_from : Bytes → SignalVector → ℕ → List Bytes → List (Bytes × ℕ)
  entries_from c sv i [] = []
  entries_from c sv i (signal ∷ rest) =
      entry c (schema.signal_annotation sv i (codes "fmi_variable_vref")) (locate sv signal)
        (schema.signal_annotation sv i (codes "fmi_variable_causality"))
      ++ entries_from c sv (suc i) rest

  abbrev pub of_vector : Bytes → SignalVector → List (Bytes × ℕ)
  of_vector c sv = if sv.is_binary then [] else entries_from c sv 0 sv.signal

  -- The value references with the causality, each with its variable, in the order of the vectors.
  abbrev pub entries : Bytes → List SignalVector → List (Bytes × ℕ)
  entries c [] = []
  entries c (sv ∷ rest) = of_vector c sv ++ entries c rest

  abbrev AnnotatedFrom : SignalVector → ℕ → List Bytes → Type 0
  AnnotatedFrom sv i [] = Unit {0}
  AnnotatedFrom sv i (signal ∷ rest) =
      HasCausality (schema.signal_annotation sv i (codes "fmi_variable_vref")) (locate sv signal)
        (schema.signal_annotation sv i (codes "fmi_variable_causality"))
      × AnnotatedFrom sv (suc i) rest

  -- Each scalar signal with a value reference and a variable has a causality.
  abbrev pub AnnotatedVectors : List SignalVector → Type 0
  AnnotatedVectors [] = Unit {0}
  AnnotatedVectors (sv ∷ rest) =
      (if sv.is_binary then Unit {0} else AnnotatedFrom sv 0 sv.signal) × AnnotatedVectors rest

  abbrev pub indexed : FmuInstanceData → List (Bytes × ℕ) → List (Bytes × ℕ) → FmuInstanceData
  indexed fmu ins outs = record fmu {
    scalar_input = set_all fmu.scalar_input ins;
    scalar_output = set_all fmu.scalar_output outs;
  }

  indexed-append :
      (fmu : FmuInstanceData) (a b c d : List (Bytes × ℕ))
      → indexed (indexed fmu a b) c d ≡ indexed fmu (a ++ c) (b ++ d)
  indexed-append fmu a b c d =
      ap₂ (λ x y. record fmu { scalar_input = x; scalar_output = y })
        (sym (set_all-append fmu.scalar_input a c)) (sym (set_all-append fmu.scalar_output b d))

  by_tests :
      (fmu : FmuInstanceData) (vref : Bytes) (cell : ℕ) (out inp : Bool)
      → (out && inp) ≡ false
      → (if out then set_output fmu vref cell else (if inp then set_input fmu vref cell else fmu))
        ≡ indexed fmu
            (if inp then (vref, cell) ∷ [] else [])
            (if out then (vref, cell) ∷ [] else [])
  by_tests fmu vref cell true true h = cc
  by_tests fmu vref cell true false h = refl
  by_tests fmu vref cell false true h = refl
  by_tests fmu vref cell false false h = refl

  one_causality :
      (causality : Bytes)
      → (str_eq causality (codes "output") && str_eq causality (codes "input")) ≡ false
  unfolding str_eq
  one_causality causality = elim (Bool-cases (str_eq causality (codes "output"))) [
    | inl e ↦ rw ((str_eq_iff causality (codes "output")).0 e) refl
    | inr e ↦ rw e refl
  ]

  at-indexed :
      (fmu : FmuInstanceData) (vref : Option Bytes) (cell : Option ℕ) (causality : Option Bytes)
      → HasCausality vref cell causality
      → with_variable (λ v p. set_by_causality fmu v p causality) fmu vref cell
        ≡ some (
            indexed fmu
              (entry (codes "input") vref cell causality)
              (entry (codes "output") vref cell causality))
  unfolding set_by_causality
  at-indexed fmu none cell causality h = refl
  at-indexed fmu (some vref) none causality h = refl
  at-indexed fmu (some vref) (some cell) none h = absurd (ground (arith, h.1))
  at-indexed fmu (some vref) (some cell) (some causality) h =
      ap some (by_tests fmu vref cell _ _ (one_causality causality))

  from-indexed :
      (fmu : FmuInstanceData) (sv : SignalVector) (i : ℕ) (signals : List Bytes)
      → AnnotatedFrom sv i signals
      → index_scalars_from schema locate fmu sv i signals
        ≡ some (
            indexed fmu
              (entries_from (codes "input") sv i signals)
              (entries_from (codes "output") sv i signals))
  unfolding index_scalars_from index_scalar_at
  from-indexed fmu sv i [] h = refl
  from-indexed fmu sv i (signal ∷ rest) h =
      let vref = schema.signal_annotation sv i (codes "fmi_variable_vref") in
      let cell = (locate sv signal) in
      let causality = schema.signal_annotation sv i (codes "fmi_variable_causality") in
      let ins = entry (codes "input") vref cell causality in
      let outs = entry (codes "output") vref cell causality in
      ap (λ o. o >>= λ next. index_scalars_from schema locate next sv (suc i) rest)
        (at-indexed fmu vref cell causality h.0)
      ∙ from-indexed (indexed fmu ins outs) sv (suc i) rest h.1
      ∙ ap some (indexed-append fmu ins outs _ _)

  vector-indexed :
      (fmu : FmuInstanceData) (sv : SignalVector) (b : Bool)
      → (if b then Unit {0} else AnnotatedFrom sv 0 sv.signal)
      → (if b then some fmu else index_scalars_from schema locate fmu sv 0 sv.signal)
        ≡ some (
            indexed fmu
              (if b then [] else entries_from (codes "input") sv 0 sv.signal)
              (if b then [] else entries_from (codes "output") sv 0 sv.signal))
  vector-indexed fmu sv true h = refl
  vector-indexed fmu sv false h = from-indexed fmu sv 0 sv.signal h

  pub vectors-indexed :
      (fmu : FmuInstanceData) (vectors : List SignalVector)
      → AnnotatedVectors vectors
      → index_scalar_vectors schema locate fmu vectors
        ≡ some (indexed fmu (entries (codes "input") vectors) (entries (codes "output") vectors))
  unfolding index_scalar_vectors
  vectors-indexed fmu [] h = refl
  vectors-indexed fmu (sv ∷ rest) h =
      let ins = of_vector (codes "input") sv in
      let outs = of_vector (codes "output") sv in
      ap (λ o. o >>= λ next. index_scalar_vectors schema locate next rest)
        (vector-indexed fmu sv sv.is_binary h.0)
      ∙ vectors-indexed (indexed fmu ins outs) rest h.1
      ∙ ap some (
          indexed-append fmu ins outs (entries (codes "input") rest)
            (entries (codes "output") rest))

  -- Each value reference leads to the variable of the latest signal with it and the causality, or to
  -- what it led to before, and only the two maps and the log change.
  abbrev pub VectorsIndexed : List SignalVector → FmuInstanceData → FmuInstanceData → Type 0
  VectorsIndexed vectors fmu r =
      ((k : Bytes)
        → hashmap_get r.scalar_input k
          ≡ latest k (entries (codes "input") vectors) (hashmap_get fmu.scalar_input k))
      × ((k : Bytes)
          → hashmap_get r.scalar_output k
            ≡ latest k (entries (codes "output") vectors) (hashmap_get fmu.scalar_output k))
      × (r ≡ record fmu {
        scalar_input = r.scalar_input;
        scalar_output = r.scalar_output;
        logged = r.logged;
      })

  pub indexed-VectorsIndexed :
      (vectors : List SignalVector) (fmu : FmuInstanceData)
      → VectorsIndexed vectors fmu
          (indexed fmu (entries (codes "input") vectors) (entries (codes "output") vectors))
  indexed-VectorsIndexed vectors fmu = (
    hashmap_get-set_all fmu.scalar_input (entries (codes "input") vectors),
    hashmap_get-set_all fmu.scalar_output (entries (codes "output") vectors),
    refl,
  )

  pub log-VectorsIndexed :
      (vectors : List SignalVector) (fmu r : FmuInstanceData) (status : ℕ)
      (category message : Bytes)
      → VectorsIndexed vectors fmu r
      → VectorsIndexed vectors fmu (fmu_log r status category message)
  unfolding fmu_log
  log-VectorsIndexed vectors fmu r status category message (ins, outs, same) =
      if_elim (VectorsIndexed vectors fmu) _ _ _
        (ins, outs, ap (λ x. relog x (r.logged ++ message_of status category message ∷ [])) same)
        (ins, outs, same)

module _ (api : GatewayApi) where
  abbrev pub IsAnnotated : List SignalVector → Type 0
  IsAnnotated = AnnotatedVectors api.schema (scalar_of api)

  abbrev pub ScalarsIndexed : List SignalVector → FmuInstanceData → FmuInstanceData → Type 0
  ScalarsIndexed = VectorsIndexed api.schema (scalar_of api)

  -- When each scalar signal with a value reference and a variable has a causality,
  -- fmigateway_index_scalar_signals compares no NULL pointer; a value reference then leads to the
  -- variable of the latest input signal with it, or to what it led to before, in the map of inputs,
  -- and likewise for outputs; and nothing but the two maps and the log changes.
  pub index_scalar_signals-latest :
      (fmu : FmuInstanceData) (m : ModelGatewayDesc)
      → IsAnnotated m.sv
      → Returns (index_scalar_signals api fmu m) (ScalarsIndexed m.sv fmu)
  unfolding index_scalar_signals
  index_scalar_signals-latest fmu m h = rw (vectors-indexed api.schema (scalar_of api) fmu m.sv h) (
      log-VectorsIndexed api.schema (scalar_of api) m.sv fmu _ _ _ _
        (indexed-VectorsIndexed api.schema (scalar_of api) m.sv fmu))
