-- ===== src/Index/Modelc/Indexed.antt =====
-- What the index functions of the ModelC FMU leave.
use dse_fmi.Common.{
  ◌≡◌, refl, sym, ◌∙◌, ap, Option, none, some, List, [], ◌∷◌, ◌++◌, Bytes, Returns, ◌>>=◌, arith,
  subst,
}
use dse_fmi.Fmu.Instance.{FmuInstanceData, DirectIndex}
use dse_fmi.Index.Vectors.{SignalVector, ModelInstance}
use dse_fmi.Index.Each.Found.{OkAll}
use dse_fmi.Index.Gateway.{index_scalar_vectors}
use dse_fmi.Index.Gateway.Scalars.{
  AnnotatedVectors, VectorsIndexed, vectors-indexed, indexed-VectorsIndexed,
}
use dse_fmi.Index.Gateway.Binaries
use dse_fmi.Index.Gateway.Encodings
use dse_fmi.Index.Modelc.{
  ModelcApi, vector_names, direct_of, install_bypass, locate_scalar, locate_binary, find_bypass,
  bypass, index_instances, unless_direct, fmimodelc_index_scalar_signals,
  fmimodelc_index_binary_signals, fmimodelc_index_text_encoding,
}

-- The vectors of the instances, in order.
abbrev pub all_vectors : List ModelInstance → List SignalVector
all_vectors [] = []
all_vectors (mi ∷ rest) = mi.sv ++ all_vectors rest

module _ (api : ModelcApi) where
  -- The bypass map of the first scalar vector that the set gives.
  abbrev pub first_direct : List Bytes → Option DirectIndex
  first_direct [] = none
  first_direct (first ∷ rest) = direct_of (api.simbus_vector_lookup first none)

  -- With a bypass map only the direct index changes; otherwise the signals are indexed.
  abbrev pub ScalarsFor :
      Option DirectIndex → List ModelInstance → FmuInstanceData → FmuInstanceData → Type 0
  ScalarsFor (some d) instances fmu r = r ≡ install_bypass fmu d
  ScalarsFor none instances fmu r =
      VectorsIndexed api.schema (locate_scalar api) (all_vectors instances) fmu r

  scalars-append :
      (xs ys : List SignalVector) (fmu : FmuInstanceData)
      → index_scalar_vectors api.schema (locate_scalar api) fmu (xs ++ ys) ≡ (
          index_scalar_vectors api.schema (locate_scalar api) fmu xs >>= λ g.
          index_scalar_vectors api.schema (locate_scalar api) g ys)
  unfolding index_scalar_vectors
  scalars-append [] ys fmu = refl
  scalars-append (sv ∷ rest) ys fmu = behind _ (scalars-append rest ys)
    where
      behind :
          (o : Option FmuInstanceData)
          → ((g : FmuInstanceData)
              → index_scalar_vectors api.schema (locate_scalar api) g (rest ++ ys) ≡ (
                  index_scalar_vectors api.schema (locate_scalar api) g rest >>= λ h.
                  index_scalar_vectors api.schema (locate_scalar api) h ys))
          → (o >>= λ g. index_scalar_vectors api.schema (locate_scalar api) g (rest ++ ys)) ≡ (
              (o >>= λ g. index_scalar_vectors api.schema (locate_scalar api) g rest) >>= λ h.
              index_scalar_vectors api.schema (locate_scalar api) h ys)
      behind none ih = refl
      behind (some g) ih = ih g

  instances-vectors :
      (instances : List ModelInstance) (fmu : FmuInstanceData)
      → index_instances api fmu instances
        ≡ index_scalar_vectors api.schema (locate_scalar api) fmu (all_vectors instances)
  unfolding index_instances
  instances-vectors [] fmu = sym (no_vectors fmu)
    where
      no_vectors :
          (g : FmuInstanceData) → index_scalar_vectors api.schema (locate_scalar api) g [] ≡ some g
      no_vectors g = unfold index_scalar_vectors in refl
  instances-vectors (mi ∷ rest) fmu =
      behind (index_scalar_vectors api.schema (locate_scalar api) fmu mi.sv)
        (instances-vectors rest)
      ∙ sym (scalars-append mi.sv (all_vectors rest) fmu)
    where
      behind :
          (o : Option FmuInstanceData)
          → ((g : FmuInstanceData)
              → index_instances api g rest
                ≡ index_scalar_vectors api.schema (locate_scalar api) g (all_vectors rest))
          → (o >>= λ g. index_instances api g rest)
            ≡ (o >>= λ g. index_scalar_vectors api.schema (locate_scalar api) g (all_vectors rest))
      behind none ih = refl
      behind (some g) ih = ih g

  bypass-first :
      (names : List Bytes) (fmu : FmuInstanceData) (o : Option DirectIndex)
      → first_direct names ≡ o
      → bypass api names fmu
        ≡ (elim o as (λ _. FmuInstanceData) [ none ↦ fmu | some d ↦ install_bypass fmu d ])
  unfolding bypass find_bypass
  bypass-first [] fmu none e = refl
  bypass-first [] fmu (some d) e = absurd (ground (arith, e))
  bypass-first (first ∷ rest) fmu (some d) e =
      ap
        (λ o. elim o as (λ _. FmuInstanceData) [
          | none ↦ find_bypass api first rest fmu
          | some x ↦ install_bypass fmu x
        ])
        e
  bypass-first (first ∷ rest) fmu none e = not_found (first ∷ rest)
    where
      not_found : (l : List Bytes) → find_bypass api first l fmu ≡ fmu
      not_found [] = refl
      not_found (name ∷ l) =
          ap
            (λ o. elim o as (λ _. FmuInstanceData) [
              | none ↦ find_bypass api first l fmu
              | some d ↦ install_bypass fmu d
            ])
            e
          ∙ not_found l

  instances-indexed :
      (fmu : FmuInstanceData) (instances : List ModelInstance)
      → AnnotatedVectors api.schema (locate_scalar api) (all_vectors instances)
      → Returns (unless_direct api fmu instances none) (ScalarsFor none instances fmu)
  unfolding unless_direct
  instances-indexed fmu instances h =
      subst (λ o. Returns o (ScalarsFor none instances fmu))
        (sym (
          instances-vectors instances fmu
          ∙ vectors-indexed api.schema (locate_scalar api) fmu (all_vectors instances) h))
        (indexed-VectorsIndexed api.schema (locate_scalar api) (all_vectors instances) fmu)

  -- Without direct indexing before, and when each scalar signal with a value reference and a variable
  -- has a causality, fmimodelc_index_scalar_signals compares no NULL pointer. If the first scalar
  -- vector of the set has a bypass map, the instance has that map as its direct index, and nothing
  -- else changes. Otherwise each value reference leads to the variable of the latest input, or output,
  -- signal with it in the two maps, or to what it led to before, and nothing but these and the log
  -- changes.
  pub fmimodelc_index_scalar_signals-first :
      (fmu : FmuInstanceData) (instances : List ModelInstance)
      → fmu.direct_index ≡ none
      → AnnotatedVectors api.schema (locate_scalar api) (all_vectors instances)
      → Returns
          (fmimodelc_index_scalar_signals api fmu instances)
          (ScalarsFor (first_direct (api.set_to_array (vector_names instances))) instances fmu)
  unfolding fmimodelc_index_scalar_signals
  fmimodelc_index_scalar_signals-first fmu instances e h = by_map (first_direct names) refl
    where
      names : List Bytes
      names = api.set_to_array (vector_names instances)

      by_map :
          (o : Option DirectIndex)
          → first_direct names ≡ o
          → Returns
              (unless_direct api
                (bypass api names fmu)
                instances
                (bypass api names fmu).direct_index)
              (ScalarsFor o instances fmu)
      by_map none f =
          subst
            (λ g.
              Returns (unless_direct api g instances g.direct_index)
                (ScalarsFor none instances fmu))
            (sym (bypass-first names fmu none f))
            (subst
              (λ o. Returns (unless_direct api fmu instances o) (ScalarsFor none instances fmu))
              (sym e) (instances-indexed fmu instances h))
      by_map (some d) f =
          subst
            (λ g.
              Returns (unless_direct api g instances g.direct_index)
                (ScalarsFor (some d) instances fmu))
            (sym (bypass-first names fmu (some d) f)) (unfold unless_direct in refl)

  -- fmimodelc_index_binary_signals always ends; a value reference that a receive annotation of a
  -- signal lists then leads to the binary variable of the latest such signal, or to what it led to
  -- before, in the map of received variables, and likewise for transmitted ones; and nothing but the
  -- two maps and the log changes.
  pub fmimodelc_index_binary_signals-topology :
      (fmu : FmuInstanceData) (instances : List ModelInstance)
      → Returns
          (fmimodelc_index_binary_signals api fmu instances)
          (Binaries.InstancesIndexed api.schema (locate_binary api) instances fmu)
  unfolding fmimodelc_index_binary_signals
  fmimodelc_index_binary_signals-topology fmu instances =
      rw (Binaries.each_instance-put api.schema (locate_binary api) fmu instances)
        (Binaries.put-InstancesIndexed api.schema (locate_binary api) instances fmu)

  -- When each binary signal with a value reference has an encoding, fmimodelc_index_text_encoding
  -- compares no NULL pointer; the value references that signals with the encoding ascii85 list then
  -- have the ASCII85 encoder and decoder, all others have what they had, and nothing else but the log
  -- changes.
  pub fmimodelc_index_text_encoding-listed :
      (fmu : FmuInstanceData) (instances : List ModelInstance)
      → OkAll (Encodings.EncodingKnown api.schema) instances
      → Returns
          (fmimodelc_index_text_encoding api fmu instances)
          (Encodings.CodecsIndexed api.schema instances fmu)
  unfolding fmimodelc_index_text_encoding
  fmimodelc_index_text_encoding-listed fmu instances h =
      rw (Encodings.each_instance-put api.schema fmu instances h)
        (Encodings.put-CodecsIndexed api.schema instances fmu)
