-- ===== src/Fmu/Signals/Vectors.antt =====
-- What the index of the two vectors leaves, with or without variables of each type.
use dse_fmi.Common.{
  ◌^◌, ◌<◌, ℕ, zero, suc, ◌≤◌, ◌≡◌, ◌≢◌, refl, sym, ◌∙◌, ap, subst, Bool, true, false, Option, none,
  some, List, [], ◌∷◌, map, length, replicate, All, Bytes, HashMap, ◌==◌, if◌then◌else◌, Bool-cases,
  inl, inr, Returns, Returns-bind, arith, append-nil, length-map,
}
use dse_fmi.Fmu.Instance.{FmuInstanceData, BinaryVariable}
use dse_fmi.Fmu.Binary.Takes.{IsSound}
use dse_fmi.Fmu.Trace.{TraceApi, NCodecInstance}
use dse_fmi.Fmu.Variables.{
  XmlApi, FmuSignalVector, Indexing, scalar_xpath, count_variables, fmu_variable_count,
  fmu_variable_index,
}
use dse_fmi.Fmu.Variables.Order.{
  indexed_variables, indexed_variables-le-count, index_nodes-index_list, index_list,
}
use dse_fmi.Fmu.Variables.Indexed.{
  IsNamed, IsAnnotated, scalars_at, ScalarsIndexed, index_list-scalar,
}
use dse_fmi.Fmu.Variables.Binaries.{entries_at, relog, BinariesIndexed, index_list-binary}
use dse_fmi.Fmu.Signals.{
  SetupApi, binary_variable, binaries_of, new_vector, allocate_sv, append_vector, index_vectors,
  setup_vectors,
}

length-replicate : {A : Type 0} (n : ℕ) (a : A) → length (replicate n a) ≡ n
length-replicate zero a = refl
length-replicate (suc n) a = ap suc (length-replicate n a)

fresh-IsSound : (l : List (Option NCodecInstance)) → All IsSound (map binary_variable l)
fresh-IsSound [] = tt
fresh-IsSound (none ∷ l) = (omega arith, fresh-IsSound l)
fresh-IsSound (some nc ∷ l) = (omega arith, fresh-IsSound l)

nonzero_test : (n : ℕ) → n ≢ 0 → (n == 0) ≡ false
nonzero_test n h = ground (arith, h)

no_elements : {A : Type 0} (l : List A) → length l ≤ 0 → [] ≡ l
no_elements [] h = refl
no_elements (x ∷ l) h = absurd (omega (arith, h))

binaries_of-binary :
    (sv : FmuSignalVector) → sv.scalar ≡ 0 → binaries_of (sv ∷ []) ≡ map binary_variable sv.ncodec
binaries_of-binary sv e = rw e (append-nil (map binary_variable sv.ncodec))

binaries_of-scalar :
    (sv : FmuSignalVector) (rest : List FmuSignalVector)
    → sv.scalar ≢ 0
    → binaries_of (sv ∷ rest) ≡ binaries_of rest
binaries_of-scalar sv rest h = rw (nonzero_test sv.scalar h) refl

module _ (xml : XmlApi) (api : SetupApi xml) (trace : TraceApi)
    (create : Bytes → Option NCodecInstance) (env : HashMap Bytes) where
  module _ (doc : xml.Doc) (nodes : List xml.Node)
      (found : xml.eval_doc doc scalar_xpath ≡ some nodes) where
    abbrev optional : Bool → ℕ → Option FmuSignalVector
    optional is_binary n = if n == 0 then none else some (new_vector xml api is_binary n)

    abbrev of_type : Bool → List xml.Node
    of_type is_binary = indexed_variables xml is_binary nodes

    abbrev start : FmuInstanceData → Bool → ℕ → Indexing
    start fmu is_binary n = record { fmu = fmu; sv = new_vector xml api is_binary n; sv_idx = 0 }

    variable_index-list :
        (fmu : FmuInstanceData) (sv : FmuSignalVector) (is_binary : Bool)
        → fmu_variable_index xml trace create env doc fmu sv is_binary
          ≡ index_list xml trace create env is_binary
              (of_type is_binary)
              (record { fmu = fmu; sv = sv; sv_idx = 0 })
    unfolding fmu_variable_index
    variable_index-list fmu sv is_binary =
        rw (found, fmu_variable_index)
          (index_nodes-index_list xml trace create env is_binary nodes _)

    count-eq :
        (is_binary : Bool)
        → fmu_variable_count xml doc is_binary ≡ count_variables xml is_binary nodes
    unfolding fmu_variable_count
    count-eq is_binary = rw (found, fmu_variable_count) refl

    -- What the index of the binary vector leaves, from an instance on.
    abbrev BinaryPart : FmuInstanceData → FmuInstanceData × List FmuSignalVector → Type 0
    BinaryPart fmu r =
        (r.0 ≡ relog (entries_at xml 0 (of_type true) fmu) r.0.logged)
        × All IsSound (binaries_of r.1)
        × (length (of_type true) ≤ length (binaries_of r.1))

    binary_part :
        (fmu : FmuInstanceData) (n : ℕ)
        → length (of_type true) ≤ n
        → n < 2 ^ 32
        → All (IsAnnotated xml) (of_type true)
        → Returns
            (index_vectors xml api trace create env doc fmu
              (append_vector xml api [] (optional true n)))
            (BinaryPart fmu)
    unfolding index_vectors
    binary_part fmu n h small a = elim (Bool-cases (n == 0)) [
      | inl e ↦
          let none_of : [] ≡ of_type true = no_elements (of_type true) (ground (arith, h, e)) in
          rw e (
            subst
              (λ l. (fmu ≡ relog (entries_at xml 0 l fmu) fmu.logged) × Unit {0} × (length l ≤ 0))
              none_of (refl, tt, omega arith))
      | inr e ↦ rw e (
          rw (variable_index-list fmu (new_vector xml api true n) true) (
            Returns-bind _ _ (BinariesIndexed xml (of_type true) (start fmu true n)) _
              (index_list-binary xml trace create env (of_type true) (start fmu true n)
                (omega (arith, h, small)) a)
              (λ t (f, (c, l, k), i).
                let made : binaries_of (t.sv ∷ []) ≡ map binary_variable t.sv.ncodec =
                  binaries_of-binary t.sv l in
                (
                  f,
                  subst (All IsSound) (sym made) (fresh-IsSound t.sv.ncodec),
                  omega (
                    arith,
                    h,
                    ap (length {A = BinaryVariable}) made,
                    length-map binary_variable t.sv.ncodec,
                    k,
                    length-replicate {A = Option NCodecInstance} n none,
                  ),
                ))))
    ]

    -- And the scalar vector before it.
    abbrev pub BothParts : FmuInstanceData → FmuInstanceData × List FmuSignalVector → Type 0
    BothParts fmu r =
        (r.0
          ≡ relog
              (entries_at xml 0 (of_type true) (scalars_at xml api.scalar 0 (of_type false) fmu))
              r.0.logged)
        × All IsSound (binaries_of r.1)
        × (length (of_type true) ≤ length (binaries_of r.1))

    append_after :
        (sv : FmuSignalVector) (o : Option FmuSignalVector)
        → append_vector xml api (sv ∷ []) o ≡ sv ∷ append_vector xml api [] o
    append_after sv none = refl
    append_after sv (some w) = refl

    both_parts :
        (fmu : FmuInstanceData) (n m : ℕ)
        → length (of_type false) ≤ n
        → length (of_type true) ≤ m
        → n < 2 ^ 32
        → m < 2 ^ 32
        → api.scalar ≢ 0
        → All (IsNamed xml) (of_type false)
        → All (IsAnnotated xml) (of_type true)
        → Returns
            (index_vectors xml api trace create env doc fmu (
              append_vector xml api
                (append_vector xml api [] (optional false n))
                (optional true m)))
            (BothParts fmu)
    unfolding index_vectors
    both_parts fmu n m h k small few z b a = elim (Bool-cases (n == 0)) [
      | inl e ↦
          let none_of : [] ≡ of_type false = no_elements (of_type false) (ground (arith, h, e)) in
          rw e (
            subst
              (λ l.
                Returns
                  (index_vectors xml api trace create env doc fmu
                    (append_vector xml api [] (optional true m)))
                  (λ r.
                    (r.0
                      ≡ relog (entries_at xml 0 (of_type true) (scalars_at xml api.scalar 0 l fmu))
                          r.0.logged)
                    × All IsSound (binaries_of r.1)
                    × (length (of_type true) ≤ length (binaries_of r.1))))
              none_of (binary_part fmu m k few a))
      | inr e ↦
          rw
            (
              e,
              append_after (new_vector xml api false n) (optional true m),
              nonzero_test api.scalar z,
            )
            (rw (variable_index-list fmu (new_vector xml api false n) false) (
              Returns-bind _ _ (ScalarsIndexed xml (of_type false) (start fmu false n)) _
                (index_list-scalar xml trace create env (of_type false) (start fmu false n)
                  (omega (arith, h, small)) b)
                (λ t (f, v, i).
                  let nonzero : t.sv.scalar ≢ 0 =
                    λ c. z (sym (ap (λ (x : FmuSignalVector). x.scalar) v) ∙ c) in
                  Returns-bind _ _ (BinaryPart t.fmu) _ (binary_part t.fmu m k few a)
                    (λ r (g, q, l).
                      let same : binaries_of (t.sv ∷ r.1) ≡ binaries_of r.1 =
                        binaries_of-scalar t.sv r.1 nonzero in
                      (
                        g ∙ ap (λ x. relog (entries_at xml 0 (of_type true) x) r.0.logged) f,
                        subst (All IsSound) (sym same) q,
                        omega (arith, l, ap (length {A = BinaryVariable}) same),
                      )))))
    ]

    allocate_sv-optional :
        (is_binary : Bool)
        → allocate_sv xml api doc is_binary
          ≡ optional is_binary (count_variables xml is_binary nodes)
    unfolding allocate_sv
    allocate_sv-optional is_binary = ap (optional is_binary) (count-eq is_binary)

    pub both_allocated :
        (fmu : FmuInstanceData)
        → ((is_binary : Bool) → count_variables xml is_binary nodes < 2 ^ 32)
        → api.scalar ≢ 0
        → All (IsNamed xml) (of_type false)
        → All (IsAnnotated xml) (of_type true)
        → Returns
            (index_vectors xml api trace create env doc fmu
              (setup_vectors xml api trace create env doc))
            (BothParts fmu)
    both_allocated fmu few z b a =
        rw (api.ntl_eq, allocate_sv-optional false, allocate_sv-optional true)
          (both_parts fmu (count_variables xml false nodes) (count_variables xml true nodes)
            (indexed_variables-le-count xml false nodes) (indexed_variables-le-count xml true nodes)
            (few false) (few true) z b a)
