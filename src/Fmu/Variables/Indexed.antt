-- ===== src/Fmu/Variables/Indexed.antt =====
-- What the index of the variables leaves for each value reference.
use dse_fmi.Common.{
  ℕ, suc, ◌+◌, ◌*◌, ◌<◌, ◌≤◌, ◌≡◌, refl, sym, ◌∙◌, ap, ap₂, Bool, true, false, ◌&&◌, Option, none,
  some, List, [], ◌∷◌, ◌++◌, length, All, Bytes, codes, HashMap, str_eq, str_eq_iff, ltb,
  if◌then◌else◌, Bool-cases, inl, inr, Returns, Returns-bind, Returns-map, ◌>>=◌, arith,
}
use dse_fmi.Fmu.Instance.{FmuInstanceData, TextCodec}
use dse_fmi.Fmu.Trace.{TraceApi, NCodecInstance}
use dse_fmi.Fmu.Variables.{
  XmlApi, FmuSignalVector, Indexing, text_is, set_key, index_scalar_variable, index_rx_tx,
  index_codec, find_anno, parse_tool_anno, index_one, tool_query,
}
use dse_fmi.Fmu.Variables.Order.{index_list}
use dse_fmi.Index.Latest.{set_all, set_all-append}

abbrev pub key_entry : {V : Type 0} → Option Bytes → V → List (Bytes × V)
key_entry none v = []
key_entry (some k) v = (k, v) ∷ []

abbrev pub entry_if : {V : Type 0} → Bool → Option Bytes → V → List (Bytes × V)
entry_if b vr v = if b then key_entry vr v else []

abbrev pub with_scalars : FmuInstanceData → List (Bytes × ℕ) → List (Bytes × ℕ) → FmuInstanceData
with_scalars fmu ins outs = record fmu {
  scalar_input = set_all fmu.scalar_input ins;
  scalar_output = set_all fmu.scalar_output outs;
}

abbrev pub with_binaries : FmuInstanceData → List (Bytes × ℕ) → List (Bytes × ℕ) → FmuInstanceData
with_binaries fmu rxs txs = record fmu {
  binary_rx = set_all fmu.binary_rx rxs;
  binary_tx = set_all fmu.binary_tx txs;
}

abbrev pub with_codecs : FmuInstanceData → List (Bytes × TextCodec) → FmuInstanceData
with_codecs fmu codecs = record fmu {
  encode_func = set_all fmu.encode_func codecs;
  decode_func = set_all fmu.decode_func codecs;
}

one_causality :
    (causality : Option Bytes)
    → (text_is causality (codes "output") && text_is causality (codes "input")) ≡ false
unfolding str_eq
one_causality none = refl
one_causality (some c) = elim (Bool-cases (str_eq c (codes "output"))) [
  | inl e ↦ rw ((str_eq_iff c (codes "output")).0 e) refl
  | inr e ↦ rw e refl
]

scalar_tests :
    (fmu : FmuInstanceData) (k : Bytes) (cell : ℕ) (out inp : Bool)
    → (out && inp) ≡ false
    → (if out
        then (set_key fmu.scalar_output (some k) cell >>= λ m.
            some (record fmu { scalar_output = m }))
        else if inp
        then (set_key fmu.scalar_input (some k) cell >>= λ m.
            some (record fmu { scalar_input = m }))
        else some fmu)
      ≡ some (with_scalars fmu (entry_if inp (some k) cell) (entry_if out (some k) cell))
scalar_tests fmu k cell true true h = cc
scalar_tests fmu k cell true false h = refl
scalar_tests fmu k cell false true h = refl
scalar_tests fmu k cell false false h = refl

binary_tests :
    (fmu : FmuInstanceData) (k : Bytes) (p : ℕ) (out inp : Bool)
    → (out && inp) ≡ false
    → (if out
        then (set_key fmu.binary_tx (some k) p >>= λ m. some (record fmu { binary_tx = m }))
        else if inp
        then (set_key fmu.binary_rx (some k) p >>= λ m. some (record fmu { binary_rx = m }))
        else some fmu)
      ≡ some (with_binaries fmu (entry_if inp (some k) p) (entry_if out (some k) p))
binary_tests fmu k p true true h = cc
binary_tests fmu k p true false h = refl
binary_tests fmu k p false true h = refl
binary_tests fmu k p false false h = refl

pub index_rx_tx-entries :
    (fmu : FmuInstanceData) (k : Bytes) (p : ℕ) (causality : Option Bytes)
    → index_rx_tx fmu p (some k) causality
      ≡ some (
          with_binaries fmu
            (entry_if (text_is causality (codes "input")) (some k) p)
            (entry_if (text_is causality (codes "output")) (some k) p))
unfolding index_rx_tx
index_rx_tx-entries fmu k p causality = binary_tests fmu k p _ _ (one_causality causality)

pub index_codec-entries :
    (fmu : FmuInstanceData) (k : Bytes) (encoding : Option Bytes)
    → index_codec fmu (some k) encoding
      ≡ some (
          with_codecs fmu
            (entry_if (text_is encoding (codes "ascii85")) (some k) TextCodec.ascii85))
unfolding index_codec
index_codec-entries fmu k encoding = by_test (text_is encoding (codes "ascii85"))
  where
    by_test :
        (b : Bool)
        → (if b
            then (set_key fmu.encode_func (some k) TextCodec.ascii85 >>= λ e.
                set_key fmu.decode_func (some k) TextCodec.ascii85 >>= λ d.
                some (record fmu { encode_func = e; decode_func = d }))
            else some fmu)
          ≡ some (with_codecs fmu (entry_if b (some k) TextCodec.ascii85))
    by_test true = refl
    by_test false = refl

with_scalars-append :
    (fmu : FmuInstanceData) (a b c d : List (Bytes × ℕ))
    → with_scalars (with_scalars fmu a b) c d ≡ with_scalars fmu (a ++ c) (b ++ d)
with_scalars-append fmu a b c d =
    ap₂ (λ x y. record fmu { scalar_input = x; scalar_output = y })
      (sym (set_all-append fmu.scalar_input a c)) (sym (set_all-append fmu.scalar_output b d))

module _ (xml : XmlApi) where
  abbrev pub vr_of : xml.Node → Option Bytes
  vr_of node = xml.get_prop node (codes "valueReference")

  abbrev pub has_causality : xml.Node → Bytes → Bool
  has_causality node c = text_is (xml.get_prop node (codes "causality")) c

  abbrev pub entry_of : Bytes → xml.Node → ℕ → List (Bytes × ℕ)
  entry_of c node v = entry_if (has_causality node c) (vr_of node) v

  -- The value references of the variables with the causality, each with what `place` gives for the
  -- position of the variable, from position i on.
  abbrev pub entries_from : Bytes → (ℕ → ℕ) → ℕ → List xml.Node → List (Bytes × ℕ)
  entries_from c place i [] = []
  entries_from c place i (node ∷ rest) =
      entry_of c node (place i) ++ entries_from c place (suc i) rest

  abbrev pub encoding_of : xml.Node → Option (Option Bytes)
  encoding_of node =
      parse_tool_anno xml node (codes "dse.standards.fmi-ls-binary-to-text") (codes "encoding")

  abbrev pub codec_if : Option (Option Bytes) → Option Bytes → List (Bytes × TextCodec)
  codec_if none vr = []
  codec_if (some e) vr = entry_if (text_is e (codes "ascii85")) vr TextCodec.ascii85

  -- The value references of the variables with the encoding ascii85.
  abbrev pub ascii85_entries : List xml.Node → List (Bytes × TextCodec)
  ascii85_entries [] = []
  ascii85_entries (node ∷ rest) = codec_if (encoding_of node) (vr_of node) ++ ascii85_entries rest

  -- The variable has a name and a value reference, as the FMI standard demands.
  abbrev pub IsNamed : xml.Node → Type 0
  IsNamed node =
      ((n : Bytes) × (xml.get_prop node (codes "name") ≡ some n))
      × ((k : Bytes) × (vr_of node ≡ some k))

  abbrev pub AnnosNamed : xml.Node → Bytes → Type 0
  AnnosNamed node tool =
      All (λ anno. (n : Bytes) × (xml.get_prop anno (codes "name") ≡ some n))
        (xml.eval_node node (tool_query tool))

  -- And its annotations have names.
  abbrev pub IsAnnotated : xml.Node → Type 0
  IsAnnotated node =
      IsNamed node
      × AnnosNamed node (codes "dse.standards.fmi-ls-binary-to-text")
      × AnnosNamed node (codes "dse.standards.fmi-ls-binary-codec")

  find_anno-Returns :
      (annos : List xml.Node) (name : Bytes)
      → All (λ anno. (n : Bytes) × (xml.get_prop anno (codes "name") ≡ some n)) annos
      → (o : Option Bytes) × (find_anno xml annos name ≡ some o)
  unfolding find_anno
  find_anno-Returns [] name h = (none, refl)
  find_anno-Returns (anno ∷ rest) name ((n, e), h) =
      let (o, r) = find_anno-Returns rest name h in
      elim (Bool-cases (str_eq n name)) [
        | inl t ↦ (xml.get_text anno, rw (e, find_anno, t) refl)
        | inr t ↦ (o, rw (e, find_anno, t) r)
      ]

  pub parse_tool_anno-Returns :
      (node : xml.Node) (tool name : Bytes)
      → AnnosNamed node tool
      → (o : Option Bytes) × (parse_tool_anno xml node tool name ≡ some o)
  unfolding parse_tool_anno
  parse_tool_anno-Returns node tool name h =
      find_anno-Returns (xml.eval_node node (tool_query tool)) name h

  abbrev pub scalars_at : ℕ → ℕ → List xml.Node → FmuInstanceData → FmuInstanceData
  scalars_at base i nodes fmu =
      with_scalars fmu (entries_from (codes "input") (λ k. base + 8 * k) i nodes)
        (entries_from (codes "output") (λ k. base + 8 * k) i nodes)

  abbrev pub ScalarsIndexed : List xml.Node → Indexing → Indexing → Type 0
  ScalarsIndexed nodes s t =
      (t.fmu ≡ scalars_at s.sv.scalar s.sv_idx nodes s.fmu)
      × (t.sv ≡ record s.sv { signal = t.sv.signal })
      × (t.sv_idx ≡ s.sv_idx + length nodes)

  abbrev ScalarIndexed : xml.Node → Indexing → Indexing → Type 0
  ScalarIndexed node s t =
      (t.fmu
        ≡ with_scalars s.fmu (entry_of (codes "input") node (s.sv.scalar + 8 * s.sv_idx))
            (entry_of (codes "output") node (s.sv.scalar + 8 * s.sv_idx)))
      × (t.sv ≡ record s.sv { signal = t.sv.signal })
      × (t.sv_idx ≡ suc s.sv_idx)

  join_scalars :
      (s t u : Indexing) (node : xml.Node) (rest : List xml.Node)
      → ScalarIndexed node s t
      → ScalarsIndexed rest t u
      → ScalarsIndexed (node ∷ rest) s u
  join_scalars s t u node rest (f, v, i) (g, w, j) = (
    g
        ∙ ap₂ (λ b k. scalars_at b k rest t.fmu) (ap (λ (x : FmuSignalVector). x.scalar) v) i
        ∙ ap (scalars_at s.sv.scalar (suc s.sv_idx) rest) f
        ∙ with_scalars-append s.fmu (entry_of (codes "input") node (s.sv.scalar + 8 * s.sv_idx))
            (entry_of (codes "output") node (s.sv.scalar + 8 * s.sv_idx))
            (entries_from (codes "input") (λ k. s.sv.scalar + 8 * k) (suc s.sv_idx) rest)
            (entries_from (codes "output") (λ k. s.sv.scalar + 8 * k) (suc s.sv_idx) rest),
    w ∙ ap (λ (x : FmuSignalVector). record x { signal = u.sv.signal }) v,
    omega (arith, i, j),
  )

  module _ (trace : TraceApi) (create : Bytes → Option NCodecInstance) (env : HashMap Bytes) where
    index_one-scalar :
        (node : xml.Node) (s : Indexing)
        → s.sv_idx < s.sv.count
        → IsNamed node
        → Returns (index_one xml trace create env false node s) (ScalarIndexed node s)
    unfolding index_one index_scalar_variable
    index_one-scalar node s h ((n, e), (k, f)) =
        let t : ltb s.sv_idx s.sv.count ≡ true = ground arith in
        rw (t, e, f)
          (rw
            (scalar_tests s.fmu k (s.sv.scalar + 8 * s.sv_idx) _ _
              (one_causality (xml.get_prop node (codes "causality"))))
            (simp f, refl, refl))

    -- With room in the vector and all named, the variables are indexed, one after the other.
    pub index_list-scalar :
        (nodes : List xml.Node) (s : Indexing)
        → s.sv_idx + length nodes ≤ s.sv.count
        → All IsNamed nodes
        → Returns (index_list xml trace create env false nodes s) (ScalarsIndexed nodes s)
    index_list-scalar [] s h n = (refl, refl, omega arith)
    index_list-scalar (node ∷ rest) s h n =
        Returns-bind (index_one xml trace create env false node s)
          (index_list xml trace create env false rest) (ScalarIndexed node s)
          (ScalarsIndexed (node ∷ rest) s) (index_one-scalar node s (omega (arith, h)) n.0)
          (λ t a.
            Returns-map (index_list xml trace create env false rest t) _ _
              (index_list-scalar rest t
                (omega (arith, h, a.2, ap (λ (v : FmuSignalVector). v.count) a.1)) n.1)
              (λ u b. join_scalars s t u node rest a b))
