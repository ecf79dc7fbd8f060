-- ===== src/Fmu/Variables/Binaries.antt =====
-- The index of the binary variables: their positions, their text encoding, and the vector's arrays.
use dse_fmi.Common.{
  ℕ, suc, ◌+◌, ◌<◌, ◌≤◌, ◌≡◌, refl, sym, ◌∙◌, ap, true, Option, List, [], ◌∷◌, ◌++◌, length,
  length-set, All, Bytes, codes, HashMap, ltb, Returns, Returns-bind, Returns-map, arith,
}
use dse_fmi.Fmu.Instance.{FmuInstanceData, LogMessage, TextCodec}
use dse_fmi.Fmu.Binary.Takes.{OnlyLog}
use dse_fmi.Fmu.Trace.{TraceApi, NCodecInstance}
use dse_fmi.Fmu.Trace.Configure.{fmu_ncodec_open}
use dse_fmi.Fmu.Trace.Quiet.{fmu_ncodec_open-OnlyLog}
use dse_fmi.Fmu.Variables.{XmlApi, FmuSignalVector, Indexing, index_one}
use dse_fmi.Fmu.Variables.Order.{index_list}
use dse_fmi.Fmu.Variables.Indexed.{
  index_rx_tx-entries, index_codec-entries, parse_tool_anno-Returns, codec_if, entry_of,
  entries_from, encoding_of, vr_of, ascii85_entries, IsAnnotated,
}
use dse_fmi.Index.Latest.{set_all, set_all-append}

abbrev pub relog : FmuInstanceData → List LogMessage → FmuInstanceData
relog fmu messages = record fmu { logged = messages }

-- The four maps after the entries.
abbrev pub with_entries :
    FmuInstanceData
    → List (Bytes × ℕ)
    → List (Bytes × ℕ)
    → List (Bytes × TextCodec)
    → FmuInstanceData
with_entries fmu rxs txs codecs = record fmu {
  binary_rx = set_all fmu.binary_rx rxs;
  binary_tx = set_all fmu.binary_tx txs;
  encode_func = set_all fmu.encode_func codecs;
  decode_func = set_all fmu.decode_func codecs;
}

with_entries-append :
    (fmu : FmuInstanceData) (a b c d : List (Bytes × ℕ)) (e f : List (Bytes × TextCodec))
    → with_entries (with_entries fmu a b e) c d f ≡ with_entries fmu (a ++ c) (b ++ d) (e ++ f)
with_entries-append fmu a b c d e f = λ i. record fmu {
  binary_rx = sym (set_all-append fmu.binary_rx a c) i;
  binary_tx = sym (set_all-append fmu.binary_tx b d) i;
  encode_func = sym (set_all-append fmu.encode_func e f) i;
  decode_func = sym (set_all-append fmu.decode_func e f) i;
}

module _ (xml : XmlApi) where
  abbrev pub entries_at : ℕ → List xml.Node → FmuInstanceData → FmuInstanceData
  entries_at i nodes fmu =
      with_entries fmu (entries_from xml (codes "input") (λ k. k) i nodes)
        (entries_from xml (codes "output") (λ k. k) i nodes) (ascii85_entries xml nodes)

  -- The vector keeps its size.
  abbrev SameSize : FmuSignalVector → FmuSignalVector → Type 0
  SameSize v w = (w.count ≡ v.count) × (w.scalar ≡ v.scalar) × (length w.ncodec ≡ length v.ncodec)

  abbrev pub BinariesIndexed : List xml.Node → Indexing → Indexing → Type 0
  BinariesIndexed nodes s t =
      (t.fmu ≡ relog (entries_at s.sv_idx nodes s.fmu) t.fmu.logged)
      × SameSize s.sv t.sv
      × (t.sv_idx ≡ s.sv_idx + length nodes)

  abbrev node_entries : ℕ → xml.Node → FmuInstanceData → FmuInstanceData
  node_entries i node fmu =
      with_entries fmu (entry_of xml (codes "input") node i) (entry_of xml (codes "output") node i)
        (codec_if xml (encoding_of xml node) (vr_of xml node))

  abbrev BinaryIndexed : xml.Node → Indexing → Indexing → Type 0
  BinaryIndexed node s t =
      (t.fmu ≡ relog (node_entries s.sv_idx node s.fmu) t.fmu.logged)
      × SameSize s.sv t.sv
      × (t.sv_idx ≡ suc s.sv_idx)

  join_binaries :
      (s t u : Indexing) (node : xml.Node) (rest : List xml.Node)
      → BinaryIndexed node s t
      → BinariesIndexed rest t u
      → BinariesIndexed (node ∷ rest) s u
  join_binaries s t u node rest (f, (c, l, n), i) (g, (c', l', n'), j) = (
    g
        ∙ ap (λ k. relog (entries_at k rest t.fmu) u.fmu.logged) i
        ∙ ap (λ x. relog (entries_at (suc s.sv_idx) rest x) u.fmu.logged) f
        ∙ ap (λ x. relog x u.fmu.logged)
            (with_entries-append s.fmu (entry_of xml (codes "input") node s.sv_idx)
              (entry_of xml (codes "output") node s.sv_idx)
              (entries_from xml (codes "input") (λ k. k) (suc s.sv_idx) rest)
              (entries_from xml (codes "output") (λ k. k) (suc s.sv_idx) rest)
              (codec_if xml (encoding_of xml node) (vr_of xml node)) (ascii85_entries xml rest)),
    (c' ∙ c, l' ∙ l, n' ∙ n),
    omega (arith, i, j),
  )

  module _ (trace : TraceApi) (create : Bytes → Option NCodecInstance) (env : HashMap Bytes) where
    opened :
        (fmu : FmuInstanceData) (mime_type : Option Bytes)
        → let after = (fmu_ncodec_open trace create env fmu mime_type).1 in
          after ≡ relog fmu after.logged
    unfolding OnlyLog
    opened fmu mime_type = fmu_ncodec_open-OnlyLog trace create env fmu mime_type

    index_one-binary :
        (node : xml.Node) (s : Indexing)
        → s.sv_idx < s.sv.count
        → IsAnnotated xml node
        → Returns (index_one xml trace create env true node s) (BinaryIndexed node s)
    unfolding index_one
    index_one-binary node s h (((n, e), (k, f)), p, q) =
        let t : ltb s.sv_idx s.sv.count ≡ true = ground arith in
        let (o, r) =
          parse_tool_anno-Returns xml node (codes "dse.standards.fmi-ls-binary-to-text")
            (codes "encoding") p in
        let (m, r') =
          parse_tool_anno-Returns xml node (codes "dse.standards.fmi-ls-binary-codec")
            (codes "mimetype") q in
        rw (t, e, f)
          (rw (index_rx_tx-entries s.fmu k s.sv_idx) (
            rw r (
              rw index_codec-entries (
                rw r' (
                  opened _ m ∙ simp (f, r),
                  (refl, refl, length-set s.sv.ncodec s.sv_idx _),
                  refl,
                )))))

    -- With room in the vector and all annotated, the variables are indexed, one after the other.
    pub index_list-binary :
        (nodes : List xml.Node) (s : Indexing)
        → s.sv_idx + length nodes ≤ s.sv.count
        → All (IsAnnotated xml) nodes
        → Returns (index_list xml trace create env true nodes s) (BinariesIndexed nodes s)
    index_list-binary [] s h n = (refl, (refl, refl, refl), omega arith)
    index_list-binary (node ∷ rest) s h n =
        Returns-bind (index_one xml trace create env true node s)
          (index_list xml trace create env true rest) (BinaryIndexed node s)
          (BinariesIndexed (node ∷ rest) s) (index_one-binary node s (omega (arith, h)) n.0)
          (λ t a.
            Returns-map (index_list xml trace create env true rest t) _ _
              (index_list-binary rest t (omega (arith, h, a.2, a.1.0)) n.1)
              (λ u b. join_binaries s t u node rest a b))
