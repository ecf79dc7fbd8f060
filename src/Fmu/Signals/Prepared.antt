-- ===== src/Fmu/Signals/Prepared.antt =====
-- What fmu_default_signals_setup prepares for the FMI functions.
use dse_fmi.Common.{
  ◌^◌, Bool, ℕ, ◌+◌, ◌*◌, ◌<◌, ◌≤◌, ◌≡◌, ◌≢◌, sym, ◌∙◌, ap, true, false, Option, none, some, List,
  [], ◌∷◌, length, All, Bytes, codes, HashMap, hashmap_get, Returns, Returns-bind, Returns-map,
}
use Prim.Native.Nat.{max}
use dse_fmi.Fmu.Instance.{FmuInstanceData, BinaryVariable, TextCodec}
use dse_fmi.Fmu.Binary.{TextApi}
use dse_fmi.Fmu.Binary.Takes.{IsSound}
use dse_fmi.Fmu.Trace.{TraceApi, NCodecInstance}
use dse_fmi.Fmu.Variables.{XmlApi, FmuSignalVector, scalar_xpath, count_variables}
use dse_fmi.Fmu.Variables.Order.{indexed_variables}
use dse_fmi.Fmu.Variables.Indexed.{entries_from, ascii85_entries, IsNamed, IsAnnotated, scalars_at}
use dse_fmi.Fmu.Variables.Binaries.{entries_at, relog}
use dse_fmi.Fmu.Signals.Vectors.{BothParts, both_allocated}
use dse_fmi.Fmu.Signals.{SetupApi, binaries_of, xml_path, default_signals_setup}
use dse_fmi.Index.Latest.{latest, hashmap_get-set_all}

abbrev rebinary : FmuInstanceData → List BinaryVariable → FmuInstanceData
rebinary fmu binaries = record fmu { binaries = binaries }

-- The instance with what the setup may change taken from another.
abbrev pub of_setup : FmuInstanceData → FmuInstanceData → FmuInstanceData
of_setup fmu f = record fmu {
  scalar_input = f.scalar_input;
  scalar_output = f.scalar_output;
  binary_rx = f.binary_rx;
  binary_tx = f.binary_tx;
  encode_func = f.encode_func;
  decode_func = f.decode_func;
  binaries = f.binaries;
  logged = f.logged;
}

module _ (text : TextApi) where
  -- The bytes of the values together, each as long as it is or as its decoding is.
  abbrev pub total : List (ℕ × Option Bytes) → ℕ
  total [] = 0
  total ((vr, none) ∷ values) = total values
  total ((vr, some value) ∷ values) =
      max (length value) (length (text.decode TextCodec.ascii85 value)) + total values

module _ (xml : XmlApi) (api : SetupApi xml) where
  abbrev pub scalar_entries : Bytes → List xml.Node → List (Bytes × ℕ)
  scalar_entries c nodes =
      entries_from xml c (λ i. api.scalar + 8 * i) 0 (indexed_variables xml false nodes)

  abbrev pub binary_entries : Bytes → List xml.Node → List (Bytes × ℕ)
  binary_entries c nodes = entries_from xml c (λ i. i) 0 (indexed_variables xml true nodes)

module _ (xml : XmlApi) (api : SetupApi xml) (trace : TraceApi)
    (create : Bytes → Option NCodecInstance) (env : HashMap Bytes) where
  -- The document of the instance, and that its variables are complete.
  pub record IsDescribed (fmu : FmuInstanceData) (doc : xml.Doc) (nodes : List xml.Node)
      : Type 0 where
    pub parsed : api.parse_file (xml_path xml api trace create env fmu) ≡ some doc
    pub found : xml.eval_doc doc scalar_xpath ≡ some nodes
    pub few : (is_binary : Bool) → count_variables xml is_binary nodes < 2 ^ 32
    pub scalars : All (IsNamed xml) (indexed_variables xml false nodes)
    pub binaries : All (IsAnnotated xml) (indexed_variables xml true nodes)
    pub allocated : api.scalar ≢ 0

  abbrev IsSetUp : FmuInstanceData → List xml.Node → FmuInstanceData × List FmuSignalVector → Type 0
  IsSetUp fmu nodes r =
      (r.0
        ≡ rebinary
            (relog
              (entries_at xml 0 (indexed_variables xml true nodes)
                (scalars_at xml api.scalar 0 (indexed_variables xml false nodes) fmu))
              r.0.logged)
            r.0.binaries)
      × All IsSound r.0.binaries
      × (length (indexed_variables xml true nodes) ≤ length r.0.binaries)

  setup-IsSetUp :
      (fmu : FmuInstanceData) (doc : xml.Doc) (nodes : List xml.Node)
      → IsDescribed fmu doc nodes
      → Returns (default_signals_setup xml api trace create env fmu) (IsSetUp fmu nodes)
  unfolding default_signals_setup
  setup-IsSetUp fmu doc nodes d = rw d.parsed (
      Returns-bind _ _ (BothParts xml api trace create env doc nodes d.found fmu) _
        (both_allocated xml api trace create env doc nodes d.found fmu d.few d.allocated d.scalars
          d.binaries)
        (λ r b. (ap (λ x. rebinary x (binaries_of r.1)) b.0, b.1, b.2)))

  -- For an instance whose document is parsed, has fewer than 2^32 variables, and has a name and a value reference for each variable
  -- that is indexed, and a name for each of its annotations, fmu_default_signals_setup ends, and no
  -- assertion fails. A value reference then leads to the double whose position in the array of
  -- scalars is that of the latest scalar variable with it among the scalar variables, or to what it
  -- led to before, in the map of inputs for the causality input, and in that of outputs for output;
  -- likewise to the position of the latest binary variable in the maps of received and transmitted
  -- variables; it has the ASCII85 encoder and decoder if a binary variable with it has that encoding,
  -- or what it had before; and nothing but these maps, the vector of binary variables and the log
  -- changes.
  pub default_signals_setup-latest :
      (fmu : FmuInstanceData) (doc : xml.Doc) (nodes : List xml.Node)
      → IsDescribed fmu doc nodes
      → Returns (default_signals_setup xml api trace create env fmu) (λ (f, svs).
        ((k : Bytes)
          → hashmap_get f.scalar_input k
            ≡ latest k
                (scalar_entries xml api (codes "input") nodes)
                (hashmap_get fmu.scalar_input k))
        × ((k : Bytes)
            → hashmap_get f.scalar_output k
              ≡ latest k
                  (scalar_entries xml api (codes "output") nodes)
                  (hashmap_get fmu.scalar_output k))
        × ((k : Bytes)
            → hashmap_get f.binary_rx k
              ≡ latest k
                  (binary_entries xml api (codes "input") nodes)
                  (hashmap_get fmu.binary_rx k))
        × ((k : Bytes)
            → hashmap_get f.binary_tx k
              ≡ latest k
                  (binary_entries xml api (codes "output") nodes)
                  (hashmap_get fmu.binary_tx k))
        × ((k : Bytes)
            → (hashmap_get f.encode_func k
                ≡ latest k
                    (ascii85_entries xml (indexed_variables xml true nodes))
                    (hashmap_get fmu.encode_func k))
              × (hashmap_get f.decode_func k
                  ≡ latest k
                      (ascii85_entries xml (indexed_variables xml true nodes))
                      (hashmap_get fmu.decode_func k)))
        × (f ≡ of_setup fmu f))
  default_signals_setup-latest fmu doc nodes d =
      Returns-map (default_signals_setup xml api trace create env fmu) (IsSetUp fmu nodes) _
        (setup-IsSetUp fmu doc nodes d)
        (λ r (e, s, l). (
          (λ k.
              ap (λ x. hashmap_get x.scalar_input k) e
              ∙ hashmap_get-set_all fmu.scalar_input (scalar_entries xml api (codes "input") nodes)
                  k),
          (λ k.
              ap (λ x. hashmap_get x.scalar_output k) e
              ∙ hashmap_get-set_all fmu.scalar_output
                  (scalar_entries xml api (codes "output") nodes) k),
          (λ k.
              ap (λ x. hashmap_get x.binary_rx k) e
              ∙ hashmap_get-set_all fmu.binary_rx (binary_entries xml api (codes "input") nodes) k),
          (λ k.
              ap (λ x. hashmap_get x.binary_tx k) e
              ∙ hashmap_get-set_all fmu.binary_tx (binary_entries xml api (codes "output") nodes)
                  k),
          (λ k. (
            ap (λ x. hashmap_get x.encode_func k) e
                ∙ hashmap_get-set_all fmu.encode_func
                    (ascii85_entries xml (indexed_variables xml true nodes)) k,
            ap (λ x. hashmap_get x.decode_func k) e
                ∙ hashmap_get-set_all fmu.decode_func
                    (ascii85_entries xml (indexed_variables xml true nodes)) k,
          )),
          e ∙ sym (ap (of_setup fmu) e),
        ))
