-- ===== src/Fmu/Signals/Tests.antt =====
-- A run of the setup: a document with two scalar variables and a binary one.
use dse_fmi.Common.{
  ◌^◌, ◌<◌, ◌≡◌, refl, Bool, true, false, Option, some, List, [], ◌∷◌, length, Bytes, codes,
  HashMap, hashmap_get, str_eq, ltb, Returns, arith,
}
use dse_fmi.Fmu.Instance.{FmuInstanceData}
use dse_fmi.Fmu.Create.{new_instance}
use dse_fmi.Fmu.Trace.{NCodecInstance}
use dse_fmi.Fmu.Trace.Tests
use dse_fmi.Fmu.Variables.{XmlApi, fmu_variable_count, count_variables}
use dse_fmi.Fmu.Variables.Order.{indexed_variables}
use dse_fmi.Fmu.Variables.Indexed.{ascii85_entries}
use dse_fmi.Fmu.Signals.{SetupApi, default_signals_setup}
use dse_fmi.Fmu.Signals.Prepared.{
  IsDescribed, of_setup, scalar_entries, binary_entries, default_signals_setup-latest,
}
use dse_fmi.Index.Latest.{latest}

pub record Node : Type 0 where
  pub name : Bytes
  pub props : HashMap Bytes
  pub annos : List Bytes
  pub elements : List Bytes

abbrev leaf : Bytes → Node
leaf name = record { name = name; props = (codes "name", name) ∷ []; annos = []; elements = [] }

abbrev leaves : List Bytes → List Node
leaves [] = []
leaves (name ∷ rest) = leaf name ∷ leaves rest

-- The nodes of a document are its variables; the children and annotations of one are leaves, and a
-- text child has no name.
abbrev xml : XmlApi
xml = record {
  Doc = List Node;
  Node = Node;
  eval_doc = λ doc path. some doc;
  eval_node = λ node path. leaves node.annos;
  get_prop = λ node name. hashmap_get node.props name;
  get_text = λ node. some (codes "ascii85");
  children = λ node. leaves node.elements;
  is_element = λ node. ltb 0 (length node.name);
  name = λ node. node.name;
}

abbrev described : Bytes → Bytes → Bytes → List Bytes → List Bytes → Node
described name vr causality annos elements = record {
  name = codes "ScalarVariable";
  props = (codes "name", name) ∷ (codes "valueReference", vr) ∷ (codes "causality", causality) ∷ [];
  annos = annos;
  elements = elements;
}

abbrev nodes : List Node
nodes =
    described (codes "in") (codes "1") (codes "input") [] ([] ∷ codes "Real" ∷ [])
    ∷ described (codes "bus") (codes "6") (codes "output") (codes "encoding" ∷ [])
        (codes "Binary" ∷ codes "Annotations" ∷ [])
    ∷ described (codes "out") (codes "2") (codes "output") [] (codes "Float64" ∷ [])
    ∷ []

abbrev setup : SetupApi xml
setup = record {
  path_max = 4096;
  parse_file = λ path. some nodes;
  scalar = 1000;
  ntl = λ l. l;
  ntl_eq = λ l. refl;
}

abbrev create : Bytes → Option NCodecInstance
create mime_type = some Tests.codec

abbrev fmu : FmuInstanceData
unfolding new_instance
fmu = new_instance (codes "fmu") (codes "resources") false

counts : (fmu_variable_count xml nodes false ≡ 2) × (fmu_variable_count xml nodes true ≡ 1)
unfolding fmu_variable_count str_eq
counts = (refl, refl)

few : (is_binary : Bool) → count_variables xml is_binary nodes < 2 ^ 32
unfolding count_variables str_eq
few true = omega arith
few false = omega arith

is_described : IsDescribed xml setup Tests.api create Tests.env fmu nodes nodes
unfolding hashmap_get str_eq new_instance
is_described = record {
  parsed = refl;
  found = refl;
  few = few;
  scalars =
      (((codes "in", refl), (codes "1", refl)), (((codes "out", refl), (codes "2", refl)), tt));
  binaries = (
    (
      ((codes "bus", refl), (codes "6", refl)),
      ((codes "encoding", refl), tt),
      ((codes "encoding", refl), tt),
    ),
    tt,
  );
  allocated = λ e. absurd (omega (arith, e));
}

default_signals_setup-latest_example :
    Returns (default_signals_setup xml setup Tests.api create Tests.env fmu) (λ (f, svs).
      ((k : Bytes)
        → hashmap_get f.scalar_input k
          ≡ latest k
              (scalar_entries xml setup (codes "input") nodes)
              (hashmap_get fmu.scalar_input k))
      × ((k : Bytes)
          → hashmap_get f.scalar_output k
            ≡ latest k
                (scalar_entries xml setup (codes "output") nodes)
                (hashmap_get fmu.scalar_output k))
      × ((k : Bytes)
          → hashmap_get f.binary_rx k
            ≡ latest k
                (binary_entries xml setup (codes "input") nodes)
                (hashmap_get fmu.binary_rx k))
      × ((k : Bytes)
          → hashmap_get f.binary_tx k
            ≡ latest k
                (binary_entries xml setup (codes "output") nodes)
                (hashmap_get fmu.binary_tx k))
      × ((k : Bytes)
          → (hashmap_get f.encode_func k
              ≡ latest k
                  (ascii85_entries xml (indexed_variables xml true nodes))
                  (hashmap_get fmu.encode_func k))
            × (hashmap_get f.decode_func k
                ≡ latest k
                    (ascii85_entries xml (indexed_variables xml true nodes))
                    (hashmap_get fmu.decode_func k)))
      × (f ≡ of_setup fmu f))
default_signals_setup-latest_example =
    default_signals_setup-latest xml setup Tests.api create Tests.env fmu nodes nodes is_described
