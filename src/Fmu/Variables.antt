-- ===== src/Fmu/Variables.antt =====
-- dse/fmu/fmi2variable.c: the index of the variables of modelDescription.xml. libxml is a parameter:
-- what its XPath queries give, and the properties and children of a node. `none` is a NULL property or
-- text, and, as the result of a function, a NULL text that is compared, copied or used as a key, or
-- the failed assertion of fmu_variable_index.
pub mod Order
pub mod Indexed
pub mod Binaries
use dse_fmi.Common.{
  ℕ, zero, suc, ◌+◌, ◌*◌, Bool, true, false, ◌&&◌, ◌||◌, Option, none, some, List, [], ◌∷◌, ◌++◌,
  set, Bytes, codes, str_eq, HashMap, hashmap_set, ltb, if◌then◌else◌, ◌>>=◌,
}
use dse_fmi.Fmu.Instance.{FmuInstanceData, TextCodec}
use dse_fmi.Fmu.Trace.{TraceApi, NCodecInstance}
use dse_fmi.Fmu.Trace.Configure.{fmu_ncodec_open}

-- The node set of a result is not NULL.
pub record XmlApi : Type 1 where
  pub Doc : Type 0
  pub Node : Type 0
  pub eval_doc : Doc → Bytes → Option (List Node)
  pub eval_node : Node → Bytes → List Node
  pub get_prop : Node → Bytes → Option Bytes
  pub get_text : Node → Option Bytes
  pub children : Node → List Node
  pub is_element : Node → Bool
  pub name : Node → Bytes

-- struct FmuSignalVector; 0 is a NULL array of scalars. The arrays of the binary signals are the
-- `binaries` of the instance.
pub record FmuSignalVector : Type 0 where
  pub count : ℕ
  pub signal : List (Option Bytes)
  pub scalar : ℕ
  pub mime_type : List (Option Bytes)
  pub ncodec : List (Option NCodecInstance)

-- What fmu_variable_index changes.
pub record Indexing : Type 0 where
  pub fmu : FmuInstanceData
  pub sv : FmuSignalVector
  pub sv_idx : ℕ

-- FMI2_SCALAR_XPATH
abbrev pub scalar_xpath : Bytes
scalar_xpath = codes "/fmiModelDescription/ModelVariables/ScalarVariable"

abbrev pub is_scalar_var : Bytes → Bool
is_scalar_var name =
    str_eq name (codes "Real")
    || str_eq name (codes "Integer")
    || str_eq name (codes "Boolean")
    || str_eq name (codes "Float64")

abbrev pub is_binary_var : Bytes → Bool
is_binary_var name = str_eq name (codes "String") || str_eq name (codes "Binary")

-- xmlStrcmp(text, c) == 0
abbrev pub text_is : Option Bytes → Bytes → Bool
text_is none c = false
text_is (some t) c = str_eq t c

-- A map after hashmap_set with a key that may be NULL.
abbrev pub set_key : {V : Type 0} → HashMap V → Option Bytes → V → Option (HashMap V)
set_key m none v = none
set_key m (some k) v = some (hashmap_set m k v)

unfoldable pub index_scalar_variable :
    FmuInstanceData → FmuSignalVector → ℕ → Option Bytes → Option Bytes → Option FmuInstanceData
index_scalar_variable fmu sv sv_idx vr causality =
    if text_is causality (codes "output")
    then (do
      m ← set_key fmu.scalar_output vr (sv.scalar + 8 * sv_idx)
      some (record fmu { scalar_output = m }))
    else if text_is causality (codes "input")
    then (do
      m ← set_key fmu.scalar_input vr (sv.scalar + 8 * sv_idx)
      some (record fmu { scalar_input = m }))
    else some fmu

-- The index entry of a binary variable, which stands for the pair of the vector and the position.
unfoldable pub index_rx_tx :
    FmuInstanceData → ℕ → Option Bytes → Option Bytes → Option FmuInstanceData
index_rx_tx fmu sv_idx vr causality =
    if text_is causality (codes "output")
    then (do m ← set_key fmu.binary_tx vr sv_idx; some (record fmu { binary_tx = m }))
    else if text_is causality (codes "input")
    then (do m ← set_key fmu.binary_rx vr sv_idx; some (record fmu { binary_rx = m }))
    else some fmu

unfoldable pub index_codec : FmuInstanceData → Option Bytes → Option Bytes → Option FmuInstanceData
index_codec fmu vr encoding =
    if text_is encoding (codes "ascii85")
    then (do
      e ← set_key fmu.encode_func vr TextCodec.ascii85
      d ← set_key fmu.decode_func vr TextCodec.ascii85
      some (record fmu { encode_func = e; decode_func = d }))
    else some fmu

abbrev pub tool_query : Bytes → Bytes
tool_query tool = codes "Annotations/Tool[@name='" ++ (tool ++ codes "']/Annotation")

module _ (xml : XmlApi) where
  abbrev pub is_var : Bool → xml.Node → Bool
  is_var is_binary child =
      if is_binary then is_binary_var (xml.name child) else is_scalar_var (xml.name child)

  unfoldable pub count_children : Bool → List xml.Node → ℕ
  count_children is_binary [] = 0
  count_children is_binary (child ∷ rest) =
      let others = count_children is_binary rest in
      if xml.is_element child && is_var is_binary child then suc others else others

  unfoldable pub count_variables : Bool → List xml.Node → ℕ
  unfolding count_children
  count_variables is_binary [] = 0
  count_variables is_binary (node ∷ rest) =
      count_children is_binary (xml.children node) + count_variables is_binary rest

  unfoldable pub fmu_variable_count : xml.Doc → Bool → ℕ
  unfolding count_variables
  fmu_variable_count doc is_binary = elim (xml.eval_doc doc scalar_xpath) [
    | none ↦ 0
    | some nodes ↦ count_variables is_binary nodes
  ]

  -- The loop over the annotations; the inner Option is the text, which may be NULL.
  unfoldable pub find_anno : List xml.Node → Bytes → Option (Option Bytes)
  find_anno [] name = some none
  find_anno (anno ∷ rest) name =
      let others = find_anno rest name in
      elim (xml.get_prop anno (codes "name")) [
        | none ↦ none
        | some n ↦ if str_eq n name then some (xml.get_text anno) else others
      ]

  unfoldable pub parse_tool_anno : xml.Node → Bytes → Bytes → Option (Option Bytes)
  unfolding find_anno
  parse_tool_anno node tool name = find_anno (xml.eval_node node (tool_query tool)) name

  -- The codec library's ncodec_create, and the environment, which fmu_ncodec_open reads.
  module _ (trace : TraceApi) (create : Bytes → Option NCodecInstance) (env : HashMap Bytes) where
    abbrev pub open_codec : FmuInstanceData → FmuSignalVector → ℕ → Option Bytes → Indexing
    open_codec fmu sv sv_idx mime_type =
        let (nc, after) = fmu_ncodec_open trace create env fmu mime_type in
        record {
          fmu = after;
          sv = record sv {
            mime_type = set sv.mime_type sv_idx mime_type;
            ncodec = set sv.ncodec sv_idx nc;
          };
          sv_idx = sv_idx;
        }

    unfoldable pub index_binary_variable :
        FmuInstanceData
        → FmuSignalVector
        → ℕ
        → xml.Node
        → Option Bytes
        → Option Bytes
        → Option Indexing
    index_binary_variable fmu sv sv_idx node vr causality = do
      placed ← index_rx_tx fmu sv_idx vr causality
      encoding ←
          parse_tool_anno node (codes "dse.standards.fmi-ls-binary-to-text") (codes "encoding")
      coded ← index_codec placed vr encoding
      mime_type ←
          parse_tool_anno node (codes "dse.standards.fmi-ls-binary-codec") (codes "mimetype")
      some (open_codec coded sv sv_idx mime_type)

    abbrev pub with_name : FmuSignalVector → ℕ → Bytes → FmuSignalVector
    with_name sv sv_idx name = record sv { signal = set sv.signal sv_idx (some name) }

    abbrev pub index_by_type :
        Bool → Indexing → FmuSignalVector → xml.Node → Option Bytes → Option Bytes → Option Indexing
    index_by_type true s sv node vr causality =
        index_binary_variable s.fmu sv s.sv_idx node vr causality
    index_by_type false s sv node vr causality = do
      fmu ← index_scalar_variable s.fmu sv s.sv_idx vr causality
      some (record { fmu = fmu; sv = sv; sv_idx = s.sv_idx })

    abbrev pub next_index : Indexing → Indexing
    next_index s = record s { sv_idx = suc s.sv_idx }

    -- From the assertion to the increment.
    unfoldable pub index_one : Bool → xml.Node → Indexing → Option Indexing
    unfolding index_binary_variable index_scalar_variable
    index_one is_binary node s =
        if ltb s.sv_idx s.sv.count
        then (do
          name ← xml.get_prop node (codes "name")
          t ←
              index_by_type is_binary s (with_name s.sv s.sv_idx name) node
                (xml.get_prop node (codes "valueReference")) (xml.get_prop node (codes "causality"))
          some (next_index t))
        else none

    -- The loop over the children of a variable; an element of another type ends it.
    unfoldable pub index_children : Bool → xml.Node → List xml.Node → Indexing → Option Indexing
    unfolding index_one
    index_children is_binary node [] s = some s
    index_children is_binary node (child ∷ rest) s =
        let skipped = index_children is_binary node rest s in
        let indexed = (index_one is_binary node s >>= λ t. index_children is_binary node rest t) in
        if xml.is_element child
        then (if is_var is_binary child then indexed else some s)
        else skipped

    unfoldable pub index_nodes : Bool → List xml.Node → Indexing → Option Indexing
    unfolding index_children
    index_nodes is_binary [] s = some s
    index_nodes is_binary (node ∷ rest) s = do
      t ← index_children is_binary node (xml.children node) s
      index_nodes is_binary rest t

    unfoldable pub fmu_variable_index :
        xml.Doc → FmuInstanceData → FmuSignalVector → Bool → Option Indexing
    unfolding index_nodes
    fmu_variable_index doc fmu sv is_binary =
        let start : Indexing = record { fmu = fmu; sv = sv; sv_idx = 0 } in
        elim (xml.eval_doc doc scalar_xpath) [
          | none ↦ some start
          | some nodes ↦ index_nodes is_binary nodes start
        ]
