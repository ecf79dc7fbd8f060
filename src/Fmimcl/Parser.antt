-- ===== src/Fmimcl/Parser.antt =====
-- dse/fmimcl/parser.c: from the nodes of the YAML signal groups to the sorted list of FMU signals.
-- The YAML library (dse.clib) is the parameter `YamlApi`.
pub mod Order
pub mod Parsed
use dse_fmi.Common.{
  ℕ, ◌≡◌, Bool, ◌&&◌, Option, none, some, List, [], ◌∷◌, ◌++◌, foldl, Bytes, codes, str_eq, ◌==◌,
  if◌then◌else◌,
}
use dse_fmi.Common.Buckets.{count_up}
use dse_fmi.Fmimcl.Signals.{MarshalApi, FmuSignal, dir_order}

-- What the parser calls of dse.clib/util/yaml.h, on the nodes of one document.
pub record YamlApi : Type 1 where
  pub Node : Type 0
  pub find_scalar : Node → Bytes → Option Bytes
  pub get_string : Node → Bytes → Option Bytes
  pub get_uint : Node → Bytes → Option ℕ

-- The condition of the innermost loop of the sort.
unfoldable pub in_group : ℕ → ℕ → ℕ → FmuSignal → Bool
in_group kind type dir s =
    s.variable_kind == kind && s.variable_dir == dir && s.variable_type == type

module _ (m : MarshalApi) where
  unfoldable pub decode_var_kind : Option Bytes → ℕ
  decode_var_kind none = m.kind_none
  decode_var_kind (some t) =
      if str_eq t (codes "Real")
      then m.kind_primitive
      else if str_eq t (codes "Integer")
      then m.kind_primitive
      else if str_eq t (codes "Boolean")
      then m.kind_primitive
      else if str_eq t (codes "String")
      then m.kind_binary
      else m.kind_none

  unfoldable pub decode_var_type : Option Bytes → ℕ
  decode_var_type none = m.type_none
  decode_var_type (some t) =
      if str_eq t (codes "Real")
      then m.type_double
      else if str_eq t (codes "Integer")
      then m.type_int32
      else if str_eq t (codes "Boolean")
      then m.type_bool
      else if str_eq t (codes "String")
      then m.type_string
      else m.type_none

  unfoldable pub decode_var_dir : Option Bytes → ℕ
  decode_var_dir none = m.dir_txrx
  decode_var_dir (some t) =
      if str_eq t (codes "input")
      then m.dir_txonly
      else if str_eq t (codes "output")
      then m.dir_rxonly
      else if str_eq t (codes "inout")
      then m.dir_txrx
      else if str_eq t (codes "parameter")
      then m.dir_parameter
      else if str_eq t (codes "local")
      then m.dir_local
      else m.dir_none

  -- The four nested loops: for each kind, each type, each direction of mDirOrder, the signals.
  unfoldable pub sort_by_marshal_group : List FmuSignal → List FmuSignal
  unfolding in_group
  sort_by_marshal_group signal_list =
      foldl
        (λ sorted kind.
          foldl
            (λ sorted type.
              foldl
                (λ sorted dir.
                  foldl (λ sorted s. if in_group kind type dir s then sorted ++ s ∷ [] else sorted)
                    sorted signal_list)
                sorted (dir_order m))
            sorted (count_up 0 m.type_size))
        [] (count_up 0 m.kind_size)

module _ (m : MarshalApi) (y : YamlApi) where
  open y use {Node, find_scalar, get_string, get_uint}

  -- calloc'ed: what the document does not give stays 0 or NULL.
  abbrev or_zero : Option ℕ → ℕ
  or_zero none = 0
  or_zero (some v) = v

  -- The signal object of a node that has a name.
  unfoldable pub fmu_signal : Node → Bytes → FmuSignal
  fmu_signal n name = record {
    name = name;
    variable_vref = or_zero (get_uint n (codes "annotations/fmi_variable_vref"));
    variable_name = get_string n (codes "annotations/fmi_variable_name");
    variable_kind = decode_var_kind m (get_string n (codes "annotations/fmi_variable_type"));
    variable_dir = decode_var_dir m (get_string n (codes "annotations/fmi_variable_causality"));
    variable_type = decode_var_type m (get_string n (codes "annotations/fmi_variable_type"));
    variable_annotation_encoding =
        get_string n
          (codes "annotations/fmi_annotations/dse.standards.fmi-ls-binary-to-text.encoding");
  }

  named_signal : Node → Option Bytes → Option FmuSignal
  named_signal n none = none
  named_signal n (some name) = some (fmu_signal n name)

  unfoldable pub fmu_signal_generator : Node → Option FmuSignal
  unfolding named_signal
  fmu_signal_generator n = named_signal n (find_scalar n (codes "signal"))

  -- The enumeration over the nodes of `spec/signals`; it ends at the first node that yields no
  -- signal.
  unfoldable pub variable_match_handler : List Node → List FmuSignal → List FmuSignal
  variable_match_handler [] s_list = s_list
  variable_match_handler (n ∷ ns) s_list = elim (fmu_signal_generator n) [
    | none ↦ s_list
    | some s ↦ variable_match_handler ns (s_list ++ s ∷ [])
  ]

  -- The signals of the first signal group with label channel: signal_vector, then of the first with
  -- network_vector (a group that is not there is the empty list), sorted.
  unfoldable pub parse_signals : List Node → List Node → List FmuSignal
  parse_signals scalar_group network_group =
      sort_by_marshal_group m
        (variable_match_handler network_group (variable_match_handler scalar_group []))
