-- ===== src/Fmimcl/Tests.antt =====
-- The parser and the engine at concrete signal groups (those of tests/cmocka/fmimcl).
use mathlib.Core.List.{Perm}
use dse_fmi.Common.{
  ℕ, ◌+◌, ◌-◌, ◌≡◌, refl, none, some, ◌++◌, ◌==◌, if◌then◌else◌, List, [], ◌∷◌, map, Bytes, HashMap,
  codes, str_eq, hashmap_get, Pairs, arith, Returns,
}
use dse_fmi.Fmimcl.Signals.{MarshalApi, IsEnum}
use dse_fmi.Fmimcl.Parser.{
  YamlApi, variable_match_handler, fmu_signal_generator, fmu_signal, sort_by_marshal_group,
  parse_signals, decode_var_kind, decode_var_type, decode_var_dir,
}
use dse_fmi.Fmimcl.Parser.Order.{Before}
use dse_fmi.Fmimcl.Parser.Parsed.{parse_signals-perm}
use dse_fmi.Fmimcl.Engine.{MarshalGroup, FmuData, generate_marshal_table}
use dse_fmi.Fmimcl.Adapter.{Fmi2Api, ebadmsg, is_read, get_group, marshal_in}
use dse_fmi.Fmimcl.Adapter.Reads.{
  IsPure, IsSource, refreshed, imported, marshal_in-refreshed, marshal_in-stops,
}
use dse_fmi.Fmimcl.Adapter.Assign.{assign}
use dse_fmi.Fmimcl.Engine.Table.{HaveRefRoom, Partitions, generate_marshal_table-Partitions}
use dse_fmi.Fmimcl.Engine.Distinct.{OtherGroup, parse_signals-OtherGroup}

-- The values that the marshal group names of test_engine.c show, with free ones for the rest.
abbrev enum : MarshalApi
enum = record {
  kind_none = 0;
  kind_primitive = 1;
  kind_binary = 2;
  kind_size = 3;
  dir_none = 0;
  dir_txrx = 1;
  dir_rxonly = 2;
  dir_txonly = 3;
  dir_local = 5;
  dir_parameter = 4;
  type_none = 0;
  type_double = 10;
  type_int32 = 7;
  type_bool = 15;
  type_string = 16;
  type_size = 17;
  type_bytes = λ t. if t == 0 then 0 else (if t == 7 then 4 else 8);
}

enum-IsEnum : IsEnum enum
enum-IsEnum = record {
  kinds_distinct = omega arith;
  kind_none_below = omega arith;
  kind_primitive_below = omega arith;
  kind_binary_below = omega arith;
  dirs_distinct = omega arith;
  type_none_below = omega arith;
  type_double_below = omega arith;
  type_int32_below = omega arith;
  type_bool_below = omega arith;
  type_string_below = omega arith;
}

-- A node is its scalars by path, and its value reference.
abbrev yaml : YamlApi
yaml = record {
  Node = HashMap Bytes × ℕ;
  find_scalar = λ n k. hashmap_get n.0 k;
  get_string = λ n k. hashmap_get n.0 k;
  get_uint = λ n k. some n.1;
}

abbrev node : Bytes → Bytes → Bytes → ℕ → HashMap Bytes × ℕ
node name type causality vref = (
  (codes "signal", name)
      ∷ (codes "annotations/fmi_variable_type", type)
      ∷ (codes "annotations/fmi_variable_causality", causality)
      ∷ [],
  vref,
)

abbrev scalar_group : List (HashMap Bytes × ℕ)
scalar_group =
    node (codes "a") (codes "Real") (codes "input") 0
    ∷ node (codes "b") (codes "Integer") (codes "output") 3
    ∷ node (codes "c") (codes "Real") (codes "input") 5
    ∷ []

abbrev network_group : List (HashMap Bytes × ℕ)
network_group = node (codes "d") (codes "String") (codes "output") 101 ∷ []

sorted_names :
    map (λ s. s.name) (parse_signals enum yaml scalar_group network_group)
    ≡ codes "b" ∷ codes "a" ∷ codes "c" ∷ codes "d" ∷ []
unfolding parse_signals sort_by_marshal_group variable_match_handler fmu_signal_generator fmu_signal
    decode_var_kind decode_var_type decode_var_dir str_eq hashmap_get
sorted_names = refl

parse_signals-perm_example :
    Perm (parse_signals enum yaml scalar_group network_group) (
      variable_match_handler enum yaml network_group
        (variable_match_handler enum yaml scalar_group []))
    × Pairs (Before enum) (parse_signals enum yaml scalar_group network_group)
parse_signals-perm_example = parse_signals-perm enum enum-IsEnum yaml scalar_group network_group

parsed-HaveRefRoom : HaveRefRoom enum (parse_signals enum yaml scalar_group network_group)
unfolding parse_signals sort_by_marshal_group variable_match_handler fmu_signal_generator fmu_signal
    decode_var_kind decode_var_type decode_var_dir str_eq hashmap_get
parsed-HaveRefRoom = omega arith

parse_signals-OtherGroup_example :
    Returns
      (generate_marshal_table enum (parse_signals enum yaml scalar_group network_group))
      (Pairs (OtherGroup enum))
parse_signals-OtherGroup_example =
    parse_signals-OtherGroup enum enum-IsEnum yaml scalar_group network_group parsed-HaveRefRoom

generate_marshal_table-Partitions_example :
    Returns
      (generate_marshal_table enum (parse_signals enum yaml scalar_group network_group))
      (Partitions (parse_signals enum yaml scalar_group network_group))
generate_marshal_table-Partitions_example =
    generate_marshal_table-Partitions enum (parse_signals enum yaml scalar_group network_group)
      parsed-HaveRefRoom

-- An FMU that is a memory: its state gives the value for a type and a reference. Strings cannot be
-- read.
abbrev get_memory : ℕ → (ℕ → ℕ → ℕ) → List ℕ → ℕ → List ℕ → ℕ × List ℕ × (ℕ → ℕ → ℕ)
get_memory type i r n v = (0, map (i type) r, i)

abbrev set_memory : ℕ → (ℕ → ℕ → ℕ) → List ℕ → ℕ → List ℕ → ℕ × (ℕ → ℕ → ℕ)
set_memory type i r n v = (0, λ t q. if t == type then assign r v (i t) q else i t q)

abbrev memory : Fmi2Api
memory = record {
  Inst = ℕ → ℕ → ℕ;
  instantiate = some (λ t q. q);
  enter_initialization = λ i. (0, i);
  exit_initialization = λ i. (0, i);
  get_real = get_memory 10;
  get_integer = get_memory 7;
  get_boolean = get_memory 15;
  get_string = λ i r n v. (3, v, i);
  set_real = set_memory 10;
  set_integer = set_memory 7;
  set_boolean = set_memory 15;
  set_string = set_memory 16;
  do_step = λ i t h. (0, i);
  minus = λ a b. a - b;
  marshal_group_in = λ d. record d { scalar = 1 ∷ [] };
  marshal_group_out = λ d. d;
}

abbrev group : ℕ → ℕ → List ℕ → List ℕ → MarshalGroup
group dir type ref ptr = record {
  kind = 1;
  dir = dir;
  type = type;
  count = 2;
  offset = 0;
  ref = ref;
  ptr = ptr;
  binary_len = none;
  string_encode = none;
  string_decode = none;
}

abbrev model_data : List MarshalGroup → FmuData
model_data groups = record {
  count = 4;
  name = [];
  scalar = [];
  binary_len = [];
  kind = [];
  mg_table = groups;
}

-- Inputs, and outputs.
abbrev reals : MarshalGroup
reals = group 3 10 (1 ∷ 2 ∷ []) (30 ∷ 40 ∷ [])

abbrev integers : MarshalGroup
integers = group 2 7 (1 ∷ 5 ∷ []) (0 ∷ 0 ∷ [])

abbrev strings : MarshalGroup
strings = group 2 16 (8 ∷ 9 ∷ []) (0 ∷ 0 ∷ [])

abbrev state : ℕ → ℕ → ℕ
state t q = t + q

memory-IsPure : IsPure memory enum
memory-IsPure = record {
  real = λ i r n v. refl;
  integer = λ i r n v. refl;
  boolean = λ i r n v. refl;
  string = λ i r n v. refl;
}

-- The same FMU with strings that can be read.
abbrev readable : Fmi2Api
readable = record memory { get_string = get_memory 16 }

readable-IsSource : IsSource readable enum (λ i. i)
readable-IsSource = record {
  real = λ i r n v e. refl;
  integer = λ i r n v e. refl;
  boolean = λ i r n v e. refl;
  string = λ i r n v e. refl;
}

marshal_in-refreshed_example :
    marshal_in readable enum (model_data (reals ∷ integers ∷ strings ∷ [])) state ≡ (
      0,
      readable.marshal_group_in (
          model_data
            (map (imported readable enum (λ i. i) state) (reals ∷ integers ∷ strings ∷ []))),
      state,
    )
marshal_in-refreshed_example =
    marshal_in-refreshed readable enum (λ i. i) (model_data (reals ∷ integers ∷ strings ∷ [])) state
      readable-IsSource (refl, (refl, (refl, tt)))

marshal_in-stops_example :
    marshal_in memory enum (model_data (integers ∷ strings ∷ reals ∷ [])) state ≡ (
      ebadmsg,
      model_data (
          map (refreshed memory enum state) (integers ∷ [])
          ++ refreshed memory enum state strings ∷ reals ∷ []),
      state,
    )
unfolding is_read get_group
marshal_in-stops_example =
    marshal_in-stops memory enum (model_data []) state (integers ∷ []) strings (reals ∷ [])
      memory-IsPure (refl, tt) (omega arith)
