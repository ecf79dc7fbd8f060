-- ===== src/Index/Tests.antt =====
-- Runs of the index functions on one instance with a scalar and a binary vector.
use dse_fmi.Common.{
  ℕ, ◌≡◌, refl, true, false, Option, none, some, List, [], ◌∷◌, Bytes, codes, hashmap_set, str_eq,
  if◌then◌else◌, Returns, ◌==◌,
}
use dse_fmi.Fmu.Instance.{FmuInstanceData, fmu_log, log_passes}
use dse_fmi.Index.Vectors.{SignalVector, ModelInstance, SchemaSignal, signal_annotation_list}
use dse_fmi.Index.Gateway.{
  ModelGatewayDesc, GatewayApi, index_scalar_signals, index_binary_signals, index_text_encoding,
}
use dse_fmi.Index.Gateway.Scalars.{ScalarsIndexed, index_scalar_signals-latest}
use dse_fmi.Index.Gateway.Binaries.{
  InstancesIndexed, BinariesIndexed, index_binary_signals-topology,
}
use dse_fmi.Index.Gateway.Encodings.{CodecsIndexed, EncodingsIndexed, index_text_encoding-listed}
use dse_fmi.Index.Modelc.{
  ModelcApi, vector_names, locate_binary, fmimodelc_index_scalar_signals,
  fmimodelc_index_binary_signals, fmimodelc_index_text_encoding,
}
use dse_fmi.Index.Modelc.Indexed.{
  first_direct, ScalarsFor, fmimodelc_index_scalar_signals-first,
  fmimodelc_index_binary_signals-topology, fmimodelc_index_text_encoding-listed,
}

abbrev pub fmu : FmuInstanceData
fmu = record {
  name = codes "gateway";
  version = 2;
  resource_location = [];
  log_enabled = false;
  log_categories = 0;
  logged = [];
  scalar_input = [];
  scalar_output = [];
  string_input = [];
  binary_rx = [];
  binary_tx = [];
  encode_func = [];
  decode_func = [];
  free_list = [];
  signals_reset = false;
  memory = λ q. q;
  binaries = [];
  table = none;
  var_list = [];
  marshal_list = [];
  direct_index = none;
}

abbrev pub scalars : SignalVector
scalars = record {
  name = codes "scalar";
  alias = codes "scalar_vector";
  is_binary = false;
  signal = codes "a" ∷ codes "b" ∷ [];
}

abbrev pub network : SignalVector
network = record {
  name = codes "network";
  alias = codes "network_vector";
  is_binary = true;
  signal = codes "can" ∷ [];
}

abbrev pub model : ModelInstance
model = record { name = codes "model"; sv = scalars ∷ network ∷ [] }

abbrev pub desc : ModelGatewayDesc
desc = record { sv = scalars ∷ network ∷ []; instance_list = model ∷ [] }

-- Signal a is an input with value reference 1, signal b an output with 2; can has 3.
abbrev pub annotated : SignalVector → ℕ → Bytes → Option Bytes
annotated sv i name =
    if str_eq name (codes "fmi_variable_vref")
    then some (if sv.is_binary then codes "3" else (if i == 0 then codes "1" else codes "2"))
    else some (
        if str_eq name (codes "fmi_variable_causality")
        then (if i == 0 then codes "input" else codes "output")
        else codes "ascii85")

abbrev pub group : List SchemaSignal
group =
    record {
      signal = codes "can";
      annotations = some (λ name. some (
          if str_eq name (codes "dse.standards.fmi-ls-bus-topology.rx_vref")
          then codes "4" ∷ []
          else (if str_eq name (codes "dse.standards.fmi-ls-bus-topology.tx_vref")
              then codes "5" ∷ []
              else codes "4" ∷ codes "5" ∷ [])));
    }
    ∷ []

abbrev pub api : GatewayApi
api = record {
  schema = record {
    find_channel = λ mi selector channel.
        if str_eq selector (codes "name")
        then none
        else some (record { name = none; alias = none });
    select_groups = λ mi spec. some (group ∷ []);
    signal_annotation = annotated;
  };
  signal_index = λ alias signal.
      if str_eq alias (codes "scalar_vector")
      then record { scalar = some (if str_eq signal (codes "a") then 8 else 16); binary = none }
      else record { scalar = none; binary = some 0 };
  count_text = λ format a b. format;
}

abbrev after_scalars : FmuInstanceData
after_scalars = record fmu {
  scalar_input = (codes "1", 8) ∷ [];
  scalar_output = (codes "2", 16) ∷ [];
}

scalars_found : index_scalar_signals api fmu desc ≡ some after_scalars
unfolding index_scalar_signals str_eq hashmap_set fmu_log log_passes
scalars_found = refl

index_scalar_signals-latest_example :
    Returns (index_scalar_signals api fmu desc) (ScalarsIndexed api desc.sv fmu)
unfolding str_eq
index_scalar_signals-latest_example =
    index_scalar_signals-latest api fmu desc
      (((codes "input", refl), ((codes "output", refl), tt)), (tt, tt))

abbrev after_binaries : FmuInstanceData
after_binaries = record fmu { binary_rx = (codes "4", 0) ∷ []; binary_tx = (codes "5", 0) ∷ [] }

binaries_found : index_binary_signals api fmu desc ≡ some after_binaries
unfolding index_binary_signals signal_annotation_list str_eq hashmap_set fmu_log log_passes
binaries_found = refl

index_binary_signals-topology_example :
    Returns (index_binary_signals api fmu desc) (BinariesIndexed api desc.instance_list fmu)
index_binary_signals-topology_example = index_binary_signals-topology api fmu desc

index_text_encoding-listed_example :
    Returns (index_text_encoding api fmu desc) (EncodingsIndexed api desc.instance_list fmu)
unfolding str_eq
index_text_encoding-listed_example =
    index_text_encoding-listed api fmu desc ((tt, (((codes "ascii85", refl), tt), tt)), tt)

abbrev modelc : ModelcApi
modelc = record {
  schema = api.schema;
  simbus_vector_lookup =
      λ name signal. some (record { scalar = 8; binary = 0; direct_index = none });
  set_to_array = λ names. names;
}

fmimodelc_index_scalar_signals-first_example :
    Returns (fmimodelc_index_scalar_signals modelc fmu desc.instance_list) (
      ScalarsFor modelc
        (first_direct modelc (modelc.set_to_array (vector_names desc.instance_list)))
        desc.instance_list
        fmu)
unfolding str_eq
fmimodelc_index_scalar_signals-first_example =
    fmimodelc_index_scalar_signals-first modelc fmu desc.instance_list refl
      (((codes "input", refl), ((codes "output", refl), tt)), (tt, tt))

fmimodelc_index_binary_signals-topology_example :
    Returns
      (fmimodelc_index_binary_signals modelc fmu desc.instance_list)
      (InstancesIndexed modelc.schema (locate_binary modelc) desc.instance_list fmu)
fmimodelc_index_binary_signals-topology_example =
    fmimodelc_index_binary_signals-topology modelc fmu desc.instance_list

fmimodelc_index_text_encoding-listed_example :
    Returns
      (fmimodelc_index_text_encoding modelc fmu desc.instance_list)
      (CodecsIndexed modelc.schema desc.instance_list fmu)
unfolding str_eq
fmimodelc_index_text_encoding-listed_example =
    fmimodelc_index_text_encoding-listed modelc fmu desc.instance_list
      ((tt, (((codes "ascii85", refl), tt), tt)), tt)
