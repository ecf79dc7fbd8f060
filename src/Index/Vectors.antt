-- ===== src/Index/Vectors.antt =====
-- What both files have: _signal_annotation_list with _model_build_channel_spec and
-- _signal_group_match_handler. A signal vector is what the model library hands out, with its signals'
-- names; the YAML and schema calls of that library are parameters.
use dse_fmi.Common.{
  ℕ, Bool, Option, none, some, List, [], ◌∷◌, foldl, Bytes, codes, str_eq, if◌then◌else◌,
}

pub record SignalVector : Type 0 where
  pub name : Bytes
  pub alias : Bytes
  pub is_binary : Bool
  pub signal : List Bytes

pub record ModelInstance : Type 0 where
  pub name : Bytes
  pub sv : List SignalVector

-- A channel node of a model instance, with the scalars of its children `name` and `alias`.
pub record ChannelNode : Type 0 where
  pub name : Option Bytes
  pub alias : Option Bytes

pub record ChannelSpec : Type 0 where
  pub name : Bytes
  pub alias : Option Bytes

-- A signal of a signal group; `annotations` is what dse_yaml_get_array finds in its node, if it has
-- that node.
pub record SchemaSignal : Type 0 where
  pub signal : Bytes
  pub annotations : Option (Bytes → Option (List Bytes))

-- dse_yaml_find_node_in_seq on the channels of an instance, by a selector; the selector that
-- schema_build_channel_selector makes, as the groups that schema_object_search passes to the handler
-- for it; and signal_annotation.
pub record SchemaApi : Type 0 where
  pub find_channel : Bytes → Bytes → Bytes → Option ChannelNode
  pub select_groups : Bytes → Option ChannelSpec → Option (List (List SchemaSignal))
  pub signal_annotation : SignalVector → ℕ → Bytes → Option Bytes

abbrev pub scalar_or : Bytes → Option Bytes → Bytes
scalar_or d none = d
scalar_or d (some s) = s

abbrev pub or_else {ℓ} : {A : Type ℓ} → Option A → Option A → Option A
or_else none b = b
or_else (some a) b = some a

abbrev pub channel_spec : Bytes → Option ChannelNode → Option ChannelSpec
channel_spec channel none = none
channel_spec channel (some node) =
    some (record { name = scalar_or channel node.name; alias = node.alias })

-- The first signal of the group with the name replaces the match; otherwise it stays.
unfoldable pub signal_group_match :
    Bytes → Option SchemaSignal → List SchemaSignal → Option SchemaSignal
signal_group_match name found [] = found
signal_group_match name found (so ∷ rest) =
    if str_eq so.signal name then some so else signal_group_match name found rest

-- The lookup of an annotation of the match; `none` is the NULL result.
abbrev pub annotation_of : Bytes → Option SchemaSignal → Option (List Bytes)
annotation_of name none = none
annotation_of name (some so) = elim so.annotations [ none ↦ none | some array ↦ array name ]

abbrev pub match_in : Bytes → Option (List (List SchemaSignal)) → Option SchemaSignal
match_in signal none = none
match_in signal (some groups) = foldl (signal_group_match signal) none groups

module _ (api : SchemaApi) where
  unfoldable pub model_build_channel_spec : ModelInstance → Bytes → Option ChannelSpec
  model_build_channel_spec mi channel = channel_spec channel (
      or_else (api.find_channel mi.name (codes "name") channel)
        (api.find_channel mi.name (codes "alias") channel))

  unfoldable pub signal_annotation_list :
      ModelInstance → SignalVector → Bytes → Bytes → Option (List Bytes)
  unfolding model_build_channel_spec signal_group_match
  signal_annotation_list mi sv signal name =
      annotation_of name
        (match_in signal (api.select_groups mi.name (model_build_channel_spec mi sv.name)))
