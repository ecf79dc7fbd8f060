-- ===== src/Fmu/Trace/Configure.antt =====
-- trace_configure, trace_destroy, ncodec_open, fmu_ncodec_open and fmu_ncodec_close of
-- dse/fmu/ncodec.c. The environment maps names to values; ncodec_create is an argument. Where
-- ncodec_open gives no codec it sets errno to EINVAL, which is left out.
use dse_fmi.Common.{
  ◌%◌, ◌^◌, Bool, true, false, Option, none, some, [], ◌∷◌, ◌++◌, map, foldl, take, Bytes, codes,
  str_eq, HashMap, hashmap_get, hashmap_set, ltb, if◌then◌else◌,
}
use dse_fmi.Fmu.Instance.{FmuInstanceData}
use dse_fmi.Fmu.Vref.{decimal}
use dse_fmi.Fmu.Trace.{
  TraceApi, TraceData, TraceKind, can, pdu, NCodecInstance, get_codec_config, config_text, log,
  tokens,
}

abbrev pub kind_of_type : Option Bytes → Option TraceKind
kind_of_type none = none
kind_of_type (some t) =
    if str_eq t (codes "frame")
    then some can
    else (if str_eq t (codes "pdu") then some pdu else none)

-- The functions of the trace that a codec of the type gets.
abbrev pub trace_kind : NCodecInstance → Option TraceKind
trace_kind nc = kind_of_type (get_codec_config nc.config (codes "type"))

-- trace_destroy: `private` is NULL afterwards.
unfoldable pub trace_destroy : NCodecInstance → NCodecInstance
trace_destroy nc = record nc { trace_data = none }

-- fmu_ncodec_close, as far as the codec is not the codec library's.
unfoldable pub fmu_ncodec_close : Option NCodecInstance → Option NCodecInstance
unfolding trace_destroy
fmu_ncodec_close none = none
fmu_ncodec_close (some nc) = some (trace_destroy nc)

-- `stream` is false for a NULL stream.
unfoldable pub ncodec_open :
    (Bytes → Option NCodecInstance) → Option Bytes → Bool → Option NCodecInstance
ncodec_open create none stream = none
ncodec_open create (some mime_type) stream = elim (create mime_type) [
  | none ↦ none
  | some nc ↦ if stream then some nc else none
]

module _ (api : TraceApi) where
  abbrev pub env_text : NCodecInstance → TraceKind → Bytes
  env_text nc can =
      codes "NCODEC_TRACE_"
      ++ (config_text api nc (codes "bus") ++ (95 ∷ config_text api nc (codes "bus_id")))
  env_text nc pdu = codes "NCODEC_TRACE_PDU_" ++ config_text api nc (codes "swc_id")

  -- snprintf to NCT_ENVVAR_LEN characters, then toupper.
  abbrev pub env_name : NCodecInstance → TraceKind → Bytes
  env_name nc kind = map api.toupper (take 99 (env_text nc kind))

  -- One token; the number is cut to a uint32.
  unfoldable pub add_id : HashMap Bool → Bytes → HashMap Bool
  add_id filter token =
      if ltb 0 (api.strtol token)
      then hashmap_set filter (take 19 (decimal (api.strtol token % 2 ^ 32))) true
      else filter

  abbrev pub log_id : Option TraceData → FmuInstanceData → Bytes → FmuInstanceData
  log_id td fmu token =
      if ltb 0 (api.strtol token)
      then log api td fmu (api.hex_id_text (api.strtol token % 2 ^ 32))
      else fmu

  -- The trace data for the filter that the environment has.
  unfoldable pub filter_data : FmuInstanceData → Bytes → TraceData
  unfolding add_id
  filter_data fmu filter =
      if str_eq filter (codes "*")
      then record { model_inst_name = fmu.name; identifier = []; wildcard = true; filter = [] }
      else record {
        model_inst_name = fmu.name;
        identifier = [];
        wildcard = false;
        filter = foldl add_id [] (tokens filter);
      }

  abbrev pub log_filter : NCodecInstance → FmuInstanceData → Bytes → FmuInstanceData
  log_filter nc fmu filter =
      if str_eq filter (codes "*")
      then log api nc.trace_data fmu (codes "    <wildcard> (all frames)")
      else foldl (log_id nc.trace_data) fmu (tokens filter)

  unfoldable pub install :
      NCodecInstance → FmuInstanceData → TraceKind → Option Bytes → NCodecInstance × FmuInstanceData
  unfolding filter_data
  install nc fmu kind none = (nc, fmu)
  install nc fmu kind (some filter) = (
    record nc { trace = some kind; trace_data = some (filter_data fmu filter) },
    log_filter nc fmu filter,
  )

  unfoldable pub configure_kind :
      HashMap Bytes
      → NCodecInstance
      → FmuInstanceData
      → Option TraceKind
      → NCodecInstance × FmuInstanceData
  unfolding install
  configure_kind env nc fmu none = (nc, fmu)
  configure_kind env nc fmu (some kind) = install nc fmu kind (hashmap_get env (env_name nc kind))

  unfoldable pub trace_configure :
      HashMap Bytes → NCodecInstance → FmuInstanceData → NCodecInstance × FmuInstanceData
  unfolding configure_kind
  trace_configure env nc fmu = configure_kind env nc fmu (trace_kind nc)

  abbrev pub configured :
      HashMap Bytes
      → FmuInstanceData
      → Option NCodecInstance
      → Option NCodecInstance × FmuInstanceData
  configured env fmu none = (none, fmu)
  configured env fmu (some nc) =
      let (codec, after) = trace_configure env nc fmu in (some codec, after)

  -- The stream that fmu_sv_stream_create makes is not NULL.
  unfoldable pub fmu_ncodec_open :
      (Bytes → Option NCodecInstance)
      → HashMap Bytes
      → FmuInstanceData
      → Option Bytes
      → Option NCodecInstance × FmuInstanceData
  unfolding ncodec_open trace_configure
  fmu_ncodec_open create env fmu mime_type = configured env fmu (ncodec_open create mime_type true)
