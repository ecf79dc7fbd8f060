-- ===== src/Fmu/Trace.antt =====
-- The trace of codecs: NCodecTraceData, __log, __get_codec_config, trace_can_log, trace_pdu_log,
-- trace_configure, trace_destroy, ncodec_open, fmu_ncodec_open and fmu_ncodec_close of
-- dse/fmu/ncodec.c. The codec library is a parameter; the configuration of a codec is the list of
-- items that ncodec_stat gives. The static buffers of the log functions keep nothing between calls.
pub mod Dump
pub mod Configure
pub mod Quiet
pub mod Filter
pub mod Lines
pub mod Tests
use dse_fmi.Common.{
  ℕ, ◌-◌, ◌%◌, ◌^◌, Bool, true, false, Option, none, some, List, [], ◌∷◌, ◌++◌, map, foldl, length,
  take, Bytes, codes, str_eq, HashMap, hashmap_get, hashmap_set, ltb, leb, ◌==◌, if◌then◌else◌,
  ◌&&◌, ◌>>=◌,
}
use dse_fmi.Fmu.Instance.{FmuInstanceData, fmu_log, log_ok}
use dse_fmi.Fmu.Vref.{decimal}
use dse_fmi.Fmu.Trace.Dump.{dump}

pub record TraceData : Type 0 where
  pub model_inst_name : Bytes
  pub identifier : Bytes
  pub wildcard : Bool
  pub filter : HashMap Bool

-- NCodecConfigItem
pub record ConfigItem : Type 0 where
  pub name : Option Bytes
  pub value : Option Bytes

pub data TraceKind : Type 0 where
  can : TraceKind
  pdu : TraceKind

-- NCodecInstance: its configuration, the functions of its trace if installed, and `private`.
pub record NCodecInstance : Type 0 where
  pub config : List ConfigItem
  pub trace : Option TraceKind
  pub trace_data : Option TraceData

pub data Direction : Type 0 where
  rx : Direction
  tx : Direction

pub record CanMessage : Type 0 where
  pub frame_id : ℕ
  pub sender : List ℕ
  pub buffer : Bytes

pub data IpAddr : Type 0 where
  ip_v4 : IpAddr
  ip_v6 : IpAddr
  no_addr : IpAddr

pub data SoAd : Type 0 where
  do_ip : SoAd
  some_ip : SoAd
  no_so_ad : SoAd

pub data Transport : Type 0 where
  can_transport : Transport
  ip_transport : IpAddr → SoAd → Transport
  no_transport : Transport

pub record Pdu : Type 0 where
  pub id : ℕ
  pub swc_id : ℕ
  pub ecu_id : ℕ
  pub payload : Bytes
  pub transport : Transport

-- strtol, as 0 for a text of no positive number; toupper; printf("%d"); what printf makes of a NULL
-- text; the texts of the log lines from the format with the values that it names; and the text that
-- vsnprintf makes of a message that it is given as a format.
pub record TraceApi : Type 0 where
  pub strtol : Bytes → ℕ
  pub toupper : ℕ → ℕ
  pub int_text : ℕ → Bytes
  pub null_text : Bytes
  pub hex_id_text : ℕ → Bytes
  pub can_line : TraceData → Bytes → Direction → CanMessage → Bytes → Bytes
  pub pdu_line : TraceData → Bytes → Direction → Pdu → Bytes → Bytes
  pub detail_line : Bytes → Pdu → Bytes
  pub printed : Bytes → Bytes

-- A token that ends here, unless it is empty, and those that follow.
abbrev pub finish : Bytes → List Bytes → List Bytes
finish [] rest = rest
finish (c ∷ cs) rest = (c ∷ cs) ∷ rest

-- strtok_r by ",": the pieces between commas that are not empty.
unfoldable pub tokens_from : Bytes → Bytes → List Bytes
tokens_from token [] = finish token []
tokens_from token (c ∷ cs) =
    let ended = finish token (tokens_from [] cs) in
    let longer = tokens_from (token ++ c ∷ []) cs in if c == 44 then ended else longer

abbrev pub tokens : Bytes → List Bytes
tokens text = tokens_from [] text

abbrev pub named_item : Bytes → Option Bytes → Bool
named_item name none = false
named_item name (some n) = str_eq n name

unfoldable pub get_codec_config : List ConfigItem → Bytes → Option Bytes
get_codec_config [] name = none
get_codec_config (ci ∷ rest) name =
    if named_item name ci.name then ci.value else get_codec_config rest name

unfoldable pub is_logged : TraceData → ℕ → Bool
is_logged td id =
    if td.wildcard
    then true
    else elim (hashmap_get td.filter (take 19 (decimal id))) [ none ↦ false | some b ↦ true ]

module _ (api : TraceApi) where
  abbrev pub or_null : Option Bytes → Bytes
  or_null none = api.null_text
  or_null (some t) = t

  abbrev pub config_text : NCodecInstance → Bytes → Bytes
  config_text nc name = or_null (get_codec_config nc.config name)

  -- The message buffer has 1024 characters; the FMU gets the message if the trace is installed.
  unfoldable pub log : Option TraceData → FmuInstanceData → Bytes → FmuInstanceData
  log none fmu message = fmu
  log (some td) fmu message = fmu_log fmu log_ok (codes "Debug") (api.printed (take 1023 message))

  -- snprintf to NCT_ID_LEN characters, on the first call.
  abbrev pub set_identifier : TraceData → Bytes → TraceData
  set_identifier td text =
      if length td.identifier == 0 then record td { identifier = take 99 text } else td

  abbrev pub joined : List Bytes → Bytes
  joined [] = []
  joined (t ∷ []) = t
  joined (t ∷ u ∷ rest) = t ++ (58 ∷ joined (u ∷ rest))

  abbrev pub shown_identifier : TraceData → Direction → List ℕ → Bytes
  shown_identifier td rx sender = take 99 (joined (map api.int_text sender))
  shown_identifier td tx sender = td.identifier

  abbrev pub can_identified : NCodecInstance → TraceData → TraceData
  can_identified nc td = set_identifier td (
      joined (
        config_text nc (codes "bus_id")
        ∷ config_text nc (codes "node_id")
        ∷ config_text nc (codes "interface_id")
        ∷ []))

  abbrev pub can_text : TraceData → Direction → CanMessage → Bytes → Bytes
  can_text td direction msg text =
      api.can_line td (shown_identifier td direction msg.sender) direction msg text

  -- From the setup of the identifier on; the identifier is kept also when the message is filtered.
  unfoldable pub can_log_with :
      NCodecInstance
      → TraceData
      → FmuInstanceData
      → CanMessage
      → Direction
      → Option (NCodecInstance × FmuInstanceData)
  unfolding is_logged log dump
  can_log_with nc old fmu msg direction =
      let td = can_identified nc old in
      let identified : NCodecInstance = record nc { trace_data = some td } in
      if is_logged td msg.frame_id
      then (do
        text ← dump msg.buffer
        some (identified, log (some td) fmu (can_text td direction msg text)))
      else some (identified, fmu)

  -- `none` is a NULL trace, which the function does not test, or a loop that does not end.
  unfoldable pub trace_can_log :
      NCodecInstance
      → FmuInstanceData
      → CanMessage
      → Direction
      → Option (NCodecInstance × FmuInstanceData)
  unfolding can_log_with
  trace_can_log nc fmu msg direction = do td ← nc.trace_data; can_log_with nc td fmu msg direction

  abbrev pub address_lines : IpAddr → List Bytes
  address_lines ip_v4 = codes "    IP:    src_addr=%08x  dst_addr=%08x" ∷ []
  address_lines ip_v6 =
      codes "    IP:     src_addr=%04x:%04x:%04x:%04x:%04x:%04x:%04x:%04x"
      ∷ codes "    IP:     dst_addr=%04x:%04x:%04x:%04x:%04x:%04x:%04x:%04x"
      ∷ []
  address_lines no_addr = []

  abbrev pub adapter_lines : SoAd → List Bytes
  adapter_lines do_ip = codes "    DOIP:   protocol_version=%d  payload_type=%d" ∷ []
  adapter_lines some_ip =
      codes "    SOMEIP: protocol_version=%d  interface_version=%d"
      ∷ codes "    SOMEIP: request_id=%d  return_code=%d"
      ∷ codes "    SOMEIP: message_type=%d  message_id=%d  length=%d"
      ∷ []
  adapter_lines no_so_ad = []

  -- The formats of the lines that the transport of a PDU adds.
  unfoldable pub transport_lines : Transport → List Bytes
  transport_lines can_transport =
      codes "    CAN:    frame_format=%d  frame_type=%d  interface_id=%d  network_id=%d" ∷ []
  transport_lines (ip_transport addr so_ad) =
      codes "    ETH:    src_mac=%016lx  dst_mac=%016lx"
      ∷ codes "    ETH:    ethertype=%04x  tci_pcp=%02x  tci_dei=%02x  tci_vid=%04x"
      ∷ (address_lines addr
          ++ (codes "    IP:     src_port=%04x  dst_port=%04x  proto=%d" ∷ adapter_lines so_ad))
  transport_lines no_transport = []

  abbrev pub log_detail : TraceData → Pdu → FmuInstanceData → Bytes → FmuInstanceData
  log_detail td m fmu format = log (some td) fmu (api.detail_line format m)

  abbrev pub pdu_identified : NCodecInstance → TraceData → TraceData
  pdu_identified nc td =
      set_identifier td
        (joined (config_text nc (codes "swc_id") ∷ config_text nc (codes "ecu_id") ∷ []))

  abbrev pub pdu_text : TraceData → Direction → Pdu → Bytes → Bytes
  pdu_text td direction m text =
      api.pdu_line td (shown_identifier td direction (m.swc_id ∷ m.ecu_id ∷ [])) direction m text

  unfoldable pub pdu_log_with :
      NCodecInstance
      → TraceData
      → FmuInstanceData
      → Pdu
      → Direction
      → Option (NCodecInstance × FmuInstanceData)
  unfolding is_logged log transport_lines dump
  pdu_log_with nc old fmu m direction =
      let td = pdu_identified nc old in
      let identified : NCodecInstance = record nc { trace_data = some td } in
      if is_logged td m.id
      then (do
        text ← dump m.payload
        let logged : FmuInstanceData = log (some td) fmu (pdu_text td direction m text)
        some (identified, foldl (log_detail td m) logged (transport_lines m.transport)))
      else some (identified, fmu)

  unfoldable pub trace_pdu_log :
      NCodecInstance → FmuInstanceData → Pdu → Direction → Option (NCodecInstance × FmuInstanceData)
  unfolding pdu_log_with
  trace_pdu_log nc fmu m direction = do td ← nc.trace_data; pdu_log_with nc td fmu m direction
