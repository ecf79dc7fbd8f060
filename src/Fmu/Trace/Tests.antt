-- ===== src/Fmu/Trace/Tests.antt =====
-- Runs of the trace, with a filter of two identifiers.
use dse_fmi.Common.{
  ℕ, ◌-◌, ◌<◌, ◌≡◌, refl, some, none, List, [], ◌∷◌, length, take, Bytes, codes, HashMap,
  hashmap_get, str_eq, if◌then◌else◌, Returns, arith, ltb,
}
use dse_fmi.Fmu.Instance.{log_passes}
use dse_fmi.Fmu.Tests.{fmu}
use dse_fmi.Fmu.Trace.{
  TraceApi, NCodecInstance, CanMessage, Direction, get_codec_config, tokens_from,
}
use dse_fmi.Fmu.Trace.Dump.{nct_buffer_len, dump, whole_dump, dump_bounds}
use dse_fmi.Fmu.Trace.Configure.{trace_configure}
use dse_fmi.Fmu.Trace.Filter.{wanted}
use dse_fmi.Fmu.Trace.Lines.{count_passing, Adds, log_all, trace_can_log-wanted}

abbrev payload : Bytes
payload = 1 ∷ 2 ∷ 255 ∷ 4 ∷ 5 ∷ 6 ∷ 7 ∷ 8 ∷ 9 ∷ []

dump_bounds_example :
    Returns
      (dump payload)
      (λ text. (length text < nct_buffer_len) × (text ≡ take 1999 (whole_dump payload)))
dump_bounds_example = dump_bounds payload (omega arith)

dump_payload : dump payload ≡ some (codes " 01 02 ff 04 05 06 07 08  09")
unfolding dump
dump_payload = refl

-- strtol of one decimal digit, which is enough for the filter below.
abbrev pub digit : Bytes → ℕ
digit [] = 0
digit (c ∷ cs) = c - 48

abbrev pub api : TraceApi
api = record {
  strtol = digit;
  toupper = λ c. if ltb c 97 then c else c - 32;
  int_text = λ n. n ∷ [];
  null_text = codes "(null)";
  hex_id_text = λ n. n ∷ [];
  can_line = λ td id d m b. b;
  pdu_line = λ td id d m b. b;
  detail_line = λ format m. format;
  printed = λ message. message;
}

abbrev pub codec : NCodecInstance
codec = record {
  config =
      record { name = some (codes "type"); value = some (codes "frame") }
      ∷ record { name = some (codes "bus"); value = some (codes "can") }
      ∷ record { name = some (codes "bus_id"); value = some (codes "1") }
      ∷ [];
  trace = none;
  trace_data = none;
}

abbrev pub env : HashMap Bytes
env = (codes "NCODEC_TRACE_CAN_1", codes "3,,5") ∷ []

abbrev messages : List (CanMessage × Direction)
messages =
    (record { frame_id = 5; sender = 1 ∷ 2 ∷ 3 ∷ []; buffer = payload }, Direction.rx)
    ∷ (record { frame_id = 4; sender = 1 ∷ 2 ∷ 3 ∷ []; buffer = [] }, Direction.tx)
    ∷ []

one_wanted : count_passing (wanted api (codes "3,,5")) messages ≡ 1
unfolding str_eq tokens_from
one_wanted = refl

trace_can_log-wanted_example :
    Returns (log_all api (trace_configure api env codec fmu).0 fmu messages) (λ r.
      Adds
        (log_passes fmu (some (codes "Debug")))
        (count_passing (wanted api (codes "3,,5")) messages)
        fmu
        r.1)
unfolding get_codec_config hashmap_get str_eq
trace_can_log-wanted_example =
    trace_can_log-wanted api env codec fmu fmu (codes "3,,5") messages refl refl
      ((omega arith, omega arith), ((omega arith, omega arith), tt))
