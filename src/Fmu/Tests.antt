-- ===== src/Fmu/Tests.antt =====
-- Runs of the FMU library's functions, with buffers that grow by copying.
use dse_fmi.Common.{
  ℕ, zero, suc, replicate, ◌≤◌, ◌+◌, ◌<◌, ◌≡◌, ◌≢◌, ◌↔◌, refl, true, false, ◌&&◌, ◌||◌, Option,
  none, some, List, [], ◌∷◌, ◌++◌, length, drop, get_elem?, All, length-append, length-take,
  take-all, Bytes, codes, hashmap_get, str_eq, if_elim, Returns, arith, Bool, map, ap, sym,
  if◌then◌else◌,
}
use dse_fmi.Fmu.Stream.{
  BinarySignal, bytes_of, content, IsBuffer, BufferApi, Stream, SeekOp, StreamOp, stream_run,
}
use dse_fmi.Fmu.Stream.File.{file, file_run}
use dse_fmi.Fmu.Stream.Reads.{Fits}
use dse_fmi.Fmu.Stream.Refine.{stream_run-file_run}
use dse_fmi.Fmu.Vref.{
  digits, decimal, print_int, vref_key, vref_key_injective, vref_key-ne-decimal, vref_key_collides,
}
use dse_fmi.Fmu.Instance.{
  FmuInstanceData, TextCodec, BinaryVariable, store, log_passes, set_debug_logging,
}
use dse_fmi.Fmu.Create.{UriApi, contains, starts_with, resource_path, resource_path-forms}
use dse_fmi.Fmu.Flags.{named, known}
use dse_fmi.Fmu.Log.{log_passes-set_debug_logging}
use dse_fmi.Fmu.Scalar.{get_real, set_real}
use dse_fmi.Fmu.Scalar.RoundTrip.{Setting, sets, gets, IsInput, get_real-set_real}
use dse_fmi.Fmu.Binary.{TextApi, log_row, log_bytes, decoded, get_string, set_string}
use dse_fmi.Fmu.Binary.Rows.{log_limit, IsLoggable, log_rows, log_bytes-rows}
use dse_fmi.Fmu.Binary.Answers.{texts, OnlyTexts, IsReadable, answer, get_string-answers}
use dse_fmi.Fmu.Binary.Takes.{held, extend, IsSound, InVector, size_of, received}
use dse_fmi.Fmu.Binary.Append.{kept, set_string-received}
use dse_fmi.Fmu.Step.{ListApi, register_var_table, enter_step, do_step}
use dse_fmi.Fmu.Step.Mirror.{Variable, IsRegistered, register_all, do_step-mirrors}

abbrev pub copied : BinarySignal → Bytes → BinarySignal
copied s d = record s { binary = some (content s ++ d); length = s.length + length d }

pub copied_length :
    (s : BinarySignal) (d : Bytes) → IsBuffer s → length (content s ++ d) ≡ s.length + length d
copied_length s d h =
    omega (arith, h, length-append (content s) d, length-take s.length (bytes_of s.binary))

abbrev pub buffer : BufferApi
buffer = record {
  buffer_append = copied;
  append_IsBuffer = λ s d h. omega (arith, copied_length s d h.0);
  append_length = λ s d h. refl;
  append_content = λ s d h.
      take-all (s.length + length d) (content s ++ d) (omega (arith, copied_length s d h.0));
}

abbrev pub text : TextApi
text = record {
  buffer = buffer;
  encode = λ f b. 60 ∷ b;
  decode = λ f b. drop 1 b;
  truncate = λ s. record s { length = 0 };
  truncate_length = λ s. refl;
  header_text = λ op s. op;
  hex_text = λ b. b;
}

abbrev pub lists : ListApi
lists = record { hashlist_key_len = 11; ntl = λ l. l; ntl_rest = λ l. []; ntl_eq = λ l. refl }

abbrev pub variable : Bytes → BinaryVariable
variable b = record {
  signal = record { binary = some b; length = length b; buffer_size = length b };
  ncodec = false;
}

-- Scalars 1 and 2 are inputs, 3 is an output; binary 5 is received, with a codec.
abbrev pub fmu : FmuInstanceData
fmu = record {
  name = codes "fmu";
  version = 2;
  resource_location = [];
  log_enabled = false;
  log_categories = 0;
  logged = [];
  scalar_input = (codes "1", 8) ∷ (codes "2", 16) ∷ [];
  scalar_output = (codes "3", 24) ∷ [];
  string_input = [];
  binary_rx = (codes "5", 0) ∷ [];
  binary_tx = [];
  encode_func = [];
  decode_func = (codes "5", TextCodec.ascii85) ∷ [];
  free_list = [];
  signals_reset = false;
  memory = λ q. q;
  binaries = variable (7 ∷ 8 ∷ []) ∷ [];
  table = none;
  var_list = [];
  marshal_list = [];
  direct_index = none;
}

abbrev calls : List StreamOp
calls =
    StreamOp.write (1 ∷ 2 ∷ 3 ∷ [])
    ∷ StreamOp.seek 1 SeekOp.seek_set
    ∷ StreamOp.write (9 ∷ [])
    ∷ StreamOp.seek 0 SeekOp.seek_set
    ∷ StreamOp.read true true
    ∷ StreamOp.eof
    ∷ StreamOp.close
    ∷ []

abbrev opened : Option Stream
opened = some (record { pos = 0; signal = record { binary = none; length = 0; buffer_size = 0 } })

stream_run-file_run_example :
    ((stream_run buffer calls opened).0 ≡ (file_run calls (file opened)).0)
    × (file (stream_run buffer calls opened).1 ≡ (file_run calls (file opened)).1)
    × Fits 0 (stream_run buffer calls opened).1
stream_run-file_run_example =
    stream_run-file_run buffer calls opened
      (record { at_most = omega arith; buffer = omega arith }, omega arith)
      (omega arith, (omega arith, tt))

abbrev small : ℕ
small = 12

abbrev other : ℕ
other = 120

vref_key_injective_example :
    (vref_key small ≡ decimal small) × ((vref_key small ≡ vref_key other) ↔ (small ≡ other))
vref_key_injective_example = vref_key_injective small other (omega arith) (omega arith)

vref_key_collides_example : vref_key 2147483650 ≡ vref_key 2147483651
vref_key_collides_example =
    vref_key_collides 2147483650 2147483651 (omega arith) (omega arith) (omega arith) (omega arith)
      refl

vref_key-ne-decimal_example : vref_key 4294967295 ≢ decimal 1
vref_key-ne-decimal_example = vref_key-ne-decimal 4294967295 1 (omega arith)

log_passes-set_debug_logging_example :
    log_passes
      (set_debug_logging true (codes "Info" ∷ codes "Other" ∷ []) fmu)
      (some (codes "Info"))
    ≡ (true
        && (named (codes "All") (codes "Info" ∷ codes "Other" ∷ [])
            || (known (codes "Info") && named (codes "Info") (codes "Info" ∷ codes "Other" ∷ []))))
log_passes-set_debug_logging_example =
    log_passes-set_debug_logging true (codes "Info" ∷ codes "Other" ∷ []) fmu (codes "Info")

abbrev settings : List Setting
settings =
    record { vr = 2; value = 5; cell = 16; old = 0 }
    ∷ record { vr = 1; value = 6; cell = 8; old = 0 }
    ∷ []

are_inputs : All (IsInput fmu) settings
unfolding hashmap_get vref_key print_int decimal digits str_eq
are_inputs = ((refl, refl), ((refl, refl), tt))

get_real-set_real_example :
    ((get_real (set_real fmu (sets settings)) (gets settings)).1 ≡ 5 ∷ 6 ∷ [])
    × ((set_real fmu (sets settings)).memory 24 ≡ 24)
    × (set_real fmu (sets settings) ≡ record fmu { memory = (set_real fmu (sets settings)).memory })
get_real-set_real_example =
    get_real-set_real fmu settings 24 refl are_inputs ((omega arith, tt), (tt, tt))
      (omega arith, (omega arith, tt))

pub received-InVector : InVector fmu.binary_rx (length fmu.binaries)
unfolding hashmap_get
received-InVector key q =
    if_elim (λ (o : Option ℕ). o ≡ some q → q < 1) (str_eq (codes "5") key) (some 0) none
      (λ e. ground (arith, e)) (λ e. ground (arith, e))

abbrev pub set_texts : List (ℕ × Option Bytes)
set_texts = (5, some (60 ∷ 1 ∷ [])) ∷ (4, some (2 ∷ [])) ∷ (5, none) ∷ (5, some (60 ∷ 3 ∷ [])) ∷ []

set_texts-fit :
    (p : ℕ)
    → size_of (
        extend
          (kept text false (get_elem? fmu.binaries p))
          (received text fmu.binary_rx fmu.decode_func p set_texts))
      ≤ log_limit
unfolding hashmap_get vref_key print_int decimal digits str_eq decoded
set_texts-fit zero = omega arith
set_texts-fit (suc p) = omega arith

set_string-received_example : Returns (set_string text fmu set_texts) (λ after.
    ((p : ℕ)
      → held (get_elem? after.binaries p)
        ≡ extend
            (kept text false (get_elem? fmu.binaries p))
            (received text fmu.binary_rx fmu.decode_func p set_texts))
    × All IsSound after.binaries
    × (after.signals_reset ≡ true))
set_string-received_example =
    set_string-received text fmu set_texts (omega arith, tt) received-InVector set_texts-fit

abbrev pub table_variables : List Variable
table_variables =
    record { vref = 1; input = true; offset = 0; cell = 8 }
    ∷ record { vref = 3; input = false; offset = 8; cell = 24 }
    ∷ []

-- The model adds 1 to its input.
abbrev pub increment : FmuInstanceData → ℕ → ℕ → FmuInstanceData × ℕ
increment g time step_size = (record g { memory = store g.memory 1008 (g.memory 1000 + 1) }, 0)

pub are-IsRegistered : All (IsRegistered lists fmu) table_variables
unfolding hashmap_get print_int decimal digits str_eq
are-IsRegistered = (refl, (refl, tt))

do_step-mirrors_example :
    let ready = register_var_table lists (register_all lists fmu table_variables) 1000 in
    let entered = enter_step text ready in
    let left = (increment entered 0 1).0 in
    let (after, status) = do_step text increment ready 0 1 in
    All (λ v. entered.memory (1000 + v.offset) ≡ fmu.memory v.cell) table_variables
    × All (λ v. after.memory v.cell ≡ left.memory (1000 + v.offset)) table_variables
    × (after.signals_reset ≡ false)
    × ((status ≡ 0) ↔ ((increment entered 0 1).1 ≡ 0))
do_step-mirrors_example =
    do_step-mirrors lists text fmu table_variables 1000 increment 0 1 refl are-IsRegistered
      (
        ((omega arith, omega arith), ((omega arith, omega arith), tt)),
        (((omega arith, omega arith, omega arith, omega arith), tt), (tt, tt)),
      )
      (λ g. refl)

abbrev uri : UriApi
uri = record { file_uri_scheme = codes "file://"; file_uri_short_scheme = codes "file:" }

resource_path-forms_example :
    (resource_path uri (codes "file://" ++ codes "/tmp/fmu") ≡ codes "/tmp/fmu")
    × (resource_path uri (codes "file:" ++ codes "/tmp/fmu") ≡ codes "/tmp/fmu")
    × (resource_path uri (codes "/tmp/fmu") ≡ codes "/tmp/fmu")
unfolding contains starts_with
resource_path-forms_example = resource_path-forms uri (codes "/tmp/fmu") refl refl refl refl

-- A directory whose name has "file:" in it: the start of the path is cut off.
path_cut : resource_path uri (codes "/a/file:b") ≡ codes "le:b"
unfolding resource_path contains starts_with
path_cut = refl

abbrev pub sender : FmuInstanceData
sender = record fmu {
  binary_tx = (codes "6", 0) ∷ [];
  encode_func = (codes "6", TextCodec.ascii85) ∷ [];
}

sender-IsReadable : IsReadable sender
unfolding hashmap_get
sender-IsReadable key p = found (str_eq (codes "6") key)
  where
    found :
        (b : Bool)
        → (if b then some 0 else none) ≡ some p
        → (v : BinaryVariable) × (c : TextCodec) × (get_elem? sender.binaries p ≡ some v)
          × ((if b then some TextCodec.ascii85 else none) ≡ some c)
          × IsLoggable v.signal
    found true e = (
      variable (7 ∷ 8 ∷ []),
      TextCodec.ascii85,
      ap
          (λ o. elim o as (λ _. Option BinaryVariable) [
            | none ↦ none
            | some q ↦ get_elem? sender.binaries q
          ])
          (sym e),
      refl,
      (omega arith, omega arith),
    )
    found false e = absurd (ground (arith, e))

get_string-answers_example : Returns (get_string text sender (6 ∷ 7 ∷ [])) (λ r.
    (r.1 ≡ map (answer text sender) (6 ∷ 7 ∷ []))
    × (r.0.free_list ≡ texts r.1)
    × OnlyTexts sender r.0)
get_string-answers_example = get_string-answers text sender (6 ∷ 7 ∷ []) sender-IsReadable

abbrev tracing : FmuInstanceData
tracing = record fmu { log_enabled = true; log_categories = 1 }

-- Forty bytes: two rows are logged, and the last eight bytes are not.
abbrev forty : Bytes
forty = replicate 40 7

log_bytes-rows_example :
    log_bytes text 3 0 tracing 40 forty ≡ some (log_rows (log_row text) 2 0 tracing forty)
log_bytes-rows_example =
    log_bytes-rows text 3 tracing 40 forty (omega arith) (omega arith) (omega arith)
