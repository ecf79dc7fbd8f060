-- ===== src/Importer/Bus.antt =====
-- dse/importer/signal_bus.c: the network signals, which the importer exchanges between the binary
-- variables of an FMU. The codecs of dse.ncodec and the vectors of dse.clib are parameters. A codec is
-- an object on the heap, at an address; the vector holds the addresses.
pub mod Net
mod Tests
use dse_fmi.Common.{
  ℕ, ◌≡◌, Bool, true, false, ◌||◌, Option, none, some, List, [], ◌∷◌, ◌++◌, length, get_elem?, set,
  Bytes, codes, str_eq, ◌==◌, if◌then◌else◌, All, Pairs, ◌>>=◌,
}

-- A codec with its stream: what the stream holds and its position. `write` is the stream's, and
-- `send` ncodec_write of a CAN FD frame followed by ncodec_flush. `messages` are the buffers that
-- ncodec_read gives until it fails, and `stat` the configuration that ncodec_stat gives. A call at the
-- end of the stream appends, and a read from its start gives all of it.
pub record CodecApi : Type 1 where
  pub Codec : Type 0
  pub create : Bytes → Option Codec
  pub with_stream : Codec → Codec
  pub seek_end : Codec → Codec
  pub seek_set : Codec → Codec
  pub write : Codec → Bytes → Codec
  pub send : Codec → ℕ → Bytes → Codec
  pub read : Codec → Bytes × Codec
  pub truncate : Codec → Codec
  pub messages : Codec → List Bytes
  pub stat : Codec → List (Bytes × Bytes)
  pub mime_type : Codec → Bytes
  pub content : Codec → Bytes
  pub position : Codec → ℕ
  pub frame : Bytes → ℕ → Bytes → Bytes
  pub create_mime_type : (m : Bytes) (nc : Codec) → create m ≡ some nc → mime_type nc ≡ m
  pub with_stream_lem :
      (nc : Codec) → (content (with_stream nc) ≡ []) × (mime_type (with_stream nc) ≡ mime_type nc)
  pub seek_end_lem :
      (nc : Codec)
      → (content (seek_end nc) ≡ content nc)
        × (position (seek_end nc) ≡ length (content nc))
        × (mime_type (seek_end nc) ≡ mime_type nc)
  pub seek_set_lem :
      (nc : Codec)
      → (content (seek_set nc) ≡ content nc)
        × (position (seek_set nc) ≡ 0)
        × (mime_type (seek_set nc) ≡ mime_type nc)
  pub write_lem :
      (nc : Codec) (d : Bytes)
      → position nc ≡ length (content nc)
      → (content (write nc d) ≡ content nc ++ d) × (mime_type (write nc d) ≡ mime_type nc)
  pub send_lem :
      (nc : Codec) (id : ℕ) (d : Bytes)
      → position nc ≡ length (content nc)
      → (content (send nc id d) ≡ content nc ++ frame (mime_type nc) id d)
        × (mime_type (send nc id d) ≡ mime_type nc)
  pub read_lem :
      (nc : Codec)
      → position nc ≡ 0
      → ((read nc).0 ≡ content nc)
        × (content (read nc).1 ≡ content nc)
        × (mime_type (read nc).1 ≡ mime_type nc)
  pub truncate_lem :
      (nc : Codec) → (content (truncate nc) ≡ []) × (mime_type (truncate nc) ≡ mime_type nc)

-- An entry of the vector; `nc` is NULL if ncodec_create failed.
pub record NetworkSignal : Type 0 where
  pub name : Bytes
  pub mime_type : Bytes
  pub nc : Option ℕ

-- The first entry with the name.
abbrev pub first_named : List NetworkSignal → Bytes → Option NetworkSignal
first_named [] name = none
first_named (ns ∷ rest) name = if str_eq ns.name name then some ns else first_named rest name

abbrev pub DifferentNames : List NetworkSignal → Type 0
DifferentNames = Pairs (λ a b. str_eq a.name b.name ≡ false)

-- vector_sort and vector_find with NetworkSignalCompar. Sorting keeps the entries; where the names
-- differ, there is one sorted order, and the search in it finds the entry of a name.
pub record VectorApi : Type 1 where
  pub vector_sort : List NetworkSignal → List NetworkSignal
  pub vector_find : List NetworkSignal → Bytes → Option NetworkSignal
  pub sort_nil : vector_sort [] ≡ []
  pub sort_All :
      (P : NetworkSignal → Type 0) (l : List NetworkSignal) → All P (vector_sort l) → All P l
  pub sort_again :
      (l : List NetworkSignal) (ns : NetworkSignal)
      → DifferentNames (l ++ ns ∷ [])
      → vector_sort (vector_sort l ++ ns ∷ []) ≡ vector_sort (l ++ ns ∷ [])
  pub find_sort :
      (l : List NetworkSignal) (name : Bytes)
      → DifferentNames l
      → vector_find (vector_sort l) name ≡ first_named l name

-- ncodec_stat over the configuration, up to the first item of the name.
unfoldable pub stat_value : List (Bytes × Bytes) → Bytes → Option Bytes
stat_value [] key = none
stat_value ((name, value) ∷ rest) key = if str_eq name key then some value else stat_value rest key

module _ (codec : CodecApi) (vectors : VectorApi) where
  open codec use {Codec}

  -- `ns_v`, the codecs on the heap, signal_bus_enabled, and the lines that network_push prints.
  pub record Bus : Type 0 where
    pub ns_v : List NetworkSignal
    pub heap : List Codec
    pub enabled : Bool
    pub printed : List Bytes

  -- network_mime_type_value; without a codec there is no configuration.
  unfoldable pub mime_type_value : Bytes → Bytes → Option Bytes
  unfolding stat_value
  mime_type_value mime_type key = elim (codec.create mime_type) [
    | none ↦ none
    | some nc ↦ stat_value (codec.stat nc) key
  ]

  abbrev pub push_signal : Bus → Bytes → Bytes → Option ℕ → Bus
  push_signal bus name mime_type nc = record bus {
    ns_v =
        vectors.vector_sort
          (bus.ns_v ++ record { name = name; mime_type = mime_type; nc = nc } ∷ []);
  }

  -- The codec is at the next address.
  abbrev pub add_signal : Bus → Bytes → Bytes → Option Codec → Bus
  add_signal bus name mime_type none = push_signal bus name mime_type none
  add_signal bus name mime_type (some nc) =
      push_signal (record bus { heap = bus.heap ++ codec.with_stream nc ∷ [] }) name mime_type
        (some (length bus.heap))

  abbrev pub find_or_add : Bus → Bytes → Option Bytes → Option NetworkSignal → Bus
  find_or_add bus name mime_type (some ns) = bus
  find_or_add bus name none none = bus
  find_or_add bus name (some mime_type) none =
      add_signal bus name mime_type (codec.create mime_type)

  -- The bus after the call; what it returns is found in it.
  unfoldable pub get_network_signal : Bus → Bytes → Option Bytes → Bus
  get_network_signal bus name mime_type =
      find_or_add bus name mime_type (vectors.vector_find bus.ns_v name)

  abbrev pub address_of : Option NetworkSignal → Option ℕ
  address_of none = none
  address_of (some ns) = ns.nc

  -- The codec of a signal, if it is there and has one.
  abbrev pub codec_of : Bus → Bytes → Option ℕ
  codec_of bus name = address_of (vectors.vector_find bus.ns_v name)

  abbrev pub changed_at : Bus → ℕ → (Codec → Codec) → Option Codec → Bus
  changed_at bus a f none = bus
  changed_at bus a f (some nc) = record bus { heap = set bus.heap a (f nc) }

  -- A change of the object at an address.
  abbrev pub at_address : Bus → Option ℕ → (Codec → Codec) → Bus
  at_address bus none f = bus
  at_address bus (some a) f = changed_at bus a f (get_elem? bus.heap a)

  unfoldable pub network_inject_frame : Bus → Bytes → Option Bytes → ℕ → Bytes → Bus
  unfolding get_network_signal
  network_inject_frame bus name mime_type id buffer =
      let after = get_network_signal bus name mime_type in
      at_address after (codec_of after name) (λ nc. codec.send (codec.seek_end nc) id buffer)

  -- A codec of its own reads the messages, if the type is "frame"; `none` is strcmp with NULL, or
  -- ncodec_create of a NULL MIME type.
  abbrev pub print_created : Bus → Bytes → Option Codec → Bus
  print_created bus buffer none = bus
  print_created bus buffer (some nc) = record bus {
    printed =
        bus.printed ++ codec.messages (codec.seek_set (codec.write (codec.with_stream nc) buffer));
  }

  abbrev pub print_typed : Bus → Bytes → Bytes → Option Bytes → Option Bus
  print_typed bus mime_type buffer none = none
  print_typed bus mime_type buffer (some type) = some (
      if str_eq type (codes "frame")
      then print_created bus buffer (codec.create mime_type)
      else bus)

  unfoldable pub print_messages : Bus → Option Bytes → Bytes → Option Bus
  unfolding mime_type_value
  print_messages bus none buffer = none
  print_messages bus (some mime_type) buffer =
      print_typed bus mime_type buffer (mime_type_value mime_type (codes "type"))

  abbrev pub push_to : Bus → Option Bytes → Bytes → Option ℕ → Option Bus
  push_to bus mime_type buffer none = some bus
  push_to bus mime_type buffer (some a) =
      if bus.enabled
      then some (at_address bus (some a) (λ nc. codec.write (codec.seek_end nc) buffer))
      else print_messages bus mime_type buffer

  -- An empty buffer, or NULL, is not pushed.
  unfoldable pub network_push : Bus → Bytes → Option Bytes → Bytes → Option Bus
  unfolding get_network_signal print_messages
  network_push bus name mime_type buffer =
      if length buffer == 0
      then some bus
      else (let after = get_network_signal bus name mime_type in
          push_to after mime_type buffer (codec_of after name))

  abbrev pub bytes_of_read : Option Codec → Bytes
  bytes_of_read none = []
  bytes_of_read (some nc) = (codec.read (codec.seek_set nc)).0

  abbrev pub pull_from : Bus → Option ℕ → Bytes × Bus
  pull_from bus none = ([], bus)
  pull_from bus (some a) = (
    bytes_of_read (get_elem? bus.heap a),
    at_address bus (some a) (λ nc. (codec.read (codec.seek_set nc)).1),
  )

  -- A NULL buffer of length 0 is the empty one.
  unfoldable pub network_pull : Bus → Bytes → Option Bytes → Bytes × Bus
  unfolding get_network_signal
  network_pull bus name mime_type =
      let after = get_network_signal bus name mime_type in pull_from after (codec_of after name)

  unfoldable pub truncate_all : List NetworkSignal → Bus → Bus
  truncate_all [] bus = bus
  truncate_all (ns ∷ rest) bus = truncate_all rest (at_address bus ns.nc codec.truncate)

  unfoldable pub network_truncate : Bus → Bus
  unfolding truncate_all
  network_truncate bus = truncate_all bus.ns_v bus

  -- The codecs are closed, and no address of them is left.
  unfoldable pub network_close : Bus → Bus
  network_close bus = record bus { ns_v = [] }
