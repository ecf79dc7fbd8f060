-- ===== src/Importer/Bus/Net.antt =====
-- What the network signals promise: each name has the bytes that were pushed or injected since it was
-- last emptied, in order, whatever the codecs and the order of the vector.
pub mod Views
pub mod Represents
pub mod Emptied
pub mod Refine
pub mod Runs
use dse_fmi.Common.{
  ℕ, Bool, true, false, Option, none, some, List, [], ◌∷◌, ◌++◌, map, length, Bytes, HashMap,
  hashmap_get, hashmap_set, str_eq, ◌==◌, if◌then◌else◌, ◌>>=◌,
}
use dse_fmi.Importer.Bus.{
  CodecApi, VectorApi, Bus, network_inject_frame, network_push, network_pull, network_truncate,
  network_close,
}

-- The MIME type and the bytes of a signal; `none` if its codec could not be made.
abbrev pub Entry : Type 0
Entry = Option (Bytes × Bytes)

abbrev pub Net : Type 0
Net = HashMap Entry

abbrev pub appended : Bytes → Entry → Entry
appended d none = none
appended d (some (m, bytes)) = some (m, bytes ++ d)

abbrev pub emptied : Entry → Entry
emptied none = none
emptied (some (m, bytes)) = some (m, [])

abbrev pub bytes_in : Option Entry → Bytes
bytes_in (some (some (m, bytes))) = bytes
bytes_in _ = []

-- The calls of the importer.
pub data BusOp : Type 0 where
  inject : Bytes → Option Bytes → ℕ → Bytes → BusOp
  push : Bytes → Option Bytes → Bytes → BusOp
  pull : Bytes → Option Bytes → BusOp
  truncate : BusOp
  close : BusOp

module _ (codec : CodecApi) where
  abbrev pub created_entry : Bytes → Option codec.Codec → Entry
  created_entry m none = none
  created_entry m (some nc) = some (m, [])

  abbrev pub new_entry : Bytes → Entry
  new_entry m = created_entry m (codec.create m)

  abbrev pub add_entry : Net → Bytes → Option Bytes → Option Entry → Net
  add_entry net name m (some e) = net
  add_entry net name none none = net
  add_entry net name (some m) none = hashmap_set net name (new_entry m)

  -- A signal comes to be when it is first named with a MIME type.
  abbrev pub opened : Net → Bytes → Option Bytes → Net
  opened net name m = add_entry net name m (hashmap_get net name)

  abbrev pub framed : ℕ → Bytes → Entry → Entry
  framed id d none = none
  framed id d (some (m, bytes)) = some (m, bytes ++ codec.frame m id d)

  abbrev pub change_entry : Net → Bytes → (Entry → Entry) → Option Entry → Net
  change_entry net name f none = net
  change_entry net name f (some e) = hashmap_set net name (f e)

  abbrev pub updated : Net → Bytes → (Entry → Entry) → Net
  updated net name f = change_entry net name f (hashmap_get net name)

  -- One call, with the bytes that a pull gives.
  abbrev pub net_step : Net → BusOp → Bytes × Net
  net_step net (inject name m id d) = ([], updated (opened net name m) name (framed id d))
  net_step net (push name m d) =
      ([], if length d == 0 then net else updated (opened net name m) name (appended d))
  net_step net (pull name m) =
      let next = opened net name m in (bytes_in (hashmap_get next name), next)
  net_step net truncate = ([], map (λ (name, e). (name, emptied e)) net)
  net_step net close = ([], [])

  abbrev pub net_run : Net → List BusOp → List Bytes
  net_run net [] = []
  net_run net (op ∷ ops) = let (bytes, next) = net_step net op in bytes ∷ net_run next ops

  module _ (vectors : VectorApi) where
    unfoldable pub bus_step : Bus codec vectors → BusOp → Option (Bytes × Bus codec vectors)
    unfolding network_inject_frame network_push network_pull network_truncate network_close
    bus_step bus (inject name m id d) =
        some ([], network_inject_frame codec vectors bus name m id d)
    bus_step bus (push name m d) = do
      after ← network_push codec vectors bus name m d
      some ([], after)
    bus_step bus (pull name m) = some (network_pull codec vectors bus name m)
    bus_step bus truncate = some ([], network_truncate codec vectors bus)
    bus_step bus close = some ([], network_close codec vectors bus)

    unfoldable pub bus_run : Bus codec vectors → List BusOp → Option (List Bytes)
    unfolding bus_step
    bus_run bus [] = some []
    bus_run bus (op ∷ ops) = do r ← bus_step bus op; rest ← bus_run r.1 ops; some (r.0 ∷ rest)
