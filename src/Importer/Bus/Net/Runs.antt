-- ===== src/Importer/Bus/Net/Runs.antt =====
-- Sequences of calls of the importer on the bus, and on the net that it represents.
use dse_fmi.Common.{◌≡◌, true, List, [], length, Bytes}
use dse_fmi.Importer.Bus.{CodecApi, VectorApi, Bus}
use dse_fmi.Importer.Bus.Net.{Net}
use dse_fmi.Importer.Bus.Net.Represents.{Represents}

module _ (codec : CodecApi) (vectors : VectorApi) where
  open codec use {Codec}

  -- The vector, the switch and the number of codecs are as before.
  record Keeps (bus after : Bus codec vectors) : Type 0 where
    vector : after.ns_v ≡ bus.ns_v
    on : after.enabled ≡ bus.enabled
    size : length after.heap ≡ length bus.heap

  -- The bus before the first call, with signal_bus_enabled set.
  abbrev pub new_bus : List Codec → List Bytes → Bus codec vectors
  new_bus heap printed = record { ns_v = []; heap = heap; enabled = true; printed = printed }
