-- ===== src/Importer/Bus/Tests.antt =====
-- A run of the network signals, with streams that are bytes and a position. The vector keeps the order
-- in which the signals came to be, and is searched from its start.
use dse_fmi.Common.{
  ℕ, ◌+◌, ◌≡◌, refl, sym, ap, none, some, List, [], ◌∷◌, ◌++◌, length, take, drop, take-all, Bytes,
  codes, str_eq, hashmap_get, hashmap_set, arith,
}
use dse_fmi.Importer.Bus.{CodecApi, VectorApi, first_named}
use dse_fmi.Importer.Bus.Net.{BusOp, net_run}

abbrev ByteStream : Type 0
ByteStream = Bytes × Bytes × ℕ

abbrev put : ByteStream → Bytes → ByteStream
put (m, bytes, p) d = (m, take p bytes ++ d, p + length d)

put-content : (nc : ByteStream) (d : Bytes) → nc.2 ≡ length nc.1 → (put nc d).1 ≡ nc.1 ++ d
put-content (m, bytes, p) d h = ap (λ (b : Bytes). b ++ d) (take-all p bytes (omega (arith, h)))

abbrev codec : CodecApi
codec = record {
  Codec = ByteStream;
  create = λ m. some (m, [], 0);
  with_stream = λ nc. (nc.0, [], 0);
  seek_end = λ nc. (nc.0, nc.1, length nc.1);
  seek_set = λ nc. (nc.0, nc.1, 0);
  write = put;
  send = λ nc id d. put nc (id ∷ d);
  read = λ nc. (drop nc.2 nc.1, nc);
  truncate = λ nc. (nc.0, [], 0);
  messages = λ nc. [];
  stat = λ nc. (codes "type", codes "frame") ∷ [];
  mime_type = λ nc. nc.0;
  content = λ nc. nc.1;
  position = λ nc. nc.2;
  frame = λ m id d. id ∷ d;
  create_mime_type = λ m nc e. ap (λ o. elim o as (λ _. Bytes) [ none ↦ m | some c ↦ c.0 ]) (sym e);
  with_stream_lem = λ nc. (refl, refl);
  seek_end_lem = λ nc. (refl, refl, refl);
  seek_set_lem = λ nc. (refl, refl, refl);
  write_lem = λ nc d h. (put-content nc d h, refl);
  send_lem = λ nc id d h. (put-content nc (id ∷ d) h, refl);
  read_lem = λ nc h. (ap (λ (p : ℕ). drop p nc.1) h, refl, refl);
  truncate_lem = λ nc. (refl, refl);
}

abbrev vectors : VectorApi
vectors = record {
  vector_sort = λ l. l;
  vector_find = first_named;
  sort_nil = refl;
  sort_All = λ P l h. h;
  sort_again = λ l ns h. refl;
  find_sort = λ l name h. refl;
}

abbrev calls : List BusOp
calls =
    BusOp.push (codes "b") (some (codes "m")) (1 ∷ 2 ∷ [])
    ∷ BusOp.inject (codes "a") (some (codes "m")) 5 (3 ∷ [])
    ∷ BusOp.push (codes "b") none (4 ∷ [])
    ∷ BusOp.pull (codes "b") none
    ∷ BusOp.truncate
    ∷ BusOp.push (codes "a") none (6 ∷ [])
    ∷ BusOp.pull (codes "a") none
    ∷ BusOp.pull (codes "c") none
    ∷ BusOp.close
    ∷ []

pulled_bytes :
    net_run codec [] calls ≡ [] ∷ [] ∷ [] ∷ (1 ∷ 2 ∷ 4 ∷ []) ∷ [] ∷ [] ∷ (6 ∷ []) ∷ [] ∷ [] ∷ []
unfolding str_eq hashmap_get hashmap_set
pulled_bytes = refl
