-- ===== src/Importer/Bus/Net/Refine.antt =====
-- The bus of the importer refines the net.
use dse_fmi.Common.{
  ℕ, ◌≡◌, refl, sym, ◌∙◌, ap, ap₂, subst, true, Option, none, some, ◌++◌, length, get_elem?, Bytes,
  hashmap_get, ◌==◌, Bool-cases, inl, inr, Returns,
}
use dse_fmi.Importer.Bus.{
  CodecApi, NetworkSignal, VectorApi, Bus, first_named, get_network_signal, codec_of, at_address,
  push_to, bytes_of_read, pull_from,
}
use dse_fmi.Importer.Bus.Net.{
  Entry, Net, appended, bytes_in, BusOp, inject, push, opened, framed, updated, net_step, bus_step,
}
use dse_fmi.Importer.Bus.Net.Views.{shown, entry_at, same_entry}
use dse_fmi.Importer.Bus.Net.Represents.{
  Represents, found, got, at_address-Represents, get_network_signal-Represents,
}

module _ (codec : CodecApi) (vectors : VectorApi) where
  open codec use {Codec}

  sent-shown :
      (id : ℕ) (d : Bytes) (nc : Codec)
      → shown codec (some (codec.send (codec.seek_end nc) id d))
        ≡ framed codec id d (shown codec (some nc))
  sent-shown id d nc =
      let (c, p, m) = codec.seek_end_lem nc in
      let (c', m') = codec.send_lem (codec.seek_end nc) id d (p ∙ ap length (sym c)) in
      ap₂ (λ (x y : Bytes). some (x, y)) (m' ∙ m)
        (c' ∙ ap₂ (λ (x y : Bytes). x ++ codec.frame y id d) c m)

  written-shown :
      (d : Bytes) (nc : Codec)
      → shown codec (some (codec.write (codec.seek_end nc) d)) ≡ appended d (shown codec (some nc))
  written-shown d nc =
      let (c, p, m) = codec.seek_end_lem nc in
      let (c', m') = codec.write_lem (codec.seek_end nc) d (p ∙ ap length (sym c)) in
      ap₂ (λ (x y : Bytes). some (x, y)) (m' ∙ m) (c' ∙ ap (λ (x : Bytes). x ++ d) c)

  read-shown :
      (nc : Codec) → shown codec (some (codec.read (codec.seek_set nc)).1) ≡ shown codec (some nc)
  read-shown nc =
      let (c, p, m) = codec.seek_set_lem nc in
      let (b, c', m') = codec.read_lem (codec.seek_set nc) p in
      ap₂ (λ (x y : Bytes). some (x, y)) (m' ∙ m) (c' ∙ c)

  push_to-some :
      (bus : Bus codec vectors) (m : Option Bytes) (d : Bytes) (o : Option ℕ)
      → bus.enabled ≡ true
      → push_to codec vectors bus m d o
        ≡ some (at_address codec vectors bus o (λ nc. codec.write (codec.seek_end nc) d))
  push_to-some bus m d none e = refl
  push_to-some bus m d (some a) e = rw e refl

  -- What a call returns and leaves, beside the net.
  abbrev pub StepAgrees : Net → BusOp → Bytes × Bus codec vectors → Type 0
  StepAgrees net op q =
      (q.0 ≡ (net_step codec net op).0) × Represents codec vectors q.1 (net_step codec net op).1

  pub push-Agrees :
      (bus : Bus codec vectors) (net : Net) (name : Bytes) (m : Option Bytes) (d : Bytes)
      → Represents codec vectors bus net
      → Returns (bus_step codec vectors bus (push name m d)) (StepAgrees net (push name m d))
  unfolding bus_step
  push-Agrees bus net name m d r = elim (Bool-cases (length d == 0)) [
    | inl e ↦ rw e (refl, rw e r)
    | inr e ↦
        let next = get_network_signal-Represents codec vectors bus net name m r in
        rw
          (
            e,
            push_to-some (get_network_signal codec vectors bus name m) m d
                (codec_of codec vectors (get_network_signal codec vectors bus name m) name) next.on,
          )
          (
            refl,
            rw e (
                at_address-Represents codec vectors (get_network_signal codec vectors bus name m)
                  (opened codec net name m) name (λ nc. codec.write (codec.seek_end nc) d)
                  (appended d) (written-shown d) refl next),
          )
  ]

  pub inject-Agrees :
      (bus : Bus codec vectors) (net : Net) (name : Bytes) (m : Option Bytes) (id : ℕ) (d : Bytes)
      → Represents codec vectors bus net
      → Returns
          (bus_step codec vectors bus (inject name m id d))
          (StepAgrees net (inject name m id d))
  unfolding bus_step
  inject-Agrees bus net name m id d r = (
    refl,
    at_address-Represents codec vectors (get_network_signal codec vectors bus name m)
        (opened codec net name m) name (λ nc. codec.send (codec.seek_end nc) id d)
        (framed codec id d) (sent-shown id d) refl
        (get_network_signal-Represents codec vectors bus net name m r),
  )

  bytes_of_read-shown :
      (o : Option Codec) → bytes_of_read codec vectors o ≡ bytes_in (some (shown codec o))
  bytes_of_read-shown none = refl
  bytes_of_read-shown (some nc) =
      let (c, p, m) = codec.seek_set_lem nc in
      let (b, c', m') = codec.read_lem (codec.seek_set nc) p in b ∙ c

  pub pulled :
      (bus : Bus codec vectors) (net : Net) (name : Bytes)
      → (r : Represents codec vectors bus net)
      → let q = pull_from codec vectors bus (codec_of codec vectors bus name) in
        (q.0 ≡ bytes_in (hashmap_get net name)) × Represents codec vectors q.1 net
  pulled bus net name r =
      by_signal (first_named r.signals name) (found codec vectors bus net r name)
        (got codec vectors bus net r name)
        (at_address-Represents codec vectors bus net name (λ nc. (codec.read (codec.seek_set nc)).1)
          (λ e. e) read-shown refl r)
    where
      by_address :
          (o : Option ℕ) (e : Entry)
          → hashmap_get net name ≡ some e
          → e ≡ entry_at codec bus.heap o
          → Represents codec vectors
              (at_address codec vectors bus o (λ nc. (codec.read (codec.seek_set nc)).1))
              net
          → ((pull_from codec vectors bus o).0 ≡ bytes_in (some e))
            × Represents codec vectors (pull_from codec vectors bus o).1 net
      by_address none e w h k = (ap (λ x. bytes_in (some x)) (sym h), k)
      by_address (some a) e w h k =
          (bytes_of_read-shown (get_elem? bus.heap a) ∙ ap (λ x. bytes_in (some x)) (sym h), k)

      by_signal :
          (o : Option NetworkSignal)
          → vectors.vector_find bus.ns_v name ≡ o
          → hashmap_get net name ≡ (elim o as (λ _. Option Entry) [
            | none ↦ none
            | some ns ↦ some (entry_at codec bus.heap ns.nc)
          ])
          → Represents codec vectors
              (at_address codec vectors bus
                (codec_of codec vectors bus name)
                (λ nc. (codec.read (codec.seek_set nc)).1))
              (updated codec net name (λ e. e))
          → ((pull_from codec vectors bus (codec_of codec vectors bus name)).0
              ≡ bytes_in (hashmap_get net name))
            × Represents codec vectors
                (pull_from codec vectors bus (codec_of codec vectors bus name)).1
                net
      by_signal none v w k = rw (v, w) (refl, r)
      by_signal (some ns) v w k =
          rw (v, w)
            (by_address ns.nc (entry_at codec bus.heap ns.nc) w refl (
              subst
                (λ n.
                  Represents codec vectors
                    (at_address codec vectors bus ns.nc (λ nc. (codec.read (codec.seek_set nc)).1))
                    n)
                (same_entry net name (entry_at codec bus.heap ns.nc) w) (rw (v, w) at k)))
