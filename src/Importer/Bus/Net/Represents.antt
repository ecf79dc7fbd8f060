-- ===== src/Importer/Bus/Net/Represents.antt =====
-- When a bus represents a net, and that it does after a signal came to be or its codec changed.
use dse_fmi.Common.{
  ℕ, zero, suc, ◌<◌, ◌≤◌, ◌≡◌, refl, sym, ◌∙◌, ap, ap₂, subst, true, false, Option, none, some,
  List, [], ◌∷◌, ◌++◌, map, length, get_elem?, set, length-set, get_elem?-set_self,
  get_elem?-set_ne, length-append, Bytes, hashmap_get, hashmap_set, str_eq, All, Pairs, All-map,
  All-append, Pairs-append, append-nil, map-snoc, arith,
}
use dse_fmi.Importer.Bus.{
  CodecApi, NetworkSignal, VectorApi, Bus, first_named, add_signal, find_or_add, get_network_signal,
  codec_of, at_address,
}
use dse_fmi.Importer.Bus.Net.{Entry, Net, created_entry, opened, updated}
use dse_fmi.Importer.Bus.Net.Views.{
  shown, entry_at, view, Apart, Placed, names-differ, hashmap_get-view, first_named-All,
  changed-view, added-view, none_named, same_entry,
}

get_elem?-append_left :
    {A : Type 0} (xs ys : List A) (i : ℕ) → i < length xs → get_elem? (xs ++ ys) i ≡ get_elem? xs i
get_elem?-append_left [] ys i h = absurd (omega (arith, h))
get_elem?-append_left (x ∷ xs) ys zero h = refl
get_elem?-append_left (x ∷ xs) ys (suc i) h = get_elem?-append_left xs ys i (omega (arith, h))

get_elem?-append_new :
    {A : Type 0} (xs : List A) (y : A) → get_elem? (xs ++ y ∷ []) (length xs) ≡ some y
get_elem?-append_new [] y = refl
get_elem?-append_new (x ∷ xs) y = get_elem?-append_new xs y

pub get_elem?-lt :
    {A : Type 0} (xs : List A) (i : ℕ) → i < length xs → (v : A) × (get_elem? xs i ≡ some v)
get_elem?-lt [] i h = absurd (omega (arith, h))
get_elem?-lt (x ∷ xs) zero h = (x, refl)
get_elem?-lt (x ∷ xs) (suc i) h = get_elem?-lt xs i (omega (arith, h))

module _ (codec : CodecApi) (vectors : VectorApi) where
  open codec use {Codec}

  -- The vector is the sorted list of the signals in the order in which they came to be, whose codecs
  -- have addresses of their own, and the net has what these hold.
  pub record Represents (bus : Bus codec vectors) (net : Net) : Type 0 where
    pub signals : List NetworkSignal
    pub sorted : bus.ns_v ≡ vectors.vector_sort signals
    pub apart : Pairs Apart signals
    pub placed : All (Placed codec bus.heap) signals
    pub shows : net ≡ map (view codec bus.heap) signals
    pub on : bus.enabled ≡ true

  pub found :
      (bus : Bus codec vectors) (net : Net) (r : Represents bus net) (name : Bytes)
      → vectors.vector_find bus.ns_v name ≡ first_named r.signals name
  found bus net r name =
      ap (λ v. vectors.vector_find v name) r.sorted
      ∙ vectors.find_sort r.signals name (names-differ r.signals r.apart)

  pub got :
      (bus : Bus codec vectors) (net : Net) (r : Represents bus net) (name : Bytes)
      → hashmap_get net name ≡ (elim (first_named r.signals name) as (λ _. Option Entry) [
        | none ↦ none
        | some ns ↦ some (entry_at codec bus.heap ns.nc)
      ])
  got bus net r name =
      ap (λ m. hashmap_get m name) r.shows ∙ hashmap_get-view codec bus.heap r.signals name

  -- A change of the codec of a signal.
  pub at_address-Represents :
      (bus : Bus codec vectors) (net : Net) (name : Bytes) (f : Codec → Codec) (g : Entry → Entry)
      → ((nc : Codec) → shown codec (some (f nc)) ≡ g (shown codec (some nc)))
      → g none ≡ none
      → Represents bus net
      → Represents
          (at_address codec vectors bus (codec_of codec vectors bus name) f)
          (updated codec net name g)
  at_address-Represents bus net name f g e z r =
      by_signal (first_named r.signals name) refl (found bus net r name) (got bus net r name)
    where
      by_address :
          (ns : NetworkSignal) (o : Option ℕ)
          → first_named r.signals name ≡ some ns
          → ns.nc ≡ o
          → hashmap_get net name ≡ some (entry_at codec bus.heap o)
          → Represents
              (at_address codec vectors bus o f)
              (hashmap_set net name (g (entry_at codec bus.heap o)))
      by_address ns none s c w =
          subst (Represents bus) (sym (ap (hashmap_set net name) z ∙ same_entry net name none w)) r
      by_address ns (some a) s c w =
          let placed : a < length bus.heap =
            first_named-All (Placed codec bus.heap) r.signals name ns r.placed s a c in
          let (nc, e') = get_elem?-lt bus.heap a placed in
          rw e' (record {
            signals = r.signals;
            sorted = r.sorted;
            apart = r.apart;
            placed =
                All-map (Placed codec bus.heap) _ r.signals
                  (λ y p b q. omega (arith, p b q, length-set bus.heap a (f nc))) r.placed;
            shows =
                ap (λ m. hashmap_set m name (g (shown codec (some nc)))) r.shows
                ∙ sym (
                    changed-view codec bus.heap (set bus.heap a (f nc)) r.signals name ns a
                      (g (shown codec (some nc))) r.apart s c
                      (ap (shown codec) (get_elem?-set_self bus.heap a (f nc) placed) ∙ e nc)
                      (λ b n.
                        ap (shown codec) (get_elem?-set_ne bus.heap (f nc) (λ q. n (sym q)))));
            on = r.on;
          })

      by_signal :
          (o : Option NetworkSignal)
          → first_named r.signals name ≡ o
          → vectors.vector_find bus.ns_v name ≡ o
          → hashmap_get net name ≡ (elim o as (λ _. Option Entry) [
            | none ↦ none
            | some ns ↦ some (entry_at codec bus.heap ns.nc)
          ])
          → Represents
              (at_address codec vectors bus (codec_of codec vectors bus name) f)
              (updated codec net name g)
      by_signal none s v w = rw (v, w) r
      by_signal (some ns) s v w = rw (v, w) (by_address ns ns.nc s refl w)

  -- A signal that comes to be, perhaps with a codec at a new address.
  added-Represents :
      (bus : Bus codec vectors) (net : Net) (ns : NetworkSignal) (more : List Codec) (e : Entry)
      → (r : Represents bus net) → first_named r.signals ns.name ≡ none
      → Placed codec (bus.heap ++ more) ns
      → ((a : ℕ) → ns.nc ≡ some a → length bus.heap ≤ a)
      → entry_at codec (bus.heap ++ more) ns.nc ≡ e
      → Represents
          (record bus { heap = bus.heap ++ more; ns_v = vectors.vector_sort (bus.ns_v ++ ns ∷ []) })
          (hashmap_set net ns.name e)
  added-Represents bus net ns more e r s p n h = record {
    signals = r.signals ++ ns ∷ [];
    sorted =
        ap (λ v. vectors.vector_sort (v ++ ns ∷ [])) r.sorted
        ∙ vectors.sort_again r.signals ns (names-differ (r.signals ++ ns ∷ []) all_apart);
    apart = all_apart;
    placed =
        All-append (Placed codec (bus.heap ++ more)) r.signals (ns ∷ [])
          (All-map (Placed codec bus.heap) _ r.signals
            (λ y q b c. omega (arith, q b c, length-append {0} bus.heap more)) r.placed)
          (p, tt);
    shows =
        ap (λ m. hashmap_set m ns.name e) r.shows
        ∙ added-view codec bus.heap r.signals ns.name e s
        ∙ ap₂ (λ (x : Net) (y : Entry). x ++ (ns.name, y) ∷ []) (same r.signals r.placed) (sym h)
        ∙ sym (map-snoc (view codec (bus.heap ++ more)) r.signals ns);
    on = r.on;
  }
    where
      both :
          (l : List NetworkSignal)
          → All (λ x. str_eq x.name ns.name ≡ false) l
          → All (Placed codec bus.heap) l
          → All (λ x. All (Apart x) (ns ∷ [])) l
      both [] d q = tt
      both (x ∷ l) d q =
          (((d.0, (λ a f g. absurd (omega (arith, q.0 a f, n a g)))), tt), both l d.1 q.1)

      all_apart : Pairs Apart (r.signals ++ ns ∷ [])
      all_apart =
          Pairs-append Apart r.signals (ns ∷ []) r.apart (tt, tt)
            (both r.signals (none_named r.signals ns.name s) r.placed)

      same_at :
          (o : Option ℕ)
          → ((a : ℕ) → o ≡ some a → a < length bus.heap)
          → entry_at codec bus.heap o ≡ entry_at codec (bus.heap ++ more) o
      same_at none q = refl
      same_at (some a) q = ap (shown codec) (sym (get_elem?-append_left bus.heap more a (q a refl)))

      same :
          (l : List NetworkSignal)
          → All (Placed codec bus.heap) l
          → map (view codec bus.heap) l ≡ map (view codec (bus.heap ++ more)) l
      same [] q = refl
      same (x ∷ l) q =
          ap₂ (λ (y : Entry) (m : Net). (x.name, y) ∷ m) (same_at x.nc q.0) (same l q.1)

  add_signal-Represents :
      (bus : Bus codec vectors) (net : Net) (name m : Bytes) (o : Option Codec)
      → codec.create m ≡ o
      → (r : Represents bus net) → first_named r.signals name ≡ none
      → Represents
          (add_signal codec vectors bus name m o)
          (hashmap_set net name (created_entry codec m o))
  add_signal-Represents bus net name m none e r s =
      subst
        (λ h.
          Represents
            (record bus {
              heap = h;
              ns_v =
                  vectors.vector_sort
                    (bus.ns_v ++ record { name = name; mime_type = m; nc = none } ∷ []);
            })
            (hashmap_set net name none))
        (append-nil bus.heap)
        (added-Represents bus net (record { name = name; mime_type = m; nc = none }) [] none r s
          (λ a f. absurd (ground (arith, f))) (λ a f. absurd (ground (arith, f))) refl)
  add_signal-Represents bus net name m (some nc) e r s =
      added-Represents bus net (record { name = name; mime_type = m; nc = some (length bus.heap) })
        (codec.with_stream nc ∷ []) (some (m, [])) r s
        (λ a f. ground (arith, f, length-append {0} bus.heap (codec.with_stream nc ∷ [])))
        (λ a f. ground (arith, f))
        (ap (shown codec) (get_elem?-append_new bus.heap (codec.with_stream nc))
          ∙ ap₂ (λ (x y : Bytes). some (x, y))
              ((codec.with_stream_lem nc).1 ∙ codec.create_mime_type m nc e)
              (codec.with_stream_lem nc).0)

  pub get_network_signal-Represents :
      (bus : Bus codec vectors) (net : Net) (name : Bytes) (m : Option Bytes)
      → Represents bus net
      → Represents (get_network_signal codec vectors bus name m) (opened codec net name m)
  unfolding get_network_signal
  get_network_signal-Represents bus net name m r =
      by_signal (first_named r.signals name) m refl (found bus net r name) (got bus net r name)
    where
      by_signal :
          (o : Option NetworkSignal) (m : Option Bytes)
          → first_named r.signals name ≡ o
          → vectors.vector_find bus.ns_v name ≡ o
          → hashmap_get net name ≡ (elim o as (λ _. Option Entry) [
            | none ↦ none
            | some ns ↦ some (entry_at codec bus.heap ns.nc)
          ])
          → Represents
              (find_or_add codec vectors bus name m (vectors.vector_find bus.ns_v name))
              (opened codec net name m)
      by_signal (some ns) m s v w = rw (v, w) r
      by_signal none none s v w = rw (v, w) r
      by_signal none (some t) s v w =
          rw (v, w) (add_signal-Represents bus net name t (codec.create t) refl r s)
