-- ===== src/Importer/Bus/Net/Views.antt =====
-- The entries that the signals of the bus show, and how a change on the heap changes them.
use dse_fmi.Common.{
  ℕ, ◌<◌, ◌≡◌, ◌≢◌, refl, sym, ◌∙◌, ap, ap₂, subst, Bool, true, false, Option, none, some, List, [],
  ◌∷◌, ◌++◌, map, length, get_elem?, Bytes, HashMap, hashmap_get, hashmap_set, str_eq, str_eq_iff,
  if◌then◌else◌, All, Pairs, All-map, arith,
}
use dse_fmi.Importer.Bus.{CodecApi, NetworkSignal, first_named, DifferentNames}
use dse_fmi.Importer.Bus.Net.{Entry, Net}

abbrev pub Apart : NetworkSignal → NetworkSignal → Type 0
Apart x y = (str_eq x.name y.name ≡ false) × ((a : ℕ) → x.nc ≡ some a → y.nc ≡ some a → ⊥)

All-names :
    (x : NetworkSignal) (l : List NetworkSignal)
    → All (Apart x) l
    → All (λ y. str_eq x.name y.name ≡ false) l
All-names x l h = All-map (Apart x) _ l (λ y a. a.0) h

pub names-differ : (l : List NetworkSignal) → Pairs Apart l → DifferentNames l
names-differ [] h = tt
names-differ (x ∷ l) h = (All-names x l h.0, names-differ l h.1)

pub first_named-All :
    (P : NetworkSignal → Type 0) (l : List NetworkSignal) (name : Bytes) (ns : NetworkSignal)
    → All P l
    → first_named l name ≡ some ns
    → P ns
first_named-All P [] name ns h e = absurd (ground (arith, e))
first_named-All P (x ∷ l) name ns h e =
    by_test (str_eq x.name name) e (first_named-All P l name ns h.1)
  where
    by_test :
        (b : Bool)
        → (if b then some x else first_named l name) ≡ some ns
        → (first_named l name ≡ some ns → P ns)
        → P ns
    by_test true f k = subst (λ o. elim o as (λ _. Type 0) [ none ↦ Unit {0} | some y ↦ P y ]) f h.0
    by_test false f k = k f

pub none_named :
    (l : List NetworkSignal) (name : Bytes)
    → first_named l name ≡ none
    → All (λ x. str_eq x.name name ≡ false) l
none_named [] name f = tt
none_named (x ∷ l) name f = by_test (str_eq x.name name) refl f (none_named l name)
  where
    by_test :
        (b : Bool)
        → str_eq x.name name ≡ b
        → (if b then some x else first_named l name) ≡ none
        → (first_named l name ≡ none → All (λ y. str_eq y.name name ≡ false) l)
        → All (λ y. str_eq y.name name ≡ false) (x ∷ l)
    by_test true t f ih = absurd (ground (arith, f))
    by_test false t f ih = (t, ih f)

pub same_entry :
    {V : Type 0} (m : HashMap V) (k : Bytes) (v : V)
    → hashmap_get m k ≡ some v
    → hashmap_set m k v ≡ m
unfolding hashmap_get hashmap_set
same_entry [] k v e = absurd (ground (arith, e))
same_entry {V} ((j, w) ∷ m) k v e = by_test (str_eq j k) refl e (λ f. same_entry m k v f)
  where
    by_test :
        (b : Bool)
        → str_eq j k ≡ b
        → (if b then some w else hashmap_get m k) ≡ some v
        → (hashmap_get m k ≡ some v → hashmap_set m k v ≡ m)
        → (if b then (k, v) ∷ m else (j, w) ∷ hashmap_set m k v) ≡ (j, w) ∷ m
    by_test true t f ih =
        ap₂ (λ (x : Bytes) (y : V). (x, y) ∷ m) (sym ((str_eq_iff j k).0 t))
          (sym (ap (λ o. elim o as (λ _. V) [ none ↦ w | some y ↦ y ]) f))
    by_test false t f ih = ap (λ (r : HashMap V). (j, w) ∷ r) (ih f)

module _ (codec : CodecApi) where
  open codec use {Codec}

  abbrev pub shown : Option Codec → Entry
  shown none = none
  shown (some nc) = some (codec.mime_type nc, codec.content nc)

  abbrev pub entry_at : List Codec → Option ℕ → Entry
  entry_at heap none = none
  entry_at heap (some a) = shown (get_elem? heap a)

  abbrev pub view : List Codec → NetworkSignal → Bytes × Entry
  view heap ns = (ns.name, entry_at heap ns.nc)

  abbrev pub Placed : List Codec → NetworkSignal → Type 0
  Placed heap ns = (a : ℕ) → ns.nc ≡ some a → a < length heap

  pub hashmap_get-view :
      (heap : List Codec) (l : List NetworkSignal) (name : Bytes)
      → hashmap_get (map (view heap) l) name ≡ (elim (first_named l name) as (λ _. Option Entry) [
        | none ↦ none
        | some ns ↦ some (entry_at heap ns.nc)
      ])
  unfolding hashmap_get
  hashmap_get-view heap [] name = refl
  hashmap_get-view heap (ns ∷ l) name = by_test (str_eq ns.name name) (hashmap_get-view heap l name)
    where
      by_test :
          (b : Bool)
          → hashmap_get (map (view heap) l) name
            ≡ (elim (first_named l name) as (λ _. Option Entry) [
              | none ↦ none
              | some ns ↦ some (entry_at heap ns.nc)
            ])
          → (if b then some (entry_at heap ns.nc) else hashmap_get (map (view heap) l) name)
            ≡ (elim (if b then some ns else first_named l name) as (λ _. Option Entry) [
              | none ↦ none
              | some ns ↦ some (entry_at heap ns.nc)
            ])
      by_test true e = refl
      by_test false e = e

  entry-same :
      (heap heap' : List Codec) (a : ℕ) (o : Option ℕ)
      → ((b : ℕ) → b ≢ a → entry_at heap' (some b) ≡ entry_at heap (some b))
      → (o ≡ some a → ⊥)
      → entry_at heap' o ≡ entry_at heap o
  entry-same heap heap' a none k n = refl
  entry-same heap heap' a (some b) k n = k b (λ e. n (ap (λ (x : ℕ). some x) e))

  map-same :
      (heap heap' : List Codec) (a : ℕ) (l : List NetworkSignal)
      → ((b : ℕ) → b ≢ a → entry_at heap' (some b) ≡ entry_at heap (some b))
      → All (λ y. y.nc ≡ some a → ⊥) l
      → map (view heap') l ≡ map (view heap) l
  map-same heap heap' a [] k n = refl
  map-same heap heap' a (y ∷ l) k n =
      ap₂ (λ (e : Entry) (r : Net). (y.name, e) ∷ r) (entry-same heap heap' a y.nc k n.0)
        (map-same heap heap' a l k n.1)

  -- A change of one entry of the heap is a change at the name of the signal that has it.
  pub changed-view :
      (heap heap' : List Codec) (l : List NetworkSignal) (name : Bytes) (ns : NetworkSignal) (a : ℕ)
      (e' : Entry)
      → Pairs Apart l
      → first_named l name ≡ some ns
      → ns.nc ≡ some a
      → entry_at heap' (some a) ≡ e'
      → ((b : ℕ) → b ≢ a → entry_at heap' (some b) ≡ entry_at heap (some b))
      → map (view heap') l ≡ hashmap_set (map (view heap) l) name e'
  unfolding hashmap_set
  changed-view heap heap' [] name ns a e' p f g h k = absurd (ground (arith, f))
  changed-view heap heap' (x ∷ l) name ns a e' p f g h k =
      by_test (str_eq x.name name) refl f
        (λ f'. changed-view heap heap' l name ns a e' p.1 f' g h k)
    where
      by_test :
          (b : Bool)
          → str_eq x.name name ≡ b
          → (if b then some x else first_named l name) ≡ some ns
          → (first_named l name ≡ some ns
              → map (view heap') l ≡ hashmap_set (map (view heap) l) name e')
          → view heap' x ∷ map (view heap') l ≡ (
              if b
              then (name, e') ∷ map (view heap) l
              else (x.name, entry_at heap x.nc) ∷ hashmap_set (map (view heap) l) name e')
      by_test true t f ih =
          let here : x.nc ≡ some a =
            ap (λ o. elim o as (λ _. Option ℕ) [ none ↦ none | some y ↦ y.nc ]) f ∙ g in
          let first : entry_at heap' x.nc ≡ e' = ap (entry_at heap') here ∙ h in
          let rest : map (view heap') l ≡ map (view heap) l =
            map-same heap heap' a l k (All-map (Apart x) _ l (λ y d c. d.1 a here c) p.0) in
          λ i. ((str_eq_iff x.name name).0 t i, first i) ∷ rest i
      by_test false t f ih =
          let apart : Apart x ns = first_named-All (Apart x) l name ns p.0 f in
          ap₂ (λ (e : Entry) (r : Net). (x.name, e) ∷ r)
            (entry-same heap heap' a x.nc k (λ c. apart.1 a c g)) (ih f)

  pub added-view :
      (heap : List Codec) (l : List NetworkSignal) (name : Bytes) (e : Entry)
      → first_named l name ≡ none
      → hashmap_set (map (view heap) l) name e ≡ map (view heap) l ++ (name, e) ∷ []
  unfolding hashmap_set
  added-view heap [] name e f = refl
  added-view heap (x ∷ l) name e f =
      by_test (str_eq x.name name) f (λ f'. added-view heap l name e f')
    where
      by_test :
          (b : Bool)
          → (if b then some x else first_named l name) ≡ none
          → (first_named l name ≡ none
              → hashmap_set (map (view heap) l) name e ≡ map (view heap) l ++ (name, e) ∷ [])
          → (if b
              then (name, e) ∷ map (view heap) l
              else (x.name, entry_at heap x.nc) ∷ hashmap_set (map (view heap) l) name e)
            ≡ view heap x ∷ (map (view heap) l ++ (name, e) ∷ [])
      by_test true f ih = absurd (ground (arith, f))
      by_test false f ih = ap (λ (r : Net). view heap x ∷ r) (ih f)
