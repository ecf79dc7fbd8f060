-- ===== src/Index/Latest.antt =====
-- A hash map after a sequence of entries: each key has its latest value.
use dse_fmi.Common.{
  ◌≡◌, refl, ◌∙◌, Option, some, List, [], ◌∷◌, ◌++◌, Bytes, HashMap, hashmap_get, hashmap_set,
  hashmap_get-set, str_eq, if◌then◌else◌, ap,
}

module _ {ℓ} {V : Type ℓ} where
  -- The value of a key after the entries, when it had the given one before.
  abbrev pub latest : Bytes → List (Bytes × V) → Option V → Option V
  latest k [] o = o
  latest k ((j, v) ∷ rest) o = latest k rest (if str_eq j k then some v else o)

  -- for (e : entries) hashmap_set(map, e.key, e.value)
  abbrev pub set_all : HashMap V → List (Bytes × V) → HashMap V
  set_all m [] = m
  set_all m ((k, v) ∷ rest) = set_all (hashmap_set m k v) rest

  pub latest-append :
      (k : Bytes) (xs ys : List (Bytes × V)) (o : Option V)
      → latest k (xs ++ ys) o ≡ latest k ys (latest k xs o)
  latest-append k [] ys o = refl
  latest-append k ((j, v) ∷ rest) ys o = latest-append k rest ys (if str_eq j k then some v else o)

  pub set_all-append :
      (m : HashMap V) (xs ys : List (Bytes × V)) → set_all m (xs ++ ys) ≡ set_all (set_all m xs) ys
  set_all-append m [] ys = refl
  set_all-append m ((k, v) ∷ rest) ys = set_all-append (hashmap_set m k v) rest ys

  pub hashmap_get-set_all :
      (m : HashMap V) (xs : List (Bytes × V)) (k : Bytes)
      → hashmap_get (set_all m xs) k ≡ latest k xs (hashmap_get m k)
  hashmap_get-set_all m [] k = refl
  hashmap_get-set_all m ((j, v) ∷ rest) k =
      hashmap_get-set_all (hashmap_set m j v) rest k ∙ ap (latest k rest) (hashmap_get-set m j k v)
