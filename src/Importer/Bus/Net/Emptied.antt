-- ===== src/Importer/Bus/Net/Emptied.antt =====
-- network_truncate empties every signal of the vector, in whatever order they stand there.
use dse_fmi.Common.{
  ℕ, zero, suc, ◌≡◌, ◌≢◌, refl, sym, ◌∙◌, ap, ap₂, subst, Option, none, some, List, [], ◌∷◌,
  get_elem?, set, get_elem?-set_ne, Bytes, ◌==◌, All, All-map, Bool-cases, inl, inr, ◌⊎◌, arith,
}
use dse_fmi.Importer.Bus.{
  CodecApi, NetworkSignal, VectorApi, Bus, at_address, changed_at, truncate_all,
}
use dse_fmi.Importer.Bus.Net.{Entry, emptied}
use dse_fmi.Importer.Bus.Net.Views.{shown, entry_at}

emptied_twice : (e : Entry) → emptied (emptied e) ≡ emptied e
emptied_twice none = refl
emptied_twice (some (m, bytes)) = refl

module _ (codec : CodecApi) (vectors : VectorApi) where
  open codec use {Codec}

  abbrev emptied_at : Bus codec vectors → Option ℕ → Bus codec vectors
  emptied_at bus o = at_address codec vectors bus o codec.truncate

  -- An entry stays, or is emptied.
  abbrev KeptOrEmptied : Entry → Entry → Type 0
  KeptOrEmptied e e' = (e' ≡ e) ⊎ (e' ≡ emptied e)

  truncated-shown :
      (nc : Codec) → shown codec (some (codec.truncate nc)) ≡ emptied (shown codec (some nc))
  truncated-shown nc =
      ap₂ (λ (x y : Bytes). some (x, y)) (codec.truncate_lem nc).1 (codec.truncate_lem nc).0

  set-emptied :
      (heap : List Codec) (a : ℕ) (nc : Codec)
      → get_elem? heap a ≡ some nc
      → shown codec (get_elem? (set heap a (codec.truncate nc)) a)
        ≡ emptied (shown codec (get_elem? heap a))
  set-emptied [] a nc e = absurd (ground (arith, e))
  set-emptied (x ∷ heap) zero nc e = truncated-shown nc ∙ ap (λ o. emptied (shown codec o)) (sym e)
  set-emptied (x ∷ heap) (suc a) nc e = set-emptied heap a nc e

  emptied_at_self :
      (bus : Bus codec vectors) (o : Option ℕ)
      → entry_at codec (emptied_at bus o).heap o ≡ emptied (entry_at codec bus.heap o)
  emptied_at_self bus none = refl
  emptied_at_self bus (some a) = by_codec (get_elem? bus.heap a) refl
    where
      by_codec :
          (o : Option Codec)
          → get_elem? bus.heap a ≡ o
          → shown codec (get_elem? (changed_at codec vectors bus a codec.truncate o).heap a)
            ≡ emptied (shown codec (get_elem? bus.heap a))
      by_codec none e = rw e refl
      by_codec (some nc) e = set-emptied bus.heap a nc e

  emptied_at_other :
      (bus : Bus codec vectors) (o p : Option ℕ)
      → KeptOrEmptied (entry_at codec bus.heap p) (entry_at codec (emptied_at bus o).heap p)
  emptied_at_other bus none p = inl refl
  emptied_at_other bus (some a) none = inl refl
  emptied_at_other bus (some a) (some b) = elim (Bool-cases (a == b)) [
    | inl e ↦
        let same : a ≡ b = ground (arith, e) in
        inr (
          subst
            (λ c.
              entry_at codec (emptied_at bus (some a)).heap (some c)
              ≡ emptied (entry_at codec bus.heap (some c)))
            same (emptied_at_self bus (some a)))
    | inr e ↦ inl (by_codec (get_elem? bus.heap a) (ground (arith, e)))
  ]
    where
      by_codec :
          (o : Option Codec)
          → a ≢ b
          → shown codec (get_elem? (changed_at codec vectors bus a codec.truncate o).heap b)
            ≡ shown codec (get_elem? bus.heap b)
      by_codec none n = refl
      by_codec (some nc) n = ap (shown codec) (get_elem?-set_ne bus.heap (codec.truncate nc) n)

  KeptOrEmptied-trans : (d e f : Entry) → KeptOrEmptied d e → KeptOrEmptied e f → KeptOrEmptied d f
  KeptOrEmptied-trans d e f (inl p) (inl q) = inl (q ∙ p)
  KeptOrEmptied-trans d e f (inl p) (inr q) = inr (q ∙ ap emptied p)
  KeptOrEmptied-trans d e f (inr p) (inl q) = inr (q ∙ p)
  KeptOrEmptied-trans d e f (inr p) (inr q) = inr (q ∙ ap emptied p ∙ emptied_twice d)

  emptied-KeptOrEmptied : (d e : Entry) → KeptOrEmptied d e → emptied e ≡ emptied d
  emptied-KeptOrEmptied d e (inl p) = ap emptied p
  emptied-KeptOrEmptied d e (inr p) = ap emptied p ∙ emptied_twice d

  all-other :
      (l : List NetworkSignal) (bus : Bus codec vectors) (p : Option ℕ)
      → KeptOrEmptied
          (entry_at codec bus.heap p)
          (entry_at codec (truncate_all codec vectors l bus).heap p)
  unfolding truncate_all
  all-other [] bus p = inl refl
  all-other (ns ∷ l) bus p =
      KeptOrEmptied-trans _ _ _ (emptied_at_other bus ns.nc p)
        (all-other l (emptied_at bus ns.nc) p)

  -- Each signal of the list is emptied.
  pub truncate_all-emptied :
      (l : List NetworkSignal) (bus : Bus codec vectors)
      → All
          (λ ns.
            entry_at codec (truncate_all codec vectors l bus).heap ns.nc
            ≡ emptied (entry_at codec bus.heap ns.nc))
          l
  unfolding truncate_all
  truncate_all-emptied [] bus = tt
  truncate_all-emptied (ns ∷ l) bus = (
    emptied-KeptOrEmptied' ns.nc,
    All-map _ _ l
        (λ y e.
          e
          ∙ emptied-KeptOrEmptied (entry_at codec bus.heap y.nc)
              (entry_at codec (emptied_at bus ns.nc).heap y.nc) (emptied_at_other bus ns.nc y.nc))
        (truncate_all-emptied l (emptied_at bus ns.nc)),
  )
    where
      emptied-KeptOrEmptied' :
          (o : Option ℕ)
          → entry_at codec (truncate_all codec vectors l (emptied_at bus o)).heap o
            ≡ emptied (entry_at codec bus.heap o)
      emptied-KeptOrEmptied' o = still (all-other l (emptied_at bus o) o) (emptied_at_self bus o)
        where
          still :
              KeptOrEmptied
                (entry_at codec (emptied_at bus o).heap o)
                (entry_at codec (truncate_all codec vectors l (emptied_at bus o)).heap o)
              → entry_at codec (emptied_at bus o).heap o ≡ emptied (entry_at codec bus.heap o)
              → entry_at codec (truncate_all codec vectors l (emptied_at bus o)).heap o
                ≡ emptied (entry_at codec bus.heap o)
          still (inl p) q = p ∙ q
          still (inr p) q = p ∙ ap emptied q ∙ emptied_twice (entry_at codec bus.heap o)
