-- ===== src/Fmu/Fmi3/Receives.antt =====
-- fmi3SetBinary: what a whole call brings to the binary variables.
use dse_fmi.Common.{
  ℕ, ◌+◌, ◌<◌, ◌≤◌, ◌≡◌, ◌==◌, ==_iff, arith, refl, sym, ◌∙◌, ap, subst, Bool, true, false, Option,
  none, some, List, [], ◌∷◌, ◌++◌, map, length, get_elem?, All, All-get_elem?, Bytes, hashmap_get,
  if◌then◌else◌, Returns, Returns-bind, Returns-map,
}
use dse_fmi.Fmu.Vref.{vref_key}
use dse_fmi.Fmu.Instance.{FmuInstanceData, BinaryVariable}
use dse_fmi.Fmu.Binary.{TextApi, decoded, reset_one, signals_reset}
use dse_fmi.Fmu.Binary.Takes.{
  held, extend, IsSound, InVector, to_index, size_of, HasRoom, received, Takes, Takes-refl,
  Takes-trans, appended-Takes, room_at, HasRoom-first, HasRoom-rest,
}
use dse_fmi.Fmu.Binary.Append.{kept, if-IsReset, IsReset-room}
use dse_fmi.Fmu.Fmi3.{set_binary_at, set_binary_loop, set_binary}

-- The greatest length, in a uint32_t.
abbrev pub length_limit : ℕ
length_limit = 4294967295

abbrev rebinary : FmuInstanceData → List BinaryVariable → FmuInstanceData
rebinary g binaries = record g { binaries = binaries }

abbrev OnlyBinaries : FmuInstanceData → FmuInstanceData → Type 0
OnlyBinaries g after = after ≡ rebinary g after.binaries

module _ (api : TextApi) where
  record Appends (g : FmuInstanceData) (d : ℕ → Bytes) (after : FmuInstanceData) : Type 0 where
    takes : Takes api g after d
    only : OnlyBinaries g after

  Appends-trans :
      (g h k : FmuInstanceData) (a b : ℕ → Bytes)
      → Appends g a h
      → Appends h b k
      → Appends g (λ p. a p ++ b p) k
  Appends-trans g h k a b s t = record {
    takes = Takes-trans api g h k a b s.takes t.takes;
    only = t.only ∙ ap (λ x. rebinary x k.binaries) s.only;
  }

  set_binary_at-Appends :
      (g : FmuInstanceData) (key value : Bytes) (o : Option ℕ)
      → All IsSound g.binaries
      → ((q : ℕ) → o ≡ some q → q < length g.binaries)
      → HasRoom length_limit g
          (λ p. to_index o p (decoded api (hashmap_get g.decode_func key) value))
      → Returns
          (set_binary_at api g key value o)
          (Appends g (λ p. to_index o p (decoded api (hashmap_get g.decode_func key) value)))
  unfolding set_binary_at
  set_binary_at-Appends g key value none h l room = record {
    takes = Takes-refl api g h;
    only = refl;
  }
  set_binary_at-Appends g key value (some q) h l room =
      let (v, e, hv) = All-get_elem? IsSound g.binaries q h (l q refl) in
      let bytes = decoded api (hashmap_get g.decode_func key) value in
      let fits = room_at api length_limit g q v (λ p. if q == p then bytes else []) room e hv in
      let short : v.signal.length + length bytes ≤ length_limit =
        rw ((==_iff q q).1 refl) at fits in
      rw e (record {
        takes = appended-Takes api g q v bytes h (l q refl) e hv (omega (arith, short));
        only = refl;
      })

  set_binary_loop-Appends :
      (values : List (ℕ × Option Bytes)) (g : FmuInstanceData)
      → All IsSound g.binaries
      → InVector g.binary_rx (length g.binaries)
      → HasRoom length_limit g (λ p. received api g.binary_rx g.decode_func p values)
      → Returns
          (set_binary_loop api g values)
          (Appends g (λ p. received api g.binary_rx g.decode_func p values))
  unfolding set_binary_loop
  set_binary_loop-Appends [] g h n room = record { takes = Takes-refl api g h; only = refl }
  set_binary_loop-Appends ((vr, none) ∷ values) g h n room =
      set_binary_loop-Appends values g h n room
  set_binary_loop-Appends ((vr, some value) ∷ values) g h n room =
      let key = vref_key vr in
      let a : ℕ → Bytes = λ p.
        to_index (hashmap_get g.binary_rx key) p
          (decoded api (hashmap_get g.decode_func key) value) in
      let rest : ℕ → Bytes = λ p. received api g.binary_rx g.decode_func p values in
      Returns-bind (set_binary_at api g key value (hashmap_get g.binary_rx key))
        (λ next. set_binary_loop api next values) (Appends g a)
        (Appends g (λ p. a p ++ received api g.binary_rx g.decode_func p values))
        (set_binary_at-Appends g key value (hashmap_get g.binary_rx key) h (λ q e. n key q e)
          (HasRoom-first api length_limit g a rest room))
        (λ next t.
          Returns-map (set_binary_loop api next values) _ _
            (set_binary_loop-Appends values next t.takes.sound (rw (t.takes.rx, t.takes.size) n) (
              rw (t.takes.rx, t.takes.df)
                (HasRoom-rest api length_limit g next a rest t.takes room)))
            (λ after u. Appends-trans g next after a _ t (
              subst (λ rx. Appends next (λ p. received api rx g.decode_func p values) after)
                t.takes.rx
                (subst (λ df. Appends next (λ p. received api next.binary_rx df p values) after)
                  t.takes.df u))))

  -- When the indexes of the received variables lie in the vector of binary variables, each variable's
  -- length lies in its buffer, and no variable comes to 2^32 bytes or more by this call, fmi3SetBinary
  -- ends and reads nothing out of bounds. Afterwards each variable holds what it held before, or
  -- nothing if the variables were not yet reset in this step, followed by the decoded values of the
  -- value references that lead to it, in the order of the call; each length lies in its buffer again;
  -- and nothing else changes but that the variables count as reset.
  pub set_binary-received :
      (fmu : FmuInstanceData) (values : List (ℕ × Option Bytes))
      → All IsSound fmu.binaries
      → InVector fmu.binary_rx (length fmu.binaries)
      → ((p : ℕ)
          → size_of (
              extend
                (kept api fmu.signals_reset (get_elem? fmu.binaries p))
                (received api fmu.binary_rx fmu.decode_func p values))
            ≤ length_limit)
      → Returns (set_binary api fmu values) (λ after.
        ((p : ℕ)
          → held (get_elem? after.binaries p)
            ≡ extend
                (kept api fmu.signals_reset (get_elem? fmu.binaries p))
                (received api fmu.binary_rx fmu.decode_func p values))
        × All IsSound after.binaries
        × (after ≡ record fmu { binaries = after.binaries; signals_reset = true }))
  unfolding set_binary signals_reset
  set_binary-received fmu values h n room = from fmu.signals_reset refl room
    where
      from :
          (b : Bool)
          → fmu.signals_reset ≡ b
          → ((p : ℕ)
              → size_of (
                  extend
                    (kept api b (get_elem? fmu.binaries p))
                    (received api fmu.binary_rx fmu.decode_func p values))
                ≤ length_limit)
          → Returns
              (set_binary_loop api
                (if b then fmu else record fmu {
                  binaries = map (reset_one api) fmu.binaries;
                  signals_reset = true;
                })
                values)
              (λ after.
                ((p : ℕ)
                  → held (get_elem? after.binaries p)
                    ≡ extend
                        (kept api b (get_elem? fmu.binaries p))
                        (received api fmu.binary_rx fmu.decode_func p values))
                × All IsSound after.binaries
                × (after ≡ record fmu { binaries = after.binaries; signals_reset = true }))
      from true e fits =
          let r = if-IsReset api fmu true e h in
          Returns-map (set_binary_loop api fmu values) _ _
            (set_binary_loop-Appends values fmu h n
              (IsReset-room api length_limit fmu fmu true values r fits))
            (λ after t. (
              λ p.
                  t.takes.contents p
                  ∙ ap (λ o. extend o (received api fmu.binary_rx fmu.decode_func p values))
                      (r.contents p),
              t.takes.sound,
              t.only
                  ∙ ap (λ (c : Bool). record fmu { binaries = after.binaries; signals_reset = c })
                      e,
            ))
      from false e fits =
          let g : FmuInstanceData = record fmu {
            binaries = map (reset_one api) fmu.binaries;
            signals_reset = true;
          } in
          let r = if-IsReset api fmu false e h in
          Returns-map (set_binary_loop api g values) _ _
            (set_binary_loop-Appends values g r.sound
              (λ key q k. subst (λ l. q < l) (sym r.size) (n key q k))
              (IsReset-room api length_limit fmu g false values r fits))
            (λ after t. (
              λ p.
                  t.takes.contents p
                  ∙ ap (λ o. extend o (received api fmu.binary_rx fmu.decode_func p values))
                      (r.contents p),
              t.takes.sound,
              t.only,
            ))
