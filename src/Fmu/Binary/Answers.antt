-- ===== src/Fmu/Binary/Answers.antt =====
-- fmi2GetString: what it returns, and what it leaves on the list of texts to free.
use dse_fmi.Common.{
  ℕ, ◌≤◌, ◌≡◌, refl, sym, ◌∙◌, ap, ap₂, subst, Bool-cases, inl, inr, Option, none, some, List, [],
  ◌∷◌, ◌++◌, map, length, get_elem?, take, codes, append-nil, append_assoc, Bytes, hashmap_get,
  ◌==◌, if◌then◌else◌, Returns, Returns-bind, Returns-map,
}
use dse_fmi.Fmu.Vref.{vref_key}
use dse_fmi.Fmu.Stream.{BinarySignal, bytes_of}
use dse_fmi.Fmu.Instance.{FmuInstanceData, BinaryVariable, TextCodec, LogMessage}
use dse_fmi.Fmu.Binary.{
  TextApi, log_binary_signal, encoded, get_string_data, get_string_at, get_string_loop, get_string,
}
use dse_fmi.Fmu.Binary.Rows.{IsLoggable, copy_bytes-fits}
use dse_fmi.Fmu.Binary.Takes.{OnlyLog, log_binary_signal-OnlyLog}

-- The texts among the results.
abbrev pub texts : List (Option Bytes) → List Bytes
texts [] = []
texts (none ∷ rs) = texts rs
texts (some t ∷ rs) = t ∷ texts rs

abbrev pub refill : FmuInstanceData → List LogMessage → List Bytes → FmuInstanceData
refill fmu messages list = record fmu { logged = messages; free_list = list }

-- Only the log and the list of texts to free change.
abbrev pub OnlyTexts : FmuInstanceData → FmuInstanceData → Type 0
OnlyTexts g after = after ≡ refill g after.logged after.free_list

-- Each transmitted variable lies in the vector, can be logged, and has an encoder.
abbrev pub IsReadable : FmuInstanceData → Type 0
IsReadable fmu =
    (key : Bytes) (p : ℕ)
    → hashmap_get fmu.binary_tx key ≡ some p
    → (v : BinaryVariable) × (c : TextCodec) × (get_elem? fmu.binaries p ≡ some v)
      × (hashmap_get fmu.encode_func key ≡ some c)
      × IsLoggable v.signal

module _ (api : TextApi) where
  abbrev coded : Option TextCodec → Bytes → Option Bytes
  coded none bytes = none
  coded (some c) bytes = some (api.encode c bytes)

  abbrev from_buffer : Option TextCodec → BinarySignal → Option Bytes → Option Bytes
  from_buffer c s none = none
  from_buffer c s (some buffer) = if s.length == 0 then none else coded c (take s.length buffer)

  abbrev from_variable : Option TextCodec → Option BinaryVariable → Option Bytes
  from_variable c none = none
  from_variable c (some v) = from_buffer c v.signal v.signal.binary

  abbrev at_index : FmuInstanceData → Bytes → Option ℕ → Option Bytes
  at_index fmu key none = none
  at_index fmu key (some p) =
      from_variable (hashmap_get fmu.encode_func key) (get_elem? fmu.binaries p)

  -- The encoded content of the variable that the reference leads to, unless it is empty.
  abbrev pub answer : FmuInstanceData → ℕ → Option Bytes
  answer fmu vr = at_index fmu (vref_key vr) (hashmap_get fmu.binary_tx (vref_key vr))

  record Answered (g : FmuInstanceData) (expected : Option Bytes)
      (r : FmuInstanceData × Option Bytes) : Type 0 where
    value : r.1 ≡ expected
    list : r.0.free_list ≡ g.free_list ++ texts (r.1 ∷ [])
    same : OnlyTexts g r.0

  nothing : (g : FmuInstanceData) → Answered g none (g, none)
  nothing g = record { value = refl; list = sym (append-nil g.free_list); same = refl }

  pushed :
      (g h : FmuInstanceData) (t : Bytes)
      → OnlyLog g h
      → Answered g (some t) (record h { free_list = h.free_list ++ t ∷ [] }, some t)
  unfolding OnlyLog
  pushed g h t e = record {
    value = refl;
    list = ap (λ x. x.free_list ++ t ∷ []) e;
    same = ap (λ x. refill x h.logged (h.free_list ++ t ∷ [])) e;
  }

  data-Answered :
      (g : FmuInstanceData) (key : Bytes) (s : BinarySignal) (o : Option Bytes) (c : TextCodec)
      → s.binary ≡ o
      → hashmap_get g.encode_func key ≡ some c
      → IsLoggable s
      → Returns (get_string_data api g key s o) (Answered g (from_buffer (some c) s o))
  unfolding get_string_data encoded
  data-Answered g key s none c b e h = nothing g
  data-Answered g key s (some buffer) c b e h = elim (Bool-cases (s.length == 0)) [
    | inl x ↦ rw x (nothing g)
    | inr x ↦
        let fits : s.length ≤ length buffer = subst (λ o. s.length ≤ length (bytes_of o)) b h.0 in
        rw (x, e, copy_bytes-fits s.length buffer fits)
          (Returns-bind (log_binary_signal api g (codes "GetString") s buffer) _ (OnlyLog g)
            (Answered g (some (api.encode c (take s.length buffer))))
            (subst
              (λ o.
                Returns (log_binary_signal api g (codes "GetString") s (bytes_of o)) (OnlyLog g))
              b (log_binary_signal-OnlyLog api g (codes "GetString") s h))
            (λ logged only. pushed g logged _ only))
  ]

  at-Answered :
      (g : FmuInstanceData) (key : Bytes) (o : Option ℕ)
      → hashmap_get g.binary_tx key ≡ o
      → IsReadable g
      → Returns (get_string_at api g key o) (Answered g (at_index g key o))
  unfolding get_string_at
  at-Answered g key none e h = nothing g
  at-Answered g key (some p) e h =
      let (v, c, there, coder, loggable) = h key p e in
      rw (there) (
        subst
          (λ d.
            Returns (get_string_data api g key v.signal v.signal.binary)
              (Answered g (from_buffer d v.signal v.signal.binary)))
          (sym coder) (data-Answered g key v.signal v.signal.binary c refl coder loggable))

  record AllAnswered (g : FmuInstanceData) (expected : List (Option Bytes))
      (r : FmuInstanceData × List (Option Bytes)) : Type 0 where
    values : r.1 ≡ expected
    list : r.0.free_list ≡ g.free_list ++ texts r.1
    same : OnlyTexts g r.0

  texts-cons :
      (o : Option Bytes) (rs : List (Option Bytes)) → texts (o ∷ rs) ≡ texts (o ∷ []) ++ texts rs
  texts-cons none rs = refl
  texts-cons (some t) rs = refl

  cons-AllAnswered :
      (g : FmuInstanceData) (o : Option Bytes) (os : List (Option Bytes))
      (r : FmuInstanceData × Option Bytes) (q : FmuInstanceData × List (Option Bytes))
      → Answered g o r
      → AllAnswered r.0 os q
      → AllAnswered g (o ∷ os) (q.0, r.1 ∷ q.1)
  cons-AllAnswered g o os r q a b = record {
    values = ap₂ (λ (x : Option Bytes) (xs : List (Option Bytes)). x ∷ xs) a.value b.values;
    list =
        b.list
        ∙ ap (λ l. l ++ texts q.1) a.list
        ∙ append_assoc g.free_list (texts (r.1 ∷ [])) (texts q.1)
        ∙ ap (λ l. g.free_list ++ l) (sym (texts-cons r.1 q.1));
    same = b.same ∙ ap (λ x. refill x q.0.logged q.0.free_list) a.same;
  }

  loop-AllAnswered :
      (vrs : List ℕ) (g : FmuInstanceData)
      → IsReadable g
      → Returns (get_string_loop api g vrs) (AllAnswered g (map (answer g) vrs))
  unfolding get_string_loop
  loop-AllAnswered [] g h = record {
    values = refl;
    list = sym (append-nil g.free_list);
    same = refl;
  }
  loop-AllAnswered (vr ∷ vrs) g h =
      let key = vref_key vr in
      Returns-bind (get_string_at api g key (hashmap_get g.binary_tx key)) _
        (Answered g (answer g vr)) (AllAnswered g (map (answer g) (vr ∷ vrs)))
        (at-Answered g key (hashmap_get g.binary_tx key) refl h)
        (λ r a.
          Returns-bind (get_string_loop api r.0 vrs) _ (AllAnswered r.0 (map (answer g) vrs))
            (AllAnswered g (map (answer g) (vr ∷ vrs)))
            (subst
              (λ x. Returns (get_string_loop api r.0 vrs) (AllAnswered r.0 (map (answer x) vrs)))
              a.same (loop-AllAnswered vrs r.0 (subst IsReadable (sym a.same) h)))
            (λ q b. cons-AllAnswered g (answer g vr) (map (answer g) vrs) r q a b))

  -- When each transmitted variable lies in the vector and has an encoder, its length lies in its
  -- buffer and is at most 2^32 - 16, fmi2GetString ends, reads nothing out of bounds, and returns for
  -- each value reference the encoded content of its variable, or NULL when there is no such variable
  -- or it is empty; the list of texts to free then has exactly the texts that this call returned, in
  -- order; and nothing but this list and the log changes.
  pub get_string-answers :
      (fmu : FmuInstanceData) (vrs : List ℕ)
      → IsReadable fmu
      → Returns
          (get_string api fmu vrs)
          (λ r. (r.1 ≡ map (answer fmu) vrs) × (r.0.free_list ≡ texts r.1) × OnlyTexts fmu r.0)
  unfolding get_string
  get_string-answers fmu vrs h =
      let cleared : FmuInstanceData = record fmu { free_list = [] } in
      Returns-map (get_string_loop api cleared vrs) _ _ (loop-AllAnswered vrs cleared h)
        (λ r a. (a.values, a.list, a.same))
