-- ===== src/Fmu/Fmi3/Sends.antt =====
-- fmi3GetBinary: what it returns, and what it leaves on the list of values to free.
use dse_fmi.Common.{
  ℕ, ◌+◌, ◌-◌, ◌/◌, ◌≤◌, ◌≡◌, refl, sym, ◌∙◌, ap, ap₂, subst, Bool-cases, inl, inr, Option, none,
  some, List, [], ◌∷◌, ◌++◌, map, length, get_elem?, take, codes, append-nil, append_assoc, Bytes,
  hashmap_get, ◌==◌, if_elim, if◌then◌else◌, Returns, Returns-bind, Returns-map, arith,
}
use dse_fmi.Fmu.Vref.{vref_key}
use dse_fmi.Fmu.Stream.{BinarySignal, bytes_of}
use dse_fmi.Fmu.Instance.{FmuInstanceData, BinaryVariable, TextCodec}
use dse_fmi.Fmu.Binary.{TextApi}
use dse_fmi.Fmu.Binary.Rows.{IsLoggable, copy_bytes-fits, row_loop-log_rows}
use dse_fmi.Fmu.Binary.Takes.{OnlyLog, OnlyLog-trans, log_rows-OnlyLog}
use dse_fmi.Fmu.Binary.Answers.{texts, refill, OnlyTexts}
use dse_fmi.Fmu.Fmi3.{
  fmi3_log, fmi3_log_row, fmi3_log_bytes, fmi3_log_binary_signal, fmi3_value, get_binary_data,
  get_binary_at, get_binary_loop, get_binary,
}

fmi3_log-OnlyLog :
    (g : FmuInstanceData) (status : ℕ) (category message : Bytes)
    → OnlyLog g (fmi3_log g status category message)
unfolding OnlyLog fmi3_log
fmi3_log-OnlyLog g status category message = if_elim (OnlyLog g) g.log_enabled _ _ refl refl

-- Each transmitted variable lies in the vector, and can be logged.
abbrev pub IsSendable : FmuInstanceData → Type 0
IsSendable fmu =
    (key : Bytes) (p : ℕ)
    → hashmap_get fmu.binary_tx key ≡ some p
    → (v : BinaryVariable) × (get_elem? fmu.binaries p ≡ some v) × IsLoggable v.signal

-- The values among the results.
abbrev pub returned : List (Option Bytes × ℕ) → List Bytes
returned rs = texts (map (λ r. r.0) rs)

module _ (api : TextApi) where
  signal-OnlyLog :
      (g : FmuInstanceData) (op : Bytes) (s : BinarySignal)
      → IsLoggable s
      → Returns (fmi3_log_binary_signal api g op s (bytes_of s.binary)) (OnlyLog g)
  unfolding fmi3_log_binary_signal fmi3_log_bytes
  signal-OnlyLog g op s h =
      rw
        (row_loop-log_rows (fmi3_log_row api) ((s.length - 1) / 16) (s.length + 1) 0 _ s.length
          (bytes_of s.binary) (omega arith) (omega arith) (omega arith) h.1 h.0)
        (OnlyLog-trans g _ _ (fmi3_log-OnlyLog g _ _ _) (
          log_rows-OnlyLog (fmi3_log_row api) (λ k row. fmi3_log-OnlyLog k _ _ _)
            ((s.length - 1) / 16) 0 _ (bytes_of s.binary)))

  abbrev coded : Option TextCodec → Bytes → Bytes
  coded none bytes = bytes
  coded (some c) bytes = api.encode c bytes

  abbrev from_buffer : Option TextCodec → ℕ → BinarySignal → Option Bytes → Option Bytes × ℕ
  from_buffer c old s none = (none, old)
  from_buffer c old s (some buffer) =
      if s.length == 0 then (none, old) else (some (coded c (take s.length buffer)), s.length)

  abbrev from_variable : Option TextCodec → ℕ → Option BinaryVariable → Option Bytes × ℕ
  from_variable c old none = (none, old)
  from_variable c old (some v) = from_buffer c old v.signal v.signal.binary

  abbrev at_index : FmuInstanceData → Bytes → ℕ → Option ℕ → Option Bytes × ℕ
  at_index fmu key old none = (none, old)
  at_index fmu key old (some p) =
      from_variable (hashmap_get fmu.encode_func key) old (get_elem? fmu.binaries p)

  -- The content of the variable that the reference leads to, encoded if it has an encoder, with its
  -- length before that; or NULL with the old size when there is no variable or it is empty.
  abbrev pub sent : FmuInstanceData → ℕ × ℕ → Option Bytes × ℕ
  sent fmu (vr, old) = at_index fmu (vref_key vr) old (hashmap_get fmu.binary_tx (vref_key vr))

  record Sent (g : FmuInstanceData) (expected : Option Bytes × ℕ)
      (r : FmuInstanceData × (Option Bytes × ℕ)) : Type 0 where
    value : r.1 ≡ expected
    list : r.0.free_list ≡ g.free_list ++ texts (r.1.0 ∷ [])
    same : OnlyTexts g r.0

  nothing : (g : FmuInstanceData) (old : ℕ) → Sent g (none, old) (g, (none, old))
  nothing g old = record { value = refl; list = sym (append-nil g.free_list); same = refl }

  pushed :
      (g h : FmuInstanceData) (t : Bytes) (n : ℕ)
      → OnlyLog g h
      → Sent g (some t, n) (record h { free_list = h.free_list ++ t ∷ [] }, (some t, n))
  unfolding OnlyLog
  pushed g h t n e = record {
    value = refl;
    list = ap (λ x. x.free_list ++ t ∷ []) e;
    same = ap (λ x. refill x h.logged (h.free_list ++ t ∷ [])) e;
  }

  value-coded :
      (c : Option TextCodec) (buffer : Bytes) (n : ℕ)
      → n ≤ length buffer
      → fmi3_value api c buffer n ≡ some (coded c (take n buffer))
  unfolding fmi3_value
  value-coded none buffer n h = copy_bytes-fits n buffer h
  value-coded (some c) buffer n h = rw (copy_bytes-fits n buffer h) refl

  data-Sent :
      (g : FmuInstanceData) (key : Bytes) (old : ℕ) (s : BinarySignal) (o : Option Bytes)
      → s.binary ≡ o
      → IsLoggable s
      → Returns
          (get_binary_data api g key old s o)
          (Sent g (from_buffer (hashmap_get g.encode_func key) old s o))
  unfolding get_binary_data
  data-Sent g key old s none b h = nothing g old
  data-Sent g key old s (some buffer) b h = elim (Bool-cases (s.length == 0)) [
    | inl x ↦ rw x (nothing g old)
    | inr x ↦
        let fits : s.length ≤ length buffer = subst (λ o. s.length ≤ length (bytes_of o)) b h.0 in
        rw (x, value-coded (hashmap_get g.encode_func key) buffer s.length fits)
          (Returns-bind (fmi3_log_binary_signal api g (codes "GetBinary") s buffer) _ (OnlyLog g)
            (Sent g (some (coded (hashmap_get g.encode_func key) (take s.length buffer)), s.length))
            (subst
              (λ o.
                Returns (fmi3_log_binary_signal api g (codes "GetBinary") s (bytes_of o))
                  (OnlyLog g))
              b (signal-OnlyLog g (codes "GetBinary") s h))
            (λ logged only. pushed g logged _ s.length only))
  ]

  at-Sent :
      (g : FmuInstanceData) (key : Bytes) (old : ℕ) (o : Option ℕ)
      → hashmap_get g.binary_tx key ≡ o
      → IsSendable g
      → Returns (get_binary_at api g key old o) (Sent g (at_index g key old o))
  unfolding get_binary_at
  at-Sent g key old none e h = nothing g old
  at-Sent g key old (some p) e h =
      let (v, there, loggable) = h key p e in
      rw there (data-Sent g key old v.signal v.signal.binary refl loggable)

  record AllSent (g : FmuInstanceData) (expected : List (Option Bytes × ℕ))
      (r : FmuInstanceData × List (Option Bytes × ℕ)) : Type 0 where
    values : r.1 ≡ expected
    list : r.0.free_list ≡ g.free_list ++ returned r.1
    same : OnlyTexts g r.0

  texts-first :
      (o : Option Bytes) (rs : List (Option Bytes)) → texts (o ∷ rs) ≡ texts (o ∷ []) ++ texts rs
  texts-first none rs = refl
  texts-first (some t) rs = refl

  cons-AllSent :
      (g : FmuInstanceData) (o : Option Bytes × ℕ) (os : List (Option Bytes × ℕ))
      (r : FmuInstanceData × (Option Bytes × ℕ)) (q : FmuInstanceData × List (Option Bytes × ℕ))
      → Sent g o r
      → AllSent r.0 os q
      → AllSent g (o ∷ os) (q.0, r.1 ∷ q.1)
  cons-AllSent g o os r q a b = record {
    values = ap₂ (λ (x : Option Bytes × ℕ) (xs : List (Option Bytes × ℕ)). x ∷ xs) a.value b.values;
    list =
        b.list
        ∙ ap (λ l. l ++ returned q.1) a.list
        ∙ append_assoc g.free_list (texts (r.1.0 ∷ [])) (returned q.1)
        ∙ ap (λ l. g.free_list ++ l) (sym (texts-first r.1.0 (map (λ x. x.0) q.1)));
    same = b.same ∙ ap (λ x. refill x q.0.logged q.0.free_list) a.same;
  }

  loop-AllSent :
      (vrs : List (ℕ × ℕ)) (g : FmuInstanceData)
      → IsSendable g
      → Returns (get_binary_loop api g vrs) (AllSent g (map (sent g) vrs))
  unfolding get_binary_loop
  loop-AllSent [] g h = record { values = refl; list = sym (append-nil g.free_list); same = refl }
  loop-AllSent ((vr, old) ∷ vrs) g h =
      let key = vref_key vr in
      Returns-bind (get_binary_at api g key old (hashmap_get g.binary_tx key)) _
        (Sent g (sent g (vr, old))) (AllSent g (map (sent g) ((vr, old) ∷ vrs)))
        (at-Sent g key old (hashmap_get g.binary_tx key) refl h)
        (λ r a.
          Returns-bind (get_binary_loop api r.0 vrs) _ (AllSent r.0 (map (sent g) vrs))
            (AllSent g (map (sent g) ((vr, old) ∷ vrs)))
            (subst (λ x. Returns (get_binary_loop api r.0 vrs) (AllSent r.0 (map (sent x) vrs)))
              a.same (loop-AllSent vrs r.0 (subst IsSendable (sym a.same) h)))
            (λ q b. cons-AllSent g (sent g (vr, old)) (map (sent g) vrs) r q a b))

  -- When each transmitted variable lies in the vector, its length lies in its buffer and is at most
  -- 2^32 - 16, fmi3GetBinary ends, reads nothing out of bounds, and returns for each value reference
  -- the content of its variable, encoded if it has an encoder, with the length of the content before
  -- that as its size; or NULL with the size untouched when there is no such variable or it is empty.
  -- The list of values to free then has exactly the values that this call returned, in order; and
  -- nothing but this list and the log changes.
  pub get_binary-sent :
      (fmu : FmuInstanceData) (vrs : List (ℕ × ℕ))
      → IsSendable fmu
      → Returns
          (get_binary api fmu vrs)
          (λ r. (r.1 ≡ map (sent fmu) vrs) × (r.0.free_list ≡ returned r.1) × OnlyTexts fmu r.0)
  unfolding get_binary
  get_binary-sent fmu vrs h =
      let cleared : FmuInstanceData = record fmu { free_list = [] } in
      Returns-map (get_binary_loop api cleared vrs) _ _ (loop-AllSent vrs cleared h)
        (λ r a. (a.values, a.list, a.same))
