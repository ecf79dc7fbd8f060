-- ===== src/Fmu/Binary/Takes.antt =====
-- The loop of fmi2SetString: what one text, and all of them, add to the binary variables.
use dse_fmi.Common.{
  ℕ, zero, suc, ◌+◌, ◌-◌, ◌/◌, ◌^◌, ◌<◌, ◌≤◌, ◌≡◌, ◌≢◌, refl, sym, ◌∙◌, ap, subst, false,
  Bool-cases, inl, inr, Option, none, some, List, [], ◌∷◌, ◌++◌, length, get_elem?, set, All,
  All-set, All-get_elem?, append-nil, append_assoc, get_elem?-set_self, get_elem?-set_ne,
  length-set, length-append, length-take, Bytes, codes, HashMap, hashmap_get, ◌==◌, ==_iff, if_elim,
  if◌then◌else◌, Returns, Returns-bind, Returns-map, arith,
}
use dse_fmi.Fmu.Vref.{vref_key}
use dse_fmi.Fmu.Stream.{BinarySignal, bytes_of, IsBuffer, content}
use dse_fmi.Fmu.Instance.{FmuInstanceData, LogMessage, BinaryVariable, TextCodec, fmu_log}
use dse_fmi.Fmu.Binary.{
  TextApi, log_row, log_binary_signal, decoded, append_to, set_string_at, set_string_loop,
}
use dse_fmi.Fmu.Binary.Rows.{log_limit, IsLoggable, log_rows, log_bytes-rows}

-- What the variable holds, if there is one.
abbrev pub held : Option BinaryVariable → Option Bytes
held none = none
held (some v) = some (content v.signal)

abbrev pub extend : Option Bytes → Bytes → Option Bytes
extend none d = none
extend (some b) d = some (b ++ d)

abbrev pub IsSound : BinaryVariable → Type 0
IsSound v = IsBuffer v.signal

-- The indexes of the received variables lie in the vector.
abbrev pub InVector : HashMap ℕ → ℕ → Type 0
InVector rx n = (key : Bytes) (q : ℕ) → hashmap_get rx key ≡ some q → q < n

abbrev pub to_index : Option ℕ → ℕ → Bytes → Bytes
to_index none p d = []
to_index (some q) p d = if q == p then d else []

abbrev relog : FmuInstanceData → List LogMessage → FmuInstanceData
relog g messages = record g { logged = messages }

-- Only the log changes.
unfoldable pub OnlyLog : FmuInstanceData → FmuInstanceData → Type 0
OnlyLog g after = after ≡ record g { logged = after.logged }

pub fmu_log-OnlyLog :
    (g : FmuInstanceData) (status : ℕ) (category message : Bytes)
    → OnlyLog g (fmu_log g status category message)
unfolding OnlyLog fmu_log
fmu_log-OnlyLog g status category message = if_elim (OnlyLog g) _ _ _ refl refl

pub OnlyLog-trans : (g h k : FmuInstanceData) → OnlyLog g h → OnlyLog h k → OnlyLog g k
unfolding OnlyLog
OnlyLog-trans g h k e f = f ∙ ap (λ x. relog x k.logged) e

-- The bytes of a variable, if there is one.
abbrev pub size_of : Option Bytes → ℕ
size_of none = 0
size_of (some b) = length b

-- With what `d` adds, no variable is longer than the limit.
abbrev pub HasRoom : ℕ → FmuInstanceData → (ℕ → Bytes) → Type 0
HasRoom limit g d = (p : ℕ) → size_of (extend (held (get_elem? g.binaries p)) (d p)) ≤ limit

pub log_rows-OnlyLog :
    (log : FmuInstanceData → Bytes → FmuInstanceData)
    → ((g : FmuInstanceData) (row : Bytes) → OnlyLog g (log g row))
    → (n j : ℕ) (g : FmuInstanceData) (buffer : Bytes) → OnlyLog g (log_rows log n j g buffer)
log_rows-OnlyLog log h zero j g buffer = unfold OnlyLog in refl
log_rows-OnlyLog log h (suc n) j g buffer =
    OnlyLog-trans g _ _ (h g _) (log_rows-OnlyLog log h n (j + 16) _ buffer)

size_of-first :
    (o : Option Bytes) (a b : Bytes) → size_of (extend o a) ≤ size_of (extend o (a ++ b))
size_of-first none a b = omega arith
size_of-first (some c) a b =
    omega (arith, length-append c a, length-append c (a ++ b), length-append a b)

module _ (api : TextApi) where
  -- The log of a variable that can be logged ends, and changes only the log.
  pub log_binary_signal-OnlyLog :
      (g : FmuInstanceData) (op : Bytes) (s : BinarySignal)
      → IsLoggable s
      → Returns (log_binary_signal api g op s (bytes_of s.binary)) (OnlyLog g)
  unfolding log_binary_signal
  log_binary_signal-OnlyLog g op s h =
      rw (log_bytes-rows api (s.length + 1) _ s.length (bytes_of s.binary) h.1 h.0 (omega arith)) (
        OnlyLog-trans g _ _ (fmu_log-OnlyLog g _ _ _) (
          log_rows-OnlyLog (log_row api) (λ k row. fmu_log-OnlyLog k _ _ _) ((s.length - 1) / 16) 0
            _ (bytes_of s.binary)))

  -- What the texts bring to the variable at `p`.
  abbrev pub received : HashMap ℕ → HashMap TextCodec → ℕ → List (ℕ × Option Bytes) → Bytes
  received rx df p [] = []
  received rx df p ((vr, none) ∷ values) = received rx df p values
  received rx df p ((vr, some text) ∷ values) =
      to_index (hashmap_get rx (vref_key vr)) p (decoded api (hashmap_get df (vref_key vr)) text)
      ++ received rx df p values

  -- Every variable is extended by what `d` gives for its index.
  pub record Takes (g after : FmuInstanceData) (d : ℕ → Bytes) : Type 0 where
    pub contents :
        (p : ℕ) → held (get_elem? after.binaries p) ≡ extend (held (get_elem? g.binaries p)) (d p)
    pub sound : All IsSound after.binaries
    pub size : length after.binaries ≡ length g.binaries
    pub rx : after.binary_rx ≡ g.binary_rx
    pub df : after.decode_func ≡ g.decode_func
    pub reset : after.signals_reset ≡ g.signals_reset

  pub extend-nil : (o : Option Bytes) → o ≡ extend o []
  extend-nil none = refl
  extend-nil (some b) = ap (λ (l : Bytes). some l) (sym (append-nil b))

  extend-extend : (o : Option Bytes) (a b : Bytes) → extend (extend o a) b ≡ extend o (a ++ b)
  extend-extend none a b = refl
  extend-extend (some c) a b = ap (λ (l : Bytes). some l) (append_assoc c a b)

  pub Takes-refl : (g : FmuInstanceData) → All IsSound g.binaries → Takes g g (λ p. [])
  Takes-refl g h = record {
    contents = λ p. extend-nil (held (get_elem? g.binaries p));
    sound = h;
    size = refl;
    rx = refl;
    df = refl;
    reset = refl;
  }

  pub Takes-trans :
      (g h k : FmuInstanceData) (a b : ℕ → Bytes)
      → Takes g h a
      → Takes h k b
      → Takes g k (λ p. a p ++ b p)
  Takes-trans g h k a b t u = record {
    contents = λ p.
        u.contents p
        ∙ ap (λ o. extend o (b p)) (t.contents p)
        ∙ extend-extend (held (get_elem? g.binaries p)) (a p) (b p);
    sound = u.sound;
    size = u.size ∙ t.size;
    rx = u.rx ∙ t.rx;
    df = u.df ∙ t.df;
    reset = u.reset ∙ t.reset;
  }

  differ : (q p : ℕ) → (q == p) ≡ false → q ≢ p
  differ q p t = ground (arith, t)

  -- The variable at `q` with the bytes appended.
  abbrev pub appended : FmuInstanceData → ℕ → BinaryVariable → Bytes → FmuInstanceData
  appended g q v bytes = record g {
    binaries = set g.binaries q (record v { signal = api.buffer.buffer_append v.signal bytes });
  }

  pub appended-Takes :
      (g : FmuInstanceData) (q : ℕ) (v : BinaryVariable) (bytes : Bytes)
      → All IsSound g.binaries
      → q < length g.binaries
      → get_elem? g.binaries q ≡ some v
      → IsSound v
      → v.signal.length + length bytes < 2 ^ 32
      → Takes g (appended g q v bytes) (λ p. if q == p then bytes else [])
  appended-Takes g q v bytes h l e hv hr =
      let w : BinaryVariable = record v { signal = api.buffer.buffer_append v.signal bytes } in
      let after : FmuInstanceData = appended g q v bytes in
      record {
        contents = λ p. elim (Bool-cases (q == p)) [
          | inl t ↦
              subst
                (λ r.
                  held (get_elem? after.binaries r)
                  ≡ extend (held (get_elem? g.binaries r)) (if q == p then bytes else []))
                ((==_iff q p).0 t)
                (rw (t, e, get_elem?-set_self g.binaries q w l)
                  (ap (λ (b : Bytes). some b) (api.buffer.append_content v.signal bytes (hv, hr))))
          | inr t ↦
              rw (t, get_elem?-set_ne g.binaries w (differ q p t))
                (extend-nil (held (get_elem? g.binaries p)))
        ];
        sound =
            All-set IsSound g.binaries q w h (api.buffer.append_IsBuffer v.signal bytes (hv, hr));
        size = length-set g.binaries q w;
        rx = refl;
        df = refl;
        reset = refl;
      }

  relog-Takes :
      (g after : FmuInstanceData) (d : ℕ → Bytes) (messages : List LogMessage)
      → Takes g after d
      → Takes g (relog after messages) d
  relog-Takes g after d messages t = record {
    contents = t.contents;
    sound = t.sound;
    size = t.size;
    rx = t.rx;
    df = t.df;
    reset = t.reset;
  }

  -- Where there is room, the length with what is appended is within the limit.
  pub room_at :
      (limit : ℕ) (g : FmuInstanceData) (q : ℕ) (v : BinaryVariable) (d : ℕ → Bytes)
      → HasRoom limit g d
      → get_elem? g.binaries q ≡ some v
      → IsSound v
      → v.signal.length + length (d q) ≤ limit
  room_at limit g q v d r e hv =
      let here : size_of (extend (held (some v)) (d q)) ≤ limit =
        subst (λ o. size_of (extend (held o) (d q)) ≤ limit) e (r q) in
      omega (
        arith,
        here,
        hv,
        length-append (content v.signal) (d q),
        length-take v.signal.length (bytes_of v.signal.binary),
      )

  pub HasRoom-first :
      (limit : ℕ) (g : FmuInstanceData) (a b : ℕ → Bytes)
      → HasRoom limit g (λ p. a p ++ b p)
      → HasRoom limit g a
  HasRoom-first limit g a b r p =
      omega (arith, r p, size_of-first (held (get_elem? g.binaries p)) (a p) (b p))

  pub HasRoom-rest :
      (limit : ℕ) (g h : FmuInstanceData) (a b : ℕ → Bytes)
      → Takes g h a
      → HasRoom limit g (λ p. a p ++ b p)
      → HasRoom limit h b
  HasRoom-rest limit g h a b t r p =
      subst (λ o. size_of o ≤ limit)
        (sym (extend-extend (held (get_elem? g.binaries p)) (a p) (b p))
          ∙ ap (λ o. extend o (b p)) (sym (t.contents p)))
        (r p)

  -- A write of the variable at `q`, with its log.
  write-Takes :
      (g : FmuInstanceData) (q : ℕ) (v : BinaryVariable) (bytes : Bytes)
      → All IsSound g.binaries
      → q < length g.binaries
      → get_elem? g.binaries q ≡ some v
      → IsSound v
      → v.signal.length + length bytes ≤ log_limit
      → Returns
          (append_to api g q v bytes)
          (λ after. Takes g after (λ p. if q == p then bytes else []))
  unfolding append_to
  write-Takes g q v bytes h l e hv hr =
      let s : BinarySignal = api.buffer.buffer_append v.signal bytes in
      let fits : v.signal.length + length bytes < 2 ^ 32 = omega (arith, hr) in
      Returns-map
        (log_binary_signal api (appended g q v bytes) (codes "SetString") s (bytes_of s.binary))
        (OnlyLog (appended g q v bytes)) _
        (log_binary_signal-OnlyLog (appended g q v bytes) (codes "SetString") s (
          api.buffer.append_IsBuffer v.signal bytes (hv, fits),
          omega (arith, hr, api.buffer.append_length v.signal bytes (hv, fits)),
        ))
        (λ after only.
          unfold OnlyLog in
          subst (λ f. Takes g f (λ p. if q == p then bytes else [])) (sym only)
            (relog-Takes g (appended g q v bytes) _ after.logged
              (appended-Takes g q v bytes h l e hv fits)))

  set_string_at-Takes :
      (g : FmuInstanceData) (key text : Bytes) (o : Option ℕ)
      → All IsSound g.binaries
      → ((q : ℕ) → o ≡ some q → q < length g.binaries)
      → HasRoom log_limit g (λ p. to_index o p (decoded api (hashmap_get g.decode_func key) text))
      → Returns (set_string_at api g key text o) (λ after.
        Takes g after (λ p. to_index o p (decoded api (hashmap_get g.decode_func key) text)))
  unfolding set_string_at
  set_string_at-Takes g key text none h l r = record {
    contents = λ p. extend-nil (held (get_elem? g.binaries p));
    sound = h;
    size = refl;
    rx = refl;
    df = refl;
    reset = refl;
  }
  set_string_at-Takes g key text (some q) h l r =
      let (v, e, hv) = All-get_elem? IsSound g.binaries q h (l q refl) in
      let bytes : Bytes = decoded api (hashmap_get g.decode_func key) text in
      let room = room_at log_limit g q v (λ p. if q == p then bytes else []) r e hv in
      rw e (write-Takes g q v bytes h (l q refl) e hv (rw ((==_iff q q).1 refl) at room))

  pub set_string_loop-Takes :
      (values : List (ℕ × Option Bytes)) (g : FmuInstanceData)
      → All IsSound g.binaries
      → InVector g.binary_rx (length g.binaries)
      → HasRoom log_limit g (λ p. received g.binary_rx g.decode_func p values)
      → Returns
          (set_string_loop api g values)
          (λ after. Takes g after (λ p. received g.binary_rx g.decode_func p values))
  unfolding set_string_loop
  set_string_loop-Takes [] g h n room = Takes-refl g h
  set_string_loop-Takes ((vr, none) ∷ values) g h n room = set_string_loop-Takes values g h n room
  set_string_loop-Takes ((vr, some text) ∷ values) g h n room =
      let key = vref_key vr in
      let a : ℕ → Bytes = λ p.
        to_index (hashmap_get g.binary_rx key) p
          (decoded api (hashmap_get g.decode_func key) text) in
      let rest : ℕ → Bytes = λ p. received g.binary_rx g.decode_func p values in
      Returns-bind (set_string_at api g key text (hashmap_get g.binary_rx key))
        (λ next. set_string_loop api next values) (λ next. Takes g next a)
        (λ after. Takes g after (λ p. a p ++ rest p))
        (set_string_at-Takes g key text (hashmap_get g.binary_rx key) h (λ q e. n key q e)
          (HasRoom-first log_limit g a rest room))
        (λ next t.
          Returns-map (set_string_loop api next values) _ _
            (set_string_loop-Takes values next t.sound (rw (t.rx, t.size) n)
              (rw (t.rx, t.df) (HasRoom-rest log_limit g next a rest t room)))
            (λ after u. Takes-trans g next after a _ t (
              subst (λ rx. Takes next after (λ p. received rx g.decode_func p values)) t.rx
                (subst (λ df. Takes next after (λ p. received next.binary_rx df p values)) t.df
                  u))))
