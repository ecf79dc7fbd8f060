-- ===== src/Fmu/Trace/Filter.antt =====
-- Which messages a configured trace logs.
use dse_fmi.Common.{
  ℕ, ◌%◌, ◌^◌, ◌<◌, ◌≡◌, refl, sym, ◌∙◌, ap, subst, Bool, true, false, ◌&&◌, ◌||◌, Bool-cases, inl,
  inr, Option, none, some, List, [], ◌∷◌, ◌++◌, foldl, length, take, Bytes, codes, str_eq,
  str_eq_iff, HashMap, hashmap_get, hashmap_set, hashmap_get-set, ltb, ◌==◌, ==_iff, if◌then◌else◌,
  Returns, Returns-bind, if_elim, arith,
}
use dse_fmi.Fmu.Instance.{FmuInstanceData, LogMessage, fmu_log, log_ok, log_passes}
use dse_fmi.Fmu.Vref.{decimal, take-decimal, decimal_injective}
use dse_fmi.Fmu.Trace.{
  TraceApi, TraceData, TraceKind, NCodecInstance, CanMessage, Direction, is_logged, tokens, log,
  set_identifier, can_identified, can_text, can_log_with, trace_can_log,
}
use dse_fmi.Fmu.Trace.Dump.{dump, dump_bounds}
use dse_fmi.Fmu.Trace.Configure.{
  trace_kind, env_name, add_id, filter_data, install, configure_kind, trace_configure,
}

-- The identifier of a message is a uint32_t, and its length fits in one.
abbrev pub FitsUint32 : CanMessage → Type 0
FitsUint32 msg = (msg.frame_id < 2 ^ 32) × (length msg.buffer < 2 ^ 32)

abbrev present : Option Bool → Bool
present none = false
present (some b) = true

same_bool : (a b : Bool) → (a ≡ true → b ≡ true) → (b ≡ true → a ≡ true) → a ≡ b
same_bool true b f g = sym (f refl)
same_bool false true f g = g refl
same_bool false false f g = refl

str_eq-decimal :
    (m n : ℕ)
    → m < 2 ^ 32
    → n < 2 ^ 32
    → str_eq (take 19 (decimal m)) (take 19 (decimal n)) ≡ (m == n)
str_eq-decimal m n h k =
    rw (take-decimal 19 m (omega arith), take-decimal 19 n (omega arith))
      (same_bool (str_eq (decimal m) (decimal n)) (m == n)
        (λ e. (==_iff m n).1 (decimal_injective m n h k ((str_eq_iff (decimal m) (decimal n)).0 e)))
        (λ e. (str_eq_iff (decimal m) (decimal n)).1 (ap decimal ((==_iff m n).0 e))))

or_false : (b : Bool) → b ≡ (b || false)
or_false true = refl
or_false false = refl

or_assoc : (a b c : Bool) → ((a || b) || c) ≡ (a || (b || c))
or_assoc true b c = refl
or_assoc false b c = refl

-- One more key in the map.
present-set :
    (m : HashMap Bool) (k j : Bytes) (b : Bool)
    → str_eq k j ≡ b
    → present (hashmap_get (hashmap_set m k true) j) ≡ (present (hashmap_get m j) || b)
present-set m k j true e =
    ap present (hashmap_get-set m k j true) ∙ rw e (or_true (present (hashmap_get m j)))
  where
    or_true : (c : Bool) → true ≡ (c || true)
    or_true true = refl
    or_true false = refl
present-set m k j false e =
    ap present (hashmap_get-set m k j true) ∙ rw e (or_false (present (hashmap_get m j)))

abbrev pub lined : FmuInstanceData → Bool → LogMessage → FmuInstanceData
lined fmu b m = if b then record fmu { logged = fmu.logged ++ m ∷ [] } else fmu

module _ (api : TraceApi) where
  -- The number of a token is positive and, as a uint32, the identifier.
  abbrev pub names_id : ℕ → Bytes → Bool
  names_id id token = ltb 0 (api.strtol token) && (api.strtol token % 2 ^ 32 == id)

  abbrev pub among : ℕ → List Bytes → Bool
  among id [] = false
  among id (token ∷ rest) = names_id id token || among id rest

  -- The filter is "*", or one of its numbers is the identifier.
  abbrev pub wanted : Bytes → ℕ → Bool
  wanted filter id = str_eq filter (codes "*") || among id (tokens filter)

  add_id-present :
      (token : Bytes) (m : HashMap Bool) (id : ℕ)
      → id < 2 ^ 32
      → present (hashmap_get (add_id api m token) (take 19 (decimal id)))
        ≡ (present (hashmap_get m (take 19 (decimal id))) || names_id id token)
  unfolding add_id
  add_id-present token m id h = elim (Bool-cases (ltb 0 (api.strtol token))) [
    | inl e ↦ rw e (
        present-set m (take 19 (decimal (api.strtol token % 2 ^ 32))) (take 19 (decimal id))
          (api.strtol token % 2 ^ 32 == id)
          (str_eq-decimal (api.strtol token % 2 ^ 32) id (omega arith) h))
    | inr e ↦ rw e (or_false (present (hashmap_get m (take 19 (decimal id)))))
  ]

  foldl-add_id :
      (l : List Bytes) (m : HashMap Bool) (id : ℕ)
      → id < 2 ^ 32
      → present (hashmap_get (foldl (add_id api) m l) (take 19 (decimal id)))
        ≡ (present (hashmap_get m (take 19 (decimal id))) || among id l)
  foldl-add_id [] m id h = or_false (present (hashmap_get m (take 19 (decimal id))))
  foldl-add_id (token ∷ rest) m id h =
      foldl-add_id rest (add_id api m token) id h
      ∙ ap (λ b. b || among id rest) (add_id-present token m id h)
      ∙ or_assoc (present (hashmap_get m (take 19 (decimal id)))) (names_id id token)
          (among id rest)

  is_logged-filter_data :
      (fmu : FmuInstanceData) (filter : Bytes) (id : ℕ)
      → id < 2 ^ 32
      → is_logged (filter_data api fmu filter) id ≡ wanted filter id
  unfolding filter_data is_logged hashmap_get
  is_logged-filter_data fmu filter id h = elim (Bool-cases (str_eq filter (codes "*"))) [
    | inl e ↦ rw e refl
    | inr e ↦ rw e (
        as_present (hashmap_get (foldl (add_id api) [] (tokens filter)) (take 19 (decimal id)))
        ∙ foldl-add_id (tokens filter) [] id h)
  ]
    where
      as_present :
          (o : Option Bool) → (elim o as (λ x. Bool) [ none ↦ false | some b ↦ true ]) ≡ present o
      as_present none = refl
      as_present (some b) = refl

  -- One line in the log of the FMU, if its category passes.
  abbrev pub with_line : FmuInstanceData → Bool → LogMessage → FmuInstanceData
  with_line fmu b m = lined fmu (b && log_passes fmu (some (codes "Debug"))) m

  -- The trace that a codec has, and the identifiers that it lets pass.
  abbrev pub Logs : NCodecInstance → TraceKind → (ℕ → Bool) → Type 0
  Logs nc kind passes =
      (td : TraceData) × (nc.trace ≡ some kind)
      × (nc.trace_data ≡ some td)
      × ((id : ℕ) → id < 2 ^ 32 → is_logged td id ≡ passes id)

  configure_kind-Logs :
      (env : HashMap Bytes) (nc : NCodecInstance) (fmu : FmuInstanceData) (kind : TraceKind)
      (filter : Bytes)
      → hashmap_get env (env_name api nc kind) ≡ some filter
      → Logs (configure_kind api env nc fmu (some kind)).0 kind (wanted filter)
  unfolding configure_kind install
  configure_kind-Logs env nc fmu kind filter e =
      rw e (filter_data api fmu filter, refl, refl, λ id h. is_logged-filter_data fmu filter id h)

  pub trace_configure-Logs :
      (env : HashMap Bytes) (nc : NCodecInstance) (fmu : FmuInstanceData) (kind : TraceKind)
      (filter : Bytes)
      → trace_kind nc ≡ some kind
      → hashmap_get env (env_name api nc kind) ≡ some filter
      → Logs (trace_configure api env nc fmu).0 kind (wanted filter)
  unfolding trace_configure
  trace_configure-Logs env nc fmu kind filter k e =
      subst (λ o. Logs (configure_kind api env nc fmu o).0 kind (wanted filter)) (sym k)
        (configure_kind-Logs env nc fmu kind filter e)

  is_logged-set_identifier :
      (td : TraceData) (text : Bytes) (id : ℕ)
      → is_logged (set_identifier api td text) id ≡ is_logged td id
  unfolding is_logged
  is_logged-set_identifier td text id =
      if_elim (λ (t : TraceData). is_logged t id ≡ is_logged td id) (length td.identifier == 0) _ _
        refl refl

  -- What a call of the log function leaves.
  abbrev pub CanLogged :
      (ℕ → Bool) → FmuInstanceData → CanMessage → NCodecInstance × FmuInstanceData → Type 0
  CanLogged passes fmu msg r =
      (m : LogMessage) × (m.category ≡ codes "Debug")
      × (r.1 ≡ with_line fmu (passes msg.frame_id) m)
      × Logs r.0 TraceKind.can passes

  log-with_line :
      (fmu : FmuInstanceData) (td : TraceData) (text : Bytes) (b : Bool)
      → (if b then log api (some td) fmu text else fmu)
        ≡ with_line fmu b (record {
          status = log_ok;
          category = codes "Debug";
          message = api.printed (take 1023 text);
        })
  unfolding log fmu_log
  log-with_line fmu td text true = refl
  log-with_line fmu td text false = refl

  can_log_with-CanLogged :
      (nc : NCodecInstance) (td : TraceData) (fmu : FmuInstanceData) (msg : CanMessage)
      (direction : Direction) (passes : ℕ → Bool)
      → FitsUint32 msg
      → nc.trace ≡ some TraceKind.can
      → ((id : ℕ) → id < 2 ^ 32 → is_logged td id ≡ passes id)
      → Returns (can_log_with api nc td fmu msg direction) (CanLogged passes fmu msg)
  unfolding can_log_with
  can_log_with-CanLogged nc td fmu msg direction passes h t p =
      elim (Bool-cases (is_logged new msg.frame_id)) [
        | inl e ↦ rw e (
            Returns-bind (dump msg.buffer) _ _ (CanLogged passes fmu msg)
              (dump_bounds msg.buffer h.1) (λ text bounds. left text true e))
        | inr e ↦ rw e (left [] false e)
      ]
    where
      new : TraceData
      new = can_identified api nc td

      same : (id : ℕ) → id < 2 ^ 32 → is_logged new id ≡ passes id
      same id k = is_logged-set_identifier td _ id ∙ p id k

      left :
          (text : Bytes) (b : Bool)
          → is_logged new msg.frame_id ≡ b
          → CanLogged passes fmu msg (
            record nc { trace_data = some new },
            if b then log api (some new) fmu (can_text api new direction msg text) else fmu,
          )
      left text b e =
          let line : LogMessage = record {
            status = log_ok;
            category = codes "Debug";
            message = api.printed (take 1023 (can_text api new direction msg text));
          } in
          (
            line,
            refl,
            log-with_line fmu new (can_text api new direction msg text) b
                ∙ ap (λ c. with_line fmu c line) (sym e ∙ same msg.frame_id h.0),
            (new, t, refl, same),
          )

  pub trace_can_log-Logs :
      (nc : NCodecInstance) (fmu : FmuInstanceData) (msg : CanMessage) (direction : Direction)
      (passes : ℕ → Bool)
      → FitsUint32 msg
      → Logs nc TraceKind.can passes
      → Returns (trace_can_log api nc fmu msg direction) (CanLogged passes fmu msg)
  unfolding trace_can_log
  trace_can_log-Logs nc fmu msg direction passes h (td, t, e, p) =
      rw e (can_log_with-CanLogged nc td fmu msg direction passes h t p)
