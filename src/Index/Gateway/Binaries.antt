-- ===== src/Index/Gateway/Binaries.antt =====
-- fmigateway_index_binary_signals and fmigateway_index_text_encoding: which variable, and which codec,
-- each value reference leads to.
use dse_fmi.Common.{
  ℕ, ◌≡◌, refl, sym, ◌∙◌, ap, ap₂, Option, none, some, List, [], ◌∷◌, ◌++◌, map, foldl, Bytes,
  codes, hashmap_get, if_elim, Returns, append-nil,
}
use dse_fmi.Fmu.Instance.{FmuInstanceData, fmu_log}
use dse_fmi.Index.Vectors.{SchemaApi, SignalVector, ModelInstance, signal_annotation_list}
use dse_fmi.Index.Latest.{latest, set_all, set_all-append, hashmap_get-set_all}
use dse_fmi.Index.Gateway.Scalars.{relog, message_of}
use dse_fmi.Index.Each.{each_instance}
use dse_fmi.Index.Each.Found.{found_all, everywhere-OkAll, each_instance-found}
use dse_fmi.Index.Gateway.{
  GatewayApi, ModelGatewayDesc, binary_of, set_rx, set_tx, set_binary_variables, index_binary_at,
  index_binary_signals,
}

-- The entries that a list of value references gives, when there is one and there is a value.
abbrev pub entries_of : {A : Type 0} → Option A → Option (List Bytes) → List (Bytes × A)
entries_of none vrefs = []
entries_of (some p) none = []
entries_of (some p) (some vrefs) = map (λ v. (v, p)) vrefs

abbrev pub Topology : Type 0
Topology = List (Bytes × ℕ) × List (Bytes × ℕ)

abbrev pub join : Topology → Topology → Topology
join a b = (a.0 ++ b.0, a.1 ++ b.1)

abbrev pub put : FmuInstanceData → Topology → FmuInstanceData
put fmu t = record fmu {
  binary_rx = set_all fmu.binary_rx t.0;
  binary_tx = set_all fmu.binary_tx t.1;
}

put-join : (fmu : FmuInstanceData) (a b : Topology) → put (put fmu a) b ≡ put fmu (join a b)
put-join fmu a b =
    ap₂ (λ x y. record fmu { binary_rx = x; binary_tx = y })
      (sym (set_all-append fmu.binary_rx a.0 b.0)) (sym (set_all-append fmu.binary_tx a.1 b.1))

foldl-set_rx :
    (p : ℕ) (vrefs : List Bytes) (fmu : FmuInstanceData)
    → foldl (set_rx p) fmu vrefs ≡ put fmu (map (λ v. (v, p)) vrefs, [])
foldl-set_rx p [] fmu = refl
foldl-set_rx p (v ∷ vs) fmu = foldl-set_rx p vs (set_rx p fmu v)

foldl-set_tx :
    (p : ℕ) (vrefs : List Bytes) (fmu : FmuInstanceData)
    → foldl (set_tx p) fmu vrefs ≡ put fmu ([], map (λ v. (v, p)) vrefs)
foldl-set_tx p [] fmu = refl
foldl-set_tx p (v ∷ vs) fmu = foldl-set_tx p vs (set_tx p fmu v)

rx-put :
    (o : Option ℕ) (vrefs : Option (List Bytes)) (fmu : FmuInstanceData)
    → set_binary_variables set_rx o vrefs fmu ≡ put fmu (entries_of o vrefs, [])
unfolding set_binary_variables
rx-put none none fmu = refl
rx-put (some p) none fmu = refl
rx-put none (some vrefs) fmu = refl
rx-put (some p) (some vrefs) fmu = foldl-set_rx p vrefs fmu

tx-put :
    (o : Option ℕ) (vrefs : Option (List Bytes)) (fmu : FmuInstanceData)
    → set_binary_variables set_tx o vrefs fmu ≡ put fmu ([], entries_of o vrefs)
unfolding set_binary_variables
tx-put none none fmu = refl
tx-put (some p) none fmu = refl
tx-put none (some vrefs) fmu = refl
tx-put (some p) (some vrefs) fmu = foldl-set_tx p vrefs fmu

module _ (schema : SchemaApi) (locate : SignalVector → Bytes → Option ℕ) where
  abbrev list_of : ModelInstance → SignalVector → Bytes → Bytes → Option (List Bytes)
  list_of mi sv signal name = signal_annotation_list schema mi sv signal name

  abbrev at_reference : ModelInstance → SignalVector → Bytes → Option Bytes → Topology
  at_reference mi sv signal none = ([], [])
  at_reference mi sv signal (some vref) =
      let variable : Option ℕ = locate sv signal in
      (
        entries_of variable
            (list_of mi sv signal (codes "dse.standards.fmi-ls-bus-topology.rx_vref")),
        entries_of variable
            (list_of mi sv signal (codes "dse.standards.fmi-ls-bus-topology.tx_vref")),
      )

  -- What one signal gives: the value references of its two annotations, if it has a value reference
  -- itself and a binary variable.
  abbrev pub topology : ModelInstance → SignalVector → ℕ → Bytes → Topology
  topology mi sv i signal =
      at_reference mi sv signal (schema.signal_annotation sv i (codes "fmi_variable_vref"))

  at-put :
      (fmu : FmuInstanceData) (mi : ModelInstance) (sv : SignalVector) (signal : Bytes)
      (vref : Option Bytes)
      → index_binary_at schema fmu mi sv signal (locate sv signal) vref
        ≡ put fmu (at_reference mi sv signal vref)
  unfolding index_binary_at
  at-put fmu mi sv signal none = refl
  at-put fmu mi sv signal (some vref) =
      let variable : Option ℕ = locate sv signal in
      let rx : Option (List Bytes) =
        list_of mi sv signal (codes "dse.standards.fmi-ls-bus-topology.rx_vref") in
      let tx : Option (List Bytes) =
        list_of mi sv signal (codes "dse.standards.fmi-ls-bus-topology.tx_vref") in
      ap (set_binary_variables set_tx variable tx) (rx-put variable rx fmu)
      ∙ tx-put variable tx (put fmu (entries_of variable rx, []))
      ∙ put-join fmu (entries_of variable rx, []) ([], entries_of variable tx)
      ∙ ap (λ l. put fmu (l, entries_of variable tx)) (append-nil (entries_of variable rx))

  abbrev pub InstancesIndexed : List ModelInstance → FmuInstanceData → FmuInstanceData → Type 0
  InstancesIndexed instances fmu r =
      ((k : Bytes)
        → hashmap_get r.binary_rx k
          ≡ latest k (found_all ([], []) join topology instances).0 (hashmap_get fmu.binary_rx k))
      × ((k : Bytes)
          → hashmap_get r.binary_tx k
            ≡ latest k (found_all ([], []) join topology instances).1 (hashmap_get fmu.binary_tx k))
      × (r ≡ record fmu { binary_rx = r.binary_rx; binary_tx = r.binary_tx; logged = r.logged })

  -- The body of the innermost loop.
  abbrev pub body_at :
      FmuInstanceData → ModelInstance → SignalVector → ℕ → Bytes → Option FmuInstanceData
  body_at fmu mi sv i signal = some (
      index_binary_at schema fmu mi sv signal (locate sv signal)
        (schema.signal_annotation sv i (codes "fmi_variable_vref")))

  pub each_instance-put :
      (fmu : FmuInstanceData) (instances : List ModelInstance)
      → each_instance body_at fmu instances
        ≡ some (put fmu (found_all ([], []) join topology instances))
  each_instance-put fmu instances =
      each_instance-found ([], []) join topology (λ mi sv i signal. Unit {0}) body_at put
        (λ g. refl) put-join
        (λ g mi sv i signal h.
          ap some
            (at-put g mi sv signal (schema.signal_annotation sv i (codes "fmi_variable_vref"))))
        fmu instances
        (everywhere-OkAll (λ mi sv i signal. Unit {0}) (λ mi sv i signal. tt) instances)

  pub put-InstancesIndexed :
      (instances : List ModelInstance) (fmu : FmuInstanceData)
      → InstancesIndexed instances fmu (put fmu (found_all ([], []) join topology instances))
  put-InstancesIndexed instances fmu =
      let t : Topology = found_all ([], []) join topology instances in
      (hashmap_get-set_all fmu.binary_rx t.0, hashmap_get-set_all fmu.binary_tx t.1, refl)

  pub log-InstancesIndexed :
      (instances : List ModelInstance) (fmu r : FmuInstanceData) (status : ℕ)
      (category message : Bytes)
      → InstancesIndexed instances fmu r
      → InstancesIndexed instances fmu (fmu_log r status category message)
  unfolding fmu_log
  log-InstancesIndexed instances fmu r status category message (rx, tx, same) =
      if_elim (InstancesIndexed instances fmu) _ _ _
        (rx, tx, ap (λ x. relog x (r.logged ++ message_of status category message ∷ [])) same)
        (rx, tx, same)

module _ (api : GatewayApi) where
  abbrev pub BinariesIndexed : List ModelInstance → FmuInstanceData → FmuInstanceData → Type 0
  BinariesIndexed = InstancesIndexed api.schema (binary_of api)

  -- fmigateway_index_binary_signals always ends; a value reference that a receive annotation of a
  -- signal lists then leads to the binary variable of the latest such signal, or to what it led to
  -- before, in the map of received variables, and likewise for transmitted ones; and nothing but the
  -- two maps and the log changes.
  pub index_binary_signals-topology :
      (fmu : FmuInstanceData) (m : ModelGatewayDesc)
      → Returns (index_binary_signals api fmu m) (BinariesIndexed m.instance_list fmu)
  unfolding index_binary_signals
  index_binary_signals-topology fmu m =
      rw (each_instance-put api.schema (binary_of api) fmu m.instance_list) (
        log-InstancesIndexed api.schema (binary_of api) m.instance_list fmu _ _ _ _
          (put-InstancesIndexed api.schema (binary_of api) m.instance_list fmu))
