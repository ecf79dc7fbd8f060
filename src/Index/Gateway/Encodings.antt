-- ===== src/Index/Gateway/Encodings.antt =====
-- fmigateway_index_text_encoding: which value references have a text codec.
use dse_fmi.Common.{
  ℕ, ◌≡◌, refl, ◌∙◌, ap, ap₂, Bool, true, false, ◌||◌, Option, none, some, List, [], ◌∷◌, ◌++◌,
  foldl, Bytes, codes, hashmap_get, hashmap_set, hashmap_get-set, HashMap, str_eq, Bool-cases, inl,
  inr, if◌then◌else◌, if_elim, Returns, arith,
}
use dse_fmi.Fmu.Instance.{FmuInstanceData, TextCodec, fmu_log}
use dse_fmi.Index.Vectors.{SchemaApi, SignalVector, ModelInstance, signal_annotation_list}
use dse_fmi.Index.Gateway.Scalars.{relog, message_of}
use dse_fmi.Index.Each.{each_instance}
use dse_fmi.Index.Each.Found.{found_all, OkAll, each_instance-found}
use dse_fmi.Index.Gateway.{
  GatewayApi, ModelGatewayDesc, set_codec, set_codecs, index_encoding_at, index_text_encoding,
}

abbrev pub listed : Bytes → List Bytes → Bool
listed k [] = false
listed k (v ∷ vs) = str_eq v k || listed k vs

abbrev pub set_each : HashMap TextCodec → List Bytes → HashMap TextCodec
set_each m [] = m
set_each m (v ∷ vs) = set_each (hashmap_set m v TextCodec.ascii85) vs

hashmap_get-set_each :
    (vs : List Bytes) (m : HashMap TextCodec) (k : Bytes)
    → hashmap_get (set_each m vs) k
      ≡ (if listed k vs then some TextCodec.ascii85 else hashmap_get m k)
hashmap_get-set_each [] m k = refl
hashmap_get-set_each (v ∷ vs) m k =
    hashmap_get-set_each vs (hashmap_set m v TextCodec.ascii85) k
    ∙ rw (hashmap_get-set m v k TextCodec.ascii85) (tests (str_eq v k) (listed k vs))
  where
    tests :
        (a b : Bool)
        → (if b
            then some TextCodec.ascii85
            else (if a then some TextCodec.ascii85 else hashmap_get m k))
          ≡ (if a || b then some TextCodec.ascii85 else hashmap_get m k)
    tests true true = refl
    tests true false = refl
    tests false b = refl

set_each-append :
    (xs ys : List Bytes) (m : HashMap TextCodec)
    → set_each (set_each m xs) ys ≡ set_each m (xs ++ ys)
set_each-append [] ys m = refl
set_each-append (x ∷ xs) ys m = set_each-append xs ys (hashmap_set m x TextCodec.ascii85)

abbrev pub put : FmuInstanceData → List Bytes → FmuInstanceData
put fmu vs = record fmu {
  encode_func = set_each fmu.encode_func vs;
  decode_func = set_each fmu.decode_func vs;
}

put-append : (fmu : FmuInstanceData) (xs ys : List Bytes) → put (put fmu xs) ys ≡ put fmu (xs ++ ys)
put-append fmu xs ys =
    ap₂ (λ e d. record fmu { encode_func = e; decode_func = d })
      (set_each-append xs ys fmu.encode_func) (set_each-append xs ys fmu.decode_func)

foldl-set_codec : (vs : List Bytes) (fmu : FmuInstanceData) → foldl set_codec fmu vs ≡ put fmu vs
foldl-set_codec [] fmu = refl
foldl-set_codec (v ∷ vs) fmu = foldl-set_codec vs (set_codec fmu v)

abbrev pub list_or_nil : Option (List Bytes) → List Bytes
list_or_nil none = []
list_or_nil (some vs) = vs

set_codecs-put :
    (fmu : FmuInstanceData) (o : Option (List Bytes)) → set_codecs fmu o ≡ put fmu (list_or_nil o)
set_codecs-put fmu none = refl
set_codecs-put fmu (some vs) = foldl-set_codec vs fmu

-- What strcmp must not meet.
abbrev pub HasEncoding : Option Bytes → Option Bytes → Type 0
HasEncoding none encoding = Unit {0}
HasEncoding (some vref) encoding = (e : Bytes) × (encoding ≡ some e)

module _ (schema : SchemaApi) where
  abbrev at_reference :
      ModelInstance → SignalVector → Bytes → Option Bytes → Option Bytes → List Bytes
  at_reference mi sv signal none encoding = []
  at_reference mi sv signal (some vref) none = []
  at_reference mi sv signal (some vref) (some e) =
      if str_eq e (codes "ascii85")
      then list_or_nil (
          signal_annotation_list schema mi sv signal
            (codes "dse.standards.fmi-ls-binary-to-text.vref"))
      else []

  -- The value references that one signal gives: those of its annotation, if it has a value reference
  -- itself and its encoding is ascii85.
  abbrev pub encoded_at : ModelInstance → SignalVector → ℕ → Bytes → List Bytes
  encoded_at mi sv i signal =
      at_reference mi sv signal (schema.signal_annotation sv i (codes "fmi_variable_vref"))
        (schema.signal_annotation sv i (codes "dse.standards.fmi-ls-binary-to-text.encoding"))

  -- A signal with a value reference has an encoding.
  abbrev pub EncodingKnown : ModelInstance → SignalVector → ℕ → Bytes → Type 0
  EncodingKnown mi sv i signal =
      HasEncoding (schema.signal_annotation sv i (codes "fmi_variable_vref"))
        (schema.signal_annotation sv i (codes "dse.standards.fmi-ls-binary-to-text.encoding"))

  at-put :
      (fmu : FmuInstanceData) (mi : ModelInstance) (sv : SignalVector) (signal : Bytes)
      (vref encoding : Option Bytes)
      → HasEncoding vref encoding
      → index_encoding_at schema fmu mi sv signal vref encoding
        ≡ some (put fmu (at_reference mi sv signal vref encoding))
  unfolding index_encoding_at
  at-put fmu mi sv signal none encoding h = refl
  at-put fmu mi sv signal (some vref) none h = absurd (ground (arith, h.1))
  at-put fmu mi sv signal (some vref) (some e) h = elim (Bool-cases (str_eq e (codes "ascii85"))) [
    | inl b ↦ rw b (
        ap some (
          set_codecs-put fmu (
            signal_annotation_list schema mi sv signal
              (codes "dse.standards.fmi-ls-binary-to-text.vref"))))
    | inr b ↦ rw b refl
  ]

  abbrev pub CodecsIndexed : List ModelInstance → FmuInstanceData → FmuInstanceData → Type 0
  CodecsIndexed instances fmu r =
      ((k : Bytes)
        → hashmap_get r.encode_func k ≡ (
            if listed k (found_all [] ◌++◌ encoded_at instances)
            then some TextCodec.ascii85
            else hashmap_get fmu.encode_func k))
      × ((k : Bytes)
          → hashmap_get r.decode_func k ≡ (
              if listed k (found_all [] ◌++◌ encoded_at instances)
              then some TextCodec.ascii85
              else hashmap_get fmu.decode_func k))
      × (r ≡ record fmu {
        encode_func = r.encode_func;
        decode_func = r.decode_func;
        logged = r.logged;
      })

  -- The body of the innermost loop.
  abbrev pub body_at :
      FmuInstanceData → ModelInstance → SignalVector → ℕ → Bytes → Option FmuInstanceData
  body_at fmu mi sv i signal =
      index_encoding_at schema fmu mi sv signal
        (schema.signal_annotation sv i (codes "fmi_variable_vref"))
        (schema.signal_annotation sv i (codes "dse.standards.fmi-ls-binary-to-text.encoding"))

  pub each_instance-put :
      (fmu : FmuInstanceData) (instances : List ModelInstance)
      → OkAll EncodingKnown instances
      → each_instance body_at fmu instances
        ≡ some (put fmu (found_all [] ◌++◌ encoded_at instances))
  each_instance-put fmu instances h =
      each_instance-found [] ◌++◌ encoded_at EncodingKnown body_at put (λ g. refl) put-append
        (λ g mi sv i signal ok.
          at-put g mi sv signal (schema.signal_annotation sv i (codes "fmi_variable_vref"))
            (schema.signal_annotation sv i (codes "dse.standards.fmi-ls-binary-to-text.encoding"))
            ok)
        fmu instances h

  pub put-CodecsIndexed :
      (instances : List ModelInstance) (fmu : FmuInstanceData)
      → CodecsIndexed instances fmu (put fmu (found_all [] ◌++◌ encoded_at instances))
  put-CodecsIndexed instances fmu =
      let l : List Bytes = found_all [] ◌++◌ encoded_at instances in
      (hashmap_get-set_each l fmu.encode_func, hashmap_get-set_each l fmu.decode_func, refl)

  pub log-CodecsIndexed :
      (instances : List ModelInstance) (fmu r : FmuInstanceData) (status : ℕ)
      (category message : Bytes)
      → CodecsIndexed instances fmu r
      → CodecsIndexed instances fmu (fmu_log r status category message)
  unfolding fmu_log
  log-CodecsIndexed instances fmu r status category message (enc, dec, same) =
      if_elim (CodecsIndexed instances fmu) _ _ _
        (enc, dec, ap (λ x. relog x (r.logged ++ message_of status category message ∷ [])) same)
        (enc, dec, same)

module _ (api : GatewayApi) where
  abbrev pub SignalHasEncoding : ModelInstance → SignalVector → ℕ → Bytes → Type 0
  SignalHasEncoding = EncodingKnown api.schema

  abbrev pub EncodingsIndexed : List ModelInstance → FmuInstanceData → FmuInstanceData → Type 0
  EncodingsIndexed = CodecsIndexed api.schema

  -- When each binary signal with a value reference has an encoding, fmigateway_index_text_encoding
  -- compares no NULL pointer; the value references that signals with the encoding ascii85 list then
  -- have the ASCII85 encoder and decoder, all others have what they had, and nothing else but the log
  -- changes.
  pub index_text_encoding-listed :
      (fmu : FmuInstanceData) (m : ModelGatewayDesc)
      → OkAll SignalHasEncoding m.instance_list
      → Returns (index_text_encoding api fmu m) (EncodingsIndexed m.instance_list fmu)
  unfolding index_text_encoding
  index_text_encoding-listed fmu m h = rw (each_instance-put api.schema fmu m.instance_list h) (
      log-CodecsIndexed api.schema m.instance_list fmu _ _ _ _
        (put-CodecsIndexed api.schema m.instance_list fmu))
