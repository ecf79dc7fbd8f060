-- ===== src/Fmu/Create.antt =====
-- fmi2Instantiate of dse/fmu/fmi2fmu.c.
use Prim.Native.Nat.{bit_or}
use dse_fmi.Common.{
  ℕ, ◌≡◌, refl, sym, subst, Bool, true, false, ◌&&◌, ◌||◌, Option, none, some, [], ◌∷◌, ◌++◌, drop,
  length, Bytes, codes, ◌==◌, if◌then◌else◌, arith,
}
use dse_fmi.Fmu.Vref.{decimal}
use dse_fmi.Fmu.Instance.{FmuInstanceData, fmu_log, log_ok, log_error}

-- strstr(text, part) != NULL
unfoldable pub starts_with : Bytes → Bytes → Bool
starts_with [] text = true
starts_with (c ∷ part) [] = false
starts_with (c ∷ part) (d ∷ text) = c == d && starts_with part text

unfoldable pub contains : Bytes → Bytes → Bool
unfolding starts_with
contains part [] = starts_with part []
contains part (c ∷ text) = starts_with part (c ∷ text) || contains part text

-- FILE_URI_SCHEME and FILE_URI_SHORT_SCHEME, which another library defines.
pub record UriApi : Type 0 where
  pub file_uri_scheme : Bytes
  pub file_uri_short_scheme : Bytes

-- What `resource_location` is after the offset was added to it.
unfoldable pub resource_path : UriApi → Bytes → Bytes
unfolding contains
resource_path u location =
    if contains u.file_uri_scheme location
    then drop (length u.file_uri_scheme) location
    else if contains u.file_uri_short_scheme location
    then drop (length u.file_uri_short_scheme) location
    else location

-- log_categories |= ... of Debug, Info, Error and Fatal.
abbrev pub default_categories : Bool → ℕ
default_categories on = if on then bit_or (bit_or (bit_or (bit_or 0 2) 4) 8) 16 else 0

abbrev debug : FmuInstanceData → Bytes → FmuInstanceData
debug fmu text = fmu_log fmu log_ok (codes "Debug") text

-- The instance as calloc and the first assignments make it; the indexes are empty.
unfoldable pub new_instance : Bytes → Bytes → Bool → FmuInstanceData
new_instance name location logging_on = record {
  name = name;
  version = 2;
  resource_location = location;
  log_enabled = logging_on;
  log_categories = default_categories logging_on;
  logged = [];
  scalar_input = [];
  scalar_output = [];
  string_input = [];
  binary_rx = [];
  binary_tx = [];
  encode_func = [];
  decode_func = [];
  free_list = [];
  signals_reset = false;
  memory = λ p. 0;
  binaries = [];
  table = none;
  var_list = [];
  marshal_list = [];
  direct_index = none;
}

abbrev created : FmuInstanceData × ℕ → FmuInstanceData
created (fmu, errno) =
    if errno == 0
    then fmu
    else fmu_log fmu log_error (codes "Error")
        (codes "The FMU was not created correctly! (errro = " ++ decimal errno ++ codes ")")

abbrev report_table : FmuInstanceData → Option ℕ → FmuInstanceData
report_table fmu none = debug fmu (codes "FMU Var Table is not configured")
report_table fmu (some t) = fmu

-- `setup` is the handler of the signal table, and `create` the FMU's own fmu_create, with the errno
-- that it leaves; it may return another instance.
module _ (u : UriApi) (setup : FmuInstanceData → FmuInstanceData)
    (create : FmuInstanceData → FmuInstanceData × ℕ) where
  unfoldable pub instantiate : Bytes → Bytes → Bool → FmuInstanceData
  unfolding new_instance resource_path
  instantiate name location logging_on =
      let fmu = debug (new_instance name location logging_on) (codes "FMU Model instantiated") in
      let path = resource_path u location in
      let located =
        debug (record fmu { resource_location = path }) (codes "Resource location: " ++ path) in
      let indexed = setup (debug located (codes "Build indexes...")) in
      let done = created (create indexed) in report_table done done.table

starts_with-append :
    (part more text : Bytes) → starts_with (part ++ more) text ≡ true → starts_with part text ≡ true
unfolding starts_with
starts_with-append [] more text h = refl
starts_with-append (c ∷ part) more [] h = h
starts_with-append (c ∷ part) more (d ∷ text) h =
    ground (arith, h, starts_with-append part more text)

-- A text without a part has no longer part that starts with it.
contains-append :
    (part more text : Bytes) → contains part text ≡ false → contains (part ++ more) text ≡ false
unfolding contains
contains-append part more [] h = ground (arith, h, starts_with-append part more [])
contains-append part more (c ∷ text) h =
    ground (arith, h, starts_with-append part more (c ∷ text), contains-append part more text)

abbrev usual_schemes : UriApi
usual_schemes = record { file_uri_scheme = codes "file://"; file_uri_short_scheme = codes "file:" }

usual_forms :
    (path : Bytes)
    → contains (codes "file:") path ≡ false
    → starts_with (codes "//") path ≡ false
    → (resource_path usual_schemes (codes "file://" ++ path) ≡ path)
      × (resource_path usual_schemes (codes "file:" ++ path) ≡ path)
      × (resource_path usual_schemes path ≡ path)
unfolding resource_path starts_with
usual_forms path h k =
    let long : contains (codes "file://") path ≡ false =
      contains-append (codes "file:") (codes "//") path h in
    (refl, rw (k, long) refl, rw (long, h) refl)

-- With "file://" and "file:" as the two schemes, and for a path in which "file:" does not occur and
-- which does not start with "//": the three forms of a resource location, file:// before the path,
-- file: before it, and the path alone, all give the path.
pub resource_path-forms :
    (u : UriApi) (path : Bytes)
    → u.file_uri_scheme ≡ codes "file://"
    → u.file_uri_short_scheme ≡ codes "file:"
    → contains (codes "file:") path ≡ false
    → starts_with (codes "//") path ≡ false
    → (resource_path u (codes "file://" ++ path) ≡ path)
      × (resource_path u (codes "file:" ++ path) ≡ path)
      × (resource_path u path ≡ path)
resource_path-forms u path e d h k =
    let same : u ≡ usual_schemes =
      λ i. record { file_uri_scheme = e i; file_uri_short_scheme = d i } in
    subst
      (λ w.
        (resource_path w (codes "file://" ++ path) ≡ path)
        × (resource_path w (codes "file:" ++ path) ≡ path)
        × (resource_path w path ≡ path))
      (sym same) (usual_forms path h k)
