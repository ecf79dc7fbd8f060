-- ===== src/Gateway/Environment.antt =====
-- _get_fmu_env_value and _set_envar (dse/fmigateway/session.c). getenv and setenv act on the
-- environment of the process, which maps names to values; setenv is assumed to succeed.
use dse_fmi.Common.{
  ℕ, ◌≡◌, refl, ◌∙◌, Option, none, some, List, [], ◌∷◌, take, Bytes, codes, HashMap, hashmap_get,
  hashmap_set, hashmap_get-set, str_eq, str_eq_iff, Bool-cases, inl, inr, if◌then◌else◌, ap, sym,
  Bool, true, false,
}
use dse_fmi.Fmu.Instance.{FmuInstanceData}
use dse_fmi.Index.Vectors.{or_else}
use dse_fmi.Gateway.State.{Parameter, System}

or_else-none : (o : Option Bytes) → or_else o none ≡ o
or_else-none none = refl
or_else-none (some v) = refl

or_else_regroup :
    (b : Bool) (x y z : Option Bytes)
    → or_else (or_else x (if b then y else none)) z ≡ or_else x (if b then or_else y z else z)
or_else_regroup true none y z = refl
or_else_regroup false none y z = refl
or_else_regroup true (some v) y z = refl
or_else_regroup false (some v) y z = refl

module _ (sys : System) where
  abbrev real_value : FmuInstanceData → Option ℕ → Option Bytes
  real_value fmu none = none
  real_value fmu (some p) = some (take 23 (sys.int_text (fmu.memory p)))

  unfoldable pub get_fmu_env_value : FmuInstanceData → Parameter → Option Bytes
  get_fmu_env_value fmu e =
      if str_eq e.kind (codes "String")
      then hashmap_get fmu.string_input e.vref
      else (if str_eq e.kind (codes "Real")
          then real_value fmu (hashmap_get fmu.scalar_input e.vref)
          else none)

  abbrev pub put_value : HashMap Bytes → Bytes → Option Bytes → HashMap Bytes
  put_value env name none = env
  put_value env name (some v) = hashmap_set env name v

  -- One turn of the loop, given what getenv returns.
  unfoldable pub set_envar_at :
      FmuInstanceData → Parameter → HashMap Bytes → Option Bytes → HashMap Bytes
  unfolding get_fmu_env_value
  set_envar_at fmu e env none =
      put_value env e.name (or_else (get_fmu_env_value fmu e) e.default_value)
  set_envar_at fmu e env (some present) = env

  unfoldable pub set_envar : FmuInstanceData → List Parameter → HashMap Bytes → HashMap Bytes
  unfolding set_envar_at
  set_envar fmu [] env = env
  set_envar fmu (e ∷ rest) env =
      set_envar fmu rest (set_envar_at fmu e env (hashmap_get env e.name))

  -- The value of the first parameter that has the name and a value, of the FMU or else its default.
  abbrev pub first_value : FmuInstanceData → List Parameter → Bytes → Option Bytes
  first_value fmu [] k = none
  first_value fmu (e ∷ rest) k =
      if str_eq e.name k
      then or_else (or_else (get_fmu_env_value fmu e) e.default_value) (first_value fmu rest k)
      else first_value fmu rest k

  put_value-priority :
      (env : HashMap Bytes) (name k : Bytes) (o : Option Bytes)
      → hashmap_get env name ≡ none
      → hashmap_get (put_value env name o) k
        ≡ or_else (hashmap_get env k) (if str_eq name k then o else none)
  put_value-priority env name k none h = elim (Bool-cases (str_eq name k)) [
    | inl e ↦ rw e (sym (or_else-none (hashmap_get env k)))
    | inr e ↦ rw e (sym (or_else-none (hashmap_get env k)))
  ]
  put_value-priority env name k (some v) h = elim (Bool-cases (str_eq name k)) [
    | inl e ↦
        hashmap_get-set env name k v
        ∙ rw (e, ap (hashmap_get env) (sym ((str_eq_iff name k).0 e)) ∙ h) refl
    | inr e ↦ hashmap_get-set env name k v ∙ rw e (sym (or_else-none (hashmap_get env k)))
  ]

  set_envar_at-priority :
      (fmu : FmuInstanceData) (e : Parameter) (env : HashMap Bytes) (k : Bytes) (o : Option Bytes)
      → hashmap_get env e.name ≡ o
      → hashmap_get (set_envar_at fmu e env o) k
        ≡ or_else
            (hashmap_get env k)
            (if str_eq e.name k then or_else (get_fmu_env_value fmu e) e.default_value else none)
  unfolding set_envar_at
  set_envar_at-priority fmu e env k none h = put_value-priority env e.name k _ h
  set_envar_at-priority fmu e env k (some v) h = elim (Bool-cases (str_eq e.name k)) [
    | inl b ↦ rw (b, ap (hashmap_get env) (sym ((str_eq_iff e.name k).0 b)) ∙ h) refl
    | inr b ↦ rw b (sym (or_else-none (hashmap_get env k)))
  ]

  -- After _set_envar a variable of the environment has the value that it had before; or else that
  -- of the first parameter with its name that has one, from the FMU or as its default; or else none.
  pub set_envar-priority :
      (fmu : FmuInstanceData) (params : List Parameter) (env : HashMap Bytes) (k : Bytes)
      → hashmap_get (set_envar fmu params env) k
        ≡ or_else (hashmap_get env k) (first_value fmu params k)
  unfolding set_envar
  set_envar-priority fmu [] env k = sym (or_else-none (hashmap_get env k))
  set_envar-priority fmu (e ∷ rest) env k =
      set_envar-priority fmu rest (set_envar_at fmu e env (hashmap_get env e.name)) k
      ∙ ap (λ o. or_else o (first_value fmu rest k))
          (set_envar_at-priority fmu e env k (hashmap_get env e.name) refl)
      ∙ or_else_regroup (str_eq e.name k) (hashmap_get env k)
          (or_else (get_fmu_env_value fmu e) e.default_value) (first_value fmu rest k)
