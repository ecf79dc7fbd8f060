-- ===== src/Fmu/Log.antt =====
-- The categories of fmi2SetDebugLogging, as the guards of `fmu_log` of dse/fmu/fmi2fmu.c see them.
use dse_fmi.Common.{
  ℕ, zero, suc, ◌≡◌, ◌≢◌, refl, sym, ◌∙◌, ap, ap₂, Bool, true, false, not, ◌&&◌, ◌||◌, Option, some,
  List, [], ◌∷◌, foldl, All, Pairs, if_elim, Bytes, codes, str_eq, str_eq_iff, ◌==◌, ==_iff,
  if◌then◌else◌, arith,
}
use dse_fmi.Fmu.Instance.{
  FmuInstanceData, log_passes, flag_or, category_map, category_flag, add_category,
  set_debug_logging,
}
use dse_fmi.Fmu.Flags.{
  flag, is_some, named, known, has, flags, IsFlag, flag-IsFlag, added, foldl-has,
}

fresh :
    (t : List (Bytes × ℕ)) (n : Bytes) (f : ℕ)
    → f ≢ 0
    → All (λ e. e.1 ≢ f) t
    → flag_or 0 (category_flag t n) ≢ f
unfolding category_flag
fresh [] n f z h = λ e. z (sym e)
fresh ((k, g) ∷ t) n f z h = if_elim (λ o. flag_or 0 o ≢ f) (str_eq k n) _ _ h.0 (fresh t n f z h.1)

same_entry :
    (b d : Bool) (g : ℕ) (x y : Option ℕ) (P : Type 0)
    → (b ≡ true → d ≡ true → P)
    → flag_or 0 x ≢ g
    → flag_or 0 y ≢ g
    → (flag_or 0 x ≡ flag_or 0 y → flag_or 0 y ≢ 0 → P)
    → flag_or 0 (if b then some g else x) ≡ flag_or 0 (if d then some g else y)
    → flag_or 0 (if d then some g else y) ≢ 0
    → P
same_entry true true g x y P both nx ny rest e k = both refl refl
same_entry true false g x y P both nx ny rest e k = absurd (ny (sym e))
same_entry false true g x y P both nx ny rest e k = absurd (nx e)
same_entry false false g x y P both nx ny rest e k = rest e k

-- In a table of different flags, names with the same flag are the same.
flag_or_injective :
    (t : List (Bytes × ℕ)) (n c : Bytes)
    → Pairs (λ e d. d.1 ≢ e.1) t
    → All (λ e. e.1 ≢ 0) t
    → flag_or 0 (category_flag t n) ≡ flag_or 0 (category_flag t c)
    → flag_or 0 (category_flag t c) ≢ 0
    → n ≡ c
unfolding category_flag
flag_or_injective [] n c p z e k = absurd (k refl)
flag_or_injective ((name, g) ∷ t) n c p z e k =
    same_entry (str_eq name n) (str_eq name c) g (category_flag t n) (category_flag t c) (n ≡ c)
      (λ x y. sym ((str_eq_iff name n).0 x) ∙ (str_eq_iff name c).0 y) (fresh t n g z.0 p.0)
      (fresh t c g z.0 p.0) (λ e k. flag_or_injective t n c p.1 z.1 e k) e k

-- A name with the flag of a category is that category.
flag_injective : (n c : Bytes) → flag n ≡ flag c → flag c ≢ 0 → n ≡ c
flag_injective n c =
    flag_or_injective category_map n c
      (
        (omega arith, (omega arith, (omega arith, (omega arith, (omega arith, tt))))),
        (
          (omega arith, (omega arith, (omega arith, (omega arith, tt)))),
          (
            (omega arith, (omega arith, (omega arith, tt))),
            ((omega arith, (omega arith, tt)), ((omega arith, tt), (tt, tt))),
          ),
        ),
      )
      (omega arith, (omega arith, (omega arith, (omega arith, (omega arith, (omega arith, tt))))))

-- `known` says that the flag is not 0.
known_lem : (c : Bytes) → known c ≡ not (flag c == 0)
unfolding category_flag
known_lem c =
    if_elim (λ o. is_some o ≡ not (flag_or 0 o == 0)) (str_eq (codes "Trace") c) _ _ refl
      (if_elim (λ o. is_some o ≡ not (flag_or 0 o == 0)) (str_eq (codes "Debug") c) _ _ refl
        (if_elim (λ o. is_some o ≡ not (flag_or 0 o == 0)) (str_eq (codes "Info") c) _ _ refl
          (if_elim (λ o. is_some o ≡ not (flag_or 0 o == 0)) (str_eq (codes "Error") c) _ _ refl
            (if_elim (λ o. is_some o ≡ not (flag_or 0 o == 0)) (str_eq (codes "Fatal") c) _ _ refl
              (if_elim (λ o. is_some o ≡ not (flag_or 0 o == 0)) (str_eq (codes "All") c) _ _ refl
                refl)))))

iff-eq : (b d : Bool) → (b ≡ true → d ≡ true) → (d ≡ true → b ≡ true) → b ≡ d
iff-eq true true f g = refl
iff-eq true false f g = sym (f refl)
iff-eq false true f g = g refl
iff-eq false false f g = refl

same_flag : (n c : Bytes) → (flag n == flag c && not (flag c == 0)) ≡ (known c && str_eq n c)
same_flag n c = rw (known_lem c) (
    iff-eq _ _
      (λ h. ground (
        arith,
        h,
        (str_eq_iff n c).1 (
            flag_injective n c ((==_iff (flag n) (flag c)).0 (ground (arith, h)))
              (ground (arith, h))),
      ))
      (λ h. ground (arith, h, ap flag ((str_eq_iff n c).0 (ground (arith, h))))))

added-named : (names : List Bytes) (c : Bytes) → added (flag c) names ≡ (known c && named c names)
unfolding added
added-named [] c = ground arith
added-named (n ∷ names) c = rw (same_flag n c, added-named names c) (ground arith)

no_bits : (f : ℕ) → IsFlag f → has 0 f ≡ false
unfolding IsFlag has flags
no_bits f i = i (λ g. has 0 g ≡ false) (refl, (refl, (refl, (refl, (refl, (refl, (refl, tt)))))))

-- The guard on an empty mask follows from the others.
guards : (m f : ℕ) → IsFlag f → (not (m == 0) && (has m 32 || has m f)) ≡ (has m 32 || has m f)
unfolding has
guards zero f i = rw (no_bits f i) refl
guards (suc m) f i = ground arith

-- After fmi2SetDebugLogging, a message passes the guards of fmu_log exactly if logging was switched
-- on and either "All" is among the categories given, or the message's category is one of the six
-- and among them; what the mask was before does not matter, and names that are no category change
-- nothing.
pub log_passes-set_debug_logging :
    (on : Bool) (names : List Bytes) (fmu : FmuInstanceData) (c : Bytes)
    → log_passes (set_debug_logging on names fmu) (some c)
      ≡ (on && (named (codes "All") names || (known c && named c names)))
unfolding log_passes set_debug_logging has str_eq
log_passes-set_debug_logging false names fmu c = refl
log_passes-set_debug_logging true names fmu c =
    let mask : ℕ = foldl add_category 0 names in
    let all : has mask 32 ≡ named (codes "All") names =
      foldl-has names 0 32 (omega arith) (flag-IsFlag (codes "All"))
      ∙ added-named names (codes "All") in
    let one : has mask (flag c) ≡ (known c && named c names) =
      foldl-has names 0 (flag c) (omega arith) (flag-IsFlag c)
      ∙ rw (no_bits (flag c) (flag-IsFlag c)) (added-named names c) in
    guards mask (flag c) (flag-IsFlag c) ∙ ap₂ (λ x y. x || y) all one
