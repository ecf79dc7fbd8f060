-- ===== src/Fmimcl/Parser/Parsed.antt =====
-- What the parser yields: every enumerated signal once, decoded to known enumerators, in order.
use mathlib.Core.List.{Perm}
use dse_fmi.Common.{
  ℕ, ◌≡◌, ◌<◌, Option, none, some, List, [], ◌∷◌, ◌++◌, All, All-append, Pairs, Bytes, codes, arith,
  Option-cases, if_elim, inl, inr,
}
use mathlib.Core.Path.{subst}
use mathlib.Core.Option.{some-injective}
use dse_fmi.Common.Buckets.{occurs}
use dse_fmi.Fmimcl.Signals.{MarshalApi, IsEnum, FmuSignal, dir_order}
use dse_fmi.Fmimcl.Parser.{
  YamlApi, decode_var_kind, decode_var_type, decode_var_dir, fmu_signal, named_signal,
  fmu_signal_generator, variable_match_handler, parse_signals,
}
use dse_fmi.Fmimcl.Parser.Order.{
  InRange, Before, sort_by_marshal_group-InRange, sort_by_marshal_group-perm,
  sort_by_marshal_group-Before,
}

module _ (m : MarshalApi) (e : IsEnum m) where
  decode_var_kind-below : (t : Option Bytes) → decode_var_kind m t < m.kind_size
  unfolding decode_var_kind
  decode_var_kind-below none = e.kind_none_below
  decode_var_kind-below (some t) = ground arith

  decode_var_type-below : (t : Option Bytes) → decode_var_type m t < m.type_size
  unfolding decode_var_type
  decode_var_type-below none = e.type_none_below
  decode_var_type-below (some t) = ground arith

  dir_occurs :
      (occurs m.dir_none (dir_order m) ≡ 1)
      × (occurs m.dir_local (dir_order m) ≡ 1)
      × (occurs m.dir_rxonly (dir_order m) ≡ 1)
      × (occurs m.dir_txrx (dir_order m) ≡ 1)
      × (occurs m.dir_txonly (dir_order m) ≡ 1)
      × (occurs m.dir_parameter (dir_order m) ≡ 1)
  dir_occurs =
      let d = e.dirs_distinct in
      (
        ground (arith, d),
        ground (arith, d),
        ground (arith, d),
        ground (arith, d),
        ground (arith, d),
        ground (arith, d),
      )

  decode_var_dir-occurs : (t : Option Bytes) → occurs (decode_var_dir m t) (dir_order m) ≡ 1
  unfolding decode_var_dir
  decode_var_dir-occurs none = dir_occurs.3
  decode_var_dir-occurs (some t) =
      let o = dir_occurs in
      if_elim Once _ _ _ o.4 (
        if_elim Once _ _ _ o.2
          (if_elim Once _ _ _ o.3 (if_elim Once _ _ _ o.5 (if_elim Once _ _ _ o.1 o.0))))
    where
      Once : ℕ → Type 0
      Once d = occurs d (dir_order m) ≡ 1

  module _ (y : YamlApi) where
    fmu_signal-InRange : (n : y.Node) (name : Bytes) → InRange m (fmu_signal m y n name)
    unfolding fmu_signal
    fmu_signal-InRange n name = record {
      kind_below = decode_var_kind-below _;
      type_below = decode_var_type-below _;
      dir_known = decode_var_dir-occurs _;
    }

    named_signal-InRange :
        (n : y.Node) (o : Option Bytes) (s : FmuSignal)
        → named_signal m y n o ≡ some s
        → InRange m s
    unfolding named_signal
    named_signal-InRange n none s h = cc
    named_signal-InRange n (some name) s h =
        subst (InRange m) (some-injective _ _ h) (fmu_signal-InRange n name)

    fmu_signal_generator-InRange :
        (n : y.Node) (s : FmuSignal) → fmu_signal_generator m y n ≡ some s → InRange m s
    unfolding fmu_signal_generator
    fmu_signal_generator-InRange n s h =
        named_signal-InRange n (y.find_scalar n (codes "signal")) s h

    variable_match_handler-InRange :
        (ns : List y.Node) (l : List FmuSignal)
        → All (InRange m) l
        → All (InRange m) (variable_match_handler m y ns l)
    unfolding variable_match_handler
    variable_match_handler-InRange [] l h = h
    variable_match_handler-InRange (n ∷ ns) l h = elim (Option-cases (fmu_signal_generator m y n)) [
      | inl e ↦ rw (e, All) h
      | inr (s, e) ↦
          rw (e, All)
            (variable_match_handler-InRange ns (l ++ s ∷ [])
              (All-append (InRange m) l (s ∷ []) h (fmu_signal_generator-InRange n s e, tt)))
    ]

    pub parse_signals-InRange :
        (scalar_group network_group : List y.Node)
        → All (InRange m) (parse_signals m y scalar_group network_group)
    unfolding parse_signals
    parse_signals-InRange scalar_group network_group = sort_by_marshal_group-InRange m _ (
        variable_match_handler-InRange network_group _
          (variable_match_handler-InRange scalar_group [] tt))

    -- The signals that the model is given are those of the two signal groups, each exactly once,
    -- and they stand in the order by kind, then type, then place of the direction in mDirOrder.
    pub parse_signals-perm :
        (scalar_group network_group : List y.Node)
        → Perm
            (parse_signals m y scalar_group network_group)
            (variable_match_handler m y network_group (variable_match_handler m y scalar_group []))
          × Pairs (Before m) (parse_signals m y scalar_group network_group)
    unfolding parse_signals
    parse_signals-perm scalar_group network_group =
        let l =
          variable_match_handler m y network_group (variable_match_handler m y scalar_group []) in
        (
          sort_by_marshal_group-perm m l (
              variable_match_handler-InRange network_group _
                (variable_match_handler-InRange scalar_group [] tt)),
          sort_by_marshal_group-Before m e l,
        )
