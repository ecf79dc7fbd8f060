-- ===== src/Fmimcl/Parser/Order.antt =====
-- The sort by marshal group keeps every signal once and orders them by kind, type and direction.
use mathlib.Core.List.{Perm}
use mathlib.Core.List.Perm
use dse_fmi.Common.{
  ℕ, ◌≡◌, ◌<◌, ◌≤◌, refl, sym, ◌∙◌, Bool, true, ◌⊎◌, inl, inr, List, [], ◌∷◌, All, Pairs, select,
  arith, ◌==◌, if◌then◌else◌, All-map,
}
use dse_fmi.Common.Buckets.{
  gather, occurs, count_up, foldl-gather, foldl-select, gather_select-perm, gather-perm,
  gather-Pairs, All-gather, All-select, select_test, All-Pairs, occurs-count_up, count_up-Pairs,
}
use dse_fmi.Fmimcl.Signals.{MarshalApi, IsEnum, FmuSignal, dir_order}
use dse_fmi.Fmimcl.Parser.{in_group, sort_by_marshal_group}

abbrev has_kind : ℕ → FmuSignal → Bool
has_kind kind s = s.variable_kind == kind

abbrev has_type : ℕ → FmuSignal → Bool
has_type type s = s.variable_type == type

abbrev has_dir : ℕ → FmuSignal → Bool
has_dir dir s = s.variable_dir == dir

group-select :
    (kind type dir : ℕ) (l : List FmuSignal)
    → select (in_group kind type dir) l
      ≡ select (has_dir dir) (select (has_type type) (select (has_kind kind) l))
unfolding in_group
group-select kind type dir [] = refl
group-select kind type dir (s ∷ l) = ground (arith, group-select kind type dir l)

module _ (m : MarshalApi) where
  -- The place of a direction in mDirOrder.
  abbrev pub dir_rank : ℕ → ℕ
  dir_rank d =
      if d == m.dir_none
      then 0
      else if d == m.dir_local
      then 1
      else if d == m.dir_rxonly
      then 2
      else if d == m.dir_txrx
      then 3
      else if d == m.dir_txonly
      then 4
      else 5

  -- By kind, then by type, then by the place of the direction.
  abbrev pub Before : FmuSignal → FmuSignal → Type 0
  Before x y =
      (x.variable_kind < y.variable_kind)
      ⊎ ((x.variable_kind ≡ y.variable_kind)
          × ((x.variable_type < y.variable_type)
              ⊎ ((x.variable_type ≡ y.variable_type)
                  × (dir_rank x.variable_dir ≤ dir_rank y.variable_dir))))

  -- The sort finds a place for such a signal.
  pub record InRange (s : FmuSignal) : Type 0 where
    pub kind_below : s.variable_kind < m.kind_size
    pub type_below : s.variable_type < m.type_size
    pub dir_known : occurs s.variable_dir (dir_order m) ≡ 1

  -- The blocks of the sort: the whole list, one kind, one kind and type, one group.
  abbrev group : List FmuSignal → ℕ → ℕ → ℕ → List FmuSignal
  group l kind type dir = select (in_group kind type dir) l

  abbrev of_type : List FmuSignal → ℕ → ℕ → List FmuSignal
  of_type l kind type = gather (dir_order m) (group l kind type)

  abbrev of_kind : List FmuSignal → ℕ → List FmuSignal
  of_kind l kind = gather (count_up 0 m.type_size) (of_type l kind)

  abbrev blocks : List FmuSignal → List FmuSignal
  blocks l = gather (count_up 0 m.kind_size) (of_kind l)

  sort_by_marshal_group-blocks : (l : List FmuSignal) → sort_by_marshal_group m l ≡ blocks l
  unfolding sort_by_marshal_group
  sort_by_marshal_group-blocks l =
      foldl-gather _ (of_kind l)
        (λ out kind.
          foldl-gather _ (of_type l kind)
            (λ out type.
              foldl-gather _ (group l kind type)
                (λ out dir. foldl-select (in_group kind type dir) l out) (dir_order m) out)
            (count_up 0 m.type_size) out)
        (count_up 0 m.kind_size) []

  module _ (l : List FmuSignal) (h : All InRange l) where
    of_type-perm :
        (kind type : ℕ)
        → Perm (of_type l kind type) (select (has_type type) (select (has_kind kind) l))
    of_type-perm kind type =
        let rest : List FmuSignal = select (has_type type) (select (has_kind kind) l) in
        Perm.trans
          (gather-perm (dir_order m) (group l kind type) (λ dir. select (has_dir dir) rest)
            (λ dir. rw (group-select kind type dir l) (Perm.refl (select (has_dir dir) rest))))
          (gather_select-perm (λ s. s.variable_dir) (dir_order m) rest
            (All-select _ (has_type type) _
              (All-select _ (has_kind kind) l (All-map InRange _ l (λ s r. r.dir_known) h))))

    of_kind-perm : (kind : ℕ) → Perm (of_kind l kind) (select (has_kind kind) l)
    of_kind-perm kind =
        let rest : List FmuSignal = select (has_kind kind) l in
        Perm.trans
          (gather-perm (count_up 0 m.type_size) (of_type l kind)
            (λ type. select (has_type type) rest) (of_type-perm kind))
          (gather_select-perm (λ s. s.variable_type) (count_up 0 m.type_size) rest
            (All-select _ (has_kind kind) l (
              All-map InRange _ l
                (λ s r.
                  occurs-count_up 0 m.type_size s.variable_type (omega arith)
                    (omega (arith, r.type_below)))
                h)))

    blocks-perm : Perm (blocks l) l
    blocks-perm =
        Perm.trans
          (gather-perm (count_up 0 m.kind_size) (of_kind l) (λ kind. select (has_kind kind) l)
            of_kind-perm)
          (gather_select-perm (λ s. s.variable_kind) (count_up 0 m.kind_size) l
            (All-map InRange _ l
              (λ s r.
                occurs-count_up 0 m.kind_size s.variable_kind (omega arith)
                  (omega (arith, r.kind_below)))
              h))

    -- The sort is a permutation: no signal is lost and none is doubled.
    pub sort_by_marshal_group-perm : Perm (sort_by_marshal_group m l) l
    sort_by_marshal_group-perm = rw (sort_by_marshal_group-blocks l) blocks-perm

  pub sort_by_marshal_group-InRange :
      (l : List FmuSignal) → All InRange l → All InRange (sort_by_marshal_group m l)
  sort_by_marshal_group-InRange l h = rw (sort_by_marshal_group-blocks l) (
      All-gather InRange (of_kind l)
        (λ kind.
          All-gather InRange (of_type l kind)
            (λ type.
              All-gather InRange (group l kind type)
                (λ dir. All-select InRange (in_group kind type dir) l h) (dir_order m))
            (count_up 0 m.type_size))
        (count_up 0 m.kind_size))

  module _ (e : IsEnum m) (l : List FmuSignal) where
    dir_ranks :
        (dir_rank m.dir_none ≡ 0)
        × (dir_rank m.dir_local ≡ 1)
        × (dir_rank m.dir_rxonly ≡ 2)
        × (dir_rank m.dir_txrx ≡ 3)
        × (dir_rank m.dir_txonly ≡ 4)
        × (dir_rank m.dir_parameter ≡ 5)
    dir_ranks =
        let d = e.dirs_distinct in
        (
          ground (arith, d),
          ground (arith, d),
          ground (arith, d),
          ground (arith, d),
          ground (arith, d),
          ground (arith, d),
        )

    dir_order_ranked : Pairs (λ j k. dir_rank j < dir_rank k) (dir_order m)
    dir_order_ranked = let r = dir_ranks in simp (r.0, r.1, r.2, r.3, r.4, r.5) (omega arith)

    group_exact :
        (kind type dir : ℕ)
        → All
            (λ s. (s.variable_kind ≡ kind) × (s.variable_type ≡ type) × (s.variable_dir ≡ dir))
            (group l kind type dir)
    unfolding in_group
    group_exact kind type dir =
        All-map (λ s. in_group kind type dir s ≡ true) _ (group l kind type dir)
          (λ s t. ground arith) (select_test (in_group kind type dir) l)

    of_type-Pairs : (kind type : ℕ) → Pairs Before (of_type l kind type)
    of_type-Pairs kind type =
        gather-Pairs Before
          (λ dir s. (s.variable_kind ≡ kind) × (s.variable_type ≡ type) × (s.variable_dir ≡ dir))
          (λ j k. dir_rank j < dir_rank k)
          (λ j k jk x y px py.
            inr (px.0 ∙ sym py.0, inr (px.1 ∙ sym py.1, rw (px.2, py.2) (omega arith))))
          (group l kind type) (group_exact kind type)
          (λ dir.
            All-Pairs _ Before
              (λ x y px py.
                inr (px.0 ∙ sym py.0, inr (px.1 ∙ sym py.1, rw (px.2, py.2) (omega arith))))
              (group l kind type dir) (group_exact kind type dir))
          (dir_order m) dir_order_ranked

    of_kind-Pairs : (kind : ℕ) → Pairs Before (of_kind l kind)
    of_kind-Pairs kind =
        gather-Pairs Before (λ type s. (s.variable_kind ≡ kind) × (s.variable_type ≡ type)) ◌<◌
          (λ j k jk x y px py. inr (px.0 ∙ sym py.0, inl (rw (px.1, py.1) jk))) (of_type l kind)
          (λ type.
            All-gather _ (group l kind type)
              (λ dir. All-map _ _ _ (λ s p. (p.0, p.1)) (group_exact kind type dir)) (dir_order m))
          (of_type-Pairs kind) (count_up 0 m.type_size) (count_up-Pairs 0 m.type_size)

    -- The sorted list is ordered by kind, then by type, then by the place of the direction in
    -- mDirOrder.
    pub sort_by_marshal_group-Before : Pairs Before (sort_by_marshal_group m l)
    sort_by_marshal_group-Before = rw (sort_by_marshal_group-blocks l) (
        gather-Pairs Before (λ kind s. s.variable_kind ≡ kind) ◌<◌
          (λ j k jk x y px py. inl (rw (px, py) jk)) (of_kind l)
          (λ kind.
            All-gather _ (of_type l kind)
              (λ type.
                All-gather _ (group l kind type)
                  (λ dir. All-map _ _ _ (λ s p. p.0) (group_exact kind type dir)) (dir_order m))
              (count_up 0 m.type_size))
          of_kind-Pairs (count_up 0 m.kind_size) (count_up-Pairs 0 m.kind_size))
