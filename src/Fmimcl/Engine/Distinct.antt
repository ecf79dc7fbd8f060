-- ===== src/Fmimcl/Engine/Distinct.antt =====
-- Sorted signals make a table in which no marshal group occurs twice.
use mathlib.Core.Path.{subst}
use dse_fmi.Common.{
  ℕ, suc, ◌≡◌, ◌<◌, ◌≤◌, refl, sym, ◌∙◌, ap, true, inl, inr, ◌⊎◌, some, List, [], ◌∷◌, length,
  length-append, arith, Bool-cases, ◌==◌, All, All-append, All-map, Pairs, Pairs-append,
  if◌then◌else◌, ◌>>=◌, Returns, Returns-bind,
}
use dse_fmi.Common.Buckets.{occurs}
use dse_fmi.Fmimcl.Signals.{MarshalApi, IsEnum, FmuSignal, dir_order}
use dse_fmi.Fmimcl.Parser.{YamlApi, parse_signals}
use dse_fmi.Fmimcl.Parser.Order.{dir_rank, Before, InRange}
use dse_fmi.Fmimcl.Parser.Parsed.{parse_signals-perm, parse_signals-InRange}
use dse_fmi.Fmimcl.Engine.{
  MarshalGroup, Pending, create_mg, emit, changed, table_step, table_loop, no_group,
  generate_marshal_table,
}
use dse_fmi.Fmimcl.Engine.Table.{HaveRefRoom, sized_pending, create_mg-Made, unchanged}

abbrev Key : Type 0
Key = ℕ × ℕ × ℕ

abbrev LtKey : Key → Key → Type 0
LtKey a b = (a.0 < b.0) ⊎ ((a.0 ≡ b.0) × ((a.1 < b.1) ⊎ ((a.1 ≡ b.1) × (a.2 < b.2))))

abbrev LeKey : Key → Key → Type 0
LeKey a b = (a.0 < b.0) ⊎ ((a.0 ≡ b.0) × ((a.1 < b.1) ⊎ ((a.1 ≡ b.1) × (a.2 ≤ b.2))))

LtKey-trans : (a b c : Key) → LtKey a b → LtKey b c → LtKey a c
LtKey-trans (a0, a1, a2) (b0, b1, b2) (c0, c1, c2) h k = ground arith

LtKey-irrefl : (a : Key) → LtKey a a → ⊥
LtKey-irrefl (a0, a1, a2) h = ground arith

LtKey-of_ne : (a b : Key) → LeKey a b → (((a.0 ≡ b.0) × (a.1 ≡ b.1) × (a.2 ≡ b.2)) → ⊥) → LtKey a b
LtKey-of_ne (a0, a1, a2) (b0, b1, b2) h ne = ground arith

module _ (m : MarshalApi) where
  abbrev key : ℕ → ℕ → ℕ → Key
  key kind dir type = (kind, type, dir_rank m dir)

  abbrev group_key : MarshalGroup → Key
  group_key g = key g.kind g.dir g.type

  abbrev pending_key : Pending → Key
  pending_key p = key p.kind p.dir p.type

  abbrev signal_key : FmuSignal → Key
  signal_key s = key s.variable_kind s.variable_dir s.variable_type

  -- The direction at a place of mDirOrder.
  abbrev dir_at : ℕ → ℕ
  dir_at r =
      if r == 0
      then m.dir_none
      else if r == 1
      then m.dir_local
      else if r == 2
      then m.dir_rxonly
      else if r == 3
      then m.dir_txrx
      else if r == 4
      then m.dir_txonly
      else m.dir_parameter

  dir_at-dir_rank : (d : ℕ) → occurs d (dir_order m) ≡ 1 → dir_at (dir_rank m d) ≡ d
  dir_at-dir_rank d h = ground arith

  dir_rank_injective :
      (d d' : ℕ)
      → occurs d (dir_order m) ≡ 1
      → occurs d' (dir_order m) ≡ 1
      → dir_rank m d ≡ dir_rank m d'
      → d ≡ d'
  dir_rank_injective d d' h h' r = sym (dir_at-dir_rank d h) ∙ ap dir_at r ∙ dir_at-dir_rank d' h'

  -- Two groups differ in kind, direction or type.
  abbrev pub OtherGroup : MarshalGroup → MarshalGroup → Type 0
  OtherGroup g f = ¬ ((g.kind ≡ f.kind) × (g.dir ≡ f.dir) × (g.type ≡ f.type))

  -- The emitted groups ascend and stand before the pending one, which does not stand after what is
  -- still to come.
  record Ascends (ss : List FmuSignal) (p : Pending) : Type 0 where
    counted : p.count ≡ length p.ref_list
    known : occurs p.dir (dir_order m) ≡ 1
    sized : (p.count ≡ 0) ⊎ (4 ≤ m.type_bytes p.type)
    ahead : All (λ s. LeKey (pending_key p) (signal_key s)) ss
    ascending : Pairs (λ g f. LtKey (group_key g) (group_key f)) p.mg_list
    behind : All (λ g. LtKey (group_key g) (pending_key p)) p.mg_list

  record Flushed (k : Key) (q : Pending) : Type 0 where
    cleared : q.ref_list ≡ []
    ascending : Pairs (λ g f. LtKey (group_key g) (group_key f)) q.mg_list
    behind : All (λ g. LtKey (group_key g) k) q.mg_list

  nil_of_count : (xs : List ℕ) (n : ℕ) → n ≡ length xs → n == 0 ≡ true → xs ≡ []
  nil_of_count [] n h z = refl
  nil_of_count (x ∷ xs) n h z = absurd (ground arith)

  -- `k` is a key after the pending one.
  emit-Flushed :
      (ss : List FmuSignal) (p : Pending) (k : Key)
      → Ascends ss p
      → LtKey (pending_key p) k
      → Returns (emit m p) (Flushed k)
  unfolding emit
  emit-Flushed ss p k a lt = elim (Bool-cases (p.count == 0)) [
    | inl e ↦ rw e (record {
      cleared = nil_of_count p.ref_list p.count a.counted e;
      ascending = a.ascending;
      behind = older;
    })
    | inr e ↦ rw e (
        Returns-bind (create_mg m p.kind p.dir p.type p.count p.offset p.ref_list) _ _ (Flushed k)
          (create_mg-Made m p.kind p.dir p.type p.count p.offset p.ref_list a.counted
            (sized_pending m p.count (m.type_bytes p.type) e a.sized))
          (λ g made.
            let same : group_key g ≡ pending_key p =
              rw (made.same_kind, made.same_dir, made.same_type) refl in
            record {
              cleared = refl;
              ascending =
                  Pairs-append _ p.mg_list (g ∷ []) a.ascending (tt, tt)
                    (All-map _ _ p.mg_list (λ f l. (subst (LtKey (group_key f)) (sym same) l, tt))
                      a.behind);
              behind =
                  All-append _ p.mg_list (g ∷ []) older (subst (λ j. LtKey j k) (sym same) lt, tt);
            }))
  ]
    where
      older : All (λ g. LtKey (group_key g) k) p.mg_list
      older =
          All-map _ _ p.mg_list (λ g l. LtKey-trans (group_key g) (pending_key p) k l lt) a.behind

  changed-LtKey :
      (ss : List FmuSignal) (p : Pending) (s : FmuSignal)
      → Ascends (s ∷ ss) p
      → InRange m s
      → changed p s ≡ true
      → LtKey (pending_key p) (signal_key s)
  unfolding changed
  changed-LtKey ss p s a r c = LtKey-of_ne (pending_key p) (signal_key s) a.ahead.0 (λ same.
      let d = dir_rank_injective p.dir s.variable_dir a.known r.dir_known same.2 in
      ground (arith, same.0, d, same.1))

  table_step-Ascends :
      (ss : List FmuSignal) (p : Pending) (s : FmuSignal)
      → Ascends (s ∷ ss) p
      → InRange m s
      → All (Before m s) ss
      → 4 ≤ m.type_bytes s.variable_type
      → Returns (table_step m p s) (Ascends ss)
  unfolding table_step
  table_step-Ascends ss p s a r b room = elim (Bool-cases (changed p s)) [
    | inl e ↦ rw e (
        Returns-bind (emit m p) _ (Flushed (signal_key s)) (Ascends ss)
          (emit-Flushed (s ∷ ss) p (signal_key s) a (changed-LtKey ss p s a r e))
          (λ q f. record {
            counted = rw f.cleared;
            known = r.dir_known;
            sized = inr room;
            ahead = b;
            ascending = f.ascending;
            behind = f.behind;
          }))
    | inr e ↦ rw e (record {
      counted = omega (arith, a.counted, length-append p.ref_list (s.variable_vref ∷ []));
      known = a.known;
      sized = inr (subst (λ t. 4 ≤ m.type_bytes t) (sym (unchanged p s e).2) room);
      ahead = a.ahead.1;
      ascending = a.ascending;
      behind = a.behind;
    })
  ]

  table_loop-Ascends :
      (ss : List FmuSignal) (p : Pending)
      → Ascends ss p
      → All (InRange m) ss
      → Pairs (Before m) ss
      → HaveRefRoom m ss
      → Returns (table_loop m p ss) (Ascends [])
  unfolding table_loop
  table_loop-Ascends [] p a r b room = a
  table_loop-Ascends (s ∷ ss) p a r b room =
      Returns-bind (table_step m p s) _ (Ascends ss) (Ascends [])
        (table_step-Ascends ss p s a r.0 b.0 room.0)
        (λ q f. table_loop-Ascends ss q f r.1 b.1 room.1)

  -- The first signal starts the first group; nothing is emitted for the empty one before it.
  first_step :
      (s : FmuSignal) (ss : List FmuSignal)
      → InRange m s
      → All (Before m s) ss
      → 4 ≤ m.type_bytes s.variable_type
      → Returns (table_step m (no_group m) s) (Ascends ss)
  unfolding table_step emit
  first_step s ss r b room = elim (Bool-cases (changed (no_group m) s)) [
    | inl e ↦ rw e (record {
      counted = refl;
      known = r.dir_known;
      sized = inr room;
      ahead = b;
      ascending = tt;
      behind = tt;
    })
    | inr e ↦ rw e (
        let (k, d, t) = unchanged (no_group m) s e in
        record {
          counted = refl;
          known = subst (λ j. occurs j (dir_order m) ≡ 1) (sym d) r.dir_known;
          sized = inr (subst (λ j. 4 ≤ m.type_bytes j) (sym t) room);
          ahead =
              subst (λ (j : Key). All (λ x. LeKey j (signal_key x)) ss)
                (λ i. (sym k i, sym t i, dir_rank m (sym d i))) b;
          ascending = tt;
          behind = tt;
        })
  ]

  ascending-OtherGroup :
      (table : List MarshalGroup)
      → Pairs (λ g f. LtKey (group_key g) (group_key f)) table
      → Pairs OtherGroup table
  ascending-OtherGroup [] h = tt
  ascending-OtherGroup (g ∷ gs) h = (
    All-map _ (OtherGroup g) gs
        (λ f lt same.
          LtKey-irrefl (group_key f)
            (subst (λ k. LtKey k (group_key f)) (rw (same.0, same.1, same.2) refl) lt))
        h.0,
    ascending-OtherGroup gs h.1,
  )

  finish :
      (p : Pending) → Ascends [] p → Returns (emit m p >>= λ q. some q.mg_list) (Pairs OtherGroup)
  finish p a =
      Returns-bind (emit m p) _ (Flushed (suc p.kind, 0, 0)) (Pairs OtherGroup)
        (emit-Flushed [] p (suc p.kind, 0, 0) a (inl (omega arith)))
        (λ q f. ascending-OtherGroup q.mg_list f.ascending)

  table-OtherGroup :
      (signals : List FmuSignal)
      → All (InRange m) signals
      → Pairs (Before m) signals
      → HaveRefRoom m signals
      → Returns (generate_marshal_table m signals) (Pairs OtherGroup)
  unfolding generate_marshal_table table_loop
  table-OtherGroup [] r b room = tt
  table-OtherGroup (s ∷ ss) r b room =
      Returns-bind (table_loop m (no_group m) (s ∷ ss)) _ (Ascends []) (Pairs OtherGroup)
        (Returns-bind (table_step m (no_group m) s) _ (Ascends ss) (Ascends [])
          (first_step s ss r.0 b.0 room.0) (λ q f. table_loop-Ascends ss q f r.1 b.1 room.1))
        finish

  -- For parsed signals of types whose values have at least four bytes, the table of marshal groups is
  -- made of them, and no two of its groups have the same kind, direction and type.
  pub parse_signals-OtherGroup :
      (e : IsEnum m) (y : YamlApi) (scalar_group network_group : List y.Node)
      → HaveRefRoom m (parse_signals m y scalar_group network_group)
      → Returns
          (generate_marshal_table m (parse_signals m y scalar_group network_group))
          (Pairs OtherGroup)
  parse_signals-OtherGroup e y scalar_group network_group room =
      table-OtherGroup (parse_signals m y scalar_group network_group)
        (parse_signals-InRange m e y scalar_group network_group)
        (parse_signals-perm m e y scalar_group network_group).1 room
