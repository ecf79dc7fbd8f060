-- ===== src/Fmimcl/Engine/Table.antt =====
-- The marshal table splits the signals into consecutive groups, and loses none.
use mathlib.Core.List.{append_assoc, append-nil}
use dse_fmi.Common.{
  ℕ, zero, suc, ◌+◌, ◌*◌, ◌≡◌, ◌<◌, ◌≤◌, ◌⊎◌, refl, sym, ◌∙◌, ap, true, false, All, leb, inl, inr,
  List, [], ◌∷◌, ◌++◌, map, length, length-append, take-length, map-snoc, arith, Bool-cases, ◌==◌,
  ==_iff, Returns, Returns-bind,
}
use mathlib.Core.Path.{subst}
use dse_fmi.Fmimcl.Signals.{MarshalApi, FmuSignal}
use dse_fmi.Fmimcl.Engine.{
  MarshalGroup, Pending, create_mg, emit, has_ref_room, changed, table_step, table_loop, no_group,
  generate_marshal_table,
}

-- What a marshal group says of one signal: its kind, direction and type, and its value reference.
abbrev pub Entry : Type 0
Entry = ℕ × ℕ × ℕ × ℕ

abbrev pub entry : ℕ → ℕ → ℕ → ℕ → Entry
entry kind dir type vref = (kind, dir, type, vref)

abbrev pub signal_entry : FmuSignal → Entry
signal_entry s = (s.variable_kind, s.variable_dir, s.variable_type, s.variable_vref)

abbrev pub group_entries : MarshalGroup → List Entry
group_entries g = map (entry g.kind g.dir g.type) g.ref

abbrev pub table_entries : List MarshalGroup → List Entry
table_entries [] = []
table_entries (g ∷ gs) = group_entries g ++ table_entries gs

-- The groups take the source vector from `start` to `end` without a gap, none is empty, and each has
-- as many references as it counts.
abbrev pub Chained : ℕ → List MarshalGroup → ℕ → Type 0
Chained start [] end = start ≡ end
Chained start (g ∷ gs) end =
    (g.offset ≡ start) × (0 < g.count) × (length g.ref ≡ g.count) × Chained (start + g.count) gs end

Chained-append :
    (start mid : ℕ) (gs : List MarshalGroup) (g : MarshalGroup)
    → Chained start gs mid
    → g.offset ≡ mid
    → 0 < g.count
    → length g.ref ≡ g.count
    → Chained start (gs ++ g ∷ []) (mid + g.count)
Chained-append start mid [] g h o c l = (o ∙ sym h, c, l, ap (λ (n : ℕ). n + g.count) h)
Chained-append start mid (f ∷ gs) g h o c l =
    (h.0, h.1, h.2, Chained-append (start + f.count) mid gs g h.3 o c l)

table_entries-append :
    (gs : List MarshalGroup) (g : MarshalGroup)
    → table_entries (gs ++ g ∷ []) ≡ table_entries gs ++ group_entries g
table_entries-append [] g = append-nil (group_entries g)
table_entries-append (f ∷ gs) g =
    rw (table_entries-append gs g)
      (sym (append_assoc (group_entries f) (table_entries gs) (group_entries g)))

abbrev pending_entries : Pending → List Entry
pending_entries p = map (entry p.kind p.dir p.type) p.ref_list

-- The same after the pending group was emitted.
record Emitted (seen : List FmuSignal) (q : Pending) : Type 0 where
  cleared : q.ref_list ≡ []
  complete : table_entries q.mg_list ≡ map signal_entry seen
  chained : Chained 0 q.mg_list (q.offset + q.count)
  total : q.offset + q.count ≡ length seen

nil_of_length : {A : Type 0} (xs : List A) → length xs ≡ 0 → xs ≡ []
nil_of_length [] h = refl
nil_of_length (x ∷ xs) h = absurd (omega arith)

pub unchanged :
    (p : Pending) (s : FmuSignal)
    → changed p s ≡ false
    → (p.kind ≡ s.variable_kind) × (p.dir ≡ s.variable_dir) × (p.type ≡ s.variable_type)
unfolding changed
unchanged p s h = (ground arith, ground arith, ground arith)

-- The group describes the listed references.
pub record Made (kind dir type count offset : ℕ) (refs : List ℕ) (g : MarshalGroup) : Type 0 where
  pub same_kind : g.kind ≡ kind
  pub same_dir : g.dir ≡ dir
  pub same_type : g.type ≡ type
  pub same_count : g.count ≡ count
  pub same_offset : g.offset ≡ offset
  pub same_ref : g.ref ≡ refs

-- The table describes the signals in their order, and its groups take the source vector from 0 to
-- the number of signals.
pub record Partitions (signals : List FmuSignal) (table : List MarshalGroup) : Type 0 where
  pub complete : table_entries table ≡ map signal_entry signals
  pub chained : Chained 0 table (length signals)

-- The type of each signal has at least the four bytes of a reference.
abbrev pub HaveRefRoom : MarshalApi → List FmuSignal → Type 0
HaveRefRoom m signals = All (λ s. 4 ≤ m.type_bytes s.variable_type) signals

module _ (m : MarshalApi) where
  -- After the signals `seen`, what is emitted and what is pending describe just these, and there is
  -- room for the references of what is pending.
  record Describes (seen : List FmuSignal) (p : Pending) : Type 0 where
    counted : p.count ≡ length p.ref_list
    complete : table_entries p.mg_list ++ pending_entries p ≡ map signal_entry seen
    chained : Chained 0 p.mg_list p.offset
    total : p.offset + p.count ≡ length seen
    sized : (p.count ≡ 0) ⊎ (4 ≤ m.type_bytes p.type)

  ref_room : (count type : ℕ) → 4 ≤ m.type_bytes type → has_ref_room m count type ≡ true
  ref_room count type h = fits count (m.type_bytes type) h
    where
      less : (c b : ℕ) → 4 ≤ b → c * 4 ≤ c * b
      less zero b h = omega arith
      less (suc c) b h = grind (arith, less c b h)

      fits : (c b : ℕ) → 4 ≤ b → leb (c * 4) (c * b) ≡ true
      fits c b h = ground (arith, less c b h)

  pub sized_pending : (count bytes : ℕ) → count == 0 ≡ false → (count ≡ 0) ⊎ (4 ≤ bytes) → 4 ≤ bytes
  sized_pending count bytes e h = ground arith

  pub create_mg-Made :
      (kind dir type count offset : ℕ) (refs : List ℕ)
      → count ≡ length refs
      → 4 ≤ m.type_bytes type
      → Returns (create_mg m kind dir type count offset refs) (Made kind dir type count offset refs)
  unfolding create_mg
  create_mg-Made kind dir type count offset refs h k =
      rw ((==_iff count (length refs)).1 h, ref_room count type k)
        (record {
          same_kind = refl;
          same_dir = refl;
          same_type = refl;
          same_count = refl;
          same_offset = refl;
          same_ref = take-length count refs h;
        })

  emit-Emitted :
      (seen : List FmuSignal) (p : Pending) → Describes seen p → Returns (emit m p) (Emitted seen)
  unfolding emit
  emit-Emitted seen p d = elim (Bool-cases (p.count == 0)) [
    | inl e ↦ rw e (idle (ground arith))
    | inr e ↦ rw e (
        Returns-bind (create_mg m p.kind p.dir p.type p.count p.offset p.ref_list) _ _
          (Emitted seen)
          (create_mg-Made p.kind p.dir p.type p.count p.offset p.ref_list d.counted
            (sized_pending p.count (m.type_bytes p.type) e d.sized))
          (λ g made. record {
            cleared = refl;
            complete =
                table_entries-append p.mg_list g
                ∙ rw (made.same_kind, made.same_dir, made.same_type, made.same_ref) d.complete;
            chained = rw (← made.same_count) (
                Chained-append 0 p.offset p.mg_list g d.chained made.same_offset
                  (ground (arith, made.same_count))
                  (ap length made.same_ref ∙ sym d.counted ∙ sym made.same_count));
            total = d.total;
          }))
  ]
    where
      idle : p.count ≡ 0 → Emitted seen p
      idle z =
          let none_pending : p.ref_list ≡ [] = nil_of_length p.ref_list (sym d.counted ∙ z) in
          record {
            cleared = none_pending;
            complete = rw (none_pending, append-nil) at d.complete;
            chained = subst (λ (n : ℕ). Chained 0 p.mg_list n) (omega arith) d.chained;
            total = d.total;
          }

  table_step-Describes :
      (seen : List FmuSignal) (p : Pending) (s : FmuSignal)
      → Describes seen p
      → 4 ≤ m.type_bytes s.variable_type
      → Returns (table_step m p s) (Describes (seen ++ s ∷ []))
  unfolding table_step
  table_step-Describes seen p s d room = elim (Bool-cases (changed p s)) [
    | inl e ↦ rw e (
        Returns-bind (emit m p) _ (Emitted seen) (Describes (seen ++ s ∷ []))
          (emit-Emitted seen p d)
          (λ q f. record {
            counted = rw f.cleared;
            complete = rw (f.cleared, f.complete) (sym (map-snoc signal_entry seen s));
            chained = f.chained;
            total = omega (arith, f.total, length-append seen (s ∷ []));
            sized = inr room;
          }))
    | inr e ↦ rw e (record {
      counted = omega (arith, d.counted, length-append p.ref_list (s.variable_vref ∷ []));
      complete =
          let (k, dr, t) = unchanged p s e in
          let own : List Entry = entry p.kind p.dir p.type s.variable_vref ∷ [] in
          ap (λ (l : List Entry). table_entries p.mg_list ++ l)
            (map-snoc (entry p.kind p.dir p.type) p.ref_list s.variable_vref)
          ∙ sym (append_assoc (table_entries p.mg_list) (pending_entries p) own)
          ∙ ap (λ (l : List Entry). l ++ own) d.complete
          ∙ rw (k, dr, t) (sym (map-snoc signal_entry seen s));
      chained = d.chained;
      total = omega (arith, d.total, length-append seen (s ∷ []));
      sized = inr (subst (λ t. 4 ≤ m.type_bytes t) (sym (unchanged p s e).2) room);
    })
  ]

  table_loop-Describes :
      (ss seen : List FmuSignal) (p : Pending)
      → Describes seen p
      → HaveRefRoom m ss
      → Returns (table_loop m p ss) (Describes (seen ++ ss))
  unfolding table_loop
  table_loop-Describes [] seen p d room = rw append-nil d
  table_loop-Describes (s ∷ ss) seen p d room =
      Returns-bind (table_step m p s) _ (Describes (seen ++ s ∷ [])) (Describes (seen ++ s ∷ ss))
        (table_step-Describes seen p s d room.0)
        (λ q f. rw append_assoc at (table_loop-Describes ss (seen ++ s ∷ []) q f room.1))

  -- For signals of types whose values have at least four bytes, none of the assertions of `_create_mg`
  -- fails and no reference is written behind its array, and the table that results lists
  -- each signal's kind, direction, type and value reference once, in the order of the signals; its
  -- groups are not empty, have as many references as they count, and their offsets and counts cover
  -- the source vector from 0 to the number of signals without gap or overlap.
  pub generate_marshal_table-Partitions :
      (signals : List FmuSignal)
      → HaveRefRoom m signals
      → Returns (generate_marshal_table m signals) (Partitions signals)
  unfolding generate_marshal_table
  generate_marshal_table-Partitions signals room =
      Returns-bind (table_loop m (no_group m) signals) _ (Describes signals) (Partitions signals)
        (table_loop-Describes signals [] (no_group m)
          (record {
            counted = refl;
            complete = refl;
            chained = refl;
            total = omega arith;
            sized = inl refl;
          })
          room)
        (λ p d.
          Returns-bind (emit m p) _ (Emitted signals) (Partitions signals)
            (emit-Emitted signals p d)
            (λ q f. record {
              complete = f.complete;
              chained = subst (Chained 0 q.mg_list) f.total f.chained;
            }))
