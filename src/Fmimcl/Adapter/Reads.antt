-- ===== src/Fmimcl/Adapter/Reads.antt =====
-- fmi2mcl_marshal_in: which groups are read from the FMU, and where an error stops it.
use dse_fmi.Common.{
  ℕ, ◌<◌, ◌≡◌, refl, ◌∙◌, ap, Bool, true, false, List, [], ◌∷◌, ◌++◌, map, All, length, sym, inl,
  inr, Bool-cases, ◌&&◌, ◌||◌, ltb, ◌==◌, ==_iff, if_elim, if◌then◌else◌, arith,
}
use dse_fmi.Fmimcl.Signals.{MarshalApi}
use dse_fmi.Fmimcl.Engine.{MarshalGroup, FmuData}
use dse_fmi.Fmimcl.Adapter.{Fmi2Api, ebadmsg, is_read, get_group, read_groups, marshal_in}
use dse_fmi.Fmimcl.Adapter.Assign.{listed}

module _ (f : Fmi2Api) (m : MarshalApi) where
  open f use {Inst}

  -- The get functions of the FMU leave its state as it is.
  pub record IsPure : Type 0 where
    pub real : (i : Inst) (r : List ℕ) (n : ℕ) (v : List ℕ) → (f.get_real i r n v).2 ≡ i
    pub integer : (i : Inst) (r : List ℕ) (n : ℕ) (v : List ℕ) → (f.get_integer i r n v).2 ≡ i
    pub boolean : (i : Inst) (r : List ℕ) (n : ℕ) (v : List ℕ) → (f.get_boolean i r n v).2 ≡ i
    pub string : (i : Inst) (r : List ℕ) (n : ℕ) (v : List ℕ) → (f.get_string i r n v).2 ≡ i

  -- The status of the call for the group; a group that is not read has none.
  abbrev pub read_status : Inst → MarshalGroup → ℕ
  read_status i mg = if is_read m mg then (get_group f m mg i).0 else 0

  -- The group with what the FMU gave for its references.
  abbrev pub refreshed : Inst → MarshalGroup → MarshalGroup
  refreshed i mg = record mg { ptr = if is_read m mg then (get_group f m mg i).1 else mg.ptr }

  get_group-pure : IsPure → (mg : MarshalGroup) (i : Inst) → (get_group f m mg i).2 ≡ i
  unfolding get_group
  get_group-pure p mg i =
      if_elim (λ (r : ℕ × List ℕ × Inst). r.2 ≡ i) (mg.type == m.type_double) _ _ (p.real i _ _ _)
        (if_elim (λ (r : ℕ × List ℕ × Inst). r.2 ≡ i) (mg.type == m.type_int32) _ _
          (p.integer i _ _ _)
          (if_elim (λ (r : ℕ × List ℕ × Inst). r.2 ≡ i) (mg.type == m.type_bool) _ _
            (p.boolean i _ _ _)
            (if_elim (λ (r : ℕ × List ℕ × Inst). r.2 ≡ i) (mg.type == m.type_string) _ _
              (p.string i _ _ _) refl)))

  -- The call for a group, made explicit.
  abbrev call : Inst → MarshalGroup → ℕ × List ℕ × Inst
  call i mg = if is_read m mg then get_group f m mg i else (0, mg.ptr, i)

  call-eq :
      IsPure
      → (i : Inst) (mg : MarshalGroup) → call i mg ≡ (read_status i mg, (refreshed i mg).ptr, i)
  call-eq p i mg = chosen (is_read m mg)
    where
      chosen :
          (b : Bool)
          → (if b then get_group f m mg i else (0, mg.ptr, i)) ≡ (
            (if b then (get_group f m mg i).0 else 0),
            (if b then (get_group f m mg i).1 else mg.ptr),
            i,
          )
      chosen true = λ j. ((get_group f m mg i).0, (get_group f m mg i).1, get_group-pure p mg i j)
      chosen false = refl

  read_groups-cons :
      (p : IsPure) (i : Inst) (mg : MarshalGroup) (groups : List MarshalGroup)
      → read_groups f m (mg ∷ groups) i ≡ (
          if ltb 0 (read_status i mg) then (ebadmsg, refreshed i mg ∷ groups, i) else (
            (read_groups f m groups i).0,
            refreshed i mg ∷ (read_groups f m groups i).1,
            (read_groups f m groups i).2,
          ))
  unfolding read_groups
  read_groups-cons p i mg groups =
      ap
        (λ (c : ℕ × List ℕ × Inst).
          if ltb 0 c.0 then (ebadmsg, record mg { ptr = c.1 } ∷ groups, c.2) else (
            (read_groups f m groups c.2).0,
            record mg { ptr = c.1 } ∷ (read_groups f m groups c.2).1,
            (read_groups f m groups c.2).2,
          ))
        (call-eq p i mg)

  read_groups-stops :
      (p : IsPure) (i : Inst) (before : List MarshalGroup) (mg : MarshalGroup)
      (after : List MarshalGroup)
      → All (λ g. read_status i g ≡ 0) before
      → 0 < read_status i mg
      → read_groups f m (before ++ mg ∷ after) i
        ≡ (ebadmsg, map (refreshed i) before ++ refreshed i mg ∷ after, i)
  read_groups-stops p i [] mg after h l =
      read_groups-cons p i mg after ∙ rw (positive (read_status i mg) l) refl
    where
      positive : (n : ℕ) → 0 < n → ltb 0 n ≡ true
      positive n k = ground (arith, k)
  read_groups-stops p i (g ∷ before) mg after h l =
      read_groups-cons p i g (before ++ mg ∷ after)
      ∙ rw (h.0, read_groups-stops p i before mg after h.1 l) refl

  -- When the get function fails for a group that is read, and for none before it,
  -- fmi2mcl_marshal_in returns EBADMSG: the groups up to and including that one have what the FMU
  -- gave, those behind it and the source vectors are as before, and marshal_group_in is not called.
  pub marshal_in-stops :
      (d : FmuData) (i : Inst) (before : List MarshalGroup) (mg : MarshalGroup)
      (after : List MarshalGroup)
      → IsPure
      → All (λ g. read_status i g ≡ 0) before
      → 0 < read_status i mg
      → marshal_in f m (record d { mg_table = before ++ mg ∷ after }) i
        ≡ (ebadmsg, record d { mg_table = map (refreshed i) before ++ refreshed i mg ∷ after }, i)
  unfolding marshal_in
  marshal_in-stops d i before mg after p h l =
      ap
        (λ (r : ℕ × List MarshalGroup × Inst). (
          r.0,
          (if r.0 == 0
              then f.marshal_group_in (record d { mg_table = r.1 })
              else record d { mg_table = r.1 }),
          r.2,
        ))
        (read_groups-stops p i before mg after h l)

  -- The FMU has a variable for each type and reference; a get function that is asked for as many
  -- variables as there are references succeeds, gives the variables of its type, and changes nothing.
  abbrev Gives : (Inst → ℕ → ℕ → ℕ) → ℕ → (Inst → List ℕ → ℕ → List ℕ → ℕ × List ℕ × Inst) → Type 0
  Gives value type get =
      (i : Inst) (r : List ℕ) (n : ℕ) (v : List ℕ)
      → n ≡ length r
      → get i r n v ≡ (0, map (value i type) r, i)

  pub record IsSource (value : Inst → ℕ → ℕ → ℕ) : Type 0 where
    pub real : Gives value m.type_double f.get_real
    pub integer : Gives value m.type_int32 f.get_integer
    pub boolean : Gives value m.type_bool f.get_boolean
    pub string : Gives value m.type_string f.get_string

  -- The group comes from the FMU, and its type is one of the four that FMI 2 has.
  abbrev pub is_imported : MarshalGroup → Bool
  is_imported mg =
      listed mg.dir (m.dir_txrx ∷ m.dir_rxonly ∷ m.dir_local ∷ [])
      && listed mg.type (m.type_double ∷ m.type_int32 ∷ m.type_bool ∷ m.type_string ∷ [])

  -- The group with the FMU's variables of its type and its references.
  abbrev pub imported : (Inst → ℕ → ℕ → ℕ) → Inst → MarshalGroup → MarshalGroup
  imported value i mg = record mg {
    ptr = if is_imported mg then map (value i mg.type) mg.ref else mg.ptr;
  }

  -- What a read of the group gives.
  abbrev Outcome : (Inst → ℕ → ℕ → ℕ) → Inst → MarshalGroup → Bool → ℕ × List ℕ × Inst → Type 0
  Outcome value i mg b r = r ≡ (0, (if b then map (value i mg.type) mg.ref else mg.ptr), i)

  -- One turn of the switch.
  choose :
      (value : Inst → ℕ → ℕ → ℕ) (i : Inst) (mg : MarshalGroup) (type : ℕ)
      (get : Inst → List ℕ → ℕ → List ℕ → ℕ × List ℕ × Inst) (c : Bool) (r : ℕ × List ℕ × Inst)
      → mg.count ≡ length mg.ref
      → Gives value type get
      → Outcome value i mg c r
      → Outcome value i mg
          (mg.type == type || c)
          (if mg.type == type then get i mg.ref mg.count mg.ptr else r)
  choose value i mg type get c r n g o = elim (Bool-cases (mg.type == type)) [
    | inl x ↦ rw x (
        g i mg.ref mg.count mg.ptr n
        ∙ ap (λ (t : ℕ). (0, map (value i t) mg.ref, i)) (sym ((==_iff mg.type type).0 x)))
    | inr x ↦ rw x o
  ]

  get_group-Outcome :
      (value : Inst → ℕ → ℕ → ℕ) (i : Inst) (mg : MarshalGroup)
      → IsSource value
      → mg.count ≡ length mg.ref
      → Outcome value i mg
          (listed mg.type (m.type_double ∷ m.type_int32 ∷ m.type_bool ∷ m.type_string ∷ []))
          (get_group f m mg i)
  unfolding get_group
  get_group-Outcome value i mg s n = choose value i mg m.type_double f.get_real _ _ n s.real (
      choose value i mg m.type_int32 f.get_integer _ _ n s.integer (
        choose value i mg m.type_bool f.get_boolean _ _ n s.boolean
          (choose value i mg m.type_string f.get_string false (0, mg.ptr, i) n s.string refl)))

  call-imported :
      (value : Inst → ℕ → ℕ → ℕ) (i : Inst) (mg : MarshalGroup)
      → IsSource value
      → mg.count ≡ length mg.ref
      → call i mg ≡ (0, (imported value i mg).ptr, i)
  unfolding is_read
  call-imported value i mg s n =
      ap (λ (b : Bool). if b then get_group f m mg i else (0, mg.ptr, i)) same
      ∙ chosen (listed mg.dir (m.dir_txrx ∷ m.dir_rxonly ∷ m.dir_local ∷ []))
    where
      same : is_read m mg ≡ listed mg.dir (m.dir_txrx ∷ m.dir_rxonly ∷ m.dir_local ∷ [])
      same = ground arith

      chosen :
          (b : Bool)
          → Outcome value i mg
              (b
                && listed mg.type (m.type_double ∷ m.type_int32 ∷ m.type_bool ∷ m.type_string ∷ []))
              (if b then get_group f m mg i else (0, mg.ptr, i))
      chosen true = get_group-Outcome value i mg s n
      chosen false = refl

  read_groups-imported :
      (value : Inst → ℕ → ℕ → ℕ) (i : Inst) (groups : List MarshalGroup)
      → IsSource value
      → All (λ mg. mg.count ≡ length mg.ref) groups
      → read_groups f m groups i ≡ (0, map (imported value i) groups, i)
  unfolding read_groups
  read_groups-imported value i [] s h = refl
  read_groups-imported value i (mg ∷ groups) s h =
      ap
        (λ (c : ℕ × List ℕ × Inst).
          if ltb 0 c.0 then (ebadmsg, record mg { ptr = c.1 } ∷ groups, c.2) else (
            (read_groups f m groups c.2).0,
            record mg { ptr = c.1 } ∷ (read_groups f m groups c.2).1,
            (read_groups f m groups c.2).2,
          ))
        (call-imported value i mg s h.0)
      ∙ rw (read_groups-imported value i groups s h.1) refl

  -- With an FMU whose get functions succeed, give for each type and reference the value of its
  -- variable, and leave its state as it is, and for groups that have as many references as they
  -- count, fmi2mcl_marshal_in returns 0; each group of direction TXRX, RXONLY or LOCAL and of type
  -- double, int32, bool or string has the values of the FMU's variables of this type and its
  -- references, in their order, the other groups have what they had; the source vectors are what
  -- marshal_group_in makes of these groups; and the state of the FMU is as before.
  pub marshal_in-refreshed :
      (value : Inst → ℕ → ℕ → ℕ) (d : FmuData) (i : Inst)
      → IsSource value
      → All (λ mg. mg.count ≡ length mg.ref) d.mg_table
      → marshal_in f m d i
        ≡ (0, f.marshal_group_in (record d { mg_table = map (imported value i) d.mg_table }), i)
  unfolding marshal_in
  marshal_in-refreshed value d i s h =
      ap
        (λ (r : ℕ × List MarshalGroup × Inst). (
          r.0,
          (if r.0 == 0
              then f.marshal_group_in (record d { mg_table = r.1 })
              else record d { mg_table = r.1 }),
          r.2,
        ))
        (read_groups-imported value i d.mg_table s h)
