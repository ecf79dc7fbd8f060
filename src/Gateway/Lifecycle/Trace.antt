-- ===== src/Gateway/Lifecycle/Trace.antt =====
-- The life of a gateway, from its creation through initialisations and steps to fmu_destroy.
use dse_fmi.Common.{
  ℕ, ◌+◌, ◌≤◌, ◌≡◌, refl, sym, ◌∙◌, ap, subst, true, false, Bool-cases, inl, inr, ◌⊎◌, Option, none,
  some, List, [], ◌∷◌, ◌++◌, All, ltb, ◌==◌, if◌then◌else◌, ◌>>=◌, Returns, Returns-bind,
  Returns-map, arith,
}
use dse_fmi.Fmu.Instance.{FmuInstanceData}
use dse_fmi.Index.Each.Found.{OkAll}
use dse_fmi.Index.Gateway.{
  ModelGatewayDesc, index_scalar_signals, index_binary_signals, index_text_encoding,
}
use dse_fmi.Index.Gateway.Scalars.{IsAnnotated, ScalarsIndexed, index_scalar_signals-latest}
use dse_fmi.Index.Gateway.Binaries.{BinariesIndexed, index_binary_signals-topology}
use dse_fmi.Index.Gateway.Encodings.{
  SignalHasEncoding, EncodingsIndexed, index_text_encoding-listed,
}
use dse_fmi.Gateway.State.{GatewayState, Call, Session, FmiGateway, System}
use dse_fmi.Gateway.Session.{called, before_init, session_start, session_end, teardown}
use dse_fmi.Gateway.Session.Commands.{
  IsCommand, RunsAtMostOne, session_start-RunsAtMostOne, end_by_runtime-Exits,
}
use dse_fmi.Gateway.Lifecycle.{
  index_signals, setup_ended, before_setup, step_ended, set_running, init_ended, fmu_setup,
  fmu_init, running_from, save_step, fmu_step, fmu_destroy,
}

-- What the FMU's owner asks for between creation and destruction.
pub data Action : Type 0 where
  init : Action
  step : ℕ → ℕ → Action

abbrev is_exit : Call → ℕ
is_exit (Call.setup rc) = 0
is_exit (Call.sync t rc) = 0
is_exit Call.exit = 1
is_exit (Call.command cmd end) = 0

abbrev is_connection : Call → ℕ
is_connection (Call.setup rc) = if rc == 0 then 1 else 0
is_connection (Call.sync t rc) = 0
is_connection Call.exit = 0
is_connection (Call.command cmd end) = 0

-- How often model_gw_exit was called.
abbrev pub exits : List Call → ℕ
exits [] = 0
exits (c ∷ cs) = is_exit c + exits cs

-- How often model_gw_setup succeeded.
abbrev pub connections : List Call → ℕ
connections [] = 0
connections (c ∷ cs) = is_connection c + connections cs

exits-append : (xs ys : List Call) → exits (xs ++ ys) ≡ exits xs + exits ys
exits-append [] ys = omega arith
exits-append (x ∷ xs) ys = omega (arith, exits-append xs ys)

connections-append : (xs ys : List Call) → connections (xs ++ ys) ≡ connections xs + connections ys
connections-append [] ys = omega arith
connections-append (x ∷ xs) ys = omega (arith, connections-append xs ys)

commands_neither : (cs : List Call) → All IsCommand cs → (exits cs ≡ 0) × (connections cs ≡ 0)
commands_neither [] h = (refl, refl)
commands_neither (Call.command cmd end ∷ cs) h =
    let (e, c) = commands_neither cs h.1 in (omega (arith, e), omega (arith, c))
commands_neither (Call.setup rc ∷ cs) h = absurd h.0
commands_neither (Call.sync t rc ∷ cs) h = absurd h.0
commands_neither (Call.exit ∷ cs) h = absurd h.0

-- A gateway is created until its first connection; none is stopped or terminated before the end.
abbrev pub Phase : GatewayState → ℕ → Type 0
Phase GatewayState.created n = n ≡ 0
Phase GatewayState.initialized n = 1 ≤ n
Phase GatewayState.running n = 1 ≤ n
Phase GatewayState.stopped n = ⊥
Phase GatewayState.terminated n = ⊥

pub record Alive (g : FmiGateway) : Type 0 where
  pub no_exit : exits g.calls ≡ 0
  pub phase : Phase g.state (connections g.calls)

ran-Alive : (g r : FmiGateway) → RunsAtMostOne g r → Alive g → Alive r
ran-Alive g r ran h =
    let (no_exits, no_connections) = commands_neither ran.cmds ran.commands in
    let count : connections r.calls ≡ connections g.calls =
      ap connections ran.calls
      ∙ omega (arith, connections-append g.calls ran.cmds, no_connections) in
    record {
      no_exit =
          ap exits ran.calls ∙ omega (arith, exits-append g.calls ran.cmds, no_exits, h.no_exit);
      phase =
          subst (λ s. Phase s (connections r.calls)) (sym ran.state)
            (subst (Phase g.state) (sym count) h.phase);
    }

module _ (sys : System) where
  -- The signals that a setup brings have the annotations that the indexes need.
  abbrev pub IsIndexable : Type 0
  IsIndexable =
      (g : FmiGateway)
      → IsAnnotated sys.index (sys.gw_setup g).1.sv
        × OkAll (SignalHasEncoding sys.index) (sys.gw_setup g).1.instance_list

  abbrev pub Anything : {A : Type 0} → A → Type 0
  Anything a = Unit {0}

  pub index_signals-Returns :
      (fmu : FmuInstanceData) (gw : ModelGatewayDesc)
      → IsAnnotated sys.index gw.sv
      → OkAll (SignalHasEncoding sys.index) gw.instance_list
      → Returns (index_signals sys fmu gw) Anything
  unfolding index_signals
  index_signals-Returns fmu gw h k =
      Returns-bind (index_scalar_signals sys.index fmu gw) _ (ScalarsIndexed sys.index gw.sv fmu)
        Anything (index_scalar_signals-latest sys.index fmu gw h)
        (λ a _.
          Returns-bind (index_binary_signals sys.index a gw) _
            (BinariesIndexed sys.index gw.instance_list a) Anything
            (index_binary_signals-topology sys.index a gw)
            (λ b _.
              Returns-map (index_text_encoding sys.index b gw)
                (EncodingsIndexed sys.index gw.instance_list b) Anything
                (index_text_encoding-listed sys.index b gw k) (λ c _. tt)))

  setup_ended-Alive :
      (g : FmiGateway) (rc : ℕ) (gw : ModelGatewayDesc)
      → IsAnnotated sys.index gw.sv
      → OkAll (SignalHasEncoding sys.index) gw.instance_list
      → Alive g
      → Returns (setup_ended sys (called g (Call.setup rc)) rc gw) (λ r. Alive r.0)
  unfolding setup_ended
  setup_ended-Alive g rc gw k l h = elim (Bool-cases (rc == 0)) [
    | inl e ↦ rw e (
        Returns-bind (index_signals sys _ gw) _ Anything _ (index_signals-Returns _ gw k l)
          (λ fmu _. record {
            no_exit = omega (arith, exits-append g.calls (Call.setup rc ∷ []), h.no_exit);
            phase = ground (arith, e, connections-append g.calls (Call.setup rc ∷ []));
          }))
    | inr e ↦ rw e (record {
      no_exit = omega (arith, exits-append g.calls (Call.setup rc ∷ []), h.no_exit);
      phase =
          subst (Phase g.state) (ground (arith, e, connections-append g.calls (Call.setup rc ∷ [])))
            h.phase;
    })
  ]

  init_ended-Alive :
      (g : FmiGateway) (rc : ℕ)
      → IsIndexable
      → Alive g
      → Returns (init_ended sys g rc) (λ r. Alive r.0)
  unfolding init_ended fmu_setup
  init_ended-Alive g rc k h = elim (Bool-cases (rc == 0)) [
    | inl e ↦
        let told = before_setup sys g in
        rw e (
          setup_ended-Alive told (sys.gw_setup told).0 (sys.gw_setup told).1 (k told).0 (k told).1
            (record { no_exit = h.no_exit; phase = h.phase }))
    | inr e ↦ rw e h
  ]

  fmu_init-Alive :
      (g : FmiGateway) → IsIndexable → Alive g → Returns (fmu_init sys g) (λ r. Alive r.0)
  unfolding fmu_init
  fmu_init-Alive g k h =
      init_ended-Alive (session_start sys g).0 (session_start sys g).1 k
        (ran-Alive g (session_start sys g).0 (session_start-RunsAtMostOne sys g) h)

  save_step-Alive :
      (g : FmiGateway) (t s : ℕ) (o : Option Session) → Alive g → Alive (save_step g t s o)
  save_step-Alive g t s none h = h
  save_step-Alive g t s (some session) h = record { no_exit = h.no_exit; phase = h.phase }

  step_ended-Alive : (g : FmiGateway) (rc t s : ℕ) → Alive g → Alive (step_ended sys g rc t s).0
  unfolding step_ended
  step_ended-Alive g rc t s h = elim (Bool-cases (rc == sys.e_gatewaybehind)) [
    | inl e ↦ rw e h
    | inr e ↦ rw e (save_step-Alive g t s g.session h)
  ]

  running-Phase : (s : GatewayState) (n : ℕ) → Phase s n → Phase (running_from s) n
  running-Phase GatewayState.created n h = h
  running-Phase GatewayState.initialized n h = h
  running-Phase GatewayState.running n h = h
  running-Phase GatewayState.stopped n h = h
  running-Phase GatewayState.terminated n h = h

  fmu_step-Alive : (g : FmiGateway) (t s : ℕ) → Alive g → Alive (fmu_step sys g t s).0
  unfolding fmu_step
  fmu_step-Alive g t s h =
      let rc = sys.gw_sync (set_running sys g) t in
      step_ended-Alive (called (set_running sys g) (Call.sync t rc)) rc t s (record {
        no_exit = omega (arith, exits-append g.calls (Call.sync t rc ∷ []), h.no_exit);
        phase =
            subst (Phase (running_from g.state))
              (omega (arith, connections-append g.calls (Call.sync t rc ∷ [])))
              (running-Phase g.state (connections g.calls) h.phase);
      })

  unfoldable pub act : FmiGateway → Action → Option FmiGateway
  act g init = do (r, rc) ← fmu_init sys g; some r
  act g (step time step_size) = some (fmu_step sys g time step_size).0

  unfoldable pub run : List Action → FmiGateway → Option FmiGateway
  unfolding act
  run [] g = some g
  run (a ∷ rest) g = do next ← act g a; run rest next

  act-Alive : (g : FmiGateway) (a : Action) → IsIndexable → Alive g → Returns (act g a) Alive
  unfolding act
  act-Alive g init k h =
      Returns-bind (fmu_init sys g) _ (λ r. Alive r.0) Alive (fmu_init-Alive g k h) (λ r a. a)
  act-Alive g (step time step_size) k h = fmu_step-Alive g time step_size h

  run-Alive :
      (actions : List Action) (g : FmiGateway)
      → IsIndexable
      → Alive g
      → Returns (run actions g) Alive
  unfolding run
  run-Alive [] g k h = h
  run-Alive (a ∷ rest) g k h =
      Returns-bind (act g a) _ Alive Alive (act-Alive g a k h) (λ r alive. run-Alive rest r k alive)

  is_early :
      (s : GatewayState) (n : ℕ)
      → Phase s n
      → ((before_init s ≡ true) × (n ≡ 0)) ⊎ ((before_init s ≡ false) × (1 ≤ n))
  is_early GatewayState.created n h = inl (refl, h)
  is_early GatewayState.initialized n h = inr (refl, h)
  is_early GatewayState.running n h = inr (refl, h)
  is_early GatewayState.stopped n h = absurd h
  is_early GatewayState.terminated n h = absurd h

  destroyed-exits :
      (g : FmiGateway)
      → Alive g
      → exits (fmu_destroy sys g).0.calls ≡ (if ltb 0 (connections g.calls) then 1 else 0)
  unfolding fmu_destroy session_end teardown
  destroyed-exits g h = elim (is_early g.state (connections g.calls) h.phase) [
    | inl (e, c) ↦ rw e (ground (arith, c, h.no_exit))
    | inr (e, c) ↦
        let end = end_by_runtime-Exits sys g g.runtime g.session in
        rw e (
          ap exits end.calls
          ∙ ground (
            arith,
            c,
            h.no_exit,
            exits-append g.calls (Call.exit ∷ end.cmds),
            (commands_neither end.cmds end.commands).0,
          ))
  ]

  -- However often a new gateway is initialised and stepped, in any order and with any outcome of the
  -- scripts, of model_gw_setup and of model_gw_sync, as long as the signals have the annotations that
  -- the indexes need: the calls return, no model_gw_exit is called before fmu_destroy, and fmu_destroy
  -- ends in the state TERMINATED, having called it once if model_gw_setup has succeeded and never
  -- otherwise.
  pub fmu_destroy-exits_once :
      (g : FmiGateway) (actions : List Action)
      → IsIndexable
      → g.state ≡ GatewayState.created
      → exits g.calls ≡ 0
      → connections g.calls ≡ 0
      → Returns (run actions g) (λ r.
        (exits r.calls ≡ 0)
        × ((fmu_destroy sys r).0.state ≡ GatewayState.terminated)
        × (exits (fmu_destroy sys r).0.calls ≡ (if ltb 0 (connections r.calls) then 1 else 0)))
  unfolding fmu_destroy
  fmu_destroy-exits_once g actions k e x c =
      Returns-map (run actions g) Alive _
        (run-Alive actions g k
          (record { no_exit = x; phase = subst (λ s. Phase s (connections g.calls)) (sym e) c }))
        (λ r alive. (alive.no_exit, refl, destroyed-exits r alive))
