-- ===== src/Gateway/Lifecycle/Outcome.antt =====
-- fmu_init of the gateway: when it succeeds, and what it calls.
use dse_fmi.Common.{
  ℕ, ◌≡◌, refl, sym, ◌∙◌, ap, Bool, true, false, Bool-cases, inl, inr, Option, none, some, [], ◌∷◌,
  ◌++◌, Bytes, append-nil, ◌==◌, ==_iff, if◌then◌else◌, Returns, Returns-bind, Returns-map,
}
use dse_fmi.Index.Each.Found.{OkAll}
use dse_fmi.Index.Gateway.{ModelGatewayDesc}
use dse_fmi.Index.Gateway.Scalars.{IsAnnotated}
use dse_fmi.Index.Gateway.Encodings.{SignalHasEncoding}
use dse_fmi.Gateway.State.{GatewayState, Call, FmiGateway, System}
use dse_fmi.Gateway.Session.{
  called, told, with_envar, cmd_code, run_cmd, fmigateway_run_cmd, start_ended, startup,
  session_start,
}
use dse_fmi.Gateway.Session.Commands.{run_cmd_end-code, session_start-RunsAtMostOne}
use dse_fmi.Gateway.Lifecycle.{
  index_signals, setup_ended, before_setup, init_ended, fmu_setup, fmu_init,
}
use dse_fmi.Gateway.Lifecycle.Trace.{IsIndexable, index_signals-Returns}

module _ (sys : System) where
  -- The code of the startup command: the script beside the FMU, or else the configured one, or none.
  abbrev pub command_code : FmiGateway → Option Bytes → ℕ
  command_code g none = 0
  command_code g (some cmd) = cmd_code (sys.shell (told sys (with_envar sys g) cmd) cmd)

  abbrev pub startup_code : FmiGateway → ℕ
  startup_code g = command_code g (startup sys g)

  run_cmd-code : (g : FmiGateway) (o : Option Bytes) → (run_cmd sys g o).1 ≡ command_code g o
  unfolding run_cmd fmigateway_run_cmd
  run_cmd-code g none = refl
  run_cmd-code g (some cmd) =
      let h = told sys (with_envar sys g) cmd in
      run_cmd_end-code (called h (Call.command cmd (sys.shell h cmd))) (sys.shell h cmd)
        (λ format. sys.cmd_text format cmd)

  start_ended-code : (g : FmiGateway) (rc : ℕ) → (start_ended sys g rc).1 ≡ rc
  unfolding start_ended
  start_ended-code g rc = elim (Bool-cases (rc == 0)) [
    | inl e ↦ rw e (sym ((==_iff rc 0).0 e))
    | inr e ↦ rw e refl
  ]

  session_start-code : (g : FmiGateway) → (session_start sys g).1 ≡ startup_code g
  unfolding session_start
  session_start-code g =
      start_ended-code (run_cmd sys g (startup sys g)).0 (run_cmd sys g (startup sys g)).1
      ∙ run_cmd-code g (startup sys g)

  -- The gateway as model_gw_setup meets it, and its code.
  abbrev pub met : FmiGateway → FmiGateway
  met g = before_setup sys (session_start sys g).0

  abbrev pub setup_code : FmiGateway → ℕ
  setup_code g = (sys.gw_setup (met g)).0

  abbrev pub InitOutcome : FmiGateway → FmiGateway × ℕ → Type 0
  InitOutcome g r =
      (r.1 ≡ (if startup_code g == 0 then setup_code g else startup_code g))
      × (r.0.state ≡ (if r.1 == 0 then GatewayState.initialized else g.state))
      × (r.0.calls
          ≡ (session_start sys g).0.calls
            ++ (if startup_code g == 0 then Call.setup (setup_code g) ∷ [] else []))

  record Set (g : FmiGateway) (rc : ℕ) (r : FmiGateway × ℕ) : Type 0 where
    code : r.1 ≡ rc
    state : r.0.state ≡ (if rc == 0 then GatewayState.initialized else g.state)
    calls : r.0.calls ≡ g.calls

  setup_ended-Set :
      (g : FmiGateway) (rc : ℕ) (gw : ModelGatewayDesc)
      → IsAnnotated sys.index gw.sv
      → OkAll (SignalHasEncoding sys.index) gw.instance_list
      → Returns (setup_ended sys g rc gw) (Set g rc)
  unfolding setup_ended
  setup_ended-Set g rc gw k l = elim (Bool-cases (rc == 0)) [
    | inl e ↦ rw e (
        Returns-bind (index_signals sys _ gw) _ (λ f. Unit {0}) (Set g rc)
          (index_signals-Returns sys _ gw k l)
          (λ fmu _. record {
            code = sym ((==_iff rc 0).0 e);
            state = sym (by_code e);
            calls = refl;
          }))
    | inr e ↦ rw e (record { code = refl; state = sym (by_code e); calls = refl })
  ]
    where
      by_code :
          {b : Bool}
          → (rc == 0) ≡ b
          → (if rc == 0 then GatewayState.initialized else g.state)
            ≡ (if b then GatewayState.initialized else g.state)
      by_code e = ap (λ b. if b then GatewayState.initialized else g.state) e

  outcome_of :
      (g : FmiGateway) (r : FmiGateway × ℕ)
      → (startup_code g == 0) ≡ true
      → Set (called (met g) (Call.setup (setup_code g))) (setup_code g) r
      → InitOutcome g r
  outcome_of g r e s =
      let ran = session_start-RunsAtMostOne sys g in
      (
        s.code ∙ rw e refl,
        s.state
            ∙ ap (λ n. if n == 0 then GatewayState.initialized else (session_start sys g).0.state)
                (sym s.code)
            ∙ ap (λ t. if r.1 == 0 then GatewayState.initialized else t) ran.state,
        s.calls ∙ rw e refl,
      )

  -- When the signals have the annotations that the indexes need, fmu_init of the gateway returns the
  -- code of the startup command if that is not 0, and the code of model_gw_setup otherwise;
  -- model_gw_setup is called only after a startup command with code 0, once; and the state becomes
  -- INITIALIZED if the result is 0, and is left alone otherwise.
  pub fmu_init-outcome :
      (g : FmiGateway) → IsIndexable sys → Returns (fmu_init sys g) (InitOutcome g)
  unfolding fmu_init init_ended fmu_setup
  fmu_init-outcome g k =
      let c = session_start-code g in
      elim (Bool-cases ((session_start sys g).1 == 0)) [
        | inl e ↦ rw e (
            Returns-map
              (setup_ended sys (called (met g) (Call.setup (setup_code g))) (setup_code g)
                (sys.gw_setup (met g)).1)
              (Set (called (met g) (Call.setup (setup_code g))) (setup_code g)) (InitOutcome g)
              (setup_ended-Set (called (met g) (Call.setup (setup_code g))) (setup_code g)
                (sys.gw_setup (met g)).1 (k (met g)).0 (k (met g)).1)
              (λ r s. outcome_of g r (ap (λ n. n == 0) (sym c) ∙ e) s))
        | inr e ↦
            let f : (startup_code g == 0) ≡ false = ap (λ n. n == 0) (sym c) ∙ e in
            rw e (
              c ∙ ap (λ b. if b then setup_code g else startup_code g) (sym f),
              (session_start-RunsAtMostOne sys g).state
                  ∙ ap (λ b. if b then GatewayState.initialized else g.state) (sym e),
              sym (append-nil (session_start sys g).0.calls)
                  ∙ ap
                      (λ b.
                        (session_start sys g).0.calls
                        ++ (if b then Call.setup (setup_code g) ∷ [] else []))
                      (sym f),
            )
      ]
