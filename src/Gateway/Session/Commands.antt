-- ===== src/Gateway/Session/Commands.antt =====
-- What the session functions leave alone, and the calls that they make.
use dse_fmi.Common.{
  ℕ, ◌≤◌, ◌≡◌, refl, sym, ◌∙◌, ap, Bool-cases, inl, inr, Option, none, some, List, [], ◌∷◌, ◌++◌,
  length, All, Bytes, append-nil, append_assoc, ◌==◌, if_elim, arith, subst,
}
use dse_fmi.Fmu.Instance.{FmuInstanceData}
use dse_fmi.Gateway.State.{
  RuntimeType, legacy, simer, CmdEnd, fork_failed, wait_failed, exited, killed, Call, Session,
  FmiGateway, System,
}
use dse_fmi.Gateway.Session.{
  called, told, with_envar, cmd_code, model_gw_exit, run_cmd_end, run_by_runtime,
  fmigateway_run_cmd, run_cmd, start_ended, startup, session_start, scripts_ended, shutdown,
  end_scripts, end_by_runtime, shutdown_models, stop_simer, teardown,
}

abbrev pub IsCommand : Call → Type 0
IsCommand (Call.setup rc) = ⊥
IsCommand (Call.sync t rc) = ⊥
IsCommand Call.exit = ⊥
IsCommand (Call.command cmd end) = Unit {0}

-- Only the log, the environment and the calls change, by at most one command that is run.
pub record RunsAtMostOne (g r : FmiGateway) : Type 0 where
  pub state : r.state ≡ g.state
  pub runtime : r.runtime ≡ g.runtime
  pub session : r.session ≡ g.session
  pub cmds : List Call
  pub calls : r.calls ≡ g.calls ++ cmds
  pub commands : All IsCommand cmds
  pub at_most_one : length cmds ≤ 1

abbrev relog : FmiGateway → FmuInstanceData → FmiGateway
relog g fmu = record g { fmu = fmu }

run_cmd_end-relog :
    (g : FmiGateway) (end : CmdEnd) (text : Bytes → Bytes)
    → (run_cmd_end g end text).0 ≡ relog g (run_cmd_end g end text).0.fmu
unfolding run_cmd_end
run_cmd_end-relog g fork_failed text = refl
run_cmd_end-relog g wait_failed text = refl
run_cmd_end-relog g (exited code) text =
    if_elim (λ (r : FmiGateway × ℕ). r.0 ≡ record g { fmu = r.0.fmu }) (code == 0) _ _ refl refl
run_cmd_end-relog g killed text = refl

pub run_cmd_end-code :
    (g : FmiGateway) (end : CmdEnd) (text : Bytes → Bytes)
    → (run_cmd_end g end text).1 ≡ cmd_code end
unfolding run_cmd_end
run_cmd_end-code g fork_failed text = refl
run_cmd_end-code g wait_failed text = refl
run_cmd_end-code g (exited code) text = elim (Bool-cases (code == 0)) [
  | inl e ↦ rw e refl
  | inr e ↦ rw e refl
]
run_cmd_end-code g killed text = refl

none_run : (g : FmiGateway) → RunsAtMostOne g g
none_run g = record {
  state = refl;
  runtime = refl;
  session = refl;
  cmds = [];
  calls = sym (append-nil g.calls);
  commands = tt;
  at_most_one = omega arith;
}

ends-RunsAtMostOne :
    (g h : FmiGateway) (cmd : Bytes) (end : CmdEnd) (text : Bytes → Bytes)
    → h ≡ record g { fmu = h.fmu; environment = h.environment }
    → RunsAtMostOne g (run_cmd_end (called h (Call.command cmd end)) end text).0
ends-RunsAtMostOne g h cmd end text e =
    let told = called h (Call.command cmd end) in
    let after = run_cmd_end-relog told end text in
    record {
      state = ap (λ x. x.state) after ∙ ap (λ x. x.state) e;
      runtime = ap (λ x. x.runtime) after ∙ ap (λ x. x.runtime) e;
      session = ap (λ x. x.session) after ∙ ap (λ x. x.session) e;
      cmds = Call.command cmd end ∷ [];
      calls = ap (λ x. x.calls) after ∙ ap (λ x. x.calls ++ Call.command cmd end ∷ []) e;
      commands = (tt, tt);
      at_most_one = omega arith;
    }

relog-RunsAtMostOne :
    (g r : FmiGateway) (fmu : FmuInstanceData) → RunsAtMostOne g r → RunsAtMostOne g (relog r fmu)
relog-RunsAtMostOne g r fmu h = record {
  state = h.state;
  runtime = h.runtime;
  session = h.session;
  cmds = h.cmds;
  calls = h.calls;
  commands = h.commands;
  at_most_one = h.at_most_one;
}

run_by_runtime-same : (g : FmiGateway) (t : RuntimeType) → run_by_runtime g t ≡ g
unfolding run_by_runtime
run_by_runtime-same g simer = refl
run_by_runtime-same g legacy = refl

module _ (sys : System) where
  pub run_cmd-RunsAtMostOne :
      (g : FmiGateway) (o : Option Bytes) → RunsAtMostOne g (run_cmd sys g o).0
  unfolding run_cmd fmigateway_run_cmd
  run_cmd-RunsAtMostOne g none = none_run g
  run_cmd-RunsAtMostOne g (some cmd) =
      let h = told sys (with_envar sys g) cmd in
      ends-RunsAtMostOne g h cmd (sys.shell h cmd) (λ format. sys.cmd_text format cmd) refl

  start_ended-RunsAtMostOne :
      (g after : FmiGateway) (rc : ℕ)
      → RunsAtMostOne g after
      → RunsAtMostOne g (start_ended sys after rc).0
  unfolding start_ended
  start_ended-RunsAtMostOne g after rc h = elim (Bool-cases (rc == 0)) [
    | inl e ↦ rw e (subst (RunsAtMostOne g) (sym (run_by_runtime-same after after.runtime)) h)
    | inr e ↦ rw e (relog-RunsAtMostOne g after _ h)
  ]

  pub session_start-RunsAtMostOne : (g : FmiGateway) → RunsAtMostOne g (session_start sys g).0
  unfolding session_start
  session_start-RunsAtMostOne g =
      start_ended-RunsAtMostOne g (run_cmd sys g (startup sys g)).0
        (run_cmd sys g (startup sys g)).1 (run_cmd-RunsAtMostOne g (startup sys g))

  scripts_ended-RunsAtMostOne :
      (g after : FmiGateway) (rc : ℕ)
      → RunsAtMostOne g after
      → RunsAtMostOne g (scripts_ended sys after rc).0
  unfolding scripts_ended teardown
  scripts_ended-RunsAtMostOne g after rc h = elim (Bool-cases (rc == 0)) [
    | inl e ↦ rw e h
    | inr e ↦ rw e (relog-RunsAtMostOne g after _ h)
  ]

  end_scripts-RunsAtMostOne : (g : FmiGateway) → RunsAtMostOne g (end_scripts sys g).0
  unfolding end_scripts
  end_scripts-RunsAtMostOne g =
      scripts_ended-RunsAtMostOne g (run_cmd sys g (shutdown sys g)).0
        (run_cmd sys g (shutdown sys g)).1 (run_cmd-RunsAtMostOne g (shutdown sys g))

  -- The session ends with model_gw_exit and at most one command.
  pub record Exits (g r : FmiGateway) : Type 0 where
    pub cmds : List Call
    pub calls : r.calls ≡ g.calls ++ Call.exit ∷ cmds
    pub commands : All IsCommand cmds
    pub at_most_one : length cmds ≤ 1

  Exits-first :
      (g h r : FmiGateway) → h.calls ≡ g.calls ++ Call.exit ∷ [] → RunsAtMostOne h r → Exits g r
  Exits-first g h r e ran = record {
    cmds = ran.cmds;
    calls = ran.calls ∙ ap (λ l. l ++ ran.cmds) e ∙ append_assoc g.calls (Call.exit ∷ []) ran.cmds;
    commands = ran.commands;
    at_most_one = ran.at_most_one;
  }

  pub end_by_runtime-Exits :
      (g : FmiGateway) (t : RuntimeType) (session : Option Session)
      → Exits g (end_by_runtime sys g t session).0
  unfolding end_by_runtime shutdown_models stop_simer
  end_by_runtime-Exits g simer session =
      Exits-first g (model_gw_exit g) _ refl (end_scripts-RunsAtMostOne (model_gw_exit g))
  end_by_runtime-Exits g legacy none =
      Exits-first g (model_gw_exit g) _ refl (none_run (model_gw_exit g))
  end_by_runtime-Exits g legacy (some session) =
      Exits-first g (shutdown_models g) _ refl (end_scripts-RunsAtMostOne (shutdown_models g))
