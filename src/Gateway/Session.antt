-- ===== src/Gateway/Session.antt =====
-- fmigateway_session_start and fmigateway_session_end (dse/fmigateway/session.c), over the functions
-- for Unix (dse/fmigateway/session_unix.c).
pub mod Commands
use dse_fmi.Common.{
  ℕ, ◌-◌, Bool, true, false, not, Option, none, some, List, [], ◌∷◌, ◌++◌, take, Bytes, codes, ◌==◌,
  if◌then◌else◌,
}
use dse_fmi.Fmu.Instance.{FmuInstanceData, fmu_log, log_ok, log_error}
use dse_fmi.Index.Vectors.{or_else}
use dse_fmi.Gateway.State.{
  Parameter, RuntimeType, legacy, simer, GatewayState, CmdEnd, fork_failed, wait_failed, exited,
  killed, Call, Session, FmiGateway, System,
}
use dse_fmi.Gateway.Environment.{set_envar}

abbrev pub einval : ℕ
einval = 22

abbrev pub ecanceled : ℕ
ecanceled = 125

abbrev pub gw_log : FmiGateway → ℕ → Bytes → Bytes → FmiGateway
gw_log g status category message = record g { fmu = fmu_log g.fmu status category message }

abbrev pub called : FmiGateway → Call → FmiGateway
called g c = record g { calls = g.calls ++ c ∷ [] }

-- The functions that do nothing outside Windows.
unfoldable pub start_models : FmiGateway → FmiGateway
start_models g = g

unfoldable pub teardown : FmiGateway → FmiGateway
teardown g = g

unfoldable pub run_simer : FmiGateway → FmiGateway
run_simer g = g

unfoldable pub stop_simer : FmiGateway → FmiGateway
stop_simer g = g

unfoldable pub run_by_runtime : FmiGateway → RuntimeType → FmiGateway
unfolding run_simer start_models
run_by_runtime g simer = run_simer g
run_by_runtime g legacy = start_models g

abbrev pub model_gw_exit : FmiGateway → FmiGateway
model_gw_exit g = called g Call.exit

unfoldable pub shutdown_models : FmiGateway → FmiGateway
shutdown_models g = gw_log (model_gw_exit g) log_ok (codes "Debug") (codes "Gateway exited...")

-- The tests behind the fork, in order: fork, waitpid, the exit code.
unfoldable pub run_cmd_end : FmiGateway → CmdEnd → (Bytes → Bytes) → FmiGateway × ℕ
run_cmd_end g fork_failed text =
    (gw_log g log_error (codes "Error") (text (codes "Could not fork to execute cmd '%s'")), einval)
run_cmd_end g wait_failed text =
    (gw_log g log_error (codes "Error") (text (codes "waitpid failed for cmd '%s'")), einval)
run_cmd_end g (exited code) text = if code == 0 then (g, 0) else (
  gw_log g log_error (codes "Error") (text (codes "Cmd '%s' exited with code %d.")),
  ecanceled,
)
run_cmd_end g killed text =
    (gw_log g log_error (codes "Error") (text (codes "Cmd '%s' exited with code %d.")), ecanceled)

-- What fmigateway_run_cmd returns.
abbrev pub cmd_code : CmdEnd → ℕ
cmd_code fork_failed = einval
cmd_code wait_failed = einval
cmd_code (exited code) = if code == 0 then 0 else ecanceled
cmd_code killed = ecanceled

-- state < FMIGATEWAY_STATE_INITIALIZED
abbrev pub before_init : GatewayState → Bool
before_init GatewayState.created = true
before_init GatewayState.initialized = false
before_init GatewayState.running = false
before_init GatewayState.stopped = false
before_init GatewayState.terminated = false

module _ (sys : System) where
  abbrev script_path : FmiGateway → Bytes → Bytes
  script_path g name =
      take (sys.path_max - 1) (g.fmu.resource_location ++ (codes "/../" ++ (name ++ codes ".sh")))

  unfoldable pub file_exists : FmiGateway → Bytes → Option Bytes
  file_exists g name = if sys.access g (script_path g name) then some (script_path g name) else none

  abbrev pub told : FmiGateway → Bytes → FmiGateway
  told g cmd = gw_log g log_ok (codes "Debug") (sys.cmd_text (codes "Run cmd: %s (cwd: %s)") cmd)

  unfoldable pub fmigateway_run_cmd : FmiGateway → Bytes → FmiGateway × ℕ
  unfolding run_cmd_end
  fmigateway_run_cmd g cmd =
      let end = sys.shell (told g cmd) cmd in
      run_cmd_end (called (told g cmd) (Call.command cmd end)) end
        (λ format. sys.cmd_text format cmd)

  abbrev pub with_envar : FmiGateway → FmiGateway
  with_envar g = record g { environment = set_envar sys g.fmu g.envar g.environment }

  unfoldable pub run_cmd : FmiGateway → Option Bytes → FmiGateway × ℕ
  unfolding fmigateway_run_cmd
  run_cmd g none = (g, 0)
  run_cmd g (some cmd) = fmigateway_run_cmd (with_envar g) cmd

  -- From the test of the command's result on.
  unfoldable pub start_ended : FmiGateway → ℕ → FmiGateway × ℕ
  unfolding run_by_runtime
  start_ended g rc = if rc == 0 then (run_by_runtime g g.runtime, 0) else (
    gw_log g log_ok (codes "Debug") (sys.code_text (codes "Startup command failed: %d") rc),
    rc,
  )

  abbrev pub startup : FmiGateway → Option Bytes
  startup g = or_else (file_exists g (codes "startup")) g.startup_cmd

  unfoldable pub session_start : FmiGateway → FmiGateway × ℕ
  unfolding run_cmd file_exists start_ended
  session_start g = let (after, rc) = run_cmd g (startup g) in start_ended after rc

  unfoldable pub scripts_ended : FmiGateway → ℕ → FmiGateway × ℕ
  unfolding teardown
  scripts_ended g rc = if rc == 0 then (teardown g, 0) else (
    gw_log g log_ok (codes "Debug") (sys.code_text (codes "Shutdown command failed: %d") rc),
    rc,
  )

  abbrev pub shutdown : FmiGateway → Option Bytes
  shutdown g = or_else (file_exists g (codes "shutdown")) g.shutdown_cmd

  -- From the lookup of the shutdown script on.
  unfoldable pub end_scripts : FmiGateway → FmiGateway × ℕ
  unfolding run_cmd file_exists scripts_ended
  end_scripts g = let (after, rc) = run_cmd g (shutdown g) in scripts_ended after rc

  unfoldable pub end_by_runtime : FmiGateway → RuntimeType → Option Session → FmiGateway × ℕ
  unfolding end_scripts stop_simer shutdown_models
  end_by_runtime g simer session = end_scripts (stop_simer (model_gw_exit g))
  end_by_runtime g legacy none = (model_gw_exit g, 0)
  end_by_runtime g legacy (some session) = end_scripts (shutdown_models g)

  unfoldable pub session_end : FmiGateway → FmiGateway × ℕ
  unfolding end_by_runtime teardown
  session_end g =
      if before_init g.state then (teardown g, 0) else end_by_runtime g g.runtime g.session
