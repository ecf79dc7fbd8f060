-- ===== src/Gateway/Lifecycle.antt =====
-- fmu_init, fmu_step and fmu_destroy of the gateway (dse/fmigateway/fmigateway.c).
pub mod Trace
pub mod Outcome
use dse_fmi.Common.{ℕ, not, Option, none, some, codes, ◌==◌, if◌then◌else◌, ◌>>=◌}
use dse_fmi.Fmu.Instance.{FmuInstanceData, log_ok}
use dse_fmi.Index.Gateway.{
  ModelGatewayDesc, index_scalar_signals, index_binary_signals, index_text_encoding,
}
use dse_fmi.Gateway.State.{GatewayState, Call, Session, FmiGateway, System}
use dse_fmi.Gateway.Session.{gw_log, called, session_start, session_end}

abbrev pub running_from : GatewayState → GatewayState
running_from GatewayState.created = GatewayState.created
running_from GatewayState.initialized = GatewayState.running
running_from GatewayState.running = GatewayState.running
running_from GatewayState.stopped = GatewayState.stopped
running_from GatewayState.terminated = GatewayState.terminated

-- The last step is saved for a session only.
abbrev pub save_step : FmiGateway → ℕ → ℕ → Option Session → FmiGateway
save_step g time step_size none = g
save_step g time step_size (some session) = record g {
  session = some (record session { last_step = time });
  step_size = step_size;
}

module _ (sys : System) where
  unfoldable pub index_signals : FmuInstanceData → ModelGatewayDesc → Option FmuInstanceData
  index_signals fmu gw = do
    scalars ← index_scalar_signals sys.index fmu gw
    binaries ← index_binary_signals sys.index scalars gw
    index_text_encoding sys.index binaries gw

  -- From the test of what model_gw_setup returned on.
  unfoldable pub setup_ended : FmiGateway → ℕ → ModelGatewayDesc → Option (FmiGateway × ℕ)
  unfolding index_signals
  setup_ended g rc gw =
      if rc == 0
      then (do
        let noted : FmiGateway =
            gw_log g log_ok (codes "Debug") (codes "Connected to the Simbus...")
        fmu ← index_signals noted.fmu gw
        some (record noted { fmu = fmu; state = GatewayState.initialized }, 0))
      else some (g, rc)

  abbrev pub before_setup : FmiGateway → FmiGateway
  before_setup g = gw_log g log_ok (codes "Debug") (codes "Setting up the Simbus connection...")

  unfoldable pub fmu_setup : FmiGateway → Option (FmiGateway × ℕ)
  unfolding setup_ended
  fmu_setup g =
      let (rc, gw) = sys.gw_setup (before_setup g) in
      setup_ended (called (before_setup g) (Call.setup rc)) rc gw

  -- `none` is a crash on a signal without the annotations that the indexes need.
  unfoldable pub init_ended : FmiGateway → ℕ → Option (FmiGateway × ℕ)
  unfolding fmu_setup
  init_ended g rc = if rc == 0 then fmu_setup g else some (g, rc)

  unfoldable pub fmu_init : FmiGateway → Option (FmiGateway × ℕ)
  unfolding session_start init_ended
  fmu_init g = let (started, rc) = session_start sys g in init_ended started rc

  unfoldable pub step_ended : FmiGateway → ℕ → ℕ → ℕ → FmiGateway × ℕ
  step_ended g rc time step_size =
      if rc == sys.e_gatewaybehind then (g, 0) else (save_step g time step_size g.session, 0)

  abbrev pub set_running : FmiGateway → FmiGateway
  set_running g = record g { state = running_from g.state }

  unfoldable pub fmu_step : FmiGateway → ℕ → ℕ → FmiGateway × ℕ
  unfolding step_ended
  fmu_step g time step_size =
      let rc = sys.gw_sync (set_running g) time in
      step_ended (called (set_running g) (Call.sync time rc)) rc time step_size

  -- The memory that is released behind has no counterpart; the result of the session's end is
  -- dropped.
  unfoldable pub fmu_destroy : FmiGateway → FmiGateway × ℕ
  unfolding session_end
  fmu_destroy g = (record (session_end sys g).0 { state = GatewayState.terminated }, 0)
