-- ===== src/Gateway/State.antt =====
-- The types of dse/fmigateway/fmigateway.h, and what the gateway uses of its surroundings. A number
-- stands for a double and for an int that the code compares with 0 only.
use dse_fmi.Common.{ℕ, ◌≢◌, Bool, Option, List, Bytes, HashMap}
use dse_fmi.Fmu.Instance.{FmuInstanceData}
use dse_fmi.Index.Gateway.{GatewayApi, ModelGatewayDesc}

-- FmiGatewayParameter; `kind` is its type.
pub record Parameter : Type 0 where
  pub name : Bytes
  pub kind : Bytes
  pub vref : Bytes
  pub default_value : Option Bytes

pub data RuntimeType : Type 0 where
  legacy : RuntimeType
  simer : RuntimeType

pub data GatewayState : Type 0 where
  created : GatewayState
  initialized : GatewayState
  running : GatewayState
  stopped : GatewayState
  terminated : GatewayState

-- How fork and waitpid end for a command.
pub data CmdEnd : Type 0 where
  fork_failed : CmdEnd
  wait_failed : CmdEnd
  exited : ℕ → CmdEnd
  killed : CmdEnd

-- The calls that leave the gateway, with what they returned.
pub data Call : Type 0 where
  setup : ℕ → Call
  sync : ℕ → ℕ → Call
  exit : Call
  command : Bytes → CmdEnd → Call

-- FmiGatewaySession, as far as the code outside Windows writes it.
pub record Session : Type 0 where
  pub last_step : ℕ

-- struct FmiGateway with the FMU that it belongs to, the environment of the process, and the calls
-- made so far.
pub record FmiGateway : Type 0 where
  pub fmu : FmuInstanceData
  pub state : GatewayState
  pub runtime : RuntimeType
  pub session : Option Session
  pub step_size : ℕ
  pub startup_cmd : Option Bytes
  pub shutdown_cmd : Option Bytes
  pub envar : List Parameter
  pub environment : HashMap Bytes
  pub calls : List Call

-- The model library (model_gw_setup, which also fills the description of the gateway, and
-- model_gw_sync with its code for a time that lies behind), the operating system (access, fork with
-- waitpid), printf("%d") of a double cut to an int, and the texts that vsnprintf makes.
pub record System : Type 0 where
  pub index : GatewayApi
  pub gw_setup : FmiGateway → ℕ × ModelGatewayDesc
  pub gw_sync : FmiGateway → ℕ → ℕ
  pub e_gatewaybehind : ℕ
  pub behind_ne_zero : e_gatewaybehind ≢ 0
  pub path_max : ℕ
  pub access : FmiGateway → Bytes → Bool
  pub shell : FmiGateway → Bytes → CmdEnd
  pub int_text : ℕ → Bytes
  pub cmd_text : Bytes → Bytes → Bytes
  pub code_text : Bytes → ℕ → Bytes
