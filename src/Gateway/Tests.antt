-- ===== src/Gateway/Tests.antt =====
-- Runs of the gateway's functions with a startup script that succeeds.
use dse_fmi.Common.{
  ◌≡◌, refl, false, none, some, List, [], ◌∷◌, codes, hashmap_get, hashmap_set, str_eq,
  if◌then◌else◌, ltb, Returns, arith,
}
use dse_fmi.Index.Vectors.{or_else}
use dse_fmi.Index.Tests.{fmu, api, desc}
use dse_fmi.Gateway.State.{Parameter, RuntimeType, GatewayState, CmdEnd, FmiGateway, System}
use dse_fmi.Gateway.Environment.{set_envar, first_value, set_envar-priority}
use dse_fmi.Gateway.Lifecycle.{fmu_init, fmu_destroy}
use dse_fmi.Gateway.Lifecycle.Trace.{
  Action, exits, connections, IsIndexable, run, fmu_destroy-exits_once,
}
use dse_fmi.Gateway.Lifecycle.Outcome.{InitOutcome, fmu_init-outcome}

abbrev system : System
system = record {
  index = api;
  gw_setup = λ g. (0, desc);
  gw_sync = λ g time. time;
  e_gatewaybehind = 1;
  behind_ne_zero = λ e. absurd (omega (arith, e));
  path_max = 4096;
  access = λ g path. false;
  shell = λ g cmd. CmdEnd.exited 0;
  int_text = λ d. d ∷ [];
  cmd_text = λ format cmd. cmd;
  code_text = λ format code. format;
}

-- PORT has a default; HOST is an input of the FMU.
abbrev parameters : List Parameter
parameters =
    record { name = codes "HOST"; kind = codes "String"; vref = codes "7"; default_value = none }
    ∷ record {
      name = codes "PORT";
      kind = codes "Real";
      vref = codes "8";
      default_value = some (codes "6379");
    }
    ∷ []

abbrev gateway : FmiGateway
gateway = record {
  fmu = record fmu { string_input = (codes "7", codes "localhost") ∷ [] };
  state = GatewayState.created;
  runtime = RuntimeType.simer;
  session = none;
  step_size = 1;
  startup_cmd = some (codes "start");
  shutdown_cmd = some (codes "stop");
  envar = parameters;
  environment = (codes "PATH", codes "/bin") ∷ [];
  calls = [];
}

abbrev actions : List Action
actions = Action.step 1 1 ∷ Action.init ∷ Action.step 2 1 ∷ []

environment_set :
    set_envar system gateway.fmu parameters gateway.environment
    ≡ (codes "PATH", codes "/bin")
      ∷ (codes "HOST", codes "localhost")
      ∷ (codes "PORT", codes "6379")
      ∷ []
unfolding set_envar hashmap_get hashmap_set str_eq
environment_set = refl

set_envar-priority_example :
    hashmap_get (set_envar system gateway.fmu parameters gateway.environment) (codes "PORT")
    ≡ or_else
        (hashmap_get gateway.environment (codes "PORT"))
        (first_value system gateway.fmu parameters (codes "PORT"))
set_envar-priority_example =
    set_envar-priority system gateway.fmu parameters gateway.environment (codes "PORT")

system-IsIndexable : IsIndexable system
unfolding str_eq
system-IsIndexable g = (
  (((codes "input", refl), ((codes "output", refl), tt)), (tt, tt)),
  ((tt, (((codes "ascii85", refl), tt), tt)), tt),
)

fmu_destroy-exits_once_example : Returns (run system actions gateway) (λ r.
    (exits r.calls ≡ 0)
    × ((fmu_destroy system r).0.state ≡ GatewayState.terminated)
    × (exits (fmu_destroy system r).0.calls ≡ (if ltb 0 (connections r.calls) then 1 else 0)))
fmu_destroy-exits_once_example =
    fmu_destroy-exits_once system gateway actions system-IsIndexable refl refl refl

fmu_init-outcome_example : Returns (fmu_init system gateway) (InitOutcome system gateway)
fmu_init-outcome_example = fmu_init-outcome system gateway system-IsIndexable
