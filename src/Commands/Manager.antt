-- ===== src/Commands/Manager.antt =====
-- cmd/manager/main.go: the flags with their defaults, and the order in which the parts are set up.
-- controller-runtime and the parsing of the flags are parameters.
use x402_k8s_operator.Base.{ℕ, Bool, false, Str, str, if◌then◌else◌, Result, ok, err}
use x402_k8s_operator.Base.Text.{is_empty}
use x402_k8s_operator.Routestore.{Store, new_store}
use x402_k8s_operator.Gateway.Server.{Server, new_server}
use x402_k8s_operator.Controller.Ingresses.Patch.{Operator}

pub record Options : Type 0 where
  pub metrics_addr : Str
  pub probe_addr : Str
  pub gateway_addr : Str
  pub enable_leader_election : Bool
  pub operator_namespace : Str
  pub operator_svc_name : Str

-- `envOrDefault`, on the environment: an unset variable is empty.
unfoldable pub env_or_default : (Str → Str) → Str → Str → Str
env_or_default getenv key default = let v = getenv key in if is_empty v then default else v

-- The defaults of the flags.
unfoldable pub default_options : (Str → Str) → Options
unfolding env_or_default
default_options getenv = record {
  metrics_addr = str ":8080";
  probe_addr = str ":8081";
  gateway_addr = str ":8402";
  enable_leader_election = false;
  operator_namespace = env_or_default getenv (str "POD_NAMESPACE") (str "x402-system");
  operator_svc_name = env_or_default getenv (str "OPERATOR_SERVICE_NAME") (str "x402-k8s-operator");
}

-- `ctrl.Options`
pub record ManagerOptions : Type 0 where
  pub metrics_bind_address : Str
  pub health_probe_bind_address : Str
  pub leader_election : Bool
  pub leader_election_id : Str

-- The libraries that `main` calls: the flags and the configuration of the cluster, which may end the
-- program with an exit code of their own, and the manager, each of whose calls returns it changed or
-- fails with a text. The reconciler and the server get the one store that `main` creates.
pub record Kit (M : Type 0) : Type 0 where
  pub parse_flags : Options → Result ℕ Options
  pub get_config : Result ℕ (Unit {0})
  pub new_manager : ManagerOptions → Result Str M
  pub setup_controller : Operator → Store → M → Result Str M
  pub add_server : Server → Store → M → Result Str M
  pub add_healthz_check : Str → M → Result Str M
  pub add_readyz_check : Str → M → Result Str M
  pub start : M → Result Str (Unit {0})

-- How the program ends: by a signal, by a library with this exit code, or by an error, which is
-- logged with a message.
pub data Ended : Type 0 where
  stopped : Ended
  exited : (code : ℕ) → Ended
  failed : (message e : Str) → Ended

unfoldable pub exit_status : Ended → ℕ
exit_status stopped = 0
exit_status (exited code) = code
exit_status (failed message e) = 1

abbrev pub by_library : {A : Type 0} → Result ℕ A → Result Ended A
by_library (ok a) = ok a
by_library (err code) = err (exited code)

abbrev pub logged : {A : Type 0} → Str → Result Str A → Result Ended A
logged message (ok a) = ok a
logged message (err e) = err (failed message e)

infixl 5 ◌>>=◌
abbrev pub ◌>>=◌ : {A B : Type 0} → Result Ended A → (A → Result Ended B) → Result Ended B
ok a >>= f = f a
err e >>= f = err e

abbrev pub manager_options : Options → ManagerOptions
manager_options options = record {
  metrics_bind_address = options.metrics_addr;
  health_probe_bind_address = options.probe_addr;
  leader_election = options.enable_leader_election;
  leader_election_id = str "x402-operator.x402.io";
}

abbrev pub operator_of : Options → Operator
operator_of options = record {
  namespace = options.operator_namespace;
  svc_name = options.operator_svc_name;
}

module _ {M : Type 0} (kit : Kit M) where
  -- `main` behind the flags.
  unfoldable pub set_up : Options → Result Ended (Unit {0})
  set_up options = do
    _ ← by_library kit.get_config
    mgr ← logged (str "unable to start manager") (kit.new_manager (manager_options options))
    mgr ←
        logged (str "unable to create controller")
          (kit.setup_controller (operator_of options) new_store mgr)
    mgr ←
        logged (str "unable to add gateway server to manager")
          (kit.add_server (new_server options.gateway_addr) new_store mgr)
    mgr ← logged (str "unable to set up health check") (kit.add_healthz_check (str "healthz") mgr)
    mgr ← logged (str "unable to set up ready check") (kit.add_readyz_check (str "readyz") mgr)
    logged (str "problem running manager") (kit.start mgr)

  abbrev end_of : Result Ended (Unit {0}) → Ended
  end_of (ok u) = stopped
  end_of (err e) = e

  -- `main`
  unfoldable pub main : (Str → Str) → Ended
  unfolding set_up default_options
  main getenv = end_of (by_library (kit.parse_flags (default_options getenv)) >>= set_up)
