-- ===== src/Program.antt =====
-- cmd/ces/main.go and pkg/signals: the start of the program, and how it is stopped.
pub mod Start
mod Tests
use container_egress_service.Prelude.{
  String, Bool, true, false, Option, none, some, List, [], ◌∷◌, ◌++◌, ◌||◌, not, ◌==◌,
  if◌then◌else◌,
}

-- the command-line flags that the start looks at
pub record Flags : Type 0 where
  pub bigip_username : String
  pub bigip_password : String
  pub bigip_creds_dir : String

-- What the libraries and the rest of the program make of the start: the files of the credentials
-- directory (`none` where one cannot be read), the environment variable CES_NAMESPACE, and whether
-- the calls that may fail succeed.
pub record Host : Type 0 where
  pub read_file : String → Option String
  pub ces_namespace : String
  pub build_config : Bool
  pub new_kube_client : Bool
  pub init_as3_tenant : Bool
  pub new_as3_clientset : Bool
  pub run_controller : Bool

-- what `main` does, in order
pub data Started : Type 0 where
  sets_up_signals : Started
  makes_client : String → String → Started
  inits_as3_tenant : Started
  makes_controller starts_informers starts_store runs_controller : Started

-- How it ends: by a panic, by klog.Fatalf (an exit), or by returning.
pub data Ending : Type 0 where
  panic fatal returned : Ending

-- setField: the file goes before the flag, and one of the two is needed
unfoldable pub set_field : Option String → String → Option String
set_field none field = if field == "" then none else some field
set_field (some contents) field = some contents

-- `none` where the program panics
unfoldable pub credentials : Flags → Host → Option (String × String)
unfolding set_field
credentials flags host =
    if flags.bigip_creds_dir == ""
    then some (flags.bigip_username, flags.bigip_password)
    else elim (set_field (host.read_file "username") flags.bigip_username) [
      | none ↦ none
      | some username ↦ elim (set_field (host.read_file "password") flags.bigip_password) [
        | none ↦ none
        | some password ↦ some (username, password)
      ]
    ]

-- from the construction of the controller on
unfoldable pub run_all : Host → Ending × List Started
run_all host = (
  if host.run_controller then returned else fatal,
  makes_controller ∷ starts_informers ∷ starts_store ∷ runs_controller ∷ [],
)

abbrev pub step : Started → Ending × List Started → Ending × List Started
step a rest = (rest.0, a ∷ rest.1)

-- once there are credentials
unfoldable pub set_up : Host → String → String → Ending × List Started
unfolding run_all
set_up host username password = step sets_up_signals (
    if not host.build_config
    then (fatal, [])
    else if not host.new_kube_client
    then (fatal, [])
    else if host.ces_namespace == ""
    then (fatal, [])
    else step (makes_client username password) (
        step inits_as3_tenant (
          if not host.init_as3_tenant
          then (fatal, [])
          else if not host.new_as3_clientset
          then (fatal, [])
          else run_all host)))

abbrev pub with_credentials : Host → Option (String × String) → Ending × List Started
with_credentials host none = (panic, [])
with_credentials host (some (username, password)) =
    if (username == "") || (password == "") then (fatal, []) else set_up host username password

unfoldable pub main : Flags → Host → Ending × List Started
unfolding credentials set_up
main flags host = with_credentials host (credentials flags host)

-- What the goroutine of SetupSignalHandler has seen: no signal, one, which closes the channel that
-- everything stops by, or two, which end the process.
pub data Signals : Type 0 where
  open_stop closed_stop exited : Signals

-- a signal arrives
unfoldable pub on_signal : Signals → Signals
on_signal open_stop = closed_stop
on_signal closed_stop = exited
on_signal exited = exited

-- SetupSignalHandler closes a channel of the package first: a second call panics. The argument says
-- whether that channel is closed, the result whether it is afterwards, and the goroutine's state.
unfoldable pub setup_signal_handler : Bool → Option (Bool × Signals)
setup_signal_handler true = none
setup_signal_handler false = some (true, open_stop)
