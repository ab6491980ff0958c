-- ===== src/Program/Tests.antt =====
-- A start with a user name in a file and the password on the command line.
use container_egress_service.Prelude.{◌≡◌, refl, true, none, some, any, ◌==◌, if◌then◌else◌}
use container_egress_service.Program.{Flags, Host, open_stop, exited, main, on_signal}
use container_egress_service.Program.Start.{runs}

abbrev flags : Flags
flags = record { bigip_username = ""; bigip_password = "secret"; bigip_creds_dir = "/creds" }

abbrev host : Host
host = record {
  read_file = λ file. if file == "username" then some "admin" else none;
  ces_namespace = "kube-system";
  build_config = true;
  new_kube_client = true;
  init_as3_tenant = true;
  new_as3_clientset = true;
  run_controller = true;
}

it_runs : any runs (main flags host).1 ≡ true
unfolding main
it_runs = refl

two_signals : on_signal (on_signal open_stop) ≡ exited
unfolding on_signal
two_signals = refl
