-- ===== src/Program/Start.antt =====
-- What has to hold before the program touches BIG-IP, and before its workers run.
use container_egress_service.Prelude.{
  String, ◌≡◌, Bool, true, false, Option, none, some, List, [], ◌∷◌, ◌&&◌, not, any, ◌==◌,
  if◌then◌else◌,
}
use container_egress_service.Program.{
  Flags, Host, Started, Ending, makes_client, inits_as3_tenant, runs_controller,
}

abbrev pub inits : Started → Bool
inits inits_as3_tenant = true
inits _ = false

abbrev pub runs : Started → Bool
runs runs_controller = true
runs _ = false

-- the host lets the program come to `InitAs3Tenant`, and to the workers
abbrev pub can_init : Host → Bool
can_init host = host.build_config && (host.new_kube_client && not (host.ces_namespace == ""))

abbrev pub can_run : Host → Bool
can_run host = can_init host && (host.init_as3_tenant && host.new_as3_clientset)

-- a user name or a password: the contents of the file, if there is a directory of credentials and the
-- file can be read, and else the flag
abbrev file_or_flag : Option String → String → String
file_or_flag none flag = flag
file_or_flag (some contents) flag = contents

abbrev pub credential : Flags → Host → String → String → String
credential flags host file flag =
    if flags.bigip_creds_dir == "" then flag else file_or_flag (host.read_file file) flag

abbrev pub username : Flags → Host → String
username flags host = credential flags host "username" flags.bigip_username

abbrev pub password : Flags → Host → String
password flags host = credential flags host "password" flags.bigip_password

abbrev pub has_credentials : Flags → Host → Bool
has_credentials flags host = not (username flags host == "") && not (password flags host == "")

-- the credentials of the clients that are made
abbrev pub clients : List Started → List (String × String)
clients [] = []
clients (makes_client u p ∷ rest) = (u, p) ∷ clients rest
clients (_ ∷ rest) = clients rest

-- a start with these credentials, given that they are there and not empty, or that they are not
pub record Lets (host : Host) (u p : String) (given : Bool) (x : Ending × List Started)
    : Type 0 where
  pub inits_if : any inits x.1 ≡ (given && can_init host)
  pub runs_if : any runs x.1 ≡ (given && can_run host)
  pub clients_if : clients x.1 ≡ (if given && can_init host then (u, p) ∷ [] else [])
