-- ===== src/Samples.antt =====
-- Concrete values for the tests: the configuration of config/ces-conf.yaml with two partitions, and
-- a cluster rule for one external service.
use container_egress_service.Prelude.{
  String, true, false, none, some, [], ◌∷◌, ◌||◌, ◌==◌, if◌then◌else◌,
}
use container_egress_service.Prelude.Int.{pos}
use container_egress_service.Kube.{ObjectMeta, ExternalService, ClusterEgressRule}
use container_egress_service.As3.Types.{TenantConfig, RouteDomain, As3Config, LogPool}
use container_egress_service.As3.Config.{Registry}
use container_egress_service.As3.Environment.{Environment}
use container_egress_service.As3.Rules.{As3Post}
use container_egress_service.As3.Client.{Client}
use container_egress_service.Io.{Response, World, found, not_found}

abbrev pub tenant : String → String → RouteDomain → TenantConfig
tenant name namespaces domain = record {
  name = name;
  namespaces = namespaces;
  route_domain = domain;
  gwpool = "192.168.10.1" ∷ [];
  virtual_service = record {
    template = "";
    virtual_addresses = record {
      virtual_address = "0.0.0.0";
      icmp_echo = "disable";
      arp_enabled = false;
      template = "";
    };
  };
}

abbrev pub common : TenantConfig
common = tenant "Common" "dwb-test1,dwb-test" (record { id = pos 0; name = "0"; partition = "" })

abbrev pub p2 : TenantConfig
p2 = tenant "p2" "default" (record { id = pos 2; name = "rd2"; partition = "" })

abbrev pub no_log : LogPool
no_log = record {
  logging_enabled = false;
  enable_remote_log = false;
  health_monitor = "tcp";
  template = "";
  server_addresses = [];
}

abbrev pub config : As3Config
config = record {
  schema_version = "3.29.0";
  cluster_name = "k8s";
  master_cluster = "k8s";
  is_support_route_domain = true;
  irule = "bwc-1mbps-irule" ∷ "bwc-2mbps-irule" ∷ [];
  tenant = common ∷ p2 ∷ [];
  log_pool = no_log;
}

abbrev pub registry : Registry
registry = record {
  schema_version = some "3.29.0";
  current_cluster = "k8s";
  master_cluster = some "k8s";
  is_support_route_domain = true;
  log_pool = some no_log;
  irules = some ("bwc-1mbps-irule" ∷ "bwc-2mbps-irule" ∷ []);
  cluster_svc_ext_namespace = some "kube-system";
  partition_cache = some (("Common", common) ∷ ("p2", p2) ∷ []);
  namespace_cache = some (("dwb-test1", common) ∷ ("dwb-test", common) ∷ ("default", p2) ∷ []);
}

-- The texts that the tests read as addresses; no text is JSON.
abbrev pub environment : Environment
environment = record {
  parse_cidr = λ s. s == "10.0.0.0/8";
  parse_ip = λ s. (s == "10.1.1.1") || (s == "10.1.1.2");
  parse_json = λ s. none;
}

abbrev pub meta : String → String → ObjectMeta
meta name namespace = record {
  name = name;
  namespace = namespace;
  resource_version = "1";
  labels = [];
  annotations = [];
}

abbrev pub exsvc : ExternalService
exsvc = record {
  meta = meta "web" "kube-system";
  addresses = "10.1.1.1" ∷ "www.f5.com" ∷ [];
  ports =
      record { name = "http"; protocol = "TCP"; port = "80,443"; bandwidth = "" }
      ∷ record { name = "slow"; protocol = "tcp"; port = "8080"; bandwidth = "bwc-1mbps-irule" }
      ∷ [];
}

abbrev pub cluster_rule : ClusterEgressRule
cluster_rule = record {
  meta = meta "all" "";
  action = "accept";
  logging = false;
  external_services = "web" ∷ [];
  phase = "";
}

abbrev pub deny : String
deny = "k8s_svc_deny_all_rule_list"

-- BIG-IP answers every request in the same way, and the API server has the service `exsvc`.
abbrev pub world : Response → World
world answer = record {
  respond = λ s r. answer;
  external_service = λ s namespace name. if name == "web" then found exsvc else not_found;
  cluster_rule = λ s name. if name == "all" then found cluster_rule else not_found;
  namespace_rule = λ s namespace name. not_found;
  service_rule = λ s namespace name. not_found;
  endpoints = λ s namespace name. not_found;
  namespace = λ s name. not_found;
  cluster_rules = λ s. some (cluster_rule ∷ []);
  namespace_rules = λ s namespace. some [];
  service_rules = λ s namespace. some [];
  update_external_service = λ s changed. none;
  update_cluster_status = λ s rule. (rule, none);
  update_namespace_status = λ s rule. (rule, none);
  update_service_status = λ s rule. (rule, none);
}

abbrev pub client : Client
client = record { url = "https://10.0.0.1/mgmt/shared/appsvcs/declare/"; host = "https://10.0.0.1" }

-- a synchronisation without rules
abbrev pub empty_post : As3Post
empty_post = record {
  service_egress_list = [];
  namespace_egress_list = [];
  cluster_egress_list = [];
  external_service_list = [];
  endpoint_list = [];
  namespace_list = [];
  tenant_config = some common;
}
