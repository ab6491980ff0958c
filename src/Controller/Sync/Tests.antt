-- ===== src/Controller/Sync/Tests.antt =====
-- A synchronisation of a rule that is done, at concrete inputs.
use container_egress_service.Prelude.{some, []}
use container_egress_service.Json.{object}
use container_egress_service.As3.Environment.{Environment}
use container_egress_service.Io.{World, answered}
use container_egress_service.Samples.{environment, cluster_rule as rule, world}

abbrev accepting : World
accepting = world (answered 200 "{}")

abbrev env_map : Environment
env_map = record environment { parse_json = λ s. some (object []) }
