-- ===== src/Controller/Sync/Settled.antt =====
-- What the synchronisation of a rule that is done has done.
use container_egress_service.Prelude.{◌≡◌, Bool, List, ◌∷◌}
use container_egress_service.Kube.{ExternalService}
use container_egress_service.As3.Config.{Registry}
use container_egress_service.As3.Environment.{Environment}
use container_egress_service.As3.Rules.{As3Post}
use container_egress_service.As3.Client.{Client}
use container_egress_service.As3.Request.Settled.{Settled}
use container_egress_service.Controller.Sync.{Kind, begin_sync}
use container_egress_service.Io.{World, Effect, Io, done}

module _ {A : Type 0} (w : World) (kind : Kind A) (r : Registry) (env : Environment) (c : Client)
    (is_delete : Bool) (post : A → List ExternalService → As3Post) where
  -- The synchronisation of the rule has begun, and its request for some external services was
  -- settled.
  pub record RuleSettled (rule : A) : Type 0 where
    pub begun : A
    pub exsvc : ExternalService
    pub exsvcs : List ExternalService
    pub labelled : List Effect
    pub began : (begin_sync w kind is_delete rule labelled).0 ≡ done begun
    pub request :
        Settled r env w c
          (post begun (exsvc ∷ exsvcs))
          is_delete
          (begin_sync w kind is_delete rule labelled).1
