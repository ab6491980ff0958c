-- ===== src/Controller/Queue.antt =====
-- The five `processNext…` functions of pkg/controller: what is done with an object that a work queue
-- hands out. They differ in their handlers only.
use container_egress_service.Prelude.{String, Bool, true, false, Option, none, some, List, [], ◌∷◌}
use container_egress_service.Io.{Effect, Step, done, failed, panicked, Io}

-- What `Get` of the queue gives: the end of the queue, an object with no key, one of another type,
-- or one with its key (namespace and name, `none` if the key does not split).
pub data Taken (A : Type 0) : Type 0 where
  shutdown no_key wrong_type : Taken A
  object : Option (String × String) → A → Taken A

-- What the worker tells the queue of the object.
pub data QueueOp : Type 0 where
  forget add_rate_limited done_with : QueueOp

-- `go_on` is the result of the function, `none` where it panics.
pub record Processed : Type 0 where
  pub go_on : Option Bool
  pub ops : List QueueOp
  pub effects : List Effect

-- `Done` is deferred, so it comes last on every path.
abbrev pub processed : Step (Unit {0}) × List Effect → Processed
processed (done _, s) = record { go_on = some true; ops = forget ∷ done_with ∷ []; effects = s }
processed (failed e, s) = record {
  go_on = some true;
  ops = add_rate_limited ∷ done_with ∷ [];
  effects = s;
}
processed (panicked, s) = record { go_on = none; ops = done_with ∷ []; effects = s }

module _ {A : Type 0} where
  unfoldable pub process_next_work_item :
      (Option (String × String) → A → Io (Unit {0})) → Taken A → List Effect → Processed
  process_next_work_item handler shutdown s = record { go_on = some false; ops = []; effects = s }
  process_next_work_item handler no_key s = record {
    go_on = some true;
    ops = forget ∷ done_with ∷ [];
    effects = s;
  }
  process_next_work_item handler wrong_type s = record {
    go_on = some true;
    ops = forget ∷ done_with ∷ [];
    effects = s;
  }
  process_next_work_item handler (object key a) s = processed (handler key a s)
