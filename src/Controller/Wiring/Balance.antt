-- ===== src/Controller/Wiring/Balance.antt =====
-- What the loop of a worker does with the objects that it takes, and when it ends.
use container_egress_service.Prelude.{
  ℕ, suc, String, ◌≡◌, refl, ap, ◌∙◌, Bool, true, false, Option, List, [], ◌∷◌, ◌++◌, any, arith,
  length,
}
use container_egress_service.Controller.Queue.{
  Taken, shutdown, no_key, wrong_type, object, QueueOp, forget, add_rate_limited, done_with,
  processed, process_next_work_item,
}
use container_egress_service.Controller.Wiring.{waits, ends, Run, after, next_run, run_worker}
use container_egress_service.Io.{Effect, Io, Step, done, failed, panicked}

abbrev pub dones : List QueueOp → ℕ
dones [] = 0
dones (done_with ∷ ops) = suc (dones ops)
dones (forget ∷ ops) = dones ops
dones (add_rate_limited ∷ ops) = dones ops

abbrev pub is_shutdown : {A : Type 0} → Taken A → Bool
is_shutdown shutdown = true
is_shutdown _ = false

-- The loop took what stands before the end of the queue, or before a panic, and told the queue of
-- each object once that it is done with it.
pub record Balanced {A : Type 0} (ts : List (Taken A)) (run : Run) : Type 0 where
  pub before : List (Taken A)
  pub rest : List (Taken A)
  pub is_all : ts ≡ before ++ rest
  pub open_queue : any is_shutdown before ≡ false
  pub each_done : dones run.ops ≡ length before
  pub waits_at_end : run.loop ≡ waits → rest ≡ []
  pub ends_at_shutdown : run.loop ≡ ends → (later : List (Taken A)) × (rest ≡ shutdown ∷ later)

one_done :
    (op : QueueOp) (ops : List QueueOp)
    → dones (op ∷ []) ≡ 0
    → dones (op ∷ done_with ∷ ops) ≡ suc (dones ops)
one_done forget ops h = refl
one_done add_rate_limited ops h = refl
one_done done_with ops h = ground (arith, h)

module _ {A : Type 0} where
  -- one more object before the others
  one_more :
      (t : Taken A) (ts : List (Taken A)) (op : QueueOp) (run : Run)
      → is_shutdown t ≡ false
      → dones (op ∷ []) ≡ 0
      → Balanced ts run
      → Balanced (t ∷ ts) (after (op ∷ done_with ∷ []) run)
  one_more t ts op run still quiet b = record {
    before = t ∷ b.before;
    rest = b.rest;
    is_all = ap (λ l. t ∷ l) b.is_all;
    open_queue = ground (arith, still, b.open_queue);
    each_done = one_done op run.ops quiet ∙ ap suc b.each_done;
    waits_at_end = b.waits_at_end;
    ends_at_shutdown = b.ends_at_shutdown;
  }

  module _ (handler : Option (String × String) → A → Io (Unit {0})) where
    handled :
        (key : Option (String × String)) (a : A) (ts : List (Taken A)) (x : Step (Unit {0}))
        (t : List Effect)
        → Balanced ts (run_worker (process_next_work_item handler) ts t)
        → Balanced (object key a ∷ ts) (
            next_run
              (processed (x, t))
              (run_worker (process_next_work_item handler) ts (processed (x, t)).effects))
    handled key a ts (done u) t b = one_more (object key a) ts forget _ refl refl b
    handled key a ts (failed e) t b = one_more (object key a) ts add_rate_limited _ refl refl b
    handled key a ts panicked t b = record {
      before = object key a ∷ [];
      rest = ts;
      is_all = refl;
      open_queue = refl;
      each_done = refl;
      waits_at_end = λ e. cc;
      ends_at_shutdown = λ e. cc;
    }

    -- Whatever the queue hands out and whatever the handler does: the queue is told once of each
    -- object taken that the worker is done with it, also where the handler fails or panics. The
    -- loop takes all that it is given up to the end of the queue, and ends there only.
    pub run_worker-Balanced :
        (ts : List (Taken A)) (s : List Effect)
        → Balanced ts (run_worker (process_next_work_item handler) ts s)
    unfolding run_worker process_next_work_item
    run_worker-Balanced [] s = record {
      before = [];
      rest = [];
      is_all = refl;
      open_queue = refl;
      each_done = refl;
      waits_at_end = λ e. refl;
      ends_at_shutdown = λ e. cc;
    }
    run_worker-Balanced (shutdown ∷ ts) s = record {
      before = [];
      rest = shutdown ∷ ts;
      is_all = refl;
      open_queue = refl;
      each_done = refl;
      waits_at_end = λ e. cc;
      ends_at_shutdown = λ e. (ts, refl);
    }
    run_worker-Balanced (no_key ∷ ts) s =
        one_more no_key ts forget _ refl refl (run_worker-Balanced ts s)
    run_worker-Balanced (wrong_type ∷ ts) s =
        one_more wrong_type ts forget _ refl refl (run_worker-Balanced ts s)
    run_worker-Balanced (object key a ∷ ts) s =
        handled key a ts (handler key a s).0 (handler key a s).1
          (run_worker-Balanced ts (handler key a s).1)

abbrev pub is_panic : Step (Unit {0}) → Bool
is_panic panicked = true
is_panic _ = false

module _ {A : Type 0} (handler : Option (String × String) → A → Io (Unit {0})) where
  -- what has happened once the objects of a list were handled, in their order
  abbrev pub handle_all : List (Taken A) → List Effect → List Effect
  handle_all [] s = s
  handle_all (object key a ∷ ts) s = handle_all ts (handler key a s).1
  handle_all (shutdown ∷ ts) s = handle_all ts s
  handle_all (no_key ∷ ts) s = handle_all ts s
  handle_all (wrong_type ∷ ts) s = handle_all ts s

  -- a loop that has ended with these effects
  abbrev pub EndsWith : List Effect → Run → Type 0
  EndsWith s run = (run.loop ≡ ends) × (run.effects ≡ s)

  goes_on_to_end :
      (x : Step (Unit {0})) (t s : List Effect) (ts : List (Taken A))
      → is_panic x ≡ false
      → EndsWith s (run_worker (process_next_work_item handler) ts t)
      → EndsWith s (
          next_run
            (processed (x, t))
            (run_worker (process_next_work_item handler) ts (processed (x, t)).effects))
  goes_on_to_end (done u) t s ts calm e = e
  goes_on_to_end (failed error) t s ts calm e = e
  goes_on_to_end panicked t s ts calm e = cc

  -- Once its queue is shut down, the loop of a worker ends, if the handler does not panic: it has then
  -- handled the objects before the end, each once and in their order, also after one that failed,
  -- and none of those after it.
  pub run_worker-ends :
      (before later : List (Taken A)) (s : List Effect)
      → ((key : Option (String × String)) (a : A) (t : List Effect)
          → is_panic (handler key a t).0 ≡ false)
      → any is_shutdown before ≡ false
      → EndsWith
          (handle_all before s)
          (run_worker (process_next_work_item handler) (before ++ shutdown ∷ later) s)
  unfolding run_worker process_next_work_item
  run_worker-ends [] later s calm h = (refl, refl)
  run_worker-ends (shutdown ∷ ts) later s calm h = cc
  run_worker-ends (no_key ∷ ts) later s calm h = run_worker-ends ts later s calm h
  run_worker-ends (wrong_type ∷ ts) later s calm h = run_worker-ends ts later s calm h
  run_worker-ends (object key a ∷ ts) later s calm h =
      goes_on_to_end (handler key a s).0 (handler key a s).1 (handle_all ts (handler key a s).1)
        (ts ++ shutdown ∷ later) (calm key a s)
        (run_worker-ends ts later (handler key a s).1 calm h)
