-- ===== src/As3/Client/Answers.antt =====
-- A request counts as done only on an answer of BIG-IP that says so.
use container_egress_service.Prelude.{
  ℕ, String, ◌≡◌, refl, sym, ◌∙◌, true, Option, none, some, List, [], ◌∷◌, ◌++◌,
}
use container_egress_service.Prelude.Outcome.{Outcome, returns, panics}
use container_egress_service.Prelude.GoMap.{GoMap}
use container_egress_service.Prelude.Text.{◌⊕◌}
use container_egress_service.Json.{Json}
use container_egress_service.As3.Environment.{Environment}
use container_egress_service.As3.Client.{
  Client, handle_response, check_outcome, code_and_body, body_map, send, call, discard,
  post_declaration,
}
use container_egress_service.As3.Client.Status.{is_success, is_none, handle_response-is_success}
use container_egress_service.Io.{
  Error, Request, post, Response, unreachable, answered, Effect, http, World, done,
}
use container_egress_service.Io.Traces.{>>=-eq-done}

-- BIG-IP answered, with a status of success
pub record Answered (w : World) (req : Request) (s : List Effect) : Type 0 where
  pub code : ℕ
  pub body : String
  pub answer : w.respond s req ≡ answered code body
  pub success : is_success code ≡ true

from_answer :
    (a : Response) (t : List Effect) (x : ℕ × String)
    → (code_and_body a t).0 ≡ done x
    → a ≡ answered x.0 x.1
from_answer unreachable t x h = cc
from_answer (answered code body) t x h = cc

done_is_none :
    (o : Outcome (Option Error)) (t : List Effect)
    → (check_outcome o t).0 ≡ done tt
    → is_none o ≡ true
done_is_none (returns none) t h = refl
done_is_none (returns (some e)) t h = cc
done_is_none panics t h = cc

module _ (w : World) (env : Environment) where
  send-answered :
      (req : Request) (s : List Effect) (x : ℕ × String)
      → (send w env req s).0 ≡ done x
      → w.respond s req ≡ answered x.0 x.1
  unfolding send
  send-answered req s x h = from_answer (w.respond s req) (s ++ http req ∷ []) x h

  call-Answered :
      (req : Request) (s : List Effect) (m : GoMap Json)
      → (call w env req s).0 ≡ done m
      → Answered w req s
  unfolding call
  call-Answered req s m h =
      let (x, sent, rest) = >>=-eq-done (send w env req) _ s h in
      let (n, parsed, rest') = >>=-eq-done (body_map w env x.1) _ _ rest in
      let (u, checked, last) = >>=-eq-done (check_outcome (handle_response x.0 n)) _ _ rest' in
      record {
        code = x.0;
        body = x.1;
        answer = send-answered req s x sent;
        success =
            sym (handle_response-is_success x.0 n) ∙ done_is_none (handle_response x.0 n) _ checked;
      }

  pub discard-Answered :
      (req : Request) (s : List Effect) → (discard w env req s).0 ≡ done tt → Answered w req s
  unfolding discard
  discard-Answered req s h =
      let (m, called, rest) = >>=-eq-done (call w env req) _ s h in call-Answered req s m called

  -- A declaration counts as posted only if BIG-IP answered the request for it with the status 200,
  -- 201 or 202.
  pub post_declaration-Answered :
      (c : Client) (body : Json) (tenant : String) (s : List Effect)
      → (post_declaration w env c body tenant s).0 ≡ done tt
      → Answered w
          (record {
            method = post;
            url = c.host ⊕ ("/mgmt/shared/appsvcs/declare/" ⊕ tenant);
            body = some body;
          })
          s
  unfolding post_declaration
  post_declaration-Answered c body tenant s h = discard-Answered _ s h
