-- ===== src/As3/Client/Scripts.antt =====
-- Each function of the client sends one request, and does not try it again.
use container_egress_service.Prelude.{
  ℕ, String, refl, Bool, true, false, ◌&&◌, ◌||◌, ◌==◌, ltb, nat_eq, if◌then◌else◌, none,
}
use container_egress_service.Prelude.Text.{◌⊕◌}
use container_egress_service.Prelude.Outcome.{Outcome, returns, panics}
use container_egress_service.As3.Environment.{Environment, Decoded, failed, nil_map, decoded}
use container_egress_service.As3.Client.{
  Client, handle_response, check_outcome, parsed, map_of, code_and_body, body_map, send, call,
  discard, get_partition,
}
use container_egress_service.Io.{
  Request, get, Response, unreachable, answered, http, World, ◌>>=◌, ◌>>◌, pure, emit,
}
use container_egress_service.Io.Scripts.{Quiet, Sends, Quiet-check, Quiet->>=, Sends->>=}

module _ (w : World) (env : Environment) where
  Quiet-check_outcome : (o : Outcome _) → Quiet (check_outcome o)
  Quiet-check_outcome (returns e) s = Quiet-check e s
  Quiet-check_outcome panics s = refl

  Quiet-map_of : (d : Decoded) → Quiet (map_of d)
  Quiet-map_of failed s = refl
  Quiet-map_of nil_map s = refl
  Quiet-map_of (decoded m) s = refl

  Quiet-code_and_body : (a : Response) → Quiet (code_and_body a)
  Quiet-code_and_body unreachable s = refl
  Quiet-code_and_body (answered code body) s = refl

  Sends-send : (req : Request) → Sends (http req) (send w env req)
  unfolding send
  Sends-send req s =
      Sends->>= (http req) (emit (http req)) (λ u. code_and_body (w.respond s req)) (λ t. refl)
        (λ u. Quiet-code_and_body (w.respond s req)) s

  -- the body is read, and the answer looked at
  Quiet-answer :
      {A : Type 0} (code : ℕ) (body : String) (f : _ → A)
      → Quiet (do m ← body_map w env body; check_outcome (handle_response code m); pure (f m))
  Quiet-answer code body f =
      Quiet->>= (body_map w env body) _ (Quiet-map_of (parsed (env.parse_json body))) λ m.
        Quiet->>= (check_outcome (handle_response code m)) _
          (Quiet-check_outcome (handle_response code m)) λ u s. refl

  pub Sends-call : (req : Request) → Sends (http req) (call w env req)
  unfolding call
  Sends-call req =
      Sends->>= (http req) (send w env req) _ (Sends-send req)
        λ answer. Quiet-answer answer.0 answer.1 (λ m. m)

  pub Sends-discard : (req : Request) → Sends (http req) (discard w env req)
  unfolding discard
  Sends-discard req = Sends->>= (http req) (call w env req) _ (Sends-call req) λ m s. refl

  pub Sends-get_partition :
      (c : Client) (partition : String)
      → Sends
          (http (record { method = get; url = c.url ⊕ partition; body = none }))
          (get_partition w env c partition)
  unfolding get_partition
  Sends-get_partition c partition = Sends->>= _ (send w env _) _ (Sends-send _) λ answer.
      Quiet-rest answer.0 answer.1
        ((ltb 199 answer.0 && ltb answer.0 299 && (answer.1 == "")) || nat_eq answer.0 404)
    where
      Quiet-rest :
          (code : ℕ) (body : String) (is_empty : Bool)
          → Quiet (
              if is_empty
              then pure "{}"
              else do m ← body_map w env body; check_outcome (handle_response code m); pure body)
      Quiet-rest code body true = λ s. refl
      Quiet-rest code body false = Quiet-answer code body (λ m. body)
