-- ===== src/As3/Client/Requests.antt =====
-- Each function of the client sends the one request that it is for.
use container_egress_service.Prelude.{
  String, ℕ, Option, none, [], ◌∷◌, ◌++◌, ◌&&◌, ◌||◌, ltb, nat_eq, ◌==◌, Bool, true, false,
  if◌then◌else◌,
}
use container_egress_service.Prelude.Outcome.{Outcome, returns, panics}
use container_egress_service.Prelude.Text.{◌⊕◌}
use container_egress_service.As3.Environment.{Environment, Decoded, failed, nil_map, decoded}
use container_egress_service.As3.Client.{
  Client, handle_response, check_outcome, parsed, map_of, code_and_body, body_map, send, call,
  discard, get_partition,
}
use container_egress_service.Io.{
  Request, Response, unreachable, answered, get, Effect, http, Error, World, ◌>>=◌, ◌>>◌, pure,
  failed,
}
use container_egress_service.Io.Traces.{
  Emits, nothing_added, added_after, Emits-check, Emits-emit, Emits->>=,
}

module _ (w : World) (env : Environment) (P : Effect → Type 0) where
  Emits-check_outcome : (o : Outcome (Option Error)) → Emits P (check_outcome o)
  Emits-check_outcome (returns e) = Emits-check P e
  Emits-check_outcome panics = λ s. nothing_added P s

  Emits-map_of : (d : Decoded) → Emits P (map_of d)
  Emits-map_of failed s = nothing_added P s
  Emits-map_of nil_map s = nothing_added P s
  Emits-map_of (decoded m) s = nothing_added P s

  Emits-body_map : (s : String) → Emits P (body_map w env s)
  Emits-body_map s = Emits-map_of (parsed (env.parse_json s))

  Emits-code_and_body : (a : Response) → Emits P (code_and_body a)
  Emits-code_and_body unreachable s = nothing_added P s
  Emits-code_and_body (answered code body) s = nothing_added P s

  Emits-send : (req : Request) → P (http req) → Emits P (send w env req)
  unfolding send
  Emits-send req h s =
      added_after P (Emits-emit P (http req) h s)
        (Emits-code_and_body (w.respond s req) (s ++ http req ∷ []))

  pub Emits-call : (req : Request) → P (http req) → Emits P (call w env req)
  unfolding call
  Emits-call req h = Emits->>= P (send w env req) _ (Emits-send req h) λ answer.
      Emits->>= P (body_map w env answer.1) _ (Emits-body_map answer.1) λ m.
        Emits->>= P (check_outcome (handle_response answer.0 m)) _
          (Emits-check_outcome (handle_response answer.0 m)) λ done s. nothing_added P s

  pub Emits-discard : (req : Request) → P (http req) → Emits P (discard w env req)
  unfolding discard
  Emits-discard req h = Emits->>= P (call w env req) _ (Emits-call req h) λ m s. nothing_added P s

  pub Emits-get_partition :
      (c : Client) (partition : String)
      → P (http (record { method = get; url = c.url ⊕ partition; body = none }))
      → Emits P (get_partition w env c partition)
  unfolding get_partition
  Emits-get_partition c partition h = Emits->>= P (send w env _) _ (Emits-send _ h) λ answer.
      Emits-rest answer.0 answer.1
        ((ltb 199 answer.0 && ltb answer.0 299 && (answer.1 == "")) || nat_eq answer.0 404)
    where
      Emits-rest :
          (code : ℕ) (body : String) (is_empty : Bool)
          → Emits P (
              if is_empty
              then pure "{}"
              else do m ← body_map w env body; check_outcome (handle_response code m); pure body)
      Emits-rest code body true = λ s. nothing_added P s
      Emits-rest code body false = Emits->>= P (body_map w env body) _ (Emits-body_map body) λ m.
          Emits->>= P (check_outcome (handle_response code m)) _
            (Emits-check_outcome (handle_response code m)) λ done s. nothing_added P s
