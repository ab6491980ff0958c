-- ===== src/As3/Client.antt =====
-- pkg/as3/client.go: the requests to BIG-IP and what their responses mean.
pub mod Status
pub mod Requests
pub mod Answers
pub mod Scripts
use container_egress_service.Prelude.{
  ℕ, String, Bool, true, false, Option, none, some, List, [], ◌∷◌, ◌&&◌, ◌||◌, is_empty, ltb,
  nat_eq, ◌==◌, if◌then◌else◌,
}
use container_egress_service.Prelude.Outcome.{Outcome, returns, panics}
use container_egress_service.Prelude.GoMap.{GoMap, lookup}
use container_egress_service.Prelude.Text.{◌⊕◌}
use container_egress_service.Json.{Json, null, text, arr, obj, object, elems}
use container_egress_service.As3.Environment.{
  Environment, Decoded, failed, nil_map, decoded, decode,
}
use container_egress_service.Io.{
  Error, transport, bad_json, big_ip_error, big_ip_status, as3_status, Method, get, post, patch,
  Request, Response, unreachable, answered, Effect, http, World, Io, pure, fail, panic, ask, emit,
  check, continue, Step, done, panicked, ◌>>=◌, ◌>>◌,
}

-- The credentials and the transport are not modelled.
pub record Client : Type 0 where
  pub url : String
  pub host : String

unfoldable pub new_client : String → Client
new_client ip = record {
  url = "https://" ⊕ (ip ⊕ "/mgmt/shared/appsvcs/declare/");
  host = "https://" ⊕ ip;
}

-- The elements of `results` are logged, by type assertions that panic on what is no object.
abbrev log_results : List Json → Outcome (Option Error) → Outcome (Option Error)
log_results [] last = last
log_results (obj fs ∷ rest) last = log_results rest last
log_results (_ ∷ rest) last = panics

abbrev other_error : Option Json → Outcome (Option Error)
other_error (some (obj fs)) = returns (some big_ip_error)
other_error _ = returns (some big_ip_status)

abbrev error_response : ℕ → GoMap Json → Option Json → Outcome (Option Error)
error_response status_code response (some (arr results)) =
    log_results (elems results) (returns (some (as3_status status_code)))
error_response status_code response _ = other_error (lookup "error" response)

unfoldable pub handle_response : ℕ → GoMap Json → Outcome (Option Error)
handle_response status_code response =
    if (nat_eq status_code 200 || nat_eq status_code 201 || nat_eq status_code 202)
    then returns none
    else error_response status_code response (lookup "results" response)

abbrev check_outcome : Outcome (Option Error) → Io (Unit {0})
check_outcome (returns e) = check e
check_outcome panics = panic

abbrev parsed : Option Json → Decoded
parsed none = failed
parsed (some j) = decode j

abbrev map_of : Decoded → Io (GoMap Json)
map_of failed = fail bad_json
map_of nil_map = pure []
map_of (decoded m) = pure m

abbrev code_and_body : Response → Io (ℕ × String)
code_and_body unreachable = fail transport
code_and_body (answered code body) = pure (code, body)

module _ (w : World) (env : Environment) where
  -- json.Unmarshal of a response body
  abbrev body_map : String → Io (GoMap Json)
  body_map s = map_of (parsed (env.parse_json s))

  -- c.Do(req) with the reading of the body: the status code and the body
  unfoldable pub send : Request → Io (ℕ × String)
  send req = do answer ← ask (λ s. w.respond s req); emit (http req); code_and_body answer

  -- the common end of the requests: the response's object, once it is no error
  unfoldable pub call : Request → Io (GoMap Json)
  unfolding send handle_response decode
  call req = do
    answer ← send req
    m ← body_map answer.1
    check_outcome (handle_response answer.0 m)
    pure m

  unfoldable pub discard : Request → Io (Unit {0})
  unfolding call
  discard req = do m ← call req; pure tt

  -- The partition's declaration as text, "{}" where BIG-IP has none.
  unfoldable pub get_partition : Client → String → Io String
  unfolding send handle_response decode
  get_partition c partition = do
    answer ← send (record { method = get; url = c.url ⊕ partition; body = none })
    if (ltb 199 answer.0 && ltb answer.0 299 && (answer.1 == "")) || nat_eq answer.0 404
        then pure "{}"
        else do m ← body_map answer.1; check_outcome (handle_response answer.0 m); pure answer.1

  unfoldable pub post_declaration : Client → Json → String → Io (Unit {0})
  unfolding discard
  post_declaration c body tenant = discard (record {
    method = post;
    url = c.host ⊕ ("/mgmt/shared/appsvcs/declare/" ⊕ tenant);
    body = some body;
  })

  unfoldable pub patch_f5_reource : Client → Json → String → Io (Unit {0})
  unfolding discard
  patch_f5_reource c body url =
      discard (record { method = patch; url = c.host ⊕ url; body = some body })

  unfoldable pub get_f5_resource : Client → String → Io (GoMap Json)
  unfolding call
  get_f5_resource c url = call (record { method = get; url = c.host ⊕ url; body = none })

  unfoldable pub post_f5_resouce : Client → Json → String → Io (Unit {0})
  unfolding discard
  post_f5_resouce c body url =
      discard (record { method = post; url = c.host ⊕ url; body = some body })

  unfoldable pub store_disk : Client → Io (Unit {0})
  unfolding discard
  store_disk c = discard (record {
    method = post;
    url = c.host ⊕ "/mgmt/tm/sys/config";
    body = some (object (("command", text "save") ∷ []));
  })

  -- `data` is JSON already
  unfoldable pub post_raw : Client → Json → Io (Unit {0})
  unfolding discard
  post_raw c body = discard (record { method = post; url = c.url; body = some body })
