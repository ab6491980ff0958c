-- ===== src/As3/Client/Status.antt =====
-- Which responses of BIG-IP count as success.
use container_egress_service.Prelude.{
  ℕ, ◌≡◌, refl, Bool, true, false, Option, none, some, List, [], ◌∷◌, ◌||◌, nat_eq, Bool-cases, inl,
  inr,
}
use container_egress_service.Prelude.Outcome.{Outcome, returns}
use container_egress_service.Prelude.GoMap.{GoMap, lookup}
use container_egress_service.Json.{Json, null, arr, obj, elems}
use container_egress_service.As3.Client.{log_results, other_error, error_response, handle_response}
use container_egress_service.Io.{Error}

abbrev pub is_success : ℕ → Bool
is_success code = nat_eq code 200 || nat_eq code 201 || nat_eq code 202

-- neither nil nor left open
abbrev pub is_none : Outcome (Option Error) → Bool
is_none (returns none) = true
is_none _ = false

log_results-is_none :
    (results : List Json) (e : Error) → is_none (log_results results (returns (some e))) ≡ false
log_results-is_none [] e = refl
log_results-is_none (obj fs ∷ rest) e = log_results-is_none rest e
log_results-is_none (null ∷ rest) e = refl
log_results-is_none (_ ∷ rest) e = refl

other_error-is_none : (j : Option Json) → is_none (other_error j) ≡ false
other_error-is_none none = refl
other_error-is_none (some (obj fs)) = refl
other_error-is_none (some _) = refl

error_response-is_none :
    (code : ℕ) (m : GoMap Json) (j : Option Json) → is_none (error_response code m j) ≡ false
error_response-is_none code m (some (arr results)) = log_results-is_none (elems results) _
error_response-is_none code m none = other_error-is_none _
error_response-is_none code m (some _) = other_error-is_none _

-- A response counts as success exactly if its status is 200, 201 or 202, whatever its body says.
pub handle_response-is_success :
    (code : ℕ) (m : GoMap Json) → is_none (handle_response code m) ≡ is_success code
unfolding handle_response
handle_response-is_success code m = elim (Bool-cases (is_success code)) [
  | inl good ↦ rw good refl
  | inr bad ↦ rw bad (error_response-is_none code m (lookup "results" m))
]
