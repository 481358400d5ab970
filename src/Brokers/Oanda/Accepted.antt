-- ===== src/Brokers/Oanda/Accepted.antt =====
-- What a successful `test_connection` of brokers/oanda_adapter.py says of the server.
use aurum_platform.Common.{
  ℕ, ◌≡◌, refl, sym, String, true, false, Option, none, some, arith, ◌<>◌, ◌≤◌, ◌<◌,
}
use aurum_platform.Json.{Value, Fields}
use aurum_platform.Errors.{Exn, broker, invalid, network, other}
use aurum_platform.Exec.{Exec, Result, ok, err, Raised-not_ok, recover, continue, handle, ◌>>=◌}
use aurum_platform.Brokers.{failure, TestResult}
use aurum_platform.Brokers.Oanda.Wire.{
  Answer, response, failed, broke, Outside, validate, json_of, raise_for_status,
}
use aurum_platform.Brokers.Oanda.Connection.{summary, test_failed, test_validated, test_connection}

continue_ok :
    {S A B : Type 0} (x : Result A) (f : A → Exec S B) (t : S) (b : B)
    → (continue x f t).0 ≡ ok b
    → (a : A) × (x ≡ ok a) × ((f a t).0 ≡ ok b)
continue_ok (ok a) f t b h = (a, refl, h)
continue_ok (err e) f t b h = absurd (Raised-not_ok (err e) b tt h)

-- Where a sequence returns, its parts have returned.
bind_ok :
    {S A B : Type 0} (m : Exec S A) (f : A → Exec S B) (s : S) (b : B)
    → ((m >>= f) s).0 ≡ ok b
    → (a : A) × ((m s).0 ≡ ok a) × ((f a (m s).1).0 ≡ ok b)
unfolding ◌>>=◌
bind_ok m f s b h = continue_ok (m s).0 f (m s).1 b h

-- What the account and its token are asked of.
pub record Accepted (answer : Answer) : Type 0 where
  pub status : ℕ
  pub text : Option String
  pub body : Value
  pub answered : answer ≡ response status text (some body)
  pub lower : 200 ≤ status
  pub upper : status < 300

same_success : (a b : TestResult) → Result.ok a ≡ ok b → a.success ≡ b.success
same_success a b h = cc

module _ (out : Outside) where
  status_ok :
      (status : ℕ) (text : Option String) (token : String) (s : Unit {0}) (u : Unit {0})
      → (raise_for_status out status text token s).0 ≡ ok u
      → (200 ≤ status) × (status < 300)
  unfolding raise_for_status
  status_ok status text token s u h = ground arith

  json_of-Accepted :
      (answer : Answer) (token : String) (s : Unit {0}) (v : Value)
      → (json_of out answer token s).0 ≡ ok v
      → Accepted answer
  unfolding json_of
  json_of-Accepted (response status text none) token s v h =
      let (u, first, last) = bind_ok (raise_for_status out status text token) _ s v h in
      absurd (Raised-not_ok (err (other "JSONDecodeError")) v tt last)
  json_of-Accepted (response status text (some body)) token s v h =
      let (u, first, last) = bind_ok (raise_for_status out status text token) _ s v h in
      let (lower, upper) = status_ok status text token s u first in
      record {
        status = status;
        text = text;
        body = body;
        answered = refl;
        lower = lower;
        upper = upper;
      }
  json_of-Accepted (failed class) token s v h = absurd (Raised-not_ok _ v tt h)
  json_of-Accepted (broke class) token s v h = absurd (Raised-not_ok _ v tt h)

  -- The answer to the request for the summary of the account.
  abbrev pub summary_answer : String × String × String → Answer
  summary_answer (account_id, token, url) =
      out.request url token ("/v3/accounts/" <> account_id <> "/summary") none

  summary-Accepted :
      (found : String × String × String) (s : Unit {0}) (result : TestResult)
      → (summary out found s).0 ≡ ok result
      → Accepted (summary_answer found)
  unfolding summary
  summary-Accepted (account_id, token, url) s result h =
      let (v, first, last) =
        bind_ok (json_of out (summary_answer (account_id, token, url)) token) _ s result h in
      json_of-Accepted (summary_answer (account_id, token, url)) token s v first

  -- A failure that is told is no success.
  told_failure :
      (e : Exn) (s : Unit {0}) (result : TestResult)
      → (test_failed out e s).0 ≡ ok result
      → result.success ≡ false
  unfolding test_failed
  told_failure (broker kind message code) s result h = sym (same_success _ result h)
  told_failure (network class) s result h = sym (same_success _ result h)
  told_failure e s result h = absurd (Raised-not_ok (err e) result tt h)

  recovered :
      (x : Result TestResult) (s : Unit {0}) (result : TestResult)
      → (recover x (test_failed out) s).0 ≡ ok result
      → result.success ≡ true
      → x ≡ ok result
  recovered (ok a) s result h good = h
  recovered (err e) s result h good = absurd (ground (arith, told_failure e s result h))

  validated-Accepted :
      (x : Result (String × String × String)) (s : Unit {0}) (result : TestResult)
      → (test_validated out x s).0 ≡ ok result
      → result.success ≡ true
      → (found : String × String × String) × (x ≡ ok found) × Accepted (summary_answer found)
  unfolding test_validated handle
  validated-Accepted (ok found) s result h good = (
    found,
    refl,
    summary-Accepted found s result
        (recovered (summary out found s).0 (summary out found s).1 result h good),
  )
  validated-Accepted (err (broker invalid message code)) s result h good =
      absurd (ground (arith, same_success (failure "validation_error" message) result h))
  validated-Accepted (err e) s result h good = absurd (Raised-not_ok (err e) result tt h)

  -- `test_connection` reports a success only where the credentials are complete, their environment
  -- is known, and the server answered the request for the account, made with their token, by a
  -- status of 200 to 299 and a JSON body.
  pub test_connection-Accepted :
      (credentials : Fields) (result : TestResult)
      → (test_connection out credentials tt).0 ≡ ok result
      → result.success ≡ true
      → (found : String × String × String) × ((validate out credentials tt).0 ≡ ok found)
        × Accepted (summary_answer found)
  unfolding test_connection
  test_connection-Accepted credentials result h good =
      validated-Accepted (validate out credentials tt).0 _ result h good
