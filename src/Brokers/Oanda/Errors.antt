-- ===== src/Brokers/Oanda/Errors.antt =====
-- What `test_connection` of brokers/oanda_adapter.py makes of the errors it meets.
use aurum_platform.Common.{◌≡◌, refl, String, false, Option, none, some, ◌<>◌, text_or}
use aurum_platform.Json.{Value, Fields, null, str}
use aurum_platform.Errors.{
  Exn, BrokerError, broker_code, app, broker, invalid, ownership, lookup_error, crypto, network,
  http, request_validation, rate_limited, database, system_exit, other,
}
use aurum_platform.Exec.{Result, ok, err, recover, continue, or_raise, pure, handle, attempt, ◌>>=◌}
use aurum_platform.Brokers.{failure, TestResult, Call}
use aurum_platform.Brokers.Oanda.Wire.{Outside, validate, base_url, base_url_of}
use aurum_platform.Brokers.Oanda.Connection.{summary, test_failed, test_validated, test_connection}

-- The result of a failure, with its code and message and no values of an account.
pub record Fails (code message : String) (a : TestResult) : Type 0 where
  pub success : a.success ≡ false
  pub error_code : a.error_code ≡ some code
  pub error_message : a.error_message ≡ some message
  pub no_number : a.account_number ≡ null
  pub no_balance : a.balance ≡ null
  pub no_equity : a.equity ≡ null

-- An exception that is none of the broker and none of the network.
abbrev pub IsForeign : Exn → Type 0
IsForeign (broker kind message code) = ⊥
IsForeign (network class) = ⊥
IsForeign e = Unit

module _ (out : Outside) (credentials : Fields) where
  -- How a test of the credentials may end: by what `validate` and then `summary` have done.
  pub data Told : Result TestResult → Type 0 where
    answered :
        (found : String × String × String) (a : TestResult)
        → (validate out credentials tt).0 ≡ ok found
        → (summary out found tt).0 ≡ ok a
        → Told (ok a)
    bad_credentials :
        (message : String) (code : Option String) (a : TestResult)
        → (validate out credentials tt).0 ≡ err (broker invalid message code)
        → Fails "validation_error" message a
        → Told (ok a)
    broker_error :
        (found : String × String × String) (kind : BrokerError) (message : String)
        (code : Option String) (a : TestResult)
        → (validate out credentials tt).0 ≡ ok found
        → (summary out found tt).0 ≡ err (broker kind message code)
        → Fails (text_or code (broker_code kind)) message a
        → Told (ok a)
    network_error :
        (found : String × String × String) (class : String) (a : TestResult)
        → (validate out credentials tt).0 ≡ ok found
        → (summary out found tt).0 ≡ err (network class)
        → Fails "connection_error" ("network error: " <> class) a
        → Told (ok a)
    foreign_in_validate :
        (e : Exn) → IsForeign e → (validate out credentials tt).0 ≡ err e → Told (err e)
    foreign_in_summary :
        (found : String × String × String) (e : Exn)
        → IsForeign e
        → (validate out credentials tt).0 ≡ ok found
        → (summary out found tt).0 ≡ err e
        → Told (err e)

failure-Fails : (code message : String) → Fails code message (failure code message)
unfolding failure
failure-Fails code message = record {
  success = refl;
  error_code = refl;
  error_message = refl;
  no_number = refl;
  no_balance = refl;
  no_equity = refl;
}

-- A refusal of the credentials, or an error of Python itself.
abbrev Refusal : Exn → Type 0
Refusal (broker invalid message code) = Unit
Refusal (other class) = Unit
Refusal e = ⊥

abbrev Checked {ℓ} : {A : Type ℓ} → Result A → Type 0
Checked (ok a) = Unit
Checked (err e) = Refusal e

record Checks {A : Type 0} (m : Call A) : Type 0 where
  at : (s : Unit {0}) → Checked (m s).0

Checks-or_raise :
    {A : Type 0} (x : Option A) (message : String) (code : Option String)
    → Checks (or_raise x (broker invalid message code))
unfolding or_raise
Checks-or_raise none message code = record { at = λ s. tt }
Checks-or_raise (some a) message code = record { at = λ s. tt }

Checks-pure : {A : Type 0} (a : A) → Checks (pure a)
unfolding pure
Checks-pure a = record { at = λ s. tt }

continue-Checked :
    {A B : Type 0} (x : Result A) (f : A → Call B) (s : Unit {0})
    → Checked x
    → ((a : A) → Checks (f a))
    → Checked (continue x f s).0
continue-Checked (ok a) f s h hf = (hf a).at s
continue-Checked (err e) f s h hf = h

Checks-bind :
    {A B : Type 0} (m : Call A) (f : A → Call B)
    → Checks m
    → ((a : A) → Checks (f a))
    → Checks (m >>= f)
unfolding ◌>>=◌
Checks-bind m f hm hf = record { at = λ s. continue-Checked (m s).0 f (m s).1 (hm.at s) hf }

Checks-base_url : (env : Value) → Checks (base_url env)
unfolding base_url
Checks-base_url (str text) =
    Checks-or_raise (base_url_of text) "environment must be 'practice' or 'live'" none
Checks-base_url _ = record { at = λ s. tt }

Checks-validate : (out : Outside) (credentials : Fields) → Checks (validate out credentials)
unfolding validate
Checks-validate out credentials =
    search (Checks-bind, Checks-or_raise, Checks-base_url, Checks-pure) depth 12

module _ (out : Outside) (credentials : Fields) where
  module _ (found : String × String × String)
      (valid : (validate out credentials tt).0 ≡ ok found) where
    test_failed-Told :
        (e : Exn) → (summary out found tt).0 ≡ err e → Told out credentials (test_failed out e tt).0
    unfolding test_failed
    test_failed-Told (broker kind message code) h =
        broker_error found kind message code _ valid h (failure-Fails _ _)
    test_failed-Told (network class) h = network_error found class _ valid h (failure-Fails _ _)
    test_failed-Told (app kind message) h = foreign_in_summary found _ tt valid h
    test_failed-Told ownership h = foreign_in_summary found _ tt valid h
    test_failed-Told lookup_error h = foreign_in_summary found _ tt valid h
    test_failed-Told (crypto message) h = foreign_in_summary found _ tt valid h
    test_failed-Told (http status message) h = foreign_in_summary found _ tt valid h
    test_failed-Told request_validation h = foreign_in_summary found _ tt valid h
    test_failed-Told rate_limited h = foreign_in_summary found _ tt valid h
    test_failed-Told database h = foreign_in_summary found _ tt valid h
    test_failed-Told system_exit h = foreign_in_summary found _ tt valid h
    test_failed-Told (other class) h = foreign_in_summary found _ tt valid h

    recover-Told :
        (x : Result TestResult)
        → (summary out found tt).0 ≡ x
        → Told out credentials (recover x (test_failed out) tt).0
    recover-Told (ok a) h = answered found a valid h
    recover-Told (err e) h = test_failed-Told e h

  validated_Told :
      (x : Result (String × String × String))
      → (validate out credentials tt).0 ≡ x
      → Checked x
      → Told out credentials (test_validated out x tt).0
  unfolding test_validated handle
  validated_Told (ok found) valid h = recover-Told found valid (summary out found tt).0 refl
  validated_Told (err (broker invalid message code)) valid h =
      bad_credentials message code _ valid (failure-Fails _ _)
  validated_Told (err (other class)) valid h = foreign_in_validate (other class) tt valid
  validated_Told (err _) valid h = absurd h

  -- Whatever the credentials and whatever the server answers, `test_connection` returns what
  -- `summary` makes of the answer, or a failure with the code and the message of what went wrong:
  -- bad credentials, an error of the broker or one of the network. Nothing but an exception of
  -- another class comes out of it.
  pub test_connection-Told : Told out credentials (test_connection out credentials tt).0
  unfolding test_connection attempt ◌>>=◌
  test_connection-Told = validated_Told _ refl ((Checks-validate out credentials).at tt)
