-- ===== src/Brokers/Runner/Protocol.antt =====
-- What the parts of workers/mt5_runner.py leave on the standard output.
use aurum_platform.Common.{
  ◌≡◌, refl, subst, String, Bool, true, false, Option, none, some, List, [], ◌∷◌, ◌++◌,
  if◌then◌else◌, any, str_eq,
}
use aurum_platform.Json.{Value, obj, Fields, get}
use aurum_platform.Errors.{Exn, other, system_exit}
use aurum_platform.Exec.{Result, ok, err, pure, raise, continue, recover, or_raise, handle, ◌>>=◌}
use aurum_platform.Services.{Attempt, returned, raised}
use aurum_platform.Brokers.{call}
use aurum_platform.Brokers.Dicts.{lift, as_dict, item}
use aurum_platform.Brokers.Runner.{
  Process, Run, OpenPosition, Terminal, fail, some_or_fail, check_or_fail, connect, login_of,
  bad_account, set_connected, not_initialized,
}
use aurum_platform.Brokers.Runner.Operations.{
  op_test_connection, op_get_account_info, op_get_positions, op_get_tick, operate_named, float_if,
  position_fields, positions_fields,
}

-- What an end of a part of the script leaves on an output: an exit comes after one more object, and
-- any other end leaves the output as it was.
abbrev pub SaidError : List Fields → Exn → List Fields → Type 0
SaidError before system_exit after = (payload : Fields) × (after ≡ before ++ payload ∷ [])
SaidError before e after = after ≡ before

abbrev pub Said : {A : Type 0} → List Fields → Result A → List Fields → Type 0
Said before (ok a) after = after ≡ before
Said before (err e) after = SaidError before e after

pub record Speaks {A : Type 0} (m : Run A) : Type 0 where
  pub at : (s : Process) → Said s.stdout (m s).0 (m s).1.stdout

pub Speaks-pure : {A : Type 0} (a : A) → Speaks (pure a)
unfolding pure
Speaks-pure a = record { at = λ s. refl }

pub Speaks-fail : {A : Type 0} (code message : String) → Speaks (fail {A = A} code message)
unfolding fail
Speaks-fail code message = record { at = λ s. (_, refl) }

Speaks-lift : {A : Type 0} (x : Attempt A) → Speaks (call (lift x))
unfolding call lift
Speaks-lift (returned a) = record { at = λ s. refl }
Speaks-lift (raised class) = record { at = λ s. refl }

Speaks-as_dict : (v : Value) → Speaks (call (as_dict v))
unfolding call as_dict
Speaks-as_dict (obj o) = record { at = λ s. refl }
Speaks-as_dict _ = record { at = λ s. refl }

Speaks-found : (x : Option Value) (class : String) → Speaks (call (or_raise x (other class)))
unfolding call or_raise
Speaks-found none class = record { at = λ s. refl }
Speaks-found (some v) class = record { at = λ s. refl }

Speaks-item : (k : String) (v : Value) → Speaks (call (item k v))
unfolding call item
Speaks-item k (obj o) = record { at = λ s. (Speaks-found (get k o) "KeyError").at s }
Speaks-item k _ = record { at = λ s. refl }

Speaks-set_connected : (b : Bool) → Speaks (set_connected b)
unfolding set_connected
Speaks-set_connected b = record { at = λ s. refl }

continue-Said :
    {A B : Type 0} (x : Result A) (f : A → Run B) (t : Process) (before : List Fields)
    → Said before x t.stdout
    → ((a : A) → Speaks (f a))
    → Said before (continue x f t).0 (continue x f t).1.stdout
continue-Said (ok a) f t before h next =
    subst (λ out. Said out (f a t).0 (f a t).1.stdout) h ((next a).at t)
continue-Said (err e) f t before h next = h

Speaks-bind :
    {A B : Type 0} (m : Run A) (f : A → Run B)
    → Speaks m
    → ((a : A) → Speaks (f a))
    → Speaks (m >>= f)
unfolding ◌>>=◌
Speaks-bind m f hm hf = record { at = λ s. continue-Said (m s).0 f (m s).1 s.stdout (hm.at s) hf }

Speaks-if :
    {A : Type 0} (b : Bool) (m n : Run A) → Speaks m → Speaks n → Speaks (if b then m else n)
Speaks-if true m n hm hn = hm
Speaks-if false m n hm hn = hn

Speaks-some_or_fail :
    {A : Type 0} (x : Option A) (code message : String) → Speaks (some_or_fail x code message)
unfolding some_or_fail
Speaks-some_or_fail none code message = Speaks-fail code message
Speaks-some_or_fail (some a) code message = Speaks-pure a

pub Speaks-check_or_fail :
    (b : Bool) (code message : String) → Speaks (check_or_fail b code message)
unfolding check_or_fail
Speaks-check_or_fail true code message = Speaks-pure tt
Speaks-check_or_fail false code message = Speaks-fail code message

-- A handler of exceptions lets an exit through, and speaks after any other exception.
abbrev Handles : {A : Type 0} → (Exn → Run A) → Exn → Type 0
Handles h system_exit = h system_exit ≡ raise system_exit
Handles h e = Speaks (h e)

handled_Said :
    {A : Type 0} (h : Exn → Run A) (e : Exn) (t : Process) (before : List Fields)
    → SaidError before e t.stdout
    → Handles h e
    → Said before (h e t).0 (h e t).1.stdout
unfolding raise
handled_Said h system_exit t before said k = rw k said
handled_Said h e t before said k = subst (λ out. Said out (h e t).0 (h e t).1.stdout) said (k.at t)

recover-Said :
    {A : Type 0} (x : Result A) (h : Exn → Run A) (t : Process) (before : List Fields)
    → Said before x t.stdout
    → ((e : Exn) → Handles h e)
    → Said before (recover x h t).0 (recover x h t).1.stdout
recover-Said (ok a) h t before said next = said
recover-Said (err e) h t before said next = handled_Said h e t before said (next e)

Speaks-handle :
    {A : Type 0} (m : Run A) (h : Exn → Run A)
    → Speaks m
    → ((e : Exn) → Handles h e)
    → Speaks (handle m h)
unfolding handle
Speaks-handle m h hm hh = record { at = λ s. recover-Said (m s).0 h (m s).1 s.stdout (hm.at s) hh }

bad_account-Handles : (e : Exn) → Handles bad_account e
unfolding bad_account
bad_account-Handles system_exit = refl
bad_account-Handles (other class) =
    Speaks-if (any (str_eq class) ("KeyError" ∷ "TypeError" ∷ "ValueError" ∷ [])) _ _
      (Speaks-fail _ _) (record { at = λ s. refl })
bad_account-Handles _ = record { at = λ s. refl }

ruleset speaks_rules = (
  Speaks-pure, Speaks-fail, Speaks-lift, Speaks-as_dict, Speaks-item, Speaks-set_connected,
  Speaks-bind, Speaks-if, Speaks-some_or_fail, Speaks-check_or_fail,
)

module _ (mt5 : Terminal) where
  Speaks-login_of : (credentials : Value) → Speaks (login_of mt5 credentials)
  unfolding login_of
  Speaks-login_of credentials = search speaks_rules

  Speaks-login : (credentials : Value) → Speaks (handle (login_of mt5 credentials) bad_account)
  Speaks-login credentials =
      Speaks-handle (login_of mt5 credentials) bad_account (Speaks-login_of credentials)
        bad_account-Handles

  Speaks-not_initialized : Speaks (not_initialized mt5)
  unfolding not_initialized
  Speaks-not_initialized = search speaks_rules

  pub Speaks-connect : (credentials : Value) → Speaks (connect mt5 credentials)
  unfolding connect
  Speaks-connect credentials = search (speaks_rules, Speaks-login, Speaks-not_initialized) depth 12

  Speaks-float_if : (b : Bool) (v : Value) → Speaks (float_if mt5 b v)
  unfolding float_if
  Speaks-float_if true v = search speaks_rules
  Speaks-float_if false v = search speaks_rules

  Speaks-position_fields : (p : OpenPosition) → Speaks (position_fields mt5 p)
  unfolding position_fields
  Speaks-position_fields p = search (speaks_rules, Speaks-float_if) depth 16

  Speaks-positions_fields : (ps : List OpenPosition) → Speaks (positions_fields mt5 ps)
  unfolding positions_fields
  Speaks-positions_fields [] = search speaks_rules
  Speaks-positions_fields (p ∷ ps) =
      Speaks-bind _ _ (Speaks-position_fields p)
        λ fields. Speaks-bind _ _ (Speaks-positions_fields ps) λ more. Speaks-pure _

  pub Speaks-operate :
      (name : Option String) (operation args : Value)
      → Speaks (operate_named mt5 name operation args)
  unfolding operate_named op_test_connection op_get_account_info op_get_positions op_get_tick
  Speaks-operate none operation args = Speaks-fail _ _
  Speaks-operate (some name) operation args =
      search (speaks_rules, Speaks-float_if, Speaks-positions_fields) depth 20
