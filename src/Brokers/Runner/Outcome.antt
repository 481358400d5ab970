-- ===== src/Brokers/Runner/Outcome.antt =====
-- What a run of workers/mt5_runner.py leaves behind: one JSON object, and no connection.
use aurum_platform.Common.{
  ◌≡◌, refl, ap, subst, sym, String, Bool, true, false, List, [], ◌∷◌, ◌++◌,
}
use aurum_platform.Json.{Value, obj, Fields}
use aurum_platform.Errors.{Exn, system_exit}
use aurum_platform.Exec.{Result, ok, err, continue, recover, handle, ◌>>=◌}
use aurum_platform.Exec.Respects.{
  IsPreorder, Respects, Respects-pure, Respects-raise, respects_rules,
}
use aurum_platform.Services.{Attempt, returned, raised}
use aurum_platform.Brokers.Runner.{
  failure_payload, Process, Run, Terminal, emit, fail, read_request, check_or_fail,
}
use aurum_platform.Brokers.Runner.Operations.{operate}
use aurum_platform.Brokers.Runner.Script.{closed, shut_down, answer, main, unhandled, run_script}
use aurum_platform.Brokers.Runner.Protocol.{
  SaidError, Said, Speaks, Speaks-pure, Speaks-fail, Speaks-check_or_fail, Speaks-connect,
  Speaks-operate,
}

-- One more object, or what `SaidError` allows of an exception.
abbrev Wrote : {A : Type 0} → List Fields → Result A → List Fields → Type 0
Wrote before (ok a) after = (payload : Fields) × (after ≡ before ++ payload ∷ [])
Wrote before (err e) after = SaidError before e after

record Writes {A : Type 0} (m : Run A) : Type 0 where
  at : (s : Process) → Wrote s.stdout (m s).0 (m s).1.stdout

continue-Wrote :
    {A B : Type 0} (x : Result A) (f : A → Run B) (t : Process) (before : List Fields)
    → Said before x t.stdout
    → ((a : A) → Writes (f a))
    → Wrote before (continue x f t).0 (continue x f t).1.stdout
continue-Wrote (ok a) f t before h next =
    subst (λ out. Wrote out (f a t).0 (f a t).1.stdout) h ((next a).at t)
continue-Wrote (err e) f t before h next = h

Writes-bind :
    {A B : Type 0} (m : Run A) (f : A → Run B)
    → Speaks m
    → ((a : A) → Writes (f a))
    → Writes (m >>= f)
unfolding ◌>>=◌
Writes-bind m f hm hf = record { at = λ s. continue-Wrote (m s).0 f (m s).1 s.stdout (hm.at s) hf }

Writes-emit : (payload : Fields) → Writes (emit payload)
unfolding emit
Writes-emit payload = record { at = λ s. (payload, refl) }

Speaks-read_request : (stdin : Attempt Value) → Speaks (read_request stdin)
unfolding read_request
Speaks-read_request (raised text) = Speaks-fail _ _
Speaks-read_request (returned (obj o)) = Speaks-pure _
Speaks-read_request (returned _) = Speaks-fail _ _

module _ (mt5 : Terminal) where
  stdout-closed : (x : Attempt (Unit {0})) (p : Process) → (closed mt5 x p).stdout ≡ p.stdout
  unfolding closed
  stdout-closed (returned u) p = refl
  stdout-closed (raised text) p = refl

  Writes-shut_down : {A : Type 0} (m : Run A) → Writes m → Writes (shut_down mt5 m)
  unfolding shut_down
  Writes-shut_down m h = record {
    at = λ s.
        subst (λ out. Wrote s.stdout (m s).0 out) (sym (stdout-closed mt5.shutdown (m s).1))
          (h.at s);
  }

  Writes-answer : (request : Fields) → Writes (answer mt5 request)
  unfolding answer operate
  Writes-answer request = search (Writes-bind, Writes-emit, Speaks-connect, Speaks-operate) depth 8

  Writes-main : (stdin : Attempt Value) → Writes (main mt5 stdin)
  unfolding main
  Writes-main stdin =
      search
        (Writes-bind, Writes-shut_down, Writes-answer, Speaks-read_request, Speaks-check_or_fail)
        depth 8

  rescued :
      (x : Result (Unit {0})) (t : Process) (before : List Fields)
      → Wrote before x t.stdout
      → (payload : Fields) × ((recover x (unhandled mt5) t).1.stdout ≡ before ++ payload ∷ [])
  unfolding unhandled
  rescued (ok a) t before h = h
  rescued (err system_exit) t before h = h
  rescued (err e) t before h =
      let payload = failure_payload "UNHANDLED" (mt5.describe e) in
      (payload, ap (λ out. out ++ payload ∷ []) h)

  -- Whatever it is asked and whatever the terminal does, a run of the script writes one JSON object
  -- to the standard output.
  pub run_script_writes_one :
      (stdin : Attempt Value) (s : Process)
      → (payload : Fields) × ((run_script mt5 stdin s).1.stdout ≡ s.stdout ++ payload ∷ [])
  unfolding run_script handle
  run_script_writes_one stdin s =
      rescued (main mt5 stdin s).0 (main mt5 stdin s).1 s.stdout ((Writes-main stdin).at s)

-- No new connection is left.
record StaysOff (s t : Process) : Type 0 where
  off : s.connected ≡ false → t.connected ≡ false

StaysOff-preorder : IsPreorder StaysOff
StaysOff-preorder = record {
  rfl = λ s. record { off = λ h. h };
  trans = λ s t u p q. record { off = λ h. q.off (p.off h) };
}

emit-StaysOff : (payload : Fields) → Respects StaysOff (emit payload)
unfolding emit
emit-StaysOff payload = record { at = λ s. record { off = λ h. h } }

fail-StaysOff : {A : Type 0} (code message : String) → Respects StaysOff (fail {A = A} code message)
unfolding fail
fail-StaysOff code message = search (StaysOff-preorder, respects_rules, emit-StaysOff)

read_request-StaysOff : (stdin : Attempt Value) → Respects StaysOff (read_request stdin)
unfolding read_request
read_request-StaysOff (raised text) = fail-StaysOff _ _
read_request-StaysOff (returned (obj o)) = Respects-pure StaysOff-preorder o
read_request-StaysOff (returned _) = fail-StaysOff _ _

check_or_fail-StaysOff :
    (b : Bool) (code message : String) → Respects StaysOff (check_or_fail b code message)
unfolding check_or_fail
check_or_fail-StaysOff true code message = Respects-pure StaysOff-preorder tt
check_or_fail-StaysOff false code message = fail-StaysOff code message

module _ (mt5 : Terminal) (shuts : mt5.shutdown ≡ returned tt) where
  shut_down-StaysOff : {A : Type 0} (m : Run A) → Respects StaysOff (shut_down mt5 m)
  unfolding shut_down closed
  shut_down-StaysOff m = record { at = λ s. record { off = λ h. simp shuts } }

  unhandled-StaysOff : (e : Exn) → Respects StaysOff (unhandled mt5 e)
  unfolding unhandled
  unhandled-StaysOff system_exit = Respects-raise StaysOff-preorder system_exit
  unhandled-StaysOff e = fail-StaysOff "UNHANDLED" (mt5.describe e)

  run_script-StaysOff : (stdin : Attempt Value) → Respects StaysOff (run_script mt5 stdin)
  unfolding run_script main
  run_script-StaysOff stdin =
      search
        (
          StaysOff-preorder, respects_rules, unhandled-StaysOff, shut_down-StaysOff,
          check_or_fail-StaysOff, read_request-StaysOff,
        )
        depth 8

  -- Where the shutdown of the terminal does not raise, a run, however it ends, leaves no connection
  -- where there was none before.
  pub run_script_disconnects :
      (stdin : Attempt Value) (s : Process)
      → s.connected ≡ false
      → (run_script mt5 stdin s).1.connected ≡ false
  run_script_disconnects stdin s h = ((run_script-StaysOff stdin).at s).off h
