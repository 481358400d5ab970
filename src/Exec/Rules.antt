-- ===== src/Exec/Rules.antt =====
-- What a handler that runs from one given state does to it, with one rule for each way to build a
-- handler whose first part is known.
use aurum_platform.Common.{◌≡◌, ◌⊎◌, inl, inr, sym, subst}
use aurum_platform.Errors.{Exn}
use aurum_platform.Exec.{Result, ok, err, Exec, continue, recover, handle, ◌>>=◌}
use aurum_platform.Exec.Respects.{IsPreorder, Respects, Same}

pub record Leads {S A : Type 0} (R : S → S → Type 0) (s : S) (m : Exec S A) : Type 0 where
  pub at : R s (m s).1

module _ {S : Type 0} {R : S → S → Type 0} (o : IsPreorder R) (s : S) where
  pub Leads-always : {A : Type 0} (m : Exec S A) → Respects R m → Leads R s m
  Leads-always m h = record { at = h.at s }

  module _ {A B : Type 0} where
    continue_rule :
        (x : Result A) (f : A → Exec S B) → ((a : A) → Leads R s (f a)) → R s (continue x f s).1
    continue_rule (ok a) f next = (next a).at
    continue_rule (err e) f next = o.rfl s

    -- A first part that only reads.
    pub Leads-read :
        (m : Exec S A) (f : A → Exec S B)
        → Respects Same m
        → ((a : A) → Leads R s (f a))
        → Leads R s (m >>= f)
    unfolding ◌>>=◌
    Leads-read m f same next = record {
      at =
          subst (λ t. R s (continue (m s).0 f t).1) (sym (same.at s))
            (continue_rule (m s).0 f next);
    }

    after_rule :
        (x : Result A) (f : A → Exec S B) (t : S)
        → R s t
        → ((a : A) → Respects R (f a))
        → R s (continue x f t).1
    after_rule (ok a) f t here next = o.trans s t _ here ((next a).at t)
    after_rule (err e) f t here next = here

    -- A first part that is followed by what respects the relation from every state.
    pub Leads-then :
        (m : Exec S A) (f : A → Exec S B)
        → Leads R s m
        → ((a : A) → Respects R (f a))
        → Leads R s (m >>= f)
    unfolding ◌>>=◌
    Leads-then m f here next = record { at = after_rule (m s).0 f (m s).1 here.at next }

  module _ {A : Type 0} where
    recover_rule :
        (x : Result A) (h : Exn → Exec S A) (t : S)
        → R s t
        → ((e : Exn) → Respects R (h e))
        → R s (recover x h t).1
    recover_rule (ok a) h t here next = here
    recover_rule (err e) h t here next = o.trans s t _ here ((next e).at t)

    pub Leads-handle :
        (m : Exec S A) (h : Exn → Exec S A)
        → Leads R s m
        → ((e : Exn) → Respects R (h e))
        → Leads R s (handle m h)
    unfolding handle
    Leads-handle m h here next = record { at = recover_rule (m s).0 h (m s).1 here.at next }

result_cases :
    {S A : Type 0} (x : Result A × S) (s : S)
    → x.1 ≡ s
    → ((a : A) × (x ≡ (ok a, s))) ⊎ ((e : Exn) × (x ≡ (err e, s)))
result_cases (ok a, t) s k = inl (a, cc)
result_cases (err e, t) s k = inr (e, cc)

-- What a handler that only reads gives: a value or an error, and the state as it was.
pub Same-cases :
    {S A : Type 0} (m : Exec S A) (s : S)
    → Respects Same m
    → ((a : A) × (m s ≡ (ok a, s))) ⊎ ((e : Exn) × (m s ≡ (err e, s)))
Same-cases m s same = result_cases (m s) s (same.at s)
