-- ===== src/Exec/Respects.antt =====
-- Relations between the states before and after a handler, whether it returns or raises, with one
-- rule for each way to build a handler. An invariant `P` is the relation `λ s t. P s → P t`.
use aurum_platform.Common.{Bool, true, false, Option, none, some, if◌then◌else◌, ◌∙◌, ◌≡◌, refl}
use aurum_platform.Errors.{Exn}
use aurum_platform.Exec.{
  Result, ok, err, Exec, pure, raise, gets, or_raise, require, continue, recover, handle, ◌>>=◌,
}

pub record IsPreorder {S : Type 0} (R : S → S → Type 0) : Type 0 where
  pub rfl : (s : S) → R s s
  pub trans : (s t u : S) → R s t → R t u → R s u

pub record Respects {S A : Type 0} (R : S → S → Type 0) (m : Exec S A) : Type 0 where
  pub at : (s : S) → R s (m s).1

module _ {S : Type 0} {R : S → S → Type 0} (o : IsPreorder R) where
  module _ {A : Type 0} where
    pub Respects-pure : (a : A) → Respects R (pure a)
    unfolding pure
    Respects-pure a = record { at = λ s. o.rfl s }

    pub Respects-raise : (e : Exn) → Respects R (raise {A = A} e)
    unfolding raise
    Respects-raise e = record { at = λ s. o.rfl s }

    pub Respects-gets : (f : S → A) → Respects R (gets f)
    unfolding gets
    Respects-gets f = record { at = λ s. o.rfl s }

    pub Respects-or_raise : (x : Option A) (e : Exn) → Respects R (or_raise x e)
    unfolding or_raise
    Respects-or_raise none e = record { at = λ s. o.rfl s }
    Respects-or_raise (some a) e = record { at = λ s. o.rfl s }

  pub Respects-require : (b : Bool) (e : Exn) → Respects R (require b e)
  unfolding require
  Respects-require true e = record { at = λ s. o.rfl s }
  Respects-require false e = record { at = λ s. o.rfl s }

  module _ {A B : Type 0} where
    Respects-continue :
        (r : Result A) (f : A → Exec S B)
        → ((a : A) → Respects R (f a))
        → (s : S) → R s (continue r f s).1
    Respects-continue (ok a) f h s = (h a).at s
    Respects-continue (err e) f h s = o.rfl s

    pub Respects-bind :
        (m : Exec S A) (f : A → Exec S B)
        → Respects R m
        → ((a : A) → Respects R (f a))
        → Respects R (m >>= f)
    unfolding ◌>>=◌
    Respects-bind m f hm hf = record {
      at = λ s.
          let (r, t) = m s in o.trans s t (continue r f t).1 (hm.at s) (Respects-continue r f hf t);
    }

module _ {S A : Type 0} {R : S → S → Type 0} (o : IsPreorder R) where
  Respects-recover :
      (x : Result A) (h : Exn → Exec S A)
      → ((e : Exn) → Respects R (h e))
      → (s : S) → R s (recover x h s).1
  Respects-recover (ok a) h k s = o.rfl s
  Respects-recover (err e) h k s = (k e).at s

  pub Respects-handle :
      (m : Exec S A) (h : Exn → Exec S A)
      → Respects R m
      → ((e : Exn) → Respects R (h e))
      → Respects R (handle m h)
  unfolding handle
  Respects-handle m h hm hh = record {
    at = λ s.
        let (x, t) = m s in o.trans s t (recover x h t).1 (hm.at s) (Respects-recover x h hh t);
  }

module _ {S A : Type 0} {R : S → S → Type 0} where
  pub Respects-if :
      (b : Bool) (m n : Exec S A) → Respects R m → Respects R n → Respects R (if b then m else n)
  Respects-if true m n hm hn = hm
  Respects-if false m n hm hn = hn

pub ruleset respects_rules = (
  Respects-pure, Respects-raise, Respects-gets, Respects-or_raise, Respects-require, Respects-bind,
  Respects-if, Respects-handle,
)

-- A handler that only reads.
abbrev pub Same : {S : Type 0} → S → S → Type 0
Same s t = t ≡ s

pub Same-preorder : {S : Type 0} → IsPreorder (Same {S = S})
Same-preorder = record { rfl = λ s. refl; trans = λ s t u p q. q ∙ p }
