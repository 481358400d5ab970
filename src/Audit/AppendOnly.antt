-- ===== src/Audit/AppendOnly.antt =====
-- The audit log as handlers may change it: rows are added at its end, and none is changed or lost.
use aurum_platform.Common.{
  ◌≡◌, refl, sym, ◌∙◌, ap, List, [], ◌∷◌, ◌++◌, append_assoc, append-nil, Option, ℕ,
}
use aurum_platform.Exec.{Exec, modify}
use aurum_platform.Exec.Respects.{IsPreorder, Respects}
use aurum_platform.Models.{World, Db, AuditRow}
use aurum_platform.Session.{modify_db, begin, serve}
use aurum_platform.Audit.{write_audit, scrubbed}

pub record Appends {C : Type 0} (s t : World C) : Type 0 where
  pub rows : List AuditRow
  pub grown : t.audit_log ≡ s.audit_log ++ rows

module _ {C : Type 0} where
  -- A change that leaves the log alone.
  pub Appends-none : (s t : World C) → t.audit_log ≡ s.audit_log → Appends s t
  Appends-none s t e = record { rows = []; grown = e ∙ sym (append-nil s.audit_log) }

  pub Appends-preorder : IsPreorder (Appends {C = C})
  Appends-preorder = record {
    rfl = λ s. Appends-none s s refl;
    trans = λ s t u p q. record {
      rows = p.rows ++ q.rows;
      grown = q.grown ∙ ap (λ x. x ++ q.rows) p.grown ∙ append_assoc s.audit_log p.rows q.rows;
    };
  }

  pub write_audit-Appends : (row : AuditRow) → Respects Appends (write_audit {C = C} row)
  unfolding write_audit
  write_audit-Appends row = record { at = λ s. record { rows = scrubbed row ∷ []; grown = refl } }

  pub modify-Appends :
      (f : World C → World C)
      → ((s : World C) → (f s).audit_log ≡ s.audit_log)
      → Respects Appends (modify f)
  unfolding modify
  modify-Appends f h = record { at = λ s. Appends-none s (f s) (h s) }

  pub modify_db-Appends :
      (f : Db → Db)
      → ((d : Db) → (f d).audit_log ≡ d.audit_log)
      → Respects Appends (modify_db {C = C} f)
  unfolding modify_db
  modify_db-Appends f h = record { at = λ s. Appends-none s _ (h s.db) }

  -- Over a whole request: what is committed afterwards is the log that was committed before it,
  -- with new rows at its end, whether the handler returned or raised.
  pub serve-Appends :
      {A : Type 0} (rid : Option ℕ) (m : Exec (World C) A) (w : World C)
      → Respects Appends m
      → (rows : List AuditRow) × ((serve rid m w).1.committed.audit_log
          ≡ w.committed.audit_log ++ rows)
  unfolding serve
  serve-Appends rid m w h = ((h.at (begin w)).rows, (h.at (begin w)).grown)
