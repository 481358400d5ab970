-- ===== src/Audit.antt =====
-- core/audit.py: the scrubbing of metadata, and the one way to write an audit row.
pub mod Scrub
pub mod AppendOnly
use aurum_platform.Common.{
  String, Bool, Option, none, some, List, [], ◌∷◌, ◌++◌, any, codes, lower, same_codes,
  if◌then◌else◌,
}
use aurum_platform.Json.{Value, null, bool, int, float, str, arr, obj, Fields, end, field}
use aurum_platform.Exec.{Exec, modify}
use aurum_platform.Models.{World, AuditRow}
use aurum_platform.Session.{modify_db}

-- `_FORBIDDEN_KEYS`
abbrev pub forbidden_keys : List String
forbidden_keys =
    "password" ∷ "jwt" ∷ "access_token" ∷ "refresh_token" ∷ "token" ∷ "authorization" ∷ "cookie"
    ∷ "set-cookie" ∷ "credential" ∷ "credentials" ∷ "secret" ∷ "private_key" ∷ []

-- `k.lower() in _FORBIDDEN_KEYS`
unfoldable pub is_forbidden : String → Bool
unfolding any same_codes lower
is_forbidden k = any (λ w. same_codes (lower k) (codes w)) forbidden_keys

abbrev pub redacted : Value
redacted = str "[REDACTED]"

-- `_scrub` on a dict, and on a value under a key that is not forbidden.
unfoldable mutual
  pub scrub_fields : Fields → Fields
  scrub_fields end = end
  scrub_fields (field k v r) =
      let w = scrub_value v in
      let rest = scrub_fields r in field k (if is_forbidden k then redacted else w) rest

  pub scrub_value : Value → Value
  scrub_value (obj d) = obj (scrub_fields d)
  scrub_value null = null
  scrub_value (bool b) = bool b
  scrub_value (int n) = int n
  scrub_value (float s) = float s
  scrub_value (str s) = str s
  scrub_value (arr xs) = arr xs

-- `_scrub`
unfoldable pub scrub : Option Fields → Option Fields
unfolding scrub_fields
scrub none = none
scrub (some end) = some end
scrub (some (field k v r)) = some (scrub_fields (field k v r))

-- The row that `write_audit` adds.
unfoldable pub scrubbed : AuditRow → AuditRow
scrubbed row = record row { metadata = scrub row.metadata }

module _ {C : Type 0} where
  unfoldable pub write_audit : AuditRow → Exec (World C) (Unit {0})
  unfolding modify_db modify
  write_audit row = modify_db (λ d. record d { audit_log = d.audit_log ++ scrubbed row ∷ [] })
