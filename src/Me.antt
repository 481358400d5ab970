-- ===== src/Me.antt =====
-- api/me.py: the current user and the passkeys of the current user.
pub mod Ownership
pub mod Appends
use aurum_platform.Common.{
  ℕ, suc, ◌≤◌, String, Bool, true, false, not, Option, none, some, List, [], ◌∷◌, ◌==◌, ◌<>◌, leb,
  length, find, select, update, discard, count, if◌then◌else◌,
}
use aurum_platform.Json.{Value, int, str, Fields, end, field}
use aurum_platform.Errors.{app, not_found, conflict}
use aurum_platform.Exec.{Exec, pure, raise, gets, ◌>>=◌, ◌>>◌}
use aurum_platform.Models.{World, User, Passkey, AuditRow, Request, Draws}
use aurum_platform.Services.{Services}
use aurum_platform.Session.{modify_db}
use aurum_platform.Audit.{write_audit}
use aurum_platform.Deps.{client_ip, get_current_user}

-- The row that the calls of `write_audit` in this file make: they pass the identifier of the
-- request on.
unfoldable pub audit_row : Request → String → String → ℕ → Option String → Option Fields → AuditRow
audit_row r action status user_id resource metadata = record {
  action = action;
  status = status;
  user_id = some user_id;
  resource = resource;
  ip_address = client_ip r;
  user_agent = r.user_agent;
  request_id = r.request_id;
  metadata = metadata;
}

abbrev pub owned_by : ℕ → Passkey → Bool
owned_by user_id p = p.user_id == user_id

abbrev pub has_id : ℕ → Passkey → Bool
has_id i p = p.id == i

-- Inserts a passkey before the first one that is older: `ORDER BY created_at DESC`, with the order
-- of the rows among equal times.
unfoldable pub insert_newest : Passkey → List Passkey → List Passkey
insert_newest p [] = p ∷ []
insert_newest p (q ∷ qs) =
    let rest = insert_newest p qs in if leb q.created_at p.created_at then p ∷ q ∷ qs else q ∷ rest

unfoldable pub newest_first : List Passkey → List Passkey
unfolding insert_newest
newest_first [] = []
newest_first (p ∷ ps) = insert_newest p (newest_first ps)

module _ {C : Type 0} where
  -- `get_me`, for the current user
  unfoldable pub read_me : Request → User → Exec (World C) User
  unfolding ◌>>=◌
  read_me r user = do
    write_audit (audit_row r "user.me.read" "success" user.id none none)
    pure user

  -- The query of `list_passkeys`.
  unfoldable pub passkeys_of : ℕ → World C → List Passkey
  passkeys_of user_id w = newest_first (select (owned_by user_id) w.passkeys)

  unfoldable pub list_own : Request → User → Exec (World C) (List Passkey)
  unfolding ◌>>=◌
  list_own r user = do
    rows ← gets (passkeys_of user.id)
    write_audit (
        audit_row r "user.passkeys.list" "success" user.id none
          (some (field "count" (int (length rows)) end)))
    pure rows

  -- `_load_owned_passkey`: a passkey that is not there and one of another user are both "not
  -- found".
  unfoldable pub owned_or_404 : ℕ → Option Passkey → Exec (World C) Passkey
  unfolding pure raise
  owned_or_404 user_id none = raise (app not_found "passkey not found")
  owned_or_404 user_id (some p) =
      if p.user_id == user_id then pure p else raise (app not_found "passkey not found")

  unfoldable pub load_owned_passkey : ℕ → ℕ → Exec (World C) Passkey
  unfolding owned_or_404 ◌>>=◌
  load_owned_passkey passkey_id user_id = do
    row ← gets (λ w. find (has_id passkey_id) w.passkeys)
    owned_or_404 user_id row

  -- `row.nickname = nickname`
  unfoldable pub set_nickname : ℕ → String → Exec (World C) (Unit {0})
  unfolding modify_db
  set_nickname passkey_id nickname = modify_db (λ d. record d {
    passkeys = update (has_id passkey_id) (λ p. record p { nickname = some nickname }) d.passkeys;
  })

  -- `session.delete(row)`
  unfoldable pub delete_passkey : ℕ → Exec (World C) (Unit {0})
  unfolding modify_db
  delete_passkey passkey_id =
      modify_db (λ d. record d { passkeys = discard (has_id passkey_id) d.passkeys })

  module _ (sv : Services C) where
    abbrev resource_of : ℕ → Option String
    resource_of i = some ("passkey:" <> sv.uuid_text i)

    unfoldable pub rename_own : Request → ℕ → String → User → Exec (World C) Passkey
    unfolding load_owned_passkey set_nickname ◌>>=◌
    rename_own r passkey_id nickname user = do
      row ← load_owned_passkey passkey_id user.id
      set_nickname row.id nickname
      write_audit (audit_row r "user.passkeys.rename" "success" user.id (resource_of row.id) none)
      pure (record row { nickname = some nickname })

    unfoldable pub refuse_last : Request → User → Passkey → Exec (World C) (Unit {0})
    unfolding ◌>>=◌
    refuse_last r user row = do
      write_audit (
          audit_row r "user.passkeys.remove" "failure" user.id (resource_of row.id)
            (some (field "reason" (str "would_leave_zero_passkeys") end)))
      raise (app conflict "cannot remove last passkey — register another device first")

    unfoldable pub delete_own : Request → ℕ → User → Passkey → Exec (World C) (Unit {0})
    unfolding delete_passkey ◌>>=◌
    delete_own r passkey_id user row = do
      delete_passkey row.id
      write_audit
          (audit_row r "user.passkeys.remove" "success" user.id (resource_of passkey_id) none)

    unfoldable pub remove_own : Request → ℕ → User → Exec (World C) (Unit {0})
    unfolding load_owned_passkey ◌>>=◌
    remove_own r passkey_id user = do
      row ← load_owned_passkey passkey_id user.id
      total ← gets (λ w. count (owned_by user.id) w.passkeys)
      if leb total 1 then refuse_last r user row else delete_own r passkey_id user row

    -- The routes.
    unfoldable pub get_me : Request → Draws → Exec (World C) User
    unfolding ◌>>=◌
    get_me r d = do user ← get_current_user sv r d; read_me r user

    unfoldable pub list_passkeys : Request → Draws → Exec (World C) (List Passkey)
    unfolding ◌>>=◌
    list_passkeys r d = do user ← get_current_user sv r d; list_own r user

    unfoldable pub rename_passkey : Request → Draws → ℕ → String → Exec (World C) Passkey
    unfolding ◌>>=◌
    rename_passkey r d passkey_id nickname = do
      user ← get_current_user sv r d
      rename_own r passkey_id nickname user

    unfoldable pub remove_passkey : Request → Draws → ℕ → Exec (World C) (Unit {0})
    unfolding ◌>>=◌
    remove_passkey r d passkey_id = do user ← get_current_user sv r d; remove_own r passkey_id user
