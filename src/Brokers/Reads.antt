-- ===== src/Brokers/Reads.antt =====
-- The parts of the broker handlers that only read: they respect every relation that is a preorder.
use aurum_platform.Common.{ℕ, String, Option, none, some, List, [], ◌∷◌}
use aurum_platform.Json.{Value, obj, Fields}
use aurum_platform.Errors.{Exn, broker, ownership}
use aurum_platform.Exec.Respects.{
  Respects, Same, IsPreorder, respects_rules, Respects-if, Respects-bind, Respects-require,
}
use aurum_platform.Models.{World, BrokerAccount, User}
use aurum_platform.Services.{Services}
use aurum_platform.Crypto.{Sealing, dict_or_raise, decrypt_credentials}
use aurum_platform.Brokers.{Registry, Call, call, get_adapter}
use aurum_platform.Brokers.Store.{owned_row, load_owned_row, require_fields, load_credentials}
use aurum_platform.Brokers.Routes.{
  require_writer, owned_or_404, load_owned_or_404, ownership_to_404, live_failed, fetch_live,
  live_of,
}

module _ {S : Type 0} {R : S → S → Type 0} (o : IsPreorder R) where
  pub call-Respects : {A : Type 0} (m : Call A) → Respects R (call m)
  unfolding call
  call-Respects m = record { at = λ s. o.rfl s }

  pub get_adapter-Respects :
      (registry : Registry) (broker_type : String) → Respects R (get_adapter registry broker_type)
  unfolding get_adapter
  get_adapter-Respects registry broker_type = search (o, respects_rules)

  dict_or_raise-Respects : (sl : Sealing) (v : Value) → Respects R (dict_or_raise sl v)
  unfolding dict_or_raise
  dict_or_raise-Respects sl (obj r) = record { at = λ s. o.rfl s }
  dict_or_raise-Respects sl _ = record { at = λ s. o.rfl s }

  pub decrypt_credentials-Respects :
      (sl : Sealing) (ciphertext nonce : ℕ) → Respects R (decrypt_credentials sl ciphertext nonce)
  unfolding decrypt_credentials
  decrypt_credentials-Respects sl ciphertext nonce =
      search (o, respects_rules, dict_or_raise-Respects)

pub ruleset reads_rules =
    (respects_rules, call-Respects, get_adapter-Respects, decrypt_credentials-Respects)

module _ {C : Type 0} {R : World C → World C → Type 0} (o : IsPreorder R) where
  pub require_writer-Respects : (user : User) → Respects R (require_writer {C = C} user)
  unfolding require_writer
  require_writer-Respects user = search (o, respects_rules)

  owned_or_404-Respects :
      (user_id : ℕ) (x : Option BrokerAccount) → Respects R (owned_or_404 {C = C} user_id x)
  unfolding owned_or_404
  owned_or_404-Respects user_id none = record { at = λ s. o.rfl s }
  owned_or_404-Respects user_id (some row) = search (o, respects_rules)

  pub load_owned_or_404-Respects :
      (account_id user_id : ℕ) → Respects R (load_owned_or_404 {C = C} account_id user_id)
  unfolding load_owned_or_404
  load_owned_or_404-Respects account_id user_id = search (o, respects_rules, owned_or_404-Respects)

  owned_row-Respects :
      (user_id : ℕ) (x : Option BrokerAccount) → Respects R (owned_row {C = C} user_id x)
  unfolding owned_row
  owned_row-Respects user_id none = record { at = λ s. o.rfl s }
  owned_row-Respects user_id (some row) = search (o, respects_rules)

  pub load_owned_row-Respects :
      (account_id user_id : ℕ) → Respects R (load_owned_row {C = C} account_id user_id)
  unfolding load_owned_row
  load_owned_row-Respects account_id user_id = search (o, respects_rules, owned_row-Respects)

  pub require_fields-Respects :
      (names : List String) (storable : Fields) → Respects R (require_fields {C = C} names storable)
  unfolding require_fields
  require_fields-Respects [] storable = search (o, respects_rules)
  require_fields-Respects (name ∷ names) storable =
      Respects-bind o _ _ (Respects-require o _ _) λ _. require_fields-Respects names storable

  pub load_credentials-Respects :
      (sl : Sealing) (account_id user_id : ℕ)
      → Respects R (load_credentials {C = C} sl account_id user_id)
  unfolding load_credentials
  load_credentials-Respects sl account_id user_id = search (o, reads_rules, load_owned_row-Respects)

  pub ownership_to_404-Respects :
      {A : Type 0} (e : Exn) → Respects R (ownership_to_404 {C = C} {A = A} e)
  unfolding ownership_to_404
  ownership_to_404-Respects ownership = record { at = λ s. o.rfl s }
  ownership_to_404-Respects _ = record { at = λ s. o.rfl s }

  live_failed-Respects : (e : Exn) → Respects R (live_failed {C = C} e)
  unfolding live_failed
  live_failed-Respects (broker kind message code) = record { at = λ s. o.rfl s }
  live_failed-Respects _ = record { at = λ s. o.rfl s }

  fetch_live-Respects :
      (sv : Services C) (registry : Registry) (sl : Sealing) (row : BrokerAccount) (user : User)
      → Respects R (fetch_live sv registry sl row user)
  unfolding fetch_live
  fetch_live-Respects sv registry sl row user = search (o, reads_rules, load_credentials-Respects)

  pub live_of-Respects :
      (sv : Services C) (registry : Registry) (sl : Sealing) (row : BrokerAccount) (user : User)
      → Respects R (live_of sv registry sl row user)
  unfolding live_of
  live_of-Respects sv registry sl row user =
      search (o, reads_rules, fetch_live-Respects, live_failed-Respects)

pub ruleset broker_reads = (
  reads_rules, require_writer-Respects, load_owned_or_404-Respects, load_owned_row-Respects,
  require_fields-Respects, load_credentials-Respects, live_of-Respects, ownership_to_404-Respects,
)
