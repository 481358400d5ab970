-- ===== src/Auth/Challenge.antt =====
-- The challenges of api/auth.py: kept in Redis under a key with the kind and a random identifier.
pub mod OneShot
pub mod Race
use aurum_platform.Common.{ℕ, String, Option, none, some, ◌<>◌}
use aurum_platform.Exec.{ok, Exec, pure, modify, ◌>>=◌, ◌>>◌}
use aurum_platform.Models.{World, Draws}
use aurum_platform.Services.{Services, Payload}

-- `_CHALLENGE_TTL_SECONDS`
abbrev pub challenge_ttl : ℕ
challenge_ttl = 300

-- `_challenge_key`
unfoldable pub challenge_key : String → String → String
challenge_key challenge_id kind = "webauthn:" <> kind <> ":" <> challenge_id

-- What a function asks of Redis: each command is one step of the server, and the answer of GET
-- decides what follows.
pub data Commands (A : Type 0) : Type 0 where
  returns : A → Commands A
  get_then : String → (Option Payload → Commands A) → Commands A
  delete_then : String → Commands A → Commands A

-- The second half of `_consume_challenge`, after the answer of GET: a challenge that is there is
-- deleted.
unfoldable pub consume_found : String → Option Payload → Commands (Option Payload)
consume_found key none = returns none
consume_found key (some payload) = delete_then key (returns (some payload))

-- The commands of `_consume_challenge`.
unfoldable pub consume_commands : String → Commands (Option Payload)
unfolding consume_found
consume_commands key = get_then key (consume_found key)

module _ {C : Type 0} (sv : Services C) where
  -- `_store_challenge`: the identifier comes from `secrets.token_urlsafe(24)`.
  unfoldable pub store_challenge : Draws → String → Payload → Exec (World C) String
  unfolding challenge_key ◌>>=◌
  store_challenge d kind payload = do
    let key = challenge_key d.challenge_id kind
    modify (λ w. record w { cache = sv.cache_set d.cache_now w.cache key payload challenge_ttl })
    pure d.challenge_id

  -- Commands to Redis, one after the other.
  unfoldable pub run_commands : {A : Type 0} → ℕ → Commands A → Exec (World C) A
  run_commands now (returns a) w = (ok a, w)
  run_commands now (get_then key next) w = run_commands now (next (sv.cache_get now w.cache key)) w
  run_commands now (delete_then key next) w =
      run_commands now next (record w { cache = sv.cache_delete w.cache key })

  -- `_consume_challenge`
  unfoldable pub consume_challenge : Draws → String → String → Exec (World C) (Option Payload)
  unfolding challenge_key run_commands consume_commands
  consume_challenge d kind challenge_id =
      run_commands d.cache_now (consume_commands (challenge_key challenge_id kind))
