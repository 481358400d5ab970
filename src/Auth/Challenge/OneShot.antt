-- ===== src/Auth/Challenge/OneShot.antt =====
-- How long a challenge of api/auth.py lives, and that it is used at most once by requests that
-- come one after the other.
use aurum_platform.Common.{
  ℕ, ◌+◌, ◌≤◌, ◌≡◌, ◌≢◌, refl, ◌∙◌, String, Option, none, some, arith, ltb, if◌then◌else◌, eq_refl,
  ap, zero, suc,
}
use aurum_platform.Exec.{ok}
use aurum_platform.Models.{World, Draws}
use aurum_platform.Services.{Services, IsRedis, Payload}
use aurum_platform.Auth.Challenge.{
  challenge_ttl, challenge_key, store_challenge, run_commands, consume_found, consume_challenge,
}
use Prim.Native.Char.{code}

-- The code point at a position, and 0 past the end.
abbrev code_at : ℕ → String → ℕ
code_at n String.[] = 0
code_at zero (String.◌∷◌ c s) = code c
code_at (suc n) (String.◌∷◌ c s) = code_at n s

-- No key of a registration is the key of a login.
pub challenge_keys_differ : (i j : String) → challenge_key i "register" ≢ challenge_key j "login"
unfolding challenge_key
challenge_keys_differ i j e = absurd (omega (arith, ap (code_at 9) e))

module _ {C : Type 0} (sv : Services C) where
  -- `_consume_challenge` returns what GET finds, and leaves the database alone.
  pub consume_returns :
      (d : Draws) (kind id : String) (w : World C)
      → ((consume_challenge sv d kind id w).0
          ≡ ok (sv.cache_get d.cache_now w.cache (challenge_key id kind)))
        × ((consume_challenge sv d kind id w).1.db ≡ w.db)
  unfolding consume_challenge run_commands
  consume_returns d kind id w = cases (sv.cache_get d.cache_now w.cache (challenge_key id kind))
    where
      cases :
          (x : Option Payload)
          → ((run_commands sv d.cache_now (consume_found (challenge_key id kind) x) w).0 ≡ ok x)
            × ((run_commands sv d.cache_now (consume_found (challenge_key id kind) x) w).1.db
                ≡ w.db)
      cases none = (refl, refl)
      cases (some p) = (refl, refl)

module _ {C : Type 0} (sv : Services C) (laws : IsRedis sv) where
  -- A stored challenge is returned, with its payload, to a request that comes less than 300 seconds
  -- later, and to none that comes after that.
  pub challenge_lifetime :
      (d d' : Draws) (kind : String) (p : Payload) (w : World C)
      → (consume_challenge sv d' kind d.challenge_id (store_challenge sv d kind p w).1).0
        ≡ ok (if ltb d'.cache_now (d.cache_now + 300) then some p else none)
  unfolding store_challenge
  challenge_lifetime d d' kind p w =
      (consume_returns sv d' kind d.challenge_id (store_challenge sv d kind p w).1).0
      ∙ ap ok (
          laws.get-set d'.cache_now d.cache_now w.cache (challenge_key d.challenge_id kind)
            (challenge_key d.challenge_id kind) p challenge_ttl
          ∙ rw eq_refl)

  found_gone :
      (key : String) (now t : ℕ) (x : Option Payload) (w : World C)
      → now ≤ t
      → sv.cache_get now w.cache key ≡ x
      → sv.cache_get t (run_commands sv now (consume_found key x) w).1.cache key ≡ none
  unfolding run_commands consume_found
  found_gone key now t none w h e = laws.stays_gone now t w.cache key h e
  found_gone key now t (some p) w h e = laws.get-delete t w.cache key key ∙ rw eq_refl

  -- After `_consume_challenge` no later request gets the challenge again.
  pub consume_once :
      (d d' : Draws) (kind id : String) (w : World C)
      → d.cache_now ≤ d'.cache_now
      → (consume_challenge sv d' kind id (consume_challenge sv d kind id w).1).0 ≡ ok none
  unfolding consume_challenge
  consume_once d d' kind id w later =
      (consume_returns sv d' kind id _).0
      ∙ ap ok (found_gone (challenge_key id kind) d.cache_now d'.cache_now _ w later refl)
