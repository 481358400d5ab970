-- ===== src/Auth/Challenge/Race.antt =====
-- Two requests that consume one challenge of api/auth.py at the same time. The commands of
-- `_consume_challenge`, GET and DEL, reach Redis one by one, and those of the two requests in any
-- order that keeps the order of each.
use aurum_platform.Common.{
  ℕ, ◌≡◌, refl, ◌∙◌, ap, String, Option, none, some, List, [], ◌∷◌, eq_refl,
}
use aurum_platform.Exec.{ok}
use aurum_platform.Models.{World, Draws}
use aurum_platform.Services.{Services, IsRedis, Payload}
use aurum_platform.Auth.Challenge.{
  Commands, returns, get_then, delete_then, challenge_key, consume_found, consume_commands,
  run_commands, consume_challenge,
}

pub data Side : Type 0 where
  left right : Side

abbrev pub other : Side → Side
other left = right
other right = left

-- What is left of the commands of each request, and the state they share.
pub record Race (C A : Type 0) : Type 0 where
  pub of_left : Commands A
  pub of_right : Commands A
  pub shared : World C

abbrev pub of_side : {C A : Type 0} → Side → Race C A → Commands A
of_side left x = x.of_left
of_side right x = x.of_right

-- Two requests that begin to consume the same challenge.
abbrev pub both_consume : {C : Type 0} → String → World C → Race C (Option Payload)
both_consume key w = record {
  of_left = consume_commands key;
  of_right = consume_commands key;
  shared = w;
}

module _ {C : Type 0} (sv : Services C) (now : ℕ) where
  -- One command.
  unfoldable pub step : {A : Type 0} → Commands A → World C → Commands A × World C
  step (returns a) w = (returns a, w)
  step (get_then key next) w = (next (sv.cache_get now w.cache key), w)
  step (delete_then key next) w = (next, record w { cache = sv.cache_delete w.cache key })

  -- The next command of one request.
  unfoldable pub turn : {A : Type 0} → Side → Race C A → Race C A
  unfolding step
  turn left x =
      let (rest, w) = step x.of_left x.shared in
      record { of_left = rest; of_right = x.of_right; shared = w }
  turn right x =
      let (rest, w) = step x.of_right x.shared in
      record { of_left = x.of_left; of_right = rest; shared = w }

  -- The commands in the order in which they reach the server.
  unfoldable pub interleave : {A : Type 0} → List Side → Race C A → Race C A
  unfolding turn
  interleave [] x = x
  interleave (side ∷ sides) x = interleave sides (turn side x)

  -- At the end of the race the request of one side has the challenge, that of the other side has what
  -- is given here, and the challenge is deleted.
  pub record Ends (key : String) (p : Payload) (side : Side) (rival : Option Payload)
      (x : Race C (Option Payload)) : Type 0 where
    pub served : of_side side x ≡ returns (some p)
    pub rival_served : of_side (other side) x ≡ returns rival
    pub gone : sv.cache_get now x.shared.cache key ≡ none

module _ {C : Type 0} (sv : Services C) (laws : IsRedis sv) (d : Draws) (kind id : String)
    (p : Payload) (w : World C)
    (stored : sv.cache_get d.cache_now w.cache (challenge_key id kind) ≡ some p) where
  abbrev key : String
  key = challenge_key id kind

  deleted : (c : C) → sv.cache_get d.cache_now (sv.cache_delete c key) key ≡ none
  deleted c = laws.get-delete d.cache_now c key key ∙ rw eq_refl

  abbrev race : List Side → Race C (Option Payload)
  race sides = interleave sv d.cache_now sides (both_consume key w)

  apart :
      (a b : Side) → Ends sv d.cache_now key p a (some p) (race (a ∷ other a ∷ b ∷ other b ∷ []))
  unfolding interleave step consume_commands consume_found
  apart left left = simp stored (record { served = refl; rival_served = refl; gone = deleted _ })
  apart left right = simp stored (record { served = refl; rival_served = refl; gone = deleted _ })
  apart right left = simp stored (record { served = refl; rival_served = refl; gone = deleted _ })
  apart right right = simp stored (record { served = refl; rival_served = refl; gone = deleted _ })

  in_turn : (a : Side) → Ends sv d.cache_now key p a none (race (a ∷ a ∷ other a ∷ other a ∷ []))
  unfolding interleave step consume_commands consume_found
  in_turn left =
      simp (stored, deleted w.cache)
        (record { served = refl; rival_served = refl; gone = deleted w.cache })
  in_turn right =
      simp (stored, deleted w.cache)
        (record { served = refl; rival_served = refl; gone = deleted w.cache })

  alone : (a : Side) → consume_challenge sv d kind id w ≡ (ok (some p), (race (a ∷ a ∷ [])).shared)
  unfolding consume_challenge interleave step run_commands consume_commands consume_found
  alone left = ap (λ x. run_commands sv d.cache_now (consume_found key x) w) stored ∙ simp stored
  alone right = ap (λ x. run_commands sv d.cache_now (consume_found key x) w) stored ∙ simp stored

  -- With Redis as documented and a stored challenge, two commands of one request do what
  -- `_consume_challenge` does. Where all commands of one of two requests come before those of the
  -- other, only the first is given the challenge. In every other order of the commands, that is,
  -- where each has sent its GET before the first DEL, both are. In the end it is deleted.
  pub challenge_race :
      (a b : Side)
      → (consume_challenge sv d kind id w ≡ (
        ok (some p),
        (interleave sv d.cache_now (a ∷ a ∷ []) (both_consume (challenge_key id kind) w)).shared,
      ))
        × Ends sv d.cache_now (challenge_key id kind) p a none (
            interleave sv d.cache_now
              (a ∷ a ∷ other a ∷ other a ∷ [])
              (both_consume (challenge_key id kind) w))
        × Ends sv d.cache_now (challenge_key id kind) p a (some p) (
            interleave sv d.cache_now
              (a ∷ other a ∷ b ∷ other b ∷ [])
              (both_consume (challenge_key id kind) w))
  challenge_race a b = (alone a, in_turn a, apart a b)
