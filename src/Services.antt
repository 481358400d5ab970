-- ===== src/Services.antt =====
-- What the backend calls and does not implement, as a record of functions: the hash, the token and
-- identifier formats, the WebAuthn library and Redis. The documented behaviour that a theorem needs
-- is a record of laws beside it.
use aurum_platform.Common.{
  ℕ, ◌+◌, ◌≤◌, ◌≡◌, String, Option, none, some, List, str_eq, if◌then◌else◌, ltb, ◌⊎◌, inl, inr,
  refl,
}
use aurum_platform.Json.{Value, Fields}
use aurum_platform.Models.{User}

-- A call that may raise, with the text of the exception.
pub data Attempt {ℓ} (A : Type ℓ) : Type ℓ where
  returned : A → Attempt A
  raised : String → Attempt A

-- The claims of an access token. A claim that a decoded token lacks is `none`.
pub record Claims : Type 0 where
  pub sub : Option String
  pub role : Option String
  pub iat : ℕ
  pub exp : ℕ
  pub jti : String
  pub typ : Option String

pub record Verification : Type 0 where
  pub credential_id : ℕ
  pub public_key : ℕ
  pub sign_count : ℕ

-- The JSON object that a challenge is kept as, without its encoding: `register` has the keys
-- `user_id`, `challenge_b64` and `nickname`, `login` has `challenge_b64` and `user_hint_id`.
pub data Payload : Type 0 where
  register : ℕ → ℕ → Option String → Payload
  login : ℕ → Option ℕ → Payload

pub record Services (C : Type 0) : Type 0 where
  -- `hashlib.sha256(raw.encode("utf-8")).digest()`
  pub sha256 : String → ℕ
  -- `str(id)` and `uuid.UUID(text)`
  pub uuid_text : ℕ → String
  pub parse_uuid : String → Option ℕ
  -- `t.isoformat()`
  pub iso : ℕ → String
  -- `base64.urlsafe_b64decode`
  pub decode_b64 : String → Option ℕ
  -- `jwt.encode`, and `jwt.decode` at a time in seconds
  pub jwt_encode : Claims → String
  pub jwt_decode : ℕ → String → Attempt Claims
  -- `options_to_json` of the generated options
  pub registration_options : ℕ → User → List ℕ → Value
  pub authentication_options : ℕ → List ℕ → Value
  -- `verify_registration_response` and `verify_authentication_response`
  pub verify_registration : Fields → ℕ → Attempt Verification
  pub verify_authentication : Fields → ℕ → ℕ → ℕ → Attempt ℕ
  -- Redis: GET, SET with EX, DEL, at a time in seconds
  pub cache_get : ℕ → C → String → Option Payload
  pub cache_set : ℕ → C → String → Payload → ℕ → C
  pub cache_delete : C → String → C

-- Redis as documented: a key holds what was last set, until its time to live is over or it is
-- deleted.
pub record IsRedis {C : Type 0} (sv : Services C) : Type 0 where
  pub get-set :
      (t now : ℕ) (c : C) (k j : String) (p : Payload) (ttl : ℕ)
      → sv.cache_get t (sv.cache_set now c k p ttl) j
        ≡ (if str_eq k j then if ltb t (now + ttl) then some p else none else sv.cache_get t c j)
  pub get-delete :
      (t : ℕ) (c : C) (k j : String)
      → sv.cache_get t (sv.cache_delete c k) j ≡ (if str_eq k j then none else sv.cache_get t c j)
  pub stays_gone :
      (t u : ℕ) (c : C) (k : String) → t ≤ u → sv.cache_get t c k ≡ none → sv.cache_get u c k ≡ none

-- A signed token is decoded to its claims until it expires, and an identifier is read back from its
-- text.
pub record IsJwt {C : Type 0} (sv : Services C) : Type 0 where
  pub decode-encode :
      (now : ℕ) (c : Claims)
      → now ≤ c.exp
      → sv.jwt_decode now (sv.jwt_encode c) ≡ Attempt.returned c
  pub parse-text : (i : ℕ) → sv.parse_uuid (sv.uuid_text i) ≡ some i

pub Attempt-cases {ℓ} :
    {A : Type ℓ} (x : Attempt A)
    → ((a : A) × (x ≡ Attempt.returned a)) ⊎ ((text : String) × (x ≡ Attempt.raised text))
Attempt-cases (returned a) = inl (a, refl)
Attempt-cases (raised text) = inr (text, refl)
