-- ===== src/Security.antt =====
-- core/security.py: access tokens and refresh tokens. Times are microseconds; a claim's time is in
-- whole seconds, `int(t.timestamp())`. The two lifetimes are the defaults of config.py.
use aurum_platform.Common.{ℕ, ◌+◌, ◌*◌, ◌/◌, String, none, some, str_eq, if◌then◌else◌, ◌<>◌}
use aurum_platform.Models.{Role, owner, member, viewer, Draws}
use aurum_platform.Services.{Services, Claims, Attempt, returned, raised}

-- `JWT_ACCESS_TTL_SECONDS` and `JWT_REFRESH_TTL_SECONDS`
abbrev pub access_ttl : ℕ
access_ttl = 900

abbrev pub refresh_ttl : ℕ
refresh_ttl = 30 * 24 * 3600

abbrev pub second : ℕ
second = 1000000

-- `role.value`
unfoldable pub role_text : Role → String
role_text owner = "OWNER"
role_text member = "MEMBER"
role_text viewer = "VIEWER"

unfoldable pub has_type : Claims → String → Attempt Claims
has_type c t = elim c.typ [
  | none ↦ raised "wrong token type"
  | some s ↦ if str_eq s t then returned c else raised "wrong token type"
]

module _ {C : Type 0} (sv : Services C) where
  -- The payload of a token, and the token with the time at which it expires.
  unfoldable pub access_claims : Draws → ℕ → Role → Claims
  unfolding role_text
  access_claims d user_id role = record {
    sub = some (sv.uuid_text user_id);
    role = some (role_text role);
    iat = d.access_now / second;
    exp = (d.access_now + access_ttl * second) / second;
    jti = d.jti;
    typ = some "access";
  }

  unfoldable pub create_access_token : Draws → ℕ → Role → String × ℕ
  unfolding access_claims
  create_access_token d user_id role =
      (sv.jwt_encode (access_claims d user_id role), d.access_now + access_ttl * second)

  -- `jwt.decode` under the clock of the request, and the test of `typ`. `raised` is the
  -- `ValueError` with its text.
  unfoldable pub decode_access_token : ℕ → String → Attempt Claims
  unfolding has_type
  decode_access_token now token = elim (sv.jwt_decode (now / second) token) [
    | raised text ↦ raised ("invalid token: " <> text)
    | returned c ↦ has_type c "access"
  ]

  -- The opaque token, its digest and the time at which it expires.
  unfoldable pub generate_refresh_token : Draws → String × ℕ × ℕ
  generate_refresh_token d =
      (d.raw_refresh, sv.sha256 d.raw_refresh, d.refresh_now + refresh_ttl * second)

  unfoldable pub hash_refresh_token : String → ℕ
  hash_refresh_token raw = sv.sha256 raw
