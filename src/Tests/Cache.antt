-- ===== src/Tests/Cache.antt =====
-- A cache as a list of entries, services on it, and small states.
use aurum_platform.Common.{
  ℕ, ◌+◌, ◌*◌, ◌≤◌, ◌≡◌, refl, String, Bool, true, false, Option, none, some, List, [], ◌∷◌, arith,
  ltb, str_eq, eq_iff, if◌then◌else◌, codes,
}
use aurum_platform.Json.{null}
use aurum_platform.Models.{
  World, Db, User, Passkey, RefreshToken, Request, Draws, empty_db, member, untouched,
}
use aurum_platform.Services.{Services, IsRedis, Claims, Payload, returned, raised}

-- Entries with the time from which they are gone.
abbrev pub Cache : Type 0
Cache = List (String × Payload × ℕ)

unfoldable pub lookup : ℕ → Cache → String → Option Payload
lookup t [] k = none
lookup t ((j, p, until) ∷ c) k =
    let rest = lookup t c k in if str_eq j k then if ltb t until then some p else none else rest

unfoldable pub remove : Cache → String → Cache
remove [] k = []
remove ((j, p, until) ∷ c) k =
    let rest = remove c k in if str_eq j k then rest else (j, p, until) ∷ rest

-- A digest that tells texts apart: their code points in a large base.
abbrev pub digits : List ℕ → ℕ
digits [] = 1
digits (c ∷ cs) = c + 2000000 * digits cs

abbrev pub claims_of_one : Claims
claims_of_one = record {
  sub = some "1";
  role = some "MEMBER";
  iat = 0;
  exp = 900;
  jti = "j";
  typ = some "access";
}

abbrev pub services : Services Cache
services = record {
  sha256 = λ s. digits (codes s);
  uuid_text = λ i. "1";
  parse_uuid = λ s. some 1;
  iso = λ t. "2026-05-02T00:00:00+00:00";
  decode_b64 = λ s. some 7;
  jwt_encode = λ c. "token";
  jwt_decode = λ t s. if str_eq s "token" then returned claims_of_one else raised "invalid token";
  registration_options = λ c u ks. null;
  authentication_options = λ c ks. null;
  verify_registration = λ o c. raised "no attestation";
  verify_authentication = λ o c key n. returned 8;
  cache_get = lookup;
  cache_set = λ t c k p ttl. (k, p, t + ttl) ∷ c;
  cache_delete = remove;
}

if_same : {A : Type 0} (b : Bool) (x : A) → x ≡ (if b then x else x)
if_same true x = refl
if_same false x = refl

lookup-remove :
    (t : ℕ) (c : Cache) (k j : String)
    → lookup t (remove c k) j ≡ (if str_eq k j then none else lookup t c j)
unfolding lookup remove
lookup-remove t [] k j = if_same (str_eq k j) none
lookup-remove t ((i, p, until) ∷ c) k j =
    ground (arith, eq_iff i k, eq_iff i j, eq_iff k j, lookup-remove t c k j)

lookup-stays_gone :
    (t u : ℕ) (c : Cache) (k : String) → t ≤ u → lookup t c k ≡ none → lookup u c k ≡ none
unfolding lookup
lookup-stays_gone t u [] k h e = refl
lookup-stays_gone t u ((i, p, until) ∷ c) k h e = ground (arith, lookup-stays_gone t u c k h)

pub services-IsRedis : IsRedis services
unfolding lookup
services-IsRedis = record {
  get-set = λ t now c k j p ttl. refl;
  get-delete = lookup-remove;
  stays_gone = lookup-stays_gone;
}

abbrev pub user_one : User
user_one = record {
  id = 1;
  email = "one@example.org";
  display_name = "One";
  role = member;
  is_active = true;
}

-- A token of user one: the digest of "old", live until the time 100.
abbrev pub token_one : RefreshToken
token_one = record {
  id = 10;
  user_id = 1;
  token_hash = digits (codes "old");
  expires_at = 100;
  revoked_at = none;
  last_used_at = none;
  ip_address = none;
  user_agent = none;
}

-- A passkey of user one, by its identifier.
abbrev pub passkey_one : ℕ → Passkey
passkey_one i = record {
  id = i;
  user_id = 1;
  credential_id = 7;
  public_key = 3;
  sign_count = 4;
  transports = none;
  nickname = none;
  created_at = 0;
  last_used_at = none;
}

abbrev pub db_with : List RefreshToken → List Passkey → Db
db_with ts ps = record empty_db { users = user_one ∷ []; refresh_tokens = ts; passkeys = ps }

abbrev pub world_with : List RefreshToken → List Passkey → World Cache
world_with ts ps = record {
  db = db_with ts ps;
  committed = db_with ts ps;
  cache = [];
  control_dir = [];
  audit_seen = [];
  cookie = untouched;
}

-- A request with a bearer token and the given refresh cookie.
abbrev pub request : String → Request
request cookie = record {
  forwarded_for = none;
  client_host = some "10.0.0.1";
  user_agent = none;
  authorization = some "Bearer token";
  refresh_cookie = some cookie;
  request_id = some 77;
}

abbrev pub draws : Draws
draws = record {
  now = 50;
  access_now = 50;
  refresh_now = 50;
  cache_now = 0;
  row_id = 11;
  raw_refresh = "new";
  challenge_id = "c";
  challenge = 5;
  jti = "j";
  tmp_suffix = "0a1b2c3d";
  fallback_request_id = 78;
  nonce = 6;
  latency_ms = 12;
}
