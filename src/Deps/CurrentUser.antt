-- ===== src/Deps/CurrentUser.antt =====
-- Who `get_current_user` of api/deps.py lets in, and that a token of `create_access_token` in
-- core/security.py does so until it expires.
use aurum_platform.Common.{
  ℕ, ◌/◌, ◌≤◌, ◌≡◌, refl, String, true, Option, none, some, arith, strip, after, ◌<>◌, Bool-cases,
  Option-cases, inl, inr, sym, subst,
}
use aurum_platform.Exec.{Result, ok, err, Raised-not_ok, ◌>>=◌, continue, Exec}
use aurum_platform.Models.{World, User, Request, Draws}
use aurum_platform.Services.{Services, IsJwt, Claims, Attempt, Attempt-cases, returned, raised}
use aurum_platform.Security.{create_access_token, decode_access_token, second, access_claims}
use aurum_platform.Deps.{
  is_bearer, bearer_token, get_user, active_or_raise, lift_attempt, subject, get_current_user,
}
use aurum_platform.Exec.Respects.{Respects, Same, Same-preorder, respects_rules, Respects-if}

module _ {C : Type 0} (sv : Services C) (r : Request) (d : Draws) where
  -- What a request must bring to act as a user.
  pub record Authenticates (w : World C) (user : User) : Type 0 where
    pub header : is_bearer r.authorization ≡ true
    pub claims : Claims
    pub decoded : decode_access_token sv d.now (bearer_token r.authorization) ≡ returned claims
    pub user_id : ℕ
    pub named : subject sv claims ≡ some user_id
    pub known : get_user user_id w ≡ some user
    pub active : user.is_active ≡ true

  -- A request with a `Bearer` header whose token is decoded and names an active user is let in as
  -- that user, and the state is left alone.
  pub Authenticates-enters :
      (w : World C) (user : User) → Authenticates w user → get_current_user sv r d w ≡ (ok user, w)
  unfolding get_current_user
  Authenticates-enters w user a = simp (a.header, a.decoded, a.named, a.known, a.active)

  user_entered :
      (w : World C) (x : Option User) (message : String) (user : User)
      → (active_or_raise x message w).0 ≡ ok user
      → (x ≡ some user) × (user.is_active ≡ true)
  unfolding active_or_raise
  user_entered w none message user h = cc
  user_entered w (some u) message user h = elim (Bool-cases u.is_active) [
    | inl on ↦ (ground arith, ground arith)
    | inr off ↦ absurd (ground arith)
  ]

  -- Whoever is let in is a user who is in the database and active, named by the token that the
  -- `Bearer` header carries.
  pub entered_Authenticates :
      (w : World C) (user : User) → (get_current_user sv r d w).0 ≡ ok user → Authenticates w user
  unfolding get_current_user
  entered_Authenticates w user h = elim (Bool-cases (is_bearer r.authorization)) [
    | inr missing ↦ absurd (Raised-not_ok _ user tt (simp missing at h))
    | inl header ↦
        elim (Attempt-cases (decode_access_token sv d.now (bearer_token r.authorization))) [
          | inr (text, e) ↦ absurd (Raised-not_ok _ user tt (simp (header, e) at h))
          | inl (claims, decoded) ↦ elim (Option-cases (subject sv claims)) [
            | inl nameless ↦
                absurd (Raised-not_ok _ user tt (simp (header, decoded, nameless) at h))
            | inr (user_id, named) ↦
                let (known, active) =
                  user_entered w (get_user user_id w) "user not found or disabled" user
                    (simp (header, decoded, named) at h) in
                record {
                  header = header;
                  claims = claims;
                  decoded = decoded;
                  user_id = user_id;
                  named = named;
                  known = known;
                  active = active;
                }
          ]
        ]
  ]

-- A bearer header is read back to its token.
bearer_header :
    (token : String)
    → (is_bearer (some ("Bearer " <> token)) ≡ true)
      × (bearer_token (some ("Bearer " <> token)) ≡ strip token)
unfolding is_bearer bearer_token
bearer_header token = (refl, refl)

decode_access_claims :
    {C : Type 0} (sv : Services C) (laws : IsJwt sv) (d d' : Draws) (user : User)
    → d'.now / second ≤ (access_claims sv d user.id user.role).exp
    → decode_access_token sv d'.now (sv.jwt_encode (access_claims sv d user.id user.role))
      ≡ returned (access_claims sv d user.id user.role)
unfolding decode_access_token access_claims
decode_access_claims sv laws d d' user in_time = rw (
  laws.decode-encode (d'.now / second) (access_claims sv d user.id user.role) in_time,
  decode_access_token,
)

-- Within its lifetime of 900 s, in whole seconds, the access token that is issued to an active user
-- lets a request in as that user, where the token has no blanks at its ends.
pub access_token_roundtrip :
    {C : Type 0} (sv : Services C) (laws : IsJwt sv) (r : Request) (d d' : Draws) (w : World C)
    (user : User)
    → get_user user.id w ≡ some user
    → user.is_active ≡ true
    → let (token, expires_at) = create_access_token sv d user.id user.role in
      strip token ≡ token
      → r.authorization ≡ some ("Bearer " <> token)
      → d'.now / second ≤ expires_at / second
      → get_current_user sv r d' w ≡ (ok user, w)
unfolding create_access_token subject access_claims
access_token_roundtrip sv laws r d d' w user known active clean header in_time =
    Authenticates-enters sv r d' w user (record {
      header = rw header (bearer_header (sv.jwt_encode (access_claims sv d user.id user.role))).0;
      claims = access_claims sv d user.id user.role;
      decoded =
          rw
            (
              header,
              (bearer_header (sv.jwt_encode (access_claims sv d user.id user.role))).1,
              clean,
            )
            (decode_access_claims sv laws d d' user in_time);
      user_id = user.id;
      named = laws.parse-text user.id;
      known = known;
      active = active;
    })

module _ {C : Type 0} (sv : Services C) (r : Request) (d : Draws) where
  active_or_raise-Same :
      (x : Option User) (message : String)
      → Respects (Same {S = World C}) (active_or_raise x message)
  unfolding active_or_raise
  active_or_raise-Same none message = record { at = λ s. refl }
  active_or_raise-Same (some u) message =
      Respects-if u.is_active _ _ (record { at = λ s. refl }) (record { at = λ s. refl })

  lift_attempt-Same : {A : Type 0} (x : Attempt A) → Respects (Same {S = World C}) (lift_attempt x)
  unfolding lift_attempt
  lift_attempt-Same (returned a) = record { at = λ s. refl }
  lift_attempt-Same (raised text) = record { at = λ s. refl }

  -- Reading the current user changes nothing.
  pub get_current_user-Same : Respects (Same {S = World C}) (get_current_user sv r d)
  unfolding get_current_user
  get_current_user-Same =
      search (Same-preorder, respects_rules, active_or_raise-Same, lift_attempt-Same)

  -- What holds of the state, and after the handler for whoever the current user is, holds after a
  -- route: without a user the route stops, and the state is as it was.
  pub route_rule :
      {A : Type 0} (P : World C → Type 0) (f : User → Exec (World C) A) (w : World C)
      → P w
      → ((user : User) → P (f user w).1)
      → P ((get_current_user sv r d >>= f) w).1
  unfolding ◌>>=◌
  route_rule P f w here after =
      after_continue (get_current_user sv r d w).0 (get_current_user sv r d w).1
        (get_current_user-Same.at w)
    where
      after_continue : (x : Result User) (w' : World C) → w' ≡ w → P (continue x f w').1
      after_continue (ok user) w' e = subst (λ v. P (f user v).1) (sym e) (after user)
      after_continue (err x) w' e = subst P (sym e) here
