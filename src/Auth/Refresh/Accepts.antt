-- ===== src/Auth/Refresh/Accepts.antt =====
-- Which requests `refresh` of api/auth.py accepts, and what an accepted one does.
use aurum_platform.Common.{
  ℕ, ◌≡◌, refl, true, false, Option, none, some, [], ◌∷◌, ◌++◌, arith, leb, is_blank, update, inl,
  inr, Bool-cases, Option-cases,
}
use aurum_platform.Exec.{ok, Raised, Raised-not_ok, ◌>>=◌}
use aurum_platform.Models.{World, User, RefreshToken, Request, Draws, set_to}
use aurum_platform.Services.{Services}
use aurum_platform.Audit.{write_audit}
use aurum_platform.Security.{refresh_ttl, hash_refresh_token, generate_refresh_token}
use aurum_platform.Deps.{get_user}
use aurum_platform.Auth.Tokens.{Tokens, issue_tokens, new_refresh_token, audit_failure}
use aurum_platform.Auth.Refresh.{
  find_token, has_id, retire_at, refresh, refresh_found, refresh_row, refresh_user, rotate,
  reuse_detected, refresh_expired, cookie_text,
}

module _ {C : Type 0} (sv : Services C) where
  -- The digest of the token that a request presents.
  abbrev pub presented : Request → ℕ
  presented r = hash_refresh_token sv (cookie_text r.refresh_cookie)

  -- What a refresh request must meet: a token that is stored, live and not expired, of a user who
  -- is there and active.
  pub record Accepts (r : Request) (d : Draws) (w : World C) (row : RefreshToken) (user : User)
      : Type 0 where
    pub cookie : is_blank r.refresh_cookie ≡ false
    pub stored : find_token (presented r) w ≡ some row
    pub live : row.revoked_at ≡ none
    pub in_time : leb row.expires_at d.now ≡ false
    pub known : get_user row.user_id w ≡ some user
    pub active : user.is_active ≡ true

  -- The part of the result that matters to later requests.
  pub record Rotated (r : Request) (d : Draws) (w : World C) (row : RefreshToken) (user : User)
      (w' : World C) : Type 0 where
    pub tokens :
        w'.refresh_tokens
        ≡ update (has_id row.id) (retire_at d.now) w.refresh_tokens
          ++ new_refresh_token sv r d user ∷ []
    pub users : w'.users ≡ w.users
    pub cookie : w'.cookie ≡ set_to d.raw_refresh refresh_ttl

  module _ (r : Request) (d : Draws) (w : World C) where
    pub refresh-refresh_found :
        is_blank r.refresh_cookie ≡ false
        → refresh sv r d w ≡ refresh_found sv r d (find_token (presented r) w) w
    unfolding refresh
    refresh-refresh_found h = rw h

    pub rotate-Rotated :
        (row : RefreshToken) (user : User) → Rotated r d w row user (rotate sv r d row user w).1
    unfolding rotate issue_tokens update write_audit generate_refresh_token
    rotate-Rotated row user = record { tokens = refl; users = refl; cookie = refl }

    rotate_returns :
        (row : RefreshToken) (user : User)
        → (tokens : Tokens) × ((rotate sv r d row user w).0 ≡ ok tokens)
    unfolding rotate issue_tokens write_audit
    rotate_returns row user = (_, refl)

    refresh-Accepts :
        (row : RefreshToken) (user : User)
        → Accepts r d w row user
        → refresh sv r d w ≡ rotate sv r d row user w
    unfolding refresh_found refresh_row refresh_user
    refresh-Accepts row user a = simp (
      refresh-refresh_found a.cookie,
      a.stored,
      a.live,
      a.in_time,
      a.known,
      refresh_user,
      a.active,
    )

    -- The other branches of `refresh` raise.
    reuse_raises : (row : RefreshToken) → Raised (reuse_detected r d.now row w).0
    unfolding reuse_detected write_audit
    reuse_raises row = tt

    expired_raises : (row : RefreshToken) → Raised (refresh_expired r d.now row w).0
    unfolding refresh_expired write_audit audit_failure
    expired_raises row = tt

    unknown_raises : Raised (refresh_found sv r d none w).0
    unfolding refresh_found write_audit audit_failure
    unknown_raises = tt

    user-Accepts :
        (row : RefreshToken) (user : Option User) (t : Tokens)
        → (refresh_user sv r d row user w).0 ≡ ok t
        → (u : User) × (user ≡ some u) × (u.is_active ≡ true)
    unfolding refresh_user ◌>>=◌
    user-Accepts row none t h = cc
    user-Accepts row (some u) t h = elim (Bool-cases u.is_active) [
      | inl on ↦ (u, refl, on)
      | inr off ↦ absurd (ground arith)
    ]

    row-Accepts :
        (row : RefreshToken) (t : Tokens)
        → is_blank r.refresh_cookie ≡ false
        → find_token (presented r) w ≡ some row
        → (refresh_row sv r d row w).0 ≡ ok t
        → (user : User) × Accepts r d w row user
    unfolding refresh_row ◌>>=◌
    row-Accepts row t c f h = elim (Option-cases row.revoked_at) [
      | inr (at, e) ↦ absurd (Raised-not_ok _ t (reuse_raises row) (simp e at h))
      | inl live ↦ elim (Bool-cases (leb row.expires_at d.now)) [
        | inl late ↦ absurd (Raised-not_ok _ t (expired_raises row) (simp (live, late) at h))
        | inr in_time ↦
            let (u, known, active) =
              user-Accepts row (get_user row.user_id w) t (simp (live, in_time) at h) in
            (
              u,
              record {
                cookie = c;
                stored = f;
                live = live;
                in_time = in_time;
                known = known;
                active = active;
              },
            )
      ]
    ]

    -- A refresh request succeeds only with a stored token that is live and not expired, of an
    -- active user.
    refresh_ok-Accepts :
        (t : Tokens)
        → (refresh sv r d w).0 ≡ ok t
        → (row : RefreshToken) × (user : User) × Accepts r d w row user
    unfolding refresh refresh_found
    refresh_ok-Accepts t h = elim (Bool-cases (is_blank r.refresh_cookie)) [
      | inl blank ↦ absurd (Raised-not_ok _ t tt (simp blank at h))
      | inr c ↦ elim (Option-cases (find_token (presented r) w)) [
        | inl missing ↦ absurd (Raised-not_ok _ t unknown_raises (simp (c, missing) at h))
        | inr (row, f) ↦ let (u, a) = row-Accepts row t c f (simp (c, f) at h) in (row, u, a)
      ]
    ]

    -- If a refresh request returns tokens, it presented a stored token that was live, not expired
    -- and of an active user; that token is now retired, one new token of the same user is stored
    -- after the others, no other token has changed, and the cookie holds the new token.
    pub refresh_sound :
        (t : Tokens)
        → (refresh sv r d w).0 ≡ ok t
        → (row : RefreshToken) × (user : User) × Accepts r d w row user
          × Rotated r d w row user (refresh sv r d w).1
    refresh_sound t h =
        let (row, user, a) = refresh_ok-Accepts t h in
        (row, user, a, rw (refresh-Accepts row user a) (rotate-Rotated row user))

    -- A refresh request gets tokens if it presents a stored token that is live and not expired, of an
    -- active user.
    pub refresh_complete :
        (row : RefreshToken) (user : User)
        → Accepts r d w row user
        → (t : Tokens) × ((refresh sv r d w).0 ≡ ok t)
    refresh_complete row user a = rw (refresh-Accepts row user a) (rotate_returns row user)
