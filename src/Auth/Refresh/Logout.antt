-- ===== src/Auth/Refresh/Logout.antt =====
-- `logout` of api/auth.py: what it returns, and that it ends the presented token for good.
use aurum_platform.Common.{
  ℕ, ◌≡◌, refl, ap, ◌∙◌, false, Option, none, some, arith, ==-refl, is_some, is_blank,
  if◌then◌else◌, inl, inr, Option-cases,
}
use aurum_platform.Exec.{ok, Raised}
use aurum_platform.Models.{World, RefreshToken, Request, Draws}
use aurum_platform.Models.Tables.{find-update}
use aurum_platform.Services.{Services}
use aurum_platform.Audit.{write_audit}
use aurum_platform.Auth.Refresh.{
  find_token, has_hash, has_id, revoke_at, refresh, logout, logout_target, logout_found,
}
use aurum_platform.Auth.Refresh.Accepts.{presented}
use aurum_platform.Auth.Refresh.Revocation.{refresh_revoked, reuse_refused}

-- Revoking one row keeps the digest of every row.
revoke_keeps_hash :
    (digest i now : ℕ) (t : RefreshToken)
    → has_hash digest (if has_id i t then revoke_at now t else t) ≡ has_hash digest t
revoke_keeps_hash digest i now t = ground arith

module _ {C : Type 0} (sv : Services C) (r : Request) (d : Draws) (w : World C) where
  target_found :
      (row : RefreshToken)
      → logout_target sv r w ≡ some row
      → (is_blank r.refresh_cookie ≡ false)
        × (find_token (presented sv r) w ≡ some row)
        × (row.revoked_at ≡ none)
  unfolding logout_target
  target_found row h = ground arith

  revoked_by_logout :
      (row : RefreshToken)
      → find_token (presented sv r) w ≡ some row
      → find_token (presented sv r) (logout_found r d.now (some row) w).1
        ≡ some (revoke_at d.now row)
  unfolding find_token logout_found write_audit
  revoked_by_logout row f =
      find-update (has_hash (presented sv r)) (has_id row.id) (revoke_at d.now) w.refresh_tokens
        (revoke_keeps_hash (presented sv r) row.id d.now) row f
      ∙ ap (λ b. some (if b then revoke_at d.now row else row)) (==-refl row.id)

  no_target_left :
      (row : RefreshToken) (w' : World C)
      → is_blank r.refresh_cookie ≡ false
      → find_token (presented sv r) w' ≡ some (revoke_at d.now row)
      → logout_target sv r w' ≡ none
  unfolding logout_target
  no_target_left row w' c f = simp (c, f)

  same_target : logout_target sv r (logout_found r d.now none w).1 ≡ logout_target sv r w
  unfolding logout_target find_token logout_found write_audit
  same_target = refl

  found_returns : (x : Option RefreshToken) → (logout_found r d.now x w).0 ≡ ok (is_some x)
  unfolding logout_found write_audit
  found_returns none = refl
  found_returns (some row) = refl

  -- `logout` never raises, and returns whether the request presented a stored token that was live.
  -- After it the request presents no such token, so that a second logout returns false.
  pub logout_once :
      ((logout sv r d w).0 ≡ ok (is_some (logout_target sv r w)))
      × (logout_target sv r (logout sv r d w).1 ≡ none)
  unfolding logout
  logout_once = elim (Option-cases (logout_target sv r w)) [
    | inl absent ↦ (found_returns (logout_target sv r w), rw absent (same_target ∙ absent))
    | inr (row, e) ↦
        let (c, f, live) = target_found row e in
        (
          found_returns (logout_target sv r w),
          rw e (
              no_target_left row (logout_found r d.now (some row) w).1 c (revoked_by_logout row f)),
        )
  ]

  logout_leaves_revoked :
      (row : RefreshToken)
      → logout_target sv r w ≡ some row
      → find_token (presented sv r) (logout sv r d w).1 ≡ some (revoke_at d.now row)
  unfolding logout
  logout_leaves_revoked row e = rw e (revoked_by_logout row (target_found row e).1)

-- After a logout that found a live token, a refresh request that presents the token raises.
pub logout_spends_token :
    {C : Type 0} (sv : Services C) (r : Request) (d d' : Draws) (w : World C) (row : RefreshToken)
    → logout_target sv r w ≡ some row
    → Raised (refresh sv r d' (logout sv r d w).1).0
logout_spends_token sv r d d' w row e =
    rw
      (refresh_revoked sv r d' (logout sv r d w).1 (revoke_at d.now row)
        (target_found sv r d w row e).0 (logout_leaves_revoked sv r d w row e) refl)
      (reuse_refused r (logout sv r d w).1 d'.now (revoke_at d.now row))
