-- ===== src/Me/Ownership.antt =====
-- api/me.py: only the owner touches a passkey, and the last one of a user stays.
use aurum_platform.Common.{
  ℕ, ◌+◌, ◌≤◌, ◌≡◌, refl, ◌⊎◌, ◌≢◌, String, false, none, some, List, [], ◌∷◌, arith, ◌==◌, leb,
  find, discard, count, if◌then◌else◌, Bool-cases, Option-cases, inl, inr, subst, eq_of_==, ap, ◌∙◌,
}
use aurum_platform.Errors.{app, not_found}
use aurum_platform.Exec.{ok, err, Raised-not_ok, ◌>>=◌}
use aurum_platform.Models.{World, User, Passkey, Request, Draws}
use aurum_platform.Models.Tables.{find_passes}
use aurum_platform.Services.{Services}
use aurum_platform.Audit.{write_audit}
use aurum_platform.Me.{
  owned_by, has_id, load_owned_passkey, remove_own, refuse_last, delete_own, rename_own,
  remove_passkey,
}
use native.Mathlib.Decide.{ℕ_discrete}
use aurum_platform.Deps.CurrentUser.{route_rule}

-- Passkey identifiers are a primary key.
abbrev pub UniqueIds : List Passkey → Type 0
UniqueIds [] = Unit
UniqueIds (p ∷ ps) = (find (has_id p.id) ps ≡ none) × UniqueIds ps

-- Deleting by an identifier that no row has changes nothing.
discard_missing :
    (i : ℕ) (ps : List Passkey) → find (has_id i) ps ≡ none → discard (has_id i) ps ≡ ps
unfolding find discard
discard_missing i [] h = refl
discard_missing i (p ∷ ps) h = ground (arith, discard_missing i ps)

-- Deleting a row that is there takes one away from the rows of its owner, and none from others.
count-discard_one :
    (user_id i : ℕ) (ps : List Passkey) (p : Passkey)
    → UniqueIds ps
    → find (has_id i) ps ≡ some p
    → count (owned_by user_id) ps
      ≡ count (owned_by user_id) (discard (has_id i) ps) + (if owned_by user_id p then 1 else 0)
unfolding find discard count
count-discard_one user_id i [] p u h = cc
count-discard_one user_id i (q ∷ ps) p (fresh, u) h = elim (Bool-cases (q.id == i)) [
  | inl hit ↦ ground (
    arith,
    discard_missing i ps (subst (λ k. find (has_id k) ps ≡ none) (eq_of_== q.id i hit) fresh),
  )
  | inr miss ↦ ground (arith, count-discard_one user_id i ps p u)
]

find-discard : (i : ℕ) (ps : List Passkey) → find (has_id i) (discard (has_id i) ps) ≡ none
unfolding find discard
find-discard i [] = refl
find-discard i (p ∷ ps) = ground (arith, find-discard i ps)

module _ {C : Type 0} (passkey_id : ℕ) (user : User) (w : World C) where
  -- No passkey has the identifier, or the one that has it is another user's.
  unfoldable pub NotOwned : Type 0
  NotOwned =
      (find (has_id passkey_id) w.passkeys ≡ none)
      ⊎ ((p : Passkey) × (find (has_id passkey_id) w.passkeys ≡ some p) × (p.user_id ≢ user.id))

  not_owned_load :
      NotOwned
      → load_owned_passkey passkey_id user.id w ≡ (err (app not_found "passkey not found"), w)
  unfolding load_owned_passkey NotOwned
  not_owned_load (inl e) = simp e
  not_owned_load (inr (p, e, other)) = simp e (ground arith)

  owned_load :
      (p : Passkey)
      → find (has_id passkey_id) w.passkeys ≡ some p
      → p.user_id ≡ user.id
      → load_owned_passkey passkey_id user.id w ≡ (ok p, w)
  unfolding load_owned_passkey
  owned_load p e own = simp e (ground arith)

  -- Who owns the passkey, or the proof that the user does not.
  owned-cases :
      NotOwned
      ⊎ ((p : Passkey) × (find (has_id passkey_id) w.passkeys ≡ some p) × (p.user_id ≡ user.id))
  unfolding NotOwned
  owned-cases = elim (Option-cases (find (has_id passkey_id) w.passkeys)) [
    | inl e ↦ inl (inl e)
    | inr (p, e) ↦ elim (ℕ_discrete p.user_id user.id) [
      | yes own ↦ inr (p, e, own)
      | no other ↦ inl (inr (p, e, other))
    ]
  ]

  module _ (sv : Services C) (r : Request) where
    not_owned_remove :
        NotOwned → remove_own sv r passkey_id user w ≡ (err (app not_found "passkey not found"), w)
    unfolding remove_own
    not_owned_remove h = rw (not_owned_load h, ◌>>=◌)

    -- Renaming and removing a passkey of another user answer as if it did not exist, and change
    -- nothing.
    pub not_owned_refused :
        (nickname : String)
        → NotOwned
        → (rename_own sv r passkey_id nickname user w
            ≡ (err (app not_found "passkey not found"), w))
          × (remove_own sv r passkey_id user w ≡ (err (app not_found "passkey not found"), w))
    unfolding rename_own
    not_owned_refused nickname h = (rw (not_owned_load h, ◌>>=◌), not_owned_remove h)

    owned_remove :
        (p : Passkey)
        → find (has_id passkey_id) w.passkeys ≡ some p
        → p.user_id ≡ user.id
        → remove_own sv r passkey_id user w
          ≡ (if leb (count (owned_by user.id) w.passkeys) 1
                then refuse_last sv r user p
                else delete_own sv r passkey_id user p)
              w
    unfolding remove_own
    owned_remove p e own = rw (owned_load p e own, ◌>>=◌)

-- The passkeys after a removal: as before, or without one of two or more that its owner had.
pub data Removed (user_id passkey_id : ℕ) (before after : List Passkey) : Type 0 where
  kept : after ≡ before → Removed user_id passkey_id before after
  gone :
      (p : Passkey)
      → find (has_id passkey_id) before ≡ some p
      → p.user_id ≡ user_id
      → 2 ≤ count (owned_by user_id) before
      → after ≡ discard (has_id passkey_id) before
      → Removed user_id passkey_id before after

module _ {C : Type 0} (sv : Services C) (r : Request) (passkey_id : ℕ) (user : User)
    (w : World C) where
  kept_by_refusal : (p : Passkey) → (refuse_last sv r user p w).1.passkeys ≡ w.passkeys
  unfolding refuse_last write_audit
  kept_by_refusal p = refl

  gone_by_deletion :
      (p : Passkey)
      → (delete_own sv r passkey_id user p w).1.passkeys ≡ discard (has_id p.id) w.passkeys
  unfolding delete_own write_audit
  gone_by_deletion p = refl

  same_id : (p : Passkey) → find (has_id passkey_id) w.passkeys ≡ some p → p.id ≡ passkey_id
  same_id p e = eq_of_== p.id passkey_id (find_passes (has_id passkey_id) w.passkeys p e)

  -- `remove_passkey` for a user leaves the passkeys alone, or takes away the one it was asked for,
  -- which the user owns together with another one.
  remove_own-Removed :
      Removed user.id passkey_id w.passkeys (remove_own sv r passkey_id user w).1.passkeys
  remove_own-Removed = elim (owned-cases passkey_id user w) [
    | inl n ↦ kept (ap (λ x. x.1.passkeys) (not_owned_remove passkey_id user w sv r n))
    | inr (p, e, own) ↦ elim (Bool-cases (leb (count (owned_by user.id) w.passkeys) 1)) [
      | inl last ↦
          kept (rw (owned_remove passkey_id user w sv r p e own) (simp last (kept_by_refusal p)))
      | inr more ↦
          gone p e own (omega (arith, not_leb (count (owned_by user.id) w.passkeys) more)) (
            rw (owned_remove passkey_id user w sv r p e own) (
              simp more
                (gone_by_deletion p ∙ ap (λ k. discard (has_id k) w.passkeys) (same_id p e))))
    ]
  ]
    where
      not_leb : (n : ℕ) → leb n 1 ≡ false → 2 ≤ n
      not_leb n h = ground arith

Removed-keeps_one :
    (user_id passkey_id other : ℕ) (before after : List Passkey)
    → UniqueIds before
    → Removed user_id passkey_id before after
    → 1 ≤ count (owned_by other) before
    → 1 ≤ count (owned_by other) after
Removed-keeps_one user_id passkey_id other before after u (kept e) h = rw e h
Removed-keeps_one user_id passkey_id other before after u (gone p f own two e) h =
    rw e (elim (ℕ_discrete user_id other) [
      | yes same ↦
          let two' = subst (λ k. 2 ≤ count (owned_by k) before) same two in
          ground (arith, count-discard_one other passkey_id before p u f)
      | no differ ↦ ground (arith, count-discard_one other passkey_id before p u f)
    ])

-- Whoever calls `remove_passkey` and whatever its outcome, every user who had a passkey still has
-- one.
pub remove_keeps_one :
    {C : Type 0} (sv : Services C) (r : Request) (d : Draws) (passkey_id other : ℕ) (w : World C)
    → UniqueIds w.passkeys
    → 1 ≤ count (owned_by other) w.passkeys
    → 1 ≤ count (owned_by other) (remove_passkey sv r d passkey_id w).1.passkeys
unfolding remove_passkey
remove_keeps_one sv r d passkey_id other w u h =
    route_rule sv r d (λ v. 1 ≤ count (owned_by other) v.passkeys) (remove_own sv r passkey_id) w h
      λ user.
        Removed-keeps_one user.id passkey_id other w.passkeys
          (remove_own sv r passkey_id user w).1.passkeys u
          (remove_own-Removed sv r passkey_id user w) h

-- Where `remove_passkey` has no error, the passkey is gone.
pub remove_own_removes :
    {C : Type 0} (sv : Services C) (r : Request) (passkey_id : ℕ) (user : User) (w : World C)
    → (remove_own sv r passkey_id user w).0 ≡ ok tt
    → find (has_id passkey_id) (remove_own sv r passkey_id user w).1.passkeys ≡ none
remove_own_removes sv r passkey_id user w h = elim (owned-cases passkey_id user w) [
  | inl n ↦ absurd (
      Raised-not_ok (remove_own sv r passkey_id user w).0 tt
        (rw (not_owned_remove passkey_id user w sv r n) tt) h)
  | inr (p, e, own) ↦ elim (Bool-cases (leb (count (owned_by user.id) w.passkeys) 1)) [
    | inl last ↦ absurd (
        Raised-not_ok (remove_own sv r passkey_id user w).0 tt
          (rw (owned_remove passkey_id user w sv r p e own)
            (simp last (unfold refuse_last write_audit in tt)))
          h)
    | inr more ↦ rw (owned_remove passkey_id user w sv r p e own) (
        simp more (
          rw
            (gone_by_deletion sv r passkey_id user w p
              ∙ ap (λ k. discard (has_id k) w.passkeys) (same_id sv r passkey_id user w p e))
            (find-discard passkey_id w.passkeys)))
  ]
]
