-- ===== src/Models/Tables.antt =====
-- The list functions as queries on a table: what one write leaves of what another query reads.
use aurum_platform.Common.{
  ◌≤◌, ◌≡◌, refl, subst, inl, inr, Bool, true, false, none, some, List, [], ◌∷◌, ◌++◌, arith,
  if◌then◌else◌, Bool-cases, length, find, select, update, discard, All,
}

module _ {A : Type 0} where
  pub find-append :
      (p : A → Bool) (xs ys : List A) (x : A) → find p xs ≡ some x → find p (xs ++ ys) ≡ some x
  unfolding find
  find-append p [] ys x h = ground arith
  find-append p (y ∷ xs) ys x h = ground (arith, find-append p xs ys x)

  pub find-append_new :
      (p : A → Bool) (xs : List A) (y : A)
      → find p xs ≡ none
      → p y ≡ true
      → find p (xs ++ y ∷ []) ≡ some y
  unfolding find
  find-append_new p [] y h k = ground arith
  find-append_new p (x ∷ xs) y h k = ground (arith, find-append_new p xs y)

  pub find_passes : (p : A → Bool) (xs : List A) (x : A) → find p xs ≡ some x → p x ≡ true
  unfolding find
  find_passes p [] x h = ground arith
  find_passes p (y ∷ xs) x h = ground (arith, find_passes p xs x)

  -- What a rewrite that keeps the test does to the row which the test finds.
  pub find-update :
      (p q : A → Bool) (f : A → A) (xs : List A)
      → ((x : A) → p (if q x then f x else x) ≡ p x)
      → (x : A) → find p xs ≡ some x
      → find p (update q f xs) ≡ some (if q x then f x else x)
  unfolding find update
  find-update p q f [] keep x h = ground arith
  find-update p q f (y ∷ xs) keep x h = ground (arith, keep y, find-update p q f xs keep x)

  pub find-update-none :
      (p q : A → Bool) (f : A → A) (xs : List A)
      → ((x : A) → p (if q x then f x else x) ≡ p x)
      → find p xs ≡ none
      → find p (update q f xs) ≡ none
  unfolding find update
  find-update-none p q f [] keep h = refl
  find-update-none p q f (y ∷ xs) keep h = ground (arith, keep y, find-update-none p q f xs keep)

  -- A rewrite leaves the rows that it does not touch.
  pub select-update_off :
      (p q : A → Bool) (f : A → A) (xs : List A)
      → ((x : A) → q x ≡ true → (p x ≡ false) × (p (f x) ≡ false))
      → select p (update q f xs) ≡ select p xs
  unfolding select update
  select-update_off p q f [] off = refl
  select-update_off p q f (y ∷ xs) off = elim (Bool-cases (q y)) [
    | inl hit ↦ ground (arith, off y hit, select-update_off p q f xs off)
    | inr miss ↦ ground (arith, select-update_off p q f xs off)
  ]

  -- After a rewrite every row has what the rewrite gives and what the others had.
  pub All-update {κ} :
      (P : A → Type κ) (q : A → Bool) (f : A → A) (xs : List A)
      → ((x : A) → P (if q x then f x else x))
      → All P (update q f xs)
  unfolding update
  All-update P q f [] h = tt
  All-update P q f (x ∷ xs) h = (h x, All-update P q f xs h)

  pub All-map_update {κ} :
      (P : A → Type κ) (q : A → Bool) (f : A → A) (xs : List A)
      → ((x : A) → P x → P (if q x then f x else x))
      → All P xs
      → All P (update q f xs)
  unfolding update
  All-map_update P q f [] h a = tt
  All-map_update P q f (x ∷ xs) h (a, as_) = (h x a, All-map_update P q f xs h as_)

  pub All-find {κ} :
      (P : A → Type κ) (p : A → Bool) (xs : List A) (x : A) → All P xs → find p xs ≡ some x → P x
  unfolding find
  All-find P p [] x a h = cc
  All-find P p (y ∷ xs) x (a, rest) h = elim (Bool-cases (p y)) [
    | inl hit ↦ subst P (ground arith) a
    | inr miss ↦ All-find P p xs x rest (ground arith)
  ]

  pub length-discard_le : (p : A → Bool) (xs : List A) → length (discard p xs) ≤ length xs
  unfolding discard
  length-discard_le p [] = omega arith
  length-discard_le p (x ∷ xs) = ground (arith, length-discard_le p xs)

  pub find-discard_off :
      (p q : A → Bool) (xs : List A)
      → ((x : A) → p x ≡ true → q x ≡ false)
      → find p (discard q xs) ≡ find p xs
  unfolding find discard
  find-discard_off p q [] off = refl
  find-discard_off p q (x ∷ xs) off = elim (Bool-cases (p x)) [
    | inl hit ↦ ground (arith, off x hit, find-discard_off p q xs off)
    | inr miss ↦ ground (arith, find-discard_off p q xs off)
  ]
