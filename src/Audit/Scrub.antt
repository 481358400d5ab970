-- ===== src/Audit/Scrub.antt =====
-- What `_scrub` of core/audit.py does to metadata.
use aurum_platform.Common.{
  ◌≡◌, refl, sym, String, Bool, true, false, Option, none, some, arith, if◌then◌else◌, eq_iff,
  Bool-cases, ◌⊎◌, inl, inr, List, [], ◌∷◌, any, ◌||◌, ◌∙◌, ap,
}
use aurum_platform.Json.{Value, null, bool, int, float, str, arr, obj, Fields, end, field, get}
use aurum_platform.Audit.{is_forbidden, redacted, scrub_fields, scrub_value, scrub}
use mathlib.Core.Option

-- Every forbidden key has the marker for its value, in a dict or in the dicts that it holds as values.
mutual
  pub IsClean : Fields → Type 0
  IsClean end = Unit
  IsClean (field k v r) = ((is_forbidden k ≡ false) ⊎ (v ≡ redacted)) × IsCleanValue v × IsClean r

  pub IsCleanValue : Value → Type 0
  IsCleanValue (obj d) = IsClean d
  IsCleanValue _ = Unit

abbrev pub scrub_at : String → Value → Value
scrub_at k v = if is_forbidden k then redacted else scrub_value v

scrub_fields-field :
    (k : String) (v : Value) (r : Fields)
    → scrub_fields (field k v r) ≡ field k (scrub_at k v) (scrub_fields r)
unfolding scrub_fields
scrub_fields-field k v r = refl

scrub_fields-end : scrub_fields end ≡ end
unfolding scrub_fields
scrub_fields-end = refl

-- A lookup under one key.
get-scrub_fields :
    (k : String) (d : Fields) → get k (scrub_fields d) ≡ Option.map (scrub_at k) (get k d)
unfolding get
get-scrub_fields k end = rw scrub_fields-end
get-scrub_fields k (field j v r) =
    rw scrub_fields-field (ground (arith, eq_iff j k, get-scrub_fields k r))

kept_or_redacted : (k : String) (v : Value) → (is_forbidden k ≡ false) ⊎ (scrub_at k v ≡ redacted)
kept_or_redacted k v = elim (Bool-cases (is_forbidden k)) [
  | inl h ↦ inr (simp h refl)
  | inr h ↦ inl h
]

-- `_scrub` leaves nothing under a forbidden key, in a dict or in the dicts nested in it as values.
mutual
  unfolding IsClean scrub_fields

  scrub_fields-IsClean : (d : Fields) → IsClean (scrub_fields d)
  scrub_fields-IsClean end = tt
  scrub_fields-IsClean (field k v r) =
      (kept_or_redacted k v, scrub_at-IsCleanValue v (is_forbidden k), scrub_fields-IsClean r)

  scrub_at-IsCleanValue :
      (v : Value) (b : Bool) → IsCleanValue (if b then redacted else scrub_value v)
  scrub_at-IsCleanValue v true = tt
  scrub_at-IsCleanValue (obj d) false = scrub_fields-IsClean d
  scrub_at-IsCleanValue null false = tt
  scrub_at-IsCleanValue (bool b) false = tt
  scrub_at-IsCleanValue (int n) false = tt
  scrub_at-IsCleanValue (float s) false = tt
  scrub_at-IsCleanValue (str s) false = tt
  scrub_at-IsCleanValue (arr xs) false = tt

abbrev pub IsCleanOption : Option Fields → Type 0
IsCleanOption none = Unit
IsCleanOption (some d) = IsClean d

-- Whatever the metadata, `_scrub` returns metadata where every forbidden key has the marker for
-- its value, in the dict itself and in the dicts nested in it as values.
pub scrub-IsClean : (m : Option Fields) → IsCleanOption (scrub m)
unfolding scrub
scrub-IsClean none = tt
scrub-IsClean (some end) = scrub_fields-IsClean end
scrub-IsClean (some (field k v r)) = scrub_fields-IsClean (field k v r)

abbrev pub is_dict : Option Value → Bool
is_dict (some (obj d)) = true
is_dict _ = false

abbrev at_dict : (Fields → Option Value) → Option Value → Option Value
at_dict next (some (obj d)) = next d
at_dict next _ = none

-- What a list of keys leads to, from one dict to the next.
unfoldable pub follow : List String → String → Fields → Option Value
unfolding get
follow [] k d = get k d
follow (j ∷ path) k d = at_dict (follow path k) (get j d)

scrub_value-leaf : (v : Value) → is_dict (some v) ≡ false → scrub_value v ≡ v
unfolding scrub_value
scrub_value-leaf (obj d) h = cc
scrub_value-leaf null h = refl
scrub_value-leaf (bool b) h = refl
scrub_value-leaf (int n) h = refl
scrub_value-leaf (float t) h = refl
scrub_value-leaf (str t) h = refl
scrub_value-leaf (arr xs) h = refl

abbrev pub hide : String → Value → Value
hide k v = if is_forbidden k then redacted else v

scrub_at-leaf :
    (k : String) (x : Option Value)
    → (is_forbidden k ≡ true) ⊎ (is_dict x ≡ false)
    → Option.map (scrub_at k) x ≡ Option.map (hide k) x
scrub_at-leaf k none h = refl
scrub_at-leaf k (some v) (inl hidden) = simp hidden
scrub_at-leaf k (some v) (inr leaf) = simp (scrub_value-leaf v leaf)

abbrev missing : Option Value
missing = none

nothing : (b : Bool) → (if b then missing else missing) ≡ missing
nothing true = refl
nothing false = refl

-- The claim for a path, on a dict.
Follows : List String → String → Fields → Type 0
Follows path k d =
    (is_forbidden k ≡ true) ⊎ (is_dict (follow path k d) ≡ false)
    → follow path k (scrub_fields d)
      ≡ (if any is_forbidden path then none else Option.map (hide k) (follow path k d))

follow_value :
    (j : String) (path : List String) (k : String) (x : Option Value)
    → ((d : Fields) → Follows path k d)
    → (is_forbidden k ≡ true) ⊎ (is_dict (at_dict (follow path k) x) ≡ false)
    → at_dict (follow path k) (Option.map (scrub_at j) x) ≡ (
        if is_forbidden j || any is_forbidden path
        then none
        else Option.map (hide k) (at_dict (follow path k) x))
unfolding Follows scrub_value
follow_value j path k none next h = sym (nothing (is_forbidden j || any is_forbidden path))
follow_value j path k (some v) next h = elim (Bool-cases (is_forbidden j)) [
  | inl hidden ↦ simp hidden refl
  | inr kept ↦ simp kept (below v h)
]
  where
    below :
        (u : Value)
        → (is_forbidden k ≡ true) ⊎ (is_dict (at_dict (follow path k) (some u)) ≡ false)
        → at_dict (follow path k) (some (scrub_value u)) ≡ (
            if any is_forbidden path
            then none
            else Option.map (hide k) (at_dict (follow path k) (some u)))
    below (obj d) leaf = next d leaf
    below null leaf = sym (nothing (any is_forbidden path))
    below (bool b) leaf = sym (nothing (any is_forbidden path))
    below (int n) leaf = sym (nothing (any is_forbidden path))
    below (float t) leaf = sym (nothing (any is_forbidden path))
    below (str t) leaf = sym (nothing (any is_forbidden path))
    below (arr xs) leaf = sym (nothing (any is_forbidden path))

follow-scrub_fields : (path : List String) (k : String) (d : Fields) → Follows path k d
unfolding Follows follow any
follow-scrub_fields [] k d h = get-scrub_fields k d ∙ scrub_at-leaf k (get k d) h
follow-scrub_fields (j ∷ path) k d h =
    ap (at_dict (follow path k)) (get-scrub_fields j d)
    ∙ follow_value j path k (get j d) (follow-scrub_fields path k) h

-- What a path of keys leads to in metadata is, after `_scrub`, nothing where a key on the way is
-- forbidden, the marker where the last key is forbidden and has a value, and otherwise the value
-- itself, where it is no dict, or nothing, where there was nothing.
pub follow-scrub :
    (path : List String) (k : String) (d : Fields)
    → (is_forbidden k ≡ true) ⊎ (is_dict (follow path k d) ≡ false)
    → (after : Fields) × (scrub (some d) ≡ some after)
      × (follow path k after
          ≡ (if any is_forbidden path then none else Option.map (hide k) (follow path k d)))
unfolding Follows scrub scrub_fields
follow-scrub path k end h = (end, refl, follow-scrub_fields path k end h)
follow-scrub path k (field j v r) h =
    (scrub_fields (field j v r), refl, follow-scrub_fields path k (field j v r) h)
