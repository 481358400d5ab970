-- ===== src/Json.antt =====
-- Python values as `json` reads and writes them: the audit metadata, the flag files, the snapshot
-- and the journal lines.
use aurum_platform.Common.{
  ℕ, String, Bool, true, false, Option, none, some, List, [], ◌∷◌, str_eq, if◌then◌else◌, is_empty,
  ◌==◌, not,
}

-- A float is its printed form: the program hands floats on and does not compute with them here.
mutual
  pub data Value : Type 0 where
    null : Value
    bool : Bool → Value
    int : ℕ → Value
    float : String → Value
    str : String → Value
    arr : Items → Value
    obj : Fields → Value

  pub data Fields : Type 0 where
    end : Fields
    field : String → Value → Fields → Fields

  pub data Items : Type 0 where
    nil : Items
    cons : Value → Items → Items

-- `d.get(k)` and `d[k]`, where a missing key is `none`
unfoldable pub get : String → Fields → Option Value
get k end = none
get k (field j v r) = if str_eq j k then some v else get k r

-- `d[k] = v`
unfoldable pub put : String → Value → Fields → Fields
put k v end = field k v end
put k v (field j w r) = if str_eq j k then field j v r else field j w (put k v r)

abbrev pub keys : Fields → List String
keys end = []
keys (field k v r) = k ∷ keys r

-- `k in d`
abbrev pub has_key : String → Fields → Bool
has_key k end = false
has_key k (field j v r) = if str_eq j k then true else has_key k r

-- `if v`. A float is true unless it is printed as zero.
unfoldable pub truthy : Value → Bool
unfolding is_empty
truthy null = false
truthy (bool b) = b
truthy (int n) = not (n == 0)
truthy (float s) = not (str_eq s "0.0")
truthy (str s) = not (is_empty s)
truthy (arr nil) = false
truthy (arr (cons v r)) = true
truthy (obj end) = false
truthy (obj (field k v r)) = true

abbrev pub truthy_at : Option Value → Bool
truthy_at none = false
truthy_at (some v) = truthy v

-- `isinstance(v, str)`, with the text
abbrev pub as_text : Option Value → Option String
as_text (some (str s)) = some s
as_text _ = none

-- A text or `None`, as a value.
abbrev pub of_text : Option String → Value
of_text none = null
of_text (some s) = str s
