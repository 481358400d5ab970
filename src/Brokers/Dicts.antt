-- ===== src/Brokers/Dicts.antt =====
-- How the adapters read JSON values of any kind, and the errors that Python raises there.
use aurum_platform.Common.{String, none, some, if◌then◌else◌}
use aurum_platform.Json.{Value, str, arr, obj, Fields, end, Items, nil, cons, get, truthy}
use aurum_platform.Errors.{other}
use aurum_platform.Exec.{pure, raise, or_raise}
use aurum_platform.Services.{Attempt, returned, raised}
use aurum_platform.Brokers.{Call}

-- `raise` of a class that a call has raised.
unfoldable pub lift : {A : Type 0} → Attempt A → Call A
unfolding pure raise
lift (returned a) = pure a
lift (raised class) = raise (other class)

-- `v.get`, `v[k]`, `iter(v)` and `v[0]` on a JSON value of any kind.
unfoldable pub as_dict : Value → Call Fields
unfolding pure raise
as_dict (obj o) = pure o
as_dict _ = raise (other "AttributeError")

unfoldable pub item : String → Value → Call Value
unfolding or_raise raise
item k (obj o) = or_raise (get k o) (other "KeyError")
item k _ = raise (other "TypeError")

unfoldable pub items_of : Value → Call Items
unfolding pure raise
items_of (arr items) = pure items
items_of (obj end) = pure nil
items_of (str String.[]) = pure nil
items_of _ = raise (other "TypeError")

-- The first element, of which the code asks a key at once, as of no text.
unfoldable pub first : Value → Call Value
unfolding pure raise
first (arr (cons v rest)) = pure v
first (arr nil) = raise (other "IndexError")
first (obj o) = raise (other "KeyError")
first _ = raise (other "TypeError")

-- `o.get(k, default)`
unfoldable pub get_or : String → Value → Fields → Value
get_or k default o = elim (get k o) [ none ↦ default | some v ↦ v ]

-- `a or b`
unfoldable pub or_value : Value → Value → Value
unfolding truthy
or_value a b = if truthy a then a else b
