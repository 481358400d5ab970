-- ===== src/Brokers/Oanda/Sanitize.antt =====
-- `_sanitize` of brokers/oanda_adapter.py: the token is taken out of what a broker echoes.
use aurum_platform.Common.{
  ℕ, zero, suc, ◌-◌, String, Bool, true, false, Option, none, some, ◌<>◌, ◌==◌, ◌&&◌, ◌||◌, clip,
  codes, is_empty, leb, length, if◌then◌else◌,
}
use Prim.Native.Char.{code}

-- `s.startswith(p)`
unfoldable pub starts_with : String → String → Bool
starts_with s String.[] = true
starts_with String.[] (String.◌∷◌ c p) = false
starts_with (String.◌∷◌ d s) (String.◌∷◌ c p) = code d == code c && starts_with s p

-- `p in s`
unfoldable pub contains : String → String → Bool
unfolding starts_with
contains p String.[] = starts_with String.[] p
contains p (String.◌∷◌ c s) = starts_with (String.◌∷◌ c s) p || contains p s

-- `s.replace(old, new)` where `old` is not empty: what is left of an occurrence is skipped.
unfoldable pub replace_from : String → String → ℕ → String → String
unfolding starts_with
replace_from old new skip String.[] = ""
replace_from old new (suc skip) (String.◌∷◌ c s) = replace_from old new skip s
replace_from old new zero (String.◌∷◌ c s) =
    let rest = replace_from old new zero s in
    let after = replace_from old new (length (codes old) - 1) s in
    if starts_with (String.◌∷◌ c s) old then new <> after else String.◌∷◌ c rest

-- `s.replace("", new)`, without the copy of `new` at the start
unfoldable pub spread : String → String → String
spread new String.[] = ""
spread new (String.◌∷◌ c s) = String.◌∷◌ c (new <> spread new s)

-- `s.replace(old, new)`
unfoldable pub replace_all : String → String → String → String
unfolding replace_from spread is_empty
replace_all old new s = if is_empty old then new <> spread new s else replace_from old new zero s

abbrev pub marker : String
marker = "[REDACTED_TOKEN]"

-- `_sanitize`
unfoldable pub sanitize : Option String → String → String
unfolding replace_all is_empty clip
sanitize none token = ""
sanitize (some text) token =
    let cleaned = replace_all token marker text in
    if is_empty text
    then ""
    else clip 500 (
        if leb 8 (length (codes token)) then replace_all (clip 8 token) marker cleaned else cleaned)
