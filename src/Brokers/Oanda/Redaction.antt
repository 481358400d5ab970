-- ===== src/Brokers/Oanda/Redaction.antt =====
-- That `_sanitize` of brokers/oanda_adapter.py leaves no token behind.
use aurum_platform.Common.{
  ℕ, zero, suc, ◌≡◌, refl, String, Bool, true, false, Option, none, some, ◌<>◌, ◌==◌, ◌&&◌, ◌||◌,
  clip, codes, is_empty, leb, length, not, arith, Bool-cases, inl, inr, eq_iff, str_eq, ap,
}
use Prim.Native.Char.{Char, code}
use aurum_platform.Brokers.Oanda.Sanitize.{
  starts_with, contains, replace_from, replace_all, marker, sanitize,
}

-- No character of the text is one of the marker's.
abbrev pub has_code : ℕ → String → Bool
has_code n String.[] = false
has_code n (String.◌∷◌ c s) = code c == n || has_code n s

abbrev pub disjoint : String → String → Bool
disjoint String.[] t = true
disjoint (String.◌∷◌ c s) t = not (has_code (code c) t) && disjoint s t

-- What `p` has no character of brings no `p` into a text before which it is put.
contains-append :
    (c : Char) (p new s : String)
    → has_code (code c) new ≡ false
    → contains (String.◌∷◌ c p) s ≡ false
    → contains (String.◌∷◌ c p) (new <> s) ≡ false
unfolding contains
contains-append c p String.[] s free h = h
contains-append c p (String.◌∷◌ n new) s free h = ground (arith, contains-append c p new s)

-- A text that does not start with `q` does not start with it after replacements, where `q` has no
-- character of what is put in.
starts_with-replace_from :
    (q old : String) (n : Char) (new s : String)
    → disjoint q (String.◌∷◌ n new) ≡ true
    → starts_with s q ≡ false
    → starts_with (replace_from old (String.◌∷◌ n new) zero s) q ≡ false
unfolding starts_with replace_from
starts_with-replace_from String.[] old n new s free h = ground arith
starts_with-replace_from (String.◌∷◌ c q) old n new String.[] free h = refl
starts_with-replace_from (String.◌∷◌ c q) old n new (String.◌∷◌ d s) free h =
    elim (Bool-cases (starts_with (String.◌∷◌ d s) old)) [
      | inl hit ↦ ground (arith, hit)
      | inr miss ↦ ground (arith, miss, starts_with-replace_from q old n new s)
    ]

-- Nothing of `c p` is left after its replacement.
contains-replace_from :
    (c : Char) (p : String) (n : Char) (new : String) (skip : ℕ) (s : String)
    → disjoint (String.◌∷◌ c p) (String.◌∷◌ n new) ≡ true
    → contains (String.◌∷◌ c p) (replace_from (String.◌∷◌ c p) (String.◌∷◌ n new) skip s) ≡ false
unfolding contains starts_with replace_from
contains-replace_from c p n new skip String.[] free = refl
contains-replace_from c p n new (suc skip) (String.◌∷◌ d s) free =
    contains-replace_from c p n new skip s free
contains-replace_from c p n new zero (String.◌∷◌ d s) free =
    elim (Bool-cases (starts_with (String.◌∷◌ d s) (String.◌∷◌ c p))) [
      | inl hit ↦ simp hit (
          contains-append c p (String.◌∷◌ n new) _ (ground arith)
            (contains-replace_from c p n new _ s free))
      | inr miss ↦ simp miss (
          ground (
            arith,
            miss,
            starts_with-replace_from p (String.◌∷◌ c p) n new s,
            contains-replace_from c p n new zero s free,
          ))
    ]

-- What does not start with the first characters of `q` does not start with `q`.
starts_with-clip_right :
    (k : ℕ) (s q : String) → starts_with s (clip k q) ≡ false → starts_with s q ≡ false
unfolding starts_with clip
starts_with-clip_right zero s q h = ground arith
starts_with-clip_right (suc k) s String.[] h = h
starts_with-clip_right (suc k) String.[] (String.◌∷◌ c q) h = refl
starts_with-clip_right (suc k) (String.◌∷◌ d s) (String.◌∷◌ c q) h =
    ground (arith, starts_with-clip_right k s q)

contains-clip_right : (k : ℕ) (q s : String) → contains (clip k q) s ≡ false → contains q s ≡ false
unfolding contains
contains-clip_right k q String.[] h = starts_with-clip_right k "" q h
contains-clip_right k q (String.◌∷◌ c s) h =
    ground (arith, starts_with-clip_right k (String.◌∷◌ c s) q, contains-clip_right k q s)

-- A shorter text contains no more.
starts_with-clip :
    (k : ℕ) (s q : String) → starts_with s q ≡ false → starts_with (clip k s) q ≡ false
unfolding starts_with clip
starts_with-clip k s String.[] h = ground arith
starts_with-clip zero s (String.◌∷◌ c q) h = refl
starts_with-clip (suc k) String.[] (String.◌∷◌ c q) h = refl
starts_with-clip (suc k) (String.◌∷◌ d s) (String.◌∷◌ c q) h =
    ground (arith, starts_with-clip k s q)

contains-clip : (k : ℕ) (q s : String) → contains q s ≡ false → contains q (clip k s) ≡ false
unfolding contains starts_with clip
contains-clip zero q String.[] h = h
contains-clip zero String.[] (String.◌∷◌ c s) h = ground arith
contains-clip zero (String.◌∷◌ d q) (String.◌∷◌ c s) h = refl
contains-clip (suc k) q String.[] h = h
contains-clip (suc k) q (String.◌∷◌ c s) h =
    ground (arith, starts_with-clip (suc k) (String.◌∷◌ c s) q, contains-clip k q s)

disjoint-clip : (k : ℕ) (q t : String) → disjoint q t ≡ true → disjoint (clip k q) t ≡ true
unfolding clip
disjoint-clip zero q t h = refl
disjoint-clip (suc k) String.[] t h = refl
disjoint-clip (suc k) (String.◌∷◌ c q) t h = ground (arith, disjoint-clip k q t)

abbrev is_text : String → Bool
is_text String.[] = true
is_text (String.◌∷◌ c s) = false

false_eq_true : false ≡ true → ⊥
false_eq_true h = cc

cons_not_empty : (c : Char) (s : String) → is_empty (String.◌∷◌ c s) ≡ false
unfolding is_empty
cons_not_empty c s = elim (Bool-cases (str_eq (String.◌∷◌ c s) "")) [
  | inl same ↦ absurd (false_eq_true (ap is_text ((eq_iff (String.◌∷◌ c s) "").0 same)))
  | inr differs ↦ differs
]

replace_all_redacts :
    (c : Char) (p s : String)
    → disjoint (String.◌∷◌ c p) marker ≡ true
    → contains (String.◌∷◌ c p) (replace_all (String.◌∷◌ c p) marker s) ≡ false
unfolding replace_all
replace_all_redacts c p s free =
    simp (cons_not_empty c p) (contains-replace_from c p _ "REDACTED_TOKEN]" zero s free)

-- Where the token has a character, and none of the marker's, `_sanitize` leaves no occurrence of
-- it in any text.
pub sanitize_redacts :
    (text : Option String) (token : String)
    → is_empty token ≡ false
    → disjoint token marker ≡ true
    → contains token (sanitize text token) ≡ false
unfolding sanitize contains starts_with
sanitize_redacts none String.[] h free = ground arith
sanitize_redacts none (String.◌∷◌ c p) h free = refl
sanitize_redacts (some text) String.[] h free = ground arith
sanitize_redacts (some text) (String.◌∷◌ c p) h free = elim (Bool-cases (is_empty text)) [
  | inl none_left ↦ simp none_left refl
  | inr some_left ↦ elim (Bool-cases (leb 8 (length (codes (String.◌∷◌ c p))))) [
    | inl long ↦
        simp (some_left, long)
          (contains-clip 500 (String.◌∷◌ c p) _ (
            contains-clip_right 8 (String.◌∷◌ c p) _
              (replace_all_redacts c (clip 7 p) _ (disjoint-clip 8 (String.◌∷◌ c p) marker free))))
    | inr short ↦
        simp (some_left, short)
          (contains-clip 500 (String.◌∷◌ c p) _ (replace_all_redacts c p text free))
  ]
]
