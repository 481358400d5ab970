-- ===== src/Control/AtomicWrite.antt =====
-- `_atomic_write_json` of aurum/control.py, step by step: a reader, or a crash, between any two
-- steps finds the target as it was or with the whole new body.
use aurum_platform.Common.{
  ℕ, zero, suc, ◌≡◌, refl, ap, ◌∙◌, ◌⊎◌, inl, inr, String, false, none, some, List, [], ◌∷◌, ◌++◌,
  arith, str_eq, eq_iff, eq_refl, ◌<>◌, codes, length, if◌then◌else◌, Bool-cases, length-append,
}
use aurum_platform.Json.{Fields}
use aurum_platform.Models.{Content, whole, torn, Draws}
use aurum_platform.Control.{
  Files, read_file, remove_file, write_file, replace_file, WriteStep, write_step, write_steps,
  run_steps, tmp_name, atomic_write,
}
use Prim.Native.Char.{code}

pub read-remove :
    (name n : String) (fs : Files)
    → read_file name (remove_file n fs) ≡ (if str_eq n name then none else read_file name fs)
unfolding read_file remove_file
read-remove name n [] = ground arith
read-remove name n ((m, c) ∷ fs) =
    ground (arith, read-remove name n fs, eq_iff m n, eq_iff n name, eq_iff m name)

pub read-write :
    (name n : String) (c : Content) (fs : Files)
    → read_file name (write_file n c fs) ≡ (if str_eq n name then some c else read_file name fs)
unfolding read_file write_file
read-write name n c fs = ground (arith, read-remove name n fs)

replace_found :
    (source target : String) (c : Content) (fs : Files)
    → read_file source fs ≡ some c
    → replace_file source target fs ≡ write_file target c (remove_file source fs)
unfolding replace_file write_file
replace_found source target c fs h = rw (h, replace_file)

pub read-replace :
    (name source target : String) (c : Content) (fs : Files)
    → read_file source fs ≡ some c
    → read_file name (replace_file source target fs) ≡ (
        if str_eq target name
        then some c
        else if str_eq source name
        then none
        else read_file name fs)
read-replace name source target c fs h =
    rw (replace_found source target c fs h)
      (read-write name target c (remove_file source fs) ∙ rw (read-remove name source fs))

take : ℕ → List WriteStep → List WriteStep
take n [] = []
take zero (s ∷ ss) = []
take (suc n) (s ∷ ss) = s ∷ take n ss

-- The directory after the first `n` steps.
pub after_steps : ℕ → String → String → Fields → Files → Files
unfolding take
after_steps n tmp target body = run_steps tmp target body (take n write_steps)

-- What a reader finds under another name than the temporary one.
module _ (tmp target : String) (body : Fields) (differ : str_eq tmp target ≡ false) where
  before_replace :
      (name : String) (c : Content) (fs : Files)
      → str_eq tmp name ≡ false
      → read_file name (write_file tmp c fs) ≡ read_file name fs
  before_replace name c fs h = read-write name tmp c fs ∙ rw h

  abbrev OldOrNew : Files → Files → Type 0
  OldOrNew fs gs =
      (read_file target gs ≡ read_file target fs) ⊎ (read_file target gs ≡ some (whole body))

  replaced :
      (fs : Files)
      → read_file target (replace_file tmp target (write_file tmp (whole body) fs))
        ≡ some (whole body)
  replaced fs =
      read-replace target tmp target (whole body) (write_file tmp (whole body) fs)
        (read-write tmp tmp (whole body) fs ∙ rw (eq_refl tmp))
      ∙ rw (eq_refl target)

  -- Whatever the number of steps that have been made, the target reads as before the write, or as
  -- the whole new body.
  steps-OldOrNew : (n : ℕ) (fs : Files) → OldOrNew fs (after_steps n tmp target body fs)
  unfolding after_steps run_steps write_step
  steps-OldOrNew zero fs = inl refl
  steps-OldOrNew (suc zero) fs = inl (before_replace target torn fs differ)
  steps-OldOrNew (suc (suc zero)) fs =
      inl (before_replace target torn _ differ ∙ before_replace target torn fs differ)
  steps-OldOrNew (suc (suc (suc zero))) fs = inl (
      before_replace target (whole body) _ differ
      ∙ before_replace target torn _ differ
      ∙ before_replace target torn fs differ)
  steps-OldOrNew (suc (suc (suc (suc n)))) fs =
      inr (replaced (write_file tmp torn (write_file tmp torn fs)))

-- The name of the temporary file is longer than that of the target.
codes-append : (s t : String) → codes (s <> t) ≡ codes s ++ codes t
codes-append String.[] t = refl
codes-append (String.◌∷◌ c s) t = λ i. code c ∷ codes-append s t i

tmp_differs : (d : Draws) (target : String) → str_eq (tmp_name d target) target ≡ false
unfolding tmp_name
tmp_differs d target = elim (Bool-cases (str_eq (target <> ".tmp." <> d.tmp_suffix) target)) [
  | inr e ↦ e
  | inl same ↦ absurd (
      omega (
        arith,
        ap length (ap codes ((eq_iff (target <> ".tmp." <> d.tmp_suffix) target).0 same)),
        ap length (codes-append target (".tmp." <> d.tmp_suffix)),
        length-append (codes target) (codes (".tmp." <> d.tmp_suffix)),
      ))
]

-- `_atomic_write_json` leaves the target with the whole new body; and where it is cut short after
-- any number of its steps, or a reader comes between two of them, the target reads as it did before
-- the write or as the whole new body. The temporary file has a name of its own.
pub atomic_write_is_atomic :
    (d : Draws) (target : String) (body : Fields) (n : ℕ) (fs : Files)
    → (read_file target (atomic_write d target body fs) ≡ some (whole body))
      × ((read_file target (after_steps n (tmp_name d target) target body fs) ≡ read_file target fs)
          ⊎ (read_file target (after_steps n (tmp_name d target) target body fs)
              ≡ some (whole body)))
unfolding atomic_write run_steps write_step
atomic_write_is_atomic d target body n fs = (
  replaced (tmp_name d target) target body (tmp_differs d target) _,
  steps-OldOrNew (tmp_name d target) target body (tmp_differs d target) n fs,
)

-- Another file reads as before.
pub atomic_write_frame :
    (d : Draws) (target name : String) (body : Fields) (fs : Files)
    → str_eq target name ≡ false
    → str_eq (tmp_name d target) name ≡ false
    → read_file name (atomic_write d target body fs) ≡ read_file name fs
unfolding atomic_write run_steps write_step
atomic_write_frame d target name body fs t u =
    let tmp = tmp_name d target in
    read-replace name tmp target (whole body) _ (
      read-write tmp tmp (whole body) (write_file tmp torn (write_file tmp torn fs))
      ∙ rw (eq_refl tmp))
    ∙ rw (t, u)
        (before_replace tmp target body (tmp_differs d target) name (whole body) _ u
          ∙ before_replace tmp target body (tmp_differs d target) name torn _ u
          ∙ before_replace tmp target body (tmp_differs d target) name torn fs u)
