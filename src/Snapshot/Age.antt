-- ===== src/Snapshot/Age.antt =====
-- What a client of aurum/snapshot.py learns from the fields of a snapshot.
use aurum_platform.Common.{
  ℕ, ◌-◌, ◌*◌, ◌≡◌, refl, sym, ap, ◌∙◌, String, false, some, ltb, if◌then◌else◌, str_eq, eq_iff,
  eq_refl, Bool-cases, inl, inr, subst, is_empty,
}
use aurum_platform.Json.{Value, bool, float, str, obj, Fields, end, field, get, put, truthy}
use aurum_platform.Etl.{with_t}
use aurum_platform.Exec.{ok}
use aurum_platform.Snapshot.{
  Formats, contents, aware, parse_ts, decorate, read_current_state, decorate_json,
}

-- A key that was put is read back.
pub get-put : (k : String) (v : Value) (o : Fields) → get k (put k v o) ≡ some v
unfolding get put
get-put k v end = simp (eq_refl) refl
get-put k v (field j w r) = elim (Bool-cases (str_eq j k)) [
  | inl same ↦ simp same refl
  | inr differ ↦ simp differ (get-put k v r)
]

-- The other keys are left alone.
pub get-put_other :
    (j k : String) (v : Value) (o : Fields) → str_eq k j ≡ false → get j (put k v o) ≡ get j o
unfolding get put
get-put_other j k v end h = simp h refl
get-put_other j k v (field i w r) h = elim (Bool-cases (str_eq i k)) [
  | inl same ↦ simp (same, subst (λ x. str_eq x j ≡ false) (sym ((eq_iff i k).0 same)) h) refl
  | inr differ ↦ simp differ (ap (λ x. if str_eq i j then some w else x) (get-put_other j k v r h))
]

module _ (fm : Formats) (now threshold : ℕ) (raw : String) (o : Fields) (s : String) (t : ℕ)
    (loaded : fm.json_loads raw ≡ some (obj o)) (stamped : get "snapshot_ts" o ≡ some (str s))
    (full : is_empty s ≡ false) where
  -- A state file whose JSON is an object with an aware timestamp is returned: the client is told that
  -- the process is responsive exactly when the age is below the threshold in seconds, the age itself,
  -- which is 0 for a time to come, and the time in UTC; the open positions are those of the file.
  pub aware_snapshot :
      fm.from_iso (with_t s) ≡ some (aware t)
      → (out : Fields) × (read_current_state fm now threshold (contents raw) ≡ ok (some out))
        × (get "is_runner_responsive" out ≡ some (bool (ltb (now - t) (threshold * 1000000))))
        × (get "tick_age_seconds" out ≡ some (float (fm.seconds (now - t))))
        × (get "snapshot_ts" out ≡ some (str (fm.utc_iso t)))
        × (get "open_positions" out ≡ get "open_positions" o)
  unfolding read_current_state decorate_json decorate parse_ts truthy
  aware_snapshot iso =
      let flag = bool (ltb (now - t) (threshold * 1000000)) in
      let age = float (fm.seconds (now - t)) in
      let a = put "snapshot_ts" (str (fm.utc_iso t)) o in
      let b = put "tick_age_seconds" age a in
      (
        put "is_runner_responsive" flag b,
        simp (loaded, stamped, full, iso),
        get-put "is_runner_responsive" flag b,
        get-put_other "tick_age_seconds" "is_runner_responsive" flag b refl
            ∙ get-put "tick_age_seconds" age a,
        get-put_other "snapshot_ts" "is_runner_responsive" flag b refl
            ∙ get-put_other "snapshot_ts" "tick_age_seconds" age a refl
            ∙ get-put "snapshot_ts" (str (fm.utc_iso t)) o,
        get-put_other "open_positions" "is_runner_responsive" flag b refl
            ∙ get-put_other "open_positions" "tick_age_seconds" age a refl
            ∙ get-put_other "open_positions" "snapshot_ts" (str (fm.utc_iso t)) o refl,
      )
