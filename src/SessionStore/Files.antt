-- ===== src/SessionStore/Files.antt =====
-- tellyq/session_store.py: `JsonSessionStore`, over files that hold records.
use tellyq.Prelude.{
  ℕ, String, Bool, false, Option, none, some, List, [], ◌∷◌, Result, Fault, ok, err, raise_if,
  ◌>>=◌, ◌>>◌, ◌==◌, ◌!=◌, nat_eq, string_eq, option_eq, ◌&&◌, ◌||◌, not, leb, ℤ, if◌then◌else◌,
}
use tellyq.Values.{SessionSnapshot}
use tellyq.SessionStore.Records.{
  Value, value_eq, Record, field_of, record_beq, encode_snapshot, has_fields, is_version_one,
  Restart, decode_snapshot,
}

-- In a list of named values, the newest of a name stands first.
abbrev pub newest {ℓ} : {A : Type ℓ} → String → List (String × A) → Option A
newest name [] = none
newest name ((other, value) ∷ values) = if other == name then some value else newest name values

-- The files of `sessions/`, `active.json`, and `_cache` of the process.
pub record SessionFiles : Type 0 where
  pub records : List (String × Record)
  pub active : Option Record
  pub cache : List (String × SessionSnapshot)

-- Where the process ends, its cache is lost.
abbrev pub restarted : SessionFiles → SessionFiles
restarted files = record files { cache = [] }

abbrev pub cached_or : Option SessionSnapshot → Record → SessionSnapshot → SessionSnapshot
cached_or none value recovered = recovered
cached_or (some cached) value recovered =
    if record_beq (encode_snapshot cached) value then cached else recovered

abbrev pub required_session : Option SessionSnapshot → Result (Option SessionSnapshot)
required_session none = err Fault.value_error
required_session (some snapshot) = ok (some snapshot)

abbrev pub attempt_of : Option Value → Result String
attempt_of (some (Value.text attempt_id)) = do
  raise_if (attempt_id == "") Fault.value_error
  ok attempt_id
attempt_of value = err Fault.value_error

abbrev pub revision_before : Option SessionSnapshot → Option ℕ
revision_before none = none
revision_before (some previous) = some previous.revision

abbrev pub not_after : ℕ → Option ℕ → Bool
not_after revision none = false
not_after revision (some actual) = leb revision actual

unfoldable pub is_outdated : Option SessionSnapshot → Option ℕ → ℕ → Bool
is_outdated previous expected revision =
    revision_before previous != expected || not_after revision (revision_before previous)

abbrev pub pointer_to : String → Record
pointer_to attempt_id =
    ("schema_version", Value.integer (ℤ.pos 1)) ∷ ("attempt_id", Value.text attempt_id) ∷ []

-- The parameter is `_path`, from an attempt's identity to the name of its file.
module _ (path_of : String → String) where
  abbrev pub load_record :
      Option Record → SessionFiles → String → Restart → Result (Option SessionSnapshot)
  load_record none files attempt_id restart = ok none
  load_record (some value) files attempt_id restart = do
    recovered ← decode_snapshot value restart
    raise_if (recovered.scope.request.attempt_id != attempt_id) Fault.value_error
    ok (some (cached_or (newest attempt_id files.cache) value recovered))

  unfoldable pub load_session : SessionFiles → String → Restart → Result (Option SessionSnapshot)
  load_session files attempt_id restart =
      load_record (newest (path_of attempt_id) files.records) files attempt_id restart

  abbrev pub current_of : Option Record → SessionFiles → Restart → Result (Option SessionSnapshot)
  current_of none files restart = ok none
  current_of (some pointer) files restart = do
    raise_if
        (not (has_fields ("schema_version" ∷ "attempt_id" ∷ []) pointer && is_version_one pointer))
        Fault.value_error
    attempt_id ← attempt_of (field_of pointer "attempt_id")
    found ← load_session files attempt_id restart
    required_session found

  unfoldable pub current_session : SessionFiles → Restart → Result (Option SessionSnapshot)
  current_session files restart = current_of files.active files restart

  abbrev pub with_session_record : SessionFiles → SessionSnapshot → SessionFiles
  with_session_record files snapshot =
      let attempt_id = snapshot.scope.request.attempt_id in
      record {
        records = (path_of attempt_id, encode_snapshot snapshot) ∷ files.records;
        active = some (pointer_to attempt_id);
        cache = (attempt_id, snapshot) ∷ files.cache;
      }

  unfoldable pub save_session :
      SessionFiles → SessionSnapshot → Option ℕ → Restart → Restart → Result SessionFiles
  save_session files snapshot expected restart second = do
    previous ← load_session files snapshot.scope.request.attempt_id restart
    raise_if (is_outdated previous expected snapshot.revision) Fault.revision_conflict
    decoded ← decode_snapshot (encode_snapshot snapshot) second
    ok (with_session_record files snapshot)
