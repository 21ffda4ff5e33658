-- ===== src/Examples/Saves.antt =====
-- tellyq/session_store.py: a session is saved, and saved again with a stop.
use tellyq.Prelude.{
  ℕ, String, ◌≡◌, ◌⊎◌, ◌<◌, refl, true, Option, none, some, [], ok, ◌==◌, nat_eq, option_eq,
  is_blank,
}
use tellyq.Values.{SessionSnapshot, new_session}
use tellyq.SessionStore.{
  encode_snapshot, has_fields, is_version_one, content_kind_of, is_player_state, decode_content,
  decode_target, decode_request, Restart, decode_scope, decode_snapshot, SessionFiles, restarted,
  load_session, is_outdated, with_session_record, save_session,
}
use tellyq.SessionStore.Restored.{
  restored, is_storable, unless_refused, decode_snapshot-encode_snapshot,
}
use tellyq.SessionStore.Saved.{load_session-save_session, save_session-revision}
use tellyq.Examples.Sessions.{scope}

abbrev place : String → String
place attempt_id = attempt_id

abbrev first_start : Restart
first_start = record { generation = "g2"; monotonic = 40 }

abbrev next_start : Restart
next_start = record { generation = "g3"; monotonic = 2 }

abbrev playing : SessionSnapshot
playing = record (new_session scope) { revision = 3 }

abbrev stopping : SessionSnapshot
stopping = record (new_session scope) { revision = 5; stop_requested = true }

abbrev empty_files : SessionFiles
empty_files = record { records = []; active = none; cache = [] }

abbrev files : SessionFiles
files = restarted (with_session_record place empty_files playing)

abbrev files_after : SessionFiles
files_after = with_session_record place files stopping

saved_again : save_session place files stopping (some 3) first_start first_start ≡ ok files_after
unfolding new_session save_session load_session is_outdated decode_snapshot decode_request
    decode_content decode_target decode_scope content_kind_of is_player_state has_fields
    is_version_one encode_snapshot is_blank
saved_again = refl

decode_snapshot-encode_snapshot_example :
    decode_snapshot (encode_snapshot stopping) next_start
    ≡ unless_refused (is_storable stopping) (restored stopping next_start)
decode_snapshot-encode_snapshot_example = decode_snapshot-encode_snapshot stopping next_start refl

load_session-save_session_example :
    (load_session place files_after "a1" next_start ≡ ok (some stopping))
    × (load_session place (restarted files_after) "a1" next_start
        ≡ ok (some (restored stopping next_start)))
unfolding new_session
load_session-save_session_example =
    load_session-save_session place files files_after stopping (some 3) first_start first_start
      next_start refl refl saved_again

abbrev expected : Option ℕ
expected = some 3

save_session-revision_example :
    ((load_session place files "a1" first_start ≡ ok none) × ((expected == none) ≡ true))
    ⊎ ((p : SessionSnapshot) × (load_session place files "a1" first_start ≡ ok (some p))
        × ((expected == some p.revision) ≡ true)
        × (p.revision < 5))
unfolding new_session
save_session-revision_example =
    save_session-revision place files files_after stopping (some 3) first_start first_start refl
      saved_again
