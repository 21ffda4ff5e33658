-- ===== src/Examples/Phases.antt =====
-- tellyq/youtube_state.py: a status that shows the natural end.
use tellyq.Prelude.{ℤ, ◌≡◌, refl, true, none, some, ◌==◌, nat_eq}
use tellyq.Values.{ContentPhase, content_phase_eq}
use tellyq.Youtube.{
  youtube_application_id, Observation, is_uncorrelated, expected_of_code, is_consistent,
  interpret_player_state,
}
use tellyq.Youtube.Phases.{IsFinished, interpret_player_state-IsFinished}

abbrev status : Observation
status = record {
  wire_status_count = some 1;
  custom_player_state_shape = some "valid";
  custom_player_state = some (ℤ.pos 0);
  player_state = some "IDLE";
  idle_reason = some "FINISHED";
  wire_break_status = some "absent";
  ad_break = none;
}

shows_end :
    ((interpret_player_state status (some youtube_application_id)).phase == ContentPhase.finished)
    ≡ true
unfolding interpret_player_state is_uncorrelated expected_of_code is_consistent
shows_end = refl

interpret_player_state-IsFinished_example : IsFinished status (some youtube_application_id)
interpret_player_state-IsFinished_example =
    interpret_player_state-IsFinished status (some youtube_application_id) shows_end
