-- ===== src/Youtube/Phases.antt =====
-- tellyq/youtube_state.py: what a phase rests on.
use tellyq.Prelude.{
  ℕ, ℤ, ◌≡◌, String, true, false, Option, none, some, ◌==◌, nat_eq, string_eq, option_eq, is_true,
  arith, ap, subst, Bool-cases, inl, inr,
}
use tellyq.Values.{ContentPhase, content_phase_eq}
use tellyq.Youtube.{
  youtube_application_id, Observation, is_uncorrelated, expected_of_code, is_consistent,
  phase_of_code, interpret_player_state,
}

-- What a finished phase shows.
pub record IsFinished (event : Observation) (application_id : Option String) : Type 0 where
  pub own_application : (application_id == some youtube_application_id) ≡ true
  pub one_status : (event.wire_status_count == some 1) ≡ true
  pub valid_shape : (event.custom_player_state_shape == some "valid") ≡ true
  pub coded : event.custom_player_state ≡ some (ℤ.pos 0)
  pub idle : (event.player_state == some "IDLE") ≡ true
  pub ended : (event.idle_reason == some "FINISHED") ≡ true
  pub unbroken : (event.wire_break_status == some "absent") ≡ true
  pub no_ad : is_true event.ad_break ≡ false

finished_code :
    (event : Observation) (code : ℕ)
    → (phase_of_code event (some (ℤ.pos code)) == ContentPhase.finished) ≡ true
    → (code ≡ 0) × (is_consistent event code "IDLE" ≡ true)
unfolding expected_of_code
finished_code event code h = (ground arith, ground arith)

finished_value :
    (event : Observation) (value : Option ℤ)
    → (phase_of_code event value == ContentPhase.finished) ≡ true
    → (value ≡ some (ℤ.pos 0)) × (is_consistent event 0 "IDLE" ≡ true)
finished_value event none h = cc (h)
finished_value event (some (ℤ.negsuc n)) h = cc (h)
finished_value event (some (ℤ.pos code)) h =
    let found = finished_code event code h in
    (
      ap (λ n. some (ℤ.pos n)) found.0,
      subst (λ n. is_consistent event n "IDLE" ≡ true) found.0 found.1,
    )

-- A natural end is read only from the provider's own application and one valid status, where the code,
-- the standard player state and its idle reason agree, and no break is shown.
pub interpret_player_state-IsFinished :
    (event : Observation) (application_id : Option String)
    → ((interpret_player_state event application_id).phase == ContentPhase.finished) ≡ true
    → IsFinished event application_id
unfolding interpret_player_state is_uncorrelated is_consistent
interpret_player_state-IsFinished event application_id h =
    elim (Bool-cases (is_uncorrelated event application_id)) [
      | inl stranger ↦ ground arith
      | inr known ↦
          let found = finished_value event event.custom_player_state (ground arith) in
          let tests = found.1 in
          record {
            own_application = ground arith;
            one_status = ground arith;
            valid_shape = ground arith;
            coded = found.0;
            idle = ground arith;
            ended = ground arith;
            unbroken = ground arith;
            no_ad = ground arith;
          }
    ]
