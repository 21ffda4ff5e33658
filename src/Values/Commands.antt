-- ===== src/Values/Commands.antt =====
-- tellyq/domain/values.py: commands, their outcomes and receipts.
use tellyq.Prelude.{ℕ, String, Bool, Option, none, some, Result, ok, ◌>>◌, Eq, ◌==◌, nat_eq}
use tellyq.Values.Instants.{Datetime, require_aware}

pub data ErrorCode : Type 0 where
  device_unavailable unsupported_capability session_replaced : ErrorCode
  command_outcome_unknown control_rejected : ErrorCode

pub record PlaybackError : Type 0 where
  pub code : ErrorCode
  pub message : String
  pub operation_id : String
  pub uncertain : Bool
  pub recovery : String

pub data CommandAction : Type 0 where
  start stop pause resume release : CommandAction

abbrev pub command_action_tag : CommandAction → ℕ
command_action_tag CommandAction.start = 0
command_action_tag CommandAction.stop = 1
command_action_tag CommandAction.pause = 2
command_action_tag CommandAction.resume = 3
command_action_tag CommandAction.release = 4

instance abbrev pub command_action_eq : Eq CommandAction
command_action_eq = record { beq = λ a b. command_action_tag a == command_action_tag b }

pub data CommandOutcome : Type 0 where
  accepted rejected unknown : CommandOutcome

abbrev pub command_outcome_tag : CommandOutcome → ℕ
command_outcome_tag CommandOutcome.accepted = 0
command_outcome_tag CommandOutcome.rejected = 1
command_outcome_tag CommandOutcome.unknown = 2

instance abbrev pub command_outcome_eq : Eq CommandOutcome
command_outcome_eq = record { beq = λ a b. command_outcome_tag a == command_outcome_tag b }

pub data ControlStage : Type 0 where
  application backend transport_guard transport receiver : ControlStage

pub data ControlReason : Type 0 where
  ownership_unverified connection_changed identity_changed media_unavailable : ControlReason
  stale_observation state_mismatch capability_unavailable read_only : ControlReason
  action_unsupported destination_unavailable invalid_media_id media_status : ControlReason
  invalid_request invalid_player_state response_unknown response_timeout : ControlReason
  message_not_sent transport_exception legacy_result : ControlReason

pub record ControlDiagnostic : Type 0 where
  pub stage : ControlStage
  pub reason : ControlReason

pub record CommandReceipt : Type 0 where
  pub request_id : String
  pub attempt_id : String
  pub action : CommandAction
  pub outcome : CommandOutcome
  pub recorded_at : Datetime
  pub error : Option PlaybackError
  pub requested_at : Option Datetime
  pub diagnostic : Option ControlDiagnostic

abbrev check_optional_aware : Option Datetime → Result (Unit {0})
check_optional_aware none = ok tt
check_optional_aware (some at) = require_aware at

abbrev pub check_receipt : CommandReceipt → Result CommandReceipt
check_receipt r = do require_aware r.recorded_at; check_optional_aware r.requested_at; ok r
