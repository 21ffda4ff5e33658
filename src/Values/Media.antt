-- ===== src/Values/Media.antt =====
-- tellyq/domain/values.py: content, targets, requests and the scope that the caller owns.
use tellyq.Prelude.{
  ℕ, String, Option, Result, Fault, ok, raise_if, ◌>>◌, Eq, ◌==◌, nat_eq, string_eq, option_eq,
  ◌&&◌, ◌||◌,
}
use tellyq.Values.Instants.{Instant}

pub data ContentKind : Type 0 where
  video episode : ContentKind

abbrev pub content_kind_tag : ContentKind → ℕ
content_kind_tag ContentKind.video = 0
content_kind_tag ContentKind.episode = 1

instance abbrev pub content_kind_eq : Eq ContentKind
content_kind_eq = record { beq = λ a b. content_kind_tag a == content_kind_tag b }

pub record ContentRef : Type 0 where
  pub provider : String
  pub content_id : String
  pub kind : ContentKind
  pub title : Option String

-- `title` has `compare=False`
instance abbrev pub content_ref_eq : Eq ContentRef
content_ref_eq = record {
  beq = λ a b. a.provider == b.provider && a.content_id == b.content_id && a.kind == b.kind;
}

abbrev pub check_content : ContentRef → Result ContentRef
check_content c = do raise_if (c.provider == "" || c.content_id == "") Fault.value_error; ok c

pub record PlaybackTarget : Type 0 where
  pub device_id : String
  pub route : String
  pub name : Option String

-- `name` has `compare=False`
instance abbrev pub playback_target_eq : Eq PlaybackTarget
playback_target_eq = record { beq = λ a b. a.device_id == b.device_id && a.route == b.route }

abbrev pub check_target : PlaybackTarget → Result PlaybackTarget
check_target t = do raise_if (t.device_id == "" || t.route == "") Fault.value_error; ok t

pub record PlaybackRequest : Type 0 where
  pub request_id : String
  pub attempt_id : String
  pub queue_item_id : String
  pub content : ContentRef
  pub target : PlaybackTarget

abbrev pub check_request : PlaybackRequest → Result PlaybackRequest
check_request r = do
  raise_if (r.request_id == "" || r.attempt_id == "" || r.queue_item_id == "") Fault.value_error
  ok r

pub record PlaybackScope : Type 0 where
  pub request : PlaybackRequest
  pub session_id : String
  pub connection_generation : String
  pub started_monotonic : Instant
  pub application_id : Option String

abbrev pub check_scope : PlaybackScope → Result PlaybackScope
check_scope s = do
  raise_if (s.session_id == "" || s.connection_generation == "") Fault.value_error
  ok s

-- The generated `==` of the dataclasses, field by field.
instance abbrev pub playback_request_eq : Eq PlaybackRequest
playback_request_eq = record {
  beq = λ a b.
      a.request_id == b.request_id
      && a.attempt_id == b.attempt_id
      && a.queue_item_id == b.queue_item_id
      && a.content == b.content
      && a.target == b.target;
}

instance abbrev pub playback_scope_eq : Eq PlaybackScope
playback_scope_eq = record {
  beq = λ a b.
      a.request == b.request
      && a.session_id == b.session_id
      && a.connection_generation == b.connection_generation
      && a.started_monotonic == b.started_monotonic
      && a.application_id == b.application_id;
}
