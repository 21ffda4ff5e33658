-- ===== src/SessionStore/Records.antt =====
-- tellyq/session_store.py, tellyq/models.py: the record on disk of a session, written and read.
use tellyq.Prelude.{
  ℕ, ℤ, String, Bool, true, false, Option, none, some, List, [], ◌∷◌, Result, Fault, ok, err,
  raise_if, ◌>>=◌, ◌>>◌, ◌==◌, Eq, nat_eq, string_eq, bool_eq, ◌&&◌, not, is_some, all, any, length,
  is_blank, if◌then◌else◌,
}
use tellyq.Values.{
  Instant, ContentKind, ContentRef, check_content, PlaybackTarget, check_target, PlaybackRequest,
  check_request, PlaybackScope, check_scope, PlayerState, SessionSnapshot, new_session,
}

-- A value that was read as JSON; `other` is any that no field of the record may have.
pub data Value : Type 0 where
  null other : Value
  boolean : Bool → Value
  integer : ℤ → Value
  text : String → Value

abbrev pub integer_beq : ℤ → ℤ → Bool
integer_beq (ℤ.pos a) (ℤ.pos b) = a == b
integer_beq (ℤ.negsuc a) (ℤ.negsuc b) = a == b
integer_beq (ℤ.pos a) (ℤ.negsuc b) = false
integer_beq (ℤ.negsuc a) (ℤ.pos b) = false

-- `other` stands for many values, and what the code writes is none of them.
abbrev pub value_beq : Value → Value → Bool
value_beq Value.null Value.null = true
value_beq (Value.boolean a) (Value.boolean b) = a == b
value_beq (Value.integer a) (Value.integer b) = integer_beq a b
value_beq (Value.text a) (Value.text b) = a == b
value_beq a b = false

instance abbrev pub value_eq : Eq Value
value_eq = record { beq = value_beq }

abbrev pub Record : Type 0
Record = List (String × Value)

abbrev pub field_of : Record → String → Option Value
field_of [] key = none
field_of ((name, value) ∷ fields) key = if name == key then some value else field_of fields key

-- `==` of two dictionaries, whose keys are distinct
unfoldable pub record_beq : Record → Record → Bool
record_beq a b =
    length a == length b && all (λ f. elim (field_of b f.0) [ none ↦ false | some v ↦ f.1 == v ]) a

abbrev pub text_or_null : Option String → Value
text_or_null none = Value.null
text_or_null (some t) = Value.text t

abbrev pub content_kind_value : ContentKind → String
content_kind_value ContentKind.video = "video"
content_kind_value ContentKind.episode = "episode"

abbrev pub player_state_value : PlayerState → String
player_state_value PlayerState.unknown = "unknown"
player_state_value PlayerState.idle = "idle"
player_state_value PlayerState.buffering = "buffering"
player_state_value PlayerState.playing = "playing"
player_state_value PlayerState.paused = "paused"
player_state_value PlayerState.ended = "ended"
player_state_value PlayerState.stopped = "stopped"

unfoldable pub encode_snapshot : SessionSnapshot → Record
encode_snapshot snapshot =
    let scope = snapshot.scope in
    let request = scope.request in
    ("schema_version", Value.integer (ℤ.pos 1))
    ∷ ("revision", Value.integer (ℤ.pos snapshot.revision))
    ∷ ("request_id", Value.text request.request_id)
    ∷ ("attempt_id", Value.text request.attempt_id)
    ∷ ("queue_item_id", Value.text request.queue_item_id)
    ∷ ("provider", Value.text request.content.provider)
    ∷ ("content_id", Value.text request.content.content_id)
    ∷ ("content_kind", Value.text (content_kind_value request.content.kind))
    ∷ ("title", text_or_null request.content.title)
    ∷ ("device_id", Value.text request.target.device_id)
    ∷ ("route", Value.text request.target.route)
    ∷ ("name", text_or_null request.target.name)
    ∷ ("session_id", Value.text scope.session_id)
    ∷ ("application_id", text_or_null scope.application_id)
    ∷ ("historical_state", Value.text (player_state_value snapshot.state))
    ∷ ("stop_requested", Value.boolean snapshot.stop_requested)
    ∷ []

-- `SnapshotRecord.__annotations__`
abbrev pub snapshot_fields : List String
snapshot_fields =
    "schema_version" ∷ "revision" ∷ "request_id" ∷ "attempt_id" ∷ "queue_item_id" ∷ "provider"
    ∷ "content_kind" ∷ "content_id" ∷ "title" ∷ "device_id" ∷ "route" ∷ "name" ∷ "session_id"
    ∷ "application_id" ∷ "historical_state" ∷ "stop_requested" ∷ []

-- `set(value) == fields`
unfoldable pub has_fields : List String → Record → Bool
has_fields names value =
    all (λ name. is_some (field_of value name)) names
    && all (λ f. any (λ name. name == f.0) names) value

unfoldable pub is_version_one : Record → Bool
is_version_one value = elim (field_of value "schema_version") [
  | none ↦ false
  | some v ↦ v == Value.integer (ℤ.pos 1)
]

abbrev pub natural_of : Option Value → Result ℕ
natural_of (some (Value.integer (ℤ.pos n))) = ok n
natural_of v = err Fault.value_error

abbrev pub boolean_of : Option Value → Result Bool
boolean_of (some (Value.boolean b)) = ok b
boolean_of v = err Fault.value_error

-- `string` and `optional`, of the field's value
abbrev pub string_of : Option Value → Result String
string_of (some (Value.text t)) = do raise_if (is_blank t) Fault.value_error; ok t
string_of v = err Fault.value_error

abbrev pub optional_of : Option Value → Result (Option String)
optional_of (some Value.null) = ok none
optional_of v = do t ← string_of v; ok (some t)

-- `ContentKind(…)` and `PlayerState(…)`
unfoldable pub content_kind_of : String → Result ContentKind
content_kind_of value =
    if value == "video"
    then ok ContentKind.video
    else if value == "episode"
    then ok ContentKind.episode
    else err Fault.value_error

unfoldable pub is_player_state : String → Bool
is_player_state value =
    any (λ name. name == value)
      ("unknown" ∷ "idle" ∷ "buffering" ∷ "playing" ∷ "paused" ∷ "ended" ∷ "stopped" ∷ [])

unfoldable pub decode_content : Record → Result ContentRef
decode_content value = do
  provider ← string_of (field_of value "provider")
  content_id ← string_of (field_of value "content_id")
  kind_value ← string_of (field_of value "content_kind")
  kind ← content_kind_of kind_value
  title ← optional_of (field_of value "title")
  check_content
      (record { provider = provider; content_id = content_id; kind = kind; title = title })

unfoldable pub decode_target : Record → Result PlaybackTarget
decode_target value = do
  device_id ← string_of (field_of value "device_id")
  route ← string_of (field_of value "route")
  name ← optional_of (field_of value "name")
  check_target (record { device_id = device_id; route = route; name = name })

unfoldable pub decode_request : Record → Result PlaybackRequest
decode_request value = do
  request_id ← string_of (field_of value "request_id")
  attempt_id ← string_of (field_of value "attempt_id")
  queue_item_id ← string_of (field_of value "queue_item_id")
  content ← decode_content value
  target ← decode_target value
  check_request (record {
    request_id = request_id;
    attempt_id = attempt_id;
    queue_item_id = queue_item_id;
    content = content;
    target = target;
  })

-- `str(uuid4())` and `clock.monotonic()`
pub record Restart : Type 0 where
  pub generation : String
  pub monotonic : Instant

unfoldable pub decode_scope : PlaybackRequest → Record → Restart → Result PlaybackScope
decode_scope request value restart = do
  session_id ← string_of (field_of value "session_id")
  application_id ← optional_of (field_of value "application_id")
  check_scope (record {
    request = request;
    session_id = session_id;
    connection_generation = restart.generation;
    started_monotonic = restart.monotonic;
    application_id = application_id;
  })

unfoldable pub decode_snapshot : Record → Restart → Result SessionSnapshot
decode_snapshot value restart = do
  raise_if (not (has_fields snapshot_fields value && is_version_one value)) Fault.value_error
  revision ← natural_of (field_of value "revision")
  stopped ← boolean_of (field_of value "stop_requested")
  historical ← string_of (field_of value "historical_state")
  raise_if (not (is_player_state historical)) Fault.value_error
  request ← decode_request value
  scope ← decode_scope request value restart
  ok (record (new_session scope) { revision = revision; stop_requested = stopped })
