-- ===== src/SessionStore/Restored.antt =====
-- tellyq/session_store.py: what a record that was written is read as.
use tellyq.Prelude.{
  ◌≡◌, refl, ap, ◌∙◌, String, Bool, true, false, Option, none, some, Result, Fault, ok, err,
  raise_if, ◌>>=◌, ◌==◌, string_eq, ◌&&◌, not, is_blank, arith, eq_iff, Bool-cases, inl, inr, subst,
}
use tellyq.Values.{
  ContentKind, ContentRef, PlaybackTarget, PlaybackRequest, PlaybackScope, PlayerState,
  SessionSnapshot, new_session,
}
use tellyq.SessionStore.{
  Value, text_or_null, content_kind_value, player_state_value, encode_snapshot, has_fields,
  is_version_one, string_of, optional_of, content_kind_of, is_player_state, decode_content,
  decode_target, decode_request, Restart, decode_scope, decode_snapshot,
}

-- What is left of a session after a restart: what it was asked to play, where, at which revision, and
-- whether it was asked to stop; no evidence, no time and no connection.
abbrev pub restored : SessionSnapshot → Restart → SessionSnapshot
restored snapshot restart =
    record (new_session (record snapshot.scope {
      connection_generation = restart.generation;
      started_monotonic = restart.monotonic;
    })) { revision = snapshot.revision; stop_requested = snapshot.stop_requested }

abbrev pub is_text : String → Bool
is_text t = not (is_blank t)

abbrev pub is_optional_text : Option String → Bool
is_optional_text none = true
is_optional_text (some t) = not (is_blank t)

-- Every identity has a character that is not a space, and so has every optional text that is there.
unfoldable pub storable_content : ContentRef → Bool
storable_content c = is_text c.provider && (is_text c.content_id && is_optional_text c.title)

unfoldable pub storable_target : PlaybackTarget → Bool
storable_target t = is_text t.device_id && (is_text t.route && is_optional_text t.name)

unfoldable pub storable_request : PlaybackRequest → Bool
storable_request r =
    is_text r.request_id
    && (is_text r.attempt_id
        && (is_text r.queue_item_id && (storable_content r.content && storable_target r.target)))

unfoldable pub is_storable : SessionSnapshot → Bool
is_storable snapshot =
    let scope = snapshot.scope in
    storable_request scope.request
    && (is_text scope.session_id && is_optional_text scope.application_id)

-- All refusals are the same exception.
abbrev pub unless_refused : {A : Type 0} → Bool → A → Result A
unless_refused true a = ok a
unless_refused false a = err Fault.value_error

nonempty : (t : String) → is_text t ≡ true → (t == "") ≡ false
unfolding is_blank
nonempty t h = elim (Bool-cases (t == "")) [
  | inl same ↦ cc (subst (λ s. is_text s ≡ true) ((eq_iff t "").0 same) h)
  | inr other ↦ other
]

module _ {A B : Type 0} (r : Result A) (test : Bool) (a : A) (f : A → Result B) where
  then-unless_refused :
      (rest : Bool) (b : B)
      → r ≡ unless_refused test a
      → (test ≡ true → f a ≡ unless_refused rest b)
      → (r >>= f) ≡ unless_refused (test && rest) b
  then-unless_refused rest b e h = ap (λ s. s >>= f) e ∙ by_test test h
    where
      by_test :
          (t : Bool)
          → (t ≡ true → f a ≡ unless_refused rest b)
          → (unless_refused t a >>= f) ≡ unless_refused (t && rest) b
      by_test true k = k refl
      by_test false k = refl

  last-unless_refused :
      (b : B)
      → r ≡ unless_refused test a
      → (test ≡ true → f a ≡ ok b)
      → (r >>= f) ≡ unless_refused test b
  last-unless_refused b e h = ap (λ s. s >>= f) e ∙ by_test test h
    where
      by_test :
          (t : Bool) → (t ≡ true → f a ≡ ok b) → (unless_refused t a >>= f) ≡ unless_refused t b
      by_test true k = k refl
      by_test false k = refl

ok-then :
    {A B : Type 0} (r : Result A) (a : A) (f : A → Result B) (z : Result B)
    → r ≡ ok a
    → f a ≡ z
    → (r >>= f) ≡ z
ok-then r a f z e h = ap (λ s. s >>= f) e ∙ h

string_of-text : (t : String) → string_of (some (Value.text t)) ≡ unless_refused (is_text t) t
string_of-text t = ground arith

optional_of-text :
    (t : Option String)
    → optional_of (some (text_or_null t)) ≡ unless_refused (is_optional_text t) t
optional_of-text none = refl
optional_of-text (some t) = ground arith

kind_text : (k : ContentKind) → is_text (content_kind_value k) ≡ true
unfolding is_blank
kind_text ContentKind.video = refl
kind_text ContentKind.episode = refl

content_kind_of-value : (k : ContentKind) → content_kind_of (content_kind_value k) ≡ ok k
unfolding content_kind_of
content_kind_of-value ContentKind.video = refl
content_kind_of-value ContentKind.episode = refl

decode_content-encode :
    (s : SessionSnapshot)
    → decode_content (encode_snapshot s)
      ≡ unless_refused (storable_content s.scope.request.content) s.scope.request.content
unfolding decode_content encode_snapshot storable_content
decode_content-encode s =
    let c = s.scope.request.content in
    let kind = content_kind_value c.kind in
    then-unless_refused (string_of (some (Value.text c.provider))) (is_text c.provider) c.provider _
      (is_text c.content_id && is_optional_text c.title) c (string_of-text c.provider)
      (λ p.
        then-unless_refused (string_of (some (Value.text c.content_id))) (is_text c.content_id)
          c.content_id _ (is_optional_text c.title) c (string_of-text c.content_id)
          (λ i.
            ok-then (string_of (some (Value.text kind))) kind _ _
              (string_of-text kind ∙ ap (λ b. unless_refused b kind) (kind_text c.kind))
              (ok-then (content_kind_of kind) c.kind _ _ (content_kind_of-value c.kind) (
                last-unless_refused (optional_of (some (text_or_null c.title)))
                  (is_optional_text c.title) c.title _ c (optional_of-text c.title)
                  (λ _.
                    let p' = nonempty c.provider p in
                    let i' = nonempty c.content_id i in ground arith)))))

decode_target-encode :
    (s : SessionSnapshot)
    → decode_target (encode_snapshot s)
      ≡ unless_refused (storable_target s.scope.request.target) s.scope.request.target
unfolding decode_target encode_snapshot storable_target
decode_target-encode s =
    let t = s.scope.request.target in
    then-unless_refused (string_of (some (Value.text t.device_id))) (is_text t.device_id)
      t.device_id _ (is_text t.route && is_optional_text t.name) t (string_of-text t.device_id)
      (λ d.
        then-unless_refused (string_of (some (Value.text t.route))) (is_text t.route) t.route _
          (is_optional_text t.name) t (string_of-text t.route)
          (λ r.
            last-unless_refused (optional_of (some (text_or_null t.name))) (is_optional_text t.name)
              t.name _ t (optional_of-text t.name)
              (λ _.
                let d' = nonempty t.device_id d in let r' = nonempty t.route r in ground arith)))

decode_request-encode :
    (s : SessionSnapshot)
    → decode_request (encode_snapshot s)
      ≡ unless_refused (storable_request s.scope.request) s.scope.request
unfolding decode_request storable_request encode_snapshot
decode_request-encode s =
    let r = s.scope.request in
    let media = storable_content r.content && storable_target r.target in
    then-unless_refused (string_of (some (Value.text r.request_id))) (is_text r.request_id)
      r.request_id _ (is_text r.attempt_id && (is_text r.queue_item_id && media)) r
      (string_of-text r.request_id)
      (λ i.
        then-unless_refused (string_of (some (Value.text r.attempt_id))) (is_text r.attempt_id)
          r.attempt_id _ (is_text r.queue_item_id && media) r (string_of-text r.attempt_id)
          (λ a.
            then-unless_refused (string_of (some (Value.text r.queue_item_id)))
              (is_text r.queue_item_id) r.queue_item_id _ media r (string_of-text r.queue_item_id)
              (λ q.
                then-unless_refused (decode_content (encode_snapshot s))
                  (storable_content r.content) r.content _ (storable_target r.target) r
                  (decode_content-encode s)
                  (λ _.
                    last-unless_refused (decode_target (encode_snapshot s))
                      (storable_target r.target) r.target _ r (decode_target-encode s)
                      (λ _.
                        let i' = nonempty r.request_id i in
                        let a' = nonempty r.attempt_id a in
                        let q' = nonempty r.queue_item_id q in ground arith)))))

rescoped : SessionSnapshot → Restart → PlaybackScope
rescoped s restart = record s.scope {
  connection_generation = restart.generation;
  started_monotonic = restart.monotonic;
}

decode_scope-encode :
    (s : SessionSnapshot) (restart : Restart)
    → (restart.generation == "") ≡ false
    → decode_scope s.scope.request (encode_snapshot s) restart
      ≡ unless_refused
          (is_text s.scope.session_id && is_optional_text s.scope.application_id)
          (rescoped s restart)
unfolding decode_scope encode_snapshot rescoped
decode_scope-encode s restart fresh =
    let c = s.scope in
    then-unless_refused (string_of (some (Value.text c.session_id))) (is_text c.session_id)
      c.session_id _ (is_optional_text c.application_id) (rescoped s restart)
      (string_of-text c.session_id)
      (λ i.
        last-unless_refused (optional_of (some (text_or_null c.application_id)))
          (is_optional_text c.application_id) c.application_id _ (rescoped s restart)
          (optional_of-text c.application_id)
          (λ _. let i' = nonempty c.session_id i in ground arith))

state_text : (p : PlayerState) → is_text (player_state_value p) ≡ true
unfolding is_blank
state_text PlayerState.unknown = refl
state_text PlayerState.idle = refl
state_text PlayerState.buffering = refl
state_text PlayerState.playing = refl
state_text PlayerState.paused = refl
state_text PlayerState.ended = refl
state_text PlayerState.stopped = refl

is_player_state-value : (p : PlayerState) → is_player_state (player_state_value p) ≡ true
unfolding is_player_state
is_player_state-value PlayerState.unknown = refl
is_player_state-value PlayerState.idle = refl
is_player_state-value PlayerState.buffering = refl
is_player_state-value PlayerState.playing = refl
is_player_state-value PlayerState.paused = refl
is_player_state-value PlayerState.ended = refl
is_player_state-value PlayerState.stopped = refl

-- What was written is read as the session that a restart leaves, where every text of it is storable;
-- everywhere else reading refuses it as invalid. (A fresh connection has a name.)
pub decode_snapshot-encode_snapshot :
    (s : SessionSnapshot) (restart : Restart)
    → (restart.generation == "") ≡ false
    → decode_snapshot (encode_snapshot s) restart
      ≡ unless_refused (is_storable s) (restored s restart)
unfolding decode_snapshot encode_snapshot is_storable has_fields is_version_one rescoped
decode_snapshot-encode_snapshot s restart fresh =
    let state = player_state_value s.state in
    ok-then (string_of (some (Value.text state))) state _ _
      (string_of-text state ∙ ap (λ b. unless_refused b state) (state_text s.state))
      (ok-then (raise_if (not (is_player_state state)) Fault.value_error) tt _ _
        (ap (λ b. raise_if (not b) Fault.value_error) (is_player_state-value s.state))
        (then-unless_refused (decode_request (encode_snapshot s)) (storable_request s.scope.request)
          s.scope.request _ (is_text s.scope.session_id && is_optional_text s.scope.application_id)
          (restored s restart) (decode_request-encode s)
          (λ _.
            last-unless_refused (decode_scope s.scope.request (encode_snapshot s) restart)
              (is_text s.scope.session_id && is_optional_text s.scope.application_id)
              (rescoped s restart) _ (restored s restart) (decode_scope-encode s restart fresh)
              (λ _. refl))))
