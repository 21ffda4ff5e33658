-- ===== src/SessionStore/Saved.antt =====
-- tellyq/session_store.py: what was saved is loaded, in the process and after a restart.
use tellyq.Prelude.{
  ℕ, ◌≡◌, refl, sym, ap, ◌∙◌, ◌<◌, String, Bool, true, false, Option, none, some, List, [], ◌∷◌,
  Fault, ok, raise_if, raise_if-ok, >>=-eq-ok, ok-injective, ◌>>=◌, ◌>>◌, ◌==◌, ◌!=◌, nat_eq,
  string_eq, option_eq, not, str_eq_self, inl, inr, ◌⊎◌, if◌then◌else◌, arith, bool_eq,
}
use tellyq.Values.{new_session, SessionSnapshot}
use tellyq.SessionStore.{
  value_beq, record_beq, text_or_null, content_kind_value, player_state_value, encode_snapshot,
  Restart, decode_snapshot, SessionFiles, newest, restarted, cached_or, load_record, load_session,
  is_outdated, with_session_record, save_session,
}
use tellyq.SessionStore.Restored.{
  restored, is_storable, unless_refused, decode_snapshot-encode_snapshot,
}

value_beq-text_or_null : (t : Option String) → value_beq (text_or_null t) (text_or_null t) ≡ true
value_beq-text_or_null none = refl
value_beq-text_or_null (some t) = str_eq_self t

bool_eq_self : (b : Bool) → (b == b) ≡ true
bool_eq_self true = refl
bool_eq_self false = refl

record_beq-encode_snapshot :
    (s : SessionSnapshot) → record_beq (encode_snapshot s) (encode_snapshot s) ≡ true
unfolding record_beq encode_snapshot
record_beq-encode_snapshot s =
    let r = s.scope.request in
    let request = str_eq_self r.request_id in
    let attempt = str_eq_self r.attempt_id in
    let item = str_eq_self r.queue_item_id in
    let provider = str_eq_self r.content.provider in
    let content = str_eq_self r.content.content_id in
    let kind = str_eq_self (content_kind_value r.content.kind) in
    let title = value_beq-text_or_null r.content.title in
    let device = str_eq_self r.target.device_id in
    let route = str_eq_self r.target.route in
    let name = value_beq-text_or_null r.target.name in
    let session = str_eq_self s.scope.session_id in
    let application = value_beq-text_or_null s.scope.application_id in
    let state = str_eq_self (player_state_value s.state) in
    let stopped = bool_eq_self s.stop_requested in ground arith

-- A save that returned had read what it was about to write.
save_session-storable :
    (path_of : String → String) (files after : SessionFiles) (s : SessionSnapshot)
    (expected : Option ℕ) (restart second : Restart)
    → (second.generation == "") ≡ false
    → save_session path_of files s expected restart second ≡ ok after
    → (is_storable s ≡ true)
      × (after ≡ with_session_record path_of files s)
      × ((previous : Option SessionSnapshot) × (load_session path_of files
              s.scope.request.attempt_id restart
            ≡ ok previous)
          × (is_outdated previous expected s.revision ≡ false))
unfolding save_session
save_session-storable path_of files after s expected restart second fresh e =
    let attempt_id = s.scope.request.attempt_id in
    let loaded = >>=-eq-ok (load_session path_of files attempt_id restart) _ e in
    let allowed =
      raise_if-ok (is_outdated loaded.0 expected s.revision) Fault.revision_conflict _ loaded.2 in
    let decoded = >>=-eq-ok (decode_snapshot (encode_snapshot s) second) _ allowed.1 in
    let read = decode_snapshot-encode_snapshot s second fresh in
    (
      passed (is_storable s) (restored s second) decoded.0 (sym read ∙ decoded.1),
      sym (ok-injective decoded.2),
      (loaded.0, loaded.1, allowed.0),
    )
  where
    passed : (test : Bool) (a b : SessionSnapshot) → unless_refused test a ≡ ok b → test ≡ true
    passed true a b h = refl
    passed false a b h = cc (h)

-- Loading a storable session that was written gives the cached one or what a restart leaves of it.
load_session-written :
    (path_of : String → String) (files : SessionFiles) (s : SessionSnapshot)
    (cache : List (String × SessionSnapshot)) (restart : Restart)
    → (restart.generation == "") ≡ false
    → is_storable s ≡ true
    → load_session path_of
        (record (with_session_record path_of files s) { cache = cache })
        s.scope.request.attempt_id
        restart
      ≡ ok (
          some (
            cached_or
              (newest s.scope.request.attempt_id cache)
              (encode_snapshot s)
              (restored s restart)))
unfolding load_session new_session
load_session-written path_of files s cache restart fresh storable =
    let attempt_id = s.scope.request.attempt_id in
    let written = record (with_session_record path_of files s) { cache = cache } in
    let named = str_eq_self (path_of attempt_id) in
    let same = str_eq_self attempt_id in
    let read : decode_snapshot (encode_snapshot s) restart ≡ ok (restored s restart) =
      decode_snapshot-encode_snapshot s restart fresh
      ∙ ap (λ b. unless_refused b (restored s restart)) storable in
    ap
      (λ b.
        load_record path_of
          (if b then some (encode_snapshot s) else newest (path_of attempt_id) files.records)
          written attempt_id restart)
      named
    ∙ ap
        (λ r. r >>= λ recovered.
          raise_if (recovered.scope.request.attempt_id != attempt_id) Fault.value_error
          >> ok (some (cached_or (newest attempt_id cache) (encode_snapshot s) recovered)))
        read
    ∙ ap
        (λ b.
          raise_if (not b) Fault.value_error
          >> ok
              (some (cached_or (newest attempt_id cache) (encode_snapshot s) (restored s restart))))
        same

-- What was saved is loaded again: the very session while the process runs, and after its end the
-- session that a restart leaves, with the same request and revision and with no evidence.
pub load_session-save_session :
    (path_of : String → String) (files after : SessionFiles) (s : SessionSnapshot)
    (expected : Option ℕ) (restart second later : Restart)
    → (second.generation == "") ≡ false
    → (later.generation == "") ≡ false
    → save_session path_of files s expected restart second ≡ ok after
    → (load_session path_of after s.scope.request.attempt_id later ≡ ok (some s))
      × (load_session path_of (restarted after) s.scope.request.attempt_id later
          ≡ ok (some (restored s later)))
load_session-save_session path_of files after s expected restart second later fresh fresh' e =
    let saved = save_session-storable path_of files after s expected restart second fresh e in
    let attempt_id = s.scope.request.attempt_id in
    let same = str_eq_self attempt_id in
    let equal = record_beq-encode_snapshot s in
    (
      ap (λ f. load_session path_of f attempt_id later) saved.1
          ∙ load_session-written path_of files s ((attempt_id, s) ∷ files.cache) later fresh'
              saved.0
          ∙ ap
              (λ b. ok (
                some (
                  cached_or (if b then some s else newest attempt_id files.cache)
                    (encode_snapshot s) (restored s later))))
              same
          ∙ ap (λ b. ok (some (if b then s else restored s later))) equal,
      ap (λ f. load_session path_of (restarted f) attempt_id later) saved.1
          ∙ load_session-written path_of files s [] later fresh' saved.0,
    )

-- A save that returned replaced what its caller expected, and only by a later revision: nothing where
-- nothing was expected, and else the session of the expected, smaller revision.
pub save_session-revision :
    (path_of : String → String) (files after : SessionFiles) (s : SessionSnapshot)
    (expected : Option ℕ) (restart second : Restart)
    → (second.generation == "") ≡ false
    → save_session path_of files s expected restart second ≡ ok after
    → ((load_session path_of files s.scope.request.attempt_id restart ≡ ok none)
        × ((expected == none) ≡ true))
      ⊎ ((p : SessionSnapshot) × (load_session path_of files s.scope.request.attempt_id restart
            ≡ ok (some p))
          × ((expected == some p.revision) ≡ true)
          × (p.revision < s.revision))
unfolding is_outdated
save_session-revision path_of files after s expected restart second fresh e =
    let saved = save_session-storable path_of files after s expected restart second fresh e in
    replaced saved.2.0 saved.2.1 saved.2.2
  where
    replaced :
        (previous : Option SessionSnapshot)
        → load_session path_of files s.scope.request.attempt_id restart ≡ ok previous
        → is_outdated previous expected s.revision ≡ false
        → ((load_session path_of files s.scope.request.attempt_id restart ≡ ok none)
            × ((expected == none) ≡ true))
          ⊎ ((p : SessionSnapshot) × (load_session path_of files s.scope.request.attempt_id restart
                ≡ ok (some p))
              × ((expected == some p.revision) ≡ true)
              × (p.revision < s.revision))
    replaced none found current = inl (found, ground arith)
    replaced (some p) found current = inr (p, found, ground arith, ground arith)
