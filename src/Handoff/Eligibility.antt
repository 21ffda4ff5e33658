-- ===== src/Handoff/Eligibility.antt =====
-- tellyq/handoff.py: what a release rests on.
use tellyq.Prelude.{
  ◌≡◌, refl, Bool, true, false, Option, none, some, List, ◌==◌, ◌!=◌, nat_eq, string_eq, option_eq,
  ◌||◌, not, is_some, is_true, is_false, last, if◌then◌else◌, arith,
}
use tellyq.Values.{
  Instant, is_fresh, content_ref_eq, playback_target_eq, PlayerState, player_state_eq, IdleReason,
  idle_reason_eq, IdentityUpdate, identity_update_eq, PlaybackObservation, CompletionEvidence,
  SessionSnapshot,
}
use tellyq.Handoff.{
  HandoffDisposition, handoff_disposition_eq, HandoffReason, HandoffDiagnostic, ReleaseAuthority,
  is_witnessed, hold_release, unqualified_terminal, receiver_differs, media_differs,
  state_unqualified, last_where, is_receiver, media_decision, sampled_decision, receiver_decision,
  terminal_decision, witnessed_decision, release_decision, may_release,
}

IsReady : HandoffDiagnostic → Type 0
IsReady d = (d.disposition == HandoffDisposition.ready) ≡ true

IsReady-held :
    (snapshot : SessionSnapshot) (authority : Option ReleaseAuthority) (now : Instant)
    (reason : HandoffReason) (event : Option PlaybackObservation)
    → IsReady (hold_release snapshot authority now reason event)
    → ⊥
unfolding IsReady
IsReady-held snapshot authority now reason event h = cc (h)

-- Behind a guard that holds the release, readiness is that of the rest.
IsReady-guard :
    (snapshot : SessionSnapshot) (authority : Option ReleaseAuthority) (now : Instant)
    (reason : HandoffReason) (event : Option PlaybackObservation) (test : Bool)
    (rest : HandoffDiagnostic)
    → IsReady (if test then hold_release snapshot authority now reason event else rest)
    → (test ≡ false) × IsReady rest
unfolding IsReady
IsReady-guard snapshot authority now reason event true rest h = cc (h)
IsReady-guard snapshot authority now reason event false rest h = (refl, h)

-- The media is the one that ended: explicitly named, fresh, at rest, and not an ad.
pub record IsEndedMedia (snapshot : SessionSnapshot) (terminal media : PlaybackObservation)
    (now : Instant) : Type 0 where
  pub fresh_media : is_fresh now media.monotonic ≡ true
  pub named : (media.identity_update == IdentityUpdate.explicit) ≡ true
  pub same_content : (media.content == some snapshot.scope.request.content) ≡ true
  pub same_session : (media.session_id == some snapshot.scope.session_id) ≡ true
  pub same_media : (media.playback_id == terminal.playback_id) ≡ true
  pub no_ad : is_true media.ad_active ≡ false
  pub not_playing : (media.state == PlayerState.playing) ≡ false
  pub not_paused : (media.state == PlayerState.paused) ≡ false

-- The receiver still runs the session's own application.
pub record IsOwnReceiver (snapshot : SessionSnapshot) (receiver : PlaybackObservation)
    (now : Instant) : Type 0 where
  pub active : is_true receiver.session_active ≡ true
  pub fresh_receiver : is_fresh now receiver.monotonic ≡ true
  pub own_session : (receiver.session_id == some snapshot.scope.session_id) ≡ true
  pub own_application : (receiver.application_id == snapshot.scope.application_id) ≡ true
  pub own_target : (receiver.target == snapshot.scope.request.target) ≡ true
  pub own_connection :
      (receiver.connection_generation == snapshot.scope.connection_generation) ≡ true

-- The terminal sample is the completion's, a natural end, and fresh.
pub record IsNaturalEnd (snapshot : SessionSnapshot) (witness : CompletionEvidence)
    (terminal : PlaybackObservation) (now : Instant) : Type 0 where
  pub fresh_end : is_fresh now terminal.monotonic ≡ true
  pub witnessed : is_witnessed witness terminal ≡ true
  pub identified : is_some terminal.playback_id ≡ true
  pub outside_ads : is_false terminal.ad_active ≡ true
  pub idle : (terminal.state == PlayerState.idle) ≡ true
  pub finished : (terminal.idle_reason == some IdleReason.finished) ≡ true
  pub in_session : (terminal.session_id == some snapshot.scope.session_id) ≡ true

pub record IsReleasable (snapshot : SessionSnapshot) (a : ReleaseAuthority)
    (events : List PlaybackObservation) (now : Instant) : Type 0 where
  pub unblocked : a.blocked ≡ false
  pub owned : snapshot.ownership_lost ≡ false
  pub unstopped : snapshot.stop_requested ≡ false
  pub witness : CompletionEvidence
  pub completed : snapshot.completion ≡ some witness
  pub ended : IsNaturalEnd snapshot witness a.terminal now
  pub receiver : PlaybackObservation
  pub latest_receiver : last_where is_receiver events ≡ some receiver
  pub own : IsOwnReceiver snapshot receiver now
  pub media : PlaybackObservation
  pub latest_media : last_where (λ e. not (is_receiver e)) events ≡ some media
  pub same : IsEndedMedia snapshot a.terminal media now

module _ (snapshot : SessionSnapshot) (a : ReleaseAuthority) (now : Instant) where
  media_decision-IsReady :
      (media : PlaybackObservation)
      → IsReady (media_decision snapshot a now media)
      → IsEndedMedia snapshot a.terminal media now
  unfolding media_decision media_differs state_unqualified
  media_decision-IsReady media ready =
      let s = some a in
      let e = some media in
      let stale =
        IsReady-guard snapshot s now HandoffReason.media_stale e
          (not (is_fresh now media.monotonic)) _ ready in
      let missing =
        IsReady-guard snapshot s now HandoffReason.media_identity_missing e
          (not (is_some media.content) || media.identity_update != IdentityUpdate.explicit) _
          stale.1 in
      let other =
        IsReady-guard snapshot s now HandoffReason.media_identity_mismatch e
          (media_differs snapshot.scope a.terminal media) _ missing.1 in
      let ad =
        IsReady-guard snapshot s now HandoffReason.ad_active e (is_true media.ad_active) _
          other.1 in
      let state =
        IsReady-guard snapshot s now HandoffReason.media_state_unqualified e
          (state_unqualified media) _ ad.1 in
      let t0 = stale.0 in
      let t1 = missing.0 in
      let t2 = other.0 in
      let t3 = ad.0 in
      let t4 = state.0 in
      record {
        fresh_media = ground arith;
        named = ground arith;
        same_content = ground arith;
        same_session = ground arith;
        same_media = ground arith;
        no_ad = t3;
        not_playing = ground arith;
        not_paused = ground arith;
      }

  receiver_decision-IsReady :
      (receiver media : PlaybackObservation)
      → IsReady (receiver_decision snapshot a now receiver media)
      → IsOwnReceiver snapshot receiver now × IsEndedMedia snapshot a.terminal media now
  unfolding receiver_decision receiver_differs
  receiver_decision-IsReady receiver media ready =
      let s = some a in
      let e = some receiver in
      let inactive =
        IsReady-guard snapshot s now HandoffReason.receiver_inactive e
          (not (is_true receiver.session_active)) _ ready in
      let other =
        IsReady-guard snapshot s now HandoffReason.receiver_identity_mismatch e
          (receiver_differs snapshot.scope receiver) _ inactive.1 in
      let stale =
        IsReady-guard snapshot s now HandoffReason.receiver_stale e
          (not (is_fresh now receiver.monotonic)) _ other.1 in
      let t0 = inactive.0 in
      let t1 = other.0 in
      let t2 = stale.0 in
      (
        record {
          active = ground arith;
          fresh_receiver = ground arith;
          own_session = ground arith;
          own_application = ground arith;
          own_target = ground arith;
          own_connection = ground arith;
        },
        media_decision-IsReady media stale.1,
      )

  terminal_decision-IsReady :
      (events : List PlaybackObservation) (witness : CompletionEvidence)
      → a.blocked ≡ false
      → snapshot.completion ≡ some witness
      → IsReady (terminal_decision snapshot a now events witness)
      → IsReleasable snapshot a events now
  unfolding terminal_decision unqualified_terminal
  terminal_decision-IsReady events witness unblocked completed ready =
      let s = some a in
      let t = some a.terminal in
      let lost =
        IsReady-guard snapshot s now HandoffReason.ownership_lost snapshot.latest
          snapshot.ownership_lost _ ready in
      let stop =
        IsReady-guard snapshot s now HandoffReason.stop_requested snapshot.latest
          snapshot.stop_requested _ lost.1 in
      let stale =
        IsReady-guard snapshot s now HandoffReason.terminal_stale t
          (not (is_fresh now a.terminal.monotonic)) _ stop.1 in
      let other =
        IsReady-guard snapshot s now HandoffReason.completion_mismatch t
          (not (is_witnessed witness a.terminal)) _ stale.1 in
      let qualified =
        IsReady-guard snapshot s now HandoffReason.terminal_unqualified t
          (unqualified_terminal snapshot.scope a.terminal) _ other.1 in
      let t0 = stale.0 in
      let t1 = other.0 in
      let t2 = qualified.0 in
      sampled (last_where is_receiver events) (last_where (λ e. not (is_receiver e)) events) refl
        refl lost.0 stop.0
        (record {
          fresh_end = ground arith;
          witnessed = ground arith;
          identified = ground arith;
          outside_ads = ground arith;
          idle = ground arith;
          finished = ground arith;
          in_session = ground arith;
        })
        qualified.1
    where
      sampled :
          (receiver media : Option PlaybackObservation)
          → last_where is_receiver events ≡ receiver
          → last_where (λ e. not (is_receiver e)) events ≡ media
          → snapshot.ownership_lost ≡ false
          → snapshot.stop_requested ≡ false
          → IsNaturalEnd snapshot witness a.terminal now
          → IsReady (sampled_decision snapshot a now receiver media)
          → IsReleasable snapshot a events now
      sampled none media r m owned unstopped ended h =
          absurd (IsReady-held snapshot (some a) now HandoffReason.receiver_missing none h)
      sampled (some receiver) none r m owned unstopped ended h =
          absurd (IsReady-held snapshot (some a) now HandoffReason.media_missing none h)
      sampled (some receiver) (some media) r m owned unstopped ended h =
          let tests = receiver_decision-IsReady receiver media h in
          record {
            unblocked = unblocked;
            owned = owned;
            unstopped = unstopped;
            witness = witness;
            completed = completed;
            ended = ended;
            receiver = receiver;
            latest_receiver = r;
            own = tests.0;
            media = media;
            latest_media = m;
            same = tests.1;
          }

  witnessed_decision-IsReady :
      (events : List PlaybackObservation) (witness : Option CompletionEvidence)
      → a.blocked ≡ false
      → snapshot.completion ≡ witness
      → IsReady (witnessed_decision snapshot a now events witness)
      → IsReleasable snapshot a events now
  witnessed_decision-IsReady events none unblocked completed ready =
      absurd (IsReady-held snapshot (some a) now HandoffReason.completion_required none ready)
  witnessed_decision-IsReady events (some witness) unblocked completed ready =
      terminal_decision-IsReady events witness unblocked completed ready

-- The receiver may be given back only with an authority that is not blocked, for a completed session
-- that is owned and was not asked to stop: its terminal sample is the completion's own, natural and
-- fresh, the receiver's last sample shows the session's application active and fresh, and the last
-- sample of media names the very media that ended, at rest and outside ads.
pub may_release-IsReleasable :
    (snapshot : SessionSnapshot) (authority : Option ReleaseAuthority)
    (events : List PlaybackObservation) (now : Instant)
    → may_release snapshot authority events now ≡ true
    → (a : ReleaseAuthority) × (authority ≡ some a) × IsReleasable snapshot a events now
unfolding may_release release_decision IsReady
may_release-IsReleasable snapshot none events now ready = cc (ready)
may_release-IsReleasable snapshot (some a) events now ready =
    let open_gate =
      IsReady-guard snapshot (some a) now HandoffReason.authority_blocked (last events) a.blocked _
        ready in
    (
      a,
      refl,
      witnessed_decision-IsReady snapshot a now events snapshot.completion open_gate.0 refl
          open_gate.1,
    )
