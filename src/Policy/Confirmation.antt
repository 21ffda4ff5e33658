-- ===== src/Policy/Confirmation.antt =====
-- tellyq/domain/policy.py: what a sample must show before it confirms playback on the receiver.
use tellyq.Prelude.{
  ◌+◌, ◌-◌, ◌<◌, ◌≤◌, ◌≡◌, refl, true, false, Option, none, some, ok, ◌==◌, ◌||◌, string_eq,
  option_eq, if-intro, if◌then◌else◌, >>=-eq-ok, Attains, Attains-of_ok, subst, arith, ◌⊎◌, &&-true,
}
use tellyq.Values.{
  Instant, PlaybackObservation, PlayerState, content_ref_eq, SessionSnapshot, EvidencePolicy,
}
use tellyq.Policy.Intents.{refresh, expire, lost, unconfirmed}
use tellyq.Policy.Media.{
  moved_on, confirms, progress, hold_place, observe_stop, keep_chain, unidentified, interrupted,
}
use tellyq.Policy.Attribution.{finish_at}
use tellyq.Policy.Observe.{
  out_of_scope, repeated, count_sample, drop_release, observe_exit, foreign, control, settle,
  receive, observe,
}
use tellyq.Policy.Rule.{Stages, receive-rule}

-- The sample `o` plays on from an anchor of the session `s`.
pub record IsProgressed (s : SessionSnapshot) (o : PlaybackObservation) (now : Instant)
    (policy : EvidencePolicy) : Type 0 where
  pub playing : o.state ≡ PlayerState.playing
  pub no_ad : o.ad_active ≡ some false
  pub same_session : (o.session_id == some s.scope.session_id) ≡ true
  pub same_content : (o.content == some s.scope.request.content) ≡ true
  pub anchor : PlaybackObservation
  pub start : Instant
  pub position : Instant
  pub anchored : s.progress_anchor ≡ some anchor
  pub same_playback : (anchor.playback_id == o.playback_id) ≡ true
  pub started_at : anchor.position ≡ some start
  pub reached : o.position ≡ some position
  pub forward : start < position
  pub recent : now - anchor.monotonic ≤ policy.max_age_seconds
  pub apart : anchor.monotonic + policy.min_progress_interval_seconds ≤ o.monotonic

-- The session while a sample is read, before anything is confirmed.
record IsRead (s t : SessionSnapshot) : Type 0 where
  scoped : t.scope ≡ s.scope
  unconfirmed : t.evidence.receiver_playback_confirmed ≡ false
  anchored : (t.progress_anchor ≡ none) ⊎ (t.progress_anchor ≡ s.progress_anchor)

same_anchor :
    (s t : SessionSnapshot) (anchor : PlaybackObservation)
    → IsRead s t
    → t.progress_anchor ≡ some anchor
    → s.progress_anchor ≡ some anchor
same_anchor s t anchor p e = ground arith

module _ (s : SessionSnapshot) (now : Instant) (o : PlaybackObservation)
    (policy : EvidencePolicy) where
  abbrev Read : SessionSnapshot → Type 0
  Read t = IsRead s t

  abbrev Confirms : SessionSnapshot → Type 0
  Confirms t = t.evidence.receiver_playback_confirmed ≡ true → IsProgressed s o now policy

  own_media :
      (t : SessionSnapshot)
      → Read t
      → foreign t o ≡ false
      → unidentified o false ≡ false
      → ((o.session_id == some s.scope.session_id) ≡ true)
        × ((o.content == some s.scope.request.content) ≡ true)
  unfolding foreign unidentified
  own_media t p own known = (ground arith, ground arith)

  no_ad_of : interrupted o ≡ false → o.ad_active ≡ some false
  unfolding interrupted
  no_ad_of clear = ground arith

  moved_on-parts :
      (position : Instant) (anchor : PlaybackObservation) (found : Option Instant)
      → moved_on o position now policy anchor found ≡ true
      → (start : Instant) × (found ≡ some start)
        × ((anchor.playback_id == o.playback_id) ≡ true)
        × (now - anchor.monotonic ≤ policy.max_age_seconds)
        × (anchor.monotonic + policy.min_progress_interval_seconds ≤ o.monotonic)
        × (start < position)
  moved_on-parts position anchor none h = cc
  moved_on-parts position anchor (some start) h =
      let (h1, forward) = &&-true _ _ h in
      let (h2, apart) = &&-true _ _ h1 in
      let (playback, recent) = &&-true _ _ h2 in
      (start, refl, playback, ground arith, ground arith, ground arith)

  confirms-IsProgressed :
      (t : SessionSnapshot) (position : Instant) (found : Option PlaybackObservation)
      → Read t
      → t.progress_anchor ≡ found
      → foreign t o ≡ false
      → unidentified o false ≡ false
      → interrupted o ≡ false
      → o.state ≡ PlayerState.playing
      → o.position ≡ some position
      → confirms o position now policy found ≡ true
      → IsProgressed s o now policy
  confirms-IsProgressed t position none p e own known clear playing at h = cc
  confirms-IsProgressed t position (some anchor) p e own known clear playing at h =
      let (same_session, same_content) = own_media t p own known in
      let (start, started, playback, recent, apart, forward) =
        moved_on-parts position anchor anchor.position h in
      record {
        playing = playing;
        no_ad = no_ad_of clear;
        same_session = same_session;
        same_content = same_content;
        anchor = anchor;
        start = start;
        position = position;
        anchored = same_anchor s t anchor p e;
        same_playback = playback;
        started_at = started;
        reached = at;
        forward = forward;
        recent = recent;
        apart = apart;
      }

  drop_release-Read : (t : SessionSnapshot) → Read t → Read (drop_release t o)
  unfolding drop_release
  drop_release-Read t p = ground arith

  keep_chain-Read : (t : SessionSnapshot) → Read t → t.completion ≡ none → Read (keep_chain t o)
  unfolding keep_chain
  keep_chain-Read t p open_end = ground arith

  progress-Confirms :
      (t : SessionSnapshot) (position : Instant)
      → Read t
      → foreign t o ≡ false
      → unidentified o false ≡ false
      → interrupted o ≡ false
      → o.state ≡ PlayerState.playing
      → o.position ≡ some position
      → Confirms (progress t o position now policy)
  unfolding progress
  progress-Confirms t position p own known clear playing at h =
      confirms-IsProgressed t position t.progress_anchor p refl own known clear playing at h

  Stages-Confirms : Stages now policy o Read Confirms
  unfolding lost control settle unconfirmed hold_place observe_stop observe_exit finish_at
  Stages-Confirms = record {
    dropped = drop_release-Read;
    chained = keep_chain-Read;
    released = λ t p h. ground arith;
    exited = λ t p h. ground arith;
    controlled = λ t p h. ground (arith, p.unconfirmed);
    settled = λ t p ended h. ground arith;
    unclear = λ t reason identity retain p open_end h. ground arith;
    held = λ t p open_end h. ground arith;
    stopped = λ t p open_end h. ground arith;
    progressed = λ t position p open_end own known clear playing at.
        progress-Confirms t position p own known clear playing at;
    finished = λ start t anchor q p open_end own known clear proper ends found h. ground arith;
  }

  count_sample-Read : s.evidence.receiver_playback_confirmed ≡ false → Read (count_sample s o)
  unfolding count_sample
  count_sample-Read fresh = ground arith

  counted-Confirms :
      s.evidence.receiver_playback_confirmed ≡ false
      → Attains Confirms (
          if out_of_scope s o now policy || repeated s o
          then ok s
          else receive (count_sample s o) o now policy)
  counted-Confirms fresh =
      if-intro (Attains Confirms) (out_of_scope s o now policy || repeated s o)
        (λ _ h. ground arith)
        (λ _.
          receive-rule o policy Read Confirms Stages-Confirms (count_sample s o)
            (count_sample-Read fresh))

refresh_unconfirmed :
    (s : SessionSnapshot) (now : Instant) (policy : EvidencePolicy) {t : SessionSnapshot}
    → s.evidence.receiver_playback_confirmed ≡ false
    → refresh s now policy ≡ ok t
    → IsRead s t
unfolding refresh expire
refresh_unconfirmed s now policy fresh h = ground arith

IsProgressed-refresh :
    (s t : SessionSnapshot) (o : PlaybackObservation) (now : Instant) (policy : EvidencePolicy)
    → IsRead s t
    → IsProgressed t o now policy
    → IsProgressed s o now policy
IsProgressed-refresh s t o now policy p c = record {
  playing = c.playing;
  no_ad = c.no_ad;
  same_session =
      subst (λ scope. (o.session_id == some scope.session_id) ≡ true) p.scoped c.same_session;
  same_content =
      subst (λ scope. (o.content == some scope.request.content) ≡ true) p.scoped c.same_content;
  anchor = c.anchor;
  start = c.start;
  position = c.position;
  anchored = same_anchor s t c.anchor p c.anchored;
  same_playback = c.same_playback;
  started_at = c.started_at;
  reached = c.reached;
  forward = c.forward;
  recent = c.recent;
  apart = c.apart;
}

-- A session with no confirmed playback has it after observing a sample only if the sample plays the
-- session's content in the session, with no ad and at a position, and the session had an anchor of
-- progress in the same playback: at a lower position, no older now than the policy allows, and
-- before the sample by the policy's interval at least.
pub observe-IsProgressed :
    (s : SessionSnapshot) (o : PlaybackObservation) (now : Instant) (policy : EvidencePolicy)
    (t : SessionSnapshot)
    → s.evidence.receiver_playback_confirmed ≡ false
    → observe s o now policy ≡ ok t
    → t.evidence.receiver_playback_confirmed ≡ true
    → IsProgressed s o now policy
unfolding observe
observe-IsProgressed s o now policy t fresh h confirmed =
    let (u, refreshed, e) = >>=-eq-ok (refresh s now policy) _ h in
    let read = refresh_unconfirmed s now policy fresh refreshed in
    IsProgressed-refresh s u o now policy read (
      Attains-of_ok (Confirms u now o policy) _ (counted-Confirms u now o policy read.unconfirmed) e
        confirmed)
