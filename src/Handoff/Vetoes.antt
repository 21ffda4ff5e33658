-- ===== src/Handoff/Vetoes.antt =====
-- tellyq/handoff.py: what tracking retains, and that batches may repeat.
use tellyq.Prelude.{
  ◌≤◌, ◌≡◌, refl, ap, ◌∙◌, Bool, true, false, Option, none, some, List, [], ◌∷◌, is_some,
  Bool-cases, if-intro, first, if◌then◌else◌, All, inl, inr, arith, bool_eq,
}
use tellyq.Values.{Instant, PlaybackObservation, SessionSnapshot, CompletionEvidence}
use tellyq.Handoff.{
  HandoffVeto, ReleaseAuthority, already_tracked, tracked, track_event, track_events, new_authority,
  track_from, track_witnessed, track_completed, track_release, is_witnessed, release_decision,
  may_release,
}

-- What no event takes away: the terminal sample, a block, and the first veto.
pub record Retains (before after : ReleaseAuthority) : Type 0 where
  pub same_terminal : after.terminal ≡ before.terminal
  pub never_back : before.last_sequence ≤ after.last_sequence
  pub stays_blocked : before.blocked ≡ true → after.blocked ≡ true
  pub keeps_veto :
      (veto : HandoffVeto) → before.first_veto ≡ some veto → after.first_veto ≡ some veto
  pub explained :
      before.blocked ≡ is_some before.first_veto → after.blocked ≡ is_some after.first_veto

Retains-refl : (a : ReleaseAuthority) → Retains a a
Retains-refl a = record {
  same_terminal = refl;
  never_back = omega arith;
  stays_blocked = λ h. h;
  keeps_veto = λ v h. h;
  explained = λ h. h;
}

Retains-trans : (a b c : ReleaseAuthority) → Retains a b → Retains b c → Retains a c
Retains-trans a b c r s = record {
  same_terminal = s.same_terminal ∙ r.same_terminal;
  never_back = omega (arith, r.never_back, s.never_back);
  stays_blocked = λ h. s.stays_blocked (r.stays_blocked h);
  keeps_veto = λ v h. s.keeps_veto v (r.keeps_veto v h);
  explained = λ h. s.explained (r.explained h);
}

tracked-Retains :
    (snapshot : SessionSnapshot) (event : PlaybackObservation) (a : ReleaseAuthority)
    → already_tracked event a ≡ false
    → Retains a (tracked snapshot event a)
unfolding tracked
tracked-Retains snapshot event a newer = record {
  same_terminal = refl;
  never_back = ground arith;
  stays_blocked = λ h. ground arith;
  keeps_veto = λ v h. ground arith;
  explained = λ h. ground arith;
}

track_event-Retains :
    (snapshot : SessionSnapshot) (event : PlaybackObservation) (a : ReleaseAuthority)
    → Retains a (track_event snapshot event a)
unfolding track_event
track_event-Retains snapshot event a =
    if-intro (Retains a) (already_tracked event a) (λ _. Retains-refl a)
      (λ newer. tracked-Retains snapshot event a newer)

pub track_events-Retains :
    (snapshot : SessionSnapshot) (events : List PlaybackObservation) (a : ReleaseAuthority)
    → Retains a (track_events snapshot events a)
track_events-Retains snapshot [] a = Retains-refl a
track_events-Retains snapshot (event ∷ events) a =
    Retains-trans a (track_event snapshot event a)
      (track_events snapshot events (track_event snapshot event a))
      (track_event-Retains snapshot event a)
      (track_events-Retains snapshot events (track_event snapshot event a))

-- An event that was tracked is not tracked again.
already_tracked-track_event :
    (snapshot : SessionSnapshot) (event : PlaybackObservation) (a : ReleaseAuthority)
    → already_tracked event (track_event snapshot event a) ≡ true
unfolding track_event tracked
already_tracked-track_event snapshot event a = elim (Bool-cases (already_tracked event a)) [
  | inl behind ↦ ground arith
  | inr newer ↦ ground arith
]

already_tracked-Retains :
    (a b : ReleaseAuthority) (event : PlaybackObservation)
    → Retains a b
    → already_tracked event a ≡ true
    → already_tracked event b ≡ true
already_tracked-Retains a b event r h =
    let same = ap (λ o. o.sequence) r.same_terminal in let back = r.never_back in ground arith

already_tracked-track_events :
    (snapshot : SessionSnapshot) (events : List PlaybackObservation) (a : ReleaseAuthority)
    → All (λ e. already_tracked e (track_events snapshot events a) ≡ true) events
already_tracked-track_events snapshot [] a = tt
already_tracked-track_events snapshot (event ∷ events) a = (
  already_tracked-Retains (track_event snapshot event a)
      (track_events snapshot events (track_event snapshot event a)) event
      (track_events-Retains snapshot events (track_event snapshot event a))
      (already_tracked-track_event snapshot event a),
  already_tracked-track_events snapshot events (track_event snapshot event a),
)

track_events-again :
    (snapshot : SessionSnapshot) (events : List PlaybackObservation) (a : ReleaseAuthority)
    → All (λ e. already_tracked e a ≡ true) events
    → track_events snapshot events a ≡ a
unfolding track_event
track_events-again snapshot [] a h = refl
track_events-again snapshot (event ∷ events) a (h, hs) =
    ap (λ b. track_events snapshot events b) (skip (already_tracked event a) h)
    ∙ track_events-again snapshot events a hs
  where
    skip : (test : Bool) → test ≡ true → (if test then a else tracked snapshot event a) ≡ a
    skip test h = ground arith

track_completed-again :
    (witness : Option CompletionEvidence) (snapshot : SessionSnapshot)
    (events : List PlaybackObservation) (a : Option ReleaseAuthority)
    → track_completed witness snapshot events (track_completed witness snapshot events a)
      ≡ track_completed witness snapshot events a
track_completed-again none snapshot events a = refl
track_completed-again (some w) snapshot events (some a) = ap some (
    track_events-again snapshot events (track_events snapshot events a)
      (already_tracked-track_events snapshot events a))
track_completed-again (some w) snapshot events none = found (first (is_witnessed w) events) refl
  where
    found :
        (terminal : Option PlaybackObservation)
        → first (is_witnessed w) events ≡ terminal
        → track_witnessed w snapshot events (track_from terminal snapshot events)
          ≡ track_from terminal snapshot events
    found none e = cc (e)
    found (some terminal) e =
        let a = new_authority terminal in
        ap some (
          track_events-again snapshot events (track_events snapshot events a)
            (already_tracked-track_events snapshot events a))

-- A batch of events that is passed again, as through two layers of the application, changes
-- nothing, be there an authority before it or not.
pub track_release-again :
    (snapshot : SessionSnapshot) (events : List PlaybackObservation)
    (authority : Option ReleaseAuthority)
    → track_release snapshot events (track_release snapshot events authority)
      ≡ track_release snapshot events authority
unfolding track_release
track_release-again snapshot events authority =
    track_completed-again snapshot.completion snapshot events authority

-- Batches of events, each with the session as it then is.
abbrev pub track_batches :
    List (SessionSnapshot × List PlaybackObservation)
    → Option ReleaseAuthority
    → Option ReleaseAuthority
track_batches [] authority = authority
track_batches ((snapshot, events) ∷ batches) authority =
    track_batches batches (track_release snapshot events authority)

abbrev pub AllCompleted : List (SessionSnapshot × List PlaybackObservation) → Type 0
AllCompleted batches = All (λ b. is_some b.0.completion ≡ true) batches

track_completed-Retains :
    (witness : Option CompletionEvidence) (snapshot : SessionSnapshot)
    (events : List PlaybackObservation) (a : ReleaseAuthority)
    → is_some witness ≡ true
    → (b : ReleaseAuthority) × (track_completed witness snapshot events (some a) ≡ some b)
      × Retains a b
track_completed-Retains none snapshot events a h = cc (h)
track_completed-Retains (some w) snapshot events a h =
    (track_events snapshot events a, refl, track_events-Retains snapshot events a)

track_batches-Retains :
    (batches : List (SessionSnapshot × List PlaybackObservation)) (a : ReleaseAuthority)
    → AllCompleted batches
    → (b : ReleaseAuthority) × (track_batches batches (some a) ≡ some b) × Retains a b
unfolding track_release
track_batches-Retains [] a h = (a, refl, Retains-refl a)
track_batches-Retains ((snapshot, events) ∷ batches) a (h, hs) =
    let next = track_completed-Retains snapshot.completion snapshot events a h in
    let rest = track_batches-Retains batches next.0 hs in
    (
      rest.0,
      ap (track_batches batches) next.1 ∙ rest.1,
      Retains-trans a next.0 rest.0 next.2 rest.2,
    )

-- After a veto nothing is released: whatever completed sessions and events follow, the first veto is
-- the one that is explained, and `may_release` is false.
pub track_batches-vetoed :
    (batches : List (SessionSnapshot × List PlaybackObservation)) (a : ReleaseAuthority)
    (veto : HandoffVeto)
    → a.first_veto ≡ some veto
    → a.blocked ≡ true
    → AllCompleted batches
    → (snapshot : SessionSnapshot) (events : List PlaybackObservation) (now : Instant)
    → (may_release snapshot (track_batches batches (some a)) events now ≡ false)
      × ((release_decision snapshot (track_batches batches (some a)) events now).first_veto
          ≡ some veto)
unfolding may_release release_decision
track_batches-vetoed batches a veto vetoed blocked completed snapshot events now =
    let kept = track_batches-Retains batches a completed in
    let held = kept.2.stays_blocked blocked in
    let same = kept.2.keeps_veto veto vetoed in
    let found = kept.1 in refused (track_batches batches (some a)) kept.0 found held same
  where
    refused :
        (o : Option ReleaseAuthority) (b : ReleaseAuthority)
        → o ≡ some b
        → b.blocked ≡ true
        → b.first_veto ≡ some veto
        → (may_release snapshot o events now ≡ false)
          × ((release_decision snapshot o events now).first_veto ≡ some veto)
    refused none b e h v = cc (e)
    refused (some c) b e h v = (ground arith, ground arith)
