-- ===== src/Policy/Completion.antt =====
-- tellyq/domain/policy.py: what a sample must show before the session records a natural end.
use tellyq.Prelude.{
  ◌≡◌, ◌∙◌, Bool, true, false, Option, none, some, ok, ◌==◌, ◌||◌, string_eq, option_eq, is_some,
  if-intro, if◌then◌else◌, >>=-eq-ok, arith, refl, subst, not, leb, ltb, &&-true, Attains,
  Attains-of_ok, ◌⊎◌, inl, inr, ◌<◌, ◌≤◌, ◌-◌,
}
use tellyq.Values.{
  Instant, PlaybackObservation, PlayerState, IdleReason, ContentRef, content_ref_eq, ContentPhase,
  ProviderEvidence, IdentityUpdate, identity_update_eq, CompletionEvidence, SessionSnapshot,
  EvidencePolicy,
}
use tellyq.Policy.Intents.{refresh, expire, lost, unconfirmed}
use tellyq.Policy.Attribution.{
  finish_at, follows_anchor, exact_anchor, incremental_identity, history_matches, same_provider,
  qualified,
}
use tellyq.Policy.Media.{
  progress, hold_place, observe_stop, is_terminal, keep_chain, unidentified, interrupted,
  unqualified,
}
use tellyq.Policy.Observe.{
  out_of_scope, repeated, count_sample, drop_release, observe_exit, foreign, control, settle,
  receive, observe,
}
use tellyq.Policy.Rule.{Stages, receive-rule}

-- The sample `o` has no content of its own, and its anchor in `s` attributes it: the anchor shows
-- the session's content, playback and source, earlier and no longer ago than the policy allows.
pub record IsAttributed (s : SessionSnapshot) (o : PlaybackObservation) (policy : EvidencePolicy)
    (anchor : PlaybackObservation) : Type 0 where
  pub anchored : s.completion_anchor ≡ some anchor
  pub omitted : o.identity_update ≡ IdentityUpdate.omitted
  pub content : (anchor.content == some s.scope.request.content) ≡ true
  pub explicit : anchor.identity_update ≡ IdentityUpdate.explicit
  pub playback : (anchor.playback_id == o.playback_id) ≡ true
  pub source : same_provider anchor.provider_evidence o.provider_evidence ≡ true
  pub earlier : anchor.monotonic < o.monotonic
  pub recent : o.monotonic - anchor.monotonic ≤ policy.max_age_seconds
  pub older : anchor.sequence < o.sequence

abbrev pub Finished : Option ProviderEvidence → Type 0
Finished none = Unit
Finished (some evidence) = evidence.phase ≡ ContentPhase.finished

-- The end that `c` records was seen in the sample `o`, by a session `s` that had confirmed playback.
pub record IsEnd (s : SessionSnapshot) (o : PlaybackObservation) (policy : EvidencePolicy)
    (c : CompletionEvidence) : Type 0 where
  pub sequence : c.sequence ≡ o.sequence
  pub monotonic : c.monotonic ≡ o.monotonic
  pub idle : o.state ≡ PlayerState.idle
  pub finished : o.idle_reason ≡ some IdleReason.finished
  pub content_shown : o.ad_active ≡ some false
  pub same_session : (o.session_id == some s.scope.session_id) ≡ true
  pub same_content :
      ((o.content == some s.scope.request.content) ≡ true)
      ⊎ ((o.content ≡ none) × (anchor : PlaybackObservation) × IsAttributed s o policy anchor)
  pub same_phase : Finished o.provider_evidence
  pub identified :
      is_some o.provider_evidence ≡ true → ¬ (o.identity_update ≡ IdentityUpdate.unknown)
  pub played : s.has_confirmed_playback ≡ true
  pub anchored : is_some s.completion_anchor ≡ true
  pub not_stopped : s.stop_requested ≡ false

abbrev pub Ended :
    SessionSnapshot → PlaybackObservation → EvidencePolicy → Option CompletionEvidence → Type 0
Ended s o policy none = Unit
Ended s o policy (some c) = IsEnd s o policy c

-- The session while a sample is read: open, and with no more confirmed than at the start.
record IsOpen (s t : SessionSnapshot) : Type 0 where
  open_end : t.completion ≡ none
  scoped : t.scope ≡ s.scope
  played : t.has_confirmed_playback ≡ true → s.has_confirmed_playback ≡ true
  anchored : (t.completion_anchor ≡ none) ⊎ (t.completion_anchor ≡ s.completion_anchor)
  stop_kept : t.stop_requested ≡ s.stop_requested

lt_of_ltb : (m n : Instant) → ltb m n ≡ true → m < n
lt_of_ltb m n h = ground arith

le_of_leb : (m n : Instant) → leb m n ≡ true → m ≤ n
le_of_leb m n h = ground arith

explicit_of :
    (u : IdentityUpdate) → (u == IdentityUpdate.explicit) ≡ true → u ≡ IdentityUpdate.explicit
explicit_of u h = ground arith

omitted_of :
    (u : IdentityUpdate) → (u == IdentityUpdate.omitted) ≡ true → u ≡ IdentityUpdate.omitted
omitted_of u h = ground arith

none_of_not_some {ℓ} : {A : Type ℓ} (x : Option A) → not (is_some x) ≡ true → x ≡ none
none_of_not_some none h = refl
none_of_not_some (some a) h = cc

same_anchor :
    (s t : SessionSnapshot) (anchor : PlaybackObservation)
    → (t.completion_anchor ≡ none) ⊎ (t.completion_anchor ≡ s.completion_anchor)
    → t.completion_anchor ≡ some anchor
    → s.completion_anchor ≡ some anchor
same_anchor s t anchor (inl dropped) e = cc
same_anchor s t anchor (inr kept) e = cc

module _ (s : SessionSnapshot) (now : Instant) (o : PlaybackObservation)
    (policy : EvidencePolicy) where
  abbrev Open : SessionSnapshot → Type 0
  Open t = IsOpen s t

  abbrev Closes : SessionSnapshot → Type 0
  Closes t = Ended s o policy t.completion

  abbrev Attributed : Type 0
  Attributed = (o.content ≡ none) × (anchor : PlaybackObservation) × IsAttributed s o policy anchor

  follows_anchor-parts :
      (t : SessionSnapshot) (anchor : PlaybackObservation)
      → follows_anchor t o policy (some anchor) ≡ true
      → ((anchor.playback_id == o.playback_id) ≡ true)
        × (anchor.monotonic < o.monotonic)
        × (o.monotonic - anchor.monotonic ≤ policy.max_age_seconds)
        × (anchor.sequence < o.sequence)
  follows_anchor-parts t anchor h =
      let (h1, newer) = &&-true _ _ h in
      let (h2, recent) = &&-true _ _ h1 in
      let (h3, later) = &&-true _ _ h2 in
      let (h4, _) = &&-true _ _ h3 in
      let (h5, _) = &&-true _ _ h4 in
      let (h6, _) = &&-true _ _ h5 in
      let (h7, _) = &&-true _ _ h6 in
      let (_, playback) = &&-true _ _ h7 in
      (playback, lt_of_ltb _ _ later, le_of_leb _ _ recent, lt_of_ltb _ _ newer)

  exact_anchor-parts :
      (t : SessionSnapshot) (anchor : PlaybackObservation)
      → t.scope ≡ s.scope
      → exact_anchor t o (some anchor) ≡ true
      → ((anchor.content == some s.scope.request.content) ≡ true)
        × (anchor.identity_update ≡ IdentityUpdate.explicit)
        × (same_provider anchor.provider_evidence o.provider_evidence ≡ true)
  exact_anchor-parts t anchor same h =
      let (h1, source) = &&-true _ _ h in
      let (content, explicit) = &&-true _ _ h1 in
      (
        subst (λ scope. (anchor.content == some scope.request.content) ≡ true) same content,
        explicit_of anchor.identity_update explicit,
        source,
      )

  Attributed-anchor :
      (t : SessionSnapshot) (found : Option PlaybackObservation)
      → Open t
      → t.completion_anchor ≡ found
      → o.content ≡ none
      → o.identity_update ≡ IdentityUpdate.omitted
      → follows_anchor t o policy found ≡ true
      → exact_anchor t o found ≡ true
      → Attributed
  Attributed-anchor t none p e absent omitted follows exact = cc
  Attributed-anchor t (some anchor) p e absent omitted follows exact =
      let (playback, earlier, recent, older) = follows_anchor-parts t anchor follows in
      let (content, explicit, source) = exact_anchor-parts t anchor p.scoped exact in
      (
        absent,
        anchor,
        record {
          anchored = same_anchor s t anchor p.anchored e;
          omitted = omitted;
          content = content;
          explicit = explicit;
          playback = playback;
          source = source;
          earlier = earlier;
          recent = recent;
          older = older;
        },
      )

  Attributed-incremental :
      (t : SessionSnapshot) → Open t → incremental_identity t o policy ≡ true → Attributed
  unfolding incremental_identity history_matches
  Attributed-incremental t p h =
      let (h1, exact) = &&-true _ _ h in
      let (h2, follows) = &&-true _ _ h1 in
      let (h3, _) = &&-true _ _ h2 in
      let (absent, omitted) = &&-true _ _ h3 in
      Attributed-anchor t t.completion_anchor p refl (none_of_not_some o.content absent)
        (omitted_of o.identity_update omitted) follows exact

  content_named :
      (t : SessionSnapshot) (content : Option ContentRef) (history : Bool)
      → Open t
      → o.content ≡ content
      → foreign t o ≡ false
      → unidentified o history ≡ false
      → (history ≡ true → Attributed)
      → ((o.content == some s.scope.request.content) ≡ true) ⊎ Attributed
  unfolding unidentified foreign
  content_named t none history p e own known by = inr (by (ground arith))
  content_named t (some content) history p e own known by = inl (ground arith)

  finish_at-Closes :
      (start t : SessionSnapshot) (anchor : PlaybackObservation)
      → Open start
      → Open t
      → foreign t o ≡ false
      → unidentified o (incremental_identity start o policy) ≡ false
      → interrupted o ≡ false
      → unqualified o ≡ false
      → is_terminal t o ≡ true
      → Closes (finish_at t o anchor (incremental_identity start o policy))
  unfolding finish_at foreign unidentified interrupted unqualified qualified is_terminal
  finish_at-Closes start t anchor q p own known clear proper ends = record {
    sequence = refl;
    monotonic = refl;
    idle = ground arith;
    finished = ground arith;
    content_shown = ground arith;
    same_session = ground arith;
    same_content =
        content_named t o.content (incremental_identity start o policy) p refl own known
          (Attributed-incremental start q);
    same_phase = ground arith;
    identified = ground arith;
    played = ground arith;
    anchored = ground arith;
    not_stopped = ground arith;
  }

  drop_release-Open : (t : SessionSnapshot) → Open t → Open (drop_release t o)
  unfolding drop_release
  drop_release-Open t p = ground arith

  keep_chain-Open : (t : SessionSnapshot) → Open t → t.completion ≡ none → Open (keep_chain t o)
  unfolding keep_chain
  keep_chain-Open t p open_end = ground arith

  observe_exit-Closes : (t : SessionSnapshot) → Open t → Closes (observe_exit t o)
  unfolding observe_exit lost
  observe_exit-Closes t p = ground arith

  Stages-Closes : Stages now policy o Open Closes
  unfolding lost control settle unconfirmed hold_place observe_stop progress
  Stages-Closes = record {
    dropped = drop_release-Open;
    chained = keep_chain-Open;
    released = λ t p. ground arith;
    exited = observe_exit-Closes;
    controlled = λ t p. ground arith;
    settled = λ t p ended. ground arith;
    unclear = λ t reason identity retain p open_end. ground arith;
    held = λ t p open_end. ground arith;
    stopped = λ t p open_end. ground arith;
    progressed = λ t position p open_end _ _ _ _ _. ground arith;
    finished = λ start t anchor q p _ own known clear proper ends _.
        finish_at-Closes start t anchor q p own known clear proper ends;
  }

  count_sample-Open : s.completion ≡ none → Open (count_sample s o)
  unfolding count_sample
  count_sample-Open open_end = ground arith

  counted-Closes :
      s.completion ≡ none
      → Attains Closes (
          if out_of_scope s o now policy || repeated s o
          then ok s
          else receive (count_sample s o) o now policy)
  counted-Closes open_end =
      if-intro (Attains Closes) (out_of_scope s o now policy || repeated s o) (λ _. ground arith)
        (λ _.
          receive-rule o policy Open Closes Stages-Closes (count_sample s o)
            (count_sample-Open open_end))

-- `refresh` either changes nothing or withdraws the confirmed playback.
refresh_played :
    (s : SessionSnapshot) (now : Instant) (policy : EvidencePolicy) {t : SessionSnapshot}
    → refresh s now policy ≡ ok t
    → (t.completion ≡ s.completion)
      × (t.stop_requested ≡ s.stop_requested)
      × (t.scope ≡ s.scope)
      × (t.has_confirmed_playback ≡ true → s.has_confirmed_playback ≡ true)
      × ((t.completion_anchor ≡ none) ⊎ (t.completion_anchor ≡ s.completion_anchor))
unfolding refresh expire
refresh_played s now policy h = ground arith

Ended-refresh :
    (s t : SessionSnapshot) (o : PlaybackObservation) (policy : EvidencePolicy)
    (c : Option CompletionEvidence)
    → t.stop_requested ≡ s.stop_requested
    → t.scope ≡ s.scope
    → (t.has_confirmed_playback ≡ true → s.has_confirmed_playback ≡ true)
    → ((t.completion_anchor ≡ none) ⊎ (t.completion_anchor ≡ s.completion_anchor))
    → Ended t o policy c
    → Ended s o policy c
Ended-refresh s t o policy none stop scope played anchored e = tt
Ended-refresh s t o policy (some c) stop scope played anchored e = ground arith

-- If observing the sample `o` leaves a completion in a session that had none, then the completion
-- has the sample's sequence and time; the sample is idle for the reason finished, shows no ad and
-- names the session. It names the session's content, or it has none, omits its identity, and
-- follows an earlier anchor, no older than the policy allows, with that content in the same
-- playback from the same provider. If it has provider evidence, that says finished, and its
-- identity update is not unknown. The session had confirmed playback, had an anchor for the end,
-- and had no stop requested.
pub observe-Ended :
    (s : SessionSnapshot) (o : PlaybackObservation) (now : Instant) (policy : EvidencePolicy)
    (t : SessionSnapshot)
    → s.completion ≡ none
    → observe s o now policy ≡ ok t
    → Ended s o policy t.completion
unfolding observe
observe-Ended s o now policy t open_end h =
    let (u, refreshed, e) = >>=-eq-ok (refresh s now policy) _ h in
    let (same, stop, scope, played, anchored) = refresh_played s now policy refreshed in
    Ended-refresh s u o policy t.completion stop scope played anchored (
      Attains-of_ok (λ r. Ended u o policy r.completion) _
        (counted-Closes u now o policy (same ∙ open_end)) e)
