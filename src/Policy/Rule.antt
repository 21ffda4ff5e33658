-- ===== src/Policy/Rule.antt =====
-- tellyq/domain/policy.py: one rule for what a fresh sample makes of a session. A property of the
-- session before the sample is taken through the stages of `observe` to one of the session after, and no stage raises.
use tellyq.Prelude.{
  ◌≡◌, refl, Bool, true, false, Option, none, some, ◌!=◌, ◌==◌, ◌&&◌, option_eq, is_some, is_false,
  if-intro, none_of_is_some, subst, arith, Attains, Fault, ok, require, ◌>>=◌,
}
use tellyq.Values.{
  Instant, PlaybackObservation, PlayerState, player_state_eq, IdleReason, idle_reason_eq,
  EvidenceReason, SessionSnapshot, EvidencePolicy,
}
use tellyq.Policy.Intents.{lost, unconfirmed}
use tellyq.Policy.Attribution.{finish, finish_at, incremental_identity}
use tellyq.Policy.Media.{
  progress, at_position, retained, hold_place, present, observe_stop, is_terminal, end_or_go,
  conclude, keep_chain, unidentified, interrupted, unqualified, observe_media,
}
use tellyq.Policy.Observe.{
  drop_release, observe_exit, foreign, controls, control, settle, observe_owned, receive,
}

-- `P` holds of the session that takes the sample in, and `Q` of the one that results.
pub record Stages (now : Instant) (policy : EvidencePolicy) (o : PlaybackObservation)
    (P Q : SessionSnapshot → Type 0) : Type 0 where
  pub dropped : (s : SessionSnapshot) → P s → P (drop_release s o)
  pub chained : (s : SessionSnapshot) → P s → s.completion ≡ none → P (keep_chain s o)
  pub released : (s : SessionSnapshot) → P s → Q (lost s o)
  pub exited : (s : SessionSnapshot) → P s → Q (observe_exit s o)
  pub controlled : (s : SessionSnapshot) → P s → Q (control s)
  pub settled : (s : SessionSnapshot) → P s → is_some s.completion ≡ true → Q (settle s o)
  pub unclear :
      (s : SessionSnapshot) (reason : EvidenceReason) (identity retain : Bool)
      → P s
      → s.completion ≡ none
      → Q (unconfirmed s o reason identity retain)
  pub held :
      (s : SessionSnapshot)
      → P s
      → s.completion ≡ none
      → Q (unconfirmed (hold_place s o) o EvidenceReason.not_playing true (retained o.state))
  pub stopped : (s : SessionSnapshot) → P s → s.completion ≡ none → Q (observe_stop s o)
  pub progressed :
      (s : SessionSnapshot) (position : Instant)
      → P s
      → s.completion ≡ none
      → foreign s o ≡ false
      → unidentified o false ≡ false
      → interrupted o ≡ false
      → o.state ≡ PlayerState.playing
      → o.position ≡ some position
      → Q (progress s o position now policy)
  pub finished :
      (start s : SessionSnapshot) (anchor : PlaybackObservation)
      → P start
      → P s
      → s.completion ≡ none
      → foreign s o ≡ false
      → unidentified o (incremental_identity start o policy) ≡ false
      → interrupted o ≡ false
      → unqualified o ≡ false
      → is_terminal s o ≡ true
      → s.completion_anchor ≡ some anchor
      → Q (finish_at s o anchor (incremental_identity start o policy))

completion-keep_chain :
    (s : SessionSnapshot) (o : PlaybackObservation)
    → s.completion ≡ none
    → (keep_chain s o).completion ≡ none
unfolding keep_chain
completion-keep_chain s o h = ground arith

foreign-keep_chain :
    (s : SessionSnapshot) (o : PlaybackObservation)
    → foreign s o ≡ false
    → foreign (keep_chain s o) o ≡ false
unfolding keep_chain foreign
foreign-keep_chain s o h = ground arith

playing_of :
    (state : PlayerState) → (state != PlayerState.playing) ≡ false → state ≡ PlayerState.playing
playing_of state h = ground arith

module _ {now : Instant} (o : PlaybackObservation) (policy : EvidencePolicy)
    (P Q : SessionSnapshot → Type 0) (r : Stages now policy o P Q) where
  at_position-rule :
      (s : SessionSnapshot) (found : Option Instant)
      → o.position ≡ found
      → P s
      → s.completion ≡ none
      → foreign s o ≡ false
      → unidentified o false ≡ false
      → interrupted o ≡ false
      → o.state ≡ PlayerState.playing
      → Q (at_position s o now policy found)
  unfolding at_position
  at_position-rule s none e p open_end own known clear playing =
      r.unclear s EvidenceReason.position_unknown true false p open_end
  at_position-rule s (some position) e p open_end own known clear playing =
      r.progressed s position p open_end own known clear playing e

  present-rule :
      (s : SessionSnapshot)
      → P s
      → s.completion ≡ none
      → foreign s o ≡ false
      → unidentified o false ≡ false
      → interrupted o ≡ false
      → Q (present s o now policy)
  unfolding present
  present-rule s p open_end own known clear =
      if-intro Q (o.state != PlayerState.playing) (λ _. r.held s p open_end)
        (λ playing.
          at_position-rule s o.position refl p open_end own known clear
            (playing_of o.state playing))

  finish-rule :
      (s : SessionSnapshot) (history : Bool) (found : Option PlaybackObservation)
      → s.completion_anchor ≡ found
      → is_terminal s o ≡ true
      → ((anchor : PlaybackObservation)
          → s.completion_anchor ≡ some anchor
          → Q (finish_at s o anchor history))
      → Attains Q
          (require found Fault.assertion_error >>= (λ anchor. ok (finish_at s o anchor history)))
  unfolding is_terminal
  finish-rule s history none e ends k = ground arith
  finish-rule s history (some anchor) e ends k = k anchor e

  end_or_go-rule :
      (start s : SessionSnapshot)
      → P start
      → P s
      → s.completion ≡ none
      → foreign s o ≡ false
      → unidentified o (incremental_identity start o policy) ≡ false
      → interrupted o ≡ false
      → unqualified o ≡ false
      → Attains Q (end_or_go s o (incremental_identity start o policy) now policy)
  unfolding end_or_go finish
  end_or_go-rule start s before p open_end own known clear proper =
      let history = incremental_identity start o policy in
      if-intro (Attains Q) (is_terminal s o)
        (λ ends.
          finish-rule s history s.completion_anchor refl ends
            (λ anchor. r.finished start s anchor before p open_end own known clear proper ends))
        (λ _.
          if-intro (Attains Q) history
            (λ _. r.unclear s EvidenceReason.identity_unknown false true p open_end)
            (λ fresh.
              present-rule s p open_end own (subst (λ h. unidentified o h ≡ false) fresh known)
                clear))

  conclude-rule :
      (start s : SessionSnapshot)
      → P start
      → P s
      → s.completion ≡ none
      → foreign s o ≡ false
      → unidentified o (incremental_identity start o policy) ≡ false
      → interrupted o ≡ false
      → unqualified o ≡ false
      → Attains Q (conclude s o (incremental_identity start o policy) now policy)
  unfolding conclude
  conclude-rule start s before p open_end own known clear proper =
      if-intro (Attains Q)
        (o.state == PlayerState.idle
          && s.stop_requested
          && o.idle_reason == some IdleReason.canceled)
        (λ _. r.stopped s p open_end)
        (λ _. end_or_go-rule start s before p open_end own known clear proper)

  observe_media-rule :
      (s : SessionSnapshot)
      → P s
      → s.completion ≡ none
      → foreign s o ≡ false
      → Attains Q (observe_media s o now policy)
  unfolding observe_media
  observe_media-rule s p open_end own =
      if-intro (Attains Q) (unidentified o (incremental_identity s o policy))
        (λ _. r.unclear s EvidenceReason.identity_unknown false false p open_end)
        (λ known.
          if-intro (Attains Q) (interrupted o)
            (λ _. r.unclear s _ (is_some o.content) false p open_end)
            (λ clear.
              if-intro (Attains Q) (unqualified o)
                (λ _. r.unclear s EvidenceReason.identity_unknown false false p open_end)
                (λ proper.
                  conclude-rule s (keep_chain s o) p (r.chained s p open_end)
                    (completion-keep_chain s o open_end) (foreign-keep_chain s o own) known clear
                    proper)))

  observe_owned-rule : (s : SessionSnapshot) → P s → Attains Q (observe_owned s o now policy)
  unfolding observe_owned
  observe_owned-rule s p =
      if-intro (Attains Q) (foreign s o) (λ _. r.released s p)
        (λ own.
          if-intro (Attains Q) (controls s o) (λ _. r.controlled s p)
            (λ _.
              if-intro (Attains Q) (is_some s.completion) (λ ended. r.settled s p ended)
                (λ open_end. observe_media-rule s p (none_of_is_some s.completion open_end) own)))

  pub receive-rule : (s : SessionSnapshot) → P s → Attains Q (receive s o now policy)
  unfolding receive
  receive-rule s p =
      if-intro (Attains Q) o.connection_reset (λ _. r.released s p)
        (λ _.
          if-intro (Attains Q) (is_false o.session_active) (λ _. r.exited _ (r.dropped s p))
            (λ _. observe_owned-rule _ (r.dropped s p)))
