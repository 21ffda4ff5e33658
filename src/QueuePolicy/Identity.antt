-- ===== src/QueuePolicy/Identity.antt =====
-- tellyq/domain/queue_policy.py: the identity of a decision, a digest of length-prefixed parts. The
-- digest and the printers of the standard library are parameters.
use Prim.Native.Nat.{◌/◌, ◌%◌}
use Prim.Native.String.{◌++◌ as concat}
use tellyq.Prelude.{
  ℕ, zero, suc, ◌+◌, String, Option, none, some, Result, Fault, ok, err, codes, List, [], ◌∷◌, ◌++◌,
  length, ltb, if◌then◌else◌,
}
use tellyq.Values.{Instant, Datetime, CompletionAttribution, CompletionEvidence, SessionSnapshot}
use tellyq.Queue.{QueueSnapshot}
use tellyq.QueuePolicy.Decisions.{SkipIntent}

-- `datetime.isoformat`, `repr` of a float and `sha256(…).hexdigest()`
pub record Digests : Type 0 where
  pub isoformat : Datetime → String
  pub show_float : Instant → String
  pub sha256_hex : List ℕ → String

unfoldable pub decimal_on : ℕ → ℕ → List ℕ
decimal_on zero n = (b'0' + n % 10) ∷ []
decimal_on (suc fuel) n =
    let rest = decimal_on fuel (n / 10) in
    if ltb n 10 then (b'0' + n % 10) ∷ [] else rest ++ (b'0' + n % 10) ∷ []

-- `str(n)`: a number has at most as many further digits as it has units.
unfoldable pub decimal : ℕ → List ℕ
decimal n = decimal_on n n

-- `"".join(f"{len(part)}:{part}" for part in parts)`
unfoldable pub material : List (List ℕ) → List ℕ
material [] = []
material (part ∷ parts) = decimal (length part) ++ (b':' ∷ (part ++ material parts))

abbrev pub attribution_value : CompletionAttribution → String
attribution_value CompletionAttribution.explicit = "explicit"
attribution_value CompletionAttribution.ordered_history = "ordered_history"

abbrev pub finish_parts : Digests → SessionSnapshot → CompletionEvidence → List (List ℕ)
finish_parts digests session c =
    codes "finish"
    ∷ codes session.scope.connection_generation
    ∷ codes session.scope.session_id
    ∷ codes c.source
    ∷ codes (digests.isoformat c.observed_at)
    ∷ codes (digests.show_float c.monotonic)
    ∷ decimal c.sequence
    ∷ decimal c.identity_sequence
    ∷ codes (attribution_value c.attribution)
    ∷ []

abbrev pub common_parts : QueueSnapshot → SessionSnapshot → List (List ℕ) → List (List ℕ)
common_parts queue session rest =
    codes queue.queue_id
    ∷ codes session.scope.request.attempt_id
    ∷ codes session.scope.request.queue_item_id
    ∷ rest

abbrev pub parts_for :
    Digests
    → QueueSnapshot
    → SessionSnapshot
    → Option SkipIntent
    → Option CompletionEvidence
    → Result (List (List ℕ))
parts_for digests queue session (some skip) completion =
    ok (common_parts queue session (codes "skip" ∷ codes skip.intent_id ∷ []))
parts_for digests queue session none (some c) =
    ok (common_parts queue session (finish_parts digests session c))
parts_for digests queue session none none = err Fault.assertion_error

unfoldable pub decision_parts :
    Digests → QueueSnapshot → SessionSnapshot → Option SkipIntent → Result (List (List ℕ))
decision_parts digests queue session skip = parts_for digests queue session skip session.completion

abbrev pub digest_of : Digests → Result (List (List ℕ)) → Result String
digest_of digests (ok parts) =
    ok (concat "queue-decision-v1-" (digests.sha256_hex (material parts)))
digest_of digests (err fault) = err fault

unfoldable pub decision_id :
    Digests → QueueSnapshot → SessionSnapshot → Option SkipIntent → Result String
decision_id digests queue session skip =
    digest_of digests (decision_parts digests queue session skip)
