-- ===== src/Values/Instants.antt =====
-- tellyq/domain/values.py: clocks. A monotonic instant, a duration and a media position are counts
-- of ticks; a wall-clock timestamp is a count of ticks with the mark of its timezone.
use tellyq.Prelude.{
  ℕ, ◌-◌, Bool, not, Result, Fault, raise_if, ltb, leb, Eq, nat_beq, bool_beq, ◌&&◌,
}

abbrev pub Instant : Type 0
Instant = ℕ

pub record Datetime : Type 0 where
  pub ticks : ℕ
  pub aware : Bool

instance abbrev pub datetime_eq : Eq Datetime
datetime_eq = record { beq = λ a b. nat_beq a.ticks b.ticks && bool_beq a.aware b.aware }

-- `a < b` on timestamps that have a timezone
abbrev pub before : Datetime → Datetime → Bool
before a b = ltb a.ticks b.ticks

abbrev pub require_aware : Datetime → Result (Unit {0})
require_aware at = raise_if (not at.aware) Fault.value_error

-- The age that the source writes as 5 seconds, in ticks of a millisecond.
abbrev pub five_seconds : Instant
five_seconds = 5000

-- `0 <= now - instant <= 5`
abbrev pub is_fresh : Instant → Instant → Bool
is_fresh now instant = leb instant now && leb (now - instant) five_seconds
