-- ===== src/QueueStore/Advances.antt =====
-- tellyq/queue_store.py: what every change of a queue's rows keeps.
use tellyq.Prelude.{
  ℕ, ◌≤◌, ◌≡◌, ap, ◌∙◌, String, Bool, true, false, Option, none, some, List, [], ◌∷◌, ◌++◌, ◌==◌,
  ◌!=◌, nat_eq, string_eq, first, update_where, Bool-cases, inl, inr, arith,
}
use tellyq.Queue.{
  ExecutionState, execution_state_eq, NativeOperation, JournalCommand, QueueSnapshot,
}
use tellyq.QueueStore.{Change}

-- Journals of either kind: entries with an identity and a state of execution.
module _ {A : Type 0} (key : A → String) (state : A → ExecutionState) where
  abbrev pub is_handed : Option A → Bool
  is_handed none = false
  is_handed (some a) = state a != ExecutionState.pending

  -- The journal has the entry, and it was handed out.
  abbrev pub handed : String → List A → Bool
  handed id entries = is_handed (first (λ a. key a == id) entries)

  abbrev pub KeepsHanded : List A → List A → Type 0
  KeepsHanded entries after = (id : String) → handed id entries ≡ true → handed id after ≡ true

  pub KeepsHanded-append : (entries more : List A) → KeepsHanded entries (entries ++ more)
  KeepsHanded-append [] more id h = cc
  KeepsHanded-append (a ∷ entries) more id h = elim (Bool-cases (key a == id)) [
    | inl named ↦ ground arith
    | inr other ↦ let rest = KeepsHanded-append entries more id (ground arith) in ground arith
  ]

  pub KeepsHanded-update_where :
      (p : A → Bool) (f : A → A)
      → ((a : A) → key (f a) ≡ key a)
      → ((a : A) → (state (f a) != ExecutionState.pending) ≡ true)
      → (entries : List A) → KeepsHanded entries (update_where p f entries)
  KeepsHanded-update_where p f same claims [] id h = h
  KeepsHanded-update_where p f same claims (a ∷ entries) id h =
      let name = same a in
      let claim = claims a in
      let rest = KeepsHanded-update_where p f same claims entries id in
      elim (Bool-cases (key a == id)) [
        | inl named ↦
            let renamed = ap (λ n. n == id) name ∙ named in
            elim (Bool-cases (p a)) [ inl passes ↦ ground arith | inr fails ↦ ground arith ]
        | inr other ↦
            let tail = rest (ground arith) in
            let renamed = ap (λ n. n == id) name ∙ other in
            elim (Bool-cases (p a)) [ inl passes ↦ ground arith | inr fails ↦ ground arith ]
      ]

abbrev pub KeepsCommands : List JournalCommand → List JournalCommand → Type 0
KeepsCommands = KeepsHanded (λ c. c.command_id) (λ c. c.state)

abbrev pub KeepsOperations : List NativeOperation → List NativeOperation → Type 0
KeepsOperations = KeepsHanded (λ o. o.operation_id) (λ o. o.state)

abbrev pub claimed : String → QueueSnapshot → Bool
claimed command_id q = handed (λ c. c.command_id) (λ c. c.state) command_id q.commands

abbrev pub claimed_native : String → QueueSnapshot → Bool
claimed_native operation_id q =
    handed (λ o. o.operation_id) (λ o. o.state) operation_id q.native_operations

pub record Advances (expected : ℕ) (q rows : QueueSnapshot) : Type 0 where
  pub fenced : q.revision ≡ expected
  pub same_id : rows.queue_id ≡ q.queue_id
  pub same_revision : rows.revision ≡ q.revision
  pub generation_grows : q.generation ≤ rows.generation
  pub stays_canceled : q.cancellation_requested ≡ true → rows.cancellation_requested ≡ true
  pub stays_claimed : KeepsCommands q.commands rows.commands
  pub stays_claimed_native : KeepsOperations q.native_operations rows.native_operations

abbrev pub Moves : ℕ → QueueSnapshot → Change → Type 0
Moves expected q Change.unchanged = Unit
Moves expected q (Change.rewritten rows) = Advances expected q rows

pub revision_of :
    (q : QueueSnapshot) (expected : ℕ) → (q.revision != expected) ≡ false → q.revision ≡ expected
revision_of q expected h = ground arith

-- Rows with both journals as they were.
pub same_journals :
    (q rows : QueueSnapshot) (expected : ℕ)
    → (q.revision != expected) ≡ false
    → rows.queue_id ≡ q.queue_id
    → rows.revision ≡ q.revision
    → rows.generation ≡ q.generation
    → (q.cancellation_requested ≡ true → rows.cancellation_requested ≡ true)
    → rows.commands ≡ q.commands
    → rows.native_operations ≡ q.native_operations
    → Advances expected q rows
same_journals q rows expected e i r g c k n = record {
  fenced = revision_of q expected e;
  same_id = i;
  same_revision = r;
  generation_grows = omega arith;
  stays_canceled = c;
  stays_claimed = λ id h. cc (k, h);
  stays_claimed_native = λ id h. cc (n, h);
}
