-- ===== src/QueueExecution/Actions.antt =====
-- A call that reads and changes the world around it. The world comes back after a raise too: other
-- owners of the store may have changed it.
use tellyq.Prelude.{Bool, Result, Fault, ok, err, raise_if}

module _ (W : Type 0) where
  abbrev pub Action : Type 0 → Type 0
  Action A = W → Result A × W

module _ {W A : Type 0} where
  abbrev pub lift : Result A → Action W A
  lift r w = (r, w)

  abbrev pub return : A → Action W A
  return a w = (ok a, w)

abbrev pub continue : {W A B : Type 0} → Result A × W → (A → Action W B) → Result B × W
continue (ok a, w) f = f a w
continue (err e, w) f = (err e, w)

infixl 5 ◌>>=◌ ◌>>◌
abbrev pub ◌>>=◌ : {W A B : Type 0} → Action W A → (A → Action W B) → Action W B
◌>>=◌ m f w = continue (m w) f

abbrev pub ◌>>◌ : {W B : Type 0} → Action W (Unit {0}) → Action W B → Action W B
m >> k = m >>= λ _. k

abbrev pub raise_when : {W : Type 0} → Bool → Fault → Action W (Unit {0})
raise_when test e = lift (raise_if test e)
