-- ===== src/QueuePolicy/Material.antt =====
-- tellyq/domain/queue_policy.py: length prefixes make opaque identifiers unambiguous.
use Prim.Native.Nat.{◌/◌, ◌%◌, ◌*◌}
use tellyq.Prelude.{
  ℕ, zero, suc, ◌+◌, ◌-◌, ◌≤◌, ◌≡◌, ◌≢◌, refl, sym, ap, ◌∙◌, List, [], ◌∷◌, ◌++◌, length, ltb, All,
  arith, if-intro,
}
use tellyq.QueuePolicy.Identity.{decimal_on, decimal, material}

abbrev IsDigit : ℕ → Type 0
IsDigit c = (b'0' ≤ c) × (c ≤ b'9')

-- The number that a list of digits stands for, after those read into `acc`.
abbrev value_from : ℕ → List ℕ → ℕ
value_from acc [] = acc
value_from acc (c ∷ cs) = value_from (acc * 10 + (c - b'0')) cs

value_from-append :
    (acc : ℕ) (cs : List ℕ) (c : ℕ)
    → value_from acc (cs ++ (c ∷ [])) ≡ value_from acc cs * 10 + (c - b'0')
value_from-append acc [] c = refl
value_from-append acc (d ∷ cs) c = value_from-append (acc * 10 + (d - b'0')) cs c

value-decimal_on : (fuel n : ℕ) → n ≤ fuel → value_from 0 (decimal_on fuel n) ≡ n
unfolding decimal_on
value-decimal_on zero n h = omega arith
value-decimal_on (suc fuel) n h = ground (
  arith,
  value_from-append 0 (decimal_on fuel (n / 10)) (b'0' + n % 10),
  value-decimal_on fuel (n / 10),
)

All-append-IsDigit :
    (cs : List ℕ) (c : ℕ) → All IsDigit cs → IsDigit c → All IsDigit (cs ++ (c ∷ []))
All-append-IsDigit [] c h d = (d, tt)
All-append-IsDigit (x ∷ cs) c h d = (h.0, All-append-IsDigit cs c h.1 d)

digits-decimal_on : (fuel n : ℕ) → All IsDigit (decimal_on fuel n)
unfolding decimal_on
digits-decimal_on zero n = (omega arith, tt)
digits-decimal_on (suc fuel) n =
    if-intro (All IsDigit) (ltb n 10) (λ _. (omega arith, tt))
      (λ _.
        All-append-IsDigit (decimal_on fuel (n / 10)) (b'0' + n % 10)
          (digits-decimal_on fuel (n / 10)) (omega arith))

decimal-injective : (m n : ℕ) → decimal m ≡ decimal n → m ≡ n
unfolding decimal
decimal-injective m n h =
    sym (value-decimal_on m m (omega arith))
    ∙ ap (value_from 0) h
    ∙ value-decimal_on n n (omega arith)

digits-decimal : (n : ℕ) → All IsDigit (decimal n)
unfolding decimal
digits-decimal n = digits-decimal_on n n

abbrev head_of : List ℕ → ℕ
head_of [] = 0
head_of (x ∷ xs) = x

-- A text of digits ends at the first colon.
split_at_colon :
    (xs ys us vs : List ℕ)
    → All IsDigit xs
    → All IsDigit ys
    → xs ++ (b':' ∷ us) ≡ ys ++ (b':' ∷ vs)
    → (xs ≡ ys) × (us ≡ vs)
split_at_colon [] [] us vs dx dy h = (refl, cc)
split_at_colon [] (y ∷ ys) us vs dx dy h = absurd (omega (arith, ap head_of h))
split_at_colon (x ∷ xs) [] us vs dx dy h = absurd (omega (arith, ap head_of h))
split_at_colon (x ∷ xs) (y ∷ ys) us vs dx dy h =
    let (e, r) = split_at_colon xs ys us vs dx.1 dy.1 (cc) in (cc, r)

split_by_length :
    (ps qs us vs : List ℕ) → length ps ≡ length qs → ps ++ us ≡ qs ++ vs → (ps ≡ qs) × (us ≡ vs)
split_by_length [] [] us vs l h = (refl, h)
split_by_length [] (q ∷ qs) us vs l h = absurd (omega arith)
split_by_length (p ∷ ps) [] us vs l h = absurd (omega arith)
split_by_length (p ∷ ps) (q ∷ qs) us vs l h =
    let (e, r) = split_by_length ps qs us vs (omega arith) (cc) in (cc, r)

frame-ne-nil : (ds us : List ℕ) → [] ≢ ds ++ (b':' ∷ us)
frame-ne-nil [] us h = cc
frame-ne-nil (d ∷ ds) us h = cc

-- Two lists of parts that make one text are the same list.
pub material-injective : (ps qs : List (List ℕ)) → material ps ≡ material qs → ps ≡ qs
unfolding material
material-injective [] [] h = refl
material-injective [] (q ∷ qs) h = absurd (frame-ne-nil (decimal (length q)) _ h)
material-injective (p ∷ ps) [] h = absurd (frame-ne-nil (decimal (length p)) _ (sym h))
material-injective (p ∷ ps) (q ∷ qs) h =
    let (lengths, bodies) =
      split_at_colon (decimal (length p)) (decimal (length q)) (p ++ material ps) (q ++ material qs)
        (digits-decimal (length p)) (digits-decimal (length q)) h in
    let (same, rest) =
      split_by_length p q (material ps) (material qs)
        (decimal-injective (length p) (length q) lengths) bodies in
    let tails = material-injective ps qs rest in cc
