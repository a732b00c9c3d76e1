-- ===== src/Message/Loads/Numbers.antt =====
-- Integers that `json.dumps` writes and `json.loads` reads, for src/txoutbox/message.py.
use Prim.Native.Nat.{◌%◌}
use txoutbox.Base.{
  ℕ, zero, suc, ◌+◌, ◌/◌, ◌<◌, ◌≡◌, refl, ap, sym, ◌∙◌, some, true, false, ◌||◌, List, [], ◌∷◌,
  ◌++◌, arith, ltb, ◌==◌, Bool-cases, inl, inr,
}
use txoutbox.Base.Int.{ℤ, pos, negsuc}
use txoutbox.Message.Json.{decimal_onto, decimal, print_int}
use txoutbox.Message.Scanner.{is_digit, digits, natural, is_float, number, integer}

-- What may follow an integer that is read.
abbrev pub EndsNumber : List ℕ → Type 0
EndsNumber [] = Unit
EndsNumber (c ∷ cs) = (is_digit c || (c == b'.' || c == b'e' || c == b'E')) ≡ false

digits-stop : (n : ℕ) (rest : List ℕ) → EndsNumber rest → digits n rest ≡ (n, rest)
unfolding digits
digits-stop n [] e = refl
digits-stop n (c ∷ cs) e = ground arith

digits-onto : (f n : ℕ) (rest : List ℕ) → n < f → digits 0 (decimal_onto f n rest) ≡ digits n rest
unfolding digits decimal_onto
digits-onto zero n rest lt = ground arith
digits-onto (suc f) n rest lt = elim (Bool-cases (ltb n 10)) [
  | inl small ↦ ground arith
  | inr big ↦
      let more = digits-onto f (n / 10) ((b'0' + n % 10) ∷ rest) (ground arith) in
      ground (arith, more)
]

-- The first digit, which is not 0 but for 0.
onto-head :
    (f n : ℕ) (rest : List ℕ)
    → n < f
    → (c : ℕ) × (cs : List ℕ) × (decimal_onto f n rest ≡ c ∷ cs)
      × (is_digit c ≡ true)
      × (0 < n → (c == b'0') ≡ false)
unfolding decimal_onto
onto-head zero n rest lt = ground arith
onto-head (suc f) n rest lt = elim (Bool-cases (ltb n 10)) [
  | inl small ↦ (b'0' + n % 10, rest, ground arith, ground arith, λ h. ground arith)
  | inr big ↦
      let (c, cs, e, d, nz) = onto-head f (n / 10) ((b'0' + n % 10) ∷ rest) (ground arith) in
      (c, cs, ground arith, d, λ h. nz (ground arith))
]

onto-append :
    (f n : ℕ) (xs rest : List ℕ) → decimal_onto f n xs ++ rest ≡ decimal_onto f n (xs ++ rest)
unfolding decimal_onto
onto-append zero n xs rest = refl
onto-append (suc f) n xs rest = ground (arith, onto-append f (n / 10) ((b'0' + n % 10) ∷ xs) rest)

natural-decimal :
    (n : ℕ) (rest : List ℕ) → EndsNumber rest → natural (decimal n ++ rest) ≡ some (n, rest)
unfolding natural decimal
natural-decimal zero rest e = unfold decimal_onto in refl
natural-decimal (suc n) rest e =
    let (c, cs, h, d, nz) = onto-head (suc (suc n)) (suc n) rest (omega arith) in
    let read = digits-onto (suc (suc n)) (suc n) rest (omega arith) ∙ digits-stop (suc n) rest e in
    let read' : digits 0 (c ∷ cs) ≡ (suc n, rest) = ap (digits 0) (sym h) ∙ read in
    ap natural (onto-append (suc (suc n)) (suc n) [] rest ∙ h)
    ∙ natural_step c cs d (nz (omega arith))
    ∙ ap some read'
  where
    natural_step :
        (c : ℕ) (cs : List ℕ)
        → is_digit c ≡ true
        → (c == b'0') ≡ false
        → natural (c ∷ cs) ≡ some (digits 0 (c ∷ cs))
    natural_step c cs d nz = ground arith

ends-float : (rest : List ℕ) → EndsNumber rest → is_float rest ≡ false
unfolding is_float
ends-float [] e = refl
ends-float (c ∷ cs) e = ground arith

-- A decimal numeral starts with a digit.
pub decimal-head : (n : ℕ) → (c : ℕ) × (cs : List ℕ) × (decimal n ≡ c ∷ cs) × (is_digit c ≡ true)
unfolding decimal
decimal-head n = let (c, cs, e, d, nz) = onto-head (suc n) n [] (omega arith) in (c, cs, e, d)

number-decimal :
    (n : ℕ) (rest : List ℕ) → EndsNumber rest → number (decimal n ++ rest) ≡ some (pos n, rest)
unfolding number
number-decimal n rest e =
    let (c, cs, h, d) = decimal-head n in
    let read : natural (c ∷ (cs ++ rest)) ≡ some (n, rest) =
      ap (λ l. natural (l ++ rest)) (sym h) ∙ natural-decimal n rest e in
    ap (λ l. number (l ++ rest)) h ∙ ground (arith, read)

number-negative :
    (n : ℕ) (rest : List ℕ)
    → EndsNumber rest
    → number (b'-' ∷ (decimal (suc n) ++ rest)) ≡ some (negsuc n, rest)
unfolding number
number-negative n rest e = let read = natural-decimal (suc n) rest e in ground (arith, read)

number-integer :
    (cs rest : List ℕ) (z : ℤ)
    → number cs ≡ some (z, rest)
    → EndsNumber rest
    → integer cs ≡ some (z, rest)
unfolding integer
number-integer cs rest z read e =
    let whole_number = ends-float rest e in ground (arith, read, whole_number)

pub integer-print_int :
    (z : ℤ) (rest : List ℕ) → EndsNumber rest → integer (print_int z ++ rest) ≡ some (z, rest)
unfolding print_int
integer-print_int (pos n) rest e =
    number-integer (decimal n ++ rest) rest (pos n) (number-decimal n rest e) e
integer-print_int (negsuc n) rest e =
    number-integer (b'-' ∷ (decimal (suc n) ++ rest)) rest (negsuc n) (number-negative n rest e) e

-- An integer starts with a digit or a minus.
pub print_int-head :
    (z : ℤ) → (c : ℕ) × (cs : List ℕ) × (print_int z ≡ c ∷ cs) × ((is_digit c || c == b'-') ≡ true)
unfolding print_int
print_int-head (pos n) = let (c, cs, e, d) = decimal-head n in (c, cs, e, ground arith)
print_int-head (negsuc n) = (b'-', decimal (suc n), refl, refl)
