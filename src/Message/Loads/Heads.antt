-- ===== src/Message/Loads/Heads.antt =====
-- How the values that `json.dumps` writes begin, for src/txoutbox/message.py.
use txoutbox.Base.{
  ℕ, ◌≡◌, refl, ap, sym, ◌∙◌, none, some, Bool, true, false, not, ◌&&◌, ◌||◌, List, [], ◌∷◌, ◌++◌,
  append_assoc, arith, ◌==◌,
}
use txoutbox.Base.Int.{ℤ}
use txoutbox.Message.Json.{
  JsonValue, null, bool, int, text, arr, obj, print_int, escape, print_text, dumps, print_items,
  print_members,
}
use txoutbox.Message.Scanner.{is_space, is_digit, skip, integer, plain, scan_text}
use txoutbox.Message.Loads.{whole, text_head, int_head, head_of, empty, key_of}
use txoutbox.Message.Loads.Numbers.{EndsNumber, integer-print_int, print_int-head}
use txoutbox.Message.Loads.Texts.{scan-escape}

-- The first character of a value: no space, no bracket that closes and no comma.
abbrev starts : ℕ → Bool
starts c = not (is_space c) && not (c == b']')

abbrev Starts : List ℕ → Type 0
Starts cs = (c : ℕ) × (rest : List ℕ) × (cs ≡ c ∷ rest) × (starts c ≡ true)

pub dumps-Starts : (v : JsonValue) → Starts (dumps v)
unfolding dumps print_text
dumps-Starts null = (b'n', b'u' ∷ b'l' ∷ b'l' ∷ [], refl, refl)
dumps-Starts (bool true) = (b't', b'r' ∷ b'u' ∷ b'e' ∷ [], refl, refl)
dumps-Starts (bool false) = (b'f', b'a' ∷ b'l' ∷ b's' ∷ b'e' ∷ [], refl, refl)
dumps-Starts (int z) = let (c, cs, e, d) = print_int-head z in (c, cs, e, ground arith)
dumps-Starts (text s) = (b'"', escape s ++ b'"' ∷ [], refl, refl)
dumps-Starts (arr xs) = (b'[', print_items xs ++ b']' ∷ [], refl, refl)
dumps-Starts (obj ms) = (b'{', print_members ms ++ b'}' ∷ [], refl, refl)

-- No space is skipped in front of a value.
pub skip-dumps : (v : JsonValue) (rest : List ℕ) → skip (dumps v ++ rest) ≡ dumps v ++ rest
unfolding skip
skip-dumps v rest =
    let (c, cs, e, d) = dumps-Starts v in
    let same : skip (c ∷ (cs ++ rest)) ≡ c ∷ (cs ++ rest) = ground arith in rw e same

pub empty-dumps : (v : JsonValue) (rest : List ℕ) → empty b']' (dumps v ++ rest) ≡ none
unfolding empty skip
empty-dumps v rest =
    let (c, cs, e, d) = dumps-Starts v in
    let busy : empty b']' (c ∷ (cs ++ rest)) ≡ none = ground arith in rw e busy

pub head-text : (s rest : List ℕ) → head_of (print_text s ++ rest) ≡ whole (text s) rest
unfolding head_of print_text
head-text s rest =
    ap (λ l. text_head (scan_text (plain none) l)) (append_assoc (escape s) (b'"' ∷ []) rest)
    ∙ ap text_head (scan-escape s rest)

pub key-text : (k rest : List ℕ) → key_of (print_text k ++ b':' ∷ rest) ≡ some (k, rest)
unfolding key_of print_text
key-text k rest =
    rw (append_assoc (escape k) (b'"' ∷ []) (b':' ∷ rest)) (rw (scan-escape k (b':' ∷ rest)) refl)

is_not :
    (c d : ℕ)
    → (is_digit c || c == b'-') ≡ true
    → (is_digit d || d == b'-') ≡ false
    → (c == d) ≡ false
is_not c d h n = ground arith

pub head-number :
    (c : ℕ) (cs : List ℕ)
    → (is_digit c || c == b'-') ≡ true
    → head_of (c ∷ cs) ≡ int_head (integer (c ∷ cs))
unfolding head_of
head-number c cs h = rw (is_not c b'"' h refl) (
    rw (is_not c b'[' h refl) (
      rw (is_not c b'{' h refl)
        (rw (is_not c b'n' h refl) (rw (is_not c b't' h refl) (rw (is_not c b'f' h refl) refl)))))

pub head-int :
    (z : ℤ) (rest : List ℕ) → EndsNumber rest → head_of (print_int z ++ rest) ≡ whole (int z) rest
head-int z rest e =
    let (c, cs, h, d) = print_int-head z in
    let read : integer (c ∷ (cs ++ rest)) ≡ some (z, rest) =
      ap (λ l. integer (l ++ rest)) (sym h) ∙ integer-print_int z rest e in
    ap (λ l. head_of (l ++ rest)) h ∙ head-number c (cs ++ rest) d ∙ ap int_head read

pub head-null : (rest : List ℕ) → head_of (dumps null ++ rest) ≡ whole null rest
unfolding head_of dumps
head-null rest = refl

pub head-bool : (b : Bool) (rest : List ℕ) → head_of (dumps (bool b) ++ rest) ≡ whole (bool b) rest
unfolding head_of dumps
head-bool true rest = refl
head-bool false rest = refl
