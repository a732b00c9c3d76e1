-- ===== src/Message/Loads/Texts.antt =====
-- Texts that `json.dumps` writes and `json.loads` reads, for src/txoutbox/message.py.
use Prim.Native.Nat.{◌%◌}
use txoutbox.Base.{
  ℕ, zero, suc, ◌+◌, ◌*◌, ◌/◌, ◌<◌, ◌≡◌, refl, ap, ◌∙◌, Option, none, some, List, [], ◌∷◌, ◌++◌,
  append_assoc, arith,
}
use txoutbox.Message.Json.{hex_digit, escape_char, escape}
use txoutbox.Message.Scanner.{
  Scan, plain, hex, Next, goes, hex_value, finish, advance, emit, scan_text,
}

hex_value-hex_digit : (d : ℕ) → d < 16 → hex_value (hex_digit d) ≡ some d
unfolding hex_value hex_digit
hex_value-hex_digit d small = ground arith

abbrev hexed : ℕ → ℕ → Next
hexed zero v = finish none v
hexed (suc n) v = goes [] (hex none n v)

scan-goes :
    (s s' : Scan) (c : ℕ) (cs out : List ℕ)
    → advance s c ≡ goes out s'
    → scan_text s (c ∷ cs) ≡ emit out (scan_text s' cs)
unfolding scan_text
scan-goes s s' c cs out e = rw (scan_text, e) refl

emit_nothing : (r : Option (List ℕ × List ℕ)) → emit [] r ≡ r
emit_nothing none = refl
emit_nothing (some (cs, rest)) = refl

advance-hex : (n v d : ℕ) → d < 16 → advance (hex none n v) (hex_digit d) ≡ hexed n (v * 16 + d)
unfolding advance
advance-hex zero v d small = rw (advance, hex_value-hex_digit d small) refl
advance-hex (suc n) v d small = rw (advance, hex_value-hex_digit d small) refl

advance-last :
    (c : ℕ)
    → c < 32
    → advance (hex none 0 (0 * 16 + c / 16)) (hex_digit (c % 16)) ≡ goes (c ∷ []) (plain none)
unfolding finish
advance-last c small = advance-hex 0 (0 * 16 + c / 16) (c % 16) (ground arith) ∙ ground arith

-- A control character without a short escape.
scan-control :
    (c : ℕ) (cs : List ℕ)
    → c < 32
    → scan_text
        (plain none)
        (b'\\' ∷ b'u' ∷ b'0' ∷ b'0' ∷ hex_digit (c / 16) ∷ hex_digit (c % 16) ∷ cs)
      ≡ emit (c ∷ []) (scan_text (plain none) cs)
unfolding scan_text
scan-control c cs small =
    let high = advance-hex 1 0 (c / 16) (ground arith) in
    let low : advance (hex none 0 (0 * 16 + c / 16)) (hex_digit (c % 16))
        ≡ goes (c ∷ []) (plain none) =
      advance-last c small in
    let read = scan_text (hex none 1 0) (hex_digit (c / 16) ∷ hex_digit (c % 16) ∷ cs) in
    emit_nothing (emit [] (emit [] (emit [] read)))
    ∙ emit_nothing (emit [] (emit [] read))
    ∙ emit_nothing (emit [] read)
    ∙ emit_nothing read
    ∙ scan-goes (hex none 1 0) (hex none 0 (0 * 16 + c / 16)) (hex_digit (c / 16))
        (hex_digit (c % 16) ∷ cs) [] high
    ∙ emit_nothing (scan_text (hex none 0 (0 * 16 + c / 16)) (hex_digit (c % 16) ∷ cs))
    ∙ scan-goes (hex none 0 (0 * 16 + c / 16)) (plain none) (hex_digit (c % 16)) cs (c ∷ []) low

scan-escape_char :
    (c : ℕ) (cs : List ℕ)
    → scan_text (plain none) (escape_char c ++ cs) ≡ emit (c ∷ []) (scan_text (plain none) cs)
unfolding scan_text escape_char
scan-escape_char c cs = ground (arith, scan-control c cs)

pub scan-escape :
    (s rest : List ℕ) → scan_text (plain none) (escape s ++ b'"' ∷ rest) ≡ some (s, rest)
unfolding escape
scan-escape [] rest = unfold scan_text in refl
scan-escape (c ∷ cs) rest =
    ap (scan_text (plain none)) (append_assoc (escape_char c) (escape cs) (b'"' ∷ rest))
    ∙ scan-escape_char c (escape cs ++ b'"' ∷ rest)
    ∙ ap (emit (c ∷ [])) (scan-escape cs rest)
