-- ===== src/Message/Loads/RoundTrip.antt =====
-- `json` of src/txoutbox/message.py reads what `encode_payload` writes.
use txoutbox.Base.{
  ℕ, zero, suc, ◌+◌, ◌≤◌, ◌<◌, ◌≡◌, refl, ap, sym, ◌∙◌, some, true, false, List, [], ◌∷◌, ◌++◌,
  append_assoc, append-nil, arith, length, All,
}
use txoutbox.Message.{OutboxMessage, json, encode_payload}
use txoutbox.Message.Text.{decode_from, begins, decode-encode}
use txoutbox.Message.Json.{
  JsonValue, Items, Members, null, bool, int, text, arr, obj, nil, cons, end, member, dumps,
  print_items, print_more_items, print_members, print_more_members,
}
use txoutbox.Message.Scanner.{skip}
use txoutbox.Message.Loads.{value, items, members, loads, json_of}
use txoutbox.Message.Loads.Numbers.{EndsNumber}
use txoutbox.Message.Loads.Heads.{skip-dumps, head-text, head-int, head-null, head-bool}
use txoutbox.Message.Loads.Steps.{
  value-whole, value-array, value-object, items-last, items-more, members-last, members-more,
  items-split, skip-items, empty-items, skip-members, empty-members, key-members, items-fuel,
  members-fuel, bracket-fuel, value-no_items, value-no_members,
}

more-fuel : (cs : List ℕ) (f : ℕ) → length (b',' ∷ cs) < f → length cs + 1 < f
more-fuel cs f lt = ground arith

mutual
  unfolding dumps

  value-dumps :
      (v : JsonValue) (f : ℕ) (rest : List ℕ)
      → EndsNumber rest
      → length (dumps v) < f
      → value f (dumps v ++ rest) ≡ some (v, rest)
  value-dumps v zero rest e lt = ground arith
  value-dumps null (suc f) rest e lt = value-whole f (dumps null ++ rest) rest null (head-null rest)
  value-dumps (bool true) (suc f) rest e lt =
      value-whole f (dumps (bool true) ++ rest) rest (bool true) (head-bool true rest)
  value-dumps (bool false) (suc f) rest e lt =
      value-whole f (dumps (bool false) ++ rest) rest (bool false) (head-bool false rest)
  value-dumps (int z) (suc f) rest e lt =
      value-whole f (dumps (int z) ++ rest) rest (int z) (head-int z rest e)
  value-dumps (text s) (suc f) rest e lt =
      value-whole f (dumps (text s) ++ rest) rest (text s) (head-text s rest)
  value-dumps (arr nil) (suc f) rest e lt = value-no_items f rest
  value-dumps (arr (cons x xs)) (suc f) rest e lt =
      ap (λ l. value (suc f) (b'[' ∷ l)) (append_assoc (print_items (cons x xs)) (b']' ∷ []) rest)
      ∙ value-array f (print_items (cons x xs) ++ b']' ∷ rest) (cons x xs) rest
          (empty-items x xs rest)
          (ap (items f) (skip-items x xs rest)
            ∙ items-print x xs f rest (bracket-fuel b'[' b']' (print_items (cons x xs)) f lt))
  value-dumps (obj end) (suc f) rest e lt = value-no_members f rest
  value-dumps (obj (member k v ms)) (suc f) rest e lt =
      ap (λ l. value (suc f) (b'{' ∷ l))
        (append_assoc (print_members (member k v ms)) (b'}' ∷ []) rest)
      ∙ value-object f (print_members (member k v ms) ++ b'}' ∷ rest) (member k v ms) rest
          (empty-members k v ms (b'}' ∷ rest))
          (ap (members f) (skip-members k v ms (b'}' ∷ rest))
            ∙ members-print k v ms f rest
                (bracket-fuel b'{' b'}' (print_members (member k v ms)) f lt))

  items-print :
      (x : JsonValue) (xs : Items) (f : ℕ) (rest : List ℕ)
      → length (print_items (cons x xs)) + 1 < f
      → items f (print_items (cons x xs) ++ b']' ∷ rest) ≡ some (cons x xs, rest)
  items-print x xs zero rest lt = ground arith
  items-print x nil (suc f) rest lt =
      items-last f (print_items (cons x nil) ++ b']' ∷ rest) rest x (
        ap (value f) (items-split x nil rest)
        ∙ value-dumps x f (b']' ∷ rest) refl (items-fuel x nil f lt).0)
  items-print x (cons y ys) (suc f) rest lt =
      items-more f (print_items (cons x (cons y ys)) ++ b']' ∷ rest)
        (print_items (cons y ys) ++ b']' ∷ rest) rest x (cons y ys)
        (ap (value f) (items-split x (cons y ys) rest)
          ∙ value-dumps x f (print_more_items (cons y ys) ++ b']' ∷ rest) refl
              (items-fuel x (cons y ys) f lt).0)
        (ap (items f) (skip-items y ys rest)
          ∙ items-print y ys f rest
              (more-fuel (print_items (cons y ys)) f (items-fuel x (cons y ys) f lt).1))

  members-print :
      (k : List ℕ) (v : JsonValue) (ms : Members) (f : ℕ) (rest : List ℕ)
      → length (print_members (member k v ms)) + 1 < f
      → members f (print_members (member k v ms) ++ b'}' ∷ rest) ≡ some (member k v ms, rest)
  members-print k v ms zero rest lt = ground arith
  members-print k v end (suc f) rest lt =
      members-last f (print_members (member k v end) ++ b'}' ∷ rest) (dumps v ++ b'}' ∷ rest) rest k
        v (key-members k v end rest)
        (ap (value f) (skip-dumps v (b'}' ∷ rest))
          ∙ value-dumps v f (b'}' ∷ rest) refl (members-fuel k v end f lt).0)
  members-print k v (member l w ms) (suc f) rest lt =
      let others = member l w ms in
      let tail = print_more_members others ++ b'}' ∷ rest in
      members-more f (print_members (member k v others) ++ b'}' ∷ rest) (dumps v ++ tail)
        (print_members others ++ b'}' ∷ rest) rest k v others (key-members k v others rest)
        (ap (value f) (skip-dumps v tail)
          ∙ value-dumps v f tail refl (members-fuel k v others f lt).0)
        (ap (members f) (skip-members l w ms (b'}' ∷ rest))
          ∙ members-print l w ms f rest
              (more-fuel (print_members others) f (members-fuel k v others f lt).1))

loads-dumps : (v : JsonValue) → loads (dumps v) ≡ some v
unfolding loads
loads-dumps v =
    let all = sym (append-nil (dumps v)) in
    let trimmed : skip (dumps v) ≡ dumps v = ap skip all ∙ skip-dumps v [] ∙ sym all in
    let read : value (suc (length (dumps v))) (dumps v) ≡ some (v, []) =
      ap (value (suc (length (dumps v)))) all
      ∙ value-dumps v (suc (length (dumps v))) [] tt (omega arith) in
    rw (loads, trimmed, read) refl

decoded-loads :
    (m : OutboxMessage) (cs : List ℕ)
    → decode_from true begins m.payload ≡ some cs
    → json_of m ≡ loads cs
unfolding json_of
decoded-loads m cs e = rw (json_of, e) refl

-- A value that is encoded as a payload is what `json` decodes: if a producer passes a value without
-- floats whose JSON text consists of code points and can be encoded, `json` of a message with the
-- encoded payload returns that value, whatever characters its texts have, as far as the limits of
-- the interpreter on depth and digits allow.
pub json-encode_payload :
    (v : JsonValue) (body : List ℕ) (m : OutboxMessage)
    → All (λ c. c ≤ 0x10ffff) (dumps v)
    → encode_payload (json v) ≡ some body
    → m.payload ≡ body
    → json_of m ≡ some v
unfolding encode_payload
json-encode_payload v body m small e same =
    decoded-loads m (dumps v) (rw same (decode-encode true (dumps v) body small e)) ∙ loads-dumps v
