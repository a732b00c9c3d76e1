-- ===== src/Message/Loads/Steps.antt =====
-- Arrays and objects that `json.loads` reads, for src/txoutbox/message.py.
use txoutbox.Base.{
  ℕ, suc, ◌+◌, ◌<◌, ◌≡◌, refl, ap, sym, ◌∙◌, none, some, List, [], ◌∷◌, ◌++◌, append_assoc, arith,
  length, length-append,
}
use txoutbox.Message.Json.{
  JsonValue, Items, Members, arr, obj, nil, cons, end, member, print_text, dumps, print_items,
  print_more_items, print_members, print_more_members,
}
use txoutbox.Message.Scanner.{skip}
use txoutbox.Message.Loads.{whole, head_of, empty, key_of, value, items, members}
use txoutbox.Message.Loads.Heads.{skip-dumps, empty-dumps, key-text}

-- What follows a value inside brackets or at the end.
pub value-whole :
    (f : ℕ) (cs rest : List ℕ) (v : JsonValue)
    → head_of cs ≡ whole v rest
    → value (suc f) cs ≡ some (v, rest)
unfolding value
value-whole f cs rest v e = rw (value, e) refl

pub value-array :
    (f : ℕ) (cs : List ℕ) (xs : Items) (rest : List ℕ)
    → empty b']' cs ≡ none
    → items f (skip cs) ≡ some (xs, rest)
    → value (suc f) (b'[' ∷ cs) ≡ some (arr xs, rest)
unfolding value
value-array f cs xs rest busy read = rw (value, busy, read) refl

pub value-object :
    (f : ℕ) (cs : List ℕ) (ms : Members) (rest : List ℕ)
    → empty b'}' cs ≡ none
    → members f (skip cs) ≡ some (ms, rest)
    → value (suc f) (b'{' ∷ cs) ≡ some (obj ms, rest)
unfolding value
value-object f cs ms rest busy read = rw (value, busy, read) refl

pub items-last :
    (f : ℕ) (cs rest : List ℕ) (x : JsonValue)
    → value f cs ≡ some (x, b']' ∷ rest)
    → items (suc f) cs ≡ some (cons x nil, rest)
unfolding items
items-last f cs rest x e = rw (items, e) refl

pub items-more :
    (f : ℕ) (cs next rest : List ℕ) (x : JsonValue) (xs : Items)
    → value f cs ≡ some (x, b',' ∷ next)
    → items f (skip next) ≡ some (xs, rest)
    → items (suc f) cs ≡ some (cons x xs, rest)
unfolding items
items-more f cs next rest x xs e read = rw (items, e, read) refl

pub members-last :
    (f : ℕ) (cs at rest : List ℕ) (k : List ℕ) (v : JsonValue)
    → key_of cs ≡ some (k, at)
    → value f (skip at) ≡ some (v, b'}' ∷ rest)
    → members (suc f) cs ≡ some (member k v end, rest)
unfolding members
members-last f cs at rest k v e read = rw (members, e, read) refl

pub members-more :
    (f : ℕ) (cs at next rest : List ℕ) (k : List ℕ) (v : JsonValue) (ms : Members)
    → key_of cs ≡ some (k, at)
    → value f (skip at) ≡ some (v, b',' ∷ next)
    → members f (skip next) ≡ some (ms, rest)
    → members (suc f) cs ≡ some (member k v ms, rest)
unfolding members
members-more f cs at next rest k v ms e read read' = rw (members, e, read, read') refl

-- The elements and what follows them, from the first element on.
pub items-split :
    (x : JsonValue) (xs : Items) (rest : List ℕ)
    → print_items (cons x xs) ++ b']' ∷ rest ≡ dumps x ++ (print_more_items xs ++ b']' ∷ rest)
unfolding dumps
items-split x xs rest = append_assoc (dumps x) (print_more_items xs) (b']' ∷ rest)

pub members-split :
    (k : List ℕ) (v : JsonValue) (ms : Members) (rest : List ℕ)
    → print_members (member k v ms) ++ b'}' ∷ rest
      ≡ print_text k ++ b':' ∷ (dumps v ++ (print_more_members ms ++ b'}' ∷ rest))
unfolding dumps
members-split k v ms rest =
    append_assoc (print_text k) (b':' ∷ (dumps v ++ print_more_members ms)) (b'}' ∷ rest)
    ∙ ap (λ l. print_text k ++ b':' ∷ l)
        (append_assoc (dumps v) (print_more_members ms) (b'}' ∷ rest))

pub skip-items :
    (x : JsonValue) (xs : Items) (rest : List ℕ)
    → skip (print_items (cons x xs) ++ b']' ∷ rest) ≡ print_items (cons x xs) ++ b']' ∷ rest
skip-items x xs rest =
    ap skip (items-split x xs rest)
    ∙ skip-dumps x (print_more_items xs ++ b']' ∷ rest)
    ∙ sym (items-split x xs rest)

pub empty-items :
    (x : JsonValue) (xs : Items) (rest : List ℕ)
    → empty b']' (print_items (cons x xs) ++ b']' ∷ rest) ≡ none
empty-items x xs rest =
    ap (empty b']') (items-split x xs rest) ∙ empty-dumps x (print_more_items xs ++ b']' ∷ rest)

pub skip-members :
    (k : List ℕ) (v : JsonValue) (ms : Members) (rest : List ℕ)
    → skip (print_members (member k v ms) ++ rest) ≡ print_members (member k v ms) ++ rest
unfolding dumps print_text skip
skip-members k v ms rest = refl

pub empty-members :
    (k : List ℕ) (v : JsonValue) (ms : Members) (rest : List ℕ)
    → empty b'}' (print_members (member k v ms) ++ rest) ≡ none
unfolding dumps print_text empty
empty-members k v ms rest = refl

pub key-members :
    (k : List ℕ) (v : JsonValue) (ms : Members) (rest : List ℕ)
    → key_of (print_members (member k v ms) ++ b'}' ∷ rest)
      ≡ some (k, dumps v ++ (print_more_members ms ++ b'}' ∷ rest))
key-members k v ms rest =
    ap key_of (members-split k v ms rest)
    ∙ key-text k (dumps v ++ (print_more_members ms ++ b'}' ∷ rest))

-- The fuel for the elements.
pub items-fuel :
    (x : JsonValue) (xs : Items) (f : ℕ)
    → length (print_items (cons x xs)) + 1 < suc f
    → (length (dumps x) < f) × (length (print_more_items xs) < f)
unfolding dumps
items-fuel x xs f lt =
    let sum_of = length-append (dumps x) (print_more_items xs) in
    (ground (arith, sum_of), ground (arith, sum_of))

pub members-fuel :
    (k : List ℕ) (v : JsonValue) (ms : Members) (f : ℕ)
    → length (print_members (member k v ms)) + 1 < suc f
    → (length (dumps v) < f) × (length (print_more_members ms) < f)
unfolding dumps
members-fuel k v ms f lt =
    let sum_of = length-append (dumps v) (print_more_members ms) in
    let all_of = length-append (print_text k) (b':' ∷ (dumps v ++ print_more_members ms)) in
    (ground (arith, sum_of, all_of), ground (arith, sum_of, all_of))

pub bracket-fuel :
    (open_bracket close : ℕ) (cs : List ℕ) (f : ℕ)
    → length (open_bracket ∷ (cs ++ close ∷ [])) < suc f
    → length cs + 1 < f
bracket-fuel open_bracket close cs f lt =
    let sum_of = length-append cs (close ∷ []) in ground (arith, sum_of)

pub value-no_items :
    (f : ℕ) (rest : List ℕ) → value (suc f) (dumps (arr nil) ++ rest) ≡ some (arr nil, rest)
unfolding value dumps
value-no_items f rest = refl

pub value-no_members :
    (f : ℕ) (rest : List ℕ) → value (suc f) (dumps (obj end) ++ rest) ≡ some (obj end, rest)
unfolding value dumps
value-no_members f rest = refl
