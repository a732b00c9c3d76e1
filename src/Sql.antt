-- ===== src/Sql.antt =====
-- What the statements of the SQL adapters use of SQL: conditions with NULL, tables as lists of
-- rows, and the clauses WHERE, ORDER BY id, LIMIT and IN.
use txoutbox.Base.{
  ℕ, ◌≡◌, refl, String, Bool, true, false, ◌&&◌, ◌||◌, Option, none, some, ltb, leb, same_text,
}

-- A condition: `none` is NULL, SQL's unknown.
abbrev pub Truth : Type 0
Truth = Option Bool

-- A row passes WHERE if its condition is true.
abbrev pub holds : Truth → Bool
holds none = false
holds (some b) = b

infixl 35 ◌and◌
infixl 30 ◌or◌
abbrev pub ◌and◌ : Truth → Truth → Truth
some false and b = some false
some true and b = b
none and some false = some false
none and some true = none
none and none = none

abbrev pub ◌or◌ : Truth → Truth → Truth
some true or b = some true
some false or b = b
none or some true = some true
none or some false = none
none or none = none

abbrev pub is_null {ℓ} : {A : Type ℓ} → Option A → Truth
is_null none = some true
is_null (some a) = some false

-- `t > now` and `t <= now`
abbrev pub gt : Option ℕ → ℕ → Truth
gt none now = none
gt (some t) now = some (ltb now t)

abbrev pub le : Option ℕ → ℕ → Truth
le none now = none
le (some t) now = some (leb t now)

-- `a = 's'` and `a = b`
abbrev pub eq_text : Option String → String → Truth
eq_text none s = none
eq_text (some t) s = some (same_text t s)

abbrev pub eq : Option String → Option String → Truth
eq a none = none
eq a (some s) = eq_text a s

pub holds-and : (a b : Truth) → holds (a and b) ≡ (holds a && holds b)
holds-and none none = refl
holds-and none (some true) = refl
holds-and none (some false) = refl
holds-and (some true) b = refl
holds-and (some false) b = refl

pub holds-or : (a b : Truth) → holds (a or b) ≡ (holds a || holds b)
holds-or none none = refl
holds-or none (some true) = refl
holds-or none (some false) = refl
holds-or (some true) b = refl
holds-or (some false) b = refl
