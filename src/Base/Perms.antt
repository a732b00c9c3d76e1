-- ===== src/Base/Perms.antt =====
-- What holds of some element of a list does not depend on the order.
use mathlib.Core.Path.{◌≡◌, refl, ap, ◌∙◌}
use mathlib.Core.Bool.{Bool, ◌||◌, Bool-set}
use mathlib.Core.List.{List, [], ◌∷◌, ◌++◌, Perm, Permᴰ}
use mathlib.Core.Logic.{∥∥₁_elim}
use native.Mathlib.Omega.{arith}
use Prim.Native.Nat.{ℕ}
use mathlib.Core.Bool.{true, false}
use txoutbox.Base.Tests.{◌==◌}
use txoutbox.Base.Lists.{any, elem, Distinct}

module _ {ℓ} {A : Type ℓ} (p : A → Bool) where
  pub any-append : (xs ys : List A) → any p (xs ++ ys) ≡ (any p xs || any p ys)
  any-append [] ys = refl
  any-append (x ∷ xs) ys = ground (arith, any-append xs ys)

  any-Permᴰ : {xs ys : List A} → Permᴰ xs ys → any p xs ≡ any p ys
  any-Permᴰ Permᴰ.nil = refl
  any-Permᴰ (Permᴰ.cons e d) = λ i. p (e i) || any-Permᴰ d i
  any-Permᴰ (Permᴰ.swap {a = a} {b = b} {a' = a'} {b' = b'} {l = l} e f) =
      ground (arith, ap p e, ap p f)
  any-Permᴰ (Permᴰ.trans d e) = any-Permᴰ d ∙ any-Permᴰ e

  pub any-Perm : (xs ys : List A) → Perm xs ys → any p xs ≡ any p ys
  any-Perm xs ys h = ∥∥₁_elim h (Bool-set (any p xs) (any p ys)) any-Permᴰ

elem-Permᴰ : (j : ℕ) {xs ys : List ℕ} → Permᴰ xs ys → elem j xs ≡ elem j ys
elem-Permᴰ j Permᴰ.nil = refl
elem-Permᴰ j (Permᴰ.cons e d) = λ i. j == e i || elem-Permᴰ j d i
elem-Permᴰ j (Permᴰ.swap e f) = ground arith
elem-Permᴰ j (Permᴰ.trans d e) = elem-Permᴰ j d ∙ elem-Permᴰ j e

pub elem-Perm : (j : ℕ) (xs ys : List ℕ) → Perm xs ys → elem j xs ≡ elem j ys
elem-Perm j xs ys h = ∥∥₁_elim h (Bool-set (elem j xs) (elem j ys)) (elem-Permᴰ j)

Distinct-prop : (xs : List ℕ) → IsProp (Distinct xs)
Distinct-prop [] a b = refl
Distinct-prop (x ∷ xs) a b = λ i. (Bool-set (elem x xs) false a.0 b.0 i, Distinct-prop xs a.1 b.1 i)

Distinct-Permᴰ : {xs ys : List ℕ} → Permᴰ xs ys → Distinct xs → Distinct ys
Distinct-Permᴰ Permᴰ.nil d = d
Distinct-Permᴰ (Permᴰ.cons {a = a} {b = b} {l₁ = xs} {l₂ = ys} e p) d =
    (ground (arith, elem-Permᴰ b p), Distinct-Permᴰ p d.1)
Distinct-Permᴰ (Permᴰ.swap e f) d = (ground arith, (ground arith, d.1.1))
Distinct-Permᴰ (Permᴰ.trans p q) d = Distinct-Permᴰ q (Distinct-Permᴰ p d)

pub Distinct-Perm : (xs ys : List ℕ) → Perm xs ys → Distinct xs → Distinct ys
Distinct-Perm xs ys h d = ∥∥₁_elim h (Distinct-prop ys) (λ p. Distinct-Permᴰ p d)

pub elem-append : (j : ℕ) (xs ys : List ℕ) → elem j (xs ++ ys) ≡ (elem j xs || elem j ys)
elem-append j [] ys = refl
elem-append j (x ∷ xs) ys = ground (arith, elem-append j xs ys)

-- Two lists that are distinct together share no element.
pub Distinct-append :
    (xs ys : List ℕ)
    → Distinct (xs ++ ys)
    → Distinct xs × ((j : ℕ) → elem j xs ≡ true → elem j ys ≡ false) × Distinct ys
Distinct-append [] ys d = (tt, (λ j h. cc), d)
Distinct-append (x ∷ xs) ys d =
    let (dx, apart, dy) = Distinct-append xs ys d.1 in
    (
      (ground (arith, elem-append x xs ys), dx),
      (λ j h. ground (arith, elem-append x xs ys, apart j)),
      dy,
    )

pub append-Distinct :
    (xs ys : List ℕ)
    → Distinct xs
    → ((j : ℕ) → elem j xs ≡ true → elem j ys ≡ false)
    → Distinct ys
    → Distinct (xs ++ ys)
append-Distinct [] ys dx apart dy = dy
append-Distinct (x ∷ xs) ys dx apart dy = (
  ground (arith, elem-append x xs ys, apart x),
  append-Distinct xs ys dx.1 (λ j h. ground (arith, apart j)) dy,
)
