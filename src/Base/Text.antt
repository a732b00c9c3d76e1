-- ===== src/Base/Text.antt =====
-- Equality of Python strings, and the test `o == s` where `o` may be `None`.
use Prim.Native.String.{String}
use mathlib.Core.Path.{◌≡◌, refl, ap}
use mathlib.Core.Logic.{◌↔◌}
use mathlib.Core.Bool.{Bool, true, false, ◌||◌}
use mathlib.Core.List.{List, [], ◌∷◌}
use mathlib.Core.Option.{Option, none, some}
use native.Mathlib.Omega.{arith}
use text.Mathlib.Text.{◌==◌}
use text.Mathlib.TextEquality.{eq_iff}

unfoldable pub same_text : String → String → Bool
same_text s t = s == t

pub same_text_iff : (s t : String) → (same_text s t ≡ true) ↔ (s ≡ t)
unfolding same_text
same_text_iff s t = eq_iff s t

pub same_text_refl : (s : String) → same_text s s ≡ true
same_text_refl s = (same_text_iff s s).1 refl

-- `o == s`, with `None` equal to no string.
abbrev pub is_text : Option String → String → Bool
is_text none s = false
is_text (some t) s = same_text t s

pub is_text_iff : (o : Option String) (s : String) → (is_text o s ≡ true) ↔ (o ≡ some s)
is_text_iff none s = (λ e. cc, λ e. cc)
is_text_iff (some t) s =
    (λ e. ap some ((same_text_iff t s).0 e), λ e. ground (arith, same_text_iff t s))

-- `k in keys`
abbrev pub text_in : String → List String → Bool
text_in k [] = false
text_in k (j ∷ js) = same_text j k || text_in k js

-- Texts that the test tells apart are not equal.
pub not_same : (s t : String) → same_text s t ≡ false → ¬ (s ≡ t)
not_same s t h e = absurd (ground (arith, (same_text_iff s t).1 e))
