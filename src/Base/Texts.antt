-- ===== src/Base/Texts.antt =====
-- Texts as the lists of their characters up to the NUL, and the comparisons of <string.h>.
use Prim.Native.Nat.{ℕ, ◌+◌}
use mathlib.Core.Path.{◌≡◌, refl, sym, ap}
use mathlib.Core.Logic.{◌↔◌, inl, inr}
use mathlib.Core.Bool.{Bool, true, false, ◌&&◌}
use mathlib.Core.List.{List, [], ◌∷◌, map}
use native.Mathlib.Omega.{arith}
use Prim.Native.String.{String}
use Prim.Native.Char.{code}
use catchb.Base.Tests.{Bool-cases, leb, ◌==◌, if◌then◌else◌}

abbrev pub Text : Type 0
Text = List ℕ

-- The characters of a literal.
abbrev pub codes : String → Text
codes String.[] = []
codes (String.◌∷◌ c s) = code c ∷ codes s

-- `strcmp(a, b) == 0`
unfoldable pub same : Text → Text → Bool
same [] [] = true
same [] (d ∷ t) = false
same (c ∷ s) [] = false
same (c ∷ s) (d ∷ t) = c == d && same s t

pub same_iff : (s t : Text) → (same s t ≡ true) ↔ (s ≡ t)
unfolding same
same_iff [] [] = ground arith
same_iff [] (d ∷ t) = ground arith
same_iff (c ∷ s) [] = ground arith
same_iff (c ∷ s) (d ∷ t) = ground (arith, same_iff s t)

pub same_refl : (s : Text) → same s s ≡ true
same_refl s = (same_iff s s).1 refl

unfoldable pub lower : ℕ → ℕ
lower c = if leb b'A' c && leb c b'Z' then c + 32 else c

-- `strcasecmp(a, b) == 0`
unfoldable pub same_case : Text → Text → Bool
unfolding same lower
same_case s t = same (map lower s) (map lower t)

pub same_case_refl : (s : Text) → same_case s s ≡ true
unfolding same_case
same_case_refl s = same_refl (map lower s)

same_case_iff : (s t : Text) → (same_case s t ≡ true) ↔ (map lower s ≡ map lower t)
unfolding same_case
same_case_iff s t = same_iff (map lower s) (map lower t)

-- Texts that are the same up to case compare alike with any other.
pub same_case-cong : (s t u : Text) → same_case s t ≡ true → same_case s u ≡ same_case t u
unfolding same_case
same_case-cong s t u h = ap (λ k. same k (map lower u)) ((same_case_iff s t).0 h)

pub same_case_comm : (s t : Text) → same_case s t ≡ same_case t s
same_case_comm s t = elim (Bool-cases (same_case s t)) [
  | inl alike ↦ rw (alike, (same_case_iff t s).1 (sym ((same_case_iff s t).0 alike)))
  | inr different ↦ ground (arith, same_case_iff s t, same_case_iff t s)
]

pub same_comm : (s t : Text) → same s t ≡ same t s
same_comm s t = elim (Bool-cases (same s t)) [
  | inl alike ↦ rw (alike, (same_iff t s).1 (sym ((same_iff s t).0 alike)))
  | inr different ↦ ground (arith, same_iff s t, same_iff t s)
]
