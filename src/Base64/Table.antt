-- ===== src/Base64/Table.antt =====
-- The two tables of lib/ftm_base64.c undo each other.
use catchb.Base.{
  ℕ, zero, suc, ◌<◌, ◌≡◌, refl, true, false, Bool, Bool-cases, inl, inr, not, ◌&&◌, arith, ◌==◌,
}
use catchb.Base64.{pad, encode_char, sextet}

-- A test of all numbers below `n`.
abbrev below : ℕ → (ℕ → Bool) → Bool
below zero test = true
below (suc n) test = test n && below n test

below-all : (n : ℕ) (test : ℕ → Bool) → below n test ≡ true → (i : ℕ) → i < n → test i ≡ true
below-all zero test h i k = elim k [ ]
below-all (suc n) test h i k = elim (Bool-cases (i == n)) [
  | inl last ↦ let same : i ≡ n = ground arith in rw same (ground arith)
  | inr earlier ↦ below-all n test (ground arith) i (ground arith)
]

abbrev comes_back : ℕ → Bool
comes_back i = sextet (encode_char i) == i && not (encode_char i == pad)

checked : below 64 comes_back ≡ true
unfolding sextet
checked = refl

-- The decoder's value of the character of a number below 64 is that number, and the character is not '='.
pub sextet-encode_char :
    (i : ℕ) → i < 64 → (sextet (encode_char i) ≡ i) × ((encode_char i == pad) ≡ false)
sextet-encode_char i h = let both = below-all 64 comes_back checked i h in ground (arith, both)
