-- ===== src/Hash/Tests.antt =====
-- Runs of `FTM_HASH_SHA1`.
use catchb.Base.{◌≡◌, refl, [], ◌∷◌, length}
use catchb.Hash.{hex, swap_bytes, print_words}

hex_test : hex 8 48879 ≡ b'0' ∷ b'0' ∷ b'0' ∷ b'0' ∷ b'b' ∷ b'e' ∷ b'e' ∷ b'f' ∷ []
unfolding hex
hex_test = refl

-- The last of the forty digits has no place.
print_words_test : length (print_words 0 (1 ∷ 2 ∷ 3 ∷ 4 ∷ 5 ∷ [])) ≡ 39
unfolding print_words hex swap_bytes
print_words_test = refl
