-- ===== src/Hash.antt =====
-- `FTM_HASH_SHA1` of lib/ftm_utils.c. The five words of the digest are those of lib/libsha1.c, `none`
-- where `SHA1Result` says that it could not compute them.
mod Tests
use catchb.Base.{
  ℕ, zero, suc, ◌+◌, ◌-◌, ◌*◌, ◌/◌, ◌%◌, ◌^◌, Option, none, some, List, [], ◌∷◌, ◌++◌, Text, take,
  ltb, if◌then◌else◌,
}
use catchb.Ret.{Ret, ok, error}

-- A text that may not have been given is then empty.
abbrev pub given : Option Text → Text
given none = []
given (some t) = t

hex_digit : ℕ → ℕ
hex_digit d = if ltb d 10 then b'0' + d else b'a' + (d - 10)

-- `"%08x"` of a 32-bit value for `k` = 8.
unfoldable pub hex : (k : ℕ) → ℕ → Text
unfolding hex_digit
hex zero n = []
hex (suc k) n = hex k (n / 16) ++ hex_digit (n % 16) ∷ []

unfoldable swap_bytes : ℕ → ℕ
swap_bytes n =
    n % 2 ^ 8 * 2 ^ 24
    + n / 2 ^ 8 % 2 ^ 8 * 2 ^ 16
    + n / 2 ^ 16 % 2 ^ 8 * 2 ^ 8
    + n / 2 ^ 24 % 2 ^ 8

-- The loop of `snprintf`, each with `sizeof(pBuff) - ulLen - 1` places, of which one is the NUL's.
unfoldable pub print_words : (len : ℕ) → (words : List ℕ) → Text
unfolding hex swap_bytes
print_words len [] = []
print_words len (w ∷ ws) =
    take (41 - len - 1 - 1) (hex 8 (swap_bytes w)) ++ print_words (len + 8) ws

-- The text that `strncpy` writes to `pValue`, `none` where nothing is written.
hashed : Option (List ℕ) → (size : ℕ) → Ret × Option Text
unfolding print_words
hashed none size = (error, none)
hashed (some words) size = (ok, some (take size (print_words 0 words)))

unfoldable pub hash_sha1 : (digest : Text → Option (List ℕ)) → Text → (size : ℕ) → Ret × Option Text
unfolding hashed
hash_sha1 digest t size = hashed (digest t) size
