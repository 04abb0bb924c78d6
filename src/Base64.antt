-- ===== src/Base64.antt =====
-- lib/ftm_base64.c: the base 64 code. An array with its length is a list of numbers, and what a
-- function writes to `pBuff` is the list of what it writes. `|` of numbers that share no bit is `+`.
pub mod Table
pub mod Groups
pub mod RoundTrip
mod Tests
use catchb.Base.{
  ℕ, zero, suc, ◌+◌, ◌-◌, ◌*◌, ◌/◌, ◌%◌, ◌^◌, Bool, true, false, not, Option, none, some, List, [],
  ◌∷◌, ◌++◌, ltb, ◌==◌, if◌then◌else◌, length, take, get_elem?,
}
use catchb.Run.{Run, done, fault, ◌>>=◌}
use catchb.Ret.{Ret, ok, invalid_arguments, buffer_too_small}

-- The character '='.
abbrev pub pad : ℕ
pad = 61

-- `pEncodingTable` in ASCII.
abbrev encoding_table : List ℕ
encoding_table =
    65 ∷ 66 ∷ 67 ∷ 68 ∷ 69 ∷ 70 ∷ 71 ∷ 72 ∷ 73 ∷ 74 ∷ 75 ∷ 76 ∷ 77 ∷ 78 ∷ 79 ∷ 80 ∷ 81 ∷ 82 ∷ 83
    ∷ 84 ∷ 85 ∷ 86 ∷ 87 ∷ 88 ∷ 89 ∷ 90 ∷ 97 ∷ 98 ∷ 99 ∷ 100 ∷ 101 ∷ 102 ∷ 103 ∷ 104 ∷ 105 ∷ 106
    ∷ 107 ∷ 108 ∷ 109 ∷ 110 ∷ 111 ∷ 112 ∷ 113 ∷ 114 ∷ 115 ∷ 116 ∷ 117 ∷ 118 ∷ 119 ∷ 120 ∷ 121 ∷ 122
    ∷ 48 ∷ 49 ∷ 50 ∷ 51 ∷ 52 ∷ 53 ∷ 54 ∷ 55 ∷ 56 ∷ 57 ∷ 43 ∷ 47 ∷ []

abbrev or_zero : Option ℕ → ℕ
or_zero none = 0
or_zero (some c) = c

-- `pEncodingTable[i]`, for `i` below 64.
unfoldable pub encode_char : ℕ → ℕ
encode_char i = or_zero (get_elem? encoding_table i)

-- `pDecodingTable` after the loop over the first `n` characters. Then its entry 0 becomes 1, as the sign
-- that it is filled.
unfoldable fill : (n : ℕ) → ℕ → ℕ
unfolding encode_char
fill zero c = 0
fill (suc n) c = if c == encode_char n then n else fill n c

unfoldable decode_char : ℕ → ℕ
unfolding fill
decode_char c = if c == 0 then 1 else fill 64 c

-- One round of the encoder's loop: the four characters of a value of 24 bits.
unfoldable pub quad : (value : ℕ) → List ℕ
unfolding encode_char
quad value =
    encode_char (value / 2 ^ 18 % 64)
    ∷ encode_char (value / 2 ^ 12 % 64)
    ∷ encode_char (value / 2 ^ 6 % 64)
    ∷ encode_char (value % 64)
    ∷ []

-- The loop; the last round may find one byte or two.
unfoldable pub encode_groups : List ℕ → List ℕ
unfolding quad
encode_groups [] = []
encode_groups (a ∷ []) = quad (a * 2 ^ 16)
encode_groups (a ∷ b ∷ []) = quad (a * 2 ^ 16 + b * 2 ^ 8)
encode_groups (a ∷ b ∷ c ∷ rest) = quad (a * 2 ^ 16 + b * 2 ^ 8 + c) ++ encode_groups rest

-- `pModTable`
abbrev pub mod_table : ℕ → ℕ
mod_table zero = 0
mod_table (suc zero) = 2
mod_table _ = 1

abbrev pads : ℕ → List ℕ
pads zero = []
pads (suc n) = pad ∷ pads n

-- The last `n` characters become '='.
unfoldable pub overwrite_end : (n : ℕ) → List ℕ → List ℕ
overwrite_end n xs = take (length xs - n) xs ++ pads n

unfoldable pub encode : (buff_len : ℕ) → List ℕ → Ret × List ℕ
unfolding encode_groups overwrite_end
encode buff_len bytes =
    let output_len = 4 * ((length bytes + 2) % 2 ^ 32 / 3) % 2 ^ 32 in
    if ltb buff_len output_len
    then (buffer_too_small, [])
    else (ok, overwrite_end (mod_table (length bytes % 3)) (encode_groups bytes))

-- A character's share of the value: '=' has none.
unfoldable pub sextet : ℕ → ℕ
unfolding decode_char
sextet c = if c == pad then 0 else decode_char c

-- One round of the decoder's loop: at most `left` bytes of a value of 24 bits.
unfoldable pub triple : (left value : ℕ) → List ℕ
triple left value = take left (value / 2 ^ 16 % 256 ∷ value / 2 ^ 8 % 256 ∷ value % 256 ∷ [])

-- The loop; `left` is `ulOutputLen - j`.
unfoldable pub decode_groups : (left : ℕ) → List ℕ → List ℕ
unfolding triple sextet
decode_groups left (a ∷ b ∷ c ∷ d ∷ rest) =
    triple left (sextet a * 2 ^ 18 + sextet b * 2 ^ 12 + sextet c * 2 ^ 6 + sextet d)
    ++ decode_groups (left - 3) rest
decode_groups left _ = []

-- `pData[i]`
abbrev pub load : List ℕ → ℕ → Run ℕ
load chars i = elim (get_elem? chars i) [ some c ↦ done c | none ↦ fault ]

-- `ulOutputLen`, for which the last two characters are read. The index wraps around.
unfoldable pub decoded_len : List ℕ → Run ℕ
decoded_len chars = do
  let n = length chars
  last ← load chars ((n + 2 ^ 32 - 1) % 2 ^ 32)
  before_last ← load chars ((n + 2 ^ 32 - 2) % 2 ^ 32)
  done (n / 4 * 3 - (if last == pad then 1 else 0) - (if before_last == pad then 1 else 0))

unfoldable pub decode : (buff_len : ℕ) → List ℕ → Run (Ret × List ℕ)
unfolding decoded_len decode_groups
decode buff_len chars = if not (length chars % 4 == 0) then done (invalid_arguments, []) else (do
  output_len ← decoded_len chars
  if ltb buff_len output_len
      then done (buffer_too_small, [])
      else done (ok, decode_groups output_len chars))
