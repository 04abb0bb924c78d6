-- ===== src/Base64/RoundTrip.antt =====
-- The base 64 code of lib/ftm_base64.c undone, and the decoder's errors.
use catchb.Base.{
  ℕ, zero, suc, get_elem?, some, ◌+◌, ◌-◌, ◌*◌, ◌/◌, ◌%◌, ◌^◌, ◌<◌, ◌≤◌, ◌≡◌, refl, ap, List, [],
  ◌∷◌, arith, length, true, false, ltb, ◌==◌, if◌then◌else◌,
}
use catchb.Run.{done, fault}
use catchb.Ret.{ok}
use catchb.Base64.{encode, decode, decoded_len, load, mod_table}
use catchb.Base64.Groups.{
  AllBytes, coded, encode_groups-coded, length-coded, decode_groups-coded, coded-EndsWith,
}

encode-coded :
    (buff_len : ℕ) (xs : List ℕ)
    → length xs + 2 < 2 ^ 31
    → 4 * ((length xs + 2) / 3) ≤ buff_len
    → encode buff_len xs ≡ (ok, coded xs)
unfolding encode
encode-coded buff_len xs small room =
    let no_overflow : (length xs + 2) % 2 ^ 32 ≡ length xs + 2 = omega arith in
    let fits : 4 * ((length xs + 2) / 3) % 2 ^ 32 ≡ 4 * ((length xs + 2) / 3) = omega arith in
    let enough : ltb buff_len (4 * ((length xs + 2) / 3)) ≡ false = ground arith in
    rw (no_overflow, fits, enough) (ap (λ ys. (ok, ys)) (encode_groups-coded xs))

load-some : (cs : List ℕ) (i x : ℕ) → get_elem? cs i ≡ some x → load cs i ≡ done x
load-some cs i x e = rw (e, load)

without_pads :
    (n r m : ℕ)
    → n % 3 ≡ r
    → m ≡ 4 * ((n + 2) / 3)
    → m / 4 * 3 - (if ltb 0 (mod_table r) then 1 else 0) - (if ltb 1 (mod_table r) then 1 else 0)
      ≡ n
without_pads n zero m h e = omega arith
without_pads n (suc zero) m h e = omega arith
without_pads n (suc (suc zero)) m h e = omega arith
without_pads n (suc (suc (suc r))) m h e = let never : 0 < 0 = omega arith in elim never [ ]

decoded_len-coded :
    (x : ℕ) (xs : List ℕ)
    → length (x ∷ xs) + 2 < 2 ^ 31
    → decoded_len (coded (x ∷ xs)) ≡ done (length (x ∷ xs))
unfolding decoded_len
decoded_len-coded x xs small =
    let cs = coded (x ∷ xs) in
    let size = length-coded (x ∷ xs) in
    let (a, b, e1, e2, p1, p2) = coded-EndsWith x xs in
    let at_1 : (length cs + 2 ^ 32 - 1) % 2 ^ 32 ≡ length cs - 1 = omega arith in
    let at_2 : (length cs + 2 ^ 32 - 2) % 2 ^ 32 ≡ length cs - 2 = omega arith in
    rw (at_1, at_2, load-some cs (length cs - 1) a e1, load-some cs (length cs - 2) b e2, p1, p2)
      (ap done (without_pads (length (x ∷ xs)) (length (x ∷ xs) % 3) (length cs) refl size))

-- Encoding one byte or more, less than 2 ^ 31 - 2, into an array that is large enough returns
-- OK, and decoding what was written into an array with room for the bytes returns OK and the
-- same bytes.
pub decode-encode :
    (x : ℕ) (xs : List ℕ) (buff_len buff_len' : ℕ)
    → AllBytes (x ∷ xs)
    → length (x ∷ xs) + 2 < 2 ^ 31
    → 4 * ((length (x ∷ xs) + 2) / 3) ≤ buff_len
    → length (x ∷ xs) ≤ buff_len'
    → let (r, cs) = encode buff_len (x ∷ xs) in (r ≡ ok) × (decode buff_len' cs ≡ done (ok, x ∷ xs))
unfolding decode
decode-encode x xs buff_len buff_len' bytes small room room' =
    let cs = coded (x ∷ xs) in
    let quads : length cs % 4 ≡ 0 = omega (arith, length-coded (x ∷ xs)) in
    let whole : (length cs % 4 == 0) ≡ true = rw quads in
    let fits : 4 * ((length xs + 2) / 3) % 2 ^ 32 ≡ 4 * ((length xs + 2) / 3) = omega arith in
    let enough : ltb buff_len' (length (x ∷ xs)) ≡ false = ground arith in
    rw (encode-coded buff_len (x ∷ xs) (omega arith) room) (
      refl,
      rw (whole, decoded_len-coded x xs small, enough)
          (ap (λ ys. done (ok, ys)) (decode_groups-coded (x ∷ xs) bytes)),
    )

-- The decoder reads outside the array when it is given no character at all.
decode_empty_faults : (buff_len : ℕ) → decode buff_len [] ≡ fault
unfolding decode decoded_len
decode_empty_faults buff_len = refl
