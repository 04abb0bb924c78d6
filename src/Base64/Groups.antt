-- ===== src/Base64/Groups.antt =====
-- The encoder's output of lib/ftm_base64.c group by group, and the decoder's loop on it.
use catchb.Base.{
  ℕ, zero, suc, ◌+◌, ◌-◌, ◌*◌, ◌/◌, ◌%◌, ◌^◌, ◌<◌, ◌≤◌, ◌≡◌, refl, ap, ◌∙◌, List, [], ◌∷◌, ◌++◌,
  arith, length, take, get_elem?, some, ◌==◌, ltb, length-append,
}
use catchb.Base64.{
  pad, encode_char, quad, encode_groups, mod_table, overwrite_end, sextet, triple, decode_groups,
}
use catchb.Base64.Table.{sextet-encode_char}

abbrev pub AllBytes : List ℕ → Type 0
AllBytes [] = Unit {0}
AllBytes (x ∷ xs) = (x < 256) × AllBytes xs

-- The output with its padding, by groups of three bytes.
abbrev pub coded : List ℕ → List ℕ
coded [] = []
coded (a ∷ []) =
    encode_char (a * 2 ^ 16 / 2 ^ 18 % 64) ∷ encode_char (a * 2 ^ 16 / 2 ^ 12 % 64) ∷ pad ∷ pad ∷ []
coded (a ∷ b ∷ []) =
    let v = a * 2 ^ 16 + b * 2 ^ 8 in
    encode_char (v / 2 ^ 18 % 64)
    ∷ encode_char (v / 2 ^ 12 % 64)
    ∷ encode_char (v / 2 ^ 6 % 64)
    ∷ pad
    ∷ []
coded (a ∷ b ∷ c ∷ rest) = quad (a * 2 ^ 16 + b * 2 ^ 8 + c) ++ coded rest

overwrite_end-append :
    (n : ℕ) (xs ys : List ℕ) → n ≤ length ys → overwrite_end n (xs ++ ys) ≡ xs ++ overwrite_end n ys
unfolding overwrite_end
overwrite_end-append n [] ys h = refl
overwrite_end-append n (x ∷ xs) ys h =
    let room : n ≤ length (xs ++ ys) = omega (arith, length-append xs ys) in
    let less : suc (length (xs ++ ys)) - n ≡ suc (length (xs ++ ys) - n) = omega arith in
    rw less (ap (◌∷◌ x) (overwrite_end-append n xs ys h))

few_pads : (xs : List ℕ) → mod_table (length xs % 3) ≤ length (encode_groups xs)
unfolding encode_groups quad
few_pads [] = omega arith
few_pads (a ∷ []) = omega arith
few_pads (a ∷ b ∷ []) = omega arith
few_pads (a ∷ b ∷ c ∷ rest) =
    let same : length (a ∷ b ∷ c ∷ rest) % 3 ≡ length rest % 3 = omega arith in
    rw same (omega (arith, few_pads rest))

pub encode_groups-coded :
    (xs : List ℕ) → overwrite_end (mod_table (length xs % 3)) (encode_groups xs) ≡ coded xs
unfolding overwrite_end encode_groups quad
encode_groups-coded [] = refl
encode_groups-coded (a ∷ []) = refl
encode_groups-coded (a ∷ b ∷ []) = refl
encode_groups-coded (a ∷ b ∷ c ∷ rest) =
    let v = a * 2 ^ 16 + b * 2 ^ 8 + c in
    let m = mod_table (length rest % 3) in
    let same : length (a ∷ b ∷ c ∷ rest) % 3 ≡ length rest % 3 = omega arith in
    rw same (
      overwrite_end-append m (quad v) (encode_groups rest) (few_pads rest)
      ∙ ap (λ ys. quad v ++ ys) (encode_groups-coded rest))

pub length-coded : (xs : List ℕ) → length (coded xs) ≡ 4 * ((length xs + 2) / 3)
unfolding quad
length-coded [] = refl
length-coded (a ∷ []) = refl
length-coded (a ∷ b ∷ []) = refl
length-coded (a ∷ b ∷ c ∷ rest) = omega (arith, length-coded rest)

-- The sextets of a value of 24 bits make it up.
quad-value :
    (v : ℕ)
    → v < 2 ^ 24
    → sextet (encode_char (v / 2 ^ 18 % 64)) * 2 ^ 18
        + sextet (encode_char (v / 2 ^ 12 % 64)) * 2 ^ 12
        + sextet (encode_char (v / 2 ^ 6 % 64)) * 2 ^ 6
        + sextet (encode_char (v % 64))
      ≡ v
quad-value v h =
    rw
      (
        (sextet-encode_char (v / 2 ^ 18 % 64) (omega arith)).0,
        (sextet-encode_char (v / 2 ^ 12 % 64) (omega arith)).0,
        (sextet-encode_char (v / 2 ^ 6 % 64) (omega arith)).0,
        (sextet-encode_char (v % 64) (omega arith)).0,
      )
      (omega arith)

cons_eq : {x y : ℕ} {xs ys : List ℕ} → x ≡ y → xs ≡ ys → x ∷ xs ≡ y ∷ ys
cons_eq e e' = cc

take_none : (n : ℕ) → take {A = ℕ} n [] ≡ []
take_none zero = refl
take_none (suc n) = refl

-- The decoder's loop gives the bytes back.
pub decode_groups-coded : (xs : List ℕ) → AllBytes xs → decode_groups (length xs) (coded xs) ≡ xs
unfolding decode_groups triple quad
decode_groups-coded [] h = refl
decode_groups-coded (a ∷ []) (ha, _) =
    let v = a * 2 ^ 16 in
    rw
      (
        (sextet-encode_char (v / 2 ^ 18 % 64) (omega arith)).0,
        (sextet-encode_char (v / 2 ^ 12 % 64) (omega arith)).0,
      )
      (ap (λ x. x ∷ []) (omega arith))
decode_groups-coded (a ∷ b ∷ []) (ha, (hb, _)) =
    let v = a * 2 ^ 16 + b * 2 ^ 8 in
    rw
      (
        (sextet-encode_char (v / 2 ^ 18 % 64) (omega arith)).0,
        (sextet-encode_char (v / 2 ^ 12 % 64) (omega arith)).0,
        (sextet-encode_char (v / 2 ^ 6 % 64) (omega arith)).0,
      )
      (cons_eq (omega arith) (cons_eq (omega arith) refl))
decode_groups-coded (a ∷ b ∷ c ∷ rest) (ha, (hb, (hc, h))) =
    let v = a * 2 ^ 16 + b * 2 ^ 8 + c in
    let left : length (a ∷ b ∷ c ∷ rest) - 3 ≡ length rest = omega arith in
    rw (quad-value v (omega arith), left, take_none (length rest))
      (cons_eq (omega arith)
        (cons_eq (omega arith) (cons_eq (omega arith) (decode_groups-coded rest h))))

-- How many of the last two characters are '=', and that these are there.
abbrev EndsWith : ℕ → List ℕ → Type 0
EndsWith n cs =
    (x : ℕ) × (y : ℕ) × (get_elem? cs (length cs - 1) ≡ some x)
    × (get_elem? cs (length cs - 2) ≡ some y)
    × ((x == pad) ≡ ltb 0 n)
    × ((y == pad) ≡ ltb 1 n)

from_end :
    (k : ℕ) (xs ys : List ℕ)
    → k < length ys
    → get_elem? (xs ++ ys) (length (xs ++ ys) - (1 + k)) ≡ get_elem? ys (length ys - (1 + k))
from_end k [] ys h = refl
from_end k (x ∷ xs) ys h =
    let room : k < length (xs ++ ys) = omega (arith, length-append xs ys) in
    let less : suc (length (xs ++ ys)) - (1 + k) ≡ suc (length (xs ++ ys) - (1 + k)) =
      omega arith in
    rw less (from_end k xs ys h)

pub coded-EndsWith :
    (x : ℕ) (xs : List ℕ) → EndsWith (mod_table (length (x ∷ xs) % 3)) (coded (x ∷ xs))
unfolding quad
coded-EndsWith a [] = (_, _, refl, refl, refl, refl)
coded-EndsWith a (b ∷ []) = (
  _,
  _,
  refl,
  refl,
  refl,
  (sextet-encode_char ((a * 2 ^ 16 + b * 2 ^ 8) / 2 ^ 6 % 64) (omega arith)).1,
)
coded-EndsWith a (b ∷ c ∷ []) =
    let v = a * 2 ^ 16 + b * 2 ^ 8 + c in
    (
      _,
      _,
      refl,
      refl,
      (sextet-encode_char (v % 64) (omega arith)).1,
      (sextet-encode_char (v / 2 ^ 6 % 64) (omega arith)).1,
    )
coded-EndsWith a (b ∷ c ∷ d ∷ rest) =
    let (x, y, e1, e2, p1, p2) = coded-EndsWith d rest in
    let v = a * 2 ^ 16 + b * 2 ^ 8 + c in
    let cs = coded (d ∷ rest) in
    let long : 4 ≤ length cs = omega (arith, length-coded (d ∷ rest)) in
    let same : length (a ∷ b ∷ c ∷ d ∷ rest) % 3 ≡ length (d ∷ rest) % 3 = omega arith in
    (
      x,
      y,
      from_end 0 (quad v) cs (omega arith) ∙ e1,
      from_end 1 (quad v) cs (omega arith) ∙ e2,
      rw same p1,
      rw same p2,
    )
