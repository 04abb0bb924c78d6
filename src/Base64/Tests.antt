-- ===== src/Base64/Tests.antt =====
-- Runs of lib/ftm_base64.c.
use catchb.Base.{◌≡◌, refl, [], ◌∷◌, arith}
use catchb.Run.{done}
use catchb.Ret.{ok, invalid_arguments, buffer_too_small}
use catchb.Base64.{encode, decode}
use catchb.Base64.RoundTrip.{decode-encode}

-- "M" and "Ma" in base 64.
encodes :
    (encode 4 (77 ∷ []) ≡ (ok, 84 ∷ 81 ∷ 61 ∷ 61 ∷ []))
    × (encode 4 (77 ∷ 97 ∷ []) ≡ (ok, 84 ∷ 87 ∷ 69 ∷ 61 ∷ []))
    × (encode 3 (77 ∷ []) ≡ (buffer_too_small, []))
unfolding encode
encodes = (refl, refl, refl)

rejects : decode 9 (84 ∷ 81 ∷ 61 ∷ []) ≡ done (invalid_arguments, [])
unfolding decode
rejects = refl

decode-encode_example :
    let (r, cs) = encode 8 (77 ∷ 97 ∷ 110 ∷ 0 ∷ []) in
    (r ≡ ok) × (decode 4 cs ≡ done (ok, 77 ∷ 97 ∷ 110 ∷ 0 ∷ []))
decode-encode_example =
    decode-encode 77 (97 ∷ 110 ∷ 0 ∷ []) 8 4
      (omega arith, (omega arith, (omega arith, (omega arith, tt)))) (omega arith) (omega arith)
      (omega arith)
