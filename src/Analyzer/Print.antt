-- ===== src/Analyzer/Print.antt =====
-- The text of a camera's fingerprint in `FTM_ANALYZER_process` of lib/ftm_analyzer.c. `pHashData` has
-- room for all of it.
pub mod Same
use catchb.Base.{
  ℕ, zero, suc, ◌+◌, ◌/◌, ◌%◌, Bool, true, false, Option, List, [], ◌∷◌, ◌++◌, map, Text, codes,
  ltb, if◌then◌else◌,
}
use catchb.Hash.{given, hash_sha1}

-- `"%d"` of a number of `k` digits at most, which is not negative.
unfoldable pub decimal : (k : ℕ) → ℕ → Text
decimal zero n = []
decimal (suc k) n =
    let front = decimal k (n / 10) in
    let digit = b'0' + n % 10 in if ltb n 10 then digit ∷ [] else front ++ digit ∷ []

-- `"%.1f"` of a score, which counts tenths.
unfoldable pub tenths : ℕ → Text
unfolding decimal
tenths v = decimal 10 (v / 10) ++ b'.' ∷ decimal 1 (v % 10)

abbrev pub state : Bool → Text
state true = codes "open"
state false = codes "close"

-- A port of 16 bits and whether it answered.
unfoldable pub port_text : ℕ × Bool → Text
unfolding decimal
port_text (port, opened) = decimal 5 port ++ (codes " - " ++ state opened)

unfoldable pub more_ports : List (ℕ × Bool) → Text
unfolding port_text
more_ports [] = []
more_ports (x ∷ xs) = codes ", " ++ (port_text x ++ more_ports xs)

unfoldable pub ports_text : List (ℕ × Bool) → Text
unfolding port_text more_ports
ports_text [] = []
ports_text (x ∷ xs) = port_text x ++ more_ports xs

-- The ports of the configuration with what they answer.
abbrev pub scanned : (is_open : ℕ → Bool) → (ports : List ℕ) → List (ℕ × Bool)
scanned is_open ports = map (λ p. (p, is_open p)) ports

-- `pHashData`
unfoldable pub hash_data : (ip mac : Text) → List (ℕ × Bool) → (score : ℕ) → Text
unfolding ports_text tenths
hash_data ip mac ports score =
    codes "[ip : "
    ++ (ip
        ++ (codes ", mac : "
            ++ (mac
                ++ (codes "] [port :"
                    ++ (ports_text ports ++ (codes "][score : " ++ (tenths score ++ codes "]")))))))

-- `pHashValue`, which is cleared first.
unfoldable pub fingerprint :
    (digest : Text → Option (List ℕ)) → (ip mac : Text) → List (ℕ × Bool) → (score : ℕ) → Text
unfolding hash_data hash_sha1
fingerprint digest ip mac ports score = given (hash_sha1 digest (hash_data ip mac ports score) 64).1
