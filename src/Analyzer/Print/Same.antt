-- ===== src/Analyzer/Print/Same.antt =====
-- What the text of a fingerprint of lib/ftm_analyzer.c tells apart.
use catchb.Base.{
  ℕ, zero, suc, ◌+◌, ◌-◌, ◌*◌, ◌/◌, ◌%◌, ◌^◌, ◌<◌, ◌≡◌, ◌↔◌, refl, sym, ap, ◌∙◌, Bool, true, false,
  List, [], ◌∷◌, ◌++◌, Text, codes, inl, inr, arith, Bool-cases, ltb,
}
use catchb.Analyzer.Print.{
  scanned, decimal, tenths, state, port_text, more_ports, ports_text, hash_data,
}
use native.Mathlib.Nat.{pow-succ'}
use mathlib.Core.List.{append_assoc, append_cancel_left, append_cancel_right}
use mathlib.Core.Path.{ap₂}

-- The number that digits stand for, a point left out.
number_from : ℕ → Text → ℕ
number_from n [] = n
number_from n (c ∷ t) = number_from (n * 10 + (c - b'0')) t

number_from-append : (n : ℕ) (s t : Text) → number_from n (s ++ t) ≡ number_from (number_from n s) t
unfolding number_from
number_from-append n [] t = refl
number_from-append n (c ∷ s) t = number_from-append (n * 10 + (c - b'0')) s t

number_from-decimal : (k n : ℕ) → n < 10 ^ k → number_from 0 (decimal k n) ≡ n
unfolding number_from decimal
number_from-decimal zero n h = omega (arith, h)
number_from-decimal (suc k) n h =
    let e : 10 ^ suc k ≡ 10 * 10 ^ k = pow-succ' 10 k in
    let front = number_from-decimal k (n / 10) (omega (arith, h, e)) in
    elim (Bool-cases (ltb n 10)) [
      | inl small ↦ rw small (ground arith)
      | inr large ↦ rw large (
          number_from-append 0 (decimal k (n / 10)) ((b'0' + n % 10) ∷ []) ∙ rw front (omega arith))
    ]

-- A score can be read off its text.
tenths-injective : (v w : ℕ) → v < 10 ^ 11 → w < 10 ^ 11 → tenths v ≡ tenths w → v ≡ w
unfolding tenths number_from
tenths-injective v w small small' e =
    omega (arith, read v small, read w small', ap (number_from 0) e)
  where
    read : (n : ℕ) → n < 10 ^ 11 → number_from 0 (tenths n) ≡ n / 10 * 100 + n % 10
    read n h =
        number_from-append 0 (decimal 10 (n / 10)) (b'.' ∷ decimal 1 (n % 10))
        ∙ rw (number_from-decimal 10 (n / 10) (omega (arith, h)))
            (let digit : ltb (n % 10) 10 ≡ true = ground arith in rw digit (omega arith))

port_text-cancel :
    (p : ℕ) (a b : Bool) (r s : Text)
    → port_text (p, a) ++ r ≡ port_text (p, b) ++ s
    → (a ≡ b) × (r ≡ s)
unfolding port_text
port_text-cancel p a b r s h = go a b (
    append_cancel_left (decimal 5 p) _ _ (
      sym (append_assoc (decimal 5 p) (codes " - " ++ state a) r)
      ∙ h
      ∙ append_assoc (decimal 5 p) (codes " - " ++ state b) s))
  where
    go :
        (a b : Bool)
        → (codes " - " ++ state a) ++ r ≡ (codes " - " ++ state b) ++ s
        → (a ≡ b) × (r ≡ s)
    go true true e = (refl, cc)
    go false false e = (refl, cc)
    go true false e = ground arith
    go false true e = ground arith

module _ (f g : ℕ → Bool) where
  port-cancel :
      (p : ℕ) (ps : List ℕ) (m n r s : Text)
      → (m ++ r ≡ n ++ s → (scanned f ps ≡ scanned g ps) × (r ≡ s))
      → (port_text (p, f p) ++ m) ++ r ≡ (port_text (p, g p) ++ n) ++ s
      → (scanned f (p ∷ ps) ≡ scanned g (p ∷ ps)) × (r ≡ s)
  port-cancel p ps m n r s rest h =
      let (answer, left) =
        port_text-cancel p (f p) (g p) (m ++ r) (n ++ s) (
          sym (append_assoc (port_text (p, f p)) m r)
          ∙ h
          ∙ append_assoc (port_text (p, g p)) n s) in
      let (more, e) = rest left in (ap₂ ◌∷◌ (ap (λ b. (p, b)) answer) more, e)

  more_ports-cancel :
      (ps : List ℕ) (r s : Text)
      → more_ports (scanned f ps) ++ r ≡ more_ports (scanned g ps) ++ s
      → (scanned f ps ≡ scanned g ps) × (r ≡ s)
  unfolding more_ports
  more_ports-cancel [] r s h = (refl, h)
  more_ports-cancel (p ∷ ps) r s h =
      port-cancel p ps (more_ports (scanned f ps)) (more_ports (scanned g ps)) r s
        (more_ports-cancel ps r s) (append_cancel_left (codes ", ") _ _ h)

  ports_text-cancel :
      (ps : List ℕ) (r s : Text)
      → ports_text (scanned f ps) ++ r ≡ ports_text (scanned g ps) ++ s
      → (scanned f ps ≡ scanned g ps) × (r ≡ s)
  unfolding ports_text
  ports_text-cancel [] r s h = (refl, h)
  ports_text-cancel (p ∷ ps) r s h =
      port-cancel p ps (more_ports (scanned f ps)) (more_ports (scanned g ps)) r s
        (more_ports-cancel ps r s) h

  -- For one camera's address and MAC and the same ports, with scores below 10 ^ 11 tenths, the
  -- texts that are hashed are equal exactly if each port answers alike and the scores are
  -- equal.
  pub hash_data-same :
      (ip mac : Text) (ps : List ℕ) (v w : ℕ)
      → v < 10 ^ 11
      → w < 10 ^ 11
      → (hash_data ip mac (scanned f ps) v ≡ hash_data ip mac (scanned g ps) w)
        ↔ ((scanned f ps ≡ scanned g ps) × (v ≡ w))
  unfolding hash_data
  hash_data-same ip mac ps v w small small' = (
    (λ h.
        let a = append_cancel_left ip _ _ (append_cancel_left (codes "[ip : ") _ _ h) in
        let b = append_cancel_left mac _ _ (append_cancel_left (codes ", mac : ") _ _ a) in
        let (ports, c) = ports_text-cancel ps _ _ (append_cancel_left (codes "] [port :") _ _ b) in
        let d =
          append_cancel_right (tenths v) (tenths w) (codes "]")
            (append_cancel_left (codes "][score : ") _ _ c) in
        (ports, tenths-injective v w small small' d)),
    (λ (ports, score). rw (ports, score) refl),
  )
