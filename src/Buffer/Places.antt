-- ===== src/Buffer/Places.antt =====
-- Places in the ring of lib/ftm_buffer.c, and sequences read off a function.
use native.Mathlib.Nat.{mod-eq_of_lt, mod-eq-sub-mod}
use catchb.Base.{
  ℕ, zero, suc, ◌+◌, ◌-◌, ◌%◌, ◌<◌, ◌≤◌, ◌≡◌, refl, ap, ◌∙◌, inl, inr, List, [], ◌∷◌, ◌++◌, arith,
  ltb, if◌then◌else◌, Bool-cases, take, drop, length, ltb→lt, get_elem?, some, none,
}

-- One round at most.
abbrev pub wrap : (size x : ℕ) → ℕ
wrap size x = if ltb x size then x else x - size

pub mod-wrap : (size x : ℕ) → x < size + size → x % size ≡ wrap size x
mod-wrap size x h = elim (Bool-cases (ltb x size)) [
  | inl below ↦ rw below (mod-eq_of_lt (ltb→lt x size below))
  | inr above ↦
      let high : size ≤ x = ground arith in
      let low : x - size < size = omega arith in rw above (mod-eq-sub-mod high ∙ mod-eq_of_lt low)
]

-- The first `n` values of a function.
abbrev pub values : (ℕ → ℕ) → ℕ → List ℕ
values f zero = []
values f (suc n) = f 0 ∷ values (λ i. f (1 + i)) n

pub values_ext : (f g : ℕ → ℕ) (n : ℕ) → ((i : ℕ) → i < n → f i ≡ g i) → values f n ≡ values g n
values_ext f g zero h = refl
values_ext f g (suc n) h =
    ground
      (arith, h 0, values_ext (λ i. f (1 + i)) (λ i. g (1 + i)) n (λ i k. h (1 + i) (omega arith)))

values_eq :
    (f g : ℕ → ℕ) (n m : ℕ) → n ≡ m → ((i : ℕ) → i < n → f i ≡ g i) → values f n ≡ values g m
values_eq f g n m e h = values_ext f g n h ∙ ap (values g) e

pub length-values : (f : ℕ → ℕ) (n : ℕ) → length (values f n) ≡ n
length-values f zero = refl
length-values f (suc n) = ap suc (length-values (λ i. f (1 + i)) n)

pub values-append :
    (f g : ℕ → ℕ) (n m : ℕ)
    → values f n ++ values g m ≡ values (λ i. if ltb i n then f i else g (i - n)) (n + m)
values-append f g zero m =
    values_eq g (λ i. if ltb i 0 then f i else g (i - 0)) m (0 + m) (omega arith)
      (λ i h. ground arith)
values-append f g (suc n) m =
    let h : ℕ → ℕ = λ i. if ltb i (suc n) then f i else g (i - suc n) in
    let zeroth : f 0 ≡ h 0 = ground arith in
    ap (◌∷◌ (f 0)) (
      values-append (λ i. f (1 + i)) g n m
      ∙ values_ext (λ i. if ltb i n then f (1 + i) else g (i - n)) (λ i. h (1 + i)) (n + m)
          (λ i k. ground arith))
    ∙ ap (λ x. x ∷ values (λ i. h (1 + i)) (n + m)) zeroth
    ∙ values_eq h h (suc (n + m)) (suc n + m) (omega arith) (λ i k. refl)

pub take-values : (f : ℕ → ℕ) (k n : ℕ) → k ≤ n → take k (values f n) ≡ values f k
take-values f zero n h = refl
take-values f (suc k) zero h = elim h [ ]
take-values f (suc k) (suc n) h = ap (◌∷◌ (f 0)) (take-values (λ i. f (1 + i)) k n (omega arith))

pub drop-values : (f : ℕ → ℕ) (k n : ℕ) → drop k (values f n) ≡ values (λ i. f (k + i)) (n - k)
drop-values f zero n = values_eq f (λ i. f (0 + i)) n (n - 0) (omega arith) (λ i h. ground arith)
drop-values f (suc k) zero =
    values_eq (λ i. f (suc k + i)) (λ i. f (suc k + i)) 0 (0 - suc k) (omega arith) (λ i h. refl)
drop-values f (suc k) (suc n) =
    drop-values (λ i. f (1 + i)) k n
    ∙ values_eq (λ i. f (1 + (k + i))) (λ i. f (suc k + i)) (n - k) (suc n - suc k) (omega arith)
        (λ i h. ground arith)

pub get_elem?-values :
    (f : ℕ → ℕ) (n i : ℕ) → get_elem? (values f n) i ≡ (if ltb i n then some (f i) else none)
get_elem?-values f zero i = ground arith
get_elem?-values f (suc n) zero = ground arith
get_elem?-values f (suc n) (suc i) = ground (arith, get_elem?-values (λ j. f (1 + j)) n i)
