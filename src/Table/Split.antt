-- ===== src/Table/Split.antt =====
-- A sequence cut at its first item that passes a test.
use catchb.Base.{
  ℕ, ◌≡◌, refl, ap, Bool, true, false, Option, none, some, List, [], ◌∷◌, ◌++◌, map, Bool-cases,
  inl, inr, if◌then◌else◌,
}
use catchb.FtmList.Walk.{onwards}

abbrev pub NoneOf {ℓ} : {A : Type ℓ} → (A → Bool) → List A → Type 0
NoneOf test [] = Unit {0}
NoneOf test (x ∷ xs) = (test x ≡ false) × NoneOf test xs

pub data Split (test : ℕ → Bool) (xs : List ℕ) : Type 0 where
  nowhere : NoneOf test xs → onwards test xs ≡ [] → Split test xs
  at :
      (us : List ℕ) (x : ℕ) (vs : List ℕ)
      → xs ≡ us ++ x ∷ vs
      → NoneOf test us
      → test x ≡ true
      → onwards test xs ≡ x ∷ vs
      → Split test xs

Split-cons :
    (test : ℕ → Bool) (x : ℕ) (xs : List ℕ) → test x ≡ false → Split test xs → Split test (x ∷ xs)
Split-cons test x xs h (nowhere all e) = nowhere (h, all) (rw (h, onwards) e)
Split-cons test x xs h (at us y vs e clear y_passes o) =
    at (x ∷ us) y vs (ap (◌∷◌ x) e) (h, clear) y_passes (rw (h, onwards) o)

pub split : (test : ℕ → Bool) (xs : List ℕ) → Split test xs
split test [] = nowhere tt refl
split test (x ∷ xs) = elim (Bool-cases (test x)) [
  | inl passes ↦ at [] x xs refl tt passes (rw (passes, onwards))
  | inr fails ↦ Split-cons test x xs fails (split test xs)
]

pub NoneOf-map :
    {A : Type 0} (f : ℕ → A) (test : A → Bool) (xs : List ℕ)
    → NoneOf (λ x. test (f x)) xs
    → NoneOf test (map f xs)
NoneOf-map f test [] h = tt
NoneOf-map f test (x ∷ xs) h = (h.0, NoneOf-map f test xs h.1)

-- The first value that passes, and the sequence with it replaced or left out.
module _ {A : Type 0} (test : A → Bool) where
  abbrev pub first? : List A → Option A
  first? [] = none
  first? (x ∷ xs) = if test x then some x else first? xs

  abbrev pub set_first : A → List A → List A
  set_first w [] = []
  set_first w (x ∷ xs) = if test x then w ∷ xs else x ∷ set_first w xs

  abbrev pub drop_first : List A → List A
  drop_first [] = []
  drop_first (x ∷ xs) = if test x then xs else x ∷ drop_first xs

  pub first?-none : (xs : List A) → NoneOf test xs → first? xs ≡ none
  first?-none [] h = refl
  first?-none (x ∷ xs) h = rw (h.0) (first?-none xs h.1)

  pub first?-at :
      (us : List A) (v : A) (ws : List A)
      → NoneOf test us
      → test v ≡ true
      → first? (us ++ v ∷ ws) ≡ some v
  first?-at [] v ws h hit = rw hit
  first?-at (x ∷ us) v ws h hit = rw (h.0) (first?-at us v ws h.1 hit)

  pub set_first-at :
      (us : List A) (v w : A) (ws : List A)
      → NoneOf test us
      → test v ≡ true
      → set_first w (us ++ v ∷ ws) ≡ us ++ w ∷ ws
  set_first-at [] v w ws h hit = rw hit
  set_first-at (x ∷ us) v w ws h hit = rw (h.0) (ap (◌∷◌ x) (set_first-at us v w ws h.1 hit))

  pub drop_first-at :
      (us : List A) (v : A) (ws : List A)
      → NoneOf test us
      → test v ≡ true
      → drop_first (us ++ v ∷ ws) ≡ us ++ ws
  drop_first-at [] v ws h hit = rw hit
  drop_first-at (x ∷ us) v ws h hit = rw (h.0) (ap (◌∷◌ x) (drop_first-at us v ws h.1 hit))

  -- Behind a sequence in which nothing passes.
  pub drop_first-last :
      (us : List A) (v : A) → first? us ≡ none → test v ≡ true → drop_first (us ++ v ∷ []) ≡ us
  drop_first-last [] v h hit = rw hit
  drop_first-last (x ∷ us) v h hit = elim (Bool-cases (test x)) [
    | inl passes ↦ let never : some x ≡ none = rw passes at h in cc never
    | inr fails ↦ rw fails (ap (◌∷◌ x) (drop_first-last us v (rw fails at h) hit))
  ]

  pub first?-hit : (xs : List A) (v : A) → first? xs ≡ some v → test v ≡ true
  first?-hit [] v h = cc
  first?-hit (x ∷ xs) v h = elim (Bool-cases (test x)) [
    | inl passes ↦
        let same : some x ≡ some v = rw passes at h in let e : x ≡ v = cc same in rw e at passes
    | inr fails ↦ first?-hit xs v (rw fails at h)
  ]

  pub first?-set_first :
      (xs : List A) (v w : A)
      → first? xs ≡ some v
      → test w ≡ true
      → first? (set_first w xs) ≡ some w
  first?-set_first [] v w h hit = cc
  first?-set_first (x ∷ xs) v w h hit = elim (Bool-cases (test x)) [
    | inl passes ↦ rw passes (rw hit)
    | inr fails ↦ rw fails (rw fails (first?-set_first xs v w (rw fails at h) hit))
  ]

  pub drop_first-none : (xs : List A) → first? xs ≡ none → drop_first xs ≡ xs
  drop_first-none [] h = refl
  drop_first-none (x ∷ xs) h = elim (Bool-cases (test x)) [
    | inl passes ↦ let never : some x ≡ none = rw passes at h in cc never
    | inr fails ↦ rw fails (ap (◌∷◌ x) (drop_first-none xs (rw fails at h)))
  ]

-- It is the first that passes.
pub first?-last :
    {A : Type 0} (test : A → Bool) (us : List A) (v : A)
    → first? test us ≡ none
    → test v ≡ true
    → first? test (us ++ v ∷ []) ≡ some v
first?-last test [] v h hit = rw hit
first?-last test (x ∷ us) v h hit = elim (Bool-cases (test x)) [
  | inl passes ↦ let never : some x ≡ none = rw passes at h in cc never
  | inr fails ↦ rw fails (first?-last test us v (rw fails at h) hit)
]

pub set_first-last :
    {A : Type 0} (test : A → Bool) (us : List A) (v w : A)
    → first? test us ≡ none
    → test v ≡ true
    → set_first test w (us ++ v ∷ []) ≡ us ++ w ∷ []
set_first-last test [] v w h hit = rw hit refl
set_first-last test (x ∷ us) v w h hit = elim (Bool-cases (test x)) [
  | inl passes ↦ let never : some x ≡ none = rw passes at h in cc never
  | inr fails ↦ rw fails (ap (◌∷◌ x) (set_first-last test us v w (rw fails at h) hit))
]
