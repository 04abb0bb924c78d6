-- ===== src/FtmList/Links.antt =====
-- Segments of the ring of lib/ftm_list.c, and what linking and unlinking an entry does to them.
use catchb.Base.{ℕ, ◌≡◌, ◌≢◌, refl, ap, Bool, true, false, ◌||◌, List, [], ◌∷◌, ◌++◌, arith, ◌==◌}
use catchb.FtmList.{update}

abbrev pub has : ℕ → List ℕ → Bool
has a [] = false
has a (x ∷ xs) = (a == x) || has a xs

infix 40 ◌∉◌
abbrev pub ◌∉◌ : ℕ → List ℕ → Type 0
a ∉ xs = has a xs ≡ false

abbrev pub AllDistinct : List ℕ → Type 0
AllDistinct [] = Unit {0}
AllDistinct (x ∷ xs) = (x ∉ xs) × AllDistinct xs

-- From `a` the links lead through `xs` to `b`, and back.
abbrev pub Links : (next prev : ℕ → ℕ) → ℕ → List ℕ → ℕ → Type 0
Links next prev a [] b = (next a ≡ b) × (prev b ≡ a)
Links next prev a (x ∷ xs) b = (next a ≡ x) × (prev x ≡ a) × Links next prev x xs b

-- The entry before the end of a segment.
abbrev pub before : ℕ → List ℕ → ℕ
before a [] = a
before a (x ∷ xs) = before x xs

-- The entry at the start of a segment.
abbrev pub first : List ℕ → ℕ → ℕ
first [] b = b
first (x ∷ xs) b = x

module _ (next prev : ℕ → ℕ) where
  pub next-first : (a b : ℕ) (xs : List ℕ) → Links next prev a xs b → next a ≡ first xs b
  next-first a b [] h = h.0
  next-first a b (x ∷ xs) h = h.0

  pub prev-before :
      (a b : ℕ) (us vs : List ℕ) → Links next prev a (us ++ vs) b → prev (first vs b) ≡ before a us
  prev-before a b [] [] h = h.1
  prev-before a b [] (v ∷ vs) h = h.1
  prev-before a b (u ∷ us) vs h = prev-before u b us vs h.2

  pub next-before :
      (a b : ℕ) (us vs : List ℕ) → Links next prev a (us ++ vs) b → next (before a us) ≡ first vs b
  next-before a b [] vs h = next-first a b vs h
  next-before a b (u ∷ us) vs h = next-before u b us vs h.2

  pub next-after :
      (a b e : ℕ) (us vs : List ℕ) → Links next prev a (us ++ e ∷ vs) b → next e ≡ first vs b
  next-after a b e [] vs h = next-first e b vs h.2
  next-after a b e (u ∷ us) vs h = next-after u b e us vs h.2

  -- A change that spares the links of a segment keeps it.
  Links-frame :
      (next' prev' : ℕ → ℕ) (a b : ℕ) (xs : List ℕ)
      → ((x : ℕ) → has x (a ∷ xs) ≡ true → next' x ≡ next x)
      → ((x : ℕ) → has x (b ∷ xs) ≡ true → prev' x ≡ prev x)
      → Links next prev a xs b
      → Links next' prev' a xs b
  Links-frame next' prev' a b [] hn hp h = ground (arith, hn a, hp b)
  Links-frame next' prev' a b (x ∷ xs) hn hp h = (
    ground (arith, hn a),
    ground (arith, hp x),
    Links-frame next' prev' x b xs (λ y i. hn y (ground arith)) (λ y i. hp y (ground arith)) h.2,
  )

pub has-append : (a : ℕ) (xs ys : List ℕ) → has a (xs ++ ys) ≡ (has a xs || has a ys)
has-append a [] ys = refl
has-append a (x ∷ xs) ys = ground (arith, has-append a xs ys)

has-before : (a : ℕ) (us : List ℕ) → has (before a us) (a ∷ us) ≡ true
has-before a [] = ground arith
has-before a (u ∷ us) = ground (arith, has-before u us)

has-first : (b : ℕ) (vs : List ℕ) → has (first vs b) (b ∷ vs) ≡ true
has-first b [] = ground arith
has-first b (v ∷ vs) = ground arith

-- Members of disjoint lists differ.
ne_of_has : (x y : ℕ) (xs : List ℕ) → has x xs ≡ true → y ∉ xs → x ≢ y
ne_of_has x y xs h k e = cc (ap (λ z. has z xs) e)

AllDistinct-append :
    (us vs : List ℕ)
    → AllDistinct (us ++ vs)
    → AllDistinct us × AllDistinct vs × ((x : ℕ) → has x us ≡ true → x ∉ vs)
AllDistinct-append [] vs d = (tt, d, λ x h. cc)
AllDistinct-append (u ∷ us) vs d =
    let (d1, d2, apart) = AllDistinct-append us vs d.1 in
    (
      (ground (arith, has-append u us vs), d1),
      d2,
      λ x h. ground (arith, has-append u us vs, apart x),
    )

-- Linking `e` in between splits a segment there.
pub Links-link :
    (next prev : ℕ → ℕ) (a b e p q : ℕ) (us vs : List ℕ)
    → Links next prev a (us ++ vs) b
    → p ≡ before a us
    → q ≡ first vs b
    → AllDistinct (us ++ vs)
    → a ∉ us ++ vs
    → b ∉ us ++ vs
    → e ∉ a ∷ b ∷ (us ++ vs)
    → Links (update (update next e q) p e) (update (update prev e p) q e) a (us ++ e ∷ vs) b
Links-link next prev a b e p q [] [] h hp hq d ha hb he = ground arith
Links-link next prev a b e p q [] (v ∷ vs) h hp hq d ha hb he = (
  ground arith,
  ground arith,
  (
    ground arith,
    ground arith,
    Links-frame next prev (update (update next e q) p e) (update (update prev e p) q e) v b vs
        (λ x i. ground (arith, ne_of_has x p (v ∷ vs), ne_of_has x e (v ∷ vs)))
        (λ x i. ground (arith, ne_of_has x e (b ∷ vs), ne_of_has x q (b ∷ vs))) h.2,
  ),
)
Links-link next prev a b e p q (u ∷ us) vs h hp hq d ha hb he =
    let (d1, d2, apart) = AllDistinct-append (u ∷ us) vs d in
    let inside = has-before u us in
    let last = has-first b vs in
    (
      ground (arith, ne_of_has p a (u ∷ us), has-append a us vs),
      ground (arith, ne_of_has q u (b ∷ vs), has-append u us vs),
      Links-link next prev u b e p q us vs h.2 hp hq d.1 d.0 (ground arith) (ground arith),
    )

-- Unlinking an entry joins the segments on its sides.
pub Links-unlink :
    (next prev : ℕ → ℕ) (a b e p q : ℕ) (us vs : List ℕ)
    → Links next prev a (us ++ e ∷ vs) b
    → p ≡ before a us
    → q ≡ first vs b
    → AllDistinct (us ++ e ∷ vs)
    → a ∉ us ++ e ∷ vs
    → b ∉ us ++ e ∷ vs
    → Links (update next p q) (update prev q p) a (us ++ vs) b
Links-unlink next prev a b e p q [] [] h hp hq d ha hb = ground arith
Links-unlink next prev a b e p q [] (v ∷ vs) h hp hq d ha hb = (
  ground arith,
  ground arith,
  Links-frame next prev (update next p q) (update prev q p) v b vs
      (λ x i. ground (arith, ne_of_has x p (v ∷ vs)))
      (λ x i. ground (arith, ne_of_has x q (b ∷ vs))) h.2.2,
)
Links-unlink next prev a b e p q (u ∷ us) vs h hp hq d ha hb =
    let (d1, d2, apart) = AllDistinct-append (u ∷ us) (e ∷ vs) d in
    let inside = has-before u us in
    let last = has-first b vs in
    (
      ground (arith, ne_of_has p a (u ∷ us), has-append a us (e ∷ vs)),
      ground (arith, ne_of_has q u (b ∷ vs), has-append u us (e ∷ vs)),
      Links-unlink next prev u b e p q us vs h.2 hp hq d.1 d.0 (ground arith),
    )
