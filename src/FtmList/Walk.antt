-- ===== src/FtmList/Walk.antt =====
-- Where the loops of lib/ftm_list.c stop: at the first entry that passes the test, or at the
-- position asked for, within one round more than the list has entries.
use catchb.Base.{
  ℕ, zero, suc, ◌-◌, ◌<◌, ◌≡◌, refl, Bool, true, false, List, [], ◌∷◌, ◌++◌, arith, length, drop,
}
use catchb.Run.{done}
use catchb.FtmList.{FtmList, head, walk, walk_to}
use catchb.FtmList.Links.{Links, first, ◌∉◌, next-first}

abbrev pub AllLive : (ℕ → Bool) → List ℕ → Type 0
AllLive live [] = Unit {0}
AllLive live (x ∷ xs) = (live x ≡ true) × AllLive live xs

-- The entries before the first one that passes, and the others.
abbrev pub until : (ℕ → Bool) → List ℕ → List ℕ
until test [] = []
until test (x ∷ xs) = elim (test x) [ true ↦ [] | false ↦ x ∷ until test xs ]

abbrev pub onwards : (ℕ → Bool) → List ℕ → List ℕ
onwards test [] = []
onwards test (x ∷ xs) = elim (test x) [ true ↦ x ∷ xs | false ↦ onwards test xs ]

pub until-append-onwards : (test : ℕ → Bool) (xs : List ℕ) → until test xs ++ onwards test xs ≡ xs
until-append-onwards test [] = refl
until-append-onwards test (x ∷ xs) = ground (arith, until-append-onwards test xs)

module _ (l : FtmList) where
  pub walk-onwards :
      (test : ℕ → Bool) (n a e : ℕ) (xs : List ℕ)
      → e ≡ first xs head
      → Links l.next l.prev a xs head
      → AllLive l.live xs
      → head ∉ xs
      → length xs < n
      → walk n l test e ≡ done (first (onwards (λ x. test (l.item x)) xs) head)
  unfolding walk
  walk-onwards test zero a e xs he h live out enough = elim enough [ ]
  walk-onwards test (suc n) a e [] he h live out enough = ground arith
  walk-onwards test (suc n) a e (x ∷ xs) he h live out enough = ground (
    arith,
    walk-onwards test n x (l.next x) xs (next-first l.next l.prev x head xs h.2) h.2 live.1,
  )

  pub walk_to-drop :
      (pos n a e : ℕ) (xs : List ℕ)
      → e ≡ first xs head
      → Links l.next l.prev a xs head
      → AllLive l.live xs
      → head ∉ xs
      → length xs < n
      → walk_to n l pos e ≡ done (first (drop pos xs) head)
  unfolding walk_to
  walk_to-drop pos zero a e xs he h live out enough = elim enough [ ]
  walk_to-drop zero (suc n) a e [] he h live out enough = ground arith
  walk_to-drop zero (suc n) a e (x ∷ xs) he h live out enough = ground arith
  walk_to-drop (suc pos) (suc n) a e [] he h live out enough = ground arith
  walk_to-drop (suc pos) (suc n) a e (x ∷ xs) he h live out enough =
      let back : suc pos - 1 ≡ pos = omega arith in
      ground (
        arith,
        back,
        walk_to-drop pos n x (l.next x) xs (next-first l.next l.prev x head xs h.2) h.2 live.1,
      )
