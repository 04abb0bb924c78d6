-- ===== src/Table/Disjoint.antt =====
-- Two tests that no value passes both: what is changed or dropped for one stays for the other.
use catchb.Base.{◌≡◌, refl, Bool, true, false, List, [], ◌∷◌, arith}
use catchb.Table.Split.{first?, set_first, drop_first}

module _ {A : Type 0} (p q : A → Bool) (apart : (x : A) → p x ≡ true → q x ≡ false) where
  pub first?-set_first_other :
      (w : A) (vs : List A) → p w ≡ true → first? q (set_first p w vs) ≡ first? q vs
  first?-set_first_other w [] hit = refl
  first?-set_first_other w (x ∷ vs) hit =
      ground (arith, first?-set_first_other w vs hit, apart w hit, apart x)

  pub first?-drop_first_other : (vs : List A) → first? q (drop_first p vs) ≡ first? q vs
  first?-drop_first_other [] = refl
  first?-drop_first_other (x ∷ vs) = ground (arith, first?-drop_first_other vs, apart x)

  pub drop_first-set_first_other :
      (w : A) (vs : List A)
      → p w ≡ true
      → drop_first q (set_first p w vs) ≡ set_first p w (drop_first q vs)
  drop_first-set_first_other w [] hit = refl
  drop_first-set_first_other w (x ∷ vs) hit =
      ground (arith, drop_first-set_first_other w vs hit, apart w hit, apart x)

  pub drop_first-drop_first_other :
      (vs : List A) → drop_first q (drop_first p vs) ≡ drop_first p (drop_first q vs)
  drop_first-drop_first_other [] = refl
  drop_first-drop_first_other (x ∷ vs) = ground (arith, drop_first-drop_first_other vs, apart x)

pub drop_first-set_first :
    {A : Type 0} (q : A → Bool) (w : A) (vs : List A)
    → q w ≡ true
    → drop_first q (set_first q w vs) ≡ drop_first q vs
drop_first-set_first q w [] hit = refl
drop_first-set_first q w (x ∷ vs) hit = ground (arith, drop_first-set_first q w vs hit)
