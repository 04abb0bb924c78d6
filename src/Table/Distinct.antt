-- ===== src/Table/Distinct.antt =====
-- Lists of pointers without repetitions, and taking one of them off.
use catchb.Base.{ℕ, ◌≡◌, refl, List, [], ◌∷◌, ◌++◌, arith, ◌==◌}
use catchb.Run.{done}
use catchb.Ret.{ok}
use catchb.FtmList.{FtmList}
use catchb.FtmList.Access.{remove}
use catchb.FtmList.Links.{AllDistinct, ◌∉◌, has-append}
use catchb.FtmList.Walk.{until, onwards}
use catchb.FtmList.Shows.{Shows}
use catchb.FtmList.Remove.{remove-Shows}
use catchb.Table.{Table}

-- A block of a list without repetitions stands in neither part round it.
pub AllDistinct-left : (p : ℕ) (us vs : List ℕ) → AllDistinct (us ++ p ∷ vs) → p ∉ us
AllDistinct-left p [] vs d = refl
AllDistinct-left p (u ∷ us) vs d =
    ground (arith, has-append u us (p ∷ vs), AllDistinct-left p us vs d.1)

pub AllDistinct-right : (p : ℕ) (us vs : List ℕ) → AllDistinct (us ++ p ∷ vs) → p ∉ vs
AllDistinct-right p [] vs d = d.0
AllDistinct-right p (u ∷ us) vs d = AllDistinct-right p us vs d.1

pub AllDistinct-drop :
    (p : ℕ) (us vs : List ℕ) → AllDistinct (us ++ p ∷ vs) → AllDistinct (us ++ vs)
AllDistinct-drop p [] vs d = d.1
AllDistinct-drop p (u ∷ us) vs d =
    (ground (arith, has-append u us (p ∷ vs), has-append u us vs), AllDistinct-drop p us vs d.1)

pub AllDistinct-last : (p : ℕ) (xs : List ℕ) → AllDistinct xs → p ∉ xs → AllDistinct (xs ++ p ∷ [])
AllDistinct-last p [] d h = (refl, tt)
AllDistinct-last p (x ∷ xs) d h =
    (ground (arith, has-append x xs (p ∷ [])), AllDistinct-last p xs d.1 (ground arith))

until-at :
    (p : ℕ) (us vs : List ℕ)
    → p ∉ us
    → (until (λ d. d == p) (us ++ p ∷ vs) ≡ us) × (onwards (λ d. d == p) (us ++ p ∷ vs) ≡ p ∷ vs)
until-at p [] vs h = (ground arith, ground arith)
until-at p (u ∷ us) vs h =
    let (before, from) = until-at p us vs (ground arith) in (ground arith, ground arith)

pub remove_found :
    {A : Type 0} (t : Table A) (p : ℕ) (us vs : List ℕ)
    → Shows t.list (us ++ p ∷ vs)
    → p ∉ us
    → (l : FtmList) × (remove t.list p ≡ done (ok, l)) × Shows l (us ++ vs)
remove_found t p us vs s out =
    let (before, from) = until-at p us vs out in
    let found = remove-Shows t.list p (us ++ p ∷ vs) s in rw (before, from) at found
