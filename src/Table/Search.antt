-- ===== src/Table/Search.antt =====
-- Searches in a list of pointers, told by what the list holds.
use catchb.Base.{ℕ, ◌≡◌, sym, ap, ◌∙◌, Bool, none, some, List, ◌∷◌, ◌++◌, true}
use catchb.Run.{done}
use catchb.Ret.{ok, object_not_found}
use catchb.Table.{Table, find}
use catchb.Table.Split.{
  first?, set_first, drop_first, first?-none, first?-at, set_first-at, drop_first-at,
}
use catchb.Table.Holds.{Holds, HoldsAt, SameMemory, Finding, absent, present, find-Finding}

-- The search finds the block of `v`.
pub record FoundAt {A : Type 0} (test : A → Bool) (t : Table A) (vs : List A) (v : A) : Type 0 where
  pub after : Table A
  pub us : List A
  pub at : ℕ
  pub ws : List A
  pub runs : find test t ≡ done ((ok, some at), after)
  pub holds : HoldsAt after us at v ws
  pub whole : vs ≡ us ++ v ∷ ws
  pub sets : (w : A) → set_first test w vs ≡ us ++ w ∷ ws
  pub drops : drop_first test vs ≡ us ++ ws
  pub hit : test v ≡ true
  pub same : SameMemory t after

-- It finds nothing.
pub record NotFound {A : Type 0} (test : A → Bool) (t : Table A) (vs : List A) : Type 0 where
  pub after : Table A
  pub runs : find test t ≡ done ((object_not_found, none), after)
  pub holds : Holds after vs
  pub same : SameMemory t after

pub find-FoundAt :
    {A : Type 0} (test : A → Bool) (t : Table A) (vs : List A) (v : A)
    → Holds t vs
    → first? test vs ≡ some v
    → FoundAt test t vs v
find-FoundAt test t vs v h is_first = go (find-Finding test t vs h)
  where
    go : Finding test t vs → FoundAt test t vs v
    go (absent t' clear run k same) =
        let never : none ≡ some v = sym (first?-none test vs clear) ∙ is_first in cc never
    go (present t' us p w ws cut clear hit run k same) =
        let found : first? test vs ≡ some w = rw cut (first?-at test us w ws clear hit) in
        let both : some w ≡ some v = sym found ∙ is_first in
        let e : w ≡ v = cc both in
        record {
          after = t';
          us = us;
          at = p;
          ws = ws;
          runs = run;
          holds = rw e at k;
          whole = cut ∙ ap (λ x. us ++ x ∷ ws) e;
          sets = λ x. rw cut (set_first-at test us w x ws clear hit);
          drops = rw cut (drop_first-at test us w ws clear hit);
          hit = rw e at hit;
          same = same;
        }

pub find-NotFound :
    {A : Type 0} (test : A → Bool) (t : Table A) (vs : List A)
    → Holds t vs
    → first? test vs ≡ none
    → NotFound test t vs
find-NotFound test t vs h no_first = go (find-Finding test t vs h)
  where
    go : Finding test t vs → NotFound test t vs
    go (absent t' clear run k same) = record { after = t'; runs = run; holds = k; same = same }
    go (present t' us p w ws cut clear hit run k same) =
        let found : first? test vs ≡ some w = rw cut (first?-at test us w ws clear hit) in
        let never : some w ≡ none = sym found ∙ no_first in cc never
