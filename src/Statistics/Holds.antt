-- ===== src/Statistics/Holds.antt =====
-- What the statistics list of lib/ftm_catchb.c holds, and its look-ups.
use mathlib.Core.Path.{ap₂}
use catchb.Base.{
  map-drop, ℕ, zero, suc, ◌≡◌, refl, sym, ap, ◌∙◌, true, Bool, List, [], ◌∷◌, ◌++◌, map, arith,
  length, length-map, drop, take, take-append-drop,
}
use catchb.Run.{done}
use catchb.FtmList.{FtmList}
use catchb.FtmList.Access.{count, get_at}
use catchb.FtmList.Links.{AllDistinct}
use catchb.FtmList.Walk.{AllLive}
use catchb.FtmList.Shows.{Shows}
use catchb.FtmList.Read.{Finds, first_of, get_at-Finds}
use catchb.Statistics.{Stat, Statistics}

-- The list shows live blocks, each once, that hold these records.
pub record Holds (s : Statistics) (vs : List Stat) : Type 0 where
  pub blocks : List ℕ
  pub shows : Shows s.list blocks
  pub alive : AllLive s.live blocks
  pub distinct : AllDistinct blocks
  pub records : map s.stat blocks ≡ vs

pub count-Shows : (l : FtmList) (ps : List ℕ) → Shows l ps → (count l).1 ≡ length ps
unfolding count
count-Shows l ps s =
    omega (arith, s.is_list.counted, length-map l.item s.entries, ap length s.items)

pub length-Holds : (s : Statistics) (vs : List Stat) (h : Holds s vs) → length h.blocks ≡ length vs
length-Holds s vs h = sym (length-map s.stat h.blocks) ∙ ap length h.records

-- The list after a look-up.
relist-Holds :
    (s : Statistics) (l : FtmList) (vs : List Stat) (h : Holds s vs)
    → Shows l h.blocks
    → Holds (record s { list = l }) vs
relist-Holds s l vs h k = record {
  blocks = h.blocks;
  shows = k;
  alive = h.alive;
  distinct = h.distinct;
  records = h.records;
}

-- The same with a position in the list: the records before it and those from there on.
pub record HoldsAt (s : Statistics) (us vs : List Stat) : Type 0 where
  pub earlier : List ℕ
  pub later : List ℕ
  pub shows : Shows s.list (earlier ++ later)
  pub alive : AllLive s.live (earlier ++ later)
  pub distinct : AllDistinct (earlier ++ later)
  pub earlier_records : map s.stat earlier ≡ us
  pub later_records : map s.stat later ≡ vs

pub map-append : (f : ℕ → Stat) (xs ys : List ℕ) → map f (xs ++ ys) ≡ map f xs ++ map f ys
map-append f [] ys = refl
map-append f (x ∷ xs) ys = ap (◌∷◌ (f x)) (map-append f xs ys)

map-take : (f : ℕ → Stat) (n : ℕ) (xs : List ℕ) → map f (take n xs) ≡ take n (map f xs)
map-take f zero xs = refl
map-take f (suc n) [] = refl
map-take f (suc n) (x ∷ xs) = ap (◌∷◌ (f x)) (map-take f n xs)

pub HoldsAt-Holds : (s : Statistics) (us vs : List Stat) → HoldsAt s us vs → Holds s (us ++ vs)
HoldsAt-Holds s us vs h = record {
  blocks = h.earlier ++ h.later;
  shows = h.shows;
  alive = h.alive;
  distinct = h.distinct;
  records = map-append s.stat h.earlier h.later ∙ ap₂ ◌++◌ h.earlier_records h.later_records;
}

pub Holds-HoldsAt :
    (s : Statistics) (i : ℕ) (vs : List Stat) → Holds s vs → HoldsAt s (take i vs) (drop i vs)
Holds-HoldsAt s i vs h = record {
  earlier = take i h.blocks;
  later = drop i h.blocks;
  shows = rw take-append-drop h.shows;
  alive = rw take-append-drop h.alive;
  distinct = rw take-append-drop h.distinct;
  earlier_records = map-take s.stat i h.blocks ∙ ap (take i) h.records;
  later_records = sym (map-drop s.stat i h.blocks) ∙ ap (drop i) h.records;
}

pub take-length : (xs ys : List ℕ) → take (length xs) (xs ++ ys) ≡ xs
take-length [] ys = refl
take-length (x ∷ xs) ys = ap (◌∷◌ x) (take-length xs ys)

pub drop-length : (xs ys : List ℕ) → drop (length xs) (xs ++ ys) ≡ ys
drop-length [] ys = refl
drop-length (x ∷ xs) ys = drop-length xs ys

pub length-earlier :
    (s : Statistics) (us vs : List Stat) (h : HoldsAt s us vs) → length h.earlier ≡ length us
length-earlier s us vs h = sym (length-map s.stat h.earlier) ∙ ap length h.earlier_records

pub AllLive-last :
    (live : ℕ → Bool) (xs : List ℕ) (y : ℕ) (ys : List ℕ)
    → AllLive live (xs ++ y ∷ ys)
    → live y ≡ true
AllLive-last live [] y ys a = a.0
AllLive-last live (x ∷ xs) y ys a = AllLive-last live xs y ys a.1

module _ (s : Statistics) (us : List Stat) where
  -- `getAt` at the position finds the first of the later blocks.
  get_at-HoldsAt :
      (vs : List Stat) (h : HoldsAt s us vs)
      → Finds (get_at s.list (length us)) (first_of h.later) (h.earlier ++ h.later)
  get_at-HoldsAt vs h =
      let (l, e, k) = get_at-Finds s.list (length us) (h.earlier ++ h.later) h.shows in
      let at_later : drop (length us) (h.earlier ++ h.later) ≡ h.later =
        rw (← length-earlier s us vs h) (drop-length h.earlier h.later) in
      (l, e ∙ ap (λ d. done (first_of d, l)) at_later, k)
