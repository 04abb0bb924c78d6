-- ===== src/FtmList/Remove.antt =====
-- `remove` and `removeAt` of lib/ftm_list.c against sequences of items.
use catchb.Base.{
  map-drop, ℕ, zero, suc, ◌+◌, ◌≤◌, ◌≡◌, ◌≢◌, refl, Bool, false, List, [], ◌∷◌, ◌++◌, map, arith,
  length, length-append, length-map, ap, ◌==◌, take, drop, take-append-drop, if◌then◌else◌,
  Bool-cases, inl, inr, ltb, drop_of_length-le, take_of_length-le,
}
use mathlib.Core.List.{append-nil}
use catchb.Run.{done}
use catchb.Ret.{Ret, ok, object_not_found}
use catchb.FtmList.{FtmList, head, post, walk_to}
use catchb.FtmList.Access.{unlink, take_out, take_out_at, remove, remove_at}
use catchb.FtmList.Links.{
  AllDistinct, ◌∉◌, first, next-first, prev-before, next-after, has-append, Links-unlink,
}
use catchb.FtmList.Walk.{until, onwards, until-append-onwards, walk-onwards, walk_to-drop}
use catchb.FtmList.Shows.{
  IsList, Shows, AllLive-update, AllLive-append, AllLive-join, IsList-other, taken, wait-taken,
}
use catchb.FtmList.Insert.{Returns, map-until, map-onwards}

-- Where an entry stands it stands once.
pub not-mem_apart : (e : ℕ) (us vs : List ℕ) → AllDistinct (us ++ e ∷ vs) → e ∉ us ++ vs
not-mem_apart e [] vs d = d.0
not-mem_apart e (u ∷ us) vs d = ground (arith, not-mem_apart e us vs d.1, has-append u us (e ∷ vs))

pub AllDistinct-remove :
    (e : ℕ) (us vs : List ℕ) → AllDistinct (us ++ e ∷ vs) → AllDistinct (us ++ vs)
AllDistinct-remove e [] vs d = d.1
AllDistinct-remove e (u ∷ us) vs d =
    (ground (arith, has-append u us vs, has-append u us (e ∷ vs)), AllDistinct-remove e us vs d.1)

-- Unlinking an entry of the ring.
unlink-IsList :
    (l : FtmList) (e : ℕ) (us vs : List ℕ)
    → IsList l (us ++ e ∷ vs)
    → IsList (unlink l e) (us ++ vs)
unfolding unlink
unlink-IsList l e us vs h =
    let absent = not-mem_apart e us vs h.distinct in
    let (left, right) = AllLive-append l.live us (e ∷ vs) h.alive in
    record {
      chain =
          Links-unlink l.next l.prev head head e (l.prev e) (l.next e) us vs h.chain
            (prev-before l.next l.prev head head us (e ∷ vs) h.chain)
            (next-after l.next l.prev head head e us vs h.chain) h.distinct h.no_head h.no_head;
      distinct = AllDistinct-remove e us vs h.distinct;
      no_head = ground (arith, has-append head us vs, has-append head us (e ∷ vs));
      alive =
          AllLive-update l.live e false (us ++ vs) absent (AllLive-join l.live us vs left right.1);
      counted = omega (arith, h.counted, h.bounded, length-append us (e ∷ vs), length-append us vs);
      bounded = omega (arith, h.bounded, length-append us (e ∷ vs), length-append us vs);
    }

-- What is left when the first of a suffix goes.
abbrev pub without : List ℕ → List ℕ → Ret × List ℕ
without us [] = (object_not_found, us)
without us (v ∷ vs) = (ok, us ++ vs)

map-append : (f : ℕ → ℕ) (us vs : List ℕ) → map f (us ++ vs) ≡ map f us ++ map f vs
map-append f [] vs = refl
map-append f (u ∷ us) vs = ap (◌∷◌ (f u)) (map-append f us vs)

module _ (l : FtmList) (us : List ℕ) where
  unlink-Shows :
      (e : ℕ) (vs : List ℕ) (i : ℕ)
      → IsList l (us ++ e ∷ vs)
      → Shows (post (record (unlink (taken l) e) { iter = i })) (map l.item us ++ map l.item vs)
  unfolding unlink
  unlink-Shows e vs i h = record {
    entries = us ++ vs;
    is_list = IsList-other l.iterator i 1 (unlink-IsList l e us vs h);
    items = map-append l.item us vs;
    open_lock = omega arith;
  }

  unchanged-Shows : IsList l (us ++ []) → Shows (post (taken l)) (map l.item us)
  unchanged-Shows h = record {
    entries = us;
    is_list = IsList-other l.iterator l.iter 1 (rw append-nil at h);
    items = refl;
    open_lock = omega arith;
  }

  -- Taking out the first entry of a suffix, with the step of the iterator and without.
  take_out-Shows :
      (vs : List ℕ)
      → IsList l (us ++ vs)
      → let (r, ys) = without (map l.item us) (map l.item vs) in
        (l' : FtmList) × (take_out (taken l) (first vs head) ≡ (r, l')) × Shows l' ys
  unfolding take_out
  take_out-Shows [] h = (post (taken l), refl, unchanged-Shows h)
  take_out-Shows (e ∷ vs) h =
      let i = if l.iter == e then l.prev e else l.iter in
      let other : e ≢ head = ground (arith, h.no_head, has-append head us (e ∷ vs)) in
      (post (record (unlink (taken l) e) { iter = i }), ground arith, unlink-Shows e vs i h)

  take_out_at-Shows :
      (vs : List ℕ)
      → IsList l (us ++ vs)
      → let (r, ys) = without (map l.item us) (map l.item vs) in
        (l' : FtmList) × (take_out_at (taken l) (first vs head) ≡ (r, l')) × Shows l' ys
  unfolding take_out_at
  take_out_at-Shows [] h = (post (taken l), refl, unchanged-Shows h)
  take_out_at-Shows (e ∷ vs) h =
      let other : e ≢ head = ground (arith, h.no_head, has-append head us (e ∷ vs)) in
      (post (unlink (taken l) e), ground arith, unlink-Shows e vs l.iter h)

-- The sequence without its first item that passes, and what `remove` says.
abbrev remove_where : (ℕ → Bool) → List ℕ → Ret × List ℕ
remove_where test ys = without (until test ys) (onwards test ys)

-- On a well-formed list that nobody has locked, remove takes out the first item that is this
-- very pointer and returns OK, or returns OBJECT_NOT_FOUND and keeps the items if there is
-- none; it ends, touches no memory that is not live, leaves the list well-formed and gives the
-- semaphore back.
pub remove-Shows :
    (l : FtmList) (v : ℕ) (ys : List ℕ)
    → Shows l ys
    → let (r, zs) = remove_where (λ d. d == v) ys in Returns (remove l v) r zs
unfolding remove
remove-Shows l v ys s =
    let xs = s.entries in
    let test : ℕ → Bool = λ x. l.item x == v in
    let h : IsList l (until test xs ++ onwards test xs) =
      rw (until-append-onwards test xs) s.is_list in
    let (l', e, k) = take_out-Shows l (until test xs) (onwards test xs) h in
    rw (← s.items, map-until, map-onwards)
      (
        l',
        rw (wait-taken l s.open_lock) (
            rw
              (walk-onwards (taken l) (λ d. d == v) (l.count + 1) head (l.next head) xs
                (next-first l.next l.prev head head xs s.is_list.chain) s.is_list.chain
                s.is_list.alive s.is_list.no_head (omega (arith, s.is_list.counted)))
              (ap done e)),
        k,
      )

map-take : (f : ℕ → ℕ) (n : ℕ) (xs : List ℕ) → take n (map f xs) ≡ map f (take n xs)
map-take f zero xs = refl
map-take f (suc n) [] = refl
map-take f (suc n) (x ∷ xs) = ap (◌∷◌ (f x)) (map-take f n xs)

-- The walk to a position of a list.
pub walk_to-entries :
    (l : FtmList) (pos : ℕ) (xs : List ℕ)
    → IsList l xs
    → walk_to (l.count + 1) (taken l) pos (l.next head) ≡ done (first (drop pos xs) head)
walk_to-entries l pos xs h =
    walk_to-drop (taken l) pos (l.count + 1) head (l.next head) xs
      (next-first l.next l.prev head head xs h.chain) h.chain h.alive h.no_head
      (omega (arith, h.counted))

-- On a well-formed list that nobody has locked, removeAt takes out the item at the position and
-- returns OK, or returns OBJECT_NOT_FOUND and keeps the items if the position is past the end;
-- it ends and leaves the list well-formed and unlocked.
pub remove_at-Shows :
    (l : FtmList) (pos : ℕ) (ys : List ℕ)
    → Shows l ys
    → let (r, zs) = without (take pos ys) (drop pos ys) in Returns (remove_at l pos) r zs
unfolding remove_at
remove_at-Shows l pos ys s =
    let xs = s.entries in
    let size : l.count ≡ length ys =
      omega (arith, s.is_list.counted, length-map l.item xs, ap length s.items) in
    elim (Bool-cases (ltb pos l.count)) [
      | inr past ↦
          let far : length ys ≤ pos = ground arith in
          rw (drop_of_length-le pos ys far, take_of_length-le pos ys far)
            (
              post (taken l),
              rw (wait-taken l s.open_lock) (rw past),
              rw (← s.items) (unchanged-Shows l xs (rw append-nil s.is_list)),
            )
      | inl inside ↦
          let h : IsList l (take pos xs ++ drop pos xs) = rw take-append-drop s.is_list in
          let (l', e, k) = take_out_at-Shows l (take pos xs) (drop pos xs) h in
          rw (← s.items, map-take, map-drop)
            (
              l',
              rw (wait-taken l s.open_lock)
                  (rw inside (rw (walk_to-entries l pos xs s.is_list) (ap done e))),
              k,
            )
    ]
