-- ===== src/FtmList/Insert.antt =====
-- `append` and `insert` of lib/ftm_list.c against sequences of items.
use Prim.Native.Nat.{Ordering}
use catchb.Base.{
  ℕ, ◌+◌, ◌^◌, ◌<◌, ◌≡◌, refl, Bool, Option, none, some, List, [], ◌∷◌, ◌++◌, map, arith, length,
  length-append, length-map, ap, sym, ◌∙◌,
}
use catchb.Run.{Run, done, blocked}
use catchb.Ret.{Ret, ok, not_enough_memory, list_not_insertable}
use catchb.FtmList.{
  FtmList, head, append, link, link_last, insert_behind, insert_before, insert, front, rear,
  ascending, descending, is_gt, is_lt, post, walk,
}
use mathlib.Core.List.{append-nil}
use catchb.FtmList.Links.{Links, before, first, next-first, prev-before, next-before}
use catchb.FtmList.Walk.{until, onwards, until-append-onwards, walk-onwards}
use catchb.FtmList.Shows.{
  IsList, Shows, IsFresh, not-mem_of_unused, link-IsList, link-items, IsList-other, taken,
  wait-taken,
}

-- A run of an operation: it returns `r` and leaves a list of these items.
abbrev pub Returns : Run (Ret × FtmList) → Ret → List ℕ → Type 0
Returns run r ys = (l : FtmList) × (run ≡ done (r, l)) × Shows l ys

-- Linking under the lock and giving the lock back.
link-Shows :
    (l : FtmList) (e v : ℕ) (us vs : List ℕ)
    → IsList l (us ++ vs)
    → IsFresh l e
    → length (us ++ vs) + 1 < 2 ^ 32
    → Shows (post (link (taken l) (before head us) e v)) (map l.item us ++ v ∷ map l.item vs)
unfolding link
link-Shows l e v us vs h fresh small = record {
  entries = us ++ e ∷ vs;
  is_list = IsList-other l.iterator l.iter 1 (link-IsList l e v us vs h fresh small);
  items =
      link-items l (before head us) e v us vs
        (not-mem_of_unused l.live e (us ++ vs) fresh.unused h.alive);
  open_lock = omega arith;
}

-- `append` names the head where `link` goes through the last entry.
link_last-link :
    (l : FtmList) (e v : ℕ) (xs : List ℕ)
    → IsList l xs
    → link_last (taken l) e v ≡ link (taken l) (before head xs) e v
unfolding link link_last
link_last-link l e v xs h =
    let h' : Links l.next l.prev head (xs ++ []) head = rw append-nil h.chain in
    ground (
      arith,
      prev-before l.next l.prev head head xs [] h',
      next-before l.next l.prev head head xs [] h',
    )

append-link_last :
    (l : FtmList) (e v : ℕ)
    → l.lock ≡ 1
    → append (some e) l v ≡ done (ok, post (link_last (taken l) e v))
unfolding append
append-link_last l e v h = rw (wait-taken l h)

room-entries :
    (l : FtmList) (xs ys : List ℕ)
    → map l.item xs ≡ ys
    → length ys + 1 < 2 ^ 32
    → length (xs ++ []) + 1 < 2 ^ 32
room-entries l xs ys e small = omega (arith, length-append xs [], length-map l.item xs, ap length e)

-- On a well-formed list that nobody has locked, with a fresh entry from malloc and room in the
-- count, append puts the item at the end, returns OK and leaves the list well-formed and
-- unlocked.
pub append-Shows :
    (l : FtmList) (e v : ℕ) (ys : List ℕ)
    → Shows l ys
    → IsFresh l e
    → length ys + 1 < 2 ^ 32
    → Returns (append (some e) l v) ok (ys ++ v ∷ [])
append-Shows l e v ys s fresh small =
    let xs = s.entries in
    let room : length (xs ++ []) + 1 < 2 ^ 32 = room-entries l xs ys s.items small in
    (
      post (link (taken l) (before head xs) e v),
      append-link_last l e v s.open_lock
          ∙ ap (λ k. done (ok, post k)) (link_last-link l e v xs s.is_list),
      rw (← s.items) (link-Shows l e v xs [] (rw append-nil s.is_list) fresh room),
    )

-- Without memory `append` changes nothing and says so.
pub append-null :
    (l : FtmList) (v : ℕ) (ys : List ℕ)
    → Shows l ys
    → Returns (append none l v) not_enough_memory ys
unfolding append
append-null l v ys s = (
  post (taken l),
  rw (wait-taken l s.open_lock),
  record {
    entries = s.entries;
    is_list = IsList-other l.iterator l.iter 1 s.is_list;
    items = s.items;
    open_lock = omega arith;
  },
)

-- The sequence with an item before the first that passes the test.
abbrev pub insert_where : (ℕ → Bool) → ℕ → List ℕ → List ℕ
insert_where test v ys = until test ys ++ v ∷ onwards test ys

pub map-until :
    (f : ℕ → ℕ) (test : ℕ → Bool) (xs : List ℕ)
    → until test (map f xs) ≡ map f (until (λ x. test (f x)) xs)
map-until f test [] = refl
map-until f test (x ∷ xs) = ground (arith, map-until f test xs)

pub map-onwards :
    (f : ℕ → ℕ) (test : ℕ → Bool) (xs : List ℕ)
    → onwards test (map f xs) ≡ map f (onwards (λ x. test (f x)) xs)
map-onwards f test [] = refl
map-onwards f test (x ∷ xs) = ground (arith, map-onwards f test xs)

module _ (l : FtmList) (e v : ℕ) (ys : List ℕ) (s : Shows l ys) (fresh : IsFresh l e)
    (small : length ys + 1 < 2 ^ 32) where
  walk-taken :
      (compares : ℕ → ℕ → Ordering) (stops : Ordering → Bool)
      → walk (l.count + 1) (taken l) (λ d. stops (compares d v)) (l.next head)
        ≡ done (first (onwards (λ x. stops (compares (l.item x) v)) s.entries) head)
  walk-taken compares stops =
      walk-onwards (taken l) (λ d. stops (compares d v)) (l.count + 1) head (l.next head) s.entries
        (next-first l.next l.prev head head s.entries s.is_list.chain) s.is_list.chain
        s.is_list.alive s.is_list.no_head (omega (arith, s.is_list.counted))

  insert_before-Shows :
      (compares : ℕ → ℕ → Ordering) (stops : Ordering → Bool)
      → Returns
          (insert_before (some e) (taken l) v stops (some compares))
          ok
          (insert_where (λ d. stops (compares d v)) v ys)
  unfolding insert_before insert_behind
  insert_before-Shows compares stops =
      let xs = s.entries in
      let test : ℕ → Bool = λ x. stops (compares (l.item x) v) in
      let us = until test xs in
      let vs = onwards test xs in
      let h : IsList l (us ++ vs) = rw (until-append-onwards test xs) s.is_list in
      let stop : l.prev (first vs head) ≡ before head us =
        prev-before l.next l.prev head head us vs h.chain in
      let room : length (us ++ vs) + 1 < 2 ^ 32 =
        rw (until-append-onwards test xs)
          (omega (arith, length-map l.item xs, ap length s.items)) in
      (
        post (link (taken l) (before head us) e v),
        rw (walk-taken compares stops) (ap (λ p. done (ok, post (link (taken l) p e v))) stop),
        rw (← s.items, map-until, map-onwards) (link-Shows l e v us vs h fresh room),
      )

  -- On a well-formed list with a comparator that nobody has locked, with a fresh entry from
  -- malloc and room in the count, insert puts the item before the first one that compares
  -- greater (ascending) or less (descending), or at the end if there is none, returns OK and
  -- leaves the list well-formed and unlocked.
  pub insert_sorted-Shows :
      (compares : ℕ → ℕ → Ordering)
      → l.comparator ≡ some compares
      → Returns (insert (some e) l v ascending) ok (insert_where (λ d. is_gt (compares d v)) v ys)
        × Returns
            (insert (some e) l v descending)
            ok
            (insert_where (λ d. is_lt (compares d v)) v ys)
  unfolding insert
  insert_sorted-Shows compares has_one = (
    (let (l', e', k) = insert_before-Shows compares is_gt in
        (
          l',
          rw (wait-taken l s.open_lock)
              (ap (insert_before (some e) (taken l) v is_gt) has_one ∙ e'),
          k,
        )),
    (let (l', e', k) = insert_before-Shows compares is_lt in
        (
          l',
          rw (wait-taken l s.open_lock)
              (ap (insert_before (some e) (taken l) v is_lt) has_one ∙ e'),
          k,
        )),
  )

  -- Under the same conditions as append, insert at the front and at the rear puts the item
  -- before or behind all others, returns OK and leaves the list well-formed and unlocked.
  insert_end-Shows :
      Returns (insert (some e) l v front) ok (v ∷ ys)
      × Returns (insert (some e) l v rear) ok (ys ++ v ∷ [])
  unfolding insert insert_behind
  insert_end-Shows =
      let xs = s.entries in
      let h' : IsList l (xs ++ []) = rw append-nil s.is_list in
      let last : before head xs ≡ l.prev head =
        sym (prev-before l.next l.prev head head xs [] h'.chain) in
      (
        (
          post (link (taken l) head e v),
          rw (wait-taken l s.open_lock),
          rw (← s.items) (
              link-Shows l e v [] xs s.is_list fresh
                (omega (arith, length-map l.item xs, ap length s.items))),
        ),
        (
          post (link (taken l) (before head xs) e v),
          rw (wait-taken l s.open_lock)
              (ap (λ p. done (ok, post (link (taken l) p e v))) (sym last)),
          rw (← s.items) (link-Shows l e v xs [] h' fresh (room-entries l xs ys s.items small)),
        ),
      )

-- A sorted insert into an unlocked list without a comparator returns LIST_NOT_INSERTABLE with
-- the semaphore taken, and a later append blocks.
insert_keeps_lock :
    (entry other_entry : Option ℕ) (l : FtmList) (v w : ℕ)
    → l.lock ≡ 1
    → l.comparator ≡ none
    → (insert entry l v ascending ≡ done (list_not_insertable, taken l))
      × (append other_entry (taken l) w ≡ blocked)
unfolding insert append
insert_keeps_lock entry none l v w free unsorted =
    (rw (wait-taken l free) (ap (insert_before entry (taken l) v is_gt) unsorted), refl)
insert_keeps_lock entry (some e) l v w free unsorted =
    (rw (wait-taken l free) (ap (insert_before entry (taken l) v is_gt) unsorted), refl)
