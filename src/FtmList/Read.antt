-- ===== src/FtmList/Read.antt =====
-- The searches of lib/ftm_list.c against sequences of items: what is found, and that the list
-- stays as it is.
use mathlib.Core.List.{head?, append-nil}
use catchb.Base.{
  map-drop, ℕ, ◌+◌, ◌≤◌, ◌≡◌, refl, Bool, true, Option, none, some, List, [], ◌∷◌, ◌++◌, map, inl,
  inr, arith, length, length-map, ap, ◌∙◌, drop, take, take-append-drop, ltb, Bool-cases,
  drop_of_length-le, last?,
}
use catchb.Run.{Run, done}
use catchb.Ret.{ok, object_not_found, list_empty}
use catchb.FtmList.{FtmList, head, post}
use catchb.FtmList.Access.{Found, found, get, get_at, get_first, get_last, search_by}
use catchb.FtmList.Links.{Links, ◌∉◌, before, first, next-first, prev-before, has-append}
use catchb.FtmList.Walk.{AllLive, until, onwards, until-append-onwards, walk-onwards}
use catchb.FtmList.Shows.{IsList, Shows, IsList-other, taken, wait-taken}
use catchb.FtmList.Insert.{map-onwards}
use catchb.FtmList.Remove.{walk_to-entries}

-- A search that finds `r` and leaves a list of these items.
abbrev pub Finds : Run (Found × FtmList) → Found → List ℕ → Type 0
Finds run r ys = (l : FtmList) × (run ≡ done (r, l)) × Shows l ys

-- The first item of a suffix.
abbrev pub first_of : List ℕ → Found
first_of [] = (object_not_found, none)
first_of (v ∷ vs) = (ok, some v)

found-first_of :
    (l : FtmList) (vs : List ℕ) → head ∉ vs → found l (first vs head) ≡ first_of (map l.item vs)
found-first_of l [] h = refl
found-first_of l (v ∷ vs) h = ground arith

no_head-right : (us vs : List ℕ) → head ∉ us ++ vs → head ∉ vs
no_head-right us vs h = ground (arith, has-append head us vs)

taken-Shows : (l : FtmList) (ys : List ℕ) → Shows l ys → Shows (post (taken l)) ys
taken-Shows l ys s = record {
  entries = s.entries;
  is_list = IsList-other l.iterator l.iter 1 s.is_list;
  items = s.items;
  open_lock = omega arith;
}

-- On a well-formed list with a seeker that nobody has locked, get returns OK and the first item
-- that the seeker accepts, or OBJECT_NOT_FOUND if it accepts none; the list keeps its items and
-- is unlocked.
pub get-Finds :
    (l : FtmList) (key : ℕ) (seeks : ℕ → ℕ → Bool) (ys : List ℕ)
    → Shows l ys
    → l.seeker ≡ some seeks
    → Finds (get l key) (first_of (onwards (λ d. seeks d key) ys)) ys
unfolding get
get-Finds l key seeks ys s has_one =
    let xs = s.entries in
    let test : ℕ → Bool = λ x. seeks (l.item x) key in
    let stop : search_by (taken l) key (some seeks) ≡ done (first (onwards test xs) head) =
      walk-onwards (taken l) (λ d. seeks d key) (l.count + 1) head (l.next head) xs
        (next-first l.next l.prev head head xs s.is_list.chain) s.is_list.chain s.is_list.alive
        s.is_list.no_head (omega (arith, s.is_list.counted)) in
    let out : head ∉ onwards test xs =
      no_head-right (until test xs) (onwards test xs) (rw until-append-onwards s.is_list.no_head) in
    (
      post (taken l),
      rw (wait-taken l s.open_lock) (
          rw (ap (search_by (taken l) key) has_one ∙ stop) (
            rw (← s.items, map-onwards)
              (ap (λ r. done (r, post (taken l)))
                (found-first_of (taken l) (onwards test xs) out)))),
      taken-Shows l ys s,
    )

-- On a well-formed list that nobody has locked, getAt returns OK and the item at the position,
-- or OBJECT_NOT_FOUND past the end; the list keeps its items and is unlocked.
pub get_at-Finds :
    (l : FtmList) (pos : ℕ) (ys : List ℕ)
    → Shows l ys
    → Finds (get_at l pos) (first_of (drop pos ys)) ys
unfolding get_at
get_at-Finds l pos ys s =
    let xs = s.entries in
    let size : l.count ≡ length ys =
      omega (arith, s.is_list.counted, length-map l.item xs, ap length s.items) in
    (
      post (taken l),
      rw (wait-taken l s.open_lock) (elim (Bool-cases (ltb pos l.count)) [
        | inr past ↦
            let far : length ys ≤ pos = ground arith in rw past (rw (drop_of_length-le pos ys far))
        | inl inside ↦
            let out : head ∉ drop pos xs =
              no_head-right (take pos xs) (drop pos xs) (rw take-append-drop s.is_list.no_head) in
            rw inside (
              rw (walk_to-entries l pos xs s.is_list) (
                rw (← s.items, map-drop)
                  (ap (λ r. done (r, post (taken l)))
                    (found-first_of (taken l) (drop pos xs) out))))
      ]),
      taken-Shows l ys s,
    )

-- `getFirst` and `getLast` find the ends, or say that the list is empty. They take no lock.
abbrev pub end_of : Option ℕ → Found
end_of none = (list_empty, none)
end_of (some v) = (ok, some v)

last?-map : (f : ℕ → ℕ) (x : ℕ) (xs : List ℕ) → last? (map f (x ∷ xs)) ≡ some (f (before x xs))
last?-map f x [] = refl
last?-map f x (y ∷ xs) = last?-map f y xs

pub live-before :
    (live : ℕ → Bool) (x : ℕ) (xs : List ℕ)
    → live x ≡ true
    → AllLive live xs
    → live (before x xs) ≡ true
live-before live x [] h a = h
live-before live x (y ∷ xs) h a = live-before live y xs a.0 a.1

ends-entries :
    (l : FtmList) (xs : List ℕ)
    → IsList l xs
    → (get_first l ≡ done (end_of (head? (map l.item xs))))
      × (get_last l ≡ done (end_of (last? (map l.item xs))))
unfolding get_first get_last
ends-entries l [] h = (ground arith, ground arith)
ends-entries l (x ∷ xs) h =
    let whole : Links l.next l.prev head ((x ∷ xs) ++ []) head = rw append-nil h.chain in
    let end : l.prev head ≡ before x xs = prev-before l.next l.prev head head (x ∷ xs) [] whole in
    let alive : l.live (before x xs) ≡ true = live-before l.live x xs h.alive.0 h.alive.1 in
    (ground arith, ground (arith, end, alive, last?-map l.item x xs))

-- On a well-formed unlocked list getFirst and getLast return OK and the first and the last
-- item, or LIST_EMPTY if there is none.
pub get_ends :
    (l : FtmList) (ys : List ℕ)
    → Shows l ys
    → (get_first l ≡ done (end_of (head? ys))) × (get_last l ≡ done (end_of (last? ys)))
get_ends l ys s = rw (← s.items) (ends-entries l s.entries s.is_list)
