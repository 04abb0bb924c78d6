-- ===== src/Statistics/Lookup.antt =====
-- The look-ups of lib/ftm_catchb.c in the statistics.
use mathlib.Core.List.{append_assoc, head?}
use catchb.Base.{
  ℕ, zero, suc, ◌+◌, ◌≤◌, ◌≡◌, refl, ap, ◌∙◌, true, some, none, Option, List, [], ◌∷◌, ◌++◌, map,
  arith, length, length-map, length-append, length-take, drop, take, take-append-drop, last?,
}
use catchb.Run.{done}
use catchb.Ret.{Ret, ok, list_empty}
use catchb.FtmList.Access
use catchb.FtmList.Walk.{AllLive}
use catchb.FtmList.Shows.{Shows}
use catchb.FtmList.Links.{before}
use catchb.FtmList.Read.{get_ends, end_of, live-before}
use catchb.Statistics.{Stat, Statistics, read_stat, list_from, get_statistics_info, times_of}
use catchb.Statistics.Holds.{
  Holds, HoldsAt-Holds, Holds-HoldsAt, count-Shows, length-earlier, map-append,
}
use catchb.Statistics.Split.{
  Split, Split-HoldsAt, HoldsAt-Split, Split-next, get_at-Split, read_stat-live,
}

list_from-Holds :
    (n : ℕ) (s : Statistics) (ps qs : List ℕ)
    → Split s ps qs
    → (s' : Statistics) × (list_from n (length ps) s ≡ done (take n (map s.stat qs), s'))
      × Holds s' (map s.stat ps ++ map s.stat qs)
unfolding list_from
list_from-Holds zero s ps qs h = (s, refl, HoldsAt-Holds s _ _ (Split-HoldsAt s ps qs h))
list_from-Holds (suc n) s ps [] h =
    let (l, e, k) = get_at-Split s ps [] h in
    let s1 = record s { list = l } in (s1, rw e, HoldsAt-Holds s1 _ _ (Split-HoldsAt s1 ps [] k))
list_from-Holds (suc n) s ps (q ∷ qs) h =
    let (l, e, k) = get_at-Split s ps (q ∷ qs) h in
    let s1 = record s { list = l } in
    let readable : read_stat s q ≡ done (s.stat q) = read_stat-live s ps q qs h in
    let (s', run, holds) = list_from-Holds n s1 (ps ++ q ∷ []) qs (Split-next s1 ps q qs k) in
    let further : length (ps ++ q ∷ []) ≡ length ps + 1 =
      omega (arith, length-append ps (q ∷ [])) in
    (
      s',
      rw (e, readable) (rw (rw further at run)),
      rw (map-append s.stat ps (q ∷ []), append_assoc (map s.stat ps) (s.stat q ∷ [])) at holds,
    )

-- On a statistics list of live blocks getStatisticsList from a position not past the end copies
-- the records from the position on, as many as it was asked for, and the list holds the same
-- records.
list_from-take :
    (s : Statistics) (index n : ℕ) (vs : List Stat)
    → Holds s vs
    → index ≤ length vs
    → (s' : Statistics) × (list_from n index s ≡ done (take n (drop index vs), s')) × Holds s' vs
list_from-take s index n vs h inside =
    let at_index = Holds-HoldsAt s index vs h in
    let here : length at_index.earlier ≡ index =
      omega (arith, length-earlier s _ _ at_index, length-take index vs) in
    let (s', run, holds) =
      list_from-Holds n s at_index.earlier at_index.later (HoldsAt-Split s _ _ at_index) in
    (
      s',
      rw (here, at_index.later_records) at run,
      rw (at_index.earlier_records, at_index.later_records, take-append-drop) at holds,
    )

-- The seconds of the first and the last record.
abbrev ends_of : Option Stat → Option Stat → Ret × Option (ℕ × ℕ)
ends_of (some v) (some w) = (ok, some (v.sec, w.sec))
ends_of _ _ = (list_empty, none)

last?-before : (x : ℕ) (xs : List ℕ) → last? (x ∷ xs) ≡ some (before x xs)
last?-before x [] = refl
last?-before x (y ∷ xs) = last?-before y xs

last?-map : (f : ℕ → Stat) (x : ℕ) (xs : List ℕ) → last? (map f (x ∷ xs)) ≡ some (f (before x xs))
last?-map f x [] = refl
last?-map f x (y ∷ xs) = last?-map f y xs

info-blocks :
    (s : Statistics) (ps : List ℕ)
    → Shows s.list ps
    → AllLive s.live ps
    → get_statistics_info s ≡ (
        let (r, t) = ends_of (head? (map s.stat ps)) (last? (map s.stat ps)) in
        done (length ps, r, t))
unfolding get_statistics_info times_of read_stat
info-blocks s [] shows alive =
    let (first, last) = get_ends s.list [] shows in
    rw (first, last) (ap (λ n. done (n, list_empty, none)) (count-Shows s.list [] shows))
info-blocks s (p ∷ ps) shows alive =
    let (first, last) = get_ends s.list (p ∷ ps) shows in
    let last' : Access.get_last s.list ≡ done (ok, some (before p ps)) =
      last ∙ ap (λ o. done (end_of o)) (last?-before p ps) in
    let size : (Access.count s.list).1 ≡ suc (length ps) = count-Shows s.list (p ∷ ps) shows in
    let in_use : s.live (before p ps) ≡ true = live-before s.live p ps alive.0 alive.1 in
    rw (first, last')
      (rw (alive.0, in_use)
        (rw (last?-map s.stat p ps)
          (ap (λ n. done (n, ok, some ((s.stat p).sec, (s.stat (before p ps)).sec))) size)))

-- On a statistics list of live blocks getStatisticsInfo gives the number of records, and OK
-- with the seconds of the first and the last one, or LIST_EMPTY if there is none.
get_statistics_info-ends :
    (s : Statistics) (vs : List Stat)
    → Holds s vs
    → let (r, t) = ends_of (head? vs) (last? vs) in get_statistics_info s ≡ done (length vs, r, t)
get_statistics_info-ends s vs h =
    rw (← h.records, length-map s.stat h.blocks) (info-blocks s h.blocks h.shows h.alive)
