-- ===== src/Statistics/Delete.antt =====
-- `FTM_CATCHB_delStatistics` of lib/ftm_catchb.c against sequences of records.
use catchb.Base.{
  ℕ, zero, suc, ◌≤◌, ◌≡◌, refl, false, List, [], ◌∷◌, ◌++◌, map, arith, length, length-take, drop,
  take,
}
use catchb.Run.{Run, done}
use catchb.Ret.{ok}
use catchb.FtmList.{update}
use catchb.Statistics.{Stat, Statistics, del_from, del_statistics}
use catchb.Statistics.Holds.{Holds, HoldsAt, HoldsAt-Holds, Holds-HoldsAt, length-earlier}
use catchb.Statistics.Split.{Split, Split-HoldsAt, HoldsAt-Split, get_at-Split, remove_at-Split}

-- A run that leaves these records before and from a position on.
abbrev LeavesAt : Run Statistics → List Stat → List Stat → Type 0
LeavesAt run us vs = (s' : Statistics) × (run ≡ done s') × HoldsAt s' us vs

del_from-HoldsAt :
    (n : ℕ) (s : Statistics) (ps qs : List ℕ)
    → Split s ps qs
    → LeavesAt (del_from n (length ps) s) (map s.stat ps) (drop n (map s.stat qs))
unfolding del_from
del_from-HoldsAt zero s ps qs h = (s, refl, Split-HoldsAt s ps qs h)
del_from-HoldsAt (suc n) s ps [] h =
    let (l, e, k) = get_at-Split s ps [] h in
    (record s { list = l }, rw e, Split-HoldsAt (record s { list = l }) ps [] k)
del_from-HoldsAt (suc n) s ps (q ∷ qs) h =
    let (l, e, k) = get_at-Split s ps (q ∷ qs) h in
    let (l', e', f, k') = remove_at-Split (record s { list = l }) ps q qs k in
    let (s', run, done_at) =
      del_from-HoldsAt n (record s { list = l'; live = update s.live q false }) ps qs k' in
    (s', rw (e, e', f) run, done_at)

-- On a statistics list of live blocks delStatistics from a position not past the end returns OK
-- and leaves the records without those at the position and behind it, as many as it was asked
-- to delete.
del_statistics-Holds :
    (s : Statistics) (index n : ℕ) (vs : List Stat)
    → Holds s vs
    → index ≤ length vs
    → (s' : Statistics) × (del_statistics index n s ≡ done (ok, s'))
      × Holds s' (take index vs ++ drop n (drop index vs))
unfolding del_statistics
del_statistics-Holds s index n vs h inside =
    let at_index = Holds-HoldsAt s index vs h in
    let here : length at_index.earlier ≡ index =
      omega (arith, length-earlier s _ _ at_index, length-take index vs) in
    let (s', run, k) =
      del_from-HoldsAt n s at_index.earlier at_index.later (HoldsAt-Split s _ _ at_index) in
    (
      s',
      rw (rw here at run),
      HoldsAt-Holds s' _ _ (rw (at_index.earlier_records, at_index.later_records) at k),
    )
