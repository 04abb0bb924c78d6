-- ===== src/Statistics/Limit.antt =====
-- `FTM_CATCHB_setStatisticsMaxCount` of lib/ftm_catchb.c.
use catchb.Base.{
  ℕ, suc, ◌+◌, ◌-◌, ◌<◌, ◌≤◌, ◌≡◌, ap, ◌∙◌, true, false, some, List, [], ◌∷◌, map, arith, length,
  length-map, ltb,
}
use catchb.Run.{done, fault}
use catchb.Ret.{Ret, ok}
use catchb.FtmList.{update}
use catchb.FtmList.Access
use catchb.FtmList.Access.{get_first}
use catchb.FtmList.Walk.{AllLive}
use catchb.FtmList.Shows.{Shows}
use catchb.FtmList.Read.{get_ends}
use catchb.Statistics.{Stat, Statistics, free, free_firsts, set_statistics_max_count}
use catchb.Statistics.Holds.{Holds, count-Shows, length-Holds}

first_freed :
    (s : Statistics) (b : ℕ) (bs : List ℕ) (r : Ret)
    → Shows s.list (b ∷ bs)
    → s.live b ≡ true
    → (n : ℕ)
    → free_firsts (suc n) r s ≡ free_firsts n ok (record s { live = update s.live b false })
unfolding free_firsts free
first_freed s b bs r shows in_use n =
    let (first, _) = get_ends s.list (b ∷ bs) shows in rw first (rw in_use)

freed_twice :
    (s : Statistics) (b : ℕ) (bs : List ℕ) (r : Ret)
    → Shows s.list (b ∷ bs)
    → s.live b ≡ false
    → (n : ℕ) → free_firsts (suc n) r s ≡ fault
unfolding free_firsts free
freed_twice s b bs r shows dead n =
    let (first, _) = get_ends s.list (b ∷ bs) shows in rw first (rw dead)

module _ (s : Statistics) (m b : ℕ) (bs : List ℕ) (shows : Shows s.list (b ∷ bs))
    (in_use : s.live b ≡ true) where
  size : (Access.count s.list).1 ≡ length (b ∷ bs)
  size = count-Shows s.list (b ∷ bs) shows

  lowered_by_one :
      length (b ∷ bs) ≡ m + 1
      → set_statistics_max_count m s ≡ done (ok, record s { live = update s.live b false })
  unfolding set_statistics_max_count free_firsts
  lowered_by_one e =
      let more : ltb m (Access.count s.list).1 ≡ true = ground (arith, size) in
      let one : (Access.count s.list).1 - m ≡ suc 0 = omega (arith, size) in
      rw more (ap (λ n. free_firsts n ok s) one ∙ first_freed s b bs ok shows in_use 0)

  lowered_by_more : m + 2 ≤ length (b ∷ bs) → set_statistics_max_count m s ≡ fault
  unfolding set_statistics_max_count
  lowered_by_more h =
      let k = length (b ∷ bs) - m - 2 in
      let more : ltb m (Access.count s.list).1 ≡ true = ground (arith, size) in
      let two : (Access.count s.list).1 - m ≡ suc (suc k) = omega (arith, size) in
      let dead : update s.live b false b ≡ false = ground arith in
      rw more (
        ap (λ n. free_firsts n ok s) two
        ∙ first_freed s b bs ok shows in_use (suc k)
        ∙ freed_twice (record s { live = update s.live b false }) b bs ok shows dead k)

not_lowered :
    (s : Statistics) (m : ℕ) (vs : List Stat)
    → Holds s vs
    → length vs ≤ m
    → set_statistics_max_count m s ≡ done (ok, s)
unfolding set_statistics_max_count
not_lowered s m vs h e =
    let none_over : ltb m (Access.count s.list).1 ≡ false =
      ground (arith, count-Shows s.list h.blocks h.shows, length-Holds s vs h) in
    rw none_over

-- What lowering the limit to `m` does when the first record lies in the block `b`.
abbrev Lowers : Statistics → (m b : ℕ) → (size : ℕ) → Type 0
Lowers s m b size =
    (size ≡ m + 1
      → set_statistics_max_count m s ≡ done (ok, record s { live = update s.live b false }))
    × (m + 2 ≤ size → set_statistics_max_count m s ≡ fault)

lowers :
    (s : Statistics) (m : ℕ) (bs : List ℕ) (vs : List Stat) (v : Stat)
    → Shows s.list bs
    → AllLive s.live bs
    → map s.stat bs ≡ v ∷ vs
    → (b : ℕ) × (get_first s.list ≡ done (ok, some b)) × Lowers s m b (length (v ∷ vs))
lowers s m [] vs v shows alive records =
    let never : 0 ≡ suc (length vs) = ap length records in
    let absurd : 0 < 0 = omega (arith, never) in elim absurd [ ]
lowers s m (b ∷ bs) vs v shows alive records =
    let size : length (b ∷ bs) ≡ length (v ∷ vs) =
      omega (arith, length-map s.stat (b ∷ bs), ap length records) in
    (
      b,
      (get_ends s.list (b ∷ bs) shows).0,
      (
        (λ e. lowered_by_one s m b bs shows alive.0 (size ∙ e)),
        (λ h. lowered_by_more s m b bs shows alive.0 (omega (arith, size))),
      ),
    )

-- On a statistics list of live blocks that is not empty, setStatisticsMaxCount changes nothing
-- if the records are not more than the limit; if they are one more, it returns OK, frees the
-- block of the first record and leaves the list as it is; if they are more than that, it frees
-- this block twice.
set_statistics_max_count_lem :
    (s : Statistics) (m : ℕ) (v : Stat) (vs : List Stat)
    → Holds s (v ∷ vs)
    → (b : ℕ) × (get_first s.list ≡ done (ok, some b))
      × (length (v ∷ vs) ≤ m → set_statistics_max_count m s ≡ done (ok, s))
      × (length (v ∷ vs) ≡ m + 1
          → set_statistics_max_count m s ≡ done (ok, record s { live = update s.live b false }))
      × (m + 2 ≤ length (v ∷ vs) → set_statistics_max_count m s ≡ fault)
set_statistics_max_count_lem s m v vs h =
    let (b, first, (one, more)) = lowers s m h.blocks vs v h.shows h.alive h.records in
    (b, first, not_lowered s m (v ∷ vs) h, one, more)
