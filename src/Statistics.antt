-- ===== src/Statistics.antt =====
-- The statistics of lib/ftm_catchb.c: a bounded list of records, oldest first. The list exists
-- between `FTM_CATCHB_create` and `FTM_CATCHB_destroy`, so the tests on NULL pass. `stat` is what a
-- block of `FTM_MEM_malloc` holds and `live` says which blocks may be used.
pub mod Holds
pub mod Add
pub mod Split
pub mod Delete
pub mod Times
pub mod Limit
pub mod Lookup
mod Tests
use catchb.Base.{
  ℕ, zero, suc, ◌+◌, ◌-◌, Bool, true, false, ◌&&◌, Option, none, some, List, [], ◌∷◌, ltb, leb,
  if◌then◌else◌,
}
use catchb.Run.{Run, done, fault, ◌>>=◌}
use catchb.Ret.{Ret, ok, not_enough_memory}
use catchb.FtmList.{FtmList, append, update}
use catchb.FtmList.Access
use catchb.FtmList.Access.{Found, get_first, get_last, get_at, remove_at}

-- A record: the seconds of its time, and the other fields, which are only copied.
pub record Stat : Type 0 where
  pub sec : ℕ
  pub other_fields : ℕ

pub record Statistics : Type 0 where
  pub list : FtmList
  pub stat : ℕ → Stat
  pub live : ℕ → Bool
  pub max_count : ℕ
  pub interval : ℕ

-- `FTM_MEM_free`: freeing a block twice is a fault.
pub free : Statistics → (block : ℕ) → Run Statistics
free s p = if s.live p then done (record s { live = update s.live p false }) else fault

pub read_stat : Statistics → (block : ℕ) → Run Stat
read_stat s p = if s.live p then done (s.stat p) else fault

-- `malloc` makes the block live.
abbrev allocate : Option ℕ → Statistics → Found × Statistics
allocate none s = ((ok, none), s)
allocate (some p) s = ((ok, some p), record s { live = update s.live p true })

-- The oldest record's block is taken from the list.
reuse : Statistics → Found → Run (Found × Statistics)
unfolding remove_at
reuse s (ok, p) = do (r, l) ← remove_at s.list 0; done ((ok, p), record s { list = l })
reuse s (r, p) = done ((r, p), s)

-- The block for the new record.
new_block : (memory : Option ℕ) → Statistics → Run (Found × Statistics)
unfolding reuse get_first Access.count
new_block memory s =
    if ltb (Access.count s.list).1 s.max_count
    then done (allocate memory s)
    else (do f ← get_first s.list; reuse s f)

-- The block is freed if it does not go into the list.
settle : Statistics → (block : ℕ) → Ret × FtmList → Run (Ret × Statistics)
unfolding free
settle s p (ok, l) = done (ok, record s { list = l })
settle s p (r, l) = do s' ← free (record s { list = l }) p; done (r, s')

fill_block : (entry : Option ℕ) → Stat → Found × Statistics → Run (Ret × Statistics)
unfolding settle append
fill_block entry v ((ok, some p), s) =
    if s.live p
    then (do r ← append entry s.list p; settle (record s { stat = update s.stat p v }) p r)
    else fault
fill_block entry v ((ok, none), s) = done (not_enough_memory, s)
fill_block entry v ((r, p), s) = done (r, s)

pub add_statistics : (memory entry : Option ℕ) → Statistics → Stat → Run (Ret × Statistics)
unfolding new_block fill_block
add_statistics memory entry s v = do b ← new_block memory s; fill_block entry v b

-- The loop of `delStatistics`; an item comes with OK.
del_from : (n : ℕ) → (index : ℕ) → Statistics → Run Statistics
unfolding get_at remove_at free
del_from zero index s = done s
del_from (suc n) index s = do
  (f, l) ← get_at s.list index
  elim f.1 [
    | none ↦ done (record s { list = l })
    | some p ↦ do
      (r, l') ← remove_at l index
      s' ← free (record s { list = l' }) p
      del_from n index s'
  ]

pub del_statistics : (index n : ℕ) → Statistics → Run (Ret × Statistics)
unfolding del_from
del_statistics index n s = do s' ← del_from n index s; done (ok, s')

-- The loop of `delStatistics2`.
del_times : (n : ℕ) → (index first last : ℕ) → Statistics → Run Statistics
unfolding get_at remove_at free read_stat
del_times zero index first last s = done s
del_times (suc n) index first last s = do
  (f, l) ← get_at s.list index
  elim f.1 [
    | none ↦ done (record s { list = l })
    | some p ↦ do
      v ← read_stat s p
      elim (ltb v.sec first) [
        | true ↦ del_times n (index + 1) first last (record s { list = l })
        | false ↦ elim (leb last v.sec) [
          | true ↦ done (record s { list = l })
          | false ↦ do
            (r, l') ← remove_at l index
            s' ← free (record s { list = l' }) p
            del_times n index first last s'
        ]
      ]
  ]

pub del_statistics2 : (first last : ℕ) → Statistics → Run (Ret × Statistics)
unfolding del_times Access.count
del_statistics2 first last s = do
  s' ← del_times (Access.count s.list).1 0 first last s
  done (ok, s')

-- The loop of `getStatisticsList`: the records that it copies.
pub list_from : (n : ℕ) → (index : ℕ) → Statistics → Run (List Stat × Statistics)
unfolding get_at read_stat
list_from zero index s = done ([], s)
list_from (suc n) index s = do
  (f, l) ← get_at s.list index
  elim f.1 [
    | none ↦ done ([], record s { list = l })
    | some p ↦ do
      v ← read_stat s p
      (vs, s') ← list_from n (index + 1) (record s { list = l })
      done (v ∷ vs, s')
  ]

unfoldable get_statistics_count : Statistics → Ret × ℕ
unfolding Access.count
get_statistics_count s = Access.count s.list

-- The seconds of the first and the last record.
times_of : Statistics → Found → Found → Run (Ret × Option (ℕ × ℕ))
unfolding read_stat
times_of s (ok, some p) (ok, some q) = do
  v ← read_stat s p
  w ← read_stat s q
  done (ok, some (v.sec, w.sec))
times_of s (ok, p) (r, q) = done (r, none)
times_of s (r, p) f = done (r, none)

pub get_statistics_info : Statistics → Run (ℕ × Ret × Option (ℕ × ℕ))
unfolding get_first get_last times_of Access.count
get_statistics_info s = do
  f ← get_first s.list
  g ← get_last s.list
  (r, t) ← times_of s f g
  done ((Access.count s.list).1, r, t)

-- The loop of `setStatisticsMaxCount`: the first record's block is freed, and the list stays as it is.
-- The result is that of the last `getFirst`.
free_firsts : (n : ℕ) → Ret → Statistics → Run (Ret × Statistics)
unfolding get_first free
free_firsts zero r s = done (r, s)
free_firsts (suc n) r s = do
  (r', f) ← get_first s.list
  elim f [ none ↦ free_firsts n r' s | some p ↦ do s' ← free s p; free_firsts n r' s' ]

pub set_statistics_max_count : (max_count : ℕ) → Statistics → Run (Ret × Statistics)
unfolding free_firsts Access.count
set_statistics_max_count max_count s =
    let n = (Access.count s.list).1 in
    if ltb max_count n then free_firsts (n - max_count) ok s else done (ok, s)

unfoldable set_statistics_update_interval : (interval : ℕ) → Statistics → Ret × Statistics
set_statistics_update_interval i s =
    (ok, if leb 10000 i && leb i 3600000 then record s { interval = i } else s)
