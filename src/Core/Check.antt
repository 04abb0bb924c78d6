-- ===== src/Core/Check.antt =====
-- `FTM_CATCHB_onCheckNewCCTV` of lib/ftm_catchb.c: the cameras are compared with those of the database,
-- and each difference becomes a message of the core to itself. What `push` answers is not
-- looked at, and memory for the messages is there.
pub mod Pushes
pub mod Answers
use catchb.Base.{
  ℕ, zero, suc, ◌+◌, Bool, true, false, ◌||◌, Option, none, some, List, [], ◌∷◌, Text, same, take,
  ◌==◌, if◌then◌else◌,
}
use catchb.Run.{Run, done, fault, out_of_fuel, ◌>>=◌}
use catchb.Ret.{Ret, ok}
use catchb.FtmList.Access.{Found}
use catchb.Table.{load, start, next}
use catchb.Cctv.{Cctv}
use catchb.Analyzer.Watch.{id_len}
use catchb.Core.{Core, db_get_cctv_count, db_get_cctv_list, push_removed, push_found, ask, get_cctv}

-- What the database says: the number of its cameras and the cameras; `array` is what `calloc` returns.
pub record Stored : Type 0 where
  pub count : ℕ
  pub array : Option ℕ
  pub rows : List Cctv

-- The loop over the array.
pub is_stored : (id : Text) → List Cctv → Bool
is_stored id [] = false
is_stored id (c ∷ cs) = same id c.id || is_stored id cs

-- A camera that is not in the database; `removedCCTVInDB` cuts the id.
pub camera_checked : List Cctv → Cctv → Core → Core
unfolding ask is_stored
camera_checked rows c s =
    if is_stored c.id rows then s else (ask (push_removed (take id_len c.id)) s).1

camera_seen : List Cctv → Found → Core → Run (Bool × Core)
unfolding load camera_checked
camera_seen rows (ok, some p) s = do c ← load s.cctvs p; done (true, camera_checked rows c s)
camera_seen rows (ok, none) s = fault
camera_seen rows f s = done (false, s)

next_checked : List Cctv → Core → Run (Bool × Core)
unfolding next camera_seen
next_checked rows s = do (f, t) ← next s.cctvs; camera_seen rows f (record s { cctvs = t })

-- The loop of the iterator.
check_cameras : ℕ → List Cctv → Core → Run Core
unfolding next_checked
check_cameras zero rows s = out_of_fuel
check_cameras (suc n) rows s = do
  (goes_on, s') ← next_checked rows s
  elim goes_on [ true ↦ check_cameras n rows s' | false ↦ done s' ]

-- A row that is not in the list; the last search gives the result.
row_checked : Cctv → Ret → Core → Core
unfolding ask
row_checked c ok s = s
row_checked c r s = (ask (push_found c) s).1

check_rows : List Cctv → Ret → Core → Run (Ret × Core)
unfolding get_cctv row_checked
check_rows [] r s = done (r, s)
check_rows (c ∷ cs) r s = do ((r', p), s') ← get_cctv s c.id; check_rows cs r' (row_checked c r' s')

cctvs_listed : Stored → Ret × Core → Run (Ret × Core)
unfolding start check_cameras check_rows
cctvs_listed d (ok, s) = do
  t ← start s.cctvs
  s' ← check_cameras (t.list.count + 1) d.rows (record s { cctvs = t })
  check_rows d.rows ok s'
cctvs_listed d (r, s) = done (r, s)

-- Without memory for the array the result stays OK.
cctvs_counted : Stored → Ret × Core → Run (Ret × Core)
unfolding ask cctvs_listed
cctvs_counted d (ok, s) = if d.count == 0 then done (ok, s) else elim d.array [
  | none ↦ done (ok, s)
  | some a ↦ cctvs_listed d (ask (db_get_cctv_list d.count) s)
]
cctvs_counted d (r, s) = done (r, s)

unfoldable pub on_check_new_cctv : Stored → Core → Run (Ret × Core)
unfolding ask cctvs_counted
on_check_new_cctv d s = cctvs_counted d (ask db_get_cctv_count s)
