-- ===== src/Core.antt =====
-- The cameras of lib/ftm_catchb.c: the messages that its thread handles. The lists exist between
-- `FTM_CATCHB_create` and `FTM_CATCHB_destroy`, and so do the detector and the notifier. The
-- database, the detector and the notifier answer each call as they like, which may depend
-- on all calls up to then.
pub mod Attach
pub mod Create
pub mod Delete
pub mod Status
pub mod Settings
pub mod Check
pub mod Messages
mod Tests
use catchb.Base.{
  has_field, ℕ, ◌+◌, ◌/◌, ◌%◌, ◌^◌, Bool, true, false, ◌||◌, Option, none, some, List, [], ◌∷◌,
  ◌++◌, Text, same, take, ◌==◌, if◌then◌else◌,
}
use catchb.Run.{Run, done, fault, ◌>>=◌}
use catchb.Ret.{Ret, ok, object_not_found, object_already_exist}
use catchb.FtmList.Access.{Found}
use catchb.Table.{Table, find, add, take_off, load, store}
use catchb.Cctv
use catchb.Cctv.{Cctv, CctvStat, unregistered, unused, normal, abnormal}
use catchb.Analyzer.Watch.{attach, detach}
use catchb.Detector.{Control, control}

pub data LogType : Type 0 where
  normal_log error_log : LogType

-- The calls that leave the core, and the messages that it puts into its own queue.
pub data Call : Type 0 where
  db_add_cctv : Cctv → Call
  db_delete_cctv : (id : Text) → Call
  db_update_hash : (id hash : Text) → Call
  db_set_properties : (id : Text) → Cctv → (flags : ℕ) → Call
  db_add_log : LogType → (time : ℕ) → (id ip : Text) → CctvStat → (hash : Text) → Call
  send_alarm :
      LogType
      → (id ip : Text) → (time : ℕ) → (now : CctvStat) → (hash : Text) → (before : CctvStat) → Call
  set_control : Control → Call
  db_get_cctv_count : Call
  db_get_cctv_list : (max : ℕ) → Call
  push_removed : (id : Text) → Call
  push_found : Cctv → Call

pub record Core : Type 0 where
  pub cctvs : Table Cctv
  pub watched : Table Text
  pub calls : List Call
  pub answer : List Call → Ret

pub ask : Call → Core → Ret × Core
ask c s = let calls = s.calls ++ c ∷ [] in (s.answer calls, record s { calls = calls })

-- What `malloc` returns for a camera and its entry, and for a watched id and its entry.
pub record Memory : Type 0 where
  pub cctv : Option ℕ
  pub lock_fails : Bool
  pub entry : Option ℕ
  pub id : Option ℕ
  pub id_entry : Option ℕ

-- `FTM_HASH_LEN`
abbrev pub hash_len : ℕ
hash_len = 48

-- `FTM_CATCHB_CCTVSeeker`
abbrev pub has_id : (id : Text) → Cctv → Bool
has_id id c = same c.id id

unfoldable pub get_cctv : Core → (id : Text) → Run (Found × Core)
unfolding find
get_cctv s id = do (f, t) ← find (has_id id) s.cctvs; done (f, record s { cctvs = t })

watch : Memory → Core → (id : Text) → Run (Ret × Core)
unfolding attach
watch m s id = do (r, t) ← attach m.id m.id_entry s.watched id; done (r, record s { watched = t })

unwatch : Core → (id : Text) → Run (Ret × Core)
unfolding detach
unwatch s id = do (r, t) ← detach s.watched id; done (r, record s { watched = t })

destroy_cctv : Core → (p : ℕ) → Run Core
unfolding Cctv.destroy
destroy_cctv s p = do t ← Cctv.destroy s.cctvs p; done (record s { cctvs = t })

-- The end of `onCreateCCTV`: a failed attach destroys the camera, which stays in the list.
create_watched : (p : ℕ) → Ret × Core → Run (Ret × Core)
unfolding destroy_cctv
create_watched p (ok, s) = done (ok, s)
create_watched p (r, s) = do s' ← destroy_cctv s p; done (r, s')

create_stored : Memory → Cctv → (p : ℕ) → Ret × Core → Run (Ret × Core)
unfolding watch create_watched take_off destroy_cctv
create_stored m c p (ok, s) = do r ← watch m s c.id; create_watched p r
create_stored m c p (r, s) = do
  (_, t) ← take_off s.cctvs p
  s' ← destroy_cctv (record s { cctvs = t }) p
  done (r, s')

create_listed : Memory → Cctv → (p : ℕ) → Ret × Core → Run (Ret × Core)
unfolding ask create_stored destroy_cctv
create_listed m c p (ok, s) = create_stored m c p (ask (db_add_cctv c) s)
create_listed m c p (r, s) = do s' ← destroy_cctv s p; done (r, s')

create_made : Memory → Cctv → Core → Found × Table Cctv → Run (Ret × Core)
unfolding add create_listed
create_made m c s ((ok, some p), t) = do
  (r, t') ← add m.entry t p
  create_listed m c p (r, record s { cctvs = t' })
create_made m c s ((r, p), t) = done (r, record s { cctvs = t })

create_found : Memory → Cctv → Found × Core → Run (Ret × Core)
unfolding create_made Cctv.create
create_found m c ((ok, p), s) = done (object_already_exist, s)
create_found m c (f, s) = create_made m c s (Cctv.create m.cctv m.lock_fails s.cctvs c)

-- A time of 0 becomes the clock's.
abbrev pub dated : (now : ℕ) → Cctv → Cctv
dated now c = record c { time = if c.time == 0 then now % 2 ^ 32 else c.time }

pub on_create_cctv : Memory → (now : ℕ) → Core → Cctv → Run (Ret × Core)
unfolding get_cctv create_found
on_create_cctv m now s c = do f ← get_cctv s c.id; create_found m (dated now c) f

-- `onDeleteCCTV` does not look at the results of detaching and of the database.
delete_listed : (p : ℕ) → (id : Text) → Ret × Core → Run (Ret × Core)
unfolding ask destroy_cctv
delete_listed p id (ok, s) = do s' ← destroy_cctv (ask (db_delete_cctv id) s).1 p; done (ok, s')
delete_listed p id (r, s) = done (r, s)

delete_found : (id : Text) → Found × Core → Run (Ret × Core)
unfolding unwatch take_off delete_listed
delete_found id ((ok, some p), s) = do
  (_, s') ← unwatch s id
  (r, t) ← take_off s'.cctvs p
  delete_listed p id (r, record s' { cctvs = t })
delete_found id ((ok, none), s) = fault
delete_found id ((r, p), s) = done (object_not_found, s)

pub on_delete_cctv : Core → (id : Text) → Run (Ret × Core)
unfolding get_cctv delete_found
on_delete_cctv s id = do f ← get_cctv s id; delete_found id f

-- A camera that the database knows is not looked up first.
found_listed : Memory → (id : Text) → (p : ℕ) → Ret × Core → Run (Ret × Core)
unfolding watch destroy_cctv
found_listed m id p (ok, s) = watch m s id
found_listed m id p (r, s) = do s' ← destroy_cctv s p; done (r, s')

abbrev pub found_stat : Cctv → Cctv
found_stat c = elim c.hash [ [] ↦ c | _ ↦ record c { stat = unused } ]

found_made : Memory → Cctv → Core → Found × Table Cctv → Run (Ret × Core)
unfolding add store found_listed
found_made m c s ((ok, some p), t) = do
  t' ← store t p (found_stat c)
  (r, t'') ← add m.entry t' p
  found_listed m c.id p (r, record s { cctvs = t'' })
found_made m c s ((r, p), t) = done (r, record s { cctvs = t })

pub on_found_cctv_in_db : Memory → Core → Cctv → Run (Ret × Core)
unfolding Cctv.create found_made
on_found_cctv_in_db m s c = found_made m c s (Cctv.create m.cctv m.lock_fails s.cctvs c)

-- `onRemovedCCTVInDB` returns what detaching returns.
removed_off : (p : ℕ) → Ret × Core → Run (Ret × Core)
unfolding load unwatch destroy_cctv
removed_off p (ok, s) = do
  c ← load s.cctvs p
  (r, s') ← unwatch s c.id
  s'' ← destroy_cctv s' p
  done (r, s'')
removed_off p (r, s) = done (r, s)

removed_found : Found × Core → Run (Ret × Core)
unfolding take_off removed_off
removed_found ((ok, some p), s) = do
  (r, t) ← take_off s.cctvs p
  removed_off p (r, record s { cctvs = t })
removed_found ((ok, none), s) = fault
removed_found ((r, p), s) = done (r, s)

pub on_removed_cctv_in_db : Core → (id : Text) → Run (Ret × Core)
unfolding get_cctv removed_found
on_removed_cctv_in_db s id = do f ← get_cctv s id; removed_found f

-- A write through the pointer that a search has found.
pub change : Core → (p : ℕ) → (Cctv → Cctv) → Run (Cctv × Core)
unfolding load store
change s p f = do c ← load s.cctvs p; t ← store s.cctvs p (f c); done (c, record s { cctvs = t })
