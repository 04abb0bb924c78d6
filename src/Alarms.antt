-- ===== src/Alarms.antt =====
-- The alarms of lib/ftm_catchb.c and lib/ftm_alarm.h. The list exists between `FTM_CATCHB_create` and
-- `FTM_CATCHB_destroy`. An array of the caller is the list of what is written to it.
pub mod Get
pub mod Page
pub mod Change
mod Tests
use catchb.Base.{
  has_field, ℕ, zero, suc, ◌+◌, ◌/◌, ◌%◌, ◌^◌, Bool, true, false, Option, none, some, List, [], ◌∷◌,
  ◌++◌, map, Text, same, take, leb, ◌==◌, if◌then◌else◌,
}
use catchb.Run.{Run, done, fault, out_of_fuel, ◌>>=◌}
use catchb.Ret.{Ret, ok, not_enough_memory, object_not_found}
use catchb.Peer.{Peer, say}
use catchb.FtmList.Access
use catchb.FtmList.Access.{Found}
use catchb.Table.{Table, find, add, take_off, release, load, store, fresh, start, next}

pub record Alarm : Type 0 where
  pub name : Text
  pub email : Text
  pub message : Text

-- `FTM_DB_addAlarm` is the one call of the database.
pub data DbCall : Type 0 where
  db_add_alarm : Alarm → DbCall

pub record Alarms : Type 0 where
  pub alarms : Table Alarm
  pub db : Peer DbCall

-- `FTM_NAME_LEN`, `FTM_EMAIL_LEN` and `FTM_ALARM_MESSAGE_LEN`
abbrev pub copied : Alarm → Alarm
copied a = record { name = take 32 a.name; email = take 128 a.email; message = take 1024 a.message }

alarm_stored : (p : ℕ) → Ret × Alarms → Run (Ret × Alarms)
unfolding take_off release
alarm_stored p (ok, s) = done (ok, s)
alarm_stored p (r, s) = do
  (_, t) ← take_off s.alarms p
  t' ← release t p
  done (r, record s { alarms = t' })

alarm_listed : Alarm → (p : ℕ) → Ret × Alarms → Run (Ret × Alarms)
unfolding say alarm_stored release
alarm_listed a p (ok, s) =
    let (r, db) = say (db_add_alarm a) s.db in alarm_stored p (r, record s { db = db })
alarm_listed a p (r, s) = do t ← release s.alarms p; done (r, record s { alarms = t })

pub add_alarm : (memory entry : Option ℕ) → Alarms → Alarm → Run (Ret × Alarms)
unfolding add alarm_listed
add_alarm none entry s a = done (not_enough_memory, s)
add_alarm (some p) entry s a = do
  (r, t) ← add entry (fresh s.alarms p (copied a)) p
  alarm_listed (copied a) p (r, record s { alarms = t })

-- `FTM_CATCHB_ALARM_seeker`
abbrev pub has_name : (name : Text) → Alarm → Bool
has_name name a = same a.name name

alarm_off : (p : ℕ) → Ret × Alarms → Run (Ret × Alarms)
unfolding release
alarm_off p (ok, s) = do t ← release s.alarms p; done (ok, record s { alarms = t })
alarm_off p (r, s) = done (r, s)

alarm_found : Found × Alarms → Run (Ret × Alarms)
unfolding take_off alarm_off
alarm_found ((ok, some p), s) = do
  (r, t) ← take_off s.alarms p
  alarm_off p (r, record s { alarms = t })
alarm_found ((ok, none), s) = fault
alarm_found ((r, p), s) = done (r, s)

pub del_alarm : Alarms → (name : Text) → Run (Ret × Alarms)
unfolding find alarm_found
del_alarm s name = do
  (f, t) ← find (has_name name) s.alarms
  alarm_found (f, record s { alarms = t })

unfoldable get_alarm_count : Alarms → Ret × ℕ
unfolding Access.count
get_alarm_count s = Access.count s.alarms.list

-- The loop of `getAlarm`.
pub seek_alarm : (fuel : ℕ) → (name : Text) → Table Alarm → Run (Option Alarm × Table Alarm)
unfolding next load
seek_alarm zero name t = out_of_fuel
seek_alarm (suc n) name t = do
  (f, t') ← next t
  elim f.1 [
    | none ↦ done (none, t')
    | some p ↦ do
      a ← load t' p
      elim (same name a.name) [ true ↦ done (some a, t') | false ↦ seek_alarm n name t' ]
  ]

pub get_alarm : Alarms → (name : Text) → Run (Ret × Option Alarm × Alarms)
unfolding start seek_alarm
get_alarm s name = do
  t ← start s.alarms
  (o, t') ← seek_alarm (s.alarms.list.count + 1) name t
  elim o [
    | none ↦ done (object_not_found, none, record s { alarms = t' })
    | some a ↦ done (ok, some a, record s { alarms = t' })
  ]

abbrev with_fields : (flags : ℕ) → (from : Alarm) → Alarm → Alarm
with_fields flags from a = record a {
  email = if has_field flags 1 then from.email else a.email;
  message = if has_field flags 2 then from.message else a.message;
}

-- The loop of `setAlarm` runs while `iteratorNext` does not say OK; `garbage` is what `pTempAlarm`
-- holds.
pub change_alarm :
    (fuel garbage : ℕ)
    → (name : Text) → (from : Alarm) → (flags : ℕ) → Table Alarm
    → Run (Ret × Table Alarm)
unfolding next load store
change_alarm zero garbage name from flags t = out_of_fuel
change_alarm (suc n) garbage name from flags t = do
  (f, t') ← next t
  elim f.1 [
    | some p ↦ done (object_not_found, t')
    | none ↦ do
      a ← load t' garbage
      elim (same name a.name) [
        | true ↦ do t'' ← store t' garbage (with_fields flags from a); done (ok, t'')
        | false ↦ change_alarm n garbage name from flags t'
      ]
  ]

pub set_alarm :
    (fuel garbage : ℕ) → Alarms → (name : Text) → (from : Alarm) → (flags : ℕ) → Run (Ret × Alarms)
unfolding start change_alarm
set_alarm fuel garbage s name from flags = do
  t ← start s.alarms
  (r, t') ← change_alarm fuel garbage name from flags t
  done (r, record s { alarms = t' })

-- The loop of `getAlarmList`, with `i` and `ulCount`: what it writes.
pub page : (fuel index max i count : ℕ) → Table Alarm → Run (List Alarm × Table Alarm)
unfolding next load
page zero index max i count t = out_of_fuel
page (suc n) index max i count t = do
  (f, t') ← next t
  elim f.1 [
    | none ↦ done ([], t')
    | some p ↦ do
      a ← load t' p
      let here = if leb index i then a ∷ [] else []
      let count' = if leb index i then count + 1 else count
      elim (leb max count') [
        | true ↦ done (here, t')
        | false ↦ do
          (rest, t'') ← page n index max ((i + 1) % 2 ^ 32) (count' % 2 ^ 32) t'
          done (here ++ rest, t'')
      ]
  ]

pub get_alarm_list : Alarms → (index max : ℕ) → Run (List Alarm × Alarms)
unfolding start page
get_alarm_list s index max = do
  t ← start s.alarms
  (written, t') ← page (s.alarms.list.count + 1) index max 0 0 t
  done (written, record s { alarms = t' })

-- `getAlarmNameList` copies the names in the same loop.
unfoldable get_alarm_name_list : Alarms → (index max : ℕ) → Run (List Text × Alarms)
unfolding get_alarm_list
get_alarm_name_list s index max = do
  (written, s') ← get_alarm_list s index max
  done (map (λ a. a.name) written, s')
