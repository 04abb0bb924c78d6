-- ===== src/Switches/Loaded.antt =====
-- `FTM_CATCHB_onFoundSwitchInDB` and `FTM_CATCHB_onRemovedSwitchInDB` of lib/ftm_catchb.c.
pub mod Crash
use catchb.Base.{
  ℕ, zero, suc, ◌+◌, Bool, true, false, Option, none, some, List, Text, length, get_elem?, ◌==◌,
  if◌then◌else◌,
}
use catchb.Run.{Run, done, fault, ◌>>=◌}
use catchb.Ret.{Ret, ok, not_enough_memory}
use catchb.FtmList.Access.{Found}
use catchb.Table.{Table, find, add, take_off, release}
use catchb.Switch.{Ac}
use catchb.Switches.{
  SwitchConfig, Switches, SwitchMemory, create_switch, has_switch_id, tell_db, db_is_ac_table_exist,
  db_create_ac_table, db_get_ac_count, db_get_ac_list,
}

-- What the database says of the access controls of a switch: whether its table is there, how many it
-- counts, and what it writes; and what `calloc` returns for the array.
pub record AcAnswers : Type 0 where
  pub exists : Bool
  pub count : ℕ
  pub array : Option ℕ
  pub rows : List Ac

-- The rows are in an array that is lost: it is another variable of the name `pACs`.
acs_listed : List Ac → Ret × Switches → (Ret × ℕ) × Switches
acs_listed rows (ok, s) = ((ok, length rows), s)
acs_listed rows (r, s) = ((r, 0), s)

acs_counted : AcAnswers → (ip : Text) → Switches → (Ret × ℕ) × Switches
unfolding tell_db acs_listed
acs_counted d ip s = if d.count == 0 then ((ok, 0), s) else elim d.array [
  | none ↦ ((not_enough_memory, 0), s)
  | some p ↦ acs_listed d.rows (tell_db (db_get_ac_list ip) s)
]

table_made : Ret × Switches → (Ret × ℕ) × Switches
table_made (r, s) = ((r, 0), s)

-- The result and `ulACCount`; what counting answers is not looked at.
table_asked : AcAnswers → (ip : Text) → Ret × Switches → (Ret × ℕ) × Switches
unfolding tell_db acs_counted table_made
table_asked d ip (ok, s) =
    if d.exists
    then acs_counted d ip (tell_db (db_get_ac_count ip) s).1
    else table_made (tell_db (db_create_ac_table ip) s)
table_asked d ip (r, s) = table_made (tell_db (db_create_ac_table ip) s)

-- The loop of `FTM_SWITCH_create` from `i` on: `memory` is what `malloc` returns for each entry, `acs`
-- the array, `none` for NULL. The entries are not kept, since the array is NULL in every call here.
copy_acs : (memory : ℕ → Option ℕ) → (acs : Option (List Ac)) → (n i : ℕ) → Run Ret
copy_acs memory acs zero i = done ok
copy_acs memory acs (suc n) i = elim (memory i) [
  | none ↦ done not_enough_memory
  | some a ↦ elim acs [
    | none ↦ fault
    | some rows ↦ elim (get_elem? rows i) [ none ↦ fault | some ac ↦ copy_acs memory acs n (i + 1) ]
  ]
]

acs_copied :
    (before : Table SwitchConfig) → Found × Table SwitchConfig → Ret → Found × Table SwitchConfig
acs_copied before f ok = f
acs_copied before f r = ((r, none), before)

-- `FTM_SWITCH_create`, which frees the switch if an entry has no memory.
create_with_acs :
    (memory : ℕ → Option ℕ)
    → (acs : Option (List Ac)) → (count : ℕ) → (before : Table SwitchConfig)
    → Found × Table SwitchConfig
    → Run (Found × Table SwitchConfig)
unfolding copy_acs acs_copied
create_with_acs memory acs count before ((ok, some p), t) = do
  r ← copy_acs memory acs count 0
  done (acs_copied before ((ok, some p), t) r)
create_with_acs memory acs count before f = done f

loaded : (p : ℕ) → Ret × Switches → Run (Ret × Switches)
unfolding release
loaded p (ok, s) = done (ok, s)
loaded p (r, s) = do t ← release s.switches p; done (r, record s { switches = t })

switch_loaded : (entry : Option ℕ) → Switches → Found × Table SwitchConfig → Run (Ret × Switches)
unfolding add loaded
switch_loaded entry s ((ok, some p), t) = do
  (r, t') ← add entry t p
  loaded p (r, record s { switches = t' })
switch_loaded entry s ((r, p), t) = done (r, record s { switches = t })

-- The outer `pACs`, which nothing sets.
abbrev pub acs_passed : Option (List Ac)
acs_passed = none

switch_counted :
    SwitchMemory
    → (memory : ℕ → Option ℕ) → SwitchConfig
    → (Ret × ℕ) × Switches
    → Run (Ret × Switches)
unfolding create_switch create_with_acs switch_loaded
switch_counted m memory c ((ok, count), s) = do
  f ← create_with_acs memory acs_passed count s.switches (create_switch m s.switches c)
  switch_loaded m.entry s f
switch_counted m memory c ((r, count), s) = done (r, s)

pub on_found_switch_in_db :
    SwitchMemory
    → (memory : ℕ → Option ℕ) → AcAnswers
    → Switches
    → SwitchConfig
    → Run (Ret × Switches)
unfolding tell_db table_asked switch_counted
on_found_switch_in_db m memory d s c =
    switch_counted m memory c (table_asked d c.ip (tell_db (db_is_ac_table_exist c.id) s))

removed_off : (p : ℕ) → Ret × Switches → Run (Ret × Switches)
unfolding release
removed_off p (ok, s) = do t ← release s.switches p; done (ok, record s { switches = t })
removed_off p (r, s) = done (r, s)

removed_found : Switches → Found × Table SwitchConfig → Run (Ret × Switches)
unfolding take_off removed_off
removed_found s ((ok, some p), t) = do
  (r, t') ← take_off t p
  removed_off p (r, record s { switches = t' })
removed_found s ((ok, none), t) = fault
removed_found s ((r, p), t) = done (r, record s { switches = t })

on_removed_switch_in_db : Switches → (id : Text) → Run (Ret × Switches)
unfolding find removed_found
on_removed_switch_in_db s id = do f ← find (has_switch_id id) s.switches; removed_found s f
