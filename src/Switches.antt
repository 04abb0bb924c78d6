-- ===== src/Switches.antt =====
-- The switches of lib/ftm_catchb.c. The list exists between `FTM_CATCHB_create` and
-- `FTM_CATCHB_destroy`. A switch is what is configured of it: it starts without the entries of its
-- access control, which the detector adds, and they are freed with it.
pub mod Add
pub mod Change
pub mod Loaded
mod Tests
use catchb.Base.{
  has_field, ℕ, zero, suc, ◌/◌, ◌%◌, ◌^◌, Bool, true, false, Option, none, some, List, [], ◌∷◌, map,
  Text, same, ◌==◌, if◌then◌else◌,
}
use catchb.Run.{Run, done, fault, ◌>>=◌}
use catchb.Ret.{Ret, ok, not_enough_memory, invalid_arguments, object_already_exist}
use catchb.Peer.{Peer, say}
use catchb.FtmList.Access
use catchb.FtmList.Access.{Found, get_first}
use catchb.Table.{Table, find, add, take_off, release, load, store, fresh, start, next}

-- `FTM_SWITCH_CONFIG`
pub record SwitchConfig : Type 0 where
  pub id : Text
  pub model : Text
  pub ip : Text
  pub secure : Bool
  pub user_id : Text
  pub passwd : Text
  pub comment : Text

pub data SwitchCall : Type 0 where
  db_add_switch : SwitchConfig → SwitchCall
  db_is_ac_table_exist db_destroy_ac_table db_create_ac_table db_delete_switch :
      (id : Text) → SwitchCall
  db_get_ac_count db_get_ac_list : (ip : Text) → SwitchCall
  db_set_switch_properties : (id : Text) → SwitchConfig → (flags : ℕ) → SwitchCall

pub record Switches : Type 0 where
  pub switches : Table SwitchConfig
  pub db : Peer SwitchCall

pub tell_db : SwitchCall → Switches → Ret × Switches
unfolding say
tell_db c s = let (r, db) = say c s.db in (r, record s { db = db })

-- What `malloc` returns for a switch, for its list and for its entry.
pub record SwitchMemory : Type 0 where
  pub switch : Option ℕ
  pub acs : Option ℕ
  pub entry : Option ℕ

-- `FTM_SWITCH_create` without access controls.
unfoldable pub create_switch :
    SwitchMemory → Table SwitchConfig → SwitchConfig → Found × Table SwitchConfig
create_switch m t c = elim m.switch [
  | none ↦ ((not_enough_memory, none), t)
  | some p ↦ elim m.acs [
    | none ↦ ((not_enough_memory, none), t)
    | some a ↦ ((ok, some p), fresh t p c)
  ]
]

-- The label `error`: the result stays.
pub torn : (p : ℕ) → Ret × Switches → Run (Ret × Switches)
unfolding take_off release
torn p (r, s) = do
  (_, t) ← take_off s.switches p
  t' ← release t p
  done (r, record s { switches = t' })

-- The label `error2`: the result becomes that of deleting the switch from the database.
pub undone : (id : Text) → (p : ℕ) → Switches → Run (Ret × Switches)
unfolding tell_db torn
undone id p s = torn p (tell_db (db_delete_switch id) s)

table_created : (id : Text) → (p : ℕ) → Ret × Switches → Run (Ret × Switches)
unfolding undone
table_created id p (ok, s) = done (ok, s)
table_created id p (r, s) = undone id p s

table_dropped : (id : Text) → (p : ℕ) → Ret × Switches → Run (Ret × Switches)
unfolding tell_db table_created undone
table_dropped id p (ok, s) = table_created id p (tell_db (db_create_ac_table id) s)
table_dropped id p (r, s) = undone id p s

-- `exists` is what `FTM_DB_isACTableExist` says; its result is not looked at.
switch_stored : (exists : Bool) → (id : Text) → (p : ℕ) → Ret × Switches → Run (Ret × Switches)
unfolding tell_db table_dropped torn
switch_stored true id p (ok, s) =
    table_dropped id p (tell_db (db_destroy_ac_table id) (tell_db (db_is_ac_table_exist id) s).1)
switch_stored false id p (ok, s) = table_dropped id p (ok, (tell_db (db_is_ac_table_exist id) s).1)
switch_stored exists id p (r, s) = torn p (r, s)

switch_listed : (exists : Bool) → SwitchConfig → (p : ℕ) → Ret × Switches → Run (Ret × Switches)
unfolding tell_db switch_stored torn
switch_listed exists c p (ok, s) = switch_stored exists c.id p (tell_db (db_add_switch c) s)
switch_listed exists c p (r, s) = torn p (r, s)

switch_made :
    SwitchMemory
    → (exists : Bool) → SwitchConfig
    → Switches
    → Found × Table SwitchConfig
    → Run (Ret × Switches)
unfolding add switch_listed
switch_made m exists c s ((ok, some p), t) = do
  (r, t') ← add m.entry t p
  switch_listed exists c p (r, record s { switches = t' })
switch_made m exists c s ((r, p), t) = done (r, record s { switches = t })

-- `FTM_CATCHB_SWITCH_seeker`
abbrev pub has_switch_id : (id : Text) → SwitchConfig → Bool
has_switch_id id c = same c.id id

switch_searched :
    SwitchMemory
    → (exists : Bool) → SwitchConfig
    → Switches
    → Found × Table SwitchConfig
    → Run (Ret × Switches)
unfolding switch_made create_switch
switch_searched m exists c s ((ok, p), t) = done (object_already_exist, record s { switches = t })
switch_searched m exists c s (f, t) = switch_made m exists c s (create_switch m t c)

add_named : SwitchMemory → (exists : Bool) → Switches → SwitchConfig → Run (Ret × Switches)
unfolding find switch_searched
add_named m exists s c = do f ← find (has_switch_id c.id) s.switches; switch_searched m exists c s f

pub add_switch : SwitchMemory → (exists : Bool) → Switches → SwitchConfig → Run (Ret × Switches)
unfolding add_named
add_switch m exists s c = elim c.id [
  | [] ↦ done (invalid_arguments, s)
  | x ∷ xs ↦ add_named m exists s c
]

-- `delSwitch` does not look at the results of the database.
switch_off : (p : ℕ) → (id : Text) → Ret × Switches → Run (Ret × Switches)
unfolding tell_db release
switch_off p id (ok, s) = do
  let s' = (tell_db (db_destroy_ac_table id) (tell_db (db_delete_switch id) s).1).1
  t ← release s'.switches p
  done (ok, record s' { switches = t })
switch_off p id (r, s) = done (r, s)

switch_found : (id : Text) → Switches → Found × Table SwitchConfig → Run (Ret × Switches)
unfolding take_off switch_off
switch_found id s ((ok, some p), t) = do
  (r, t') ← take_off t p
  switch_off p id (r, record s { switches = t' })
switch_found id s ((ok, none), t) = fault
switch_found id s ((r, p), t) = done (r, record s { switches = t })

pub del_switch : Switches → (id : Text) → Run (Ret × Switches)
unfolding find switch_found
del_switch s id = do f ← find (has_switch_id id) s.switches; switch_found id s f

-- No id means the first switch.
unfoldable get_switch : Switches → (id : Text) → Run (Found × Switches)
unfolding find get_first
get_switch s [] = do f ← get_first s.switches.list; done (f, s)
get_switch s (x ∷ xs) = do
  (f, t) ← find (has_switch_id (x ∷ xs)) s.switches
  done (f, record s { switches = t })

abbrev pub with_switch_fields : (flags : ℕ) → (from : SwitchConfig) → SwitchConfig → SwitchConfig
with_switch_fields flags from c = record c {
  model = if has_field flags 1 then from.model else c.model;
  ip = if has_field flags 2 then from.ip else c.ip;
  user_id = if has_field flags 3 then from.user_id else c.user_id;
  passwd = if has_field flags 4 then from.passwd else c.passwd;
  secure = if has_field flags 5 then from.secure else c.secure;
  comment = if has_field flags 6 then from.comment else c.comment;
}

switch_set :
    (id : Text)
    → (from : SwitchConfig) → (flags : ℕ) → Switches
    → Found × Table SwitchConfig
    → Run (Ret × Switches)
unfolding load store tell_db
switch_set id from flags s ((ok, some p), t) = do
  c ← load t p
  t' ← store t p (with_switch_fields flags from c)
  done (
      tell_db (db_set_switch_properties id (with_switch_fields flags from c) flags)
        (record s { switches = t' }))
switch_set id from flags s ((ok, none), t) = fault
switch_set id from flags s ((r, p), t) = done (r, record s { switches = t })

pub set_switch_properties :
    Switches → (id : Text) → (from : SwitchConfig) → (flags : ℕ) → Run (Ret × Switches)
unfolding find switch_set
set_switch_properties s id from flags = do
  f ← find (has_switch_id id) s.switches
  switch_set id from flags s f

-- The loop of `getSwitchIDList`: what it writes.
pub first_switches : (max : ℕ) → Table SwitchConfig → Run (List SwitchConfig × Table SwitchConfig)
unfolding next load
first_switches zero t = done ([], t)
first_switches (suc n) t = do
  (f, t') ← next t
  elim f.1 [
    | none ↦ done ([], t')
    | some p ↦ do c ← load t' p; (rest, t'') ← first_switches n t'; done (c ∷ rest, t'')
  ]

-- The ids have one length, so each is copied whole.
pub get_switch_id_list : Switches → (max : ℕ) → Run (List Text × Switches)
unfolding start first_switches
get_switch_id_list s max = do
  t ← start s.switches
  (cs, t') ← first_switches max t
  done (map (λ c. c.id) cs, record s { switches = t' })
