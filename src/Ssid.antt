-- ===== src/Ssid.antt =====
-- lib/ftm_ssid.c: the keys of the sessions of the server's clients. The list and the lock are set up
-- by the first create or get; before that they are static memory, all zero, so that the
-- semaphore of the list blocks. The clock is the argument `now`, in seconds.
mod Tests
pub mod Renew
pub mod Others
pub mod Life
pub mod Create
use catchb.Base.{
  ℕ, ◌+◌, ◌-◌, ◌%◌, ◌^◌, Bool, true, false, not, ◌&&◌, Option, none, some, List, [], ◌∷◌, ◌++◌,
  Text, same, take, ltb, ◌==◌, if◌then◌else◌,
}
use catchb.Run.{Run, done, fault, ◌>>=◌}
use catchb.Ret.{Ret, ok, error, not_enough_memory, object_not_found, invalid_ssid}
use catchb.FtmList.{FtmList, init}
use catchb.FtmList.Access.{Found}
use catchb.Table.{Table, find, add, take_off, release, load, store, fresh}
use catchb.Hash.{given, hex, hash_sha1}

pub record Ssid : Type 0 where
  pub key : Text
  pub time : ℕ

pub record Ids : Type 0 where
  pub initialized : Bool
  pub ids : Table Ssid

-- `FTM_SESSION_ID_LEN`
abbrev pub session_id_len : ℕ
session_id_len = 16

-- `FTM_SSID_Seeker`
abbrev pub has_key : (key : Text) → Ssid → Bool
has_key key s = same s.key key

-- What `sem_init` says for the list and for the lock.
pub record Semaphores : Type 0 where
  pub list_fails : Bool
  pub lock_fails : Bool

-- The block `if (!_initialized)`.
abbrev pub ready : Semaphores
ready = record { list_fails = false; lock_fails = false }

list_made : (lock_fails : Bool) → Ids → Ret × FtmList → Ret × Ids
list_made false s (ok, l) = (ok, record s { initialized = true; ids = record (s.ids) { list = l } })
list_made true s (ok, l) = (error, record s { ids = record (s.ids) { list = l } })
list_made lock_fails s (r, l) = (r, s)

pub set_up : Semaphores → Ids → Ret × Ids
unfolding init list_made
set_up f s =
    if s.initialized then (ok, s) else list_made f.lock_fails s (init f.list_fails s.ids.list)

-- What `malloc` returns for the key and for its entry, and whether it gives the seed.
pub record Memory : Type 0 where
  pub ssid : Option ℕ
  pub seed : Bool
  pub entry : Option ℕ

-- The text that is hashed: `ulSeedMaxLen` has room for all of it.
unfoldable seed_of : (id passwd : Option Text) → (time p : ℕ) → Text
unfolding hex
seed_of id passwd time p = given id ++ (given passwd ++ (hex 8 time ++ hex 8 p))

-- The blocks of `FTM_MEM_malloc` are clear while their tracing is on, so a key that the hash does
-- not write is empty.
abbrev pub new_key : (digest : Text → Option (List ℕ)) → (seed : Text) → Text
new_key digest seed = given (hash_sha1 digest seed session_id_len).1

-- The end of create, which does not look at the result of `append`.
create_seeded : Memory → (key : Text) → (time p : ℕ) → Ids → Run ((Ret × Option Text) × Ids)
unfolding add
create_seeded m key time p s = do
  (_, t) ← add m.entry (fresh s.ids p (record { key = key; time = time })) p
  done ((ok, some (take session_id_len key)), record s { ids = t })

create_ready :
    (digest : Text → Option (List ℕ))
    → Memory
    → (now : ℕ) → (id passwd : Option Text) → Ret × Ids
    → Run ((Ret × Option Text) × Ids)
unfolding create_seeded seed_of hash_sha1
create_ready digest m now id passwd (ok, s) = elim (m.ssid) [
  | none ↦ done ((not_enough_memory, none), s)
  | some p ↦ elim (m.seed) [
    | false ↦ done ((not_enough_memory, none), s)
    | true ↦
        let time = now % 2 ^ 32 in
        create_seeded m (new_key digest (seed_of id passwd time p)) time p s
  ]
]
create_ready digest m now id passwd (r, s) = done ((r, none), s)

-- `FTM_SSID_create`; the text is what it writes to `pKey`.
unfoldable pub create :
    (digest : Text → Option (List ℕ))
    → Semaphores
    → Memory
    → (now : ℕ) → (id passwd : Option Text) → Ids
    → Run ((Ret × Option Text) × Ids)
unfolding set_up create_ready
create digest f m now id passwd s = create_ready digest m now id passwd (set_up f s)

-- Taking a key off and freeing its block, if the list has it.
drop_off : (p : ℕ) → Ids → Run (Ret × Ids)
unfolding take_off release
drop_off p s = do
  (r, t) ← take_off s.ids p
  elim r [
    | ok ↦ do t' ← release t p; done (ok, record s { ids = t' })
    | other ↦ done (other, record s { ids = t })
  ]

destroy_found : Found → Ids → Run (Ret × Ids)
unfolding drop_off
destroy_found (ok, some p) s = drop_off p s
destroy_found (ok, none) s = fault
destroy_found (r, p) s = done (r, s)

-- `FTM_SSID_destroy`
unfoldable pub destroy : Ids → (key : Text) → Run (Ret × Ids)
unfolding find destroy_found
destroy s key = do (f, t) ← find (has_key key) s.ids; destroy_found f (record s { ids = t })

-- The test of get, in 32 bits; a timeout of 0 is none.
abbrev pub is_expired : (timeout now : ℕ) → Ssid → Bool
is_expired timeout now v =
    not (timeout == 0) && ltb timeout ((now % 2 ^ 32 + 2 ^ 32 - v.time) % 2 ^ 32)

get_loaded : (expired : Bool) → (p : ℕ) → Ids → Run (Found × Ids)
unfolding drop_off
get_loaded true p s = do (_, s') ← drop_off p s; done ((object_not_found, none), s')
get_loaded false p s = done ((ok, some p), s)

get_found : (timeout now : ℕ) → Found → Ids → Run (Found × Ids)
unfolding load get_loaded
get_found timeout now (ok, some p) s = do
  v ← load s.ids p
  get_loaded (is_expired timeout now v) p s
get_found timeout now (ok, none) s = fault
get_found timeout now (r, p) s = done ((r, none), s)

get_ready : (timeout now : ℕ) → (key : Text) → Ret × Ids → Run (Found × Ids)
unfolding find get_found
get_ready timeout now key (ok, s) = do
  (f, t) ← find (has_key key) s.ids
  get_found timeout now f (record s { ids = t })
get_ready timeout now key (r, s) = done ((r, none), s)

-- `FTM_SSID_get`
unfoldable pub get : Semaphores → (timeout now : ℕ) → Ids → (key : Text) → Run (Found × Ids)
unfolding set_up get_ready
get f timeout now s key = get_ready timeout now key (set_up f s)

valid_found : (now : ℕ) → Found × Ids → Run (Ret × Ids)
unfolding load store
valid_found now ((ok, some p), s) = do
  v ← load s.ids p
  t ← store s.ids p (record v { time = now % 2 ^ 32 })
  done (ok, record s { ids = t })
valid_found now ((ok, none), s) = fault
valid_found now ((r, p), s) = done (invalid_ssid, s)

-- `FTM_SSID_isValid`, with the clock when get reads it and when it does.
unfoldable pub is_valid :
    Semaphores → (timeout now later : ℕ) → Ids → (key : Text) → Run (Ret × Ids)
unfolding get valid_found
is_valid f timeout now later s key = do r ← get f timeout now s key; valid_found later r
