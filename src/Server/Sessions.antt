-- ===== src/Server/Sessions.antt =====
-- The sessions of lib/ftm_server.c: each is a block with two buffers of its own. `buffers` says which
-- blocks of bytes are live; a block of `FTM_MEM_malloc` is clear. Sockets, threads and the
-- semaphore of a session are I/O.
pub mod Life
use catchb.Base.{ℕ, ◌%◌, Bool, true, false, Option, none, some, if◌then◌else◌, ◌==◌}
use catchb.Run.{Run, done, fault, ◌>>=◌}
use catchb.Ret.{Ret, ok, not_enough_memory, cant_create_semaphore, list_not_insertable}
use catchb.FtmList.{update}
use catchb.FtmList.Access.{Found, count}
use catchb.Table.{Table, add, take_off, release, load, nth, fresh}

-- `FTM_SESSION`: the socket, the buffers and their length.
pub record Session : Type 0 where
  pub socket : ℕ
  pub request : ℕ
  pub response : ℕ
  pub length : ℕ

-- `xSessionList`
pub record Sessions : Type 0 where
  pub sessions : Table Session
  pub buffers : ℕ → Bool

-- What `malloc` returns for the session, its buffers and its entry, and what `sem_init` says.
pub record Memory : Type 0 where
  pub session : Option ℕ
  pub request : Option ℕ
  pub response : Option ℕ
  pub sem_fails : Bool
  pub entry : Option ℕ

take_buffer : (b : ℕ) → Sessions → Sessions
take_buffer b s = record s { buffers = update s.buffers b true }

free_buffer : (b : ℕ) → Sessions → Run Sessions
free_buffer b s =
    if s.buffers b then done (record s { buffers = update s.buffers b false }) else fault

-- A pointer that is NULL is not freed.
free_there : (b : ℕ) → Sessions → Run Sessions
unfolding free_buffer
free_there b s = if b == 0 then done s else free_buffer b s

-- A session whose block alone is in use.
lone : (p : ℕ) → Session → Sessions → Sessions
lone p v s = record s { sessions = fresh s.sessions p v }

-- The end of createSession after `sem_init`.
inserted : (p : ℕ) → Ret × Table Session → Sessions → Run ((Ret × Option ℕ) × Sessions)
unfolding release
inserted p (ok, t) s = done ((ok, some p), record s { sessions = t })
inserted p (r, t) s = do
  t' ← release t p
  done ((list_not_insertable, none), record s { sessions = t' })

-- With both buffers; a semaphore that cannot be made gives the block of the session back, not them.
buffered : Memory → (p : ℕ) → Sessions → Run ((Ret × Option ℕ) × Sessions)
unfolding add release inserted
buffered m p s =
    if m.sem_fails
    then (do
      t ← release s.sessions p
      done ((cant_create_semaphore, none), record s { sessions = t }))
    else (do (r, t) ← add m.entry s.sessions p; inserted p (r, t) s)

-- `error` frees a buffer that is there, and keeps the block of the session.
answering : Memory → (p a b : ℕ) → Session → Sessions → Run ((Ret × Option ℕ) × Sessions)
unfolding lone take_buffer buffered
answering m p a b v s = buffered m p (take_buffer b (lone p v (take_buffer a s)))

asking : Memory → (socket length p : ℕ) → (a : ℕ) → Sessions → Run ((Ret × Option ℕ) × Sessions)
unfolding lone take_buffer free_buffer answering
asking m socket length p a s = elim (m.response) [
  | none ↦ do
    let v : Session = record { socket = 0; request = a; response = 0; length = length }
    s' ← free_buffer a (lone p v (take_buffer a s))
    done ((not_enough_memory, none), s')
  | some b ↦
      answering m p a b (record { socket = socket; request = a; response = b; length = length }) s
]

-- `FTM_SERVER_createSession`; `length` is `ulBufferLen` of the configuration.
pub create_session : Memory → (socket length : ℕ) → Sessions → Run ((Ret × Option ℕ) × Sessions)
unfolding lone asking
create_session m socket length s = elim (m.session) [
  | none ↦ done ((not_enough_memory, none), s)
  | some p ↦ elim (m.request) [
    | none ↦
        let v : Session = record { socket = 0; request = 0; response = 0; length = length } in
        done ((not_enough_memory, none), lone p v s)
    | some a ↦ asking m socket length p a s
  ]
]

-- `FTM_SERVER_destroySession`, which does not look at the result of `remove`.
pub destroy_session : (p : ℕ) → Sessions → Run (Ret × Sessions)
unfolding load take_off free_there release
destroy_session p s = do
  v ← load s.sessions p
  (_, t) ← take_off s.sessions p
  s' ← free_there v.request (record s { sessions = t })
  s'' ← free_there v.response s'
  t' ← release s''.sessions p
  done (ok, record s'' { sessions = t' })

-- `FTM_SERVER_getSessionCount`
get_session_count : Sessions → Ret × ℕ
unfolding count
get_session_count s = count s.sessions.list

session_read : Found → Sessions → Run ((Ret × Option Session) × Sessions)
unfolding load
session_read (ok, some p) s = do v ← load s.sessions p; done ((ok, some v), s)
session_read (ok, none) s = fault
session_read (r, p) s = done ((r, none), s)

-- `FTM_SERVER_getSessionInfo`
get_session_info : Sessions → (index : ℕ) → Run ((Ret × Option Session) × Sessions)
unfolding nth session_read
get_session_info s index = do
  (f, t) ← nth index s.sessions
  session_read f (record s { sessions = t })
