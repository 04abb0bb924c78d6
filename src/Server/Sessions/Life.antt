-- ===== src/Server/Sessions/Life.antt =====
-- What sessions of lib/ftm_server.c leave in memory.
use mathlib.Core.List.{append-nil}
use catchb.Base.{
  ℕ, ◌+◌, ◌^◌, ◌<◌, ◌≡◌, ◌≢◌, refl, Bool, true, false, Option, none, some, List, [], ◌∷◌, ◌++◌,
  arith, length, ◌==◌, if◌then◌else◌,
}
use catchb.Run.{done}
use catchb.Ret.{ok, cant_create_semaphore, list_not_insertable}
use catchb.FtmList.{update}
use catchb.Table.{release}
use catchb.Table.Holds.{Holds, HoldsAt-Holds}
use catchb.Table.Change.{MayAllocate, add-HoldsAt, take_off-TakesOff, load-at}
use catchb.Table.Lost.{release-fresh, add-fresh_null}
use catchb.Server.Sessions.{
  Session, Sessions, Memory, take_buffer, free_buffer, free_there, lone, inserted, buffered,
  answering, asking, create_session, destroy_session,
}

-- The session that createSession makes.
abbrev pub session_made : (a b socket len : ℕ) → Session
session_made a b socket len = record { socket = socket; request = a; response = b; length = len }

-- `malloc` gives each block, and an entry or none.
abbrev pub blocks : (p a b : ℕ) → (sem_fails : Bool) → (entry : Option ℕ) → Memory
blocks p a b sem_fails entry = record {
  session = some p;
  request = some a;
  response = some b;
  sem_fails = sem_fails;
  entry = entry;
}

-- Addresses that are not in use.
pub record Free (s : Sessions) (p e a b : ℕ) : Type 0 where
  pub block : MayAllocate s.sessions p e
  pub apart : a ≢ b
  pub request_there : a ≢ 0
  pub response_there : b ≢ 0
  pub request : s.buffers a ≡ false
  pub response : s.buffers b ≡ false

-- With memory at addresses that are not in use and room in the count, and if the semaphore can
-- be made, createSession returns OK and puts the session at the end of the list, and
-- destroySession of it then returns OK and leaves the sessions that were there before, the
-- block of the session and both buffers free again.
pub destroy-create_session :
    (s : Sessions) (vs : List Session) (p e a b socket len : ℕ)
    → Holds s.sessions vs
    → Free s p e a b
    → length vs + 1 < 2 ^ 32
    → (t : Sessions) × (create_session (blocks p a b false (some e)) socket len s
        ≡ done ((ok, some p), t))
      × Holds t.sessions (vs ++ session_made a b socket len ∷ [])
      × (s' : Sessions) × (destroy_session p t ≡ done (ok, s'))
      × Holds s'.sessions vs
      × (s'.sessions.live p ≡ false)
      × ((x : ℕ) → s'.buffers x ≡ s.buffers x)
unfolding create_session asking answering buffered inserted lone take_buffer destroy_session
    free_buffer free_there
destroy-create_session s vs p e a b socket len h free small =
    let v = session_made a b socket len in
    let (t, run, k, live) = add-HoldsAt s.sessions p e v vs h free.block small in
    let off = take_off-TakesOff t vs p v [] k in
    let both = update (update s.buffers a true) b true in
    let has_a : both a ≡ true = ground (arith, free.apart) in
    let a_there : (a == 0) ≡ false = ground (arith, free.request_there) in
    let b_there : (b == 0) ≡ false = ground (arith, free.response_there) in
    let has_b : update both a false b ≡ true = ground (arith, free.apart) in
    (
      record { sessions = t; buffers = both },
      rw run refl,
      HoldsAt-Holds t vs p v [] k,
      record { sessions = off.freed; buffers = update (update both a false) b false },
      rw (load-at t vs p v [] k)
          (rw off.takes (rw a_there (rw has_a (rw b_there (rw has_b (rw off.frees refl)))))),
      rw append-nil at off.holds,
      off.dead,
      (λ x. ground (arith, free.request, free.response)),
    )

-- With memory for the session and its buffers at addresses that are not in use, but none for
-- the entry of the list, createSession returns CANT_CREATE_SEMAPHORE if the semaphore cannot be
-- made and LIST_NOT_INSERTABLE if it can, writes no session, and leaves the sessions as they
-- were, the block of the new one free and both its buffers in use.
pub create_session_leaks :
    (s : Sessions) (vs : List Session) (p e a b socket len : ℕ) (sem_fails : Bool)
    → Holds s.sessions vs
    → Free s p e a b
    → (t : Sessions) × (create_session (blocks p a b sem_fails none) socket len s
        ≡ done (((if sem_fails then cant_create_semaphore else list_not_insertable), none), t))
      × Holds t.sessions vs
      × (t.sessions.live p ≡ false)
      × (t.buffers a ≡ true)
      × (t.buffers b ≡ true)
unfolding create_session asking answering buffered inserted lone take_buffer release
create_session_leaks s vs p e a b socket len true h free =
    let v = session_made a b socket len in
    let (t, run, k, dead) = release-fresh s.sessions p v vs h free.block.unused_block in
    (
      record { sessions = t; buffers = update (update s.buffers a true) b true },
      rw run refl,
      k,
      dead,
      ground (arith, free.apart),
      ground arith,
    )
create_session_leaks s vs p e a b socket len false h free =
    let v = session_made a b socket len in
    let (t, adds, k, unused) = add-fresh_null s.sessions p v vs h free.block.unused_block in
    let (t', frees, k', dead) = release-fresh t p v vs k unused in
    (
      record { sessions = t'; buffers = update (update s.buffers a true) b true },
      rw adds (rw frees refl),
      k',
      dead,
      ground (arith, free.apart),
      ground arith,
    )
