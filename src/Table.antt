-- ===== src/Table.antt =====
-- Lists of pointers to records, as the callers of lib/ftm_list.c keep them: the list, what a block of
-- `FTM_MEM_malloc` holds and which blocks may be used. A seeker reads the block it is given.
pub mod Split
pub mod Disjoint
pub mod Holds
pub mod Distinct
pub mod Change
pub mod Lost
pub mod Search
pub mod Iterate
pub mod Nth
pub mod Rotate
pub mod Samples
use catchb.Base.{
  ℕ, zero, suc, ◌+◌, Bool, true, false, Option, none, some, List, [], ◌∷◌, if◌then◌else◌, ◌==◌,
  Text,
}
use catchb.Run.{Run, done, fault, out_of_fuel, ◌>>=◌}
use catchb.Ret.{Ret, ok, not_enough_memory}
use catchb.FtmList.{FtmList, append, update}
use catchb.FtmList.Access.{Found, get, get_at, remove, iterator_start, iterator_next}

pub record Table (A : Type 0) : Type 0 where
  pub list : FtmList
  pub block : ℕ → A
  pub live : ℕ → Bool

module _ {A : Type 0} where
  -- The list with its seeker on the memory as it is now.
  abbrev pub seeking : (A → Bool) → Table A → FtmList
  seeking test t = record (t.list) { seeker = some (λ p key. test (t.block p)) }

  unfoldable pub find : (test : A → Bool) → Table A → Run (Found × Table A)
  find test t = do (f, l) ← get (seeking test t) 0; done (f, record t { list = l })

  unfoldable pub add : (entry : Option ℕ) → Table A → (p : ℕ) → Run (Ret × Table A)
  add entry t p = do (r, l) ← append entry t.list p; done (r, record t { list = l })

  unfoldable pub take_off : Table A → (p : ℕ) → Run (Ret × Table A)
  take_off t p = do (r, l) ← remove t.list p; done (r, record t { list = l })

  -- `FTM_MEM_free`: freeing a block twice is a fault.
  unfoldable pub release : Table A → (p : ℕ) → Run (Table A)
  release t p = if t.live p then done (record t { live = update t.live p false }) else fault

  unfoldable pub load : Table A → (p : ℕ) → Run A
  load t p = if t.live p then done (t.block p) else fault

  unfoldable pub store : Table A → (p : ℕ) → A → Run (Table A)
  store t p v = if t.live p then done (record t { block = update t.block p v }) else fault

  -- A new block that is filled at once.
  abbrev pub fresh : Table A → (p : ℕ) → A → Table A
  fresh t p v = record t { block = update t.block p v; live = update t.live p true }

  -- `iteratorStart`, whose result no caller looks at, and `iteratorNext`.
  unfoldable pub start : Table A → Run (Table A)
  start t = do (_, l) ← iterator_start t.list; done (record t { list = l })

  unfoldable pub next : Table A → Run (Found × Table A)
  next t = do (f, l) ← iterator_next t.list; done (f, record t { list = l })

  unfoldable pub nth : (pos : ℕ) → Table A → Run (Found × Table A)
  nth pos t = do (f, l) ← get_at t.list pos; done (f, record t { list = l })
