-- ===== src/Queue.antt =====
-- lib/ftm_queue.c: a queue is one list of lib/ftm_list.c and nothing else. `memory`
-- is what `malloc` returns for the record.
pub mod Fifo
mod Tests
use catchb.Base.{ℕ, Bool, Option, none, some}
use catchb.Run.{Run, done, ◌>>=◌}
use catchb.Ret.{Ret, ok, not_enough_memory}
use catchb.FtmList
use catchb.FtmList.Access.{Found, get_at, remove}

abbrev pub Queue : Type 0
Queue = FtmList.FtmList

unfoldable pub init : (sem_fails : Bool) → Queue → Ret × Queue
unfolding FtmList.init
init fails q = FtmList.init fails q

unfoldable pub final : Queue → Run (Ret × Queue)
unfolding FtmList.final
final q = FtmList.final q

unfoldable create : (memory : Option Queue) → (sem_fails : Bool) → Ret × Option Queue
unfolding init
create none fails = (not_enough_memory, none)
create (some q) fails = (ok, some (init fails q).1)

-- The caller keeps its pointer.
unfoldable destroy : Queue → Run Ret
unfolding final
destroy q = do r ← final q; done ok

unfoldable pub push : (entry : Option ℕ) → Queue → ℕ → Run (Ret × Queue)
unfolding FtmList.append
push entry q item = FtmList.append entry q item

-- The rest of `pop`: only an item that was found is removed, by its pointer.
take_found : Found × Queue → Run (Found × Queue)
unfolding remove
take_found ((ok, some v), q) = do (r, q') ← remove q v; done ((r, some v), q')
take_found (f, q) = done (f, q)

unfoldable pub pop : Queue → Run (Found × Queue)
unfolding get_at take_found
pop q = do r ← get_at q 0; take_found r

unfoldable pub count : Queue → Ret × ℕ
unfolding FtmList.Access.count
count q = FtmList.Access.count q
