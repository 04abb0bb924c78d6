-- ===== src/Msgq.antt =====
-- lib/ftm_msgq.c: a message queue, a queue with a semaphore that counts its messages. A message
-- is a pointer; `freed` records what `FTM_MEM_free` was given. `has_memory` says whether
-- `FTM_MEM_malloc` returns any.
pub mod Fifo
pub mod Trace
pub mod Final
pub mod Deadline
mod Tests
use catchb.Base.{
  ℕ, zero, suc, ◌+◌, ◌-◌, ◌*◌, ◌/◌, ◌%◌, Bool, true, false, Option, none, some, List, [], ◌∷◌, ◌++◌,
  ◌==◌, if◌then◌else◌,
}
use catchb.Run.{Run, done, blocked, out_of_fuel, ◌>>=◌}
use catchb.Ret.{Ret, ok, timeout, not_enough_memory}
use catchb.FtmList.{FtmList}
use catchb.FtmList.Access.{Found}
use catchb.Queue
use catchb.Queue.{Queue}

pub record Msgq : Type 0 where
  pub queue : Queue
  pub lock : ℕ
  pub freed : List ℕ

-- `memset` sets the record to zero bytes.
abbrev zeroed : FtmList
zeroed = record {
  count = 0;
  prev = λ _. 0;
  next = λ _. 0;
  item = λ _. 0;
  live = λ _. false;
  iterator = false;
  iter = 0;
  seeker = none;
  comparator = none;
  lock = 0;
}

-- The result of `FTM_QUEUE_init` is not looked at.
init : (sem_fails : Bool) → Ret × Msgq
unfolding Queue.init
init fails = (ok, record { queue = (Queue.init fails zeroed).1; lock = 0; freed = [] })

unfoldable create : (has_memory sem_fails : Bool) → Ret × Option Msgq
unfolding init
create false fails = (not_enough_memory, none)
create true fails = (ok, some (init fails).1)

abbrev listed : Option ℕ → List ℕ
listed none = []
listed (some v) = v ∷ []

-- The loop of `final`, which frees what it pops; the queue that it stops with.
drain : ℕ → Msgq → Run Msgq
unfolding Queue.pop
drain zero m = out_of_fuel
drain (suc n) m = do
  ((r, v), q) ← Queue.pop m.queue
  elim r [
    | ok ↦ drain n (record m { queue = q; freed = m.freed ++ listed v })
    | _ ↦ done (record m { queue = q })
  ]

pub final : Msgq → Run (Ret × Msgq)
unfolding drain Queue.final
final m = do
  m' ← drain (m.queue.count + 1) m
  (_, q) ← Queue.final m'.queue
  done (ok, record m' { queue = q })

-- The caller's pointer becomes NULL.
unfoldable destroy : Msgq → Run (Ret × Option Msgq)
unfolding final
destroy m = do r ← final m; done (ok, none)

-- `push` posts the semaphore for a message that went in.
announce : Msgq → Ret × Queue → Ret × Msgq
announce m (ok, q) = (ok, record m { queue = q; lock = m.lock + 1 })
announce m (r, q) = (r, record m { queue = q })

pub push : (entry : Option ℕ) → Msgq → ℕ → Run (Ret × Msgq)
unfolding announce Queue.push
push entry m msg = do r ← Queue.push entry m.queue msg; done (announce m r)

-- The rest of both pops, after the semaphore was taken: it is given back if there is no message.
hand_out : Msgq → Found × Queue → Found × Msgq
hand_out m ((ok, v), q) = ((ok, v), record m { queue = q })
hand_out m ((r, v), q) = ((r, none), record m { queue = q; lock = m.lock + 1 })

take : Msgq → Run (Found × Msgq)
unfolding hand_out Queue.pop
take m = do r ← Queue.pop m.queue; done (hand_out m r)

pub pop : Msgq → Run (Found × Msgq)
unfolding take
pop m = if m.lock == 0 then blocked else take (record m { lock = m.lock - 1 })

-- `sem_timedwait` fails when nobody posts before the time given to it is over.
pub timed_pop : Msgq → Run (Found × Msgq)
unfolding take
timed_pop m =
    if m.lock == 0 then done ((timeout, none), m) else take (record m { lock = m.lock - 1 })

-- That time: the clock's seconds and nanoseconds, and the timeout in milliseconds.
pub deadline : (sec nsec : ℕ) → (timeout_ms : ℕ) → ℕ × ℕ
deadline sec nsec timeout_ms =
    let nsec' = nsec + timeout_ms % 1000 * 1000000 in
    (sec + timeout_ms / 1000 + nsec' / 1000000000, nsec' % 1000000000)

count : Msgq → Ret × ℕ
unfolding Queue.count
count m = Queue.count m.queue

-- A message that could not be pushed is freed again.
keep_or_free : (msg : ℕ) → Ret × Msgq → Ret × Msgq
keep_or_free msg (ok, m) = (ok, m)
keep_or_free msg (r, m) = (r, record m { freed = m.freed ++ msg ∷ [] })

-- `pushQuit` pushes a new message; `msg` is what `FTM_MEM_malloc`
-- returns.
unfoldable push_quit : (msg entry : Option ℕ) → Msgq → Run (Ret × Msgq)
unfolding push keep_or_free
push_quit none entry m = done (not_enough_memory, m)
push_quit (some msg) entry m = do r ← push entry m msg; done (keep_or_free msg r)
