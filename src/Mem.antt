-- ===== src/Mem.antt =====
-- lib/ftm_mem.c: the tracing of `FTM_MEM_malloc` and `FTM_MEM_free`. The macros pass `__func__`, so
-- `pFile` is never NULL. A caller's pointer stands behind the header of its block.
pub mod Trace
pub mod Free
mod Tests
use catchb.Base.{ℕ, zero, suc, ◌+◌, ◌*◌, Bool, true, false, Option, none, some, ◌==◌, if◌then◌else◌}
use catchb.Run.{Run, done, fault, out_of_fuel, ◌>>=◌}
use catchb.Ret.{Ret, ok, not_enough_memory}
use catchb.FtmList.{FtmList, update, init, final}
use catchb.FtmList.Access.{Found, count}
use catchb.Table.{Table, find, add, take_off, release, load, nth, fresh}

-- `FTM_MEM_BLOCK`; `mem` is the address of `pMem`, `name` that of the copy of the function's name.
pub record Block : Type 0 where
  pub mem : ℕ
  pub name : ℕ
  pub line : ℕ
  pub size : ℕ

-- `pMemList` with the memory of its blocks, and which copies of names are live.
pub record Tracing : Type 0 where
  pub initialized : Bool
  pub blocks : Table Block
  pub names : ℕ → Bool

-- `sizeof(FTM_MEM_BLOCK)`
abbrev pub header : ℕ
header = 16

-- `FTM_MEM_seeker`
abbrev pub has_mem : (mem : ℕ) → Block → Bool
has_mem mem b = b.mem == mem

-- What `malloc` returns for the block, the copy of the name and the entry of the list.
pub record Memory : Type 0 where
  pub block : Option ℕ
  pub name : Option ℕ
  pub entry : Option ℕ

-- `init`, whose calls are not looked at; `sem_fails` is what `sem_init` says.
trace_init : (sem_fails : Bool) → Tracing → Tracing
unfolding init
trace_init sem_fails s = record s {
  initialized = true;
  blocks = record (s.blocks) { list = (init sem_fails s.blocks.list).1 };
}

-- The end of malloc and calloc, which do not look at the result of `append`.
traced : (entry : Option ℕ) → (p : ℕ) → Block → Tracing → Run (Option ℕ × Tracing)
unfolding add
traced entry p b s = do
  (_, t) ← add entry (fresh s.blocks p b) p
  done (some b.mem, record s { blocks = t; names = update s.names b.name true })

-- Without memory for the name the block is given back.
named : Memory → (line size p : ℕ) → Tracing → Run (Option ℕ × Tracing)
unfolding traced
named m line size p s = elim (m.name) [
  | none ↦ done (none, s)
  | some n ↦ traced m.entry p (record { mem = p + header; name = n; line = line; size = size }) s
]

-- `FTM_MEM_TRACE_malloc`; before `init` it is `malloc`.
pub trace_malloc : Memory → (line size : ℕ) → Tracing → Run (Option ℕ × Tracing)
unfolding named
trace_malloc m line size s = elim (m.block) [
  | none ↦ done (none, s)
  | some p ↦
      if s.initialized
      then named m line size p s
      else done
          (some p, record s { blocks = record (s.blocks) { live = update s.blocks.live p true } })
]

-- `FTM_MEM_TRACE_calloc`
trace_calloc : Memory → (line number size : ℕ) → Tracing → Run (Option ℕ × Tracing)
unfolding trace_malloc
trace_calloc m line number size s = trace_malloc m line (number * size) s

free_name : (n : ℕ) → Tracing → Run Tracing
free_name n s = if s.names n then done (record s { names = update s.names n false }) else fault

-- `free` of the name and of the block.
free_block : (p : ℕ) → Tracing → Run Tracing
unfolding load free_name release
free_block p s = do
  b ← load s.blocks p
  s' ← free_name b.name s
  t ← release s'.blocks p
  done (record s' { blocks = t })

free_found : Found → Tracing → Run (Ret × Tracing)
unfolding take_off free_block
free_found (ok, some p) s = do
  (_, t) ← take_off s.blocks p
  s' ← free_block p (record s { blocks = t })
  done (ok, s')
free_found (ok, none) s = fault
free_found (r, p) s = done (not_enough_memory, s)

-- `FTM_MEM_TRACE_free`; before `init` it is `free`.
pub trace_free : (mem : ℕ) → Tracing → Run (Ret × Tracing)
unfolding find free_found release
trace_free mem s =
    if s.initialized
    then (do (f, t) ← find (has_mem mem) s.blocks; free_found f (record s { blocks = t }))
    else (do t ← release s.blocks mem; done (ok, record s { blocks = t }))

free_at : Option ℕ → Tracing → Run Tracing
unfolding free_block
free_at none s = fault
free_at (some p) s = free_block p s

abbrev or_last : (last found : Option ℕ) → Option ℕ
or_last last none = last
or_last last (some p) = some p

-- The loop of `final` over the positions; `last` is `pMB`, which stays where nothing is found.
free_from : (n pos : ℕ) → (last : Option ℕ) → Tracing → Run Tracing
unfolding nth free_at
free_from zero pos last s = done s
free_from (suc n) pos last s = do
  (f, t) ← nth pos s.blocks
  s' ← free_at (or_last last f.1) (record s { blocks = t })
  free_from n (pos + 1) (or_last last f.1) s'

-- `FTM_MEM_final`, with the number of blocks that it reports as leaked.
trace_final : Tracing → Run ((Ret × ℕ) × Tracing)
unfolding free_from final
trace_final s = do
  s' ← free_from s.blocks.list.count 0 none s
  (_, l) ← final s'.blocks.list
  done ((ok, s.blocks.list.count), record s' { blocks = record (s'.blocks) { list = l } })
