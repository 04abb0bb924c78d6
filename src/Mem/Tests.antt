-- ===== src/Mem/Tests.antt =====
-- Runs of lib/ftm_mem.c.
use catchb.Base.{◌≡◌, refl, true, false, some, [], ◌∷◌, arith, ◌==◌}
use catchb.Run.{done}
use catchb.Ret.{ok}
use catchb.Table.Samples.{
  no_blocks, no_blocks-Holds, no_blocks-MayAllocate, one_block, one_block-Holds,
}
use catchb.Mem.{Block, Tracing, trace_malloc, trace_free}
use catchb.Mem.Trace.{Traces}
use catchb.Mem.Free.{free-malloc}

-- The block at 10 with its name at 50.
abbrev block : Block
block = record { mem = 26; name = 50; line = 7; size = 4 }

abbrev nothing : Tracing
nothing = record { initialized = true; blocks = no_blocks block; names = λ n. false }

abbrev one : Tracing
one = record { initialized = true; blocks = one_block block; names = λ n. n == 50 }

nothing-Traces : Traces nothing []
nothing-Traces = record {
  initialized = refl;
  holds = no_blocks-Holds block;
  placed = λ q l. cc l;
  named = tt;
  apart = tt;
}

one-Traces : Traces one (block ∷ [])
one-Traces = record {
  initialized = refl;
  holds = one_block-Holds block;
  placed = λ q l. ground arith;
  named = (refl, tt);
  apart = (refl, tt);
}

free-malloc_example :
    (t : Tracing) × (trace_malloc
        (record { block = some 20; name = some 60; entry = some 2 })
        7
        4
        nothing
      ≡ done (some 36, t))
    × (s : Tracing) × (trace_free 36 t ≡ done (ok, s))
    × Traces s []
free-malloc_example =
    free-malloc nothing [] 7 4 20 60 2 nothing-Traces (no_blocks-MayAllocate block) refl
      (omega arith)
