-- ===== src/Mem/Free.antt =====
-- Blocks of lib/ftm_mem.c that are made, freed, and freed again.
use catchb.Base.{
  ℕ, ◌+◌, ◌^◌, ◌<◌, ◌≡◌, refl, sym, ap, ◌∙◌, true, false, Option, some, List, [], ◌∷◌, ◌++◌, map,
  arith, length,
}
use catchb.Run.{Run, done, bind-eq-done, done-injective}
use catchb.Ret.{Ret, ok, not_enough_memory}
use catchb.FtmList.{append, update}
use catchb.FtmList.Shows.{not-mem_of_unused, AllLive-update, AllLive-join}
use catchb.Table.{Table, add, fresh}
use catchb.Table.Split.{first?, drop_first, first?-last, drop_first-last}
use catchb.Table.Holds.{HoldsAt-Holds, map-append}
use catchb.Table.Change.{MayAllocate, add-HoldsAt}
use catchb.Table.Distinct.{AllDistinct-last}
use catchb.Table.Search.{find-NotFound}
use catchb.Mem.{
  Block, Tracing, Memory, header, has_mem, traced, named, trace_malloc, free_found, trace_free,
}
use catchb.Mem.Trace.{Traces, unknown-has_mem, trace_free-Freed}

-- Adding to the list writes no block.
add_memory :
    {A : Type 0} (entry : Option ℕ) (t t' : Table A) (p : ℕ) (r : Ret)
    → add entry t p ≡ done (r, t')
    → (t'.block ≡ t.block) × (t'.live ≡ t.live)
unfolding add
add_memory entry t t' p r run =
    let (x, _, last) =
      bind-eq-done (append entry t.list p) (λ x. done (x.0, record t { list = x.1 })) run in
    let end = done-injective last in (sym (ap (λ y. y.1.block) end), sym (ap (λ y. y.1.live) end))

-- What a call of malloc leaves.
pub record Made (s : Tracing) (line size p n e : ℕ) (bs : List Block) : Type 0 where
  pub after : Tracing
  pub runs :
      trace_malloc (record { block = some p; name = some n; entry = some e }) line size s
      ≡ done (some (p + header), after)
  pub traces :
      Traces after (bs ++ record { mem = p + header; name = n; line = line; size = size } ∷ [])

trace_malloc-Made :
    (s : Tracing) (bs : List Block) (line size p n e : ℕ)
    → Traces s bs
    → MayAllocate s.blocks p e
    → s.names n ≡ false
    → length bs + 1 < 2 ^ 32
    → Made s line size p n e bs
unfolding trace_malloc named traced
trace_malloc-Made s bs line size p n e h m unused small =
    let b : Block = record { mem = p + header; name = n; line = line; size = size } in
    let name = λ (c : Block). c.name in
    let (t, run, k, live) = add-HoldsAt s.blocks p e b bs h.holds m small in
    let (blocks, lives) = add_memory (some e) (fresh s.blocks p b) t p ok run in
    let out = not-mem_of_unused s.names n (map name bs) unused h.named in
    let self : update s.names n true n ≡ true = ground arith in
    record {
      after = record s { blocks = t; names = update s.names n true };
      runs = rw (h.initialized) (rw run refl);
      traces = record {
        initialized = h.initialized;
        holds = HoldsAt-Holds t bs p b [] k;
        placed = λ q l.
            ap (λ m. (m q).mem) blocks
            ∙ placed s.blocks p b refl h.placed q (ap (λ m. m q) (sym lives) ∙ l);
        named = rw (map-append name bs (b ∷ [])) (
            AllLive-join (update s.names n true) (map name bs) (n ∷ [])
              (AllLive-update s.names n true (map name bs) out h.named) (self, tt));
        apart = rw (map-append name bs (b ∷ [])) (AllDistinct-last n (map name bs) h.apart out);
      };
    }
  where
    placed :
        (t : Table Block) (p : ℕ) (b : Block)
        → b.mem ≡ p + header
        → ((q : ℕ) → t.live q ≡ true → (t.block q).mem ≡ q + header)
        → (q : ℕ) → update t.live p true q ≡ true
        → (update t.block p b q).mem ≡ q + header
    placed t p b is h q l = ground (arith, h q, is)

-- What a call leaves that is refused.
pub record Refused (run : Run (Ret × Tracing)) (bs : List Block) : Type 0 where
  pub after : Tracing
  pub runs : run ≡ done (not_enough_memory, after)
  pub traces : Traces after bs

trace_free-Refused :
    (s : Tracing) (bs : List Block) (p : ℕ)
    → Traces s bs
    → s.blocks.live p ≡ false
    → Refused (trace_free (p + header) s) bs
unfolding trace_free free_found
trace_free-Refused s bs p h dead =
    let unknown = unknown-has_mem s bs p h dead in
    let f = find-NotFound (has_mem (p + header)) s.blocks bs h.holds unknown in
    record {
      after = record s { blocks = f.after };
      runs = rw (h.initialized) (rw f.runs refl);
      traces = record {
        initialized = h.initialized;
        holds = f.holds;
        placed = λ q l.
            ap (λ m. (m q).mem) f.same.block ∙ h.placed q (ap (λ m. m q) (sym f.same.live) ∙ l);
        named = h.named;
        apart = h.apart;
      };
    }

-- With memory, with no block and no name at the addresses that `malloc` gives, and with room in
-- the count, freeing the pointer that malloc returns gives OK and leaves the traced blocks as
-- they were before, each with its pointer and a live name of its own.
pub free-malloc :
    (s : Tracing) (bs : List Block) (line size p n e : ℕ)
    → Traces s bs
    → MayAllocate s.blocks p e
    → s.names n ≡ false
    → length bs + 1 < 2 ^ 32
    → let m : Memory = record { block = some p; name = some n; entry = some e } in
      (t : Tracing) × (trace_malloc m line size s ≡ done (some (p + header), t))
      × (s' : Tracing) × (trace_free (p + header) t ≡ done (ok, s'))
      × Traces s' bs
free-malloc s bs line size p n e h m unused small =
    let b : Block = record { mem = p + header; name = n; line = line; size = size } in
    let made = trace_malloc-Made s bs line size p n e h m unused small in
    let new = unknown-has_mem s bs p h m.unused_block in
    let hit : has_mem (p + header) b ≡ true = ground arith in
    let freed =
      trace_free-Freed made.after (bs ++ b ∷ []) p b made.traces
        (first?-last (has_mem (p + header)) bs b new hit) in
    (
      made.after,
      made.runs,
      freed.after,
      freed.runs,
      rw (drop_first-last (has_mem (p + header)) bs b new hit) at freed.traces,
    )

-- For a traced block in use, its first free gives OK and takes this block alone out of the
-- trace, and a second free of its pointer gives NOT_ENOUGH_MEMORY and frees nothing more.
free_twice :
    (s : Tracing) (bs : List Block) (p : ℕ) (b : Block)
    → Traces s bs
    → first? (has_mem (p + header)) bs ≡ some b
    → let rest = drop_first (has_mem (p + header)) bs in
      (t : Tracing) × (trace_free (p + header) s ≡ done (ok, t))
      × Traces t rest
      × (s' : Tracing) × (trace_free (p + header) t ≡ done (not_enough_memory, s'))
      × Traces s' rest
free_twice s bs p b h first =
    let one = trace_free-Freed s bs p b h first in
    let two =
      trace_free-Refused one.after (drop_first (has_mem (p + header)) bs) p one.traces one.dead in
    (one.after, one.runs, one.traces, two.after, two.runs, two.traces)
