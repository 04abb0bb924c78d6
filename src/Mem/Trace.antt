-- ===== src/Mem/Trace.antt =====
-- What the tracing of lib/ftm_mem.c knows of the blocks that are in use.
use mathlib.Core.Path.{subst}
use catchb.Base.{
  ℕ, ◌+◌, ◌≡◌, refl, sym, ap, ◌∙◌, Bool, true, false, none, some, List, [], ◌∷◌, ◌++◌, map, arith,
}
use catchb.Run.{Run, done, done-injective}
use catchb.Ret.{Ret, ok}
use catchb.FtmList.{update}
use catchb.FtmList.Links.{AllDistinct, ◌∉◌, has-append}
use catchb.FtmList.Walk.{AllLive}
use catchb.FtmList.Shows.{AllLive-update, AllLive-join, AllLive-append}
use catchb.Table.{load, release}
use catchb.Table.Split.{first?, drop_first, first?-none, NoneOf, NoneOf-map}
use catchb.Table.Holds.{Holds, map-append}
use catchb.Table.Change.{take_off-TakesOff, live-at}
use catchb.Table.Distinct.{AllDistinct-left, AllDistinct-right, AllDistinct-drop}
use catchb.Table.Search.{find-FoundAt}
use catchb.Mem.{Block, Tracing, header, has_mem, free_name, free_block, free_found, trace_free}

-- The blocks that are in use, each with its pointer behind the header and a name of its own.
pub record Traces (s : Tracing) (bs : List Block) : Type 0 where
  pub initialized : s.initialized ≡ true
  pub holds : Holds s.blocks bs
  pub placed : (p : ℕ) → s.blocks.live p ≡ true → (s.blocks.block p).mem ≡ p + header
  pub named : AllLive s.names (map (λ b. b.name) bs)
  pub apart : AllDistinct (map (λ b. b.name) bs)

-- No block in use has the pointer behind an address that is not in use.
pub unknown-has_mem :
    (s : Tracing) (bs : List Block) (p : ℕ)
    → Traces s bs
    → s.blocks.live p ≡ false
    → first? (has_mem (p + header)) bs ≡ none
unknown-has_mem s bs p h dead = first?-none (has_mem (p + header)) bs (
    subst (NoneOf (has_mem (p + header))) h.holds.values (
      NoneOf-map s.blocks.block (has_mem (p + header)) h.holds.blocks
        (others h.holds.blocks h.holds.alive)))
  where
    others :
        (qs : List ℕ)
        → AllLive s.blocks.live qs
        → NoneOf (λ q. has_mem (p + header) (s.blocks.block q)) qs
    others [] alive = tt
    others (q ∷ qs) (live, alive) = (ground (arith, h.placed q live), others qs alive)

-- What freeing leaves.
pub record Freed (s : Tracing) (run : Run (Ret × Tracing)) (p : ℕ) (bs : List Block) : Type 0 where
  pub after : Tracing
  pub runs : run ≡ done (ok, after)
  pub traces : Traces after bs
  pub dead : after.blocks.live p ≡ false
  pub blocks : after.blocks.block ≡ s.blocks.block

-- The names round one block.
record Names (s : Tracing) (us : List Block) (b : Block) (ws : List Block) : Type 0 where
  live : s.names b.name ≡ true
  others : AllLive (update s.names b.name false) (map (λ c. c.name) (us ++ ws))
  apart : AllDistinct (map (λ c. c.name) (us ++ ws))

names-Names :
    (s : Tracing) (us : List Block) (b : Block) (ws : List Block)
    → AllLive s.names (map (λ c. c.name) (us ++ b ∷ ws))
    → AllDistinct (map (λ c. c.name) (us ++ b ∷ ws))
    → Names s us b ws
names-Names s us b ws alive distinct =
    let name = λ (c : Block). c.name in
    let ns = map name us in
    let ms = map name ws in
    let alive' = rw (map-append name us (b ∷ ws)) at alive in
    let distinct' = rw (map-append name us (b ∷ ws)) at distinct in
    let (before, from) = AllLive-append s.names ns (b.name ∷ ms) alive' in
    let left = AllDistinct-left b.name ns ms distinct' in
    let right = AllDistinct-right b.name ns ms distinct' in
    let out : b.name ∉ ns ++ ms = ground (arith, has-append b.name ns ms) in
    record {
      live = from.0;
      others = rw (map-append name us ws) (
          AllLive-update s.names b.name false (ns ++ ms) out
            (AllLive-join s.names ns ms before from.1));
      apart = rw (map-append name us ws) (AllDistinct-drop b.name ns ms distinct');
    }

-- A pointer that is found is the one behind its block.
found_at :
    (s : Tracing) (bs : List Block) (p q : ℕ) (b : Block)
    → Traces s bs
    → s.blocks.live q ≡ true
    → s.blocks.block q ≡ b
    → has_mem (p + header) b ≡ true
    → q ≡ p
found_at s bs p q b h live is hit =
    let placed : b.mem ≡ q + header = ap (λ c. c.mem) (sym is) ∙ h.placed q live in
    ground (arith, placed, hit)

-- A block in use is freed with its name.
pub trace_free-Freed :
    (s : Tracing) (bs : List Block) (p : ℕ) (b : Block)
    → Traces s bs
    → first? (has_mem (p + header)) bs ≡ some b
    → Freed s (trace_free (p + header) s) p (drop_first (has_mem (p + header)) bs)
unfolding trace_free free_found free_block free_name release load
trace_free-Freed s bs p b h first =
    let f = find-FoundAt (has_mem (p + header)) s.blocks bs b h.holds first in
    let live = live-at f.after f.us f.at b f.ws f.holds in
    let off = take_off-TakesOff f.after f.us f.at b f.ws f.holds in
    let still : off.taken.live f.at ≡ true = ap (λ m. m f.at) off.live ∙ live in
    let kept : off.taken.block f.at ≡ b = ap (λ m. m f.at) off.block ∙ f.holds.value in
    let names = names-Names s f.us b f.ws (rw f.whole at h.named) (rw f.whole at h.apart) in
    let here : f.at ≡ p =
      found_at s bs p f.at b h (ap (λ m. m f.at) (sym f.same.live) ∙ live)
        (ap (λ m. m f.at) (sym f.same.block) ∙ f.holds.value) f.hit in
    let gone = done-injective (rw still at off.frees) in
    let blocks : off.freed.block ≡ s.blocks.block =
      sym (ap (λ t. t.block) gone) ∙ off.block ∙ f.same.block in
    let lives : off.freed.live ≡ update s.blocks.live f.at false =
      sym (ap (λ t. t.live) gone) ∙ ap (λ m. update m f.at false) (off.live ∙ f.same.live) in
    record {
      after = record s { blocks = off.freed; names = update s.names b.name false };
      runs =
          rw (h.initialized)
            (rw f.runs (rw off.takes (rw still (rw kept (rw names.live (rw off.frees refl))))));
      traces = record {
        initialized = h.initialized;
        holds = rw f.drops off.holds;
        placed = λ q l.
            ap (λ m. (m q).mem) blocks
            ∙ h.placed q (still_live s.blocks.live f.at q (ap (λ m. m q) (sym lives) ∙ l));
        named = rw f.drops names.others;
        apart = rw f.drops names.apart;
      };
      dead = ap off.freed.live (sym here) ∙ off.dead;
      blocks = blocks;
    }
  where
    still_live : (live : ℕ → Bool) (a q : ℕ) → update live a false q ≡ true → live q ≡ true
    still_live live a q l = ground arith
