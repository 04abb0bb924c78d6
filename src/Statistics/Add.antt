-- ===== src/Statistics/Add.antt =====
-- `FTM_CATCHB_addStatistics` of lib/ftm_catchb.c against sequences of records.
use catchb.Base.{
  ℕ, ◌+◌, ◌^◌, ◌<◌, ◌≤◌, ◌≡◌, refl, ap, ◌∙◌, true, false, Bool-cases, inl, inr, some, List, [], ◌∷◌,
  ◌++◌, map, arith, length, length-map, drop, ltb, if◌then◌else◌,
}
use catchb.Run.{done}
use catchb.Ret.{ok}
use catchb.FtmList.{update}
use catchb.FtmList.Access
use catchb.FtmList.Access.{remove_at, get_first, get_last, take_out_at, unlink}
use catchb.FtmList.Links.{AllDistinct, ◌∉◌, has-append}
use catchb.FtmList.Walk.{AllLive}
use catchb.FtmList.Unused.{remove_at_unused}
use catchb.FtmList.Shows.{Shows, IsFresh, AllLive-update, AllLive-join, not-mem_of_unused}
use catchb.FtmList.Insert.{append-Shows}
use catchb.FtmList.Remove.{remove_at-Shows}
use catchb.FtmList.Read.{get_ends}
use catchb.Statistics.{Stat, Statistics, add_statistics, new_block, reuse, fill_block, settle}
use catchb.Statistics.Holds.{Holds, count-Shows, length-Holds, map-append}

map-update :
    (f : ℕ → Stat) (p : ℕ) (v : Stat) (xs : List ℕ) → p ∉ xs → map (update f p v) xs ≡ map f xs
map-update f p v [] h = refl
map-update f p v (x ∷ xs) h = ground (arith, map-update f p v xs)

AllDistinct-last : (p : ℕ) (xs : List ℕ) → AllDistinct xs → p ∉ xs → AllDistinct (xs ++ p ∷ [])
AllDistinct-last p [] d h = (refl, tt)
AllDistinct-last p (x ∷ xs) d h =
    (ground (arith, has-append x xs (p ∷ [])), AllDistinct-last p xs d.1 (ground arith))

-- A live block that is not in the list is filled and becomes the last.
fill_block-Holds :
    (s : Statistics) (e p : ℕ) (v : Stat) (ps : List ℕ)
    → Shows s.list ps
    → AllLive s.live ps
    → AllDistinct ps
    → p ∉ ps
    → s.live p ≡ true
    → IsFresh s.list e
    → length ps + 1 < 2 ^ 32
    → (s' : Statistics) × (fill_block (some e) v ((ok, some p), s) ≡ done (ok, s'))
      × Holds s' (map s.stat ps ++ v ∷ [])
      × (s'.max_count ≡ s.max_count)
unfolding fill_block settle
fill_block-Holds s e p v ps shows alive distinct out in_use fresh small =
    let (l, run, k) = append-Shows s.list e p ps shows fresh small in
    let here : update s.stat p v p ≡ v = ground arith in
    (
      record s { list = l; stat = update s.stat p v },
      rw in_use (rw run),
      record {
        blocks = ps ++ p ∷ [];
        shows = k;
        alive = AllLive-join s.live ps (p ∷ []) alive (in_use, tt);
        distinct = AllDistinct-last p ps distinct out;
        records =
            map-append (update s.stat p v) ps (p ∷ []) ∙ rw (map-update s.stat p v ps out, here);
      },
      refl,
    )

-- The sequence after a record was added to a list that holds `max_count` of them at most.
abbrev rolled : (max_count : ℕ) → List Stat → Stat → List Stat
rolled max_count vs v = if ltb (length vs) max_count then vs ++ v ∷ [] else drop 1 vs ++ v ∷ []

-- What `malloc` may return for a record and for an entry of the list.
pub record MayAllocate (s : Statistics) (p e : ℕ) : Type 0 where
  pub unused_block : s.live p ≡ false
  pub entry : IsFresh s.list e

add_with_room :
    (s : Statistics) (p e : ℕ) (v : Stat) (vs : List Stat)
    → Holds s vs
    → MayAllocate s p e
    → length vs + 1 < 2 ^ 32
    → length vs < s.max_count
    → (s' : Statistics) × (add_statistics (some p) (some e) s v ≡ done (ok, s'))
      × Holds s' (vs ++ v ∷ [])
      × (s'.max_count ≡ s.max_count)
unfolding add_statistics new_block
add_with_room s p e v vs h m small room =
    let size : length h.blocks ≡ length vs = length-Holds s vs h in
    let out = not-mem_of_unused s.live p h.blocks m.unused_block h.alive in
    let has_room : ltb (Access.count s.list).1 s.max_count ≡ true =
      rw (count-Shows s.list h.blocks h.shows, size) (ground arith) in
    let (s', run, k, same) =
      fill_block-Holds (record s { live = update s.live p true }) e p v h.blocks h.shows
        (AllLive-update s.live p true h.blocks out h.alive) h.distinct out (ground arith) m.entry
        (omega (arith, size)) in
    (s', rw has_room run, rw h.records at k, same)

add_when_full :
    (s : Statistics) (p e : ℕ) (v : Stat) (b : ℕ) (bs : List ℕ)
    → Shows s.list (b ∷ bs)
    → AllLive s.live (b ∷ bs)
    → AllDistinct (b ∷ bs)
    → MayAllocate s p e
    → length (b ∷ bs) < 2 ^ 32
    → s.max_count ≤ length (b ∷ bs)
    → (s' : Statistics) × (add_statistics (some p) (some e) s v ≡ done (ok, s'))
      × Holds s' (map s.stat bs ++ v ∷ [])
      × (s'.max_count ≡ s.max_count)
unfolding add_statistics new_block reuse
add_when_full s p e v b bs shows alive distinct m small full =
    let no_room : ltb (Access.count s.list).1 s.max_count ≡ false =
      rw (count-Shows s.list (b ∷ bs) shows) (ground arith) in
    let (first, _) = get_ends s.list (b ∷ bs) shows in
    let (l, gone, k) = remove_at-Shows s.list 0 (b ∷ bs) shows in
    let entry : IsFresh l e = record {
      not_head = m.entry.not_head;
      unused = remove_at_unused s.list l 0 e ok gone m.entry.unused;
    } in
    let (s', run, holds, same) =
      fill_block-Holds (record s { list = l }) e b v bs k alive.1 distinct.1 distinct.0 alive.0
        entry (omega arith) in
    (s', rw no_room (rw first (rw gone run)), holds, same)

-- On a statistics list of live blocks with a limit above 0, with an unused block from malloc, a
-- fresh entry and room in the count, addStatistics returns OK, and the list then holds the
-- records that it held, without the oldest one if there were as many as the limit, followed by
-- the new one; the limit stays.
pub add_statistics-Holds :
    (s : Statistics) (p e : ℕ) (v : Stat) (vs : List Stat)
    → Holds s vs
    → MayAllocate s p e
    → length vs + 1 < 2 ^ 32
    → 0 < s.max_count
    → (s' : Statistics) × (add_statistics (some p) (some e) s v ≡ done (ok, s'))
      × Holds s' (rolled s.max_count vs v)
      × (s'.max_count ≡ s.max_count)
add_statistics-Holds s p e v vs h m small some_max =
    elim (Bool-cases (ltb (length vs) s.max_count)) [
      | inl room ↦
          let less : length vs < s.max_count = ground arith in
          rw room (add_with_room s p e v vs h m small less)
      | inr full ↦
          rw full (go h.blocks vs h.shows h.alive h.distinct h.records (ground arith) small)
    ]
  where
    go :
        (bs : List ℕ) (ws : List Stat)
        → Shows s.list bs
        → AllLive s.live bs
        → AllDistinct bs
        → map s.stat bs ≡ ws
        → s.max_count ≤ length ws
        → length ws + 1 < 2 ^ 32
        → (s' : Statistics) × (add_statistics (some p) (some e) s v ≡ done (ok, s'))
          × Holds s' (drop 1 ws ++ v ∷ [])
          × (s'.max_count ≡ s.max_count)
    go [] ws shows alive distinct records full few =
        let never : 0 < 0 = omega (arith, ap length records) in elim never [ ]
    go (b ∷ bs) ws shows alive distinct records full few =
        let size : length (b ∷ bs) ≡ length ws =
          omega (arith, length-map s.stat (b ∷ bs), ap length records) in
        rw (← records) (
          add_when_full s p e v b bs shows alive distinct m (omega (arith, size))
            (omega (arith, size)))
