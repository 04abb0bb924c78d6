-- ===== src/Events/Turn.antt =====
-- One turn of the loop of FTM_EVENT_TIMER_MANAGER_threadMain in lib/ftm_timer.c, against lists of
-- events.
use catchb.Base.{
  ℕ, ◌+◌, ◌^◌, ◌<◌, ◌≡◌, ◌≢◌, refl, Bool, true, some, List, [], ◌∷◌, ◌++◌, map, arith, length, ltb,
  if◌then◌else◌,
}
use Prim.Native.Nat.{Ordering}
use catchb.Run.{done}
use catchb.Ret.{ok}
use catchb.FtmList.{is_gt}
use catchb.FtmList.Links.{AllDistinct, ◌∉◌, has-append}
use catchb.FtmList.Walk.{AllLive, until, onwards, until-append-onwards}
use catchb.FtmList.Shows.{Shows, IsFresh, AllLive-join, AllLive-append}
use catchb.FtmList.Insert.{insert_where, insert_sorted-Shows}
use catchb.FtmList.Unused.{insert_unused}
use catchb.Table.{Table}
use catchb.Table.Holds.{Holds}
use catchb.Timer.{Timeval, Timer, remain_ms, add_ms, compare_timers}
use catchb.Events.{EventTimer, Tick, sorting, insert_sorted}

-- More whole milliseconds are left of `d` than of `v`.
abbrev pub later : (now : Timeval) → (v d : EventTimer) → Bool
later now v d = ltb (remain_ms v.timer now) (remain_ms d.timer now)

-- Before the first event that comes later.
unfoldable pub put : (now : Timeval) → EventTimer → List EventTimer → List EventTimer
put now v [] = v ∷ []
put now v (d ∷ ds) = let rest = put now v ds in if later now v d then v ∷ d ∷ ds else d ∷ rest

-- The next time of an event, from the timer that its callback leaves.
abbrev pub renewed : Tick → EventTimer → Timer → EventTimer
renewed k v timer = record v { timer = add_ms timer k.added v.time_ms }

compare_timers-later :
    (now : Timeval) (v d : EventTimer)
    → is_gt (compare_timers (d.timer) now (v.timer) now) ≡ later now v d
unfolding compare_timers
compare_timers-later now v d = ground arith

-- Inserting a block puts its value.
insert_where-put :
    (now : Timeval) (b : ℕ → EventTimer) (p : ℕ) (ps : List ℕ)
    → map b (insert_where (λ d. is_gt (compare_timers ((b d).timer) now ((b p).timer) now)) p ps)
      ≡ put now (b p) (map b ps)
unfolding put
insert_where-put now b p [] = refl
insert_where-put now b p (x ∷ ps) =
    ground (arith, compare_timers-later now (b p) (b x), insert_where-put now b p ps)

AllDistinct-insert :
    (p : ℕ) (us vs : List ℕ) → AllDistinct (us ++ vs) → p ∉ us ++ vs → AllDistinct (us ++ p ∷ vs)
AllDistinct-insert p [] vs d out = (out, d)
AllDistinct-insert p (u ∷ us) vs d out = (
  ground (arith, has-append u us (p ∷ vs), has-append u us vs),
  AllDistinct-insert p us vs d.1 (ground arith),
)

AllLive-insert :
    (live : ℕ → Bool) (p : ℕ) (us vs : List ℕ)
    → AllLive live (us ++ vs)
    → live p ≡ true
    → AllLive live (us ++ p ∷ vs)
AllLive-insert live p us vs h alive =
    let (before, from) = AllLive-append live us vs h in
    AllLive-join live us (p ∷ vs) before (alive, from)

sorting-Shows :
    (now : Timeval) (t : Table EventTimer) (ps : List ℕ)
    → Shows t.list ps
    → Shows (sorting now t) ps
sorting-Shows now t ps s = record {
  entries = s.entries;
  is_list = record {
    chain = s.is_list.chain;
    distinct = s.is_list.distinct;
    no_head = s.is_list.no_head;
    alive = s.is_list.alive;
    counted = s.is_list.counted;
    bounded = s.is_list.bounded;
  };
  items = s.items;
  open_lock = s.open_lock;
}

-- A block that is in use and not in the list is put to its place.
pub insert_sorted-Holds :
    (now : Timeval) (t : Table EventTimer) (p e : ℕ) (ps : List ℕ)
    → Shows t.list ps
    → AllLive t.live ps
    → AllDistinct ps
    → p ∉ ps
    → t.live p ≡ true
    → IsFresh t.list e
    → length ps + 1 < 2 ^ 32
    → (t' : Table EventTimer) × (insert_sorted (some e) now t p ≡ done (ok, t'))
      × Holds t' (put now (t.block p) (map t.block ps))
      × ((x : ℕ) → IsFresh t.list x → x ≢ e → IsFresh t'.list x)
unfolding insert_sorted
insert_sorted-Holds now t p e ps s alive distinct out used fresh small =
    let compares : ℕ → ℕ → Ordering =
      λ a b. compare_timers ((t.block a).timer) now ((t.block b).timer) now in
    let test : ℕ → Bool = λ d. is_gt (compares d p) in
    let free : IsFresh (sorting now t) e = record {
      not_head = fresh.not_head;
      unused = fresh.unused;
    } in
    let (l, run, k) =
      (insert_sorted-Shows (sorting now t) e p ps (sorting-Shows now t ps s) free small compares
        refl).0 in
    let whole = until-append-onwards test ps in
    (
      record t { list = l },
      rw run refl,
      record {
        blocks = insert_where test p ps;
        shows = k;
        alive = AllLive-insert t.live p (until test ps) (onwards test ps) (rw whole alive) used;
        distinct =
            AllDistinct-insert p (until test ps) (onwards test ps) (rw whole distinct)
              (rw whole out);
        values = insert_where-put now t.block p ps;
      },
      (λ x f other. record {
        not_head = f.not_head;
        unused = insert_unused (sorting now t) l e p x _ compares refl run other f.unused;
      }),
    )
