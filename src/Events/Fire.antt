-- ===== src/Events/Fire.antt =====
-- An event that expires in FTM_EVENT_TIMER_MANAGER_threadMain of lib/ftm_timer.c.
use catchb.Base.{
  ℕ, ◌+◌, ◌^◌, ◌<◌, ◌≡◌, ◌≢◌, refl, ap, ◌∙◌, Bool, true, false, some, List, [], ◌∷◌, map, arith,
  length, ◌==◌, if◌then◌else◌,
}
use catchb.Run.{Run, done}
use catchb.FtmList.{FtmList, update}
use catchb.FtmList.Links.{AllDistinct, ◌∉◌}
use catchb.FtmList.Walk.{AllLive}
use catchb.FtmList.Shows.{Shows, IsFresh, AllLive-update}
use catchb.FtmList.Unused.{remove_unused}
use catchb.Table.{Table, take_off, release, load, store}
use catchb.Table.Holds.{Holds}
use catchb.Table.Change.{map-update}
use catchb.Table.Distinct.{remove_found}
use catchb.Timer.{Timer}
use catchb.Events.{EventTimer, Manager, Tick, repeated, dropped, fire}
use catchb.Events.Turn.{put, renewed, insert_sorted-Holds}

module _ {W : Type 0} where
  -- A turn that goes on, and what it leaves.
  -- The entries that were unused still are, but for the one that `malloc` gives.
  abbrev GoesOn : Run (Bool × Manager W) → List EventTimer → W → FtmList → (e : ℕ) → Type 0
  GoesOn run vs w l e =
      (m : Manager W) × (run ≡ done (true, m))
      × Holds m.events vs
      × (m.world ≡ w)
      × ((x : ℕ) → IsFresh l x → x ≢ e → IsFresh m.events.list x)

  -- The event is out of the list and in use.
  repeated-GoesOn :
      (k : Tick) (m : Manager W) (p e : ℕ) (v : EventTimer) (ps : List ℕ) (vs : List EventTimer)
      → Shows m.events.list ps
      → AllLive m.events.live ps
      → AllDistinct ps
      → p ∉ ps
      → m.events.live p ≡ true
      → m.events.block p ≡ v
      → map m.events.block ps ≡ vs
      → k.entry ≡ some e
      → IsFresh m.events.list e
      → length ps + 1 < 2 ^ 32
      → GoesOn (repeated k p m) (put k.sorted (renewed k v v.timer) vs) m.world m.events.list e
  unfolding repeated load store
  repeated-GoesOn k m p e v ps vs s alive distinct out used value values given fresh small =
      let v' = renewed k (m.events.block p) ((m.events.block p).timer) in
      let t : Table EventTimer = record (m.events) { block = update m.events.block p v' } in
      let (t', run, h, spares) =
        insert_sorted-Holds k.sorted t p e ps s alive distinct out used fresh small in
      let here : t.block p ≡ renewed k v v.timer =
        (let e : (p == p) ≡ true = ground arith in rw e (ap (λ x. renewed k x x.timer) value)) in
      let others : map t.block ps ≡ vs = map-update m.events.block p v' ps out ∙ values in
      (
        record m { events = t' },
        rw used (rw given (rw run refl)),
        rw (here, others) at h,
        refl,
        spares,
      )

  dropped-GoesOn :
      (m : Manager W) (p e : ℕ) (ps : List ℕ) (vs : List EventTimer)
      → Shows m.events.list ps
      → AllLive m.events.live ps
      → AllDistinct ps
      → p ∉ ps
      → m.events.live p ≡ true
      → map m.events.block ps ≡ vs
      → GoesOn (dropped p m) vs m.world m.events.list e
  unfolding dropped release
  dropped-GoesOn m p e ps vs s alive distinct out used values = (
    record m { events = record (m.events) { live = update m.events.live p false } },
    rw used refl,
    record {
      blocks = ps;
      shows = s;
      alive = AllLive-update m.events.live p false ps out alive;
      distinct = distinct;
      values = values;
    },
    refl,
    (λ x f other. f),
  )

  -- Either way.
  settled-GoesOn :
      (repeats : Bool) (k : Tick) (m : Manager W) (p e : ℕ) (v : EventTimer) (ps : List ℕ)
      (vs : List EventTimer)
      → Shows m.events.list ps
      → AllLive m.events.live ps
      → AllDistinct ps
      → p ∉ ps
      → m.events.live p ≡ true
      → m.events.block p ≡ v
      → map m.events.block ps ≡ vs
      → k.entry ≡ some e
      → IsFresh m.events.list e
      → length ps + 1 < 2 ^ 32
      → GoesOn
          (elim repeats [ true ↦ repeated k p m | false ↦ dropped p m ])
          (if repeats then put k.sorted (renewed k v v.timer) vs else vs)
          m.world
          m.events.list
          e
  settled-GoesOn true k m p e v ps vs s alive distinct out used value values given fresh small =
      repeated-GoesOn k m p e v ps vs s alive distinct out used value values given fresh small
  settled-GoesOn false k m p e v ps vs s alive distinct out used value values given fresh small =
      dropped-GoesOn m p e ps vs s alive distinct out used values

  -- What the callback leaves of the events, the first of which has expired.
  abbrev pub fired :
      (call : (content : ℕ) → Timer → W → Timer × W)
      → Tick
      → W
      → EventTimer
      → List EventTimer
      → List EventTimer
  fired call k w v vs =
      if v.repeats then put k.sorted (renewed k v (call v.content v.timer w).0) vs else vs

  module _ (call : (content : ℕ) → Timer → W → Timer × W) where
    pub fire-GoesOn :
        (k : Tick) (m : Manager W) (p e : ℕ) (ps : List ℕ)
        → Shows m.events.list (p ∷ ps)
        → AllLive m.events.live (p ∷ ps)
        → AllDistinct (p ∷ ps)
        → k.entry ≡ some e
        → IsFresh m.events.list e
        → length ps + 1 < 2 ^ 32
        → let v = m.events.block p in
          GoesOn
            (fire call k p m)
            (fired call k m.world v (map m.events.block ps))
            (call v.content v.timer m.world).1
            m.events.list
            e
    unfolding fire take_off load store
    fire-GoesOn k m p e ps s alive distinct given fresh small =
        let v = m.events.block p in
        let (timer, w) = call v.content v.timer m.world in
        let v' : EventTimer = record v { timer = timer } in
        let (l, run, shows) = remove_found m.events p [] ps s refl in
        let spares : (x : ℕ) → IsFresh m.events.list x → IsFresh l x = λ x f. record {
          not_head = f.not_head;
          unused = remove_unused m.events.list l p x _ run f.unused;
        } in
        let t : Table EventTimer = record (m.events) {
          list = l;
          block = update m.events.block p v';
        } in
        let here : t.block p ≡ v' = (let e : (p == p) ≡ true = ground arith in rw e) in
        let others = map-update m.events.block p v' ps distinct.0 in
        let m' : Manager W = record m { events = t; world = w } in
        let (m'', goes, h, world, keeps) =
          settled-GoesOn v.repeats k m' p e v' ps _ shows alive.1 distinct.1 distinct.0 alive.0 here
            others given (spares e fresh) small in
        (m'', rw run (rw (alive.0) goes), h, world, (λ x f other. keeps x (spares x f) other))
