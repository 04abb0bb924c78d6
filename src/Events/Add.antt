-- ===== src/Events/Add.antt =====
-- FTM_EVENT_TIMER_MANAGER_add of lib/ftm_timer.c.
use catchb.Base.{
  ℕ, ◌+◌, ◌^◌, ◌<◌, ◌≡◌, ◌≢◌, refl, sym, ap, ◌∙◌, Bool, true, false, some, List, [], ◌∷◌, map,
  arith, length, length-map, inl, inr, Bool-cases, ltb, ◌==◌, if◌then◌else◌,
}
use catchb.Run.{done}
use catchb.Ret.{ok}
use catchb.FtmList.Shows.{IsFresh, AllLive-update, not-mem_of_unused}
use catchb.Table.{fresh}
use catchb.Table.Holds.{Holds}
use catchb.Table.Change.{MayAllocate, map-update}
use catchb.Timer.{Timeval, init_ms}
use catchb.Events.{EventTimer, Manager, add_event}
use catchb.Events.Turn.{later, put, insert_sorted-Holds}

-- No event of these has fewer whole milliseconds left than `v`.
NoneBefore : (now : Timeval) → EventTimer → List EventTimer → Type 0
NoneBefore now v [] = Unit {0}
NoneBefore now v (d ∷ ds) = (later now d v ≡ false) × NoneBefore now v ds

-- In the order of the time that is left.
unfoldable pub Ordered : (now : Timeval) → List EventTimer → Type 0
unfolding NoneBefore
Ordered now [] = Unit {0}
Ordered now (v ∷ vs) = NoneBefore now v vs × Ordered now vs

NoneBefore-trans :
    (now : Timeval) (v d : EventTimer) (ds : List EventTimer)
    → later now v d ≡ true
    → NoneBefore now d ds
    → NoneBefore now v ds
unfolding NoneBefore
NoneBefore-trans now v d [] before none = tt
NoneBefore-trans now v d (x ∷ ds) before none =
    (ground (arith, none.0), NoneBefore-trans now v d ds before none.1)

NoneBefore-put :
    (now : Timeval) (d v : EventTimer) (ds : List EventTimer)
    → later now v d ≡ false
    → NoneBefore now d ds
    → NoneBefore now d (put now v ds)
unfolding NoneBefore put
NoneBefore-put now d v [] after none = (after, tt)
NoneBefore-put now d v (x ∷ ds) after none = elim (Bool-cases (later now v x)) [
  | inl first ↦ rw first (after, none)
  | inr further ↦ rw further (none.0, NoneBefore-put now d v ds after none.1)
]

put-Ordered :
    (now : Timeval) (v : EventTimer) (ds : List EventTimer)
    → Ordered now ds
    → Ordered now (put now v ds)
unfolding Ordered NoneBefore put
put-Ordered now v [] sorted = (tt, tt)
put-Ordered now v (d ∷ ds) sorted = elim (Bool-cases (later now v d)) [
  | inl first ↦
      rw first ((ground (arith, first), NoneBefore-trans now v d ds first sorted.0), sorted)
  | inr further ↦
      rw further (NoneBefore-put now d v ds further sorted.0, put-Ordered now v ds sorted.1)
]

-- The event that is made.
abbrev pub made :
    (loop_interval : ℕ)
    → (now : Timeval) → (repeats : Bool) → (expired_time content : ℕ) → EventTimer
made loop_interval now repeats expired_time content = record {
  repeats = repeats;
  time_ms = if ltb loop_interval expired_time then expired_time else loop_interval;
  timer = init_ms now expired_time;
  content = content;
}

module _ {W : Type 0} where
  pub add_event-Ordered :
      (m : Manager W) (vs : List EventTimer) (p e : ℕ) (now sorted : Timeval) (repeats : Bool)
      (expired_time content : ℕ)
      → Holds m.events vs
      → Ordered sorted vs
      → MayAllocate m.events p e
      → length vs + 1 < 2 ^ 32
      → let v = made m.loop_interval now repeats expired_time content in
        (m' : Manager W) × (add_event (some p) (some e) now sorted repeats expired_time content m
          ≡ done ((ok, some p), m'))
        × Holds m'.events (put sorted v vs)
        × Ordered sorted (put sorted v vs)
        × (m'.world ≡ m.world)
        × ((x : ℕ) → IsFresh m.events.list x → x ≢ e → IsFresh m'.events.list x)
  unfolding add_event
  add_event-Ordered m vs p e now sorted repeats expired_time content h order memory small =
      let v = made m.loop_interval now repeats expired_time content in
      let t = fresh m.events p v in
      let size : length h.blocks ≡ length vs =
        sym (length-map m.events.block h.blocks) ∙ ap length h.values in
      let out = not-mem_of_unused m.events.live p h.blocks memory.unused_block h.alive in
      let used : t.live p ≡ true = ground arith in
      let here : t.block p ≡ v = (let e : (p == p) ≡ true = ground arith in rw e) in
      let others : map t.block h.blocks ≡ vs =
        map-update m.events.block p v h.blocks out ∙ h.values in
      let (t', run, held, keeps) =
        insert_sorted-Holds sorted t p e h.blocks h.shows
          (AllLive-update m.events.live p true h.blocks out h.alive) h.distinct out used
          memory.entry (omega (arith, size, small)) in
      (
        record m { events = t' },
        rw run refl,
        rw (here, others) at held,
        put-Ordered sorted v vs order,
        refl,
        keeps,
      )
