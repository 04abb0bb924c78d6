-- ===== src/Events.antt =====
-- The event timers of lib/ftm_timer.c, FTM_EVENT_TIMER_MANAGER: an ordered list of blocks whose
-- timers expire. The callback of an event is a parameter that may change the timer and a `world`.
-- Threads and the lock are left out; each reading of the clock is an argument, and it stands still
-- during one insertion.
pub mod Turn
pub mod Fire
pub mod Round
pub mod Early
pub mod Add
pub mod Once
pub mod Due
mod Tests
use catchb.Base.{ℕ, Bool, true, false, Option, none, some, List, [], ◌∷◌, ltb, if◌then◌else◌}
use catchb.Run.{Run, done, out_of_fuel, ◌>>=◌}
use catchb.Ret.{Ret, ok, not_enough_memory}
use catchb.FtmList.{FtmList, insert, ascending}
use catchb.FtmList.Access.{Found, get_first}
use catchb.Table.{Table, take_off, release, load, store, fresh}
use catchb.Timer.{Timeval, Timer, init_ms, add_ms, is_expired, compare_timers}

-- `FTM_EVENT_TIMER`; `repeats` is FTM_EVENT_TIMER_TYPE_REPEAT, `content` names `fCallback` and `pData`.
pub record EventTimer : Type 0 where
  pub repeats : Bool
  pub time_ms : ℕ
  pub timer : Timer
  pub content : ℕ

pub record Manager (W : Type 0) : Type 0 where
  pub loop_interval : ℕ
  pub events : Table EventTimer
  pub world : W

-- What the clock says to `isExpired`, to `addMS` and to the comparator, and the entry that `malloc`
-- gives.
pub record Tick : Type 0 where
  pub seen : Timeval
  pub added : Timeval
  pub sorted : Timeval
  pub entry : Option ℕ

-- The list with the comparator on the memory as it is now.
abbrev pub sorting : (now : Timeval) → Table EventTimer → FtmList
sorting now t = record (t.list) {
  comparator = some (λ p q. compare_timers ((t.block p).timer) now ((t.block q).timer) now);
}

pub insert_sorted :
    (entry : Option ℕ) → (now : Timeval) → Table EventTimer → (p : ℕ) → Run (Ret × Table EventTimer)
unfolding insert
insert_sorted entry now t p = do
  (r, l) ← insert entry (sorting now t) p ascending
  done (r, record t { list = l })

module _ {W : Type 0} where
  -- `FTM_EVENT_TIMER_MANAGER_add`, which does not look at the result of the insertion.
  pub add_event :
      (block entry : Option ℕ)
      → (now sorted : Timeval) → (repeats : Bool) → (expired_time content : ℕ) → Manager W
      → Run ((Ret × Option ℕ) × Manager W)
  unfolding init_ms insert_sorted
  add_event none entry now sorted repeats expired_time content m =
      done ((not_enough_memory, none), m)
  add_event (some p) entry now sorted repeats expired_time content m = do
    let v : EventTimer = record {
      repeats = repeats;
      time_ms = if ltb m.loop_interval expired_time then expired_time else m.loop_interval;
      timer = init_ms now expired_time;
      content = content;
    }
    (_, t) ← insert_sorted entry sorted (fresh m.events p v) p
    done ((ok, some p), record m { events = t })

  -- An event that is put back, with its next time.
  pub repeated : Tick → (p : ℕ) → Manager W → Run (Bool × Manager W)
  unfolding load store add_ms insert_sorted
  repeated k p m = do
    v ← load m.events p
    t ← store m.events p (record v { timer = add_ms v.timer k.added v.time_ms })
    (_, t') ← insert_sorted k.entry k.sorted t p
    done (true, record m { events = t' })

  pub dropped : (p : ℕ) → Manager W → Run (Bool × Manager W)
  unfolding release
  dropped p m = do t ← release m.events p; done (true, record m { events = t })

  module _ (call : (content : ℕ) → Timer → W → Timer × W) where
    -- An event that has expired.
    pub fire : Tick → (p : ℕ) → Manager W → Run (Bool × Manager W)
    unfolding load store take_off repeated dropped
    fire k p m = do
      (_, t) ← take_off m.events p
      v ← load t p
      let (timer, w) = call v.content v.timer m.world
      t' ← store t p (record v { timer = timer })
      let m' : Manager W = record m { events = t'; world = w }
      elim (v.repeats) [ true ↦ repeated k p m' | false ↦ dropped p m' ]

    pub first_seen : Tick → Found → Manager W → Run (Bool × Manager W)
    unfolding load is_expired fire
    first_seen k (ok, some p) m = do
      v ← load m.events p
      elim (is_expired v.timer k.seen) [ true ↦ fire k p m | false ↦ done (false, m) ]
    first_seen k f m = done (false, m)

    -- One turn of the inner loop of `threadMain`, and whether the loop goes on.
    pub call_first : Tick → Manager W → Run (Bool × Manager W)
    unfolding get_first first_seen
    call_first k m = do f ← get_first m.events.list; first_seen k f m

    -- The inner loop.
    pub call_expired : List Tick → Manager W → Run (Manager W)
    unfolding call_first
    call_expired [] m = out_of_fuel
    call_expired (k ∷ ks) m = do
      (goes_on, m') ← call_first k m
      elim goes_on [ true ↦ call_expired ks m' | false ↦ done m' ]
