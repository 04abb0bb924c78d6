-- ===== src/Events/Tests.antt =====
-- Runs of the event timers of lib/ftm_timer.c: one event that comes every ten seconds, late by a
-- millisecond.
use mathlib.Core.Option.{some-injective}
use catchb.Base.{ℕ, ◌≡◌, ◌+◌, ◌≢◌, refl, true, false, some, List, [], ◌∷◌, arith}
use catchb.FtmList.Shows.{IsFresh}
use catchb.Table.Samples.{one_block, one_block-Holds, one_entry}
use catchb.Timer.{Timeval, Timer, is_expired, is_before}
use catchb.Timer.Early.{IsLate}
use catchb.Events.{EventTimer, Manager, Tick, call_expired}
use catchb.Events.Turn.{renewed}
use catchb.Events.Round.{AllOther, Supplied, Leaves, handled}
use catchb.Run.{done}
use catchb.Ret.{ok}
use catchb.Table.Holds.{Holds}
use catchb.Events.{add_event}
use catchb.Events.Once.{AllOnce, expired, calls, call_expired_once}
use catchb.Events.Due.{add_event-called}
use catchb.Table.Samples.{no_blocks, no_blocks-Holds, no_blocks-MayAllocate, no_entries}
use catchb.Events.Early.{tick_at, called_twice}

abbrev every_ten : EventTimer
every_ten = record {
  repeats = true;
  time_ms = 10000;
  timer = record {
    timeout = record { sec = 10; usec = 0 };
    base = record { sec = 0; usec = 999500 };
    expired = record { sec = 10; usec = 999500 };
  };
  content = 7;
}

abbrev now : Timeval
now = record { sec = 11; usec = 500 }

-- The callback counts its calls.
abbrev counts : (content : ℕ) → Timer → ℕ → Timer × ℕ
counts content t w = (t, w + 1)

abbrev manager : Manager ℕ
manager = record { loop_interval = 10; events = one_block every_ten; world = 0 }

abbrev ticks : List Tick
ticks = tick_at now 2 ∷ tick_at now 3 ∷ tick_at now 4 ∷ []

unused : (e : ℕ) → e ≢ 0 → e ≢ 1 → IsFresh one_entry e
unused e not_head not_one = record { not_head = not_head; unused = ground (arith, not_one) }

other : (a b : ℕ) → a ≢ b → some a ≢ some b
other a b apart e = apart (some-injective a b e)

ticks-Supplied : Supplied ticks one_entry
unfolding Supplied AllOther
ticks-Supplied = (
  (
    2,
    refl,
    unused 2 (λ e. omega (arith, e)) (λ e. omega (arith, e)),
    (other 3 2 (λ e. omega (arith, e)), (other 4 2 (λ e. omega (arith, e)), tt)),
  ),
  (
    (
      3,
      refl,
      unused 3 (λ e. omega (arith, e)) (λ e. omega (arith, e)),
      (other 4 3 (λ e. omega (arith, e)), tt),
    ),
    ((4, refl, unused 4 (λ e. omega (arith, e)) (λ e. omega (arith, e)), tt), tt),
  ),
)

has_expired : is_expired (every_ten.timer) now ≡ true
unfolding is_expired is_before
has_expired = refl

every_ten-IsLate : IsLate (every_ten.timer) now 10000
every_ten-IsLate = record { seconds = omega arith; micros = omega arith }

called_twice_example :
    let again = renewed (tick_at now 2) every_ten (every_ten.timer) in
    Leaves
      (call_expired counts ticks manager)
      (handled counts (tick_at now 4 ∷ []) (renewed (tick_at now 3) again again.timer ∷ []) 2)
called_twice_example =
    called_twice counts manager every_ten now 2 3 (tick_at now 4 ∷ []) (one_block-Holds every_ten)
      ticks-Supplied (λ content t w. refl) refl has_expired every_ten-IsLate

-- The same event, once.
abbrev once : EventTimer
once = record every_ten { repeats = false }

call_expired_once_example :
    (m : Manager ℕ) × (call_expired counts ticks (record manager { events = one_block once })
      ≡ done m)
    × Holds m.events []
    × (m.world ≡ 1)
unfolding AllOnce expired calls is_expired is_before
call_expired_once_example =
    call_expired_once counts ticks (record manager { events = one_block once }) (once ∷ [])
      (one_block-Holds once) ticks-Supplied (refl, tt) (omega arith)

abbrev idle : Manager ℕ
idle = record manager { events = no_blocks once }

-- Sixty milliseconds after the second at which an event of fifty is added.
abbrev later : Timeval
later = record { sec = 100; usec = 60000 }

abbrev added_at : Timeval
added_at = record { sec = 100; usec = 0 }

free_entry : (e : ℕ) → e ≢ 0 → IsFresh no_entries e
free_entry e not_head = record { not_head = not_head; unused = refl }

later-Supplied : Supplied (tick_at later 3 ∷ tick_at later 4 ∷ []) no_entries
unfolding Supplied AllOther
later-Supplied = (
  (3, refl, free_entry 3 (λ e. omega (arith, e)), (other 4 3 (λ e. omega (arith, e)), tt)),
  ((4, refl, free_entry 4 (λ e. omega (arith, e)), tt), tt),
)

later-AllOther : AllOther 2 (tick_at later 3 ∷ tick_at later 4 ∷ [])
unfolding AllOther
later-AllOther = (other 3 2 (λ e. omega (arith, e)), (other 4 2 (λ e. omega (arith, e)), tt))

add_event-called_example :
    (m : Manager ℕ) × (add_event (some 20) (some 2) added_at added_at false 50 7 idle
      ≡ done ((ok, some 20), m))
    × (m' : Manager ℕ) × (call_expired counts (tick_at later 3 ∷ tick_at later 4 ∷ []) m ≡ done m')
    × Holds m'.events []
    × (m'.world ≡ 1)
add_event-called_example =
    add_event-called counts idle 20 2 50 7 added_at added_at (tick_at later 3) (tick_at later 4)
      (no_blocks-Holds once) (no_blocks-MayAllocate once) later-Supplied later-AllOther
      (omega arith) (omega arith) (omega arith)
