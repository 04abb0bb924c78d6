-- ===== src/Msgq/Tests.antt =====
-- Runs of lib/ftm_msgq.c.
use catchb.Base.{refl, some, [], ◌∷◌, arith}
use catchb.Run.{Run, done, fault, blocked, out_of_fuel}
use catchb.FtmList.Shows.{IsFresh}
use catchb.FtmList.Tests.{two_items, two_items-Shows}
use catchb.Msgq.{Msgq, zeroed, push, pop}
use catchb.Msgq.Fifo.{Holds}
use catchb.Msgq.Trace.{Calls, start, pushed, popped, Waits, calls-Waits}

abbrev two_messages : Msgq
two_messages = record { queue = two_items; lock = 2; freed = [] }

two_messages-Holds : Holds two_messages (10 ∷ 20 ∷ [])
two_messages-Holds = record { shows = two_items-Shows; counts = refl }

abbrev no_messages : Msgq
no_messages = record { queue = record zeroed { lock = 1 }; lock = 0; freed = [] }

no_messages-Holds : Holds no_messages []
no_messages-Holds = record {
  shows = record {
    entries = [];
    is_list = record {
      chain = (refl, refl);
      distinct = tt;
      no_head = refl;
      alive = tt;
      counted = refl;
      bounded = omega arith;
    };
    items = refl;
    open_lock = refl;
  };
  counts = refl;
}

-- What a run leaves, and the queue it began with where it did not end.
abbrev left {ℓ} : {A : Type ℓ} → Msgq → Run (A × Msgq) → Msgq
left m (done (r, m')) = m'
left m fault = m
left m blocked = m
left m out_of_fuel = m

abbrev one_in : Msgq
unfolding push
one_in = left no_messages (push (some 1) no_messages 7)

abbrev two_in : Msgq
unfolding push
two_in = left one_in (push (some 2) one_in 8)

abbrev one_out : Msgq
unfolding pop
one_out = left two_in (pop two_in)

calls : Calls no_messages (7 ∷ 8 ∷ []) (7 ∷ []) one_out
unfolding push pop
calls =
    popped
      (pushed (some 2) 8 (pushed (some 1) 7 start fresh_1 (omega arith) refl) fresh_2 (omega arith)
        refl)
      refl
  where
    fresh_1 : IsFresh no_messages.queue 1
    fresh_1 = record { not_head = omega arith; unused = refl }

    fresh_2 : IsFresh one_in.queue 2
    fresh_2 = record { not_head = omega arith; unused = refl }

calls-Waits_example : Waits (7 ∷ 8 ∷ []) (7 ∷ []) one_out
calls-Waits_example = calls-Waits no_messages one_out (7 ∷ 8 ∷ []) (7 ∷ []) no_messages-Holds calls
