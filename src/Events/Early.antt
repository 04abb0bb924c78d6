-- ===== src/Events/Early.antt =====
-- A repeating event of lib/ftm_timer.c whose new base is after the clock.
use mathlib.Core.Path.{subst}
use catchb.Base.{ℕ, ◌≡◌, refl, ap, ◌∙◌, true, some, List, [], ◌∷◌}
use catchb.Timer.{Timeval, Timer, is_expired}
use catchb.Timer.Early.{IsLate, add_ms-early}
use catchb.Table.Holds.{Holds}
use catchb.Events.{EventTimer, Manager, Tick, call_expired}
use catchb.Events.Turn.{put, renewed}
use catchb.Events.Fire.{fired}
use catchb.Events.Round.{Supplied, Leaves, handled, handled-called, call_expired-handled}

-- A turn at this time.
abbrev pub tick_at : (now : Timeval) → (e : ℕ) → Tick
tick_at now e = record { seen = now; added = now; sorted = now; entry = some e }

module _ {W : Type 0} (call : (content : ℕ) → Timer → W → Timer × W) where
  -- An event that repeats and is alone stays so.
  fired-alone :
      (k : Tick) (v : EventTimer) (w : W)
      → v.repeats ≡ true
      → (call v.content v.timer w).0 ≡ v.timer
      → fired call k w v [] ≡ renewed k v v.timer ∷ []
  unfolding put
  fired-alone k v w repeats keeps = rw repeats (rw keeps refl)

  -- If the only event repeats, has expired at the time of the clock and leaves its timer to
  -- addMS, and the clock is past the timer's base by more seconds than the whole seconds of its
  -- interval, but has fewer microseconds than the base, then the loop calls it, and calls it
  -- again at once, however far ahead its next time lies.
  pub called_twice :
      (m : Manager W) (v : EventTimer) (now : Timeval) (e e' : ℕ) (ks : List Tick)
      → Holds m.events (v ∷ [])
      → Supplied (tick_at now e ∷ tick_at now e' ∷ ks) m.events.list
      → ((content : ℕ) (t : Timer) (w : W) → (call content t w).0 ≡ t)
      → v.repeats ≡ true
      → is_expired v.timer now ≡ true
      → IsLate v.timer now v.time_ms
      → let again = renewed (tick_at now e) v v.timer in
        Leaves (call_expired call (tick_at now e ∷ tick_at now e' ∷ ks) m) (
          handled call ks
            (renewed (tick_at now e') again again.timer ∷ [])
            (call v.content again.timer (call v.content v.timer m.world).1).1)
  called_twice m v now e e' ks h supplied keeps repeats expired late =
      let again = renewed (tick_at now e) v v.timer in
      let early = add_ms-early v.timer now v.time_ms late in
      let first = keeps v.content v.timer m.world in
      let second = keeps v.content again.timer (call v.content v.timer m.world).1 in
      let w = (call v.content v.timer m.world).1 in
      let same : handled call (tick_at now e ∷ tick_at now e' ∷ ks) (v ∷ []) m.world
          ≡ handled call ks (renewed (tick_at now e') again again.timer ∷ [])
              (call v.content again.timer (call v.content v.timer m.world).1).1 =
        handled-called call (tick_at now e) (tick_at now e' ∷ ks) v [] m.world expired
        ∙ ap (λ vs. handled call (tick_at now e' ∷ ks) vs w)
            (fired-alone (tick_at now e) v m.world repeats first)
        ∙ handled-called call (tick_at now e') ks again [] w early
        ∙ ap (λ vs. handled call ks vs (call v.content again.timer w).1)
            (fired-alone (tick_at now e') again w repeats second) in
      subst (Leaves (call_expired call (tick_at now e ∷ tick_at now e' ∷ ks) m)) same
        (call_expired-handled call (tick_at now e ∷ tick_at now e' ∷ ks) m (v ∷ []) h supplied)
