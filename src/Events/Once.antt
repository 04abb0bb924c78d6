-- ===== src/Events/Once.antt =====
-- Events of lib/ftm_timer.c that do not repeat.
use catchb.Base.{
  ℕ, ◌<◌, ◌≡◌, refl, true, false, some, List, [], ◌∷◌, arith, length, drop, inl, inr, Bool-cases,
}
use mathlib.Core.Path.{subst}
use catchb.Run.{done}
use catchb.Table.Holds.{Holds}
use catchb.Timer.{Timer, is_expired}
use catchb.Events.{EventTimer, Manager, Tick, call_expired}
use catchb.Events.Round.{Supplied, Leaves, handled, call_expired-handled}

unfoldable pub AllOnce : List EventTimer → Type 0
AllOnce [] = Unit {0}
AllOnce (v ∷ vs) = (v.repeats ≡ false) × AllOnce vs

-- The first events that have expired, each when its turn comes.
unfoldable pub expired : List Tick → List EventTimer → List EventTimer
expired [] vs = []
expired (k ∷ ks) [] = []
expired (k ∷ ks) (v ∷ vs) =
    let rest = expired ks vs in elim (is_expired v.timer k.seen) [ true ↦ v ∷ rest | false ↦ [] ]

module _ {W : Type 0} (call : (content : ℕ) → Timer → W → Timer × W) where
  -- The callbacks of these events, in order.
  unfoldable pub calls : List EventTimer → W → W
  calls [] w = w
  calls (v ∷ vs) w = calls vs (call v.content v.timer w).1

  handled-once :
      (ks : List Tick) (vs : List EventTimer) (w : W)
      → AllOnce vs
      → length vs < length ks
      → handled call ks vs w ≡ some (drop (length (expired ks vs)) vs, calls (expired ks vs) w)
  unfolding handled expired calls AllOnce
  handled-once [] vs w once enough = elim enough [ ]
  handled-once (k ∷ ks) [] w once enough = refl
  handled-once (k ∷ ks) (v ∷ vs) w once enough = elim (Bool-cases (is_expired v.timer k.seen)) [
    | inl late ↦
        rw (late, handled, expired, calls)
          (rw (once.0)
            (handled-once ks vs (call v.content v.timer w).1 once.1 (omega (arith, enough))))
    | inr waits ↦ rw (waits, handled, expired) refl
  ]

  -- If no event of the list repeats, malloc gives each turn an unused entry of its own and
  -- there are more turns than events, the inner loop of the event timers ends, has called the
  -- first events, in order, as long as each had expired when its turn came, and leaves the
  -- others in the list.
  pub call_expired_once :
      (ks : List Tick) (m : Manager W) (vs : List EventTimer)
      → Holds m.events vs
      → Supplied ks m.events.list
      → AllOnce vs
      → length vs < length ks
      → (m' : Manager W) × (call_expired call ks m ≡ done m')
        × Holds m'.events (drop (length (expired ks vs)) vs)
        × (m'.world ≡ calls (expired ks vs) m.world)
  unfolding Leaves
  call_expired_once ks m vs h supplied once enough =
      subst (Leaves (call_expired call ks m)) (handled-once ks vs m.world once enough)
        (call_expired-handled call ks m vs h supplied)
