-- ===== src/Events/Due.antt =====
-- An event of lib/ftm_timer.c from FTM_EVENT_TIMER_MANAGER_add to its callback.
use catchb.Base.{
  ℕ, ◌+◌, ◌*◌, ◌≤◌, ◌≡◌, refl, ap, ◌∙◌, Bool, true, false, some, [], ◌∷◌, arith, length, drop, ltb,
  if◌then◌else◌,
}
use mathlib.Core.Path.{subst}
use catchb.Run.{done}
use catchb.Ret.{ok}
use catchb.Table.Holds.{Holds}
use catchb.Table.Change.{MayAllocate}
use catchb.Timer.{Timeval, Timer, is_expired}
use catchb.Timer.Exact.{micros, IsNormal}
use catchb.Timer.Remain.{is_expired-init_ms}
use catchb.Events.{EventTimer, Manager, Tick, add_event, call_expired}
use catchb.Events.Turn.{put}
use catchb.Events.Round.{AllOther, Supplied, Supplied-keeps}
use catchb.Events.Once.{AllOnce, expired, calls, call_expired_once}
use catchb.Events.Add.{Ordered, made, add_event-Ordered}

rest-alone :
    (v : EventTimer) (due : Bool)
    → drop (length (elim due [ true ↦ v ∷ [] | false ↦ [] ])) (v ∷ [])
      ≡ (if due then [] else v ∷ [])
rest-alone v true = refl
rest-alone v false = refl

module _ {W : Type 0} (call : (content : ℕ) → Timer → W → Timer × W) where
  calls-alone :
      (v : EventTimer) (due : Bool) (w : W)
      → calls call (elim due [ true ↦ v ∷ [] | false ↦ [] ]) w
        ≡ (if due then (call v.content v.timer w).1 else w)
  unfolding calls
  calls-alone v true w = refl
  calls-alone v false w = refl

  -- With memory at unused addresses and clocks of less than a million microseconds, of which
  -- the second is not before the first, adding an event that does not repeat to an empty
  -- manager returns OK, and a later loop ends in two turns and calls it, and takes it off the
  -- list, exactly if more than its milliseconds have gone by since then.
  pub add_event-called :
      (m : Manager W) (p e ms content : ℕ) (now sorted : Timeval) (k k' : Tick)
      → Holds m.events []
      → MayAllocate m.events p e
      → Supplied (k ∷ k' ∷ []) m.events.list
      → AllOther e (k ∷ k' ∷ [])
      → IsNormal now
      → IsNormal k.seen
      → micros now ≤ micros k.seen
      → let v = made m.loop_interval now false ms content in
        let due = ltb (micros now + ms * 1000) (micros k.seen) in
        (m' : Manager W) × (add_event (some p) (some e) now sorted false ms content m
          ≡ done ((ok, some p), m'))
        × (m'' : Manager W) × (call_expired call (k ∷ k' ∷ []) m' ≡ done m'')
        × Holds m''.events (if due then [] else v ∷ [])
        × (m''.world ≡ (if due then (call content v.timer m.world).1 else m.world))
  unfolding Ordered AllOnce put expired calls
  add_event-called m p e ms content now sorted k k' h memory supplied others n seen after =
      let v = made m.loop_interval now false ms content in
      let (m', adds, held, order, world, keeps) =
        add_event-Ordered m [] p e now sorted false ms content h tt memory (omega arith) in
      let (m'', runs, held', world') =
        call_expired_once call (k ∷ k' ∷ []) m' (v ∷ []) held
          (Supplied-keeps (k ∷ k' ∷ []) e m.events.list m'.events.list others keeps supplied)
          (refl, tt) (omega arith) in
      let same : is_expired v.timer k.seen ≡ ltb (micros now + ms * 1000) (micros k.seen) =
        is_expired-init_ms now k.seen ms n seen after in
      (
        m',
        adds,
        m'',
        runs,
        subst (Holds m''.events)
            (ap (λ b. drop (length (elim b [ true ↦ v ∷ [] | false ↦ [] ])) (v ∷ [])) same
              ∙ rest-alone v (ltb (micros now + ms * 1000) (micros k.seen)))
            held',
        world'
            ∙ ap (calls call (expired (k ∷ k' ∷ []) (v ∷ []))) world
            ∙ ap (λ b. calls call (elim b [ true ↦ v ∷ [] | false ↦ [] ]) m.world) same
            ∙ calls-alone v (ltb (micros now + ms * 1000) (micros k.seen)) m.world,
      )
