-- ===== src/Events/Round.antt =====
-- The loop of FTM_EVENT_TIMER_MANAGER_threadMain in lib/ftm_timer.c.
use catchb.Base.{
  ℕ, ◌^◌, ◌<◌, ◌≡◌, ◌≢◌, refl, sym, ap, ◌∙◌, Bool, true, false, Option, none, some, List, [], ◌∷◌,
  map, arith, length, length-map, inl, inr, Bool-cases,
}
use mathlib.Core.Path.{subst, ap₂}
use catchb.Run.{Run, done, out_of_fuel}
use catchb.FtmList.{FtmList}
use catchb.FtmList.Links.{AllDistinct}
use catchb.FtmList.Walk.{AllLive}
use catchb.FtmList.Shows.{Shows, IsFresh}
use catchb.FtmList.Read.{get_ends}
use catchb.Table.{Table, load}
use catchb.Table.Holds.{Holds, count-Holds}
use catchb.Timer.{Timer, is_expired}
use catchb.Events.{EventTimer, Manager, Tick, first_seen, fire, call_first, call_expired}
use catchb.Events.Fire.{fired, fire-GoesOn}

-- No turn of these is given this entry.
unfoldable pub AllOther : (e : ℕ) → List Tick → Type 0
AllOther e [] = Unit {0}
AllOther e (k ∷ ks) = (k.entry ≢ some e) × AllOther e ks

-- `malloc` gives each turn an unused entry of its own.
unfoldable pub Supplied : List Tick → FtmList → Type 0
unfolding AllOther
Supplied [] l = Unit {0}
Supplied (k ∷ ks) l = ((e : ℕ) × (k.entry ≡ some e) × IsFresh l e × AllOther e ks) × Supplied ks l

pub Supplied-keeps :
    (ks : List Tick) (e : ℕ) (l l' : FtmList)
    → AllOther e ks
    → ((x : ℕ) → IsFresh l x → x ≢ e → IsFresh l' x)
    → Supplied ks l
    → Supplied ks l'
unfolding Supplied AllOther
Supplied-keeps [] e l l' other keeps s = tt
Supplied-keeps (k ∷ ks) e l l' other keeps ((x, given, fresh, rest), s) = (
  (x, given, keeps x fresh (λ same. other.0 (given ∙ ap some same)), rest),
  Supplied-keeps ks e l l' other.1 keeps s,
)

load_live : {A : Type 0} (t : Table A) (p : ℕ) → t.live p ≡ true → load t p ≡ done (t.block p)
unfolding load
load_live t p alive = rw alive refl

-- A run that leaves these events, or takes more turns than there are.
unfoldable pub Leaves : {W : Type 0} → Run (Manager W) → Option (List EventTimer × W) → Type 0
Leaves run none = run ≡ out_of_fuel
Leaves {W = W} run (some (vs, w)) =
    (m : Manager W) × (run ≡ done m) × Holds m.events vs × (m.world ≡ w)

module _ {W : Type 0} (call : (content : ℕ) → Timer → W → Timer × W) where
  -- What the loop does to the events in order and to what the callbacks work on: the first event is
  -- called as long as it has expired, and if it repeats it goes to its new place.
  unfoldable pub handled : List Tick → List EventTimer → W → Option (List EventTimer × W)
  handled [] vs w = none
  handled (k ∷ ks) [] w = some ([], w)
  handled (k ∷ ks) (v ∷ vs) w =
      let rest = handled ks (fired call k w v vs) (call v.content v.timer w).1 in
      elim (is_expired v.timer k.seen) [ true ↦ rest | false ↦ some (v ∷ vs, w) ]

  pub handled-called :
      (k : Tick) (ks : List Tick) (v : EventTimer) (vs : List EventTimer) (w : W)
      → is_expired v.timer k.seen ≡ true
      → handled (k ∷ ks) (v ∷ vs) w ≡ handled ks (fired call k w v vs) (call v.content v.timer w).1
  unfolding handled
  handled-called k ks v vs w expired = rw (expired, handled) refl

  -- The first event is looked at.
  call_first-at :
      (k : Tick) (m : Manager W) (p : ℕ) (ps : List ℕ) (expired : Bool)
      → Shows m.events.list (p ∷ ps)
      → m.events.live p ≡ true
      → is_expired ((m.events.block p).timer) k.seen ≡ expired
      → call_first call k m ≡ elim expired [ true ↦ fire call k p m | false ↦ done (false, m) ]
  unfolding call_first first_seen
  call_first-at k m p ps expired s alive seen = rw ((get_ends m.events.list (p ∷ ps) s).0) (
      rw (load_live m.events p alive)
        (ap (λ b. elim b [ true ↦ fire call k p m | false ↦ done (false, m) ]) seen))

  call_first-empty :
      (k : Tick) (m : Manager W) → Shows m.events.list [] → call_first call k m ≡ done (false, m)
  unfolding call_first first_seen
  call_first-empty k m s = rw ((get_ends m.events.list [] s).0) refl

  pub call_expired-handled :
      (ks : List Tick) (m : Manager W) (vs : List EventTimer)
      → Holds m.events vs
      → Supplied ks m.events.list
      → Leaves (call_expired call ks m) (handled ks vs m.world)
  unfolding call_expired handled Leaves Supplied
  call_expired-handled [] m vs h supplied = refl
  call_expired-handled (k ∷ ks) m vs h ((e, given, fresh, other), supplied) =
      subst (λ us. Leaves (call_expired call (k ∷ ks) m) (handled (k ∷ ks) us m.world)) h.values
        (go (λ m' vs' h' s'. call_expired-handled ks m' vs' h' s') h.blocks h.shows h.alive
          h.distinct (count-Holds m.events vs h).1
          (sym (length-map m.events.block h.blocks) ∙ ap length h.values))
    where
      go :
          ((m' : Manager W) (vs' : List EventTimer)
            → Holds m'.events vs'
            → Supplied ks m'.events.list
            → Leaves (call_expired call ks m') (handled ks vs' m'.world))
          → (ps : List ℕ) → Shows m.events.list ps
          → AllLive m.events.live ps
          → AllDistinct ps
          → length vs < 2 ^ 32
          → length ps ≡ length vs
          → Leaves (call_expired call (k ∷ ks) m) (handled (k ∷ ks) (map m.events.block ps) m.world)
      go again [] s alive distinct small size = rw (call_first-empty k m s) (
        m,
        refl,
        record { blocks = []; shows = s; alive = alive; distinct = distinct; values = refl },
        refl,
      )
      go again (p ∷ ps) s alive distinct small size =
          elim (Bool-cases (is_expired ((m.events.block p).timer) k.seen)) [
            | inl expired ↦
                let (m', run, h', world, spares) =
                  fire-GoesOn call k m p e ps s alive distinct given fresh
                    (omega (arith, size, small)) in
                let rest =
                  again m' _ h'
                    (Supplied-keeps ks e m.events.list m'.events.list other spares supplied) in
                let rounds : call_expired call (k ∷ ks) m ≡ call_expired call ks m' =
                  rw (call_first-at k m p ps true s alive.0 expired) (rw run refl) in
                let v = m.events.block p in
                let handles : handled (k ∷ ks) (v ∷ map m.events.block ps) m.world
                    ≡ handled ks (fired call k m.world v (map m.events.block ps)) m'.world =
                  handled-called k ks v _ m.world expired ∙ ap (handled ks _) (sym world) in
                subst (λ x. x) (ap₂ Leaves (sym rounds) (sym handles)) rest
            | inr waits ↦
                let rounds : call_expired call (k ∷ ks) m ≡ done m =
                  rw (call_first-at k m p ps false s alive.0 waits) refl in
                let v = m.events.block p in
                let handles : handled (k ∷ ks) (v ∷ map m.events.block ps) m.world
                    ≡ some (v ∷ map m.events.block ps, m.world) =
                  rw (waits, handled) refl in
                subst (λ x. x) (ap₂ Leaves (sym rounds) (sym handles))
                  (
                    m,
                    refl,
                    record {
                      blocks = p ∷ ps;
                      shows = s;
                      alive = alive;
                      distinct = distinct;
                      values = refl;
                    },
                    refl,
                  )
          ]
