-- ===== src/Ssid/Life.antt =====
-- How long a key of lib/ftm_ssid.c lives under the calls of isValid by all clients.
use catchb.Base.{
  ℕ, ◌+◌, ◌-◌, ◌%◌, ◌^◌, ◌≤◌, ◌<◌, ◌≡◌, refl, sym, ◌∙◌, true, false, not, ap, ◌||◌, none, some,
  List, [], ◌∷◌, map, Text, same, same_iff, same_refl, leb, ◌==◌, inl, inr, arith, Bool-cases,
  if◌then◌else◌,
}
use catchb.Run.{Run, done, ◌>>=◌}
use catchb.Ret.{Ret, ok, invalid_ssid}
use catchb.Table.Split.{first?, set_first, drop_first, first?-hit, first?-set_first}
use catchb.Table.Disjoint.{drop_first-set_first}
use catchb.Ssid.{Ssid, Ids, ready, has_key, is_expired, is_valid}
use catchb.Ssid.Others.{renew-first?, renew-drop_first, renew_unknown, renew_old, renew_young}
use catchb.Ssid.Renew.{Serves, renew, is_valid-renew}

-- Calls of isValid, each with its key and the time of the clock, in order.
unfoldable pub uses : (timeout : ℕ) → List (Text × ℕ) → Ids → Run (List Ret × Ids)
uses timeout [] s = done ([], s)
uses timeout ((key, now) ∷ us) s = do
  (r, s') ← is_valid ready timeout now now s key
  (rs, s'') ← uses timeout us s'
  done (r ∷ rs, s'')

unfoldable renews : (timeout : ℕ) → List (Text × ℕ) → List Ssid → List Ret × List Ssid
renews timeout [] vs = ([], vs)
renews timeout ((key, now) ∷ us) vs =
    let (r, ws) = renew timeout now now key vs in
    let (rs, xs) = renews timeout us ws in (r ∷ rs, xs)

-- The answers to the calls with this key, and the times of these calls.
abbrev pub own : (key : Text) → List (Text × ℕ) → List Ret → List Ret
own key [] rs = []
own key (u ∷ us) [] = []
own key (u ∷ us) (r ∷ rs) = if same key u.0 then r ∷ own key us rs else own key us rs

abbrev pub own_times : (key : Text) → List (Text × ℕ) → List ℕ
own_times key [] = []
own_times key ((k, now) ∷ us) = if same key k then now ∷ own_times key us else own_times key us

-- A key is good as long as no pause is longer than the timeout, and never again.
abbrev pub life : (timeout last : ℕ) → List ℕ → List Ret
life timeout last [] = []
life timeout last (now ∷ ts) =
    let rest = life timeout now ts in
    if timeout == 0 || leb now (last + timeout)
    then ok ∷ rest
    else invalid_ssid ∷ map (λ _. invalid_ssid) ts

-- The clock does not go back, and is within 32 bits.
abbrev pub InOrder : (last : ℕ) → List (Text × ℕ) → Type 0
InOrder last [] = Unit {0}
InOrder last ((k, now) ∷ us) = (last ≤ now) × (now < 2 ^ 32) × InOrder now us

pub record Uses (run : Run (List Ret × Ids)) (rs : List Ret) : Type 0 where
  pub after : Ids
  pub runs : run ≡ done (rs, after)

uses-renews :
    (timeout : ℕ) (us : List (Text × ℕ)) (s : Ids) (vs : List Ssid)
    → Serves s vs
    → Uses (uses timeout us s) (renews timeout us vs).0
unfolding uses renews
uses-renews timeout [] s vs h = record { after = s; runs = refl }
uses-renews timeout ((key, now) ∷ us) s vs h =
    let one = is_valid-renew timeout now now key s vs h in
    let more =
      uses-renews timeout us one.after (renew timeout now now key vs).1
        (Serves.serving one.initialized one.holds) in
    record { after = more.after; runs = rw one.runs (rw more.runs refl) }

-- A key without a session is refused for good.
dead-renews :
    (timeout : ℕ) (key : Text) (us : List (Text × ℕ)) (vs : List Ssid)
    → first? (has_key key) vs ≡ none
    → own key us (renews timeout us vs).0 ≡ map (λ _. invalid_ssid) (own_times key us)
unfolding renews
dead-renews timeout key [] vs gone = refl
dead-renews timeout key ((k, now) ∷ us) vs gone = elim (Bool-cases (same key k)) [
  | inl mine ↦
      let e : key ≡ k = (same_iff key k).0 mine in
      rw (renew_unknown timeout now k vs (rw e at gone))
        (rw mine (ap (◌∷◌ invalid_ssid) (dead-renews timeout key us vs gone)))
  | inr other ↦ rw other (
      dead-renews timeout key us (renew timeout now now k vs).1
        (renew-first? timeout now k key other vs ∙ gone))
]

-- In 32 bits the test of get is the plain one.
pub is_expired_lem :
    (timeout now : ℕ) (v : Ssid)
    → v.time ≤ now
    → now < 2 ^ 32
    → is_expired timeout now v ≡ not (timeout == 0 || leb now (v.time + timeout))
is_expired_lem timeout now v past small =
    let e : (now % 2 ^ 32 + 2 ^ 32 - v.time) % 2 ^ 32 ≡ now - v.time = omega arith in
    rw e (ground arith)

-- The answers to the calls from the first one on, when it is with this key.
module _ (timeout now : ℕ) (key : Text) (us : List (Text × ℕ)) (vs : List Ssid) (v : Ssid)
    (first : first? (has_key key) vs ≡ some v) (past : v.time ≤ now) (small : now < 2 ^ 32) where
  own_late :
      (timeout == 0 || leb now (v.time + timeout)) ≡ false
      → first? (has_key key) (drop_first (has_key key) vs) ≡ none
      → own key ((key, now) ∷ us) (renews timeout ((key, now) ∷ us) vs).0
        ≡ life timeout v.time (own_times key ((key, now) ∷ us))
  unfolding renews
  own_late late once =
      let old = is_expired_lem timeout now v past small ∙ ap not late in
      rw (renew_old timeout now key vs v first old) (
        rw (same_refl key) (
          rw late (
            ap (◌∷◌ invalid_ssid) (dead-renews timeout key us (drop_first (has_key key) vs) once))))

  own_timely :
      (timeout == 0 || leb now (v.time + timeout)) ≡ true
      → own key us
          (renews timeout us (set_first (has_key key) (record v { time = now % 2 ^ 32 }) vs)).0
        ≡ life timeout (now % 2 ^ 32) (own_times key us)
      → own key ((key, now) ∷ us) (renews timeout ((key, now) ∷ us) vs).0
        ≡ life timeout v.time (own_times key ((key, now) ∷ us))
  unfolding renews
  own_timely timely rest =
      let young = is_expired_lem timeout now v past small ∙ ap not timely in
      let whole : now % 2 ^ 32 ≡ now = omega (arith, small) in
      rw (renew_young timeout now key vs v first young) (
        rw (same_refl key) (
          rw timely (ap (◌∷◌ ok) (rest ∙ ap (λ (t : ℕ). life timeout t (own_times key us)) whole))))

live-renews :
    (timeout clock : ℕ) (key : Text) (us : List (Text × ℕ)) (vs : List Ssid) (v : Ssid)
    → first? (has_key key) vs ≡ some v
    → first? (has_key key) (drop_first (has_key key) vs) ≡ none
    → v.time ≤ clock
    → InOrder clock us
    → own key us (renews timeout us vs).0 ≡ life timeout v.time (own_times key us)
unfolding renews
live-renews timeout clock key [] vs v first once past order = refl
live-renews timeout clock key ((k, now) ∷ us) vs v first once past (forward, small, order) =
    let old : v.time ≤ now = omega (arith, past, forward) in
    elim (Bool-cases (same key k)) [
      | inl mine ↦
          let e : k ≡ key = sym ((same_iff key k).0 mine) in
          rw e (elim (Bool-cases (timeout == 0 || leb now (v.time + timeout))) [
            | inl timely ↦
                let w = record v { time = now % 2 ^ 32 } in
                let hit = first?-hit (has_key key) vs v first in
                own_timely timeout now key us vs v first old small timely (
                  live-renews timeout now key us (set_first (has_key key) w vs) w
                    (first?-set_first (has_key key) vs v w first hit)
                    (rw (drop_first-set_first (has_key key) w vs hit) once) (omega (arith, small))
                    order)
            | inr late ↦ own_late timeout now key us vs v first old small late once
          ])
      | inr other ↦ rw other (
          live-renews timeout now key us (renew timeout now now k vs).1 v
            (renew-first? timeout now k key other vs ∙ first)
            (renew-drop_first timeout now k key other vs once) old order)
    ]

-- If one session has the key, last used at its time, the clock goes on from there within 32
-- bits and never back, any calls of isValid by all clients come to an end, and the calls with
-- this key get OK as long as none of them comes later than the timeout after the one before,
-- and INVALID_SSID from the first one on that does; a timeout of 0 never ends a session.
pub uses-life :
    (timeout : ℕ) (key : Text) (us : List (Text × ℕ)) (s : Ids) (vs : List Ssid) (v : Ssid)
    → Serves s vs
    → first? (has_key key) vs ≡ some v
    → first? (has_key key) (drop_first (has_key key) vs) ≡ none
    → InOrder v.time us
    → (rs : List Ret) × (s' : Ids) × (uses timeout us s ≡ done (rs, s'))
      × (own key us rs ≡ life timeout v.time (own_times key us))
uses-life timeout key us s vs v h first once order =
    let run = uses-renews timeout us s vs h in
    (
      (renews timeout us vs).0,
      run.after,
      run.runs,
      live-renews timeout v.time key us vs v first once (omega arith) order,
    )

-- A key that no session has.
pub uses-dead :
    (timeout : ℕ) (key : Text) (us : List (Text × ℕ)) (s : Ids) (vs : List Ssid)
    → Serves s vs
    → first? (has_key key) vs ≡ none
    → (rs : List Ret) × (s' : Ids) × (uses timeout us s ≡ done (rs, s'))
      × (own key us rs ≡ map (λ _. invalid_ssid) (own_times key us))
uses-dead timeout key us s vs h gone =
    let run = uses-renews timeout us s vs h in
    ((renews timeout us vs).0, run.after, run.runs, dead-renews timeout key us vs gone)
