-- ===== src/Alarms/Page.antt =====
-- The lists of alarms that lib/ftm_catchb.c copies to its callers.
use mathlib.Core.List.{append_assoc, append-nil}
use catchb.Base.{
  ℕ, zero, suc, ◌+◌, ◌-◌, ◌%◌, ◌^◌, ◌<◌, ◌≤◌, ◌≡◌, refl, sym, ap, ◌∙◌, Bool-cases, inl, inr, true,
  false, List, [], ◌∷◌, ◌++◌, arith, length, leb, drop_of_length-le, take_of_length-le, take, drop,
  if◌then◌else◌,
}
use catchb.Run.{done, ◌>>=◌}
use catchb.Table.{Table}
use catchb.Table.Holds.{Holds, count-Holds}
use catchb.Table.Iterate.{Iterating, Iterating-Holds, start-Iterating, next-Iterating, next_end}
use catchb.Alarms.{Alarm, Alarms, page, get_alarm_list}

abbrev taken_here : (index i : ℕ) → Alarm → List Alarm
taken_here index i a = if leb index i then a ∷ [] else []

abbrev counted : (index i count : ℕ) → ℕ
counted index i count = if leb index i then count + 1 else count

-- One round of the loop, which ends or goes on.
record Round (n index max i count : ℕ) (t : Table Alarm) (us : List Alarm) (a : Alarm)
    (ws : List Alarm) : Type 0 where
  after : Table Alarm
  ahead : Iterating after (us ++ a ∷ []) ws
  stops :
      leb max (counted index i count) ≡ true
      → page (suc n) index max i count t ≡ done (taken_here index i a, after)
  goes_on :
      (rest : List Alarm) (t' : Table Alarm)
      → leb max (counted index i count) ≡ false
      → i + 1 < 2 ^ 32
      → counted index i count < 2 ^ 32
      → page n index max (i + 1) (counted index i count) after ≡ done (rest, t')
      → page (suc n) index max i count t ≡ done (taken_here index i a ++ rest, t')

page-Round :
    (n index max i count : ℕ) (t : Table Alarm) (us : List Alarm) (a : Alarm) (ws : List Alarm)
    → Iterating t us (a ∷ ws)
    → Round n index max i count t us a ws
unfolding page
page-Round n index max i count t us a ws h =
    let (t', p, run, reads, k) = next-Iterating t us a ws h in
    let round : page (suc n) index max i count t ≡ elim (leb max (counted index i count)) [
      | true ↦ done (taken_here index i a, t')
      | false ↦ do
        (rest, t'') ← page n index max ((i + 1) % 2 ^ 32) (counted index i count % 2 ^ 32) t'
        done (taken_here index i a ++ rest, t'')
    ] =
      rw run (rw reads refl) in
    record {
      after = t';
      ahead = k;
      stops = λ full. round ∙ rw full refl;
      goes_on = λ rest t'' more i_few c_few later.
          let i_small : (i + 1) % 2 ^ 32 ≡ i + 1 = omega arith in
          let c_small : counted index i count % 2 ^ 32 ≡ counted index i count = omega arith in
          round ∙ rw more (rw (i_small, c_small) (rw later refl));
    }

take_here :
    (index max i count : ℕ) (a : Alarm) (ws : List Alarm)
    → count < max
    → taken_here index i a ++ take (max - counted index i count) (drop (index - (i + 1)) ws)
      ≡ take (max - count) (drop (index - i) (a ∷ ws))
take_here index max i count a ws few = elim (Bool-cases (leb index i)) [
  | inl from ↦
      let here : index - i ≡ 0 = ground arith in
      let further : index - (i + 1) ≡ 0 = ground arith in
      let one : max - count ≡ suc (max - (count + 1)) = omega arith in
      rw (from, here, further, one) refl
  | inr earlier ↦
      let further : index - i ≡ suc (index - (i + 1)) = ground arith in rw (earlier, further) refl
]

take-drop_nil : (m k : ℕ) → take {A = Alarm} m (drop k []) ≡ []
take-drop_nil m k =
    rw (drop_of_length-le {A = Alarm} k [] (omega arith))
      (take_of_length-le {A = Alarm} m [] (omega arith))

page-take :
    (n index max i count : ℕ) (t : Table Alarm) (us ws : List Alarm)
    → Iterating t us ws
    → length ws < n
    → i + length ws < 2 ^ 32
    → count ≤ i
    → count < max
    → (t' : Table Alarm) × (page n index max i count t
        ≡ done (take (max - count) (drop (index - i) ws), t'))
      × Holds t' (us ++ ws)
unfolding page
page-take zero index max i count t us ws h few small fewer room = elim few [ ]
page-take (suc n) index max i count t us [] h few small fewer room =
    let (t', run, k) = next_end t us h in
    (
      t',
      rw run (ap (λ xs. done (xs, t')) (sym (take-drop_nil (max - count) (index - i)))),
      rw append-nil k,
    )
page-take (suc n) index max i count t us (a ∷ ws) h few small fewer room =
    let r = page-Round n index max i count t us a ws h in
    let here = take_here index max i count a ws room in
    elim (Bool-cases (leb max (counted index i count))) [
      | inl full ↦
          let none_left : max - counted index i count ≡ 0 = ground arith in
          let all : taken_here index i a ++ [] ≡ take (max - count) (drop (index - i) (a ∷ ws)) =
            rw none_left at here in
          let whole = Iterating-Holds r.after (us ++ a ∷ []) ws r.ahead in
          (
            r.after,
            r.stops full
                ∙ ap (λ xs. done (xs, r.after)) (sym (append-nil (taken_here index i a)) ∙ all),
            rw append_assoc at whole,
          )
      | inr more ↦
          let (t', rest, k) =
            page-take n index max (i + 1) (counted index i count) r.after (us ++ a ∷ []) ws r.ahead
              (omega arith) (omega arith) (ground arith) (ground arith) in
          (
            t',
            r.goes_on _ t' more (omega arith) (ground arith) rest ∙ ap (λ xs. done (xs, t')) here,
            rw append_assoc at k,
          )
    ]

-- With room for at least one alarm getAlarmList writes the alarms from the index on, as many as
-- there is room for, comes to an end within one round more than there are alarms, and leaves
-- the list as it was.
get_alarm_list-take :
    (s : Alarms) (index max : ℕ) (vs : List Alarm)
    → Holds s.alarms vs
    → 0 < max
    → (t : Table Alarm) × (get_alarm_list s index max
        ≡ done (take max (drop index vs), record s { alarms = t }))
      × Holds t vs
unfolding get_alarm_list
get_alarm_list-take s index max vs h some_room =
    let (t, started, i) = start-Iterating s.alarms vs h in
    let (t', run, k) =
      page-take (s.alarms.list.count + 1) index max 0 0 t [] vs i
        (omega (arith, count-Holds s.alarms vs h)) (omega (arith, count-Holds s.alarms vs h))
        (omega arith) some_room in
    let all_max : max - 0 ≡ max = omega arith in
    let from_index : index - 0 ≡ index = omega arith in
    (t', rw started (rw run (rw (all_max, from_index) refl)), k)

-- With room for none, one alarm is written all the same.
get_alarm_list_zero :
    (s : Alarms) (v : Alarm) (vs : List Alarm)
    → Holds s.alarms (v ∷ vs)
    → (t : Table Alarm) × (get_alarm_list s 0 0 ≡ done (v ∷ [], record s { alarms = t }))
      × Holds t (v ∷ vs)
unfolding get_alarm_list
get_alarm_list_zero s v vs h =
    let (t, started, i) = start-Iterating s.alarms (v ∷ vs) h in
    let r = page-Round s.alarms.list.count 0 0 0 0 t [] v vs i in
    let fuel : s.alarms.list.count + 1 ≡ suc s.alarms.list.count = omega arith in
    (
      r.after,
      rw started (rw fuel (rw (r.stops refl) refl)),
      Iterating-Holds r.after (v ∷ []) vs r.ahead,
    )
