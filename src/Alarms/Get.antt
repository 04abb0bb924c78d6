-- ===== src/Alarms/Get.antt =====
-- Reading and setting one alarm of lib/ftm_catchb.c.
use catchb.Base.{
  ℕ, zero, suc, ◌+◌, ◌<◌, ◌≡◌, refl, ◌∙◌, Bool-cases, inl, inr, true, false, Option, none, some,
  List, [], ◌∷◌, ◌++◌, arith, length, Text, same, same_comm, Option-cases,
}
use mathlib.Core.List.{append_assoc, append-nil}
use catchb.Run.{done}
use catchb.Ret.{Ret, ok, object_not_found}
use catchb.Table.{Table}
use catchb.Table.Split.{first?}
use catchb.Table.Holds.{Holds, count-Holds}
use catchb.Table.Iterate.{Iterating, Iterating-Holds, start-Iterating, next-Iterating, next_end}
use catchb.Alarms.{Alarm, Alarms, has_name, seek_alarm, get_alarm, change_alarm, set_alarm}

seek_alarm-first? :
    (n : ℕ) (name : Text) (t : Table Alarm) (us ws : List Alarm)
    → Iterating t us ws
    → length ws < n
    → (t' : Table Alarm) × (seek_alarm n name t ≡ done (first? (has_name name) ws, t'))
      × Holds t' (us ++ ws)
unfolding seek_alarm
seek_alarm-first? zero name t us ws h few = elim few [ ]
seek_alarm-first? (suc n) name t us [] h few =
    let (t', run, k) = next_end t us h in (t', rw run, rw append-nil k)
seek_alarm-first? (suc n) name t us (a ∷ ws) h few =
    let (t', p, run, reads, k) = next-Iterating t us a ws h in
    let step : seek_alarm (suc n) name t
        ≡ elim (same name a.name) [ true ↦ done (some a, t') | false ↦ seek_alarm n name t' ] =
      rw run (rw reads refl) in
    elim (Bool-cases (same a.name name)) [
      | inl hit ↦
          let here = same_comm name a.name ∙ hit in
          let whole = Iterating-Holds t' (us ++ a ∷ []) ws k in
          (t', step ∙ rw (here, hit), rw append_assoc at whole)
      | inr miss ↦
          let here = same_comm name a.name ∙ miss in
          let (t'', rest, k') = seek_alarm-first? n name t' (us ++ a ∷ []) ws k (omega arith) in
          (t'', step ∙ rw (here, miss) rest, rw append_assoc at k')
    ]

abbrev pub answer_of : Option Alarm → Ret × Option Alarm
answer_of none = (object_not_found, none)
answer_of (some a) = (ok, some a)

pub get_alarm-first? :
    (s : Alarms) (name : Text) (vs : List Alarm)
    → Holds s.alarms vs
    → (t : Table Alarm) × (get_alarm s name ≡ (
        let (r, o) = answer_of (first? (has_name name) vs) in done (r, o, record s { alarms = t })))
      × Holds t vs
unfolding get_alarm
get_alarm-first? s name vs h =
    let (t, started, i) = start-Iterating s.alarms vs h in
    let (t', run, k) =
      seek_alarm-first? (s.alarms.list.count + 1) name t [] vs i
        (omega (arith, count-Holds s.alarms vs h)) in
    elim (Option-cases (first? (has_name name) vs)) [
      | inl nowhere ↦ (t', rw started (rw run (rw nowhere)), k)
      | inr (a, found) ↦ (t', rw started (rw run (rw found)), k)
    ]

-- On a list that is not empty setAlarm returns OBJECT_NOT_FOUND and changes nothing, whatever
-- the name and the fields, after one round of its loop.
set_alarm_ignored :
    (s : Alarms) (name : Text) (from : Alarm) (flags n garbage : ℕ) (vs : List Alarm)
    → Holds s.alarms vs
    → 0 < length vs
    → (t : Table Alarm) × (set_alarm (suc n) garbage s name from flags
        ≡ done (object_not_found, record s { alarms = t }))
      × Holds t vs
unfolding set_alarm change_alarm
set_alarm_ignored s name from flags n garbage [] h some_there = absurd (omega arith)
set_alarm_ignored s name from flags n garbage (v ∷ vs) h some_there =
    let (t, started, i) = start-Iterating s.alarms (v ∷ vs) h in
    let (t', p, run, reads, k) = next-Iterating t [] v vs i in
    (t', rw started (rw run), Iterating-Holds t' (v ∷ []) vs k)
