-- ===== src/Alarms/Change.antt =====
-- Adding and deleting alarms of lib/ftm_catchb.c.
use mathlib.Core.List.{append-nil}
use catchb.Base.{
  ℕ, ◌+◌, ◌^◌, ◌<◌, ◌≤◌, ◌≡◌, ◌≢◌, refl, true, inl, inr, none, some, List, [], ◌∷◌, ◌++◌, length,
  Text, same, same_refl, Option-cases, take, take_of_length-le,
}
use catchb.Run.{Run, done}
use catchb.Ret.{ok_or, Ret, ok}
use catchb.Peer.{say}
use catchb.Table.Split.{first?, drop_first, first?-last, drop_first-none}
use catchb.Table.Holds.{Holds, HoldsAt-Holds}
use catchb.Table.Change.{MayAllocate, add-HoldsAt, TakesOff, take_off-TakesOff}
use catchb.Table.Search.{find-FoundAt, find-NotFound}
use catchb.Alarms.{
  Alarm, Alarms, DbCall, db_add_alarm, copied, add_alarm, alarm_listed, alarm_stored, has_name,
  del_alarm, alarm_found, alarm_off, get_alarm,
}
use catchb.Alarms.Get.{get_alarm-first?, answer_of}

-- What a call returns and leaves: the alarms and the calls of the database.
pub record Leaves (run : Run (Ret × Alarms)) (r : Ret) (vs : List Alarm) (calls : List DbCall)
    : Type 0 where
  pub after : Alarms
  pub runs : run ≡ done (r, after)
  pub holds : Holds after.alarms vs
  pub called : after.db.calls ≡ calls

-- An alarm that the database refuses is not kept.
abbrev pub kept : Ret → Alarm → List Alarm → List Alarm
kept ok a vs = vs ++ copied a ∷ []
kept r a vs = vs

stored_refused :
    (s : Alarms) (p : ℕ) (vs : List Alarm) (off : TakesOff s.alarms p vs) (r : Ret)
    → r ≢ ok
    → alarm_stored p (r, s) ≡ done (r, record s { alarms = off.freed })
unfolding alarm_stored
stored_refused s p vs off ok bad = absurd (bad refl)
stored_refused s p vs off r bad = rw off.takes (rw off.frees)

kept_refused : (r : Ret) (a : Alarm) (vs : List Alarm) → r ≢ ok → kept r a vs ≡ vs
kept_refused ok a vs bad = absurd (bad refl)
kept_refused r a vs bad = refl

module _ (s : Alarms) (a : Alarm) (p e : ℕ) (vs : List Alarm) (h : Holds s.alarms vs)
    (m : MayAllocate s.alarms p e) (small : length vs + 1 < 2 ^ 32) where
  add_stored :
      s.db.answer (s.db.calls ++ db_add_alarm (copied a) ∷ []) ≡ ok
      → Leaves
          (add_alarm (some p) (some e) s a)
          ok
          (vs ++ copied a ∷ [])
          (s.db.calls ++ db_add_alarm (copied a) ∷ [])
  unfolding add_alarm alarm_listed alarm_stored say
  add_stored stored =
      let (t, added, at, _) = add-HoldsAt s.alarms p e (copied a) vs h m small in
      record {
        after = record s {
          alarms = t;
          db = record (s.db) { calls = s.db.calls ++ db_add_alarm (copied a) ∷ [] };
        };
        runs = rw added (rw stored refl);
        holds = HoldsAt-Holds t vs p (copied a) [] at;
        called = refl;
      }

  add_refused :
      (r : Ret)
      → s.db.answer (s.db.calls ++ db_add_alarm (copied a) ∷ []) ≡ r
      → r ≢ ok
      → Leaves (add_alarm (some p) (some e) s a) r vs (s.db.calls ++ db_add_alarm (copied a) ∷ [])
  unfolding add_alarm alarm_listed say
  add_refused r refused bad =
      let (t, added, at, _) = add-HoldsAt s.alarms p e (copied a) vs h m small in
      let off = take_off-TakesOff t vs p (copied a) [] at in
      let s1 : Alarms = record s {
        alarms = t;
        db = record (s.db) { calls = s.db.calls ++ db_add_alarm (copied a) ∷ [] };
      } in
      record {
        after = record s1 { alarms = off.freed };
        runs = rw added (rw refused (stored_refused s1 p (vs ++ []) off r bad));
        holds = rw append-nil at off.holds;
        called = refl;
      }

  -- With memory there and room in the count addAlarm returns what the database answers; with OK
  -- the list holds the alarms that it held followed by the new one, with an error the alarm is
  -- taken off again and freed and the list holds what it held.
  add_alarm-Leaves :
      let calls = s.db.calls ++ db_add_alarm (copied a) ∷ [] in
      let r = s.db.answer calls in Leaves (add_alarm (some p) (some e) s a) r (kept r a vs) calls
  add_alarm-Leaves =
      let r = s.db.answer (s.db.calls ++ db_add_alarm (copied a) ∷ []) in
      elim (ok_or r) [
        | inl stored ↦ rw stored (add_stored stored)
        | inr bad ↦ rw (kept_refused r a vs bad) (add_refused r refl bad)
      ]

-- The alarm as its record has room for it: a name of 32, an address of 128 and a message of 1024
-- characters.
abbrev pub cut : Alarm → Alarm
cut a = record a { name = take 32 a.name; email = take 128 a.email; message = take 1024 a.message }

-- If no alarm has the name, of at most 32 characters, memory is there, the count has room and
-- the database says OK, addAlarm returns OK, and getAlarm of this name then returns OK and the
-- alarm that was added, its texts cut to the lengths of the record; the list holds the alarms
-- that it held followed by this one.
pub get_alarm-add :
    (s : Alarms) (a : Alarm) (p e : ℕ) (vs : List Alarm)
    → Holds s.alarms vs
    → MayAllocate s.alarms p e
    → length vs + 1 < 2 ^ 32
    → length a.name ≤ 32
    → first? (has_name a.name) vs ≡ none
    → s.db.answer (s.db.calls ++ db_add_alarm (cut a) ∷ []) ≡ ok
    → (s' s'' : Alarms) × (add_alarm (some p) (some e) s a ≡ done (ok, s'))
      × (get_alarm s' a.name ≡ done (ok, some (cut a), s''))
      × Holds s''.alarms (vs ++ cut a ∷ [])
get_alarm-add s a p e vs h m small short new stored =
    let made = add_stored s a p e vs h m small stored in
    let named : same (take 32 a.name) a.name ≡ true =
      rw (take_of_length-le 32 a.name short) (same_refl a.name) in
    let found = first?-last (has_name a.name) vs (cut a) new named in
    let (t, run, k) = get_alarm-first? made.after a.name (vs ++ cut a ∷ []) made.holds in
    (made.after, record (made.after) { alarms = t }, made.runs, rw found at run, k)

-- The first alarm of the name goes, if there is one; the database is not told.
del_alarm-Leaves :
    (s : Alarms) (name : Text) (vs : List Alarm)
    → Holds s.alarms vs
    → let r = (answer_of (first? (has_name name) vs)).0 in
      Leaves (del_alarm s name) r (drop_first (has_name name) vs) s.db.calls
unfolding del_alarm alarm_found alarm_off
del_alarm-Leaves s name vs h = elim (Option-cases (first? (has_name name) vs)) [
  | inl nowhere ↦
      let f = find-NotFound (has_name name) s.alarms vs h nowhere in
      rw (nowhere, drop_first-none (has_name name) vs nowhere)
        (record {
          after = record s { alarms = f.after };
          runs = rw f.runs;
          holds = f.holds;
          called = refl;
        })
  | inr (a, first) ↦
      let f = find-FoundAt (has_name name) s.alarms vs a h first in
      let off = take_off-TakesOff f.after f.us f.at a f.ws f.holds in
      rw first (record {
        after = record s { alarms = off.freed };
        runs = rw f.runs (rw off.takes (rw off.frees));
        holds = rw f.drops off.holds;
        called = refl;
      })
]
