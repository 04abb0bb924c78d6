-- ===== src/Core/Check/Pushes.antt =====
-- Which messages `FTM_CATCHB_onCheckNewCCTV` of lib/ftm_catchb.c sends.
use mathlib.Core.Path.{subst}
use mathlib.Core.List.{append-nil, append_assoc}
use catchb.Base.{
  ℕ, zero, suc, ◌+◌, ◌<◌, ◌≡◌, ◌≢◌, refl, sym, ap, ◌∙◌, true, false, none, some, List, [], ◌∷◌,
  ◌++◌, arith, length, Text, same, take, inl, inr, Bool-cases, Option-cases, ◌==◌,
}
use catchb.Run.{Run, done}
use catchb.Ret.{Ret, ok, object_not_found}
use catchb.Table.Split.{first?}
use catchb.Table.Holds.{Holds, HoldsAt-Holds, count-Holds}
use catchb.Table.Iterate.{Iterating, start-Iterating, next-Iterating, next_end, Iterating-Holds}
use catchb.Table.Search.{find-NotFound, find-FoundAt}
use catchb.Analyzer.Watch.{id_len}
use catchb.Cctv.{Cctv}
use catchb.Core.{
  Core, Call, has_id, push_removed, push_found, db_get_cctv_count, db_get_cctv_list, ask, get_cctv,
}
use catchb.Core.Check.{
  Stored, is_stored, camera_checked, camera_seen, next_checked, check_cameras, row_checked,
  check_rows, cctvs_listed, cctvs_counted, on_check_new_cctv,
}

-- The messages about a camera, and about the cameras, that no row has the id of.
departed : (rows : List Cctv) → Cctv → List Call
departed rows v = elim (first? (λ c. same v.id c.id) rows) [
  | none ↦ push_removed (take id_len v.id) ∷ []
  | some c ↦ []
]

pub gone : (rows vs : List Cctv) → List Call
unfolding departed
gone rows [] = []
gone rows (v ∷ vs) = departed rows v ++ gone rows vs

-- The messages about a row, and about the rows, that no camera has the id of.
arrived : (vs : List Cctv) → Cctv → List Call
arrived vs c = elim (first? (has_id c.id) vs) [ none ↦ push_found c ∷ [] | some v ↦ [] ]

pub come : (vs rows : List Cctv) → List Call
unfolding arrived
come vs [] = []
come vs (c ∷ cs) = arrived vs c ++ come vs cs

-- What the search for the last row says.
pub last_said : (vs : List Cctv) → Ret → (rows : List Cctv) → Ret
last_said vs r [] = r
last_said vs r (c ∷ cs) =
    last_said vs (elim (first? (has_id c.id) vs) [ none ↦ object_not_found | some v ↦ ok ]) cs

-- A run that leaves the cameras and makes these calls.
pub record Sends (s : Core) (run : Run Core) (vs : List Cctv) (calls : List Call) : Type 0 where
  pub after : Core
  pub runs : run ≡ done after
  pub holds : Holds after.cctvs vs
  pub called : after.calls ≡ s.calls ++ calls
  pub watched : after.watched ≡ s.watched
  pub answer : after.answer ≡ s.answer

is_stored-first? :
    (id : Text) (rows : List Cctv)
    → is_stored id rows ≡ elim (first? (λ c. same id c.id) rows) [ none ↦ false | some c ↦ true ]
unfolding is_stored
is_stored-first? id [] = refl
is_stored-first? id (c ∷ cs) = elim (Bool-cases (same id c.id)) [
  | inl hit ↦ rw hit refl
  | inr miss ↦ rw miss (is_stored-first? id cs)
]

camera_checked_lem :
    (rows : List Cctv) (v : Cctv) (s : Core)
    → camera_checked rows v s ≡ record s { calls = s.calls ++ departed rows v }
unfolding camera_checked departed ask
camera_checked_lem rows v s = elim (Option-cases (first? (λ c. same v.id c.id) rows)) [
  | inl none_there ↦
      let sent : departed rows v ≡ push_removed (take id_len v.id) ∷ [] =
        rw (none_there, departed) refl in
      rw sent (rw (is_stored-first? v.id rows) (rw none_there refl))
  | inr (c, there) ↦
      let sent : departed rows v ≡ [] = rw (there, departed) refl in
      rw sent (rw (is_stored-first? v.id rows) (rw there (rw append-nil refl)))
]

check_cameras-Sends :
    (n : ℕ) (rows us ws : List Cctv) (s : Core)
    → Iterating s.cctvs us ws
    → length ws < n
    → Sends s (check_cameras n rows s) (us ++ ws) (gone rows ws)
unfolding check_cameras next_checked camera_seen gone
check_cameras-Sends zero rows us ws s h enough = elim enough [ ]
check_cameras-Sends (suc n) rows us [] s h enough =
    let (t, run, k) = next_end s.cctvs us h in
    record {
      after = record s { cctvs = t };
      runs = rw run refl;
      holds = rw append-nil k;
      called = rw append-nil refl;
      watched = refl;
      answer = refl;
    }
check_cameras-Sends (suc n) rows us (v ∷ ws) s h enough =
    let (t, p, run, reads, k) = next-Iterating s.cctvs us v ws h in
    let s1 : Core = record s { cctvs = t } in
    let s2 : Core = record s1 { calls = s.calls ++ departed rows v } in
    let more = check_cameras-Sends n rows (us ++ v ∷ []) ws s2 k (omega (arith, enough)) in
    record {
      after = more.after;
      runs = rw run (rw reads (rw (camera_checked_lem rows v s1) more.runs));
      holds = rw append_assoc at more.holds;
      called = more.called ∙ append_assoc s.calls (departed rows v) (gone rows ws);
      watched = more.watched;
      answer = more.answer;
    }

-- A run that also returns.
pub record Says (s : Core) (run : Run (Ret × Core)) (r : Ret) (vs : List Cctv) (calls : List Call)
    : Type 0 where
  pub after : Core
  pub runs : run ≡ done (r, after)
  pub holds : Holds after.cctvs vs
  pub called : after.calls ≡ s.calls ++ calls
  pub watched : after.watched ≡ s.watched
  pub answer : after.answer ≡ s.answer

check_rows-Says :
    (rows vs : List Cctv) (r : Ret) (s : Core)
    → Holds s.cctvs vs
    → Says s (check_rows rows r s) (last_said vs r rows) vs (come vs rows)
unfolding check_rows get_cctv row_checked ask come arrived last_said
check_rows-Says [] vs r s h = record {
  after = s;
  runs = refl;
  holds = h;
  called = rw append-nil refl;
  watched = refl;
  answer = refl;
}
check_rows-Says (c ∷ cs) vs r s h = elim (Option-cases (first? (has_id c.id) vs)) [
  | inl new ↦
      let came : arrived vs c ≡ push_found c ∷ [] = rw (new, arrived) refl in
      let f = find-NotFound (has_id c.id) s.cctvs vs h new in
      let s1 : Core = record s { cctvs = f.after; calls = s.calls ++ push_found c ∷ [] } in
      let more = check_rows-Says cs vs object_not_found s1 f.holds in
      record {
        after = more.after;
        runs = rw f.runs (rw new more.runs);
        holds = more.holds;
        called =
            more.called
            ∙ append_assoc s.calls (push_found c ∷ []) (come vs cs)
            ∙ ap (λ x. s.calls ++ (x ++ come vs cs)) (sym came);
        watched = more.watched;
        answer = more.answer;
      }
  | inr (v, there) ↦
      let came : arrived vs c ≡ [] = rw (there, arrived) refl in
      let f = find-FoundAt (has_id c.id) s.cctvs vs v h there in
      let s1 : Core = record s { cctvs = f.after } in
      let held =
        subst (Holds f.after) (sym f.whole) (HoldsAt-Holds f.after f.us f.at v f.ws f.holds) in
      let more = check_rows-Says cs vs ok s1 held in
      record {
        after = more.after;
        runs = rw f.runs (rw there more.runs);
        holds = more.holds;
        called = more.called ∙ ap (λ x. s.calls ++ (x ++ come vs cs)) (sym came);
        watched = more.watched;
        answer = more.answer;
      }
]

-- If the database counts one camera or more and lists its rows, and there is memory for the
-- array, onCheckNewCCTV comes to an end and returns what the search for the last row says, OK
-- without rows; it asks the database twice, sends a removal for each camera whose id no row
-- has, in the order of the list, and then a find for each row whose id no camera has, in the
-- order of the rows, and leaves the cameras and the watched ids as they are, whatever the
-- sending answers.
pub on_check_new_cctv-pushes :
    (s : Core) (d : Stored) (a : ℕ) (vs : List Cctv)
    → Holds s.cctvs vs
    → d.count ≢ 0
    → d.array ≡ some a
    → let asked = s.calls ++ db_get_cctv_count ∷ [] in
      let listed = asked ++ db_get_cctv_list d.count ∷ [] in
      s.answer asked ≡ ok
      → s.answer listed ≡ ok
      → Says s
          (on_check_new_cctv d s)
          (last_said vs ok d.rows)
          vs
          (db_get_cctv_count ∷ db_get_cctv_list d.count ∷ gone d.rows vs ++ come vs d.rows)
unfolding on_check_new_cctv cctvs_counted cctvs_listed ask
on_check_new_cctv-pushes s d a vs h some_there array counts lists =
    let asked = s.calls ++ db_get_cctv_count ∷ [] in
    let listed = asked ++ db_get_cctv_list d.count ∷ [] in
    let (t, starts, k) = start-Iterating s.cctvs vs h in
    let enough : length vs < t.list.count + 1 =
      omega (arith, (count-Holds t vs (Iterating-Holds t [] vs k)).0) in
    let first =
      check_cameras-Sends (t.list.count + 1) d.rows [] vs (record s { cctvs = t; calls = listed }) k
        enough in
    let second = check_rows-Says d.rows vs ok first.after first.holds in
    let counted : (d.count == 0) ≡ false = ground (arith, some_there) in
    record {
      after = second.after;
      runs = rw counts (rw counted (rw array (rw lists (rw starts (rw first.runs second.runs)))));
      holds = second.holds;
      called = second.called ∙ ap (λ x. x ++ come vs d.rows) first.called ∙ simp append_assoc;
      watched = second.watched ∙ first.watched;
      answer = second.answer ∙ first.answer;
    }
