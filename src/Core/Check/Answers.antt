-- ===== src/Core/Check/Answers.antt =====
-- `FTM_CATCHB_onCheckNewCCTV` of lib/ftm_catchb.c on each of its branches.
use mathlib.Core.List.{append_assoc}
use catchb.Base.{
  ℕ, ◌≡◌, ◌≢◌, refl, ap, ◌∙◌, true, false, none, some, List, [], ◌∷◌, ◌++◌, arith, inl, inr,
  Bool-cases, Option-cases, ◌==◌,
}
use catchb.Run.{Run, done}
use catchb.Ret.{Ret, ok, ok_or}
use catchb.Table.Holds.{Holds}
use catchb.Cctv.{Cctv}
use catchb.Core.{Core, Call, db_get_cctv_count, db_get_cctv_list, ask}
use catchb.Core.Check.{Stored, cctvs_listed, cctvs_counted, on_check_new_cctv}
use catchb.Core.Check.Pushes.{Says, last_said, gone, come, on_check_new_cctv-pushes}

count_refused : (d : Stored) (r : Ret) (s : Core) → r ≢ ok → cctvs_counted d (r, s) ≡ done (r, s)
unfolding cctvs_counted
count_refused d ok s bad = absurd (bad refl)
count_refused d r s bad = refl

list_refused : (d : Stored) (r : Ret) (s : Core) → r ≢ ok → cctvs_listed d (r, s) ≡ done (r, s)
unfolding cctvs_listed
list_refused d ok s bad = absurd (bad refl)
list_refused d r s bad = refl

counted_empty :
    (d : Stored) (s : Core) → (d.count == 0) ≡ true → cctvs_counted d (ok, s) ≡ done (ok, s)
unfolding cctvs_counted
counted_empty d s empty = rw empty refl

counted_null :
    (d : Stored) (s : Core)
    → (d.count == 0) ≡ false
    → d.array ≡ none
    → cctvs_counted d (ok, s) ≡ done (ok, s)
unfolding cctvs_counted
counted_null d s some_there null = rw some_there (rw null refl)

counted_some :
    (d : Stored) (s : Core) (a : ℕ)
    → (d.count == 0) ≡ false
    → d.array ≡ some a
    → cctvs_counted d (ok, s) ≡ cctvs_listed d (ask (db_get_cctv_list d.count) s)
unfolding cctvs_counted
counted_some d s a some_there array = rw some_there (rw array refl)

-- A check that ends before the loops.
ends :
    (s : Core) (run : Run (Ret × Core)) (vs : List Cctv) (calls : List Call) (r : Ret)
    → Holds s.cctvs vs
    → run ≡ done (r, record s { calls = s.calls ++ calls })
    → Says s run r vs calls
ends s run vs calls r h runs = record {
  after = record s { calls = s.calls ++ calls };
  runs = runs;
  holds = h;
  called = refl;
  watched = refl;
  answer = refl;
}

-- Whatever the database says, the lists stay.
pub on_check_new_cctv-Says :
    (s : Core) (d : Stored) (vs : List Cctv)
    → Holds s.cctvs vs
    → (r : Ret) × (calls : List Call) × Says s (on_check_new_cctv d s) r vs calls
unfolding on_check_new_cctv ask
on_check_new_cctv-Says s d vs h =
    let asked = s.calls ++ db_get_cctv_count ∷ [] in
    let s1 : Core = record s { calls = asked } in
    elim (ok_or (s.answer asked)) [
      | inr bad ↦ (
        s.answer asked,
        db_get_cctv_count ∷ [],
        ends s (on_check_new_cctv d s) vs (db_get_cctv_count ∷ []) (s.answer asked) h
            (count_refused d (s.answer asked) s1 bad),
      )
      | inl counts ↦ elim (Bool-cases (d.count == 0)) [
        | inl empty ↦ (
          ok,
          db_get_cctv_count ∷ [],
          ends s (on_check_new_cctv d s) vs (db_get_cctv_count ∷ []) ok h
              (rw counts (counted_empty d s1 empty)),
        )
        | inr some_there ↦ elim (Option-cases d.array) [
          | inl no_array ↦ (
            ok,
            db_get_cctv_count ∷ [],
            ends s (on_check_new_cctv d s) vs (db_get_cctv_count ∷ []) ok h
                (rw counts (counted_null d s1 some_there no_array)),
          )
          | inr (a, array) ↦
              let listed = asked ++ db_get_cctv_list d.count ∷ [] in
              elim (ok_or (s.answer listed)) [
                | inr bad ↦ (
                  s.answer listed,
                  db_get_cctv_count ∷ db_get_cctv_list d.count ∷ [],
                  ends s (on_check_new_cctv d s) vs
                      (db_get_cctv_count ∷ db_get_cctv_list d.count ∷ []) (s.answer listed) h
                      (rw counts (
                        counted_some d s1 a some_there array
                        ∙ list_refused d (s.answer listed) (record s { calls = listed }) bad
                        ∙ ap (λ x. done (s.answer listed, record s { calls = x }))
                            (append_assoc s.calls (db_get_cctv_count ∷ [])
                              (db_get_cctv_list d.count ∷ [])))),
                )
                | inl lists ↦ (
                  last_said vs ok d.rows,
                  db_get_cctv_count ∷ db_get_cctv_list d.count ∷ gone d.rows vs ++ come vs d.rows,
                  on_check_new_cctv-pushes s d a vs h (ground (arith, some_there)) array counts
                      lists,
                )
              ]
        ]
      ]
    ]
