-- ===== src/Core/Delete.antt =====
-- `FTM_CATCHB_onDeleteCCTV` and `FTM_CATCHB_onRemovedCCTVInDB` of lib/ftm_catchb.c.
use mathlib.Core.List.{append_assoc}
use catchb.Base.{
  ℕ, ◌+◌, ◌^◌, ◌<◌, ◌≤◌, ◌≡◌, refl, ◌∙◌, none, some, List, [], ◌∷◌, ◌++◌, length, Text, same_refl,
  same_case_refl, take_of_length-le,
}
use catchb.Run.{◌>>=◌}
use catchb.Ret.{ok, object_not_found}
use catchb.Table.Split.{first?-last, first?, drop_first, drop_first-last}
use catchb.Table.Holds.{Holds}
use catchb.Table.Change.{MayAllocate, take_off-TakesOff}
use catchb.Table.Search.{find-FoundAt, find-NotFound}
use catchb.Analyzer.Watch.{id_len}
use catchb.Analyzer.Watch.Lists.{is_watched, detach-Leaves}
use catchb.Cctv
use catchb.Cctv.{Cctv}
use catchb.Core.{
  Core, db_add_cctv, db_delete_cctv, has_id, ask, dated, on_create_cctv, on_delete_cctv, get_cctv,
  delete_found, delete_listed, unwatch, destroy_cctv,
}
use catchb.Core.Create.{Handled, all_memory, create_runs}

module _ (s : Core) (id : Text) (vs : List Cctv) (ids : List Text) (h : Holds s.cctvs vs)
    (k : Holds s.watched ids) where
  -- For a camera in the list onDeleteCCTV returns OK, whatever the database answers, takes the
  -- first camera with the id off the list and frees it, detaches the first watched id that
  -- differs in case at most, and calls the database once.
  pub delete_known :
      (v : Cctv)
      → first? (has_id id) vs ≡ some v
      → Handled s
          (on_delete_cctv s id)
          ok
          (drop_first (has_id id) vs)
          (drop_first (is_watched id) ids)
          (s.calls ++ db_delete_cctv id ∷ [])
  unfolding on_delete_cctv get_cctv delete_found delete_listed unwatch destroy_cctv ask Cctv.destroy
  delete_known v first =
      let f = find-FoundAt (has_id id) s.cctvs vs v h first in
      let off = take_off-TakesOff f.after f.us f.at v f.ws f.holds in
      let (r, d) = detach-Leaves s.watched ids id k in
      record {
        after = record s {
          cctvs = off.freed;
          watched = d.after;
          calls = s.calls ++ db_delete_cctv id ∷ [];
        };
        runs = rw f.runs (rw d.runs (rw off.takes (rw off.frees)));
        cameras = rw f.drops off.holds;
        watches = d.holds;
        called = refl;
        answers = refl;
      }

  pub delete_unknown :
      first? (has_id id) vs ≡ none → Handled s (on_delete_cctv s id) object_not_found vs ids s.calls
  unfolding on_delete_cctv get_cctv delete_found
  delete_unknown first =
      let f = find-NotFound (has_id id) s.cctvs vs h first in
      record {
        after = record s { cctvs = f.after };
        runs = rw f.runs;
        cameras = f.holds;
        watches = k;
        called = refl;
        answers = refl;
      }

-- If neither a camera nor the analyzer has the id, of at most 64 characters, memory is there,
-- the counts have room and the database takes the camera, deleting the camera that onCreateCCTV
-- has made returns OK and leaves the cameras and the watched ids that were there before, after
-- one call of the database each.
pub delete-create :
    (s : Core) (c : Cctv) (now p e q f : ℕ) (vs : List Cctv) (ids : List Text)
    → Holds s.cctvs vs
    → Holds s.watched ids
    → MayAllocate s.cctvs p e
    → MayAllocate s.watched q f
    → length vs + 1 < 2 ^ 32
    → length ids + 1 < 2 ^ 32
    → length c.id ≤ id_len
    → first? (has_id c.id) vs ≡ none
    → first? (is_watched c.id) ids ≡ none
    → s.answer (s.calls ++ db_add_cctv (dated now c) ∷ []) ≡ ok
    → Handled s
        (on_create_cctv (all_memory p e q f) now s c >>= λ r. on_delete_cctv (r.1) c.id)
        ok
        vs
        ids
        (s.calls ++ db_add_cctv (dated now c) ∷ db_delete_cctv c.id ∷ [])
delete-create s c now p e q f vs ids h k m mq small few short new unwatched stored =
    let made = create_runs s c now vs ids h k p e m small new q f mq few stored in
    let watches : Holds made.after.watched (ids ++ c.id ∷ []) =
      rw (unwatched, take_of_length-le id_len c.id short) at made.watches in
    let deleted =
      delete_known made.after c.id (vs ++ dated now c ∷ []) (ids ++ c.id ∷ []) made.cameras watches
        (dated now c) (first?-last (has_id c.id) vs (dated now c) new (same_refl c.id)) in
    record {
      after = deleted.after;
      runs = rw made.runs deleted.runs;
      cameras =
          rw (drop_first-last (has_id c.id) vs (dated now c) new (same_refl c.id)) at
            deleted.cameras;
      watches =
          rw (drop_first-last (is_watched c.id) ids c.id unwatched (same_case_refl c.id)) at
            deleted.watches;
      called = deleted.called ∙ rw made.called (append_assoc s.calls _ _);
      answers = deleted.answers ∙ made.answers;
    }
