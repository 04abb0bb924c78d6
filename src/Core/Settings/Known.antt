-- ===== src/Core/Settings/Known.antt =====
-- The handlers of lib/ftm_catchb.c that set the fingerprint and the properties of a camera.
use catchb.Base.{ℕ, ◌+◌, ◌^◌, ◌<◌, ◌≡◌, ◌≢◌, refl, some, List, [], ◌∷◌, ◌++◌, length, Text}
use catchb.Run.{done}
use catchb.Ret.{Ret, ok}
use catchb.Table.Split.{first?, set_first}
use catchb.Table.Holds.{Holds, HoldsAt-Holds}
use catchb.Table.Change.{MayAllocate}
use catchb.Table.Search.{find-FoundAt}
use catchb.Analyzer.Watch.Lists.{is_watched, with_id, attach-Leaves}
use catchb.Cctv.{Cctv}
use catchb.Core.{Core, Memory, db_update_hash, db_set_properties, has_id, ask, get_cctv, watch}
use catchb.Core.Attach.{change-HoldsAt}
use catchb.Core.Create.{Handled, all_memory}
use catchb.Core.Settings.{
  with_hash, hash_stored, hash_found, on_set_cctv_hash, register_found, on_cctv_register,
  with_properties, properties_found, on_set_cctv_properties,
}

module _ (s : Core) (id : Text) (vs : List Cctv) (v : Cctv) (ids : List Text) (h : Holds s.cctvs vs)
    (first : first? (has_id id) vs ≡ some v) (k : Holds s.watched ids) where
  -- The fingerprint is kept, whatever the database answers, which is the result.
  pub on_cctv_register-Handled :
      (hash : Text)
      → let calls = s.calls ++ db_update_hash id hash ∷ [] in
        Handled s
          (on_cctv_register s id hash)
          (s.answer calls)
          (set_first (has_id id) (with_hash hash v) vs)
          ids
          calls
  unfolding on_cctv_register register_found get_cctv ask
  on_cctv_register-Handled hash =
      let f = find-FoundAt (has_id id) s.cctvs vs v h first in
      let (t, changed, at) =
        change-HoldsAt (record s { cctvs = f.after }) f.at (with_hash hash) f.us v f.ws f.holds in
      record {
        after = record s { cctvs = t; calls = s.calls ++ db_update_hash id hash ∷ [] };
        runs = rw f.runs (rw changed refl);
        cameras =
            rw (f.sets (with_hash hash v)) (HoldsAt-Holds t f.us f.at (with_hash hash v) f.ws at);
        watches = k;
        called = refl;
        answers = refl;
      }

  -- The fields of the flags are set, whatever the database answers, which is the result.
  pub on_set_cctv_properties-Handled :
      (from : Cctv) (flags : ℕ)
      → let calls = s.calls ++ db_set_properties id from flags ∷ [] in
        Handled s
          (on_set_cctv_properties s id from flags)
          (s.answer calls)
          (set_first (has_id id) (with_properties flags from v) vs)
          ids
          calls
  unfolding on_set_cctv_properties properties_found get_cctv ask
  on_set_cctv_properties-Handled from flags =
      let f = find-FoundAt (has_id id) s.cctvs vs v h first in
      let (t, changed, at) =
        change-HoldsAt (record s { cctvs = f.after }) f.at (with_properties flags from) f.us v f.ws
          f.holds in
      record {
        after = record s { cctvs = t; calls = s.calls ++ db_set_properties id from flags ∷ [] };
        runs = rw f.runs (rw changed refl);
        cameras =
            rw (f.sets (with_properties flags from v))
              (HoldsAt-Holds t f.us f.at (with_properties flags from v) f.ws at);
        watches = k;
        called = refl;
        answers = refl;
      }

  -- Once the database has the fingerprint, the camera is attached.
  pub on_set_cctv_hash-Handled :
      (hash : Text) (p e q f : ℕ)
      → MayAllocate s.watched q f
      → length ids + 1 < 2 ^ 32
      → s.answer (s.calls ++ db_update_hash id hash ∷ []) ≡ ok
      → Handled s
          (on_set_cctv_hash (all_memory p e q f) s id hash)
          ok
          (set_first (has_id id) (with_hash hash v) vs)
          (with_id (first? (is_watched v.id) ids) v.id ids)
          (s.calls ++ db_update_hash id hash ∷ [])
  unfolding on_set_cctv_hash hash_found hash_stored get_cctv watch ask
  on_set_cctv_hash-Handled hash p e q f m few stored =
      let found = find-FoundAt (has_id id) s.cctvs vs v h first in
      let (t, changed, at) =
        change-HoldsAt (record s { cctvs = found.after }) found.at (with_hash hash) found.us v
          found.ws found.holds in
      let a = attach-Leaves s.watched ids v.id k q f m few in
      record {
        after = record s {
          cctvs = t;
          watched = a.after;
          calls = s.calls ++ db_update_hash id hash ∷ [];
        };
        runs = rw found.runs (rw changed (rw stored (rw a.runs refl)));
        cameras =
            rw (found.sets (with_hash hash v))
              (HoldsAt-Holds t found.us found.at (with_hash hash v) found.ws at);
        watches = a.holds;
        called = refl;
        answers = refl;
      }

  stored_refused :
      (m : Memory) (id' : Text) (r : Ret) (t : Core)
      → r ≢ ok
      → hash_stored m id' (r, t) ≡ done (r, t)
  unfolding hash_stored
  stored_refused m id' ok t bad = absurd (bad refl)
  stored_refused m id' r t bad = refl

  -- The fingerprint stays when the database refuses it, and nothing is attached.
  pub on_set_cctv_hash-refused :
      (m : Memory) (hash : Text)
      → let calls = s.calls ++ db_update_hash id hash ∷ [] in
        s.answer calls ≢ ok
        → Handled s
            (on_set_cctv_hash m s id hash)
            (s.answer calls)
            (set_first (has_id id) (with_hash hash v) vs)
            ids
            calls
  unfolding on_set_cctv_hash hash_found get_cctv ask
  on_set_cctv_hash-refused m hash bad =
      let calls = s.calls ++ db_update_hash id hash ∷ [] in
      let f = find-FoundAt (has_id id) s.cctvs vs v h first in
      let (t, changed, at) =
        change-HoldsAt (record s { cctvs = f.after }) f.at (with_hash hash) f.us v f.ws f.holds in
      record {
        after = record s { cctvs = t; calls = calls };
        runs = rw f.runs (
            rw changed
              (stored_refused m v.id (s.answer calls) (record s { cctvs = t; calls = calls }) bad));
        cameras =
            rw (f.sets (with_hash hash v)) (HoldsAt-Holds t f.us f.at (with_hash hash v) f.ws at);
        watches = k;
        called = refl;
        answers = refl;
      }
