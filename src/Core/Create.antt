-- ===== src/Core/Create.antt =====
-- `FTM_CATCHB_onCreateCCTV` of lib/ftm_catchb.c on each of its branches.
use mathlib.Core.Path.{subst}
use mathlib.Core.List.{append-nil}
use catchb.Base.{
  ℕ, zero, suc, ap, ◌==◌, ◌%◌, if◌then◌else◌, ◌+◌, ◌^◌, ◌<◌, ◌≡◌, ◌≢◌, refl, false, none, some,
  List, [], ◌∷◌, ◌++◌, arith, length, Text,
}
use catchb.Run.{Run, done}
use catchb.Ret.{Ret, ok, object_not_found, object_already_exist}
use catchb.FtmList.Shows.{Shows}
use catchb.FtmList.{update}
use catchb.Table.{release}
use catchb.Table.Split.{first?}
use catchb.Table.Holds.{Holds, HoldsAt-Holds}
use catchb.Table.Change.{
  SameMemory-MayAllocate, MayAllocate, add-HoldsAt, TakesOff, take_off-TakesOff,
}
use catchb.Table.Search.{find-FoundAt, find-NotFound}
use catchb.Analyzer.Watch.Lists.{is_watched, with_id, attach-Leaves, attach_null}
use catchb.Cctv
use catchb.Cctv.{Cctv}
use catchb.Core.{
  Core, Memory, Call, db_add_cctv, has_id, ask, dated, on_create_cctv, get_cctv, create_found,
  create_made, create_listed, create_stored, create_watched, watch, destroy_cctv,
}

-- `malloc` gives each block that is asked for.
abbrev pub all_memory : (p e q f : ℕ) → Memory
all_memory p e q f = record {
  cctv = some p;
  lock_fails = false;
  entry = some e;
  id = some q;
  id_entry = some f;
}

-- The camera that is made: a time of 0 is that of the clock, any other stays.
abbrev pub time_made : (now : ℕ) → ℕ → ℕ
time_made now zero = now % 2 ^ 32
time_made now (suc n) = suc n

abbrev pub created : (now : ℕ) → Cctv → Cctv
created now c = record c { time = time_made now c.time }

time_made_lem : (now n : ℕ) → (if n == 0 then now % 2 ^ 32 else n) ≡ time_made now n
time_made_lem now zero = refl
time_made_lem now (suc n) = ground arith

dated-created : (now : ℕ) (c : Cctv) → dated now c ≡ created now c
dated-created now c = ap (λ n. record c { time = n }) (time_made_lem now c.time)

-- What a handler returns and leaves: the cameras, the watched ids and the calls.
pub record Handled (s : Core) (run : Run (Ret × Core)) (r : Ret) (cctvs : List Cctv)
    (ids : List Text) (calls : List Call) : Type 0 where
  pub after : Core
  pub runs : run ≡ done (r, after)
  pub cameras : Holds after.cctvs cctvs
  pub watches : Holds after.watched ids
  pub called : after.calls ≡ calls
  pub answers : after.answer ≡ s.answer

stored_refused :
    (m : Memory) (c : Cctv) (s : Core) {p : ℕ} {vs : List Cctv} (off : TakesOff s.cctvs p vs)
    (r : Ret)
    → r ≢ ok
    → create_stored m c p (r, s) ≡ done (r, record s { cctvs = off.freed })
unfolding create_stored destroy_cctv Cctv.destroy
stored_refused m c s off ok bad = absurd (bad refl)
stored_refused m c s off r bad = rw off.takes (rw off.frees)

module _ (s : Core) (c : Cctv) (now : ℕ) (vs : List Cctv) (ids : List Text) (h : Holds s.cctvs vs)
    (k : Holds s.watched ids) where
  pub create_existing :
      (m : Memory) (v : Cctv)
      → first? (has_id c.id) vs ≡ some v
      → Handled s (on_create_cctv m now s c) object_already_exist vs ids s.calls
  unfolding on_create_cctv get_cctv create_found
  create_existing m v first =
      let f = find-FoundAt (has_id c.id) s.cctvs vs v h first in
      record {
        after = record s { cctvs = f.after };
        runs = rw f.runs;
        cameras = rw f.whole (HoldsAt-Holds f.after f.us f.at v f.ws f.holds);
        watches = k;
        called = refl;
        answers = refl;
      }

  module _ (p e : ℕ) (m : MayAllocate s.cctvs p e) (small : length vs + 1 < 2 ^ 32)
      (new : first? (has_id c.id) vs ≡ none) where
    pub create_runs :
        (q f : ℕ)
        → MayAllocate s.watched q f
        → length ids + 1 < 2 ^ 32
        → s.answer (s.calls ++ db_add_cctv (dated now c) ∷ []) ≡ ok
        → Handled s
            (on_create_cctv (all_memory p e q f) now s c)
            ok
            (vs ++ dated now c ∷ [])
            (with_id (first? (is_watched c.id) ids) c.id ids)
            (s.calls ++ db_add_cctv (dated now c) ∷ [])
    unfolding on_create_cctv get_cctv create_found create_made create_listed create_stored
        create_watched watch ask Cctv.create
    create_runs q f mq few stored =
        let n = find-NotFound (has_id c.id) s.cctvs vs h new in
        let (t, added, at, _) =
          add-HoldsAt n.after p e (dated now c) vs n.holds
            (SameMemory-MayAllocate s.cctvs n.after p e n.same m) small in
        let a = attach-Leaves s.watched ids c.id k q f mq few in
        record {
          after = record s {
            cctvs = t;
            watched = a.after;
            calls = s.calls ++ db_add_cctv (dated now c) ∷ [];
          };
          runs = rw n.runs (rw added (rw stored (rw a.runs)));
          cameras = HoldsAt-Holds t vs p (dated now c) [] at;
          watches = a.holds;
          called = refl;
          answers = refl;
        }

    -- If no camera has the id, memory is there, the counts have room and the database says OK,
    -- onCreateCCTV returns OK, puts the camera at the end of the list, dated by the clock if
    -- its time is 0, attaches its id to the analyzer unless an id is there that differs in case
    -- at most, and calls the database once.
    pub create_new :
        (q f : ℕ)
        → MayAllocate s.watched q f
        → length ids + 1 < 2 ^ 32
        → s.answer (s.calls ++ db_add_cctv (created now c) ∷ []) ≡ ok
        → Handled s
            (on_create_cctv (all_memory p e q f) now s c)
            ok
            (vs ++ created now c ∷ [])
            (with_id (first? (is_watched c.id) ids) c.id ids)
            (s.calls ++ db_add_cctv (created now c) ∷ [])
    create_new q f mq few =
        subst
          (λ v.
            s.answer (s.calls ++ db_add_cctv v ∷ []) ≡ ok
            → Handled s (on_create_cctv (all_memory p e q f) now s c) ok (vs ++ v ∷ [])
                (with_id (first? (is_watched c.id) ids) c.id ids) (s.calls ++ db_add_cctv v ∷ []))
          (dated-created now c) (create_runs q f mq few)

    -- If no camera has the id, the camera with its lock and its entry could be made, the count
    -- has room and the database answers with an error, onCreateCCTV returns this error and
    -- leaves the cameras and the watched ids as they were; the camera is taken off the list and
    -- freed.
    pub create_refused :
        (m' : Memory) (r : Ret)
        → m'.cctv ≡ some p
        → m'.lock_fails ≡ false
        → m'.entry ≡ some e
        → s.answer (s.calls ++ db_add_cctv (dated now c) ∷ []) ≡ r
        → r ≢ ok
        → Handled s (on_create_cctv m' now s c) r vs ids (s.calls ++ db_add_cctv (dated now c) ∷ [])
    unfolding on_create_cctv get_cctv create_found create_made create_listed ask Cctv.create
    create_refused m' r block lock entry refused bad =
        let n = find-NotFound (has_id c.id) s.cctvs vs h new in
        let (t, added, at, _) =
          add-HoldsAt n.after p e (dated now c) vs n.holds
            (SameMemory-MayAllocate s.cctvs n.after p e n.same m) small in
        let off = take_off-TakesOff t vs p (dated now c) [] at in
        let s2 : Core = record s { cctvs = t; calls = s.calls ++ db_add_cctv (dated now c) ∷ [] } in
        record {
          after = record s2 { cctvs = off.freed };
          runs = rw n.runs (
              rw (block, lock, entry)
                (rw added (rw refused (stored_refused m' (dated now c) s2 off r bad))));
          cameras = rw append-nil at off.holds;
          watches = k;
          called = refl;
          answers = refl;
        }

    -- If no camera has the id and no watched id differs from it in case at most, the camera
    -- with its lock and its entry could be made, the count has room and the database says OK,
    -- but the copy of the id gets no memory, onCreateCCTV returns OBJECT_NOT_FOUND and frees
    -- the camera, while the list still shows its block.
    pub create_dangles :
        (m' : Memory)
        → m'.cctv ≡ some p
        → m'.lock_fails ≡ false
        → m'.entry ≡ some e
        → m'.id ≡ none
        → first? (is_watched c.id) ids ≡ none
        → s.answer (s.calls ++ db_add_cctv (dated now c) ∷ []) ≡ ok
        → (s' : Core) × (on_create_cctv m' now s c ≡ done (object_not_found, s'))
          × (before : List ℕ) × (after : List ℕ) × Shows s'.cctvs.list (before ++ p ∷ after)
          × (s'.cctvs.live p ≡ false)
    unfolding on_create_cctv get_cctv create_found create_made create_listed create_stored
        create_watched watch destroy_cctv ask Cctv.create Cctv.destroy
    create_dangles m' block lock entry id unwatched stored =
        let n = find-NotFound (has_id c.id) s.cctvs vs h new in
        let (t, added, at, live) =
          add-HoldsAt n.after p e (dated now c) vs n.holds
            (SameMemory-MayAllocate s.cctvs n.after p e n.same m) small in
        let a = attach_null s.watched ids c.id k m'.id_entry unwatched in
        (
          record s {
            cctvs = record t { live = update t.live p false };
            watched = a.after;
            calls = s.calls ++ db_add_cctv (dated now c) ∷ [];
          },
          rw n.runs (
              rw (block, lock, entry)
                (rw added (rw stored (rw id (rw a.runs (rw (live, release))))))),
          at.earlier,
          at.later,
          at.shows,
          ground arith,
        )
