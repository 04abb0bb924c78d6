-- ===== src/Core/Messages/Whole.antt =====
-- What every message of a camera keeps in lib/ftm_catchb.c: the lists are whole.
use catchb.Base.{ℕ, ◌+◌, ◌^◌, ◌<◌, ◌≡◌, refl, [], ◌∷◌, ◌++◌, true, arith, length, Text, inl, inr}
use catchb.Run.{done}
use catchb.Ret.{ok, ok_or}
use catchb.Table.{load, store}
use catchb.Table.Split.{first?, drop_first, set_first}
use catchb.Table.Holds.{HoldsAt-Holds}
use catchb.Table.Change.{MayAllocate, take_off-TakesOff, add-HoldsAt, unused-Holds, load-at}
use catchb.Table.Search.{find-FoundAt}
use catchb.Analyzer.Watch.Lists.{is_watched, with_id, attach-Leaves, detach-Leaves}
use catchb.Cctv
use catchb.Cctv.{Cctv, CctvStat}
use catchb.FtmList.{update}
use catchb.Core.{
  Core, has_id, get_cctv, dated, db_add_cctv, db_update_hash, on_create_cctv, on_delete_cctv,
  on_found_cctv_in_db, on_removed_cctv_in_db, removed_found, removed_off, found_made, found_listed,
  found_stat, watch, unwatch, destroy_cctv,
}
use catchb.Core.Create.{all_memory, create_existing, create_runs, create_refused}
use catchb.Core.Delete.{delete_known, delete_unknown}
use catchb.Core.Settings.{
  register_found, properties_found, hash_found, on_set_cctv_hash, on_cctv_register,
  on_set_cctv_properties,
}
use catchb.Core.Settings.Known.{
  on_set_cctv_hash-refused, on_cctv_register-Handled, on_set_cctv_properties-Handled,
  on_set_cctv_hash-Handled,
}
use catchb.Core.Check.{Stored, on_check_new_cctv}
use catchb.Core.Check.Answers.{on_check_new_cctv-Says}
use catchb.Core.Status.{stat_found, on_set_cctv_stat}
use catchb.Core.Status.Reports.{with_stat, on_set_cctv_stat-runs}
use catchb.Core.Messages.{
  Message, check_new_cctv, create_cctv, delete_cctv, found_new_cctv_in_db, removed_cctv_in_db,
  cctv_hash_updated, cctv_set_stat, cctv_set_properties, cctv_register, on_message,
}
use catchb.Core.Messages.Kept.{IsWhole, KeepsWhole, Handled-KeepsWhole, unknown-KeepsWhole, known?}

module _ (s : Core) (w : IsWhole s) where
  register-KeepsWhole : (id hash : Text) → KeepsWhole (on_cctv_register s id hash)
  unfolding on_cctv_register register_found
  register-KeepsWhole id hash = elim (known? s id w) [
    | inl nowhere ↦ unknown-KeepsWhole s id w (register_found id hash) (λ t. refl) nowhere
    | inr (v, first) ↦
        Handled-KeepsWhole s (on_cctv_register s id hash)
          (on_cctv_register-Handled s id w.cameras v w.ids w.cameras_held first w.ids_held hash)
  ]

  properties-KeepsWhole :
      (id : Text) (from : Cctv) (flags : ℕ) → KeepsWhole (on_set_cctv_properties s id from flags)
  unfolding on_set_cctv_properties properties_found
  properties-KeepsWhole id from flags = elim (known? s id w) [
    | inl nowhere ↦ unknown-KeepsWhole s id w (properties_found id from flags) (λ t. refl) nowhere
    | inr (v, first) ↦ Handled-KeepsWhole s (on_set_cctv_properties s id from flags) (
        on_set_cctv_properties-Handled s id w.cameras v w.ids w.cameras_held first w.ids_held from
          flags)
  ]

  stat-KeepsWhole :
      (id : Text) (now : CctvStat) (time : ℕ) (hash : Text)
      → KeepsWhole (on_set_cctv_stat s id now time hash)
  unfolding on_set_cctv_stat stat_found
  stat-KeepsWhole id now time hash = elim (known? s id w) [
    | inl nowhere ↦ unknown-KeepsWhole s id w (stat_found now time id hash) (λ t. refl) nowhere
    | inr (v, first) ↦
        let (t, run, k, calls, watched, _) =
          on_set_cctv_stat-runs s id now time hash w.cameras v w.cameras_held first in
        record {
          result = s.answer t.calls;
          after = t;
          runs = run;
          whole = record {
            cameras = set_first (has_id id) (with_stat now v) w.cameras;
            cameras_held = k;
            ids = w.ids;
            ids_held = rw watched w.ids_held;
          };
        }
  ]

  check-KeepsWhole : (d : Stored) → KeepsWhole (on_check_new_cctv d s)
  check-KeepsWhole d =
      let (r, calls, said) = on_check_new_cctv-Says s d w.cameras w.cameras_held in
      record {
        result = r;
        after = said.after;
        runs = said.runs;
        whole = record {
          cameras = w.cameras;
          cameras_held = said.holds;
          ids = w.ids;
          ids_held = rw said.watched w.ids_held;
        };
      }

  delete-KeepsWhole : (id : Text) → KeepsWhole (on_delete_cctv s id)
  delete-KeepsWhole id = elim (known? s id w) [
    | inl nowhere ↦
        Handled-KeepsWhole s (on_delete_cctv s id)
          (delete_unknown s id w.cameras w.ids w.cameras_held w.ids_held nowhere)
    | inr (v, first) ↦
        Handled-KeepsWhole s (on_delete_cctv s id)
          (delete_known s id w.cameras w.ids w.cameras_held w.ids_held v first)
  ]

  removed-KeepsWhole : (id : Text) → KeepsWhole (on_removed_cctv_in_db s id)
  unfolding on_removed_cctv_in_db removed_found removed_off get_cctv unwatch destroy_cctv load
      Cctv.destroy
  removed-KeepsWhole id = elim (known? s id w) [
    | inl nowhere ↦ unknown-KeepsWhole s id w removed_found (λ t. refl) nowhere
    | inr (v, first) ↦
        let f = find-FoundAt (has_id id) s.cctvs w.cameras v w.cameras_held first in
        let off = take_off-TakesOff f.after f.us f.at v f.ws f.holds in
        let reads : load off.taken f.at ≡ done v =
          rw (off.live, off.block) (load-at f.after f.us f.at v f.ws f.holds) in
        let (r, d) = detach-Leaves s.watched w.ids v.id w.ids_held in
        record {
          result = r;
          after = record s { cctvs = off.freed; watched = d.after };
          runs = rw f.runs (rw off.takes (rw reads (rw d.runs (rw off.frees refl))));
          whole = record {
            cameras = f.us ++ f.ws;
            cameras_held = off.holds;
            ids = drop_first (is_watched v.id) w.ids;
            ids_held = d.holds;
          };
        }
  ]

  module _ (now p e q f : ℕ) (m : MayAllocate s.cctvs p e) (n : MayAllocate s.watched q f)
      (room : length w.cameras + 1 < 2 ^ 32) (id_room : length w.ids + 1 < 2 ^ 32) where
    hash-KeepsWhole :
        (id hash : Text) → KeepsWhole (on_set_cctv_hash (all_memory p e q f) s id hash)
    unfolding on_set_cctv_hash hash_found
    hash-KeepsWhole id hash = elim (known? s id w) [
      | inl nowhere ↦
          unknown-KeepsWhole s id w (hash_found (all_memory p e q f) id hash) (λ t. refl) nowhere
      | inr (v, first) ↦ elim (ok_or (s.answer (s.calls ++ db_update_hash id hash ∷ []))) [
        | inl stored ↦ Handled-KeepsWhole s (on_set_cctv_hash (all_memory p e q f) s id hash) (
            on_set_cctv_hash-Handled s id w.cameras v w.ids w.cameras_held first w.ids_held hash p e
              q f n id_room stored)
        | inr bad ↦ Handled-KeepsWhole s (on_set_cctv_hash (all_memory p e q f) s id hash) (
            on_set_cctv_hash-refused s id w.cameras v w.ids w.cameras_held first w.ids_held
              (all_memory p e q f) hash bad)
      ]
    ]

    create-KeepsWhole : (c : Cctv) → KeepsWhole (on_create_cctv (all_memory p e q f) now s c)
    create-KeepsWhole c = elim (known? s c.id w) [
      | inr (v, first) ↦ Handled-KeepsWhole s (on_create_cctv (all_memory p e q f) now s c) (
          create_existing s c now w.cameras w.ids w.cameras_held w.ids_held (all_memory p e q f) v
            first)
      | inl new ↦ elim (ok_or (s.answer (s.calls ++ db_add_cctv (dated now c) ∷ []))) [
        | inl stored ↦ Handled-KeepsWhole s (on_create_cctv (all_memory p e q f) now s c) (
            create_runs s c now w.cameras w.ids w.cameras_held w.ids_held p e m room new q f n
              id_room stored)
        | inr bad ↦ Handled-KeepsWhole s (on_create_cctv (all_memory p e q f) now s c) (
            create_refused s c now w.cameras w.ids w.cameras_held w.ids_held p e m room new
              (all_memory p e q f) (s.answer (s.calls ++ db_add_cctv (dated now c) ∷ [])) refl refl
              refl refl bad)
      ]
    ]

    found-KeepsWhole : (c : Cctv) → KeepsWhole (on_found_cctv_in_db (all_memory p e q f) s c)
    unfolding on_found_cctv_in_db found_made found_listed watch store Cctv.create
    found-KeepsWhole c =
        let clean = record (s.cctvs) { block = update s.cctvs.block p c } in
        let unwritten = unused-Holds s.cctvs p c w.cameras w.cameras_held m.unused_block in
        let (t, added, at, _) =
          add-HoldsAt clean p e (found_stat c) w.cameras unwritten
            (record { unused_block = m.unused_block; entry = m.entry }) room in
        let a = attach-Leaves s.watched w.ids c.id w.ids_held q f n id_room in
        let live : update s.cctvs.live p true p ≡ true = ground arith in
        record {
          result = ok;
          after = record s { cctvs = t; watched = a.after };
          runs = rw live (rw added (rw a.runs refl));
          whole = record {
            cameras = w.cameras ++ found_stat c ∷ [];
            cameras_held = HoldsAt-Holds t w.cameras p (found_stat c) [] at;
            ids = with_id (first? (is_watched c.id) w.ids) c.id w.ids;
            ids_held = a.holds;
          };
        }

    -- If the cameras and the watched ids are lists of live blocks, each once, memory is there
    -- and the counts have room, every message of a camera is handled to its end, without a
    -- fault and without blocking, whatever the database, the notifier and the detector answer,
    -- and the cameras and the watched ids are such lists again.
    pub on_message-KeepsWhole :
        (msg : Message) → KeepsWhole (on_message (all_memory p e q f) now s msg)
    unfolding on_message
    on_message-KeepsWhole (create_cctv c) = create-KeepsWhole c
    on_message-KeepsWhole (delete_cctv id) = delete-KeepsWhole id
    on_message-KeepsWhole (check_new_cctv d) = check-KeepsWhole d
    on_message-KeepsWhole (found_new_cctv_in_db c) = found-KeepsWhole c
    on_message-KeepsWhole (removed_cctv_in_db id) = removed-KeepsWhole id
    on_message-KeepsWhole (cctv_hash_updated id hash) = hash-KeepsWhole id hash
    on_message-KeepsWhole (cctv_set_stat id stat time hash) = stat-KeepsWhole id stat time hash
    on_message-KeepsWhole (cctv_set_properties id from flags) = properties-KeepsWhole id from flags
    on_message-KeepsWhole (cctv_register id hash) = register-KeepsWhole id hash
