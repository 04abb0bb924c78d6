-- ===== src/Core/Settings.antt =====
-- The handlers of lib/ftm_catchb.c that set a camera's fingerprint and its other properties, and what
-- its cameras tell a caller.
pub mod Known
pub mod Lists
use catchb.Base.{
  ℕ, zero, suc, ◌+◌, ◌/◌, ◌%◌, ◌^◌, Bool, true, false, Option, none, some, List, [], ◌∷◌, map, Text,
  take, has_field, ◌==◌, if◌then◌else◌,
}
use catchb.Run.{Run, done, fault, ◌>>=◌}
use catchb.Ret.{Ret, ok}
use catchb.FtmList.Access
use catchb.FtmList.Access.{Found}
use catchb.Table.{Table, load, nth}
use catchb.Cctv.{Cctv}
use catchb.Core.{
  Core, Memory, db_update_hash, db_set_properties, ask, hash_len, get_cctv, watch, change,
}

abbrev pub with_hash : Text → Cctv → Cctv
with_hash hash c = record c { hash = take hash_len hash }

-- `onSetCCTVHash` attaches the camera once the database has the hash.
hash_stored : Memory → (id : Text) → Ret × Core → Run (Ret × Core)
unfolding watch
hash_stored m id (ok, s) = watch m s id
hash_stored m id (r, s) = done (r, s)

unfoldable pub hash_found : Memory → (id hash : Text) → Found × Core → Run (Ret × Core)
unfolding change ask hash_stored
hash_found m id hash ((ok, some p), s) = do
  (c, s') ← change s p (with_hash hash)
  hash_stored m c.id (ask (db_update_hash id hash) s')
hash_found m id hash ((ok, none), s) = fault
hash_found m id hash ((r, p), s) = done (r, s)

unfoldable pub on_set_cctv_hash : Memory → Core → (id hash : Text) → Run (Ret × Core)
unfolding get_cctv hash_found
on_set_cctv_hash m s id hash = do f ← get_cctv s id; hash_found m id hash f

unfoldable pub register_found : (id hash : Text) → Found × Core → Run (Ret × Core)
unfolding change ask
register_found id hash ((ok, some p), s) = do
  (_, s') ← change s p (with_hash hash)
  done (ask (db_update_hash id hash) s')
register_found id hash ((ok, none), s) = fault
register_found id hash ((r, p), s) = done (r, s)

unfoldable pub on_cctv_register : Core → (id hash : Text) → Run (Ret × Core)
unfolding get_cctv register_found
on_cctv_register s id hash = do f ← get_cctv s id; register_found id hash f

abbrev pub with_properties : (flags : ℕ) → (from : Cctv) → Cctv → Cctv
with_properties flags from c = record c {
  ip = if has_field flags 1 then from.ip else c.ip;
  switch_id = if has_field flags 2 then from.switch_id else c.switch_id;
  comment = if has_field flags 3 then from.comment else c.comment;
  hash = if has_field flags 5 then from.hash else c.hash;
  stat = if has_field flags 6 then from.stat else c.stat;
}

unfoldable pub properties_found :
    (id : Text) → (from : Cctv) → (flags : ℕ) → Found × Core → Run (Ret × Core)
unfolding change ask
properties_found id from flags ((ok, some p), s) = do
  (_, s') ← change s p (with_properties flags from)
  done (ask (db_set_properties id from flags) s')
properties_found id from flags ((ok, none), s) = fault
properties_found id from flags ((r, p), s) = done (r, s)

unfoldable pub on_set_cctv_properties :
    Core → (id : Text) → (from : Cctv) → (flags : ℕ) → Run (Ret × Core)
unfolding get_cctv properties_found
on_set_cctv_properties s id from flags = do f ← get_cctv s id; properties_found id from flags f

unfoldable get_cctv_count : Core → Ret × ℕ
unfolding Access.count
get_cctv_count s = Access.count s.cctvs.list

-- The loop of `getCCTVList`: what it copies.
pub first_cctvs : (n i : ℕ) → Table Cctv → Run (List Cctv × Table Cctv)
unfolding nth load
first_cctvs zero i t = done ([], t)
first_cctvs (suc n) i t = do
  (f, t') ← nth i t
  elim f.1 [
    | none ↦ done ([], t')
    | some p ↦ do c ← load t' p; (rest, t'') ← first_cctvs n (i + 1) t'; done (c ∷ rest, t'')
  ]

pub get_cctv_list : Core → (max : ℕ) → Run (List Cctv × Core)
unfolding first_cctvs
get_cctv_list s max = do (cs, t) ← first_cctvs max 0 s.cctvs; done (cs, record s { cctvs = t })

-- `getCCTVIDList` copies the ids in the same loop.
unfoldable get_cctv_id_list : Core → (max : ℕ) → Run (List Text × Core)
unfolding get_cctv_list
get_cctv_id_list s max = do (cs, s') ← get_cctv_list s max; done (map (λ c. c.id) cs, s')

config_of : Found × Core → Run (Ret × Option Cctv × Core)
unfolding load
config_of ((ok, some p), s) = do c ← load s.cctvs p; done (ok, some c, s)
config_of ((ok, none), s) = fault
config_of ((r, p), s) = done (r, none, s)

unfoldable get_cctv_properties : Core → (id : Text) → Run (Ret × Option Cctv × Core)
unfolding get_cctv config_of
get_cctv_properties s id = do f ← get_cctv s id; config_of f
