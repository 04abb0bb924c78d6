-- ===== src/Switches/Change.antt =====
-- Deleting, changing and listing the switches of lib/ftm_catchb.c.
use mathlib.Core.List.{append_assoc, append-nil}
use catchb.Base.{ℕ, zero, suc, ◌≡◌, refl, some, List, [], ◌∷◌, ◌++◌, map, take, Text}
use catchb.Run.{done}
use catchb.Ret.{ok}
use catchb.Peer.{say}
use catchb.Table.{Table}
use catchb.Table.Split.{first?, drop_first, set_first}
use catchb.Table.Holds.{Holds, HoldsAt-Holds}
use catchb.Table.Change.{take_off-TakesOff, load-at, store-HoldsAt}
use catchb.Table.Search.{find-FoundAt}
use catchb.Table.Iterate.{Iterating, Iterating-Holds, start-Iterating, next-Iterating, next_end}
use catchb.Switches.{
  SwitchConfig, db_destroy_ac_table, db_delete_switch, db_set_switch_properties, Switches, tell_db,
  has_switch_id, del_switch, switch_found, switch_off, with_switch_fields, switch_set,
  set_switch_properties, first_switches, get_switch_id_list,
}
use catchb.Switches.Add.{Leaves}

module _ (s : Switches) (id : Text) (vs : List SwitchConfig) (c : SwitchConfig)
    (h : Holds s.switches vs) (first : first? (has_switch_id id) vs ≡ some c) where
  -- The switch goes, whatever the database answers.
  del_switch-Leaves :
      Leaves
        (del_switch s id)
        ok
        (drop_first (has_switch_id id) vs)
        ((s.db.calls ++ db_delete_switch id ∷ []) ++ db_destroy_ac_table id ∷ [])
  unfolding del_switch switch_found switch_off tell_db say
  del_switch-Leaves =
      let f = find-FoundAt (has_switch_id id) s.switches vs c h first in
      let off = take_off-TakesOff f.after f.us f.at c f.ws f.holds in
      record {
        after = record s {
          switches = off.freed;
          db = record (s.db) {
            calls = (s.db.calls ++ db_delete_switch id ∷ []) ++ db_destroy_ac_table id ∷ [];
          };
        };
        runs = rw f.runs (rw off.takes (rw off.frees refl));
        holds = rw f.drops off.holds;
        called = refl;
      }

  -- This switch alone changes, and the result is the answer of the database.
  set_switch_properties-Leaves :
      (from : SwitchConfig) (flags : ℕ)
      → let c' = with_switch_fields flags from c in
        let calls = s.db.calls ++ db_set_switch_properties id c' flags ∷ [] in
        Leaves
          (set_switch_properties s id from flags)
          (s.db.answer calls)
          (set_first (has_switch_id id) c' vs)
          calls
  unfolding set_switch_properties switch_set tell_db say
  set_switch_properties-Leaves from flags =
      let f = find-FoundAt (has_switch_id id) s.switches vs c h first in
      let c' = with_switch_fields flags from c in
      let (t, stored, k, _) = store-HoldsAt f.after f.us f.at c c' f.ws f.holds in
      record {
        after = record s {
          switches = t;
          db = record (s.db) { calls = s.db.calls ++ db_set_switch_properties id c' flags ∷ [] };
        };
        runs = rw f.runs (rw (load-at f.after f.us f.at c f.ws f.holds) (rw stored refl));
        holds = rw (f.sets c') (HoldsAt-Holds t f.us f.at c' f.ws k);
        called = refl;
      }

first_switches-take :
    (n : ℕ) (t : Table SwitchConfig) (us ws : List SwitchConfig)
    → Iterating t us ws
    → (t' : Table SwitchConfig) × (first_switches n t ≡ done (take n ws, t')) × Holds t' (us ++ ws)
unfolding first_switches
first_switches-take zero t us ws h = (t, refl, Iterating-Holds t us ws h)
first_switches-take (suc n) t us [] h =
    let (t', run, k) = next_end t us h in (t', rw run refl, rw append-nil k)
first_switches-take (suc n) t us (c ∷ ws) h =
    let (t', p, run, reads, k) = next-Iterating t us c ws h in
    let (t'', rest, k') = first_switches-take n t' (us ++ c ∷ []) ws k in
    (t'', rw run (rw reads (rw rest refl)), rw append_assoc at k')

-- The ids of the first switches, in order.
get_switch_id_list-take :
    (s : Switches) (max : ℕ) (vs : List SwitchConfig)
    → Holds s.switches vs
    → (t : Table SwitchConfig) × (get_switch_id_list s max
        ≡ done (map (λ c. c.id) (take max vs), record s { switches = t }))
      × Holds t vs
unfolding get_switch_id_list
get_switch_id_list-take s max vs h =
    let (t, started, i) = start-Iterating s.switches vs h in
    let (t', run, k) = first_switches-take max t [] vs i in (t', rw started (rw run refl), k)
