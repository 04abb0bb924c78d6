-- ===== src/Switches/Loaded/Crash.antt =====
-- Loading a switch of the database in lib/ftm_catchb.c, with and without access controls.
use catchb.Base.{
  ℕ, ◌+◌, ◌^◌, ◌<◌, ◌≡◌, ◌≢◌, refl, true, false, arith, ◌==◌, Option, some, List, [], ◌∷◌, ◌++◌,
  length,
}
use catchb.Run.{fault}
use catchb.Ret.{ok}
use catchb.Peer.{say}
use catchb.Switch.{Ac}
use catchb.Table.Holds.{Holds, HoldsAt-Holds}
use catchb.Table.Change.{MayAllocate, add-HoldsAt}
use catchb.Switches.{
  SwitchConfig, Switches, create_switch, SwitchCall, tell_db, db_is_ac_table_exist, db_get_ac_count,
  db_get_ac_list,
}
use catchb.Switches.Add.{Leaves, switch_memory}
use catchb.Switches.Loaded.{
  AcAnswers, table_asked, acs_counted, acs_listed, copy_acs, create_with_acs, acs_copied, loaded,
  switch_loaded, switch_counted, on_found_switch_in_db,
}

-- The calls of the database before the switch is made.
asked_of : SwitchConfig → List SwitchCall → List SwitchCall
asked_of c cs = (cs ++ db_is_ac_table_exist c.id ∷ []) ++ db_get_ac_count c.ip ∷ []

module _ (s : Switches) (c : SwitchConfig) (p a e : ℕ) (vs : List SwitchConfig)
    (h : Holds s.switches vs) (m : MayAllocate s.switches p e) (small : length vs + 1 < 2 ^ 32)
    (memory : ℕ → Option ℕ) (d : AcAnswers) (q : ℕ)
    (asked : s.db.answer (s.db.calls ++ db_is_ac_table_exist c.id ∷ []) ≡ ok)
    (exists : d.exists ≡ true) (array : d.array ≡ some q) where
  -- A table without rows: the switch becomes the last, and the database was asked twice.
  found_switch_new :
      d.count ≡ 0
      → Leaves
          (on_found_switch_in_db (switch_memory p a e) memory d s c)
          ok
          (vs ++ c ∷ [])
          (asked_of c s.db.calls)
  unfolding on_found_switch_in_db table_asked acs_counted switch_counted create_switch
      create_with_acs copy_acs acs_copied switch_loaded loaded tell_db say asked_of
  found_switch_new nothing =
      let (t, added, at, _) = add-HoldsAt s.switches p e c vs h m small in
      record {
        after = record s { switches = t; db = record s.db { calls = asked_of c s.db.calls } };
        runs = rw (asked, exists, nothing) (rw added refl);
        holds = HoldsAt-Holds t vs p c [] at;
        called = refl;
      }

  -- A table with a row that was read: there is memory for its entry, and the loop reads NULL.
  found_switch_crashes :
      (b : ℕ) (ac : Ac) (acs : List Ac)
      → d.count ≢ 0
      → d.rows ≡ ac ∷ acs
      → memory 0 ≡ some b
      → s.db.answer (asked_of c s.db.calls ++ db_get_ac_list c.ip ∷ []) ≡ ok
      → on_found_switch_in_db (switch_memory p a e) memory d s c ≡ fault
  unfolding on_found_switch_in_db table_asked acs_counted acs_listed switch_counted create_switch
      create_with_acs copy_acs tell_db say asked_of
  found_switch_crashes b ac acs some_there rows there listed =
      let counted : (d.count == 0) ≡ false = ground (arith, some_there) in
      rw (asked, exists, counted, array, listed, rows, there) refl
