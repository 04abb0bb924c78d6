-- ===== src/Switches/Add.antt =====
-- Adding a switch in lib/ftm_catchb.c.
use catchb.Base.{
  ℕ, ◌+◌, ◌^◌, ◌<◌, ◌≡◌, ◌≢◌, ◌∙◌, refl, Bool, true, false, none, some, List, [], ◌∷◌, ◌++◌, length,
  Text,
}
use catchb.Run.{Run, done}
use catchb.Ret.{Ret, ok}
use catchb.Peer.{say}
use catchb.Table.{Table}
use catchb.Table.Split.{first?}
use catchb.Table.Holds.{Holds, HoldsAt, HoldsAt-Holds}
use catchb.Table.Change.{SameMemory-MayAllocate, MayAllocate, add-HoldsAt}
use catchb.Table.Search.{find-NotFound}
use catchb.Switches.{
  SwitchConfig, SwitchCall, db_add_switch, db_is_ac_table_exist, db_destroy_ac_table,
  db_create_ac_table, Switches, SwitchMemory, tell_db, has_switch_id, add_named, add_switch,
  switch_searched, switch_made, switch_listed, switch_stored, table_dropped, table_created,
  create_switch,
}

-- What a call returns and leaves.
pub record Leaves (run : Run (Ret × Switches)) (r : Ret) (vs : List SwitchConfig)
    (calls : List SwitchCall) : Type 0 where
  pub after : Switches
  pub runs : run ≡ done (r, after)
  pub holds : Holds after.switches vs
  pub called : after.db.calls ≡ calls

abbrev pub switch_memory : (p a e : ℕ) → SwitchMemory
switch_memory p a e = record { switch = some p; acs = some a; entry = some e }

add_switch_named :
    (m : SwitchMemory) (exists : Bool) (s : Switches) (c : SwitchConfig)
    → c.id ≢ []
    → add_switch m exists s c ≡ add_named m exists s c
unfolding add_switch
add_switch_named m exists s c named = go c.id refl
  where
    go : (id : Text) → c.id ≡ id → add_switch m exists s c ≡ add_named m exists s c
    go [] e = absurd (named e)
    go (x ∷ xs) e = rw e

-- The calls up to the one that makes the table of the access control.
abbrev pub calls_of : (exists : Bool) → SwitchConfig → List SwitchCall → List SwitchCall
calls_of true c cs =
    ((((cs ++ db_add_switch c ∷ []) ++ db_is_ac_table_exist c.id ∷ [])
        ++ db_destroy_ac_table c.id ∷ [])
      ++ db_create_ac_table c.id ∷ [])
calls_of false c cs =
    (((cs ++ db_add_switch c ∷ []) ++ db_is_ac_table_exist c.id ∷ [])
      ++ db_create_ac_table c.id ∷ [])

module _ (s : Switches) (c : SwitchConfig) (p a e : ℕ) (vs : List SwitchConfig)
    (h : Holds s.switches vs) (m : MayAllocate s.switches p e) (small : length vs + 1 < 2 ^ 32)
    (named : c.id ≢ []) (new : first? (has_switch_id c.id) vs ≡ none) where
  -- Up to the database: the switch is in the list.
  listed :
      (exists : Bool)
      → (t : Table SwitchConfig) × HoldsAt t vs p c []
        × (add_switch (switch_memory p a e) exists s c
            ≡ switch_listed exists c p (ok, record s { switches = t }))
  unfolding add_named switch_searched switch_made create_switch
  listed exists =
      let n = find-NotFound (has_switch_id c.id) s.switches vs h new in
      let (t, added, at, _) =
        add-HoldsAt n.after p e c vs n.holds
          (SameMemory-MayAllocate s.switches n.after p e n.same m) small in
      (t, at, add_switch_named (switch_memory p a e) exists s c named ∙ rw n.runs (rw added refl))

  -- If the id is not empty and no switch has it, memory is there, the count has room and the
  -- database answers every call with OK, addSwitch returns OK, puts the switch at the end of
  -- the list and calls the database to add it, to look for the table of its access control, to
  -- destroy this table if there is one, and to create it.
  pub add_switch_new :
      (exists : Bool)
      → ((cs : List SwitchCall) → s.db.answer cs ≡ ok)
      → Leaves
          (add_switch (switch_memory p a e) exists s c)
          ok
          (vs ++ c ∷ [])
          (calls_of exists c s.db.calls)
  unfolding switch_listed switch_stored table_dropped table_created tell_db say
  add_switch_new true fine =
      let (t, at, run) = listed true in
      record {
        after = record s {
          switches = t;
          db = record (s.db) { calls = calls_of true c s.db.calls };
        };
        runs = run ∙ rw (fine _) (rw (fine _) (rw (fine _) refl));
        holds = HoldsAt-Holds t vs p c [] at;
        called = refl;
      }
  add_switch_new false fine =
      let (t, at, run) = listed false in
      record {
        after = record s {
          switches = t;
          db = record (s.db) { calls = calls_of false c s.db.calls };
        };
        runs = run ∙ rw (fine _) (rw (fine _) refl);
        holds = HoldsAt-Holds t vs p c [] at;
        called = refl;
      }
