-- ===== src/Switches/Tests.antt =====
-- Runs of the switches of lib/ftm_catchb.c.
use catchb.Base.{refl, true, false, List, [], ◌∷◌, arith, Text, ◌==◌, length, if◌then◌else◌}
use catchb.Ret.{Ret, ok, error}
use catchb.Table.Samples.{no_blocks, no_blocks-Holds, no_blocks-MayAllocate}
use catchb.Switches.{SwitchConfig, SwitchCall, Switches, add_switch}
use catchb.Switches.Add.{Leaves, switch_memory, calls_of, add_switch_new}

abbrev switch_id : Text
switch_id = b's' ∷ b'1' ∷ []

abbrev config : SwitchConfig
config = record {
  id = switch_id;
  model = [];
  ip = b'9' ∷ [];
  secure = false;
  user_id = [];
  passwd = [];
  comment = [];
}

-- No switches; the database answers with `answer`.
abbrev empty : (answer : List SwitchCall → Ret) → Switches
empty answer = record { switches = no_blocks config; db = record { calls = []; answer = answer } }

-- The third call fails.
abbrev third_fails : List SwitchCall → Ret
third_fails cs = if length cs == 3 then error else ok

add_switch_new_example :
    Leaves
      (add_switch (switch_memory 20 30 2) true (empty (λ cs. ok)) config)
      ok
      (config ∷ [])
      (calls_of true config [])
add_switch_new_example =
    add_switch_new (empty (λ cs. ok)) config 20 30 2 [] (no_blocks-Holds config)
      (no_blocks-MayAllocate config) (omega arith) (λ e. cc e) refl true (λ cs. refl)
