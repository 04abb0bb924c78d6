-- ===== src/Detector/Tests.antt =====
-- Runs of the access control of lib/ftm_detector.c on a switch without entries.
use catchb.Base.{refl, [], ◌∷◌, arith, Text}
use catchb.Ret.{ok}
use catchb.Table.Samples.{no_blocks, no_blocks-Holds, no_blocks-MayAllocate}
use catchb.Switch.{Switch, deny}
use catchb.Switch.Access.{Lists, entry_of}
use catchb.Detector.Blocked.{Controls, start, next, Blocks, Controls-Blocks}
use catchb.Detector.Steps.{deny_new}

abbrev address : Text
address = b'1' ∷ b'.' ∷ b'2' ∷ []

abbrev quiet : Switch
quiet = record { acs = no_blocks (entry_of []); taken = [] }

quiet-Lists : Lists quiet []
quiet-Lists = record { holds = no_blocks-Holds (entry_of []); distinct = tt }

abbrev blocking : Switch
blocking =
    (deny_new quiet [] address quiet-Lists 20 2 ok (no_blocks-MayAllocate (entry_of []))
      (omega arith) (omega arith) refl).after

blocking-Controls : Controls quiet ((address, deny) ∷ []) blocking
blocking-Controls =
    next address deny 20 2 start (no_blocks-MayAllocate (entry_of [])) (omega arith)
      (deny_new quiet [] address quiet-Lists 20 2 ok (no_blocks-MayAllocate (entry_of []))
        (omega arith) (omega arith) refl).runs

Controls-Blocks_example : Blocks blocking ((address, deny) ∷ [])
Controls-Blocks_example =
    Controls-Blocks quiet blocking ((address, deny) ∷ []) quiet-Lists refl blocking-Controls
      (omega arith)
