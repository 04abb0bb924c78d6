-- ===== src/Alarms/Tests.antt =====
-- Runs of the alarms of lib/ftm_catchb.c.
use catchb.Base.{◌≡◌, refl, some, [], ◌∷◌, arith}
use catchb.Run.{done}
use catchb.Ret.{ok}
use catchb.Table.Holds.{Holds}
use catchb.Table.Samples.{no_blocks, no_blocks-Holds, no_blocks-MayAllocate, one_block}
use catchb.Alarms.{Alarm, Alarms, add_alarm, get_alarm}
use catchb.Alarms.Change.{get_alarm-add}

abbrev alarm : Alarm
alarm = record { name = b'a' ∷ []; email = b'e' ∷ []; message = [] }

abbrev quiet : Alarms
quiet = record { alarms = no_blocks alarm; db = record { calls = []; answer = λ cs. ok } }

abbrev one : Alarms
one = record { alarms = one_block alarm; db = record { calls = []; answer = λ cs. ok } }

get_alarm-add_example :
    (s' s'' : Alarms) × (add_alarm (some 20) (some 2) quiet alarm ≡ done (ok, s'))
    × (get_alarm s' (b'a' ∷ []) ≡ done (ok, some alarm, s''))
    × Holds s''.alarms (alarm ∷ [])
get_alarm-add_example =
    get_alarm-add quiet alarm 20 2 [] (no_blocks-Holds alarm) (no_blocks-MayAllocate alarm)
      (omega arith) (omega arith) refl refl
