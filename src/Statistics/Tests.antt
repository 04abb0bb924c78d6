-- ===== src/Statistics/Tests.antt =====
-- Runs of the statistics of lib/ftm_catchb.c on two records.
use catchb.Base.{ℕ, ◌≡◌, refl, ◌||◌, some, [], ◌∷◌, arith, ◌==◌, if◌then◌else◌}
use catchb.Run.{done}
use catchb.Ret.{ok}
use catchb.FtmList.Tests.{two_items, two_items-Shows, three-IsFresh}
use catchb.Statistics.{Stat, Statistics, add_statistics, del_statistics2}
use catchb.Statistics.Holds.{Holds}
use catchb.Statistics.Add.{add_statistics-Holds}
use catchb.Statistics.Times.{del_statistics2-Holds}

abbrev at_time : ℕ → Stat
at_time t = record { sec = t; other_fields = 0 }

-- The blocks 10 and 20 with records of seconds 100 and 200; two at most.
abbrev two_records : Statistics
two_records = record {
  list = two_items;
  stat = λ p. if p == 10 then at_time 100 else at_time 200;
  live = λ p. p == 10 || p == 20;
  max_count = 2;
  interval = 60000;
}

two_records-Holds : Holds two_records (at_time 100 ∷ at_time 200 ∷ [])
two_records-Holds = record {
  blocks = 10 ∷ 20 ∷ [];
  shows = two_items-Shows;
  alive = (refl, (refl, tt));
  distinct = (refl, (refl, tt));
  records = refl;
}

add_statistics-Holds_example :
    (s' : Statistics) × (add_statistics (some 30) (some 3) two_records (at_time 300)
      ≡ done (ok, s'))
    × Holds s' (at_time 200 ∷ at_time 300 ∷ [])
    × (s'.max_count ≡ 2)
add_statistics-Holds_example =
    add_statistics-Holds two_records 30 3 (at_time 300) (at_time 100 ∷ at_time 200 ∷ [])
      two_records-Holds (record { unused_block = refl; entry = three-IsFresh }) (omega arith)
      (omega arith)

del_statistics2-Holds_example :
    (s' : Statistics) × (del_statistics2 50 150 two_records ≡ done (ok, s'))
    × Holds s' (at_time 200 ∷ [])
del_statistics2-Holds_example =
    del_statistics2-Holds two_records 50 150 (at_time 100 ∷ at_time 200 ∷ []) two_records-Holds
      (omega arith, (omega arith, tt))
