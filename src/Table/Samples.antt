-- ===== src/Table/Samples.antt =====
-- Lists of pointers that the tests start from, as lib/ftm_list.c makes them.
use catchb.Base.{refl, false, ◌==◌, none, [], ◌∷◌, arith, if◌then◌else◌}
use catchb.FtmList.{FtmList}
use catchb.Table.{Table}
use catchb.Table.Holds.{Holds}
use catchb.Table.Change.{MayAllocate}

abbrev pub no_entries : FtmList
no_entries = record {
  count = 0;
  prev = λ e. 0;
  next = λ e. 0;
  item = λ e. 0;
  live = λ e. false;
  iterator = false;
  iter = 0;
  seeker = none;
  comparator = none;
  lock = 1;
}

-- The entry 1 with the block 10.
abbrev pub one_entry : FtmList
one_entry = record {
  count = 1;
  prev = λ e. if e == 0 then 1 else 0;
  next = λ e. if e == 0 then 1 else 0;
  item = λ e. if e == 1 then 10 else 0;
  live = λ e. e == 1;
  iterator = false;
  iter = 0;
  seeker = none;
  comparator = none;
  lock = 1;
}

module _ {A : Type 0} (v : A) where
  abbrev pub no_blocks : Table A
  no_blocks = record { list = no_entries; block = λ p. v; live = λ p. false }

  abbrev pub one_block : Table A
  one_block = record { list = one_entry; block = λ p. v; live = λ p. p == 10 }

  pub no_blocks-Holds : Holds no_blocks []
  no_blocks-Holds = record {
    blocks = [];
    shows = record {
      entries = [];
      is_list = record {
        chain = (refl, refl);
        distinct = tt;
        no_head = refl;
        alive = tt;
        counted = refl;
        bounded = omega arith;
      };
      items = refl;
      open_lock = refl;
    };
    alive = tt;
    distinct = tt;
    values = refl;
  }

  pub one_block-Holds : Holds one_block (v ∷ [])
  one_block-Holds = record {
    blocks = 10 ∷ [];
    shows = record {
      entries = 1 ∷ [];
      is_list = record {
        chain = (refl, refl, (refl, refl));
        distinct = (refl, tt);
        no_head = refl;
        alive = (refl, tt);
        counted = refl;
        bounded = omega arith;
      };
      items = refl;
      open_lock = refl;
    };
    alive = (refl, tt);
    distinct = (refl, tt);
    values = refl;
  }

  pub no_blocks-MayAllocate : MayAllocate no_blocks 20 2
  no_blocks-MayAllocate = record {
    unused_block = refl;
    entry = record { not_head = omega arith; unused = refl };
  }
