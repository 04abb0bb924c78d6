-- ===== src/FtmList/Tests.antt =====
-- Runs of lib/ftm_list.c on lists of two items.
use Prim.Native.Nat.{compare}
use catchb.Base.{refl, false, ◌||◌, none, some, [], ◌∷◌, arith, ◌==◌, if◌then◌else◌}
use catchb.Ret.{ok}
use catchb.FtmList.{FtmList, insert, ascending, descending}
use catchb.FtmList.Access.{remove}
use catchb.FtmList.Shows.{Shows, IsList, IsFresh}
use catchb.FtmList.Insert.{Returns, insert_sorted-Shows}
use catchb.FtmList.Remove.{remove-Shows}

-- The entry 1 with item 10, the entry 2 with item 20.
abbrev pub two_items : FtmList
two_items = record {
  count = 2;
  prev = λ e. if e == 0 then 2 else (if e == 1 then 0 else 1);
  next = λ e. if e == 0 then 1 else (if e == 1 then 2 else 0);
  item = λ e. if e == 1 then 10 else (if e == 2 then 20 else 0);
  live = λ e. e == 1 || e == 2;
  iterator = false;
  iter = 0;
  seeker = some (λ d key. d == key);
  comparator = some compare;
  lock = 1;
}

two_items-IsList : IsList two_items (1 ∷ 2 ∷ [])
two_items-IsList = record {
  chain = (refl, refl, (refl, refl, (refl, refl)));
  distinct = (refl, (refl, tt));
  no_head = refl;
  alive = (refl, (refl, tt));
  counted = refl;
  bounded = omega arith;
}

pub two_items-Shows : Shows two_items (10 ∷ 20 ∷ [])
two_items-Shows = record {
  entries = 1 ∷ 2 ∷ [];
  is_list = two_items-IsList;
  items = refl;
  open_lock = refl;
}

pub three-IsFresh : IsFresh two_items 3
three-IsFresh = record { not_head = omega arith; unused = refl }

-- The same list without a comparator.
abbrev unsorted : FtmList
unsorted = record two_items { comparator = none }

insert_sorted-Shows_example :
    Returns (insert (some 3) two_items 15 ascending) ok (10 ∷ 15 ∷ 20 ∷ [])
    × Returns (insert (some 3) two_items 15 descending) ok (15 ∷ 10 ∷ 20 ∷ [])
insert_sorted-Shows_example =
    insert_sorted-Shows two_items 3 15 (10 ∷ 20 ∷ []) two_items-Shows three-IsFresh (omega arith)
      compare refl

remove-Shows_example : Returns (remove two_items 20) ok (10 ∷ [])
remove-Shows_example = remove-Shows two_items 20 (10 ∷ 20 ∷ []) two_items-Shows
