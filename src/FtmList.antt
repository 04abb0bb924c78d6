-- ===== src/FtmList.antt =====
-- lib/ftm_list.c and lib/ftm_list.h: the circular doubly linked list. Each field of
-- `FTM_ENTRY` is a map from the address of an entry, `head` is the address of `xHead`, and `live`
-- says which addresses may be read. Items are pointers, that is numbers. `fSeeker` and
-- `fComparator` are `none` where the source tests for NULL. The semaphore is its count.
pub mod Access
pub mod Links
pub mod Walk
pub mod Shows
pub mod Insert
pub mod Remove
pub mod Read
pub mod Final
pub mod Iterate
pub mod Unused
pub mod Tests
use Prim.Native.Nat.{Ordering}
use catchb.Base.{
  ℕ, zero, suc, ◌+◌, ◌-◌, ◌%◌, ◌^◌, Bool, true, false, Option, none, some, ◌==◌, if◌then◌else◌,
}
use catchb.Run.{Run, done, fault, blocked, out_of_fuel, ◌>>=◌}
use catchb.Ret.{
  Ret, ok, not_enough_memory, semaphore_init_failed, list_not_insertable, invalid_arguments,
}

abbrev pub head : ℕ
head = 0

pub record FtmList : Type 0 where
  pub count : ℕ
  pub prev : ℕ → ℕ
  pub next : ℕ → ℕ
  pub item : ℕ → ℕ
  pub live : ℕ → Bool
  pub iterator : Bool
  pub iter : ℕ
  pub seeker : Option (ℕ → ℕ → Bool)
  pub comparator : Option (ℕ → ℕ → Ordering)
  pub lock : ℕ

-- Where a new item goes; `other` is any value that the enumeration does not name.
pub data Pos : Type 0 where
  front rear ascending descending other : Pos

abbrev pub update {ℓ} : {A : Type ℓ} → (ℕ → A) → ℕ → A → ℕ → A
update f a v b = if b == a then v else f b

-- `sem_wait` and `sem_post` round a body.
abbrev pub wait : FtmList → Run FtmList
wait l = if l.lock == 0 then blocked else done (record l { lock = l.lock - 1 })

abbrev pub post : FtmList → FtmList
post l = record l { lock = l.lock + 1 }

-- `sem_init` may fail. What `init` does not set stays what the memory held.
unfoldable pub init : (sem_fails : Bool) → FtmList → Ret × FtmList
init true l = (semaphore_init_failed, l)
init false l = (
  ok,
  record l {
    lock = 1;
    next = update l.next head head;
    prev = update l.prev head head;
    item = update l.item head 0;
    count = 0;
    iterator = false;
  },
)

-- The loop of `final`: each entry is freed.
free_all : ℕ → (ℕ → ℕ) → (ℕ → Bool) → ℕ → Run (ℕ → Bool)
free_all zero next live e = out_of_fuel
free_all (suc n) next live e = elim (e == head) [
  | true ↦ done live
  | false ↦ elim (live e) [ true ↦ free_all n next (update live e false) (next e) | false ↦ fault ]
]

unfoldable pub final : FtmList → Run (Ret × FtmList)
unfolding free_all
final l = do
  live ← free_all (l.count + 1) l.next l.live (l.next head)
  done (
    ok,
    record l {
      live = live;
      next = update l.next head head;
      prev = update l.prev head head;
      item = update l.item head 0;
      count = 0;
      iterator = false;
    },
  )

-- The result of `init` is not looked at; `memory` is what `malloc` returns.
unfoldable create : (memory : Option FtmList) → (sem_fails : Bool) → Ret × Option FtmList
unfolding init
create none fails = (not_enough_memory, none)
create (some l) fails = (ok, some (init fails l).1)

-- The caller's pointer becomes NULL.
unfoldable destroy : FtmList → Run (Ret × Option FtmList)
unfolding final
destroy l = do r ← final l; done (ok, none)

-- `while (pEntry != &pList->xHead)` up to the first entry whose item passes the test; `head` if
-- there is none.
pub walk : ℕ → FtmList → (ℕ → Bool) → ℕ → Run ℕ
walk zero l test e = out_of_fuel
walk (suc n) l test e = elim (e == head) [
  | true ↦ done head
  | false ↦ elim (l.live e) [
    | true ↦ elim (test (l.item e)) [ true ↦ done e | false ↦ walk n l test (l.next e) ]
    | false ↦ fault
  ]
]

-- The same loop up to a position.
pub walk_to : ℕ → FtmList → ℕ → ℕ → Run ℕ
walk_to zero l pos e = out_of_fuel
walk_to (suc n) l pos e = elim (e == head) [
  | true ↦ done head
  | false ↦ elim (l.live e) [
    | true ↦ elim (pos == 0) [ true ↦ done e | false ↦ walk_to n l (pos - 1) (l.next e) ]
    | false ↦ fault
  ]
]

-- The six assignments that link the entry `e` between `p` and its successor.
pub link : FtmList → (p e : ℕ) → (v : ℕ) → FtmList
link l p e v = record l {
  live = update l.live e true;
  next = update (update l.next e (l.next p)) p e;
  prev = update (update l.prev e p) (l.next p) e;
  item = update l.item e v;
  count = (l.count + 1) % 2 ^ 32;
}

-- Those of `append`, which names the head instead of going through the last entry.
link_last : FtmList → (e : ℕ) → (v : ℕ) → FtmList
link_last l e v = record l {
  live = update l.live e true;
  next = update (update l.next e head) (l.prev head) e;
  prev = update (update l.prev e (l.prev head)) head e;
  item = update l.item e v;
  count = (l.count + 1) % 2 ^ 32;
}

-- `entry` is what `malloc` returns, `none` for NULL.
unfoldable pub append : (entry : Option ℕ) → FtmList → ℕ → Run (Ret × FtmList)
unfolding link_last
append none l v = do l' ← wait l; done (not_enough_memory, post l')
append (some e) l v = do l' ← wait l; done (ok, post (link_last l' e v))

insert_behind : (entry : Option ℕ) → FtmList → ℕ → (p : ℕ) → Ret × FtmList
unfolding link
insert_behind none l v p = (not_enough_memory, post l)
insert_behind (some e) l v p = (ok, post (link l p e v))

abbrev pub is_gt : Ordering → Bool
is_gt Ordering.gt = true
is_gt _ = false

abbrev is_lt : Ordering → Bool
is_lt Ordering.lt = true
is_lt _ = false

-- The sorted cases: the entry before the first one that compares so. The early return leaves the
-- semaphore taken, and so does that of an unknown position.
insert_before :
    (entry : Option ℕ)
    → FtmList
    → ℕ
    → (Ordering → Bool)
    → Option (ℕ → ℕ → Ordering)
    → Run (Ret × FtmList)
unfolding insert_behind walk
insert_before entry l v stops none = done (list_not_insertable, l)
insert_before entry l v stops (some compares) = do
  e ← walk (l.count + 1) l (λ d. stops (compares d v)) (l.next head)
  done (insert_behind entry l v (l.prev e))

unfoldable pub insert : (entry : Option ℕ) → FtmList → ℕ → Pos → Run (Ret × FtmList)
unfolding insert_behind insert_before
insert entry l v front = do l' ← wait l; done (insert_behind entry l' v head)
insert entry l v rear = do l' ← wait l; done (insert_behind entry l' v (l'.prev head))
insert entry l v ascending = do l' ← wait l; insert_before entry l' v is_gt l'.comparator
insert entry l v descending = do l' ← wait l; insert_before entry l' v is_lt l'.comparator
insert entry l v other = do l' ← wait l; done (invalid_arguments, l')
