-- ===== src/FtmList/Access.antt =====
-- Removal, search and iteration of lib/ftm_list.c.
use Prim.Native.Nat.{Ordering}
use catchb.Base.{
  ℕ, ◌+◌, ◌-◌, ◌%◌, ◌^◌, Bool, true, false, not, ◌||◌, Option, none, some, ltb, ◌==◌, if◌then◌else◌,
}
use catchb.Run.{Run, done, fault, ◌>>=◌}
use catchb.Ret.{Ret, ok, object_not_found, list_empty, not_initialized}
use catchb.FtmList.{FtmList, head, update, wait, post, walk, walk_to}

-- The two assignments that unlink `e`, `free` and the count.
unfoldable pub unlink : FtmList → (e : ℕ) → FtmList
unlink l e = record l {
  live = update l.live e false;
  next = update l.next (l.prev e) (l.next e);
  prev = update l.prev (l.next e) (l.prev e);
  count = (l.count + 2 ^ 32 - 1) % 2 ^ 32;
}

-- `remove` steps an iterator that stands on the entry back to the one before.
unfoldable pub take_out : FtmList → (e : ℕ) → Ret × FtmList
unfolding unlink
take_out l e =
    if e == head
    then (object_not_found, post l)
    else (ok, post (record (unlink l e) { iter = if l.iter == e then l.prev e else l.iter }))

-- The first entry with this very pointer.
unfoldable pub remove : FtmList → ℕ → Run (Ret × FtmList)
unfolding walk take_out
remove l v = do
  l' ← wait l
  e ← walk (l'.count + 1) l' (λ d. d == v) (l'.next head)
  done (take_out l' e)

-- `removeAt` leaves the iterator alone.
unfoldable pub take_out_at : FtmList → (e : ℕ) → Ret × FtmList
unfolding unlink
take_out_at l e = if e == head then (object_not_found, post l) else (ok, post (unlink l e))

unfoldable pub remove_at : FtmList → ℕ → Run (Ret × FtmList)
unfolding walk_to take_out_at
remove_at l pos = do
  l' ← wait l
  if not (ltb pos l'.count)
      then done (object_not_found, post l')
      else (do e ← walk_to (l'.count + 1) l' pos (l'.next head); done (take_out_at l' e))

-- What a search hands out: `none` where `*ppElement` is not written.
abbrev pub Found : Type 0
Found = Ret × Option ℕ

abbrev pub found : FtmList → ℕ → Found
found l e = if e == head then (object_not_found, none) else (ok, some (l.item e))

-- The loop of `get` and `seek`, which are about the same search; without a seeker there is none.
pub search_by : FtmList → (key : ℕ) → Option (ℕ → ℕ → Bool) → Run ℕ
unfolding walk
search_by l key none = done head
search_by l key (some seeks) = walk (l.count + 1) l (λ d. seeks d key) (l.next head)

unfoldable pub get : FtmList → (key : ℕ) → Run (Found × FtmList)
unfolding search_by
get l key = do l' ← wait l; e ← search_by l' key l'.seeker; done (found l' e, post l')

-- `seek` returns the result of `get` alone.
unfoldable seek : FtmList → (key : ℕ) → Run (Ret × FtmList)
unfolding search_by
seek l key = do
  l' ← wait l
  e ← search_by l' key l'.seeker
  done ((if e == head then object_not_found else ok), post l')

-- `pEntry->pData`: the head and the live entries may be read.
load : FtmList → ℕ → Run ℕ
load l e = if e == head || l.live e then done (l.item e) else fault

unfoldable pub get_first : FtmList → Run Found
unfolding load
get_first l =
    if l.count == 0
    then done (list_empty, none)
    else (do v ← load l (l.next head); done (ok, some v))

unfoldable pub get_last : FtmList → Run Found
unfolding load
get_last l =
    if l.count == 0
    then done (list_empty, none)
    else (do v ← load l (l.prev head); done (ok, some v))

unfoldable pub get_at : FtmList → ℕ → Run (Found × FtmList)
unfolding walk_to
get_at l pos = do
  l' ← wait l
  if not (ltb pos l'.count)
      then done ((object_not_found, none), post l')
      else (do e ← walk_to (l'.count + 1) l' pos (l'.next head); done (found l' e, post l'))

unfoldable pub iterator_start : FtmList → Run (Ret × FtmList)
iterator_start l = do l' ← wait l; done (ok, post (record l' { iterator = true; iter = head }))

-- The iterator's own entry is read first: it must be live.
unfoldable pub iterator_next : FtmList → Run (Found × FtmList)
iterator_next l = do
  l' ← wait l
  if not l'.iterator
      then done ((not_initialized, none), post l')
      else (if l'.iter == head || l'.live l'.iter
          then done (found l' (l'.next l'.iter), post (record l' { iter = l'.next l'.iter }))
          else fault)

unfoldable pub count : FtmList → Ret × ℕ
count l = (ok, l.count)

unfoldable set_seeker : FtmList → (ℕ → ℕ → Bool) → Ret × FtmList
set_seeker l f = (ok, record l { seeker = some f })

unfoldable set_comparator : FtmList → (ℕ → ℕ → Ordering) → Ret × FtmList
set_comparator l f = (ok, record l { comparator = some f })
