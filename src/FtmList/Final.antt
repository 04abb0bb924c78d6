-- ===== src/FtmList/Final.antt =====
-- The start and the end of a list of lib/ftm_list.c: `init` makes it empty, `final` frees its entries.
use catchb.Base.{
  ℕ, zero, suc, ◌+◌, ◌<◌, ◌≡◌, refl, Bool, false, not, ◌&&◌, List, [], ◌∷◌, arith, length,
}
use catchb.Run.{Run, done}
use catchb.Ret.{ok}
use catchb.FtmList.{FtmList, head, init, final, free_all, update}
use catchb.FtmList.Links.{Links, AllDistinct, ◌∉◌, has, first, next-first}
use catchb.FtmList.Walk.{AllLive}
use catchb.FtmList.Shows.{IsList, Shows, AllLive-update}

-- Whatever the memory holds, an `init` whose semaphore can be set up makes an empty list of it.
pub init-Shows : (l : FtmList) → let (r, l') = init false l in (r ≡ ok) × Shows l' []
unfolding init
init-Shows l = (
  refl,
  record {
    entries = [];
    is_list = record {
      chain = (ground arith, ground arith);
      distinct = tt;
      no_head = refl;
      alive = tt;
      counted = refl;
      bounded = omega arith;
    };
    items = refl;
    open_lock = refl;
  },
)

-- The same memory with these entries freed.
abbrev without_entries : (ℕ → Bool) → List ℕ → ℕ → Bool
without_entries live xs a = not (has a xs) && live a

-- What freeing the first entry and then the others comes to.
Frees : (ℕ → Bool) → List ℕ → Run (ℕ → Bool) → Type 0
Frees live xs run =
    (live' : ℕ → Bool) × (run ≡ done live') × ((a : ℕ) → live' a ≡ without_entries live xs a)

free_all-Frees :
    (next prev : ℕ → ℕ) (n a e : ℕ) (live : ℕ → Bool) (xs : List ℕ)
    → e ≡ first xs head
    → Links next prev a xs head
    → AllDistinct xs
    → AllLive live xs
    → head ∉ xs
    → length xs < n
    → Frees live xs (free_all n next live e)
unfolding free_all Frees
free_all-Frees next prev zero a e live xs he h d alive out enough = elim enough [ ]
free_all-Frees next prev (suc n) a e live [] he h d alive out enough =
    (live, ground arith, λ b. refl)
free_all-Frees next prev (suc n) a e live (x ∷ xs) he h d alive out enough =
    let (live', run, frees) =
      free_all-Frees next prev n x (next x) (update live x false) xs
        (next-first next prev x head xs h.2) h.2 d.1 (AllLive-update live x false xs d.0 alive.1)
        (ground arith) (omega arith) in
    (live', ground arith, λ b. ground (arith, frees b))

-- On every well-formed list final comes to an end and returns OK; each entry was live when it
-- was freed, exactly the entries are dead afterwards, and the list is well-formed and empty.
pub final_frees :
    (l : FtmList) (xs : List ℕ)
    → IsList l xs
    → (l' : FtmList) × (final l ≡ done (ok, l'))
      × IsList l' []
      × ((a : ℕ) → l'.live a ≡ without_entries l.live xs a)
unfolding final Frees
final_frees l xs h =
    let (live', run, frees) =
      free_all-Frees l.next l.prev (l.count + 1) head (l.next head) l.live xs
        (next-first l.next l.prev head head xs h.chain) h.chain h.distinct h.alive h.no_head
        (omega (arith, h.counted)) in
    (
      record l {
        live = live';
        next = update l.next head head;
        prev = update l.prev head head;
        item = update l.item head 0;
        count = 0;
        iterator = false;
      },
      rw run,
      record {
        chain = (ground arith, ground arith);
        distinct = tt;
        no_head = refl;
        alive = tt;
        counted = refl;
        bounded = omega arith;
      },
      frees,
    )
