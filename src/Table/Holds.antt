-- ===== src/Table/Holds.antt =====
-- What a list of pointers holds, and what its operations do to it.
use mathlib.Core.Path.{ap₂}
use catchb.Base.{
  length, length-map, arith, ◌<◌, ◌^◌, ℕ, ◌≡◌, refl, sym, ap, ◌∙◌, Bool, true, none, some, List, [],
  ◌∷◌, ◌++◌, map,
}
use catchb.Run.{done}
use catchb.Ret.{ok, object_not_found}
use catchb.FtmList.{FtmList}
use catchb.FtmList.Links.{AllDistinct}
use catchb.FtmList.Walk.{AllLive, onwards}
use catchb.FtmList.Shows.{Shows, IsFresh}
use catchb.FtmList.Read.{first_of, get-Finds}
use catchb.FtmList.Unused.{get_live}
use catchb.Table.{Table, find, seeking}
use catchb.Table.Split.{NoneOf, NoneOf-map, Split, nowhere, at, split}

-- The list shows live blocks, each once, that hold these values.
pub record Holds {A : Type 0} (t : Table A) (vs : List A) : Type 0 where
  pub blocks : List ℕ
  pub shows : Shows t.list blocks
  pub alive : AllLive t.live blocks
  pub distinct : AllDistinct blocks
  pub values : map t.block blocks ≡ vs

-- The same with one of the blocks picked out.
pub record HoldsAt {A : Type 0} (t : Table A) (us : List A) (p : ℕ) (v : A) (ws : List A)
    : Type 0 where
  pub earlier : List ℕ
  pub later : List ℕ
  pub shows : Shows t.list (earlier ++ p ∷ later)
  pub alive : AllLive t.live (earlier ++ p ∷ later)
  pub distinct : AllDistinct (earlier ++ p ∷ later)
  pub earlier_values : map t.block earlier ≡ us
  pub value : t.block p ≡ v
  pub later_values : map t.block later ≡ ws

pub map-append :
    {A B : Type 0} (f : A → B) (xs ys : List A) → map f (xs ++ ys) ≡ map f xs ++ map f ys
map-append f [] ys = refl
map-append f (x ∷ xs) ys = ap (◌∷◌ (f x)) (map-append f xs ys)

pub HoldsAt-Holds :
    {A : Type 0} (t : Table A) (us : List A) (p : ℕ) (v : A) (ws : List A)
    → HoldsAt t us p v ws
    → Holds t (us ++ v ∷ ws)
HoldsAt-Holds t us p v ws h = record {
  blocks = h.earlier ++ p ∷ h.later;
  shows = h.shows;
  alive = h.alive;
  distinct = h.distinct;
  values =
      map-append t.block h.earlier (p ∷ h.later)
      ∙ ap₂ ◌++◌ h.earlier_values (ap₂ ◌∷◌ h.value h.later_values);
}

-- What the record keeps of a list whose memory stays.
relist-Holds :
    {A : Type 0} (t : Table A) (l : FtmList) (vs : List A) (h : Holds t vs)
    → Shows l h.blocks
    → Holds (record t { list = l }) vs
relist-Holds t l vs h k = record {
  blocks = h.blocks;
  shows = k;
  alive = h.alive;
  distinct = h.distinct;
  values = h.values;
}

-- The memory is the same, and so are the unused entries of the list.
pub record SameMemory {A : Type 0} (t t' : Table A) : Type 0 where
  pub block : t'.block ≡ t.block
  pub live : t'.live ≡ t.live
  pub entries : (e : ℕ) → IsFresh t.list e → IsFresh t'.list e

-- What a search finds: nothing, or the first block whose value passes.
pub data Finding {A : Type 0} (test : A → Bool) (t : Table A) (vs : List A) : Type 0 where
  absent :
      (t' : Table A)
      → NoneOf test vs
      → find test t ≡ done ((object_not_found, none), t')
      → Holds t' vs
      → SameMemory t t'
      → Finding test t vs
  present :
      (t' : Table A) (us : List A) (p : ℕ) (v : A) (ws : List A)
      → vs ≡ us ++ v ∷ ws
      → NoneOf test us
      → test v ≡ true
      → find test t ≡ done ((ok, some p), t')
      → HoldsAt t' us p v ws
      → SameMemory t t'
      → Finding test t vs

seeking-Shows :
    {A : Type 0} (test : A → Bool) (t : Table A) (ps : List ℕ)
    → Shows t.list ps
    → Shows (seeking test t) ps
seeking-Shows test t ps s = record {
  entries = s.entries;
  is_list = record {
    chain = s.is_list.chain;
    distinct = s.is_list.distinct;
    no_head = s.is_list.no_head;
    alive = s.is_list.alive;
    counted = s.is_list.counted;
    bounded = s.is_list.bounded;
  };
  items = s.items;
  open_lock = s.open_lock;
}

find_run :
    {A : Type 0} (test : A → Bool) (t : Table A) (vs : List A) (h : Holds t vs)
    → let found = first_of (onwards (λ p. test (t.block p)) h.blocks) in
      (l : FtmList) × (find test t ≡ done (found, record t { list = l }))
      × Shows l h.blocks
      × SameMemory t (record t { list = l })
unfolding find
find_run test t vs h =
    let (l, run, k) =
      get-Finds (seeking test t) 0 (λ p key. test (t.block p)) h.blocks
        (seeking-Shows test t h.blocks h.shows) refl in
    (
      l,
      rw run,
      k,
      record {
        block = refl;
        live = refl;
        entries = λ e f. record {
          not_head = f.not_head;
          unused = get_live (seeking test t) l 0 e _ run ∙ f.unused;
        };
      },
    )

pub find-Finding :
    {A : Type 0} (test : A → Bool) (t : Table A) (vs : List A) → Holds t vs → Finding test t vs
find-Finding {A} test t vs h =
    let (l, run, k, same) = find_run test t vs h in
    go l run k same (split (λ p. test (t.block p)) h.blocks)
  where
    go :
        (l : FtmList)
        → find test t
          ≡ done (first_of (onwards (λ p. test (t.block p)) h.blocks), record t { list = l })
        → Shows l h.blocks
        → SameMemory t (record t { list = l })
        → Split (λ p. test (t.block p)) h.blocks
        → Finding test t vs
    go l run k same (nowhere clear e) =
        absent (record t { list = l }) (rw (← h.values) (NoneOf-map t.block test h.blocks clear))
          (rw e at run) (relist-Holds t l vs h k) same
    go l run k same (at qs p rs e clear passes o) =
        present (record t { list = l }) (map t.block qs) p (t.block p) (map t.block rs)
          (sym h.values ∙ ap (map t.block) e ∙ map-append t.block qs (p ∷ rs))
          (NoneOf-map t.block test qs clear) passes (rw o at run)
          (record {
            earlier = qs;
            later = rs;
            shows = rw e at k;
            alive = rw e at h.alive;
            distinct = rw e at h.distinct;
            earlier_values = refl;
            value = refl;
            later_values = refl;
          })
          same

-- The list's count is the number of values.
pub count-Holds :
    {A : Type 0} (t : Table A) (vs : List A)
    → Holds t vs
    → (t.list.count ≡ length vs) × (length vs < 2 ^ 32)
count-Holds t vs h =
    let size : length h.blocks ≡ length vs =
      sym (length-map t.block h.blocks) ∙ ap length h.values in
    let items : length h.shows.entries ≡ length h.blocks =
      sym (length-map t.list.item h.shows.entries) ∙ ap length h.shows.items in
    (
      omega (arith, h.shows.is_list.counted, items, size),
      omega (arith, h.shows.is_list.bounded, items, size),
    )
