-- ===== src/Table/Change.antt =====
-- Adding, taking off, freeing and writing blocks of a list of pointers.
use mathlib.Core.Path.{ap₂}
use catchb.Base.{
  ℕ, ◌+◌, ◌^◌, ◌<◌, ◌≡◌, refl, sym, ap, ◌∙◌, true, false, none, some, List, [], ◌∷◌, ◌++◌, map,
  arith, length, length-map, ◌==◌,
}
use catchb.Run.{done}
use catchb.Ret.{ok, not_enough_memory}
use catchb.FtmList.{update}
use catchb.FtmList.Links.{◌∉◌, has-append}
use catchb.FtmList.Shows.{IsFresh, AllLive-update, AllLive-join, AllLive-append, not-mem_of_unused}
use catchb.FtmList.Insert.{append-Shows, append-null}
use catchb.Table.Distinct.{
  AllDistinct-left, AllDistinct-right, AllDistinct-drop, AllDistinct-last, remove_found,
}
use catchb.Table.{Table, add, take_off, release, load, store, fresh}
use catchb.Table.Holds.{SameMemory, Holds, HoldsAt, map-append}

pub map-update :
    {A : Type 0} (f : ℕ → A) (p : ℕ) (v : A) (xs : List ℕ)
    → p ∉ xs
    → map (update f p v) xs ≡ map f xs
map-update f p v [] h = refl
map-update f p v (x ∷ xs) h =
    let other : (x == p) ≡ false = ground arith in
    ap₂ ◌∷◌ (rw other) (map-update f p v xs (ground arith))

update_self : {A : Type 0} (f : ℕ → A) (p : ℕ) (v : A) → update f p v p ≡ v
update_self f p v = let e : (p == p) ≡ true = ground arith in rw e

-- What `malloc` may return for a record and for the entry of the list.
pub record MayAllocate {A : Type 0} (t : Table A) (p e : ℕ) : Type 0 where
  pub unused_block : t.live p ≡ false
  pub entry : IsFresh t.list e

-- A fresh block becomes the last.
pub add-HoldsAt :
    {A : Type 0} (t : Table A) (p e : ℕ) (v : A) (vs : List A)
    → Holds t vs
    → MayAllocate t p e
    → length vs + 1 < 2 ^ 32
    → (t' : Table A) × (add (some e) (fresh t p v) p ≡ done (ok, t'))
      × HoldsAt t' vs p v []
      × (t'.live p ≡ true)
unfolding add
add-HoldsAt t p e v vs h m small =
    let size : length h.blocks ≡ length vs =
      sym (length-map t.block h.blocks) ∙ ap length h.values in
    let out = not-mem_of_unused t.live p h.blocks m.unused_block h.alive in
    let (l, run, k) = append-Shows t.list e p h.blocks h.shows m.entry (omega (arith, size)) in
    let in_use : update t.live p true p ≡ true = ground arith in
    (
      record (fresh t p v) { list = l },
      rw run,
      record {
        earlier = h.blocks;
        later = [];
        shows = k;
        alive =
            AllLive-join (update t.live p true) h.blocks (p ∷ [])
              (AllLive-update t.live p true h.blocks out h.alive) (in_use, tt);
        distinct = AllDistinct-last p h.blocks h.distinct out;
        earlier_values = map-update t.block p v h.blocks out ∙ h.values;
        value = update_self t.block p v;
        later_values = refl;
      },
      in_use,
    )

-- Without memory for the entry nothing is added.
pub add-null :
    {A : Type 0} (t : Table A) (p : ℕ) (vs : List A)
    → Holds t vs
    → (t' : Table A) × (add none t p ≡ done (not_enough_memory, t'))
      × Holds t' vs
      × (t'.live ≡ t.live)
unfolding add
add-null t p vs h =
    let (l, run, k) = append-null t.list p h.blocks h.shows in
    (
      record t { list = l },
      rw run,
      record {
        blocks = h.blocks;
        shows = k;
        alive = h.alive;
        distinct = h.distinct;
        values = h.values;
      },
      refl,
    )

-- The block that is picked out is live.
pub live-at :
    {A : Type 0} (t : Table A) (us : List A) (p : ℕ) (v : A) (ws : List A)
    → HoldsAt t us p v ws
    → t.live p ≡ true
live-at t us p v ws h = (AllLive-append t.live h.earlier (p ∷ h.later) h.alive).1.0

-- The block is taken off the list, which keeps the others, and can then be freed.
pub record TakesOff {A : Type 0} (t : Table A) (p : ℕ) (vs : List A) : Type 0 where
  pub taken : Table A
  pub freed : Table A
  pub takes : take_off t p ≡ done (ok, taken)
  pub frees : release taken p ≡ done freed
  pub holds : Holds freed vs
  pub block : taken.block ≡ t.block
  pub live : taken.live ≡ t.live
  pub dead : freed.live p ≡ false

pub take_off-TakesOff :
    {A : Type 0} (t : Table A) (us : List A) (p : ℕ) (v : A) (ws : List A)
    → HoldsAt t us p v ws
    → TakesOff t p (us ++ ws)
unfolding take_off release
take_off-TakesOff t us p v ws h =
    let left = AllDistinct-left p h.earlier h.later h.distinct in
    let right = AllDistinct-right p h.earlier h.later h.distinct in
    let (l, run, k) = remove_found t p h.earlier h.later h.shows left in
    let (before, from) = AllLive-append t.live h.earlier (p ∷ h.later) h.alive in
    let out : p ∉ h.earlier ++ h.later = ground (arith, has-append p h.earlier h.later) in
    let others = AllLive-join t.live h.earlier h.later before from.1 in
    record {
      taken = record t { list = l };
      freed = record t { list = l; live = update t.live p false };
      takes = rw run;
      frees = rw from.0;
      holds = record {
        blocks = h.earlier ++ h.later;
        shows = k;
        alive = AllLive-update t.live p false (h.earlier ++ h.later) out others;
        distinct = AllDistinct-drop p h.earlier h.later h.distinct;
        values = map-append t.block h.earlier h.later ∙ ap₂ ◌++◌ h.earlier_values h.later_values;
      };
      block = refl;
      live = refl;
      dead = update_self t.live p false;
    }

-- A write through the pointer changes this value alone.
pub store-HoldsAt :
    {A : Type 0} (t : Table A) (us : List A) (p : ℕ) (v w : A) (ws : List A)
    → HoldsAt t us p v ws
    → (t' : Table A) × (store t p w ≡ done t') × HoldsAt t' us p w ws × (t'.live ≡ t.live)
unfolding store
store-HoldsAt t us p v w ws h =
    let left = AllDistinct-left p h.earlier h.later h.distinct in
    let right = AllDistinct-right p h.earlier h.later h.distinct in
    (
      record t { block = update t.block p w },
      rw (live-at t us p v ws h),
      record {
        earlier = h.earlier;
        later = h.later;
        shows = h.shows;
        alive = h.alive;
        distinct = h.distinct;
        earlier_values = map-update t.block p w h.earlier left ∙ h.earlier_values;
        value = update_self t.block p w;
        later_values = map-update t.block p w h.later right ∙ h.later_values;
      },
      refl,
    )

pub load-at :
    {A : Type 0} (t : Table A) (us : List A) (p : ℕ) (v : A) (ws : List A)
    → HoldsAt t us p v ws
    → load t p ≡ done v
unfolding load
load-at t us p v ws h = rw (live-at t us p v ws h) (ap done h.value)

pub SameMemory-MayAllocate :
    {A : Type 0} (t t' : Table A) (p e : ℕ)
    → SameMemory t t'
    → MayAllocate t p e
    → MayAllocate t' p e
SameMemory-MayAllocate t t' p e same m = record {
  unused_block = rw same.live m.unused_block;
  entry = same.entries e m.entry;
}

-- Writing a block that is in no list changes nothing.
pub unused-Holds :
    {A : Type 0} (t : Table A) (p : ℕ) (v : A) (vs : List A)
    → Holds t vs
    → t.live p ≡ false
    → Holds (record t { block = update t.block p v }) vs
unused-Holds t p v vs h unused = record {
  blocks = h.blocks;
  shows = h.shows;
  alive = h.alive;
  distinct = h.distinct;
  values =
      map-update t.block p v h.blocks (not-mem_of_unused t.live p h.blocks unused h.alive)
      ∙ h.values;
}

-- Nor does making a block of it that is not added.
pub fresh-Holds :
    {A : Type 0} (t : Table A) (p : ℕ) (v : A) (vs : List A)
    → Holds t vs
    → t.live p ≡ false
    → Holds (fresh t p v) vs
fresh-Holds t p v vs h unused =
    let out = not-mem_of_unused t.live p h.blocks unused h.alive in
    record {
      blocks = h.blocks;
      shows = h.shows;
      alive = AllLive-update t.live p true h.blocks out h.alive;
      distinct = h.distinct;
      values = map-update t.block p v h.blocks out ∙ h.values;
    }
