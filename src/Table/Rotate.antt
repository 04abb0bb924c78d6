-- ===== src/Table/Rotate.antt =====
-- The first block of a list of pointers, and its way to the end.
use mathlib.Core.Path.{ap₂}
use catchb.Base.{
  ℕ, ◌+◌, ◌^◌, ◌<◌, ◌≡◌, refl, sym, ap, ◌∙◌, some, List, [], ◌∷◌, ◌++◌, map, arith, length,
  length-map,
}
use catchb.Run.{done}
use catchb.Ret.{ok}
use catchb.FtmList.Links.{AllDistinct, ◌∉◌, has-append}
use catchb.FtmList.Walk.{AllLive}
use catchb.FtmList.Shows.{Shows, IsFresh, AllLive-join, AllLive-append}
use catchb.FtmList.Insert.{append-Shows}
use catchb.FtmList.Read.{get_at-Finds}
use catchb.FtmList.Unused.{get_at_live, remove_unused}
use catchb.Table.{Table, add, take_off, load, nth}
use catchb.Table.Holds.{Holds, HoldsAt, map-append}
use catchb.Table.Distinct.{
  AllDistinct-left, AllDistinct-right, AllDistinct-drop, AllDistinct-last, remove_found,
}

module _ {A : Type 0} where
  -- The first value is read.
  pub record First (t : Table A) (v : A) (vs : List A) : Type 0 where
    pub after : Table A
    pub at : ℕ
    pub runs : nth 0 t ≡ done ((ok, some at), after)
    pub loads : load after at ≡ done v
    pub holds : HoldsAt after [] at v vs
    pub entries : (e : ℕ) → IsFresh t.list e → IsFresh after.list e

  pub nth-First : (t : Table A) (v : A) (vs : List A) → Holds t (v ∷ vs) → First t v vs
  unfolding nth load
  nth-First t v vs h = go h.blocks h.shows h.alive h.distinct h.values
    where
      go :
          (ps : List ℕ)
          → Shows t.list ps
          → AllLive t.live ps
          → AllDistinct ps
          → map t.block ps ≡ v ∷ vs
          → First t v vs
      go [] shows alive distinct values = cc
      go (p ∷ ps) shows alive distinct values =
          let (l, run, k) = get_at-Finds t.list 0 (p ∷ ps) shows in
          record {
            after = record t { list = l };
            at = p;
            runs = rw run refl;
            loads = rw (alive.0) (ap done (cc));
            holds = record {
              earlier = [];
              later = ps;
              shows = k;
              alive = alive;
              distinct = distinct;
              earlier_values = refl;
              value = cc;
              later_values = cc;
            };
            entries = λ e f. record {
              not_head = f.not_head;
              unused = get_at_live t.list l 0 e _ run ∙ f.unused;
            };
          }

  -- The block is taken off, and put back at the end.
  pub record Turned (t : Table A) (p e : ℕ) (vs : List A) : Type 0 where
    pub off : Table A
    pub after : Table A
    pub takes : take_off t p ≡ done (ok, off)
    pub adds : add (some e) off p ≡ done (ok, after)
    pub holds : Holds after vs

  pub take_off-Turned :
      (t : Table A) (us : List A) (p e : ℕ) (v : A) (ws : List A)
      → HoldsAt t us p v ws
      → IsFresh t.list e
      → length (us ++ ws) + 1 < 2 ^ 32
      → Turned t p e ((us ++ ws) ++ v ∷ [])
  unfolding take_off add
  take_off-Turned t us p e v ws h fresh small =
      let left = AllDistinct-left p h.earlier h.later h.distinct in
      let right = AllDistinct-right p h.earlier h.later h.distinct in
      let (l, run, k) = remove_found t p h.earlier h.later h.shows left in
      let (before, from) = AllLive-append t.live h.earlier (p ∷ h.later) h.alive in
      let out : p ∉ h.earlier ++ h.later = ground (arith, has-append p h.earlier h.later) in
      let values : map t.block (h.earlier ++ h.later) ≡ us ++ ws =
        map-append t.block h.earlier h.later ∙ ap₂ ◌++◌ h.earlier_values h.later_values in
      let size : length (h.earlier ++ h.later) ≡ length (us ++ ws) =
        sym (length-map t.block (h.earlier ++ h.later)) ∙ ap length values in
      let free : IsFresh l e = record {
        not_head = fresh.not_head;
        unused = remove_unused t.list l p e _ run fresh.unused;
      } in
      let (l', run', k') =
        append-Shows l e p (h.earlier ++ h.later) k free (omega (arith, size, small)) in
      record {
        off = record t { list = l };
        after = record t { list = l' };
        takes = rw run refl;
        adds = rw run' refl;
        holds = record {
          blocks = (h.earlier ++ h.later) ++ p ∷ [];
          shows = k';
          alive =
              AllLive-join t.live (h.earlier ++ h.later) (p ∷ [])
                (AllLive-join t.live h.earlier h.later before from.1) (from.0, tt);
          distinct =
              AllDistinct-last p (h.earlier ++ h.later)
                (AllDistinct-drop p h.earlier h.later h.distinct) out;
          values =
              map-append t.block (h.earlier ++ h.later) (p ∷ [])
              ∙ ap₂ ◌++◌ values (ap (λ x. x ∷ []) h.value);
        };
      }
