-- ===== src/Table/Lost.antt =====
-- New blocks that do not come into the list of pointers.
use catchb.Base.{ℕ, ◌≡◌, refl, true, false, none, List, arith, ◌∙◌}
use catchb.Run.{done}
use catchb.Ret.{not_enough_memory}
use catchb.FtmList.{update}
use catchb.FtmList.Shows.{AllLive-update, not-mem_of_unused}
use catchb.FtmList.Insert.{append-null}
use catchb.Table.{Table, add, release, fresh}
use catchb.Table.Holds.{Holds}
use catchb.Table.Change.{map-update}

module _ {A : Type 0} (t : Table A) (p : ℕ) (v : A) (vs : List A) (h : Holds t vs)
    (unused : t.live p ≡ false) where
  -- It can be freed at once.
  pub release-fresh :
      (t' : Table A) × (release (fresh t p v) p ≡ done t') × Holds t' vs × (t'.live p ≡ false)
  unfolding release
  release-fresh =
      let live : update t.live p true p ≡ true = ground arith in
      let out = not-mem_of_unused t.live p h.blocks unused h.alive in
      (
        record (fresh t p v) { live = update (update t.live p true) p false },
        rw live refl,
        record {
          blocks = h.blocks;
          shows = h.shows;
          alive =
              AllLive-update (update t.live p true) p false h.blocks out
                (AllLive-update t.live p true h.blocks out h.alive);
          distinct = h.distinct;
          values = map-update t.block p v h.blocks out ∙ h.values;
        },
        ground arith,
      )

  -- Without memory for the entry the list stays.
  pub add-fresh_null :
      (t' : Table A) × (add none (fresh t p v) p ≡ done (not_enough_memory, fresh t' p v))
      × Holds t' vs
      × (t'.live p ≡ false)
  unfolding add
  add-fresh_null =
      let (l, run, k) = append-null t.list p h.blocks h.shows in
      (
        record t { list = l },
        rw run refl,
        record {
          blocks = h.blocks;
          shows = k;
          alive = h.alive;
          distinct = h.distinct;
          values = h.values;
        },
        unused,
      )
