-- ===== src/Analyzer/Watch/Lists.antt =====
-- What attaching and detaching of lib/ftm_analyzer.c do to the list of watched ids.
use catchb.Base.{
  ℕ, ◌+◌, ◌^◌, ◌<◌, ◌≡◌, Bool, none, some, Option, List, [], ◌∷◌, ◌++◌, length, Text, same_case,
  take, Option-cases, inl, inr,
}
use catchb.Run.{Run, done}
use catchb.Ret.{Ret, ok, object_not_found}
use catchb.Table.{Table}
use catchb.Table.Split.{first?, drop_first, drop_first-none}
use catchb.Table.Holds.{Holds, HoldsAt-Holds}
use catchb.Table.Change.{SameMemory-MayAllocate, MayAllocate, add-HoldsAt, take_off-TakesOff}
use catchb.Table.Search.{find-FoundAt, find-NotFound}
use catchb.Analyzer.Watch.{attach, attach_new, attached, detach, detach_found, id_len}

abbrev pub is_watched : (id : Text) → Text → Bool
is_watched id v = same_case v id

-- The ids after an id was attached.
abbrev pub with_id : Option Text → Text → List Text → List Text
with_id (some v) id ids = ids
with_id none id ids = ids ++ take id_len id ∷ []

-- The run returns `r` and leaves these ids.
pub record Leaves (run : Run (Ret × Table Text)) (r : Ret) (ids : List Text) : Type 0 where
  pub after : Table Text
  pub runs : run ≡ done (r, after)
  pub holds : Holds after ids

module _ (t : Table Text) (ids : List Text) (id : Text) (h : Holds t ids) where
  attach_old :
      (memory entry : Option ℕ) (v : Text)
      → first? (is_watched id) ids ≡ some v
      → Leaves (attach memory entry t id) ok ids
  unfolding attach attach_new
  attach_old memory entry v first =
      let f = find-FoundAt (is_watched id) t ids v h first in
      record {
        after = f.after;
        runs = rw f.runs;
        holds = rw f.whole (HoldsAt-Holds f.after f.us f.at v f.ws f.holds);
      }

  attach_fresh :
      (p e : ℕ)
      → MayAllocate t p e
      → length ids + 1 < 2 ^ 32
      → first? (is_watched id) ids ≡ none
      → Leaves (attach (some p) (some e) t id) ok (ids ++ take id_len id ∷ [])
  unfolding attach attach_new attached
  attach_fresh p e m small first =
      let f = find-NotFound (is_watched id) t ids h first in
      let (t', run, k, _) =
        add-HoldsAt f.after p e (take id_len id) ids f.holds
          (SameMemory-MayAllocate t f.after p e f.same m) small in
      record {
        after = t';
        runs = rw f.runs (rw run);
        holds = HoldsAt-Holds t' ids p (take id_len id) [] k;
      }

  -- An id is watched once, whatever the case of its letters.
  pub attach-Leaves :
      (p e : ℕ)
      → MayAllocate t p e
      → length ids + 1 < 2 ^ 32
      → Leaves (attach (some p) (some e) t id) ok (with_id (first? (is_watched id) ids) id ids)
  attach-Leaves p e m small = elim (Option-cases (first? (is_watched id) ids)) [
    | inl new ↦ rw new (attach_fresh p e m small new)
    | inr (v, old) ↦ rw old (attach_old (some p) (some e) v old)
  ]

  -- Without memory a new id is not attached.
  pub attach_null :
      (entry : Option ℕ)
      → first? (is_watched id) ids ≡ none
      → Leaves (attach none entry t id) object_not_found ids
  unfolding attach attach_new
  attach_null entry first =
      let f = find-NotFound (is_watched id) t ids h first in
      record { after = f.after; runs = rw f.runs; holds = f.holds }

  detach_old :
      (v : Text)
      → first? (is_watched id) ids ≡ some v
      → Leaves (detach t id) ok (drop_first (is_watched id) ids)
  unfolding detach detach_found
  detach_old v first =
      let f = find-FoundAt (is_watched id) t ids v h first in
      let off = take_off-TakesOff f.after f.us f.at v f.ws f.holds in
      record {
        after = off.freed;
        runs = rw f.runs (rw off.takes (rw off.frees));
        holds = rw f.drops off.holds;
      }

  detach_unknown : first? (is_watched id) ids ≡ none → Leaves (detach t id) object_not_found ids
  unfolding detach detach_found
  detach_unknown first =
      let f = find-NotFound (is_watched id) t ids h first in
      record { after = f.after; runs = rw f.runs; holds = f.holds }

  -- The first id that is the same goes, if there is one.
  pub detach-Leaves : (r : Ret) × Leaves (detach t id) r (drop_first (is_watched id) ids)
  detach-Leaves = elim (Option-cases (first? (is_watched id) ids)) [
    | inl new ↦
        (object_not_found, rw (drop_first-none (is_watched id) ids new) (detach_unknown new))
    | inr (v, old) ↦ (ok, detach_old v old)
  ]
