-- ===== src/Ssid/Renew.antt =====
-- `FTM_SSID_isValid` of lib/ftm_ssid.c told by the keys that the list holds.
use catchb.Base.{
  ℕ, ◌%◌, ◌^◌, ◌≡◌, refl, true, false, none, some, List, [], Text, inl, inr, Bool-cases,
  Option-cases, if◌then◌else◌,
}
use catchb.Run.{Run, done}
use catchb.Ret.{Ret, ok, invalid_ssid}
use catchb.FtmList.{init}
use catchb.FtmList.Final.{init-Shows}
use catchb.Table.Split.{first?, set_first, drop_first}
use catchb.Table.Holds.{SameMemory, Holds, HoldsAt-Holds}
use catchb.Table.Change.{take_off-TakesOff, store-HoldsAt, load-at}
use catchb.Table.Search.{find-FoundAt, find-NotFound}
use catchb.Ssid.{
  Ssid, Ids, ready, has_key, is_expired, set_up, list_made, drop_off, get_found, get_loaded,
  get_ready, get, valid_found, is_valid,
}

-- The keys that can be used: none before the list is set up.
pub data Serves (s : Ids) (vs : List Ssid) : Type 0 where
  unused : s.initialized ≡ false → vs ≡ [] → Serves s vs
  serving : s.initialized ≡ true → Holds s.ids vs → Serves s vs

pub record Started (s : Ids) (vs : List Ssid) : Type 0 where
  pub after : Ids
  pub runs : set_up ready s ≡ (ok, after)
  pub initialized : after.initialized ≡ true
  pub holds : Holds after.ids vs
  pub same : SameMemory s.ids after.ids

pub set_up-Started : (s : Ids) (vs : List Ssid) → Serves s vs → Started s vs
unfolding set_up list_made init
set_up-Started s vs (unused e none_yet) = record {
  after = record s {
    initialized = true;
    ids = record (s.ids) { list = (init false s.ids.list).1 };
  };
  runs = rw e refl;
  initialized = refl;
  holds = rw none_yet (record {
    blocks = [];
    shows = (init-Shows s.ids.list).1;
    alive = tt;
    distinct = tt;
    values = refl;
  });
  same = record {
    block = refl;
    live = refl;
    entries = λ e f. record { not_head = f.not_head; unused = f.unused };
  };
}
set_up-Started s vs (serving e h) = record {
  after = s;
  runs = rw e refl;
  initialized = e;
  holds = h;
  same = record { block = refl; live = refl; entries = λ e f. f };
}

-- What isValid says and makes of the keys: the first session with the key is dropped if it has
-- expired, and else is dated anew.
unfoldable pub renew : (timeout now later : ℕ) → (key : Text) → List Ssid → Ret × List Ssid
renew timeout now later key vs = elim (first? (has_key key) vs) [
  | none ↦ (invalid_ssid, vs)
  | some v ↦
      if is_expired timeout now v
      then (invalid_ssid, drop_first (has_key key) vs)
      else (ok, set_first (has_key key) (record v { time = later % 2 ^ 32 }) vs)
]

-- What a call returns and leaves.
pub record Leaves (run : Run (Ret × Ids)) (r : Ret) (vs : List Ssid) : Type 0 where
  pub after : Ids
  pub runs : run ≡ done (r, after)
  pub initialized : after.initialized ≡ true
  pub holds : Holds after.ids vs

module _ (timeout now later : ℕ) (key : Text) (s : Ids) (vs : List Ssid) (up : Started s vs) where
  renew_absent :
      first? (has_key key) vs ≡ none
      → Leaves (is_valid ready timeout now later s key) invalid_ssid vs
  unfolding is_valid get get_ready get_found get_loaded valid_found
  renew_absent absent =
      let f = find-NotFound (has_key key) up.after.ids vs up.holds absent in
      record {
        after = record (up.after) { ids = f.after };
        runs = rw up.runs (rw f.runs refl);
        initialized = up.initialized;
        holds = f.holds;
      }

  renew_expired :
      (v : Ssid)
      → first? (has_key key) vs ≡ some v
      → is_expired timeout now v ≡ true
      → Leaves (is_valid ready timeout now later s key) invalid_ssid (drop_first (has_key key) vs)
  unfolding is_valid get get_ready get_found get_loaded valid_found drop_off
  renew_expired v first old =
      let f = find-FoundAt (has_key key) up.after.ids vs v up.holds first in
      let off = take_off-TakesOff f.after f.us f.at v f.ws f.holds in
      record {
        after = record (up.after) { ids = off.freed };
        runs = rw up.runs (
            rw f.runs (
              rw (load-at f.after f.us f.at v f.ws f.holds)
                (rw old (rw off.takes (rw off.frees refl)))));
        initialized = up.initialized;
        holds = rw f.drops off.holds;
      }

  renew_kept :
      (v : Ssid)
      → first? (has_key key) vs ≡ some v
      → is_expired timeout now v ≡ false
      → Leaves
          (is_valid ready timeout now later s key)
          ok
          (set_first (has_key key) (record v { time = later % 2 ^ 32 }) vs)
  unfolding is_valid get get_ready get_found get_loaded valid_found
  renew_kept v first young =
      let f = find-FoundAt (has_key key) up.after.ids vs v up.holds first in
      let loaded = load-at f.after f.us f.at v f.ws f.holds in
      let w = record v { time = later % 2 ^ 32 } in
      let (t, run, k, _) = store-HoldsAt f.after f.us f.at v w f.ws f.holds in
      record {
        after = record (up.after) { ids = t };
        runs = rw up.runs (rw f.runs (rw loaded (rw young (rw loaded (rw run refl)))));
        initialized = up.initialized;
        holds = rw (f.sets w) (HoldsAt-Holds t f.us f.at w f.ws k);
      }

pub is_valid-renew :
    (timeout now later : ℕ) (key : Text) (s : Ids) (vs : List Ssid)
    → Serves s vs
    → let (r, ws) = renew timeout now later key vs in
      Leaves (is_valid ready timeout now later s key) r ws
unfolding renew
is_valid-renew timeout now later key s vs h =
    let up = set_up-Started s vs h in
    elim (Option-cases (first? (has_key key) vs)) [
      | inl absent ↦ rw (absent, renew) (renew_absent timeout now later key s vs up absent)
      | inr (v, first) ↦ elim (Bool-cases (is_expired timeout now v)) [
        | inl old ↦
            rw (first, renew) (rw old (renew_expired timeout now later key s vs up v first old))
        | inr young ↦
            rw (first, renew) (rw young (renew_kept timeout now later key s vs up v first young))
      ]
    ]
