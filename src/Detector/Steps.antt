-- ===== src/Detector/Steps.antt =====
-- One control of lib/ftm_detector.c on one switch.
use catchb.Base.{
  ℕ, ◌+◌, ◌^◌, ◌<◌, ◌≤◌, ◌≡◌, refl, sym, ◌∙◌, true, false, Option, some, List, [], ◌∷◌, ◌++◌, Text,
  same_case, length,
}
use catchb.Ret.{Ret, ok}
use catchb.Switch.{Ac, Switch, deny, allow, get_ac, ip_len}
use catchb.Switch.Listed.{is_listed, is_listed-at, not-is_listed}
use catchb.Switch.Access.{Lists, Becomes, took, entry_of, add_ac-Becomes, delete_ac-Deletes}
use catchb.Table.Holds.{HoldsAt-Holds, Finding, absent, present, find-Finding}
use catchb.Table.Change.{MayAllocate}
use catchb.Detector.{apply_control, on_found}

-- The address searched for: the switch as the search leaves it.
Searched : Switch → List Ac → Text → Type 0
Searched s vs ip = Finding (λ a. same_case a.ip ip) s.acs vs

module _ (s : Switch) (vs : List Ac) (ip : Text) (l : Lists s vs) where
  search_acs : Searched s vs ip
  unfolding Searched
  search_acs = find-Finding (λ a. same_case a.ip ip) s.acs vs l.holds

  -- A new address is listed, whatever the switch answers.
  pub deny_new :
      (p e : ℕ) (answer : Ret)
      → MayAllocate s.acs p e
      → length ip ≤ ip_len
      → length vs + 1 < 2 ^ 32
      → is_listed ip vs ≡ false
      → Becomes
          (apply_control (some p) (some e) answer s ip deny)
          (vs ++ entry_of ip ∷ [])
          (took answer s.taken ip deny)
  unfolding apply_control get_ac on_found Searched
  deny_new p e answer m short small new = go search_acs
    where
      go :
          Searched s vs ip
          → Becomes
              (apply_control (some p) (some e) answer s ip deny)
              (vs ++ entry_of ip ∷ [])
              (took answer s.taken ip deny)
      go (present t us q v ws cut clear hit run h same) =
          let old : is_listed ip vs ≡ true = rw cut (is_listed-at ip us v ws hit) in
          let never : true ≡ false = sym old ∙ new in cc never
      go (absent t clear run h same) =
          let m' : MayAllocate t p e = record {
            unused_block = rw same.live m.unused_block;
            entry = same.entries e m.entry;
          } in
          let b =
            add_ac-Becomes (record s { acs = t }) vs ip p e answer
              (record { holds = h; distinct = l.distinct }) m' short small new in
          record { after = b.after; runs = rw run b.runs; lists = b.lists; takes = b.takes }

  -- For an address that is listed already the switch is told nothing.
  pub deny_old :
      (memory entry : Option ℕ) (answer : Ret)
      → is_listed ip vs ≡ true
      → Becomes (apply_control memory entry answer s ip deny) vs s.taken
  unfolding apply_control get_ac on_found Searched
  deny_old memory entry answer old = go search_acs
    where
      go : Searched s vs ip → Becomes (apply_control memory entry answer s ip deny) vs s.taken
      go (absent t clear run h same) =
          let never : true ≡ false = sym old ∙ not-is_listed ip vs clear in cc never
      go (present t us q v ws cut clear hit run h same) = record {
        after = record s { acs = t };
        runs = rw run;
        lists = record { holds = rw cut (HoldsAt-Holds t us q v ws h); distinct = l.distinct };
        takes = refl;
      }

  -- Nor for one that is to be free and is not listed.
  pub allow_new :
      (memory entry : Option ℕ) (answer : Ret)
      → is_listed ip vs ≡ false
      → Becomes (apply_control memory entry answer s ip allow) vs s.taken
  unfolding apply_control get_ac on_found Searched
  allow_new memory entry answer new = go search_acs
    where
      go : Searched s vs ip → Becomes (apply_control memory entry answer s ip allow) vs s.taken
      go (present t us q v ws cut clear hit run h same) =
          let old : is_listed ip vs ≡ true = rw cut (is_listed-at ip us v ws hit) in
          let never : true ≡ false = sym old ∙ new in cc never
      go (absent t clear run h same) = record {
        after = record s { acs = t };
        runs = rw run;
        lists = record { holds = h; distinct = l.distinct };
        takes = refl;
      }

  -- A listed address is freed, and goes.
  pub allow_old :
      (memory entry : Option ℕ)
      → is_listed ip vs ≡ true
      → (us : List Ac) × (v : Ac) × (ws : List Ac) × (vs ≡ us ++ v ∷ ws)
        × (same_case v.ip ip ≡ true)
        × Becomes
            (apply_control memory entry ok s ip allow)
            (us ++ ws)
            (s.taken ++ (ip, allow) ∷ [])
  unfolding apply_control get_ac on_found Searched
  allow_old memory entry old = go search_acs
    where
      go :
          Searched s vs ip
          → (us : List Ac) × (v : Ac) × (ws : List Ac) × (vs ≡ us ++ v ∷ ws)
            × (same_case v.ip ip ≡ true)
            × Becomes
                (apply_control memory entry ok s ip allow)
                (us ++ ws)
                (s.taken ++ (ip, allow) ∷ [])
      go (absent t clear run h same) =
          let never : true ≡ false = sym old ∙ not-is_listed ip vs clear in cc never
      go (present t us q v ws cut clear hit run h same) =
          let d =
            delete_ac-Deletes (record s { acs = t }) vs ip
              (record { holds = rw cut (HoldsAt-Holds t us q v ws h); distinct = l.distinct })
              old in
          (
            d.us,
            d.v,
            d.ws,
            d.split,
            d.hit,
            record {
              after = d.becomes.after;
              runs = rw run (rw d.becomes.runs);
              lists = d.becomes.lists;
              takes = d.becomes.takes;
            },
          )
