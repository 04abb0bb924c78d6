-- ===== src/Switch/Access.antt =====
-- What `FTM_SWITCH_addAC` and `FTM_SWITCH_deleteAC` do to the list of a switch.
use catchb.Base.{
  ℕ, ◌+◌, ◌^◌, ◌<◌, ◌≤◌, ◌≡◌, refl, sym, ◌∙◌, true, false, some, List, [], ◌∷◌, ◌++◌, Text,
  same_case, take, take_of_length-le, length,
}
use catchb.Run.{Run, done}
use catchb.Ret.{Ret, ok}
use catchb.Switch.{
  Ac, Switch, Policy, deny, allow, get_ac, set_ac, add_ac, delete_ac, added, forget, forget_found,
  ip_len,
}
use catchb.Switch.Listed.{is_listed, DistinctIps, not-is_listed, DistinctIps-last, DistinctIps-drop}
use catchb.Table.Holds.{Holds, HoldsAt-Holds, Finding, absent, present, find-Finding}
use catchb.Table.Change.{MayAllocate, add-HoldsAt, take_off-TakesOff}

-- The switch lists these access controls, no address twice.
pub record Lists (s : Switch) (vs : List Ac) : Type 0 where
  pub holds : Holds s.acs vs
  pub distinct : DistinctIps vs

-- The run returns OK and leaves these access controls and commands.
pub record Becomes (run : Run (Ret × Switch)) (vs : List Ac) (taken : List (Text × Policy))
    : Type 0 where
  pub after : Switch
  pub runs : run ≡ done (ok, after)
  pub lists : Lists after vs
  pub takes : after.taken ≡ taken

abbrev pub took :
    (answer : Ret) → List (Text × Policy) → (ip : Text) → Policy → List (Text × Policy)
took ok taken ip policy = taken ++ (ip, policy) ∷ []
took r taken ip policy = taken

set_ac-took :
    (answer : Ret) (s : Switch) (ip : Text) (policy : Policy)
    → ((set_ac answer s ip policy).1.taken ≡ took answer s.taken ip policy)
      × ((set_ac answer s ip policy).1.acs ≡ s.acs)
unfolding set_ac
set_ac-took ok s ip policy = (refl, refl)
set_ac-took r s ip policy = (refl, refl)

abbrev pub entry_of : Text → Ac
entry_of ip = record { ip = ip; policy = deny }

pub add_ac-Becomes :
    (s : Switch) (vs : List Ac) (ip : Text) (p e : ℕ) (answer : Ret)
    → Lists s vs
    → MayAllocate s.acs p e
    → length ip ≤ ip_len
    → length vs + 1 < 2 ^ 32
    → is_listed ip vs ≡ false
    → Becomes
        (add_ac (some p) (some e) answer s ip deny)
        (vs ++ entry_of ip ∷ [])
        (took answer s.taken ip deny)
unfolding add_ac added
add_ac-Becomes s vs ip p e answer l m short small new =
    let whole : take ip_len ip ≡ ip = take_of_length-le ip_len ip short in
    let (t, run, h, _) = add-HoldsAt s.acs p e (entry_of ip) vs l.holds m small in
    let (takes, acs) = set_ac-took answer (record s { acs = t }) ip deny in
    record {
      after = (set_ac answer (record s { acs = t }) ip deny).1;
      runs = rw whole (rw run);
      lists = record {
        holds = rw acs (HoldsAt-Holds t vs p (entry_of ip) [] h);
        distinct = DistinctIps-last vs (entry_of ip) l.distinct new;
      };
      takes = takes;
    }

-- The entry that the search finds.
pub record Deletes (s : Switch) (vs : List Ac) (ip : Text) : Type 0 where
  pub us : List Ac
  pub v : Ac
  pub ws : List Ac
  pub split : vs ≡ us ++ v ∷ ws
  pub hit : same_case v.ip ip ≡ true
  pub becomes : Becomes (delete_ac ok s ip) (us ++ ws) (s.taken ++ (ip, allow) ∷ [])

pub delete_ac-Deletes :
    (s : Switch) (vs : List Ac) (ip : Text) → Lists s vs → is_listed ip vs ≡ true → Deletes s vs ip
unfolding delete_ac get_ac forget_found forget set_ac
delete_ac-Deletes s vs ip l old = go (find-Finding (λ a. same_case a.ip ip) s.acs vs l.holds)
  where
    go : Finding (λ a. same_case a.ip ip) s.acs vs → Deletes s vs ip
    go (absent t clear run h same) =
        let never : true ≡ false = sym old ∙ not-is_listed ip vs clear in cc never
    go (present t us q v ws e clear hit run h same) =
        let off = take_off-TakesOff t us q v ws h in
        record {
          us = us;
          v = v;
          ws = ws;
          split = e;
          hit = hit;
          becomes = record {
            after = record s { acs = off.freed; taken = s.taken ++ (ip, allow) ∷ [] };
            runs = rw run (rw off.takes (rw off.frees));
            lists = record {
              holds = off.holds;
              distinct = DistinctIps-drop us v ws (rw e at l.distinct);
            };
            takes = refl;
          };
        }
