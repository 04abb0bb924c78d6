-- ===== src/Switch.antt =====
-- The access control of lib/ftm_switch.c: each switch keeps the list of the addresses that it was
-- told about. What `FTM_SWITCH_setAC` says after its script and its session is the argument
-- `answer`, and `taken` are the commands that the switch took, in order.
pub mod Listed
pub mod Access
use catchb.Base.{
  ℕ, Bool, true, false, Option, none, some, List, [], ◌∷◌, ◌++◌, Text, same_case, take,
}
use catchb.Run.{Run, done, fault, ◌>>=◌}
use catchb.Ret.{Ret, ok, not_enough_memory}
use catchb.FtmList.Access.{Found}
use catchb.Table.{Table, find, add, take_off, release, fresh}

pub data Policy : Type 0 where
  deny allow : Policy

pub record Ac : Type 0 where
  pub ip : Text
  pub policy : Policy

pub record Switch : Type 0 where
  pub acs : Table Ac
  pub taken : List (Text × Policy)

-- `FTM_IP_LEN`
abbrev pub ip_len : ℕ
ip_len = 24

unfoldable pub get_ac : Switch → (ip : Text) → Run (Found × Switch)
unfolding find
get_ac s ip = do (f, t) ← find (λ a. same_case a.ip ip) s.acs; done (f, record s { acs = t })

unfoldable pub set_ac : (answer : Ret) → Switch → (ip : Text) → Policy → Ret × Switch
set_ac ok s ip policy = (ok, record s { taken = s.taken ++ (ip, policy) ∷ [] })
set_ac r s ip policy = (r, s)

-- Whatever the switch answers, a listed entry means OK.
added :
    (answer : Ret) → Switch → (ip : Text) → Policy → (p : ℕ) → Ret × Table Ac → Run (Ret × Switch)
unfolding set_ac release
added answer s ip policy p (ok, t) = done (ok, (set_ac answer (record s { acs = t }) ip policy).1)
added answer s ip policy p (r, t) = do t' ← release t p; done (r, record s { acs = t' })

unfoldable pub add_ac :
    (memory entry : Option ℕ) → (answer : Ret) → Switch → (ip : Text) → Policy → Run (Ret × Switch)
unfolding add added
add_ac none entry answer s ip policy = done (not_enough_memory, s)
add_ac (some p) entry answer s ip policy = do
  r ← add entry (fresh s.acs p (record { ip = take ip_len ip; policy = policy })) p
  added answer s ip policy p r

-- The entry goes if the switch took the command.
forget : Ret × Switch → (p : ℕ) → Run (Ret × Switch)
unfolding take_off release
forget (ok, s) p = do
  (r, t) ← take_off s.acs p
  elim r [
    | ok ↦ do t' ← release t p; done (ok, record s { acs = t' })
    | other ↦ done (other, record s { acs = t })
  ]
forget (r, s) p = done (r, s)

forget_found : (answer : Ret) → (ip : Text) → Found × Switch → Run (Ret × Switch)
unfolding forget set_ac
forget_found answer ip ((ok, some p), s) = forget (set_ac answer s ip allow) p
forget_found answer ip ((ok, none), s) = fault
forget_found answer ip ((r, p), s) = done (r, s)

unfoldable pub delete_ac : (answer : Ret) → Switch → (ip : Text) → Run (Ret × Switch)
unfolding get_ac forget_found
delete_ac answer s ip = do f ← get_ac s ip; forget_found answer ip f
