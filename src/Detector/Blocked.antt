-- ===== src/Detector/Blocked.antt =====
-- Sequences of controls of lib/ftm_detector.c on one switch: which addresses it blocks.
use mathlib.Core.Path.{subst}
use mathlib.Core.List.{reverse, reverse-append}
use catchb.Base.{
  ℕ, ◌+◌, ◌^◌, ◌<◌, ◌≤◌, ◌≡◌, refl, sym, ap, ◌∙◌, Bool, true, false, some, List, [], ◌∷◌, ◌++◌,
  arith, if◌then◌else◌, Text, same_case, same_case_refl, same_case-cong, ◌≢◌, Option, length,
  length-append, Bool-cases, inl, inr,
}
use catchb.Run.{Run, done, done-injective}
use catchb.Ret.{Ret, ok}
use catchb.Switch.{Ac, Switch, Policy, deny, allow, ip_len}
use catchb.Switch.Listed.{
  DistinctIps, is_listed, is_listed-append, is_listed-at, is_listed-cong, is_listed-drop,
}
use catchb.Switch.Access.{Lists, Becomes, took, entry_of}
use catchb.Table.Change.{MayAllocate}
use catchb.Detector.{apply_control}
use catchb.Detector.Steps.{deny_new, deny_old, allow_new, allow_old}

abbrev pub is_deny : Policy → Bool
is_deny deny = true
is_deny allow = false

-- Whether the last command for an address was to block it; the newest command comes first.
abbrev last_denied : Text → List (Text × Policy) → Bool
last_denied j [] = false
last_denied j ((ip, policy) ∷ cs) = if same_case ip j then is_deny policy else last_denied j cs

-- The switch blocks what is listed.
abbrev Agrees : List (Text × Policy) → List Ac → Type 0
Agrees taken vs = (j : Text) → last_denied j (reverse taken) ≡ is_listed j vs

last_denied-last :
    (j : Text) (ip : Text) (policy : Policy) (taken : List (Text × Policy))
    → last_denied j (reverse (taken ++ (ip, policy) ∷ []))
      ≡ (if same_case ip j then is_deny policy else last_denied j (reverse taken))
last_denied-last j ip policy taken = rw reverse-append refl

-- What one control does to the list and to the switch.
pub record Follows (run : Run (Ret × Switch)) (s : Switch) (vs : List Ac) (ip : Text)
    (policy : Policy) : Type 0 where
  pub acs : List Ac
  pub taken : List (Text × Policy)
  pub becomes : Becomes run acs taken
  pub listed :
      (j : Text) → is_listed j acs ≡ (if same_case ip j then is_deny policy else is_listed j vs)
  pub agrees : Agrees s.taken vs → Agrees taken acs
  pub grows : length acs ≤ length vs + 1

freed_listed :
    (vs us : List Ac) (v : Ac) (ws : List Ac) (ip : Text)
    → vs ≡ us ++ v ∷ ws
    → same_case v.ip ip ≡ true
    → DistinctIps vs
    → (j : Text) → is_listed j (us ++ ws) ≡ (if same_case ip j then false else is_listed j vs)
freed_listed vs us v ws ip cut hit d j =
    is_listed-drop us v ws j (rw cut at d) ∙ rw (same_case-cong v.ip ip j hit, ← cut) refl

module _ (s : Switch) (vs : List Ac) (ip : Text) (p e : ℕ) (l : Lists s vs)
    (m : MayAllocate s.acs p e) (short : length ip ≤ ip_len) (small : length vs + 1 < 2 ^ 32) where
  same_list :
      (j : Text) (b : Bool)
      → is_listed ip vs ≡ b
      → is_listed j vs ≡ (if same_case ip j then b else is_listed j vs)
  same_list j b h = elim (Bool-cases (same_case ip j)) [
    | inl alike ↦ rw alike (sym (is_listed-cong ip j vs alike) ∙ h)
    | inr other ↦ rw other
  ]

  denied : Follows (apply_control (some p) (some e) ok s ip deny) s vs ip deny
  denied = elim (Bool-cases (is_listed ip vs)) [
    | inl old ↦ record {
      acs = vs;
      taken = s.taken;
      becomes = deny_old s vs ip l (some p) (some e) ok old;
      listed = λ j. same_list j true old;
      agrees = λ a. a;
      grows = omega arith;
    }
    | inr new ↦
        let added : (j : Text)
            → is_listed j (vs ++ entry_of ip ∷ [])
              ≡ (if same_case ip j then true else is_listed j vs) =
          λ j. ground (arith, is_listed-append j vs (entry_of ip ∷ [])) in
        record {
          acs = vs ++ entry_of ip ∷ [];
          taken = s.taken ++ (ip, deny) ∷ [];
          becomes = deny_new s vs ip l p e ok m short small new;
          listed = added;
          agrees = λ a j. last_denied-last j ip deny s.taken ∙ rw (a j) (sym (added j));
          grows = omega (arith, length-append vs (entry_of ip ∷ []));
        }
  ]

  allowed : Follows (apply_control (some p) (some e) ok s ip allow) s vs ip allow
  allowed = elim (Bool-cases (is_listed ip vs)) [
    | inr new ↦ record {
      acs = vs;
      taken = s.taken;
      becomes = allow_new s vs ip l (some p) (some e) ok new;
      listed = λ j. same_list j false new;
      agrees = λ a. a;
      grows = omega arith;
    }
    | inl old ↦
        let (us, v, ws, cut, hit, b) = allow_old s vs ip l (some p) (some e) old in
        let left = freed_listed vs us v ws ip cut hit l.distinct in
        record {
          acs = us ++ ws;
          taken = s.taken ++ (ip, allow) ∷ [];
          becomes = b;
          listed = left;
          agrees = λ a j. last_denied-last j ip allow s.taken ∙ rw (a j) (sym (left j));
          grows = omega (arith, ap length cut, length-append us ws, length-append us (v ∷ ws));
        }
  ]

  pub follows :
      (policy : Policy) → Follows (apply_control (some p) (some e) ok s ip policy) s vs ip policy
  follows deny = denied
  follows allow = allowed

-- Controls of one switch that it takes, each with memory of its own; the newest comes first.
pub data Controls (s : Switch) : List (Text × Policy) → Switch → Type 0 where
  start : Controls s [] s
  next :
      {t u : Switch} {cs : List (Text × Policy)} (ip : Text) (policy : Policy) (p e : ℕ)
      → Controls s cs t
      → MayAllocate t.acs p e
      → length ip ≤ ip_len
      → apply_control (some p) (some e) ok t ip policy ≡ done (ok, u)
      → Controls s ((ip, policy) ∷ cs) u

-- The switch lists and blocks exactly the addresses that were last denied.
pub record Blocks (u : Switch) (cs : List (Text × Policy)) : Type 0 where
  pub acs : List Ac
  pub lists : Lists u acs
  pub listed : (j : Text) → is_listed j acs ≡ last_denied j cs
  pub blocked : (j : Text) → last_denied j (reverse u.taken) ≡ last_denied j cs
  pub few : length acs ≤ length cs

Follows-Blocks :
    (t u : Switch) (cs : List (Text × Policy)) (ip : Text) (policy : Policy) (b : Blocks t cs)
    (run : Run (Ret × Switch))
    → run ≡ done (ok, u)
    → Follows run t b.acs ip policy
    → Blocks u ((ip, policy) ∷ cs)
Follows-Blocks t u cs ip policy b run e f =
    let same : f.becomes.after ≡ u = ap (λ d. d.1) (done-injective (sym f.becomes.runs ∙ e)) in
    let listed : (j : Text) → is_listed j f.acs ≡ last_denied j ((ip, policy) ∷ cs) =
      λ j. f.listed j ∙ rw (b.listed j) refl in
    let agrees = f.agrees (λ j. b.blocked j ∙ sym (b.listed j)) in
    record {
      acs = f.acs;
      lists = subst (λ k. Lists k f.acs) same f.becomes.lists;
      listed = listed;
      blocked = λ j.
          ap (λ k. last_denied j (reverse k)) (sym (ap (λ k. k.taken) same) ∙ f.becomes.takes)
          ∙ agrees j
          ∙ listed j;
      few = omega (arith, f.grows, b.few);
    }

-- After any sequence of fewer than 2 ^ 32 controls on one switch that started without entries,
-- in which each control had memory of its own and an address of at most 24 characters and the
-- switch took its commands, the switch has one entry for each address whose last control was
-- DENY and for no other, and the last command that it took for an address was to block it
-- exactly if its last control was DENY, addresses compared without regard to case.
pub Controls-Blocks :
    (s u : Switch) (cs : List (Text × Policy))
    → Lists s []
    → s.taken ≡ []
    → Controls s cs u
    → length cs < 2 ^ 32
    → Blocks u cs
Controls-Blocks s u cs l none_taken start few = record {
  acs = [];
  lists = l;
  listed = λ j. refl;
  blocked = λ j. ap (λ k. last_denied j (reverse k)) none_taken;
  few = omega arith;
}
Controls-Blocks s u ((ip, policy) ∷ cs) l none_taken (next {t} ip' policy' p e before m short run)
      few =
    let b = Controls-Blocks s t cs l none_taken before (omega arith) in
    Follows-Blocks t u cs ip policy b _ run
      (follows t b.acs ip p e b.lists m short (omega (arith, b.few)) policy)

took_nothing :
    (answer : Ret) (taken : List (Text × Policy)) (ip : Text) (policy : Policy)
    → answer ≢ ok
    → took answer taken ip policy ≡ taken
took_nothing ok taken ip policy h = absurd (h refl)
took_nothing r taken ip policy h = refl

-- If the switch refuses the command to block an address that has no entry, with memory there
-- and room in the count, the control returns OK, and a later control to block this address
-- returns OK and sends no command, whatever the switch would answer.
block_not_retried :
    (s : Switch) (vs : List Ac) (ip : Text) (p e : ℕ) (answer : Ret)
    → Lists s vs
    → MayAllocate s.acs p e
    → length ip ≤ ip_len
    → length vs + 1 < 2 ^ 32
    → is_listed ip vs ≡ false
    → answer ≢ ok
    → (t : Switch) × (apply_control (some p) (some e) answer s ip deny ≡ done (ok, t))
      × (t.taken ≡ s.taken)
      × ((memory entry : Option ℕ) (later : Ret)
          → (u : Switch) × (apply_control memory entry later t ip deny ≡ done (ok, u))
            × (u.taken ≡ s.taken))
block_not_retried s vs ip p e answer l m short small new refused =
    let b = deny_new s vs ip l p e answer m short small new in
    let listed : is_listed ip (vs ++ entry_of ip ∷ []) ≡ true =
      is_listed-at ip vs (entry_of ip) [] (same_case_refl ip) in
    let nothing = took_nothing answer s.taken ip deny refused in
    (
      b.after,
      b.runs,
      b.takes ∙ nothing,
      λ memory entry later.
          let c = deny_old b.after (vs ++ entry_of ip ∷ []) ip b.lists memory entry later listed in
          (c.after, c.runs, c.takes ∙ b.takes ∙ nothing),
    )
