-- ===== src/Switch/Listed.antt =====
-- Which addresses a list of access controls names, up to case.
use catchb.Base.{
  ◌≡◌, refl, sym, ◌∙◌, Bool, true, false, ◌||◌, List, [], ◌∷◌, ◌++◌, arith, if◌then◌else◌, Text,
  same_case, same_case-cong, same_case_comm, Bool-cases, inl, inr,
}
use catchb.Switch.{Ac}
use catchb.Table.Split.{NoneOf}

abbrev pub is_listed : Text → List Ac → Bool
is_listed ip [] = false
is_listed ip (a ∷ vs) = same_case a.ip ip || is_listed ip vs

-- No address stands there twice.
abbrev pub DistinctIps : List Ac → Type 0
DistinctIps [] = Unit {0}
DistinctIps (a ∷ vs) = (is_listed a.ip vs ≡ false) × DistinctIps vs

pub is_listed-append :
    (ip : Text) (us vs : List Ac) → is_listed ip (us ++ vs) ≡ (is_listed ip us || is_listed ip vs)
is_listed-append ip [] vs = refl
is_listed-append ip (a ∷ us) vs = ground (arith, is_listed-append ip us vs)

pub is_listed-cong :
    (s t : Text) (vs : List Ac) → same_case s t ≡ true → is_listed s vs ≡ is_listed t vs
is_listed-cong s t [] h = refl
is_listed-cong s t (a ∷ vs) h = ground (
  arith,
  is_listed-cong s t vs,
  same_case_comm a.ip s,
  same_case_comm a.ip t,
  same_case-cong s t a.ip h,
)

pub not-is_listed :
    (ip : Text) (vs : List Ac) → NoneOf (λ a. same_case a.ip ip) vs → is_listed ip vs ≡ false
not-is_listed ip [] h = refl
not-is_listed ip (a ∷ vs) h = ground (arith, not-is_listed ip vs)

pub is_listed-at :
    (ip : Text) (us : List Ac) (v : Ac) (ws : List Ac)
    → same_case v.ip ip ≡ true
    → is_listed ip (us ++ v ∷ ws) ≡ true
is_listed-at ip us v ws h = ground (arith, is_listed-append ip us (v ∷ ws))

-- A new address goes to the end.
pub DistinctIps-last :
    (vs : List Ac) (v : Ac)
    → DistinctIps vs
    → is_listed v.ip vs ≡ false
    → DistinctIps (vs ++ v ∷ [])
DistinctIps-last [] v d h = (refl, tt)
DistinctIps-last (a ∷ vs) v d h = (
  ground (arith, is_listed-append a.ip vs (v ∷ []), same_case_comm a.ip v.ip),
  DistinctIps-last vs v d.1 (ground arith),
)

-- Taking the entry out: its address is gone, and no other is.
pub DistinctIps-drop :
    (us : List Ac) (v : Ac) (ws : List Ac) → DistinctIps (us ++ v ∷ ws) → DistinctIps (us ++ ws)
DistinctIps-drop [] v ws d = d.1
DistinctIps-drop (a ∷ us) v ws d = (
  ground (arith, is_listed-append a.ip us (v ∷ ws), is_listed-append a.ip us ws),
  DistinctIps-drop us v ws d.1,
)

pub is_listed-drop :
    (us : List Ac) (v : Ac) (ws : List Ac) (ip : Text)
    → DistinctIps (us ++ v ∷ ws)
    → is_listed ip (us ++ ws) ≡ (if same_case v.ip ip then false else is_listed ip (us ++ v ∷ ws))
is_listed-drop [] v ws ip d = elim (Bool-cases (same_case v.ip ip)) [
  | inl alike ↦ rw alike (sym (is_listed-cong v.ip ip ws alike) ∙ d.0)
  | inr other ↦ rw other
]
is_listed-drop (a ∷ us) v ws ip d = elim (Bool-cases (same_case v.ip ip)) [
  | inl alike ↦ ground (
    arith,
    is_listed-append a.ip us (v ∷ ws),
    same_case-cong v.ip ip a.ip alike,
    same_case_comm a.ip ip,
    is_listed-drop us v ws ip d.1,
  )
  | inr other ↦ ground (arith, is_listed-drop us v ws ip d.1)
]
