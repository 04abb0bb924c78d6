-- ===== src/Ssid/Others.antt =====
-- What one call of isValid in lib/ftm_ssid.c does to the session of its key and to the others.
use catchb.Base.{
  ℕ, ◌%◌, ◌^◌, ◌≡◌, refl, ◌∙◌, true, false, none, some, List, Text, same, same_iff, inl, inr, arith,
  Bool-cases, Option-cases,
}
use catchb.Ret.{ok, invalid_ssid}
use catchb.Table.Split.{first?, set_first, drop_first, first?-hit}
use catchb.Table.Disjoint.{
  first?-set_first_other, first?-drop_first_other, drop_first-set_first_other,
  drop_first-drop_first_other,
}
use catchb.Ssid.{Ssid, has_key, is_expired}
use catchb.Ssid.Renew.{renew}

apart :
    (k key : Text) → same key k ≡ false → (x : Ssid) → has_key k x ≡ true → has_key key x ≡ false
apart k key other x hit = ground (arith, same_iff x.key k, same_iff x.key key, same_iff key k)

-- What the other clients do leaves the session of this key alone.
module _ (timeout now : ℕ) (k key : Text) (other : same key k ≡ false) (vs : List Ssid) where
  pub renew-first? : first? (has_key key) (renew timeout now now k vs).1 ≡ first? (has_key key) vs
  unfolding renew
  renew-first? = elim (Option-cases (first? (has_key k) vs)) [
    | inl absent ↦ rw (absent, renew) refl
    | inr (v, first) ↦ elim (Bool-cases (is_expired timeout now v)) [
      | inl old ↦
          rw (first, renew)
            (rw old (first?-drop_first_other (has_key k) (has_key key) (apart k key other) vs))
      | inr young ↦
          rw (first, renew)
            (rw young (
              first?-set_first_other (has_key k) (has_key key) (apart k key other)
                (record v { time = now % 2 ^ 32 }) vs (first?-hit (has_key k) vs v first)))
    ]
  ]

  -- That there is one session with the key at most stays true.
  pub renew-drop_first :
      first? (has_key key) (drop_first (has_key key) vs) ≡ none
      → first? (has_key key) (drop_first (has_key key) (renew timeout now now k vs).1) ≡ none
  unfolding renew
  renew-drop_first once = elim (Option-cases (first? (has_key k) vs)) [
    | inl absent ↦ rw (absent, renew) once
    | inr (v, first) ↦ elim (Bool-cases (is_expired timeout now v)) [
      | inl old ↦
          rw (first, renew)
            (rw old (
              rw (drop_first-drop_first_other (has_key k) (has_key key) (apart k key other) vs) (
                first?-drop_first_other (has_key k) (has_key key) (apart k key other)
                  (drop_first (has_key key) vs)
                ∙ once)))
      | inr young ↦
          let w = record v { time = now % 2 ^ 32 } in
          let hit = first?-hit (has_key k) vs v first in
          rw (first, renew)
            (rw young (
              rw (drop_first-set_first_other (has_key k) (has_key key) (apart k key other) w vs hit)
                (first?-set_first_other (has_key k) (has_key key) (apart k key other) w
                    (drop_first (has_key key) vs) hit
                  ∙ once)))
    ]
  ]

-- The three outcomes of a call.
module _ (timeout now : ℕ) (key : Text) (vs : List Ssid) where
  pub renew_unknown :
      first? (has_key key) vs ≡ none → renew timeout now now key vs ≡ (invalid_ssid, vs)
  unfolding renew
  renew_unknown absent = rw (absent, renew) refl

  pub renew_old :
      (v : Ssid)
      → first? (has_key key) vs ≡ some v
      → is_expired timeout now v ≡ true
      → renew timeout now now key vs ≡ (invalid_ssid, drop_first (has_key key) vs)
  unfolding renew
  renew_old v first old = rw (first, renew) (rw old refl)

  pub renew_young :
      (v : Ssid)
      → first? (has_key key) vs ≡ some v
      → is_expired timeout now v ≡ false
      → renew timeout now now key vs
        ≡ (ok, set_first (has_key key) (record v { time = now % 2 ^ 32 }) vs)
  unfolding renew
  renew_young v first young = rw (first, renew) (rw young refl)
