-- ===== src/Ssid/Create.antt =====
-- `FTM_SSID_create` of lib/ftm_ssid.c, and the life of the key that it makes.
use catchb.Base.{
  ℕ, ◌+◌, ◌%◌, ◌^◌, ◌<◌, ◌≡◌, refl, true, Option, none, some, List, [], ◌∷◌, ◌++◌, map, Text,
  same_refl, take, length, length-take, take_of_length-le, arith, inl, inr, Option-cases,
}
use catchb.Run.{done}
use catchb.Ret.{Ret, ok, invalid_ssid}
use catchb.Table.{fresh}
use catchb.Table.Split.{first?, first?-last, drop_first-last}
use catchb.Table.Holds.{Holds, HoldsAt-Holds}
use catchb.Table.Change.{MayAllocate, SameMemory-MayAllocate, add-HoldsAt, add-null, fresh-Holds}
use catchb.Hash.{hash_sha1, print_words}
use catchb.Ssid.{
  Ssid, Ids, Memory, ready, has_key, session_id_len, seed_of, new_key, create, create_ready,
  create_seeded,
}
use catchb.Ssid.Renew.{Serves, set_up-Started}
use catchb.Ssid.Life.{uses, uses-life, uses-dead, own, own_times, life, InOrder}

-- `strncpy` takes the whole key, since the hash has filled no more.
take-new_key :
    (digest : Text → Option (List ℕ)) (seed : Text)
    → take session_id_len (new_key digest seed) ≡ new_key digest seed
unfolding hash_sha1
take-new_key digest seed = elim (Option-cases (digest seed)) [
  | inl e ↦ rw (e, hash_sha1) refl
  | inr (words, e) ↦
      let t = print_words 0 words in
      rw (e, hash_sha1)
        (take_of_length-le session_id_len (take session_id_len t)
          (omega (arith, length-take session_id_len t)))
]

-- The session that create makes.
unfoldable pub made :
    (digest : Text → Option (List ℕ)) → (now : ℕ) → (id passwd : Option Text) → (p : ℕ) → Ssid
unfolding seed_of
made digest now id passwd p =
    let time = now % 2 ^ 32 in
    record { key = new_key digest (seed_of id passwd time p); time = time }

module _ (digest : Text → Option (List ℕ)) (now : ℕ) (id passwd : Option Text) (s : Ids)
    (vs : List Ssid) (h : Serves s vs) (p e : ℕ) (m : MayAllocate s.ids p e) where
  -- What create returns and leaves.
  pub record Creates (memory : Memory) (ws : List Ssid) : Type 0 where
    pub after : Ids
    pub runs :
        create digest ready memory now id passwd s
        ≡ done ((ok, some ((made digest now id passwd p).key)), after)
    pub initialized : after.initialized ≡ true
    pub holds : Holds after.ids ws

  pub create-Creates :
      length vs + 1 < 2 ^ 32
      → Creates
          (record { ssid = some p; seed = true; entry = some e })
          (vs ++ (made digest now id passwd p) ∷ [])
  unfolding create create_ready create_seeded made
  create-Creates room =
      let up = set_up-Started s vs h in
      let (t, run, k, _) =
        add-HoldsAt up.after.ids p e (made digest now id passwd p) vs up.holds
          (SameMemory-MayAllocate s.ids up.after.ids p e up.same m) room in
      record {
        after = record (up.after) { ids = t };
        runs =
            rw up.runs
              (rw run (rw (take-new_key digest (seed_of id passwd (now % 2 ^ 32) p)) refl));
        initialized = up.initialized;
        holds = HoldsAt-Holds t vs p (made digest now id passwd p) [] k;
      }

  create_lost : Creates (record { ssid = some p; seed = true; entry = none }) vs
  unfolding create create_ready create_seeded made
  create_lost =
      let up = set_up-Started s vs h in
      let free = (SameMemory-MayAllocate s.ids up.after.ids p e up.same m).unused_block in
      let (t, run, k, _) =
        add-null (fresh up.after.ids p (made digest now id passwd p)) p vs
          (fresh-Holds up.after.ids p (made digest now id passwd p) vs up.holds free) in
      record {
        after = record (up.after) { ids = t };
        runs =
            rw up.runs
              (rw run (rw (take-new_key digest (seed_of id passwd (now % 2 ^ 32) p)) refl));
        initialized = up.initialized;
        holds = k;
      }

-- With memory and room in the count, and if no session has the key that comes out of the hash,
-- create returns OK and writes this key, for any ID and password, and under any later calls of
-- isValid by all clients, while the clock goes on within 32 bits, the key gets OK as long as no
-- pause since it was made is longer than the timeout, and INVALID_SSID after that.
pub create-life :
    (digest : Text → Option (List ℕ)) (now : ℕ) (id passwd : Option Text) (s : Ids) (vs : List Ssid)
    (p e timeout : ℕ) (us : List (Text × ℕ))
    → Serves s vs
    → MayAllocate s.ids p e
    → length vs + 1 < 2 ^ 32
    → let v = made digest now id passwd p in
      first? (has_key v.key) vs ≡ none
      → InOrder (now % 2 ^ 32) us
      → (s' : Ids) × (create digest ready
            (record { ssid = some p; seed = true; entry = some e })
            now
            id
            passwd
            s
          ≡ done ((ok, some (v.key)), s'))
        × (rs : List Ret) × (s'' : Ids) × (uses timeout us s' ≡ done (rs, s''))
        × (own v.key us rs ≡ life timeout (now % 2 ^ 32) (own_times v.key us))
unfolding made
create-life digest now id passwd s vs p e timeout us h m room new order =
    let v = made digest now id passwd p in
    let c = create-Creates digest now id passwd s vs h p e m room in
    let hit = same_refl v.key in
    let (rs, s'', run, answers) =
      uses-life timeout v.key us c.after (vs ++ v ∷ []) v (Serves.serving c.initialized c.holds)
        (first?-last (has_key v.key) vs v new hit)
        (rw (drop_first-last (has_key v.key) vs v new hit) new) order in
    (c.after, c.runs, rs, s'', run, answers)

-- Without memory for the entry create returns OK and writes a key all the same, and if no
-- session has this key, every later call of isValid with it returns INVALID_SSID.
create_lost-refused :
    (digest : Text → Option (List ℕ)) (now : ℕ) (id passwd : Option Text) (s : Ids) (vs : List Ssid)
    (p e timeout : ℕ) (us : List (Text × ℕ))
    → Serves s vs
    → MayAllocate s.ids p e
    → let v = made digest now id passwd p in
      first? (has_key v.key) vs ≡ none
      → (s' : Ids) × (create digest ready
            (record { ssid = some p; seed = true; entry = none })
            now
            id
            passwd
            s
          ≡ done ((ok, some (v.key)), s'))
        × (rs : List Ret) × (s'' : Ids) × (uses timeout us s' ≡ done (rs, s''))
        × (own v.key us rs ≡ map (λ _. invalid_ssid) (own_times v.key us))
create_lost-refused digest now id passwd s vs p e timeout us h m new =
    let v = made digest now id passwd p in
    let c = create_lost digest now id passwd s vs h p e m in
    let (rs, s'', run, answers) =
      uses-dead timeout v.key us c.after vs (Serves.serving c.initialized c.holds) new in
    (c.after, c.runs, rs, s'', run, answers)
