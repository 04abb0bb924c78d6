-- ===== src/Server/Login.antt =====
-- `FTM_SERVER_serviceCall` of lib/ftm_server.c: a key of SSID_CREATE opens each service.
use catchb.Base.{
  ℕ, ◌+◌, ◌%◌, ◌^◌, ◌≤◌, ◌<◌, ◌≡◌, ◌≢◌, refl, ap, ◌∙◌, Bool, true, false, not, ◌||◌, none, some,
  List, [], ◌∷◌, ◌++◌, inl, inr, Bool-cases, leb, ◌==◌, same_refl, arith, length,
}
use catchb.Run.{done}
use catchb.Ret.{ok}
use catchb.Table.Split.{first?, first?-last, set_first-last}
use catchb.Table.Change.{MayAllocate}
use catchb.Ssid.{Ssid, Ids, ready, has_key, is_valid}
use catchb.Ssid.Renew.{Serves, is_valid-renew, renew}
use catchb.Ssid.Create.{made, create-Creates}
use catchb.Ssid.Life.{is_expired_lem}
use catchb.Ssid.Others.{renew_young}
use catchb.Server.{
  Cmd, ssid_create, number, cmd_set, Request, Response, Server, Now, Service, call_from, checked,
  service_call, service, create_ssid, ssid_created, answered,
}

-- The row of `pCmdSet` for a command.
unfoldable pub row : (cmd : ℕ) → Cmd → Bool
unfolding number
row cmd c = number c == cmd

module _ {W B C : Type 0} (others : Cmd → Service W B C) where
  call_from-row :
      (n : Now) (v : Server W) (q : Request B) (a : Response C) (c : Cmd) (cs : List Cmd)
      → first? (row q.cmd) cs ≡ some c
      → call_from n others cs v q a ≡ service n others c v q a
  unfolding call_from row
  call_from-row n v q a c [] h = cc
  call_from-row n v q a c (d ∷ cs) h = elim (Bool-cases (number d == q.cmd)) [
    | inl same_cmd ↦
        let e : some d ≡ some c = rw same_cmd at h in
        let e' : d ≡ c = cc e in rw same_cmd (rw e' refl)
    | inr other ↦ rw other (call_from-row n v q a c cs (rw other at h))
  ]

  -- The session that a request of SSID_CREATE makes.
  abbrev pub session : Now → Request B → (p : ℕ) → Ssid
  session n q p = made n.digest n.clock (some (q.id)) (some (q.passwd)) p

  logs_in :
      (n : Now) (v : Server W) (q : Request B) (a : Response C) (vs : List Ssid) (p e : ℕ)
      → Serves v.ids vs
      → n.semaphores ≡ ready
      → n.memory ≡ record { ssid = some p; seed = true; entry = some e }
      → MayAllocate v.ids.ids p e
      → length vs + 1 < 2 ^ 32
      → q.cmd ≡ number ssid_create
      → let s = session n q p in
        (ids : Ids) × (service_call n others v q a
          ≡ done ((ok, record a { cmd = q.cmd; ret = ok; ssid = s.key }), record v { ids = ids }))
        × Serves ids (vs ++ s ∷ [])
  unfolding service_call call_from number service create_ssid ssid_created answered
  logs_in n v q a vs p e h up memory m room is_create =
      let c =
        create-Creates n.digest n.clock (some (q.id)) (some (q.passwd)) v.ids vs h p e m room in
      (
        c.after,
        rw is_create (rw up (rw memory (rw c.runs refl))),
        Serves.serving c.initialized c.holds,
      )

  -- With memory, semaphores that can be made and room in the count, and if no session has the
  -- key that comes out of the hash, SSID_CREATE answers any ID and password with OK and a key,
  -- and a request with this key and another command of `pCmdSet`, which is the next one and
  -- comes within the timeout or under no timeout, while the clock goes on within 32 bits, gets
  -- what the function of its command makes of the server as it was, the sessions with the new
  -- one dated anew.
  pub login-call :
      (n : Now) (v : Server W) (q : Request B) (a : Response C) (vs : List Ssid) (p e : ℕ)
      (n' : Now) (q' : Request B) (a' : Response C) (c : Cmd)
      → Serves v.ids vs
      → n.semaphores ≡ ready
      → n.memory ≡ record { ssid = some p; seed = true; entry = some e }
      → MayAllocate v.ids.ids p e
      → length vs + 1 < 2 ^ 32
      → q.cmd ≡ number ssid_create
      → first? (has_key (session n q p).key) vs ≡ none
      → n'.semaphores ≡ ready
      → q'.cmd ≢ number ssid_create
      → q'.ssid ≡ (session n q p).key
      → first? (row q'.cmd) cmd_set ≡ some c
      → n.clock % 2 ^ 32 ≤ n'.clock
      → n'.clock < 2 ^ 32
      → (v.timeout == 0 || leb n'.clock (n.clock % 2 ^ 32 + v.timeout)) ≡ true
      → let s = session n q p in
        (w : Server W) × (service_call n others v q a
          ≡ done ((ok, record a { cmd = q.cmd; ret = ok; ssid = s.key }), w))
        × (ids : Ids) × (service_call n' others w q' a'
            ≡ service n' others c (record v { ids = ids }) q' a')
        × Serves ids (vs ++ record s { time = n'.clock } ∷ [])
  unfolding service_call checked number made
  login-call n v q a vs p e n' q' a' c h up memory m room is_create new up' other key found on small
        timely =
      let s = session n q p in
      let (ids, run, k) = logs_in n v q a vs p e h up memory m room is_create in
      let off : (q'.cmd == number ssid_create) ≡ false = ground arith in
      let hit = first?-last (has_key s.key) vs s new (same_refl s.key) in
      let young = is_expired_lem v.timeout n'.clock s on small ∙ ap not timely in
      let whole : n'.clock % 2 ^ 32 ≡ n'.clock = omega (arith, small) in
      let all = vs ++ s ∷ [] in
      let one = is_valid-renew v.timeout n'.clock n'.clock q'.ssid ids all k in
      let kept : renew v.timeout n'.clock n'.clock q'.ssid all
          ≡ (ok, vs ++ record s { time = n'.clock } ∷ []) =
        rw key (
          renew_young v.timeout n'.clock s.key all s hit young
          ∙ rw whole (
              ap (λ x. (ok, x))
                (set_first-last (has_key s.key) vs s (record s { time = n'.clock }) new
                  (same_refl s.key)))) in
      let passes : is_valid n'.semaphores v.timeout n'.clock n'.clock ids q'.ssid
          ≡ done (ok, one.after) =
        rw up' (one.runs ∙ ap (λ x. done (x.0, one.after)) kept) in
      (
        record v { ids = ids },
        run,
        one.after,
        rw off (rw passes (call_from-row n' (record v { ids = one.after }) q' a' c cmd_set found)),
        Serves.serving one.initialized (rw kept at one.holds),
      )
