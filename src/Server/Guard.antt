-- ===== src/Server/Guard.antt =====
-- `FTM_SERVER_serviceCall` of lib/ftm_server.c: no service without a key of a session.
use catchb.Base.{ℕ, ◌≡◌, ◌≢◌, refl, false, Option, none, List, [], ◌∷◌, map, Text, ◌==◌, arith}
use catchb.Run.{done}
use catchb.Ret.{Ret, invalid_ssid}
use catchb.Table.Split.{first?}
use catchb.Ssid.{Ssid, Ids, ready, has_key}
use catchb.Ssid.Renew.{Serves, is_valid-renew}
use catchb.Ssid.Others.{renew_unknown}
use catchb.Server.{
  Cmd, ssid_create, number, Request, Response, Server, Now, Service, checked, service_call, reply,
  serve,
}

module _ {W B C : Type 0} (others : Cmd → Service W B C) where
  -- A request with a key that no session has.
  pub record Refuses (n : Now) (v : Server W) (q : Request B) (a : Response C) (vs : List Ssid)
      : Type 0 where
    pub ids : Ids
    pub runs : service_call n others v q a ≡ done ((invalid_ssid, a), record v { ids = ids })
    pub serves : Serves ids vs

  refuse :
      (n : Now) (v : Server W) (q : Request B) (a : Response C) (vs : List Ssid)
      → Serves v.ids vs
      → q.cmd ≢ number ssid_create
      → n.semaphores ≡ ready
      → first? (has_key q.ssid) vs ≡ none
      → Refuses n v q a vs
  unfolding service_call checked number
  refuse n v q a vs h other up gone =
      let e : (q.cmd == number ssid_create) ≡ false = ground arith in
      let one = is_valid-renew v.timeout n.clock n.clock q.ssid v.ids vs h in
      let none_left = renew_unknown v.timeout n.clock q.ssid vs gone in
      record {
        ids = one.after;
        runs = rw e (rw up (rw one.runs (rw none_left refl)));
        serves = Serves.serving one.initialized (rw none_left at one.holds);
      }

  -- Requests that bring no key of a session and do not ask for one.
  abbrev Outside : List Ssid → List (Now × Request B × Response C) → Type 0
  Outside vs [] = Unit {0}
  Outside vs ((n, q, a) ∷ rest) =
      (q.cmd ≢ number ssid_create)
      × (n.semaphores ≡ ready)
      × (first? (has_key q.ssid) vs ≡ none)
      × Outside vs rest

  -- The header that tells a refusal.
  abbrev refusal : Now × Request B × Response C → ℕ × Ret × Option (Text × C)
  refusal (n, q, a) = (q.cmd, invalid_ssid, none)

  -- If the semaphores can be made and no request asks for a key or brings the key of a session,
  -- any sequence of requests comes to an end, whatever the services do, each is answered by
  -- INVALID_SSID with its command and no payload, and what the services work on stays as it
  -- was, as do the keys.
  pub outsider_refused :
      (reqs : List (Now × Request B × Response C)) (v : Server W) (vs : List Ssid)
      → Serves v.ids vs
      → Outside vs reqs
      → (ids : Ids) × (serve others reqs v ≡ done (map refusal reqs, record v { ids = ids }))
        × Serves ids vs
  unfolding serve reply
  outsider_refused [] v vs h out = (v.ids, refl, h)
  outsider_refused ((n, q, a) ∷ rest) v vs h (other, up, gone, out) =
      let one = refuse n v q a vs h other up gone in
      let (ids, run, k) = outsider_refused rest (record v { ids = one.ids }) vs one.serves out in
      (ids, rw one.runs (rw run refl), k)
