-- ===== src/Server.antt =====
-- lib/ftm_server.c: the call of the services and the services of the sessions' keys. The other
-- services are the argument `others`; a text that a request brings ends at its NUL, and
-- a response is clear behind the key that is copied into it.
pub mod Guard
pub mod Login
pub mod Sessions
mod Tests
use catchb.Base.{ℕ, Option, none, some, List, [], ◌∷◌, Text, ◌==◌, if◌then◌else◌}
use catchb.Run.{Run, done, ◌>>=◌}
use catchb.Ret.{Ret, ok, function_not_supported}
use catchb.Ssid.{Ids, Semaphores, Memory, create, destroy, is_valid}

-- `FTM_CMD`
pub data Cmd : Type 0 where
  unknown : Cmd
  cctv_add cctv_del cctv_set_properties cctv_get_properties cctv_get_count cctv_get_id_list : Cmd
  cctv_get_list cctv_set_policy cctv_reset : Cmd
  switch_add switch_del switch_set_properties switch_get_properties switch_get_count : Cmd
  switch_get_id_list switch_get_list : Cmd
  log_get_info log_get_count log_get_list log_del : Cmd
  alarm_add alarm_del alarm_get_count alarm_get alarm_set alarm_get_name_list : Cmd
  smtp_set smtp_get : Cmd
  stat_get_info stat_set_info stat_get_count stat_get_list stat_del stat_del2 : Cmd
  ssid_create ssid_del ssid_verify : Cmd
  log_get_count2 switch_get_model_list : Cmd

unfoldable pub number : Cmd → ℕ
number unknown = 0
number cctv_add = 1
number cctv_del = 2
number cctv_set_properties = 3
number cctv_get_properties = 4
number cctv_get_count = 5
number cctv_get_id_list = 6
number cctv_get_list = 7
number cctv_set_policy = 8
number cctv_reset = 9
number switch_add = 10
number switch_del = 11
number switch_set_properties = 12
number switch_get_properties = 13
number switch_get_count = 14
number switch_get_id_list = 15
number switch_get_list = 16
number log_get_info = 17
number log_get_count = 18
number log_get_list = 19
number log_del = 20
number alarm_add = 21
number alarm_del = 22
number alarm_get_count = 23
number alarm_get = 24
number alarm_set = 25
number alarm_get_name_list = 26
number smtp_set = 27
number smtp_get = 28
number stat_get_info = 29
number stat_set_info = 30
number stat_get_count = 31
number stat_get_list = 32
number stat_del = 33
number stat_del2 = 34
number ssid_create = 35
number ssid_del = 36
number ssid_verify = 37
number log_get_count2 = 38
number switch_get_model_list = 39

-- The commands of `pCmdSet` up to UNKNOWN, in order; the function of each is `service`.
abbrev pub cmd_set : List Cmd
cmd_set =
    cctv_add ∷ cctv_del ∷ cctv_get_count ∷ cctv_get_properties ∷ cctv_set_properties
    ∷ cctv_get_id_list ∷ cctv_get_list ∷ cctv_set_policy ∷ cctv_reset ∷ switch_add ∷ switch_del
    ∷ switch_get_count ∷ switch_get_properties ∷ switch_set_properties ∷ switch_get_id_list
    ∷ switch_get_list ∷ switch_get_model_list ∷ log_get_count ∷ log_get_count2 ∷ log_get_info
    ∷ log_get_list ∷ log_del ∷ alarm_add ∷ alarm_del ∷ alarm_get_count ∷ alarm_get ∷ alarm_set
    ∷ alarm_get_name_list ∷ smtp_set ∷ smtp_get ∷ stat_get_count ∷ stat_set_info ∷ stat_get_info
    ∷ stat_get_list ∷ stat_del ∷ stat_del2 ∷ ssid_create ∷ ssid_del ∷ ssid_verify ∷ []

-- What a request says: `pSSID`, and for SSID_CREATE `pID` and `pPasswd`; `body` is the rest of it.
pub record Request (B : Type 0) : Type 0 where
  pub cmd : ℕ
  pub ssid : Text
  pub id : Text
  pub passwd : Text
  pub body : B

-- `xCmd`, `xRet` and for SSID_CREATE `pSSID`; `body` is the rest of the response.
pub record Response (B : Type 0) : Type 0 where
  pub cmd : ℕ
  pub ret : Ret
  pub ssid : Text
  pub body : B

-- `world` is what the other services work on.
pub record Server (W : Type 0) : Type 0 where
  pub ids : Ids
  pub timeout : ℕ
  pub world : W

-- What a call meets: the clock, `malloc`, `sem_init` and SHA1.
pub record Now : Type 0 where
  pub clock : ℕ
  pub memory : Memory
  pub semaphores : Semaphores
  pub digest : Text → Option (List ℕ)

-- `FTM_SERVICE_CALLBACK`
abbrev pub Service : (W B C : Type 0) → Type 0
Service W B C = Server W → Request B → Response C → Run ((Ret × Response C) × Server W)

module _ {W B C : Type 0} where
  answered : Request B → Response C → Ret × Ids → Server W → (Ret × Response C) × Server W
  answered q a (r, ids) v = ((r, record a { cmd = q.cmd; ret = r }), record v { ids = ids })

  -- `pSSID` is cleared first, so it is empty where create writes nothing.
  ssid_created :
      Request B → Response C → Server W → (Ret × Option Text) × Ids → (Ret × Response C) × Server W
  unfolding answered
  ssid_created q a v ((r, none), ids) = answered q (record a { ssid = [] }) (r, ids) v
  ssid_created q a v ((r, some key), ids) = answered q (record a { ssid = key }) (r, ids) v

  -- `FTM_SERVER_SSID_create`
  pub create_ssid : Now → Service W B C
  unfolding create ssid_created
  create_ssid n v q a = do
    r ← create n.digest n.semaphores n.memory n.clock (some (q.id)) (some (q.passwd)) v.ids
    done (ssid_created q a v r)

  -- `FTM_SERVER_SSID_del`
  del_ssid : Service W B C
  unfolding destroy answered
  del_ssid v q a = do r ← destroy v.ids q.ssid; done (answered q a r v)

  -- `FTM_SERVER_SSID_verify`
  verify_ssid : Now → Service W B C
  unfolding is_valid answered
  verify_ssid n v q a = do
    r ← is_valid n.semaphores v.timeout n.clock n.clock v.ids q.ssid
    done (answered q a r v)

  -- The functions of `pCmdSet`.
  pub service : Now → (others : Cmd → Service W B C) → Cmd → Service W B C
  unfolding create_ssid del_ssid verify_ssid
  service n others ssid_create = create_ssid n
  service n others ssid_del = del_ssid
  service n others ssid_verify = verify_ssid n
  service n others c = others c

  -- The loop over `pCmdSet`.
  pub call_from : Now → (others : Cmd → Service W B C) → List Cmd → Service W B C
  unfolding number service
  call_from n others [] v q a = done ((function_not_supported, a), v)
  call_from n others (c ∷ cs) v q a =
      if number c == q.cmd then service n others c v q a else call_from n others cs v q a

  checked :
      Now
      → (others : Cmd → Service W B C) → Request B
      → Response C
      → Server W
      → Ret × Ids
      → Run ((Ret × Response C) × Server W)
  unfolding call_from
  checked n others q a v (ok, ids) = call_from n others cmd_set (record v { ids = ids }) q a
  checked n others q a v (r, ids) = done ((r, a), record v { ids = ids })

  -- `FTM_SERVER_serviceCall`
  pub service_call : Now → (others : Cmd → Service W B C) → Service W B C
  unfolding number call_from checked is_valid
  service_call n others v q a =
      if q.cmd == number ssid_create then call_from n others cmd_set v q a else (do
        r ← is_valid n.semaphores v.timeout n.clock n.clock v.ids q.ssid
        checked n others q a v r)

  -- The part of `FTM_SERVER_service` between recv and send: an error is told by the header alone,
  -- which leaves out the rest of the response (`none`).
  pub reply : (Ret × Response C) × Server W → Request B → (ℕ × Ret × Option (Text × C)) × Server W
  reply ((ok, a), v) q = ((a.cmd, a.ret, some (a.ssid, a.body)), v)
  reply ((r, a), v) q = ((q.cmd, r, none), v)

  -- Requests in order, each with the response as the buffer holds it before.
  pub serve :
      (others : Cmd → Service W B C)
      → List (Now × Request B × Response C)
      → Server W
      → Run (List (ℕ × Ret × Option (Text × C)) × Server W)
  unfolding service_call reply
  serve others [] v = done ([], v)
  serve others ((n, q, a) ∷ rest) v = do
    r ← service_call n others v q a
    (ps, w) ← serve others rest (reply r q).1
    done ((reply r q).0 ∷ ps, w)
