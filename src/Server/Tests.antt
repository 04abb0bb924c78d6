-- ===== src/Server/Tests.antt =====
-- Runs of the services of lib/ftm_server.c.
use catchb.Base.{ℕ, ◌≡◌, ◌+◌, refl, true, false, none, some, List, [], ◌∷◌, map, Text, same, arith}
use catchb.Run.{done}
use catchb.Ret.{ok, error, invalid_ssid, list_not_insertable}
use catchb.Table.Split.{first?}
use catchb.Table.Samples.{no_blocks, no_blocks-Holds, no_blocks-MayAllocate}
use catchb.Hash.{hash_sha1}
use catchb.Ssid.{Ids, ready}
use catchb.Ssid.Renew.{Serves}
use catchb.Ssid.Create.{made}
use catchb.Server.{
  Cmd, alarm_get, number, cmd_set, Request, Response, Server, Now, Service, service_call, service,
  serve,
}
use catchb.Server.Sessions.{Sessions, create_session, destroy_session}
use catchb.Server.Sessions.Life.{
  session_made, blocks, Free, destroy-create_session, create_session_leaks,
}
use catchb.Table.Holds.{Holds}
use catchb.Server.Guard.{outsider_refused}
use catchb.Server.Login.{row, login-call}

-- Every row is found by its number.
cmd_set_test : map (λ c. first? (row (number c)) cmd_set) cmd_set ≡ map some cmd_set
unfolding row number
cmd_set_test = refl

-- The other services count their calls.
abbrev counting : Cmd → Service ℕ ℕ ℕ
counting c v q a = done ((ok, a), record v { world = v.world + 1 })

abbrev server : Server ℕ
server = record {
  ids = record { initialized = false; ids = no_blocks (record { key = []; time = 0 }) };
  timeout = 300;
  world = 7;
}

abbrev at : ℕ → Now
at t = record {
  clock = t;
  memory = record { ssid = some 20; seed = true; entry = some 2 };
  semaphores = ready;
  digest = λ s. some (1 ∷ 2 ∷ 3 ∷ 4 ∷ 5 ∷ []);
}

abbrev request : ℕ → Text → Request ℕ
request c key = record { cmd = c; ssid = key; id = b'a' ∷ []; passwd = b'x' ∷ []; body = 0 }

abbrev response : Response ℕ
response = record { cmd = 0; ret = error; ssid = []; body = 9 }

-- A stranger asks for an alarm and for a command that there is not.
abbrev strange : List (Now × Request ℕ × Response ℕ)
strange = (at 5, request 23 (b'z' ∷ []), response) ∷ (at 6, request 99 [], response) ∷ []

outsider_refused_example :
    (ids : Ids) × (serve counting strange server
      ≡ done
          ((23, invalid_ssid, none) ∷ (99, invalid_ssid, none) ∷ [], record server { ids = ids }))
    × Serves ids []
unfolding number
outsider_refused_example =
    outsider_refused counting strange server [] (Serves.unused refl refl)
      ((λ e. omega (arith, e)), refl, refl, ((λ e. omega (arith, e)), refl, refl, tt))

abbrev key : Text
key =
    b'0' ∷ b'1' ∷ b'0' ∷ b'0' ∷ b'0' ∷ b'0' ∷ b'0' ∷ b'0' ∷ b'0' ∷ b'2' ∷ b'0' ∷ b'0' ∷ b'0' ∷ b'0'
    ∷ b'0' ∷ b'0' ∷ []

login-call_example :
    (w : Server ℕ) × (service_call (at 100) counting server (request 35 []) response
      ≡ done ((ok, record response { cmd = 35; ret = ok; ssid = key }), w))
    × (ids : Ids) × (service_call (at 400) counting w (request 24 key) response
        ≡ done ((ok, response), record server { ids = ids; world = 8 }))
    × Serves ids (record { key = key; time = 400 } ∷ [])
unfolding number same made hash_sha1 row service
login-call_example =
    login-call counting (at 100) server (request 35 []) response [] 20 2 (at 400) (request 24 key)
      response alarm_get (Serves.unused refl refl) refl refl
      (no_blocks-MayAllocate (record { key = []; time = 0 })) (omega arith) refl refl refl
      (λ e. omega (arith, e)) refl refl (omega arith) (omega arith) refl

-- No sessions, and no buffers.
abbrev empty : Sessions
empty = record { sessions = no_blocks (session_made 0 0 0 0); buffers = λ x. false }

empty-Holds : Holds empty.sessions []
empty-Holds = no_blocks-Holds (session_made 0 0 0 0)

empty-Free : Free empty 20 2 30 31
empty-Free = record {
  block = no_blocks-MayAllocate (session_made 0 0 0 0);
  apart = λ e. omega (arith, e);
  request_there = λ e. omega (arith, e);
  response_there = λ e. omega (arith, e);
  request = refl;
  response = refl;
}

destroy-create_session_example :
    (t : Sessions) × (create_session (blocks 20 30 31 false (some 2)) 5 64 empty
      ≡ done ((ok, some 20), t))
    × Holds t.sessions (session_made 30 31 5 64 ∷ [])
    × (s : Sessions) × (destroy_session 20 t ≡ done (ok, s))
    × Holds s.sessions []
    × (s.sessions.live 20 ≡ false)
    × ((x : ℕ) → s.buffers x ≡ false)
destroy-create_session_example =
    destroy-create_session empty [] 20 2 30 31 5 64 empty-Holds empty-Free (omega arith)

create_session_leaks_example :
    (t : Sessions) × (create_session (blocks 20 30 31 false none) 5 64 empty
      ≡ done ((list_not_insertable, none), t))
    × Holds t.sessions []
    × (t.sessions.live 20 ≡ false)
    × (t.buffers 30 ≡ true)
    × (t.buffers 31 ≡ true)
create_session_leaks_example =
    create_session_leaks empty [] 20 2 30 31 5 64 false empty-Holds empty-Free
