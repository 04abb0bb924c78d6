-- ===== src/Ssid/Tests.antt =====
-- Runs of lib/ftm_ssid.c.
use catchb.Base.{ℕ, ◌≡◌, refl, true, false, Option, none, some, List, [], ◌∷◌, Text, same, arith}
use catchb.Run.{done}
use catchb.Ret.{Ret, ok, invalid_ssid}
use catchb.Table.Samples.{no_blocks, no_blocks-MayAllocate, one_block, one_block-Holds}
use catchb.Hash.{hash_sha1}
use catchb.Ssid.{Ssid, Ids, ready, create}
use catchb.Ssid.Renew.{Serves, renew}
use catchb.Ssid.Life.{uses, own, uses-life}
use catchb.Ssid.Create.{made, create-life}

abbrev key_a : Text
key_a = b'a' ∷ b'1' ∷ []

abbrev key_b : Text
key_b = b'b' ∷ []

abbrev session : Ssid
session = record { key = key_a; time = 100 }

-- One session, and none.
abbrev one_session : Ids
one_session = record { initialized = true; ids = one_block session }

abbrev no_session : Ids
no_session = record { initialized = false; ids = no_blocks session }

-- The calls of two clients; the first one pauses too long.
abbrev calls : List (Text × ℕ)
calls = (key_a, 300) ∷ (key_b, 310) ∷ (key_a, 600) ∷ (key_a, 901) ∷ (key_a, 902) ∷ []

uses-life_example :
    (rs : List Ret) × (s' : Ids) × (uses 300 calls one_session ≡ done (rs, s'))
    × (own key_a calls rs ≡ ok ∷ ok ∷ invalid_ssid ∷ invalid_ssid ∷ [])
unfolding same
uses-life_example =
    uses-life 300 key_a calls one_session (session ∷ []) session
      (Serves.serving refl (one_block-Holds session)) refl refl (omega arith)

abbrev digest : Text → Option (List ℕ)
digest t = some (1 ∷ 2 ∷ 3 ∷ 4 ∷ 5 ∷ [])

-- "0100000002000000"
abbrev key_new : Text
key_new =
    b'0' ∷ b'1' ∷ b'0' ∷ b'0' ∷ b'0' ∷ b'0' ∷ b'0' ∷ b'0' ∷ b'0' ∷ b'2' ∷ b'0' ∷ b'0' ∷ b'0' ∷ b'0'
    ∷ b'0' ∷ b'0' ∷ []

abbrev later_calls : List (Text × ℕ)
later_calls = (key_new, 400) ∷ (key_b, 410) ∷ (key_new, 701) ∷ []

create-life_example :
    (s' : Ids) × (create digest ready
        (record { ssid = some 20; seed = true; entry = some 2 })
        100
        (some key_a)
        none
        no_session
      ≡ done ((ok, some key_new), s'))
    × (rs : List Ret) × (s'' : Ids) × (uses 300 later_calls s' ≡ done (rs, s''))
    × (own key_new later_calls rs ≡ ok ∷ invalid_ssid ∷ [])
unfolding same made hash_sha1
create-life_example =
    create-life digest 100 (some key_a) none no_session [] 20 2 300 later_calls
      (Serves.unused refl refl) (no_blocks-MayAllocate session) (omega arith) refl (omega arith)

-- The clock has gone back by one second.
back_test : (renew 300 99 99 key_a (session ∷ [])).0 ≡ invalid_ssid
unfolding renew same
back_test = refl
