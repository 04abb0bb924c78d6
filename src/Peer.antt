-- ===== src/Peer.antt =====
-- A module of the program outside the model, such as lib/ftm_db.c: it gets calls, and answers each as
-- it likes, which may depend on all calls up to then.
use catchb.Base.{List, [], ◌∷◌, ◌++◌}
use catchb.Ret.{Ret}

pub record Peer (C : Type 0) : Type 0 where
  pub calls : List C
  pub answer : List C → Ret

unfoldable pub say : {C : Type 0} → C → Peer C → Ret × Peer C
say c p = let calls = p.calls ++ c ∷ [] in (p.answer calls, record p { calls = calls })
