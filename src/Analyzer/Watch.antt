-- ===== src/Analyzer/Watch.antt =====
-- The list of the cameras to analyse in lib/ftm_analyzer.c: copies of their ids, compared without
-- regard to case. `pLock` is free when a call starts, and is given back.
pub mod Lists
use catchb.Base.{
  ℕ, zero, suc, ◌+◌, Bool, true, false, Option, none, some, List, [], ◌∷◌, Text, same_case, take,
}
use catchb.Run.{Run, done, fault, ◌>>=◌}
use catchb.Ret.{Ret, ok}
use catchb.FtmList.Access.{Found}
use catchb.Table.{Table, find, add, take_off, release, load, fresh}

-- `FTM_ID_LEN`
abbrev pub id_len : ℕ
id_len = 64

attached : (p : ℕ) → Ret × Table Text → Run (Ret × Table Text)
unfolding release
attached p (ok, t) = done (ok, t)
attached p (r, t) = do t' ← release t p; done (r, t')

-- An id that is there already means OK, and one without memory the result of the search.
pub attach_new :
    (memory entry : Option ℕ) → (id : Text) → Found × Table Text → Run (Ret × Table Text)
unfolding add attached
attach_new memory entry id ((ok, p), t) = done (ok, t)
attach_new none entry id ((r, p), t) = done (r, t)
attach_new (some p) entry id (f, t) = do r ← add entry (fresh t p (take id_len id)) p; attached p r

unfoldable pub attach :
    (memory entry : Option ℕ) → Table Text → (id : Text) → Run (Ret × Table Text)
unfolding find attach_new
attach memory entry t id = do f ← find (λ v. same_case v id) t; attach_new memory entry id f

pub detach_found : Found × Table Text → Run (Ret × Table Text)
unfolding take_off release
detach_found ((ok, some p), t) = do
  (r, t') ← take_off t p
  elim r [ ok ↦ do t'' ← release t' p; done (ok, t'') | other ↦ done (other, t') ]
detach_found ((ok, none), t) = fault
detach_found ((r, p), t) = done (r, t)

unfoldable pub detach : Table Text → (id : Text) → Run (Ret × Table Text)
unfolding find detach_found
detach t id = do f ← find (λ v. same_case v id) t; detach_found f
