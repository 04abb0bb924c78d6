-- ===== src/Analyzer/Process/Blocks.antt =====
-- From the packets of a camera to its switch: a round of lib/ftm_analyzer.c, and the handling of its
-- message by lib/ftm_catchb.c.
use mathlib.Core.Path.{subst}
use catchb.Base.{
  ℕ, ◌+◌, ◌≤◌, ◌≡◌, refl, sym, ap, ◌∙◌, Bool, false, not, some, List, [], ◌∷◌, ◌++◌, Text, same,
  same_iff, take, take_of_length-le, length, inl, inr, Bool-cases, ◌==◌,
}
use catchb.Run.{done, bind-eq-done, done-injective}
use catchb.Ret.{Ret, ok}
use catchb.Table.Split.{first?, first?-hit}
use catchb.Table.Holds.{Holds}
use catchb.Score.{Score}
use catchb.Cctv.{Cctv, CctvStat, normal, abnormal}
use catchb.Core.{Core, Memory, has_id, hash_len}
use catchb.Core.Messages.{Message, on_message}
use catchb.Core.Status.{on_set_cctv_stat}
use catchb.Core.Status.Life.{run_stats, blocks, IsSettled, verdict, NoneReset}
use catchb.Core.Status.Verdicts.{abnormal_blocked}
use catchb.Analyzer.Watch.{id_len}
use catchb.Analyzer.Process.{Analyzer, World, process}
use catchb.Analyzer.Process.Verdict.{Can, process-Round, taken, said}

-- One status, of a camera that is settled.
stat_blocks :
    (s : Core) (id : Text) (vs : List Cctv) (v : Cctv) (now : CctvStat) (time : ℕ) (hash : Text)
    → Holds s.cctvs vs
    → first? (has_id id) vs ≡ some v
    → IsSettled v.stat (blocks v.switch_id v.ip false s.calls)
    → NoneReset (now ∷ [])
    → (r : Ret) × (c : Core) × (on_set_cctv_stat s id now time hash ≡ done (r, c))
      × (blocks v.switch_id v.ip false c.calls
          ≡ verdict (blocks v.switch_id v.ip false s.calls) (now ∷ []))
unfolding run_stats
stat_blocks s id vs v now time hash h first settled kept =
    let (s', run, tells) =
      abnormal_blocked s id vs v h first ((now, time, hash) ∷ []) settled kept in
    let ((r, c), step, last) =
      bind-eq-done (on_set_cctv_stat s id now time hash) (λ x. run_stats x.1 id []) run in
    let same_core : c ≡ s' = done-injective last in
    (r, c, step, ap (λ k. blocks v.switch_id v.ip false k.calls) same_core ∙ tells)

module _ (w : World) (a : Analyzer) (id : Text) (ids : List Text) (vs : List Cctv) (v : Cctv)
    (s : Score) (e : ℕ) (can : Can w a id ids vs v s e) where
  -- What the round of a camera with a fingerprint says.
  said-verdict :
      (d : ℕ) (ds : Text)
      → v.hash ≡ d ∷ ds
      → (w.replies == 0) ≡ false
      → a.config.test ≡ false
      → length id ≤ id_len
      → (k : CctvStat) × (said w a.config v s
          ≡ Message.cctv_set_stat id k w.secs (take (hash_len + 1) (taken w a.config v s)) ∷ [])
        × NoneReset (k ∷ [])
        × ((b : Bool) → verdict b (k ∷ []) ≡ not (same v.hash (taken w a.config v s)))
  said-verdict d ds known came plain short =
      let whole : take id_len v.id ≡ id =
        ap (take id_len) ((same_iff v.id id).0 (first?-hit (has_id id) vs v can.first))
        ∙ take_of_length-le id_len id short in
      elim (Bool-cases (same v.hash (taken w a.config v s))) [
        | inl alike ↦ (
          normal,
          rw came (rw known (rw plain (rw (← known, alike, whole) refl))),
          tt,
          λ b. rw alike refl,
        )
        | inr other ↦ (
          abnormal,
          rw came (rw known (rw plain (rw (← known, other, whole) refl))),
          tt,
          λ b. rw other refl,
        )
      ]

  -- If the camera of the first id is due, answers and has a fingerprint, its status and its
  -- switch agree as after earlier verdicts, the packets can be scored, there is memory and the
  -- test mode is off, the round returns OK and sends one message, and when the core has handled
  -- it the camera is blocked exactly if its new fingerprint differs from the one it has,
  -- whatever the database and the notifier answer.
  pub process-blocks :
      (d : ℕ) (ds : Text) (m : Memory) (now : ℕ)
      → v.hash ≡ d ∷ ds
      → (w.replies == 0) ≡ false
      → a.config.test ≡ false
      → length id ≤ id_len
      → IsSettled v.stat (blocks v.switch_id v.ip false a.core.calls)
      → (b : Analyzer) × (process w a ≡ done (ok, b))
        × (x : Message) × (b.sent ≡ a.sent ++ x ∷ [])
        × (r : Ret) × (c : Core) × (on_message m now b.core x ≡ done (r, c))
        × (blocks v.switch_id v.ip false c.calls ≡ not (same v.hash (taken w a.config v s)))
  unfolding on_message
  process-blocks d ds m now known came plain short settled =
      let one = process-Round w a id ids vs v s e can in
      let (k, told, kept, decides) = said-verdict d ds known came plain short in
      let hash = take (hash_len + 1) (taken w a.config v s) in
      let before = blocks v.switch_id v.ip false in
      let (r, c, handled, ends) =
        stat_blocks one.after.core id vs v k w.secs hash one.cameras can.first
          (subst (λ xs. IsSettled v.stat (before xs)) (sym one.calls) settled) kept in
      (
        one.after,
        one.runs,
        Message.cctv_set_stat id k w.secs hash,
        one.sent ∙ ap (◌++◌ a.sent) told,
        r,
        c,
        handled,
        ends ∙ decides (before one.after.core.calls),
      )
