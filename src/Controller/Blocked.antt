-- ===== src/Controller/Blocked.antt =====
-- When `BlockGoal` of scripts/source/shared_controller.go says that a goal is blocked.
use codex_auto_retry.Prelude.{
  ◌≡◌, ◌≢◌, arith, String, true, false, List, [], ◌∷◌, Option, none, some, eq_iff, Bool-cases, inl,
  inr,
}
use codex_auto_retry.Resume.{ResumeSettings}
use codex_auto_retry.Runner.{is_dispatched}
use codex_auto_retry.Controller.Goals.{AppGoal}
use codex_auto_retry.Controller.{
  Entry, goal_read, goal_set, turn_started, loaded_listed, Log, Reply, answer, refusal, Codex,
  result, error, Step, more, stop, replied, continue, Exec, ◌>>◌,
}
use codex_auto_retry.Controller.Errors.{RpcError}
use codex_auto_retry.Controller.Preflight.{Transport, official_ipc, shared_server, preflight}
use codex_auto_retry.Controller.Quiet.{Quiet, preflight-Quiet}
use codex_auto_retry.Controller.BlockGoal.{
  block_goal, block_read, read_to_block, resume_to_block, block_over,
}

-- After the log, the goal does not go on: it was read with a status other than active, or blocked then.
abbrev pub GoalHalted : String → Log → Type 0
GoalHalted id [] = ⊥
GoalHalted id (goal_set i status ∷ l) = (i ≡ id) × (status ≡ "blocked")
GoalHalted id (goal_read i (some goal) ∷ l) = (i ≡ id) × (goal.status ≢ "active")
GoalHalted id (goal_read i none ∷ l) = ⊥
GoalHalted id (_ ∷ l) = GoalHalted id l

-- No turn is started, and no goal is set but to blocked.
abbrev pub OnlyBlocks : Log → Type 0
OnlyBlocks [] = Unit
OnlyBlocks (turn_started i ∷ l) = ⊥
OnlyBlocks (goal_set i status ∷ l) = (status ≡ "blocked") × OnlyBlocks l
OnlyBlocks (_ ∷ l) = OnlyBlocks l

abbrev pub TellsHalted : String → Step (Unit {0}) → Log → Type 0
TellsHalted id (more _) l = ⊥
TellsHalted id (stop (error e)) l = Unit
TellsHalted id (stop (result r)) l = is_dispatched r.outcome ≡ true → GoalHalted id l

pub record Halts (id : String) (r : Step (Unit {0}) × Log) : Type 0 where
  pub only_blocks : OnlyBlocks r.1
  pub tells : TellsHalted id r.0 r.1

continue-Halts :
    {A : Type 0} (id : String) (r : Step A) (l : Log) (f : A → Exec (Unit {0}))
    → Quiet r
    → OnlyBlocks l
    → ((a : A) → Halts id (f a l))
    → Halts id (continue r l f)
continue-Halts id (more a) l f quiet blocks go = go a
continue-Halts id (stop (error e)) l f quiet blocks go = record { only_blocks = blocks; tells = tt }
continue-Halts id (stop (result r)) l f quiet blocks go = record {
  only_blocks = blocks;
  tells = λ sent. absurd (cc);
}

replied-Halts :
    {A : Type 0} (id : String) (entry : A → Entry) (reply : Reply RpcError A) (l : Log)
    (f : A → Exec (Unit {0}))
    → OnlyBlocks l
    → ((a : A) → Halts id (f a (entry a ∷ l)))
    → Halts id (continue (replied false entry reply l).0 (replied false entry reply l).1 f)
replied-Halts id entry (answer a) l f blocks go = go a
replied-Halts id entry (refusal e) l f blocks go = record {
  only_blocks = blocks;
  tells = λ sent. absurd (cc);
}

module _ (codex : Codex) (id : String) where
  block_read-Halts :
      (goal : Option AppGoal) (l : Log)
      → OnlyBlocks l
      → Halts id (block_read codex id goal (goal_read id goal ∷ l))
  block_read-Halts none l blocks = ground arith
  block_read-Halts (some goal) l blocks = ground (arith, eq_iff goal.status "active")

  read_to_block-Halts : (l : Log) → OnlyBlocks l → Halts id (read_to_block codex id l)
  read_to_block-Halts l blocks =
      replied-Halts id (goal_read id) (codex.read_goal l id) l (block_read codex id) blocks
        (λ goal. block_read-Halts goal l blocks)

  resume_to_block-Quiet :
      (settings : Option ResumeSettings) (listed : List String) (l : Log)
      → OnlyBlocks l
      → let r = resume_to_block codex id settings listed l in Quiet r.0 × OnlyBlocks r.1
  resume_to_block-Quiet none listed l blocks = ground arith
  resume_to_block-Quiet (some settings) listed l blocks = ground arith

  block_listed-Halts :
      (settings : Option ResumeSettings) (listed : List String) (l : Log)
      → OnlyBlocks l
      → Halts id ((resume_to_block codex id settings listed >> read_to_block codex id) l)
  block_listed-Halts settings listed l blocks =
      let (quiet, blocks') = resume_to_block-Quiet settings listed l blocks in
      continue-Halts id _ _ (λ _. read_to_block codex id) quiet blocks'
        (λ _. read_to_block-Halts _ blocks')

  block_over-Halts :
      (settings : Option ResumeSettings) (transport : Transport) (l : Log)
      → OnlyBlocks l
      → Halts id (block_over codex id settings transport l)
  block_over-Halts settings official_ipc l blocks = record {
    only_blocks = blocks;
    tells = λ sent. absurd (cc);
  }
  block_over-Halts settings shared_server l blocks = elim (Bool-cases (codex.dial l)) [
    | inl e ↦ rw e (
        replied-Halts id loaded_listed (codex.loaded l) l
          (λ listed. resume_to_block codex id settings listed >> read_to_block codex id) blocks
          (λ listed. block_listed-Halts settings listed (loaded_listed listed ∷ l) blocks))
    | inr e ↦ rw e (record { only_blocks = blocks; tells = tt })
  ]

  preflight-OnlyBlocks : (l : Log) → OnlyBlocks l → OnlyBlocks (preflight codex false l).1
  unfolding preflight
  preflight-OnlyBlocks l blocks = ground arith

  -- A goal block starts no turn and sets no goal but to blocked, and if it reports success then the goal
  -- is halted: its status was read as another than active, or the app-server has accepted the block.
  pub block_goal-Halts :
      (settings : Option ResumeSettings) (codex_home : String)
      → Halts id (block_goal codex id settings codex_home [])
  unfolding block_goal
  block_goal-Halts settings codex_home = elim (Bool-cases (codex.supports_home codex_home)) [
    | inl e ↦
        let blocks = preflight-OnlyBlocks [] tt in
        rw e (
          continue-Halts id _ _ (block_over codex id settings) (preflight-Quiet codex false [])
            blocks (λ transport. block_over-Halts settings transport _ blocks))
    | inr e ↦ rw e (record { only_blocks = tt; tells = λ sent. absurd (cc) })
  ]
