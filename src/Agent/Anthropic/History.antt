-- ===== src/Agent/Anthropic/History.antt =====
-- The history that a run leaves: which tool uses have their results.
use hopskip.Base.{
  ℕ, zero, suc, ◌≡◌, refl, ap, inl, inr, true, false, List, [], ◌∷◌, ◌++◌, map, Bool-cases, nat_eq,
  bytes_eq, pair_eq, int_eq,
}
use hopskip.Text.{Bytes}
use hopskip.Agent.Anthropic.{
  Message, Block, uses, other, Param, user_text, assistant, user_results, Reply, failed, message,
  ToolResult, Provider, Tools, Run, wants_tools, use_tools, answered, run_steps, run,
}

abbrev pub tool_uses : List Block → List Bytes
tool_uses [] = []
tool_uses (other _ ∷ blocks) = tool_uses blocks
tool_uses (uses tu ∷ blocks) = tu.id ∷ tool_uses blocks

abbrev pub result_ids : List ToolResult → List Bytes
result_ids = map (λ r. r.tool_use_id)

-- Each message that stopped for tool use is directly followed by the results of the tools that it
-- uses, in the order of their blocks, and no results stand elsewhere: a message that stopped for
-- another reason has none, also where it carries tool uses.
pub data IsAnswered : List Param → Type 0 where
  empty : IsAnswered []
  said : {ms : List Param} (text : Bytes) → IsAnswered ms → IsAnswered (user_text text ∷ ms)
  replied :
      {ms : List Param} (m : Message)
      → wants_tools m ≡ false
      → IsAnswered ms
      → IsAnswered (assistant m ∷ ms)
  worked :
      {ms : List Param} (m : Message) (rs : List ToolResult)
      → wants_tools m ≡ true
      → result_ids rs ≡ tool_uses m.content
      → IsAnswered ms
      → IsAnswered (assistant m ∷ user_results rs ∷ ms)

IsAnswered-append : {xs ys : List Param} → IsAnswered xs → IsAnswered ys → IsAnswered (xs ++ ys)
IsAnswered-append empty k = k
IsAnswered-append (said text h) k = said text (IsAnswered-append h k)
IsAnswered-append (replied m e h) k = replied m e (IsAnswered-append h k)
IsAnswered-append (worked m rs e ids h) k = worked m rs e ids (IsAnswered-append h k)

module _ {W : Type 0} (provider : Provider W) (tools : Tools W) where
  result_ids-use_tools :
      (blocks : List Block) (w : W)
      → result_ids (use_tools provider tools blocks w).1 ≡ tool_uses blocks
  unfolding use_tools
  result_ids-use_tools [] w = refl
  result_ids-use_tools (other _ ∷ blocks) w = result_ids-use_tools blocks w
  result_ids-use_tools (uses tu ∷ blocks) w =
      ap (◌∷◌ tu.id) (result_ids-use_tools blocks (tools tu.name tu.input w).1)

  answered-IsAnswered :
      (next : List Param → W → Run W) (msgs : List Param) (r : Reply × W)
      → ((ms : List Param) (w : W) → IsAnswered ms → IsAnswered (next ms w).1)
      → IsAnswered msgs
      → IsAnswered (answered provider tools next msgs r).1
  unfolding answered
  answered-IsAnswered next msgs (failed texts stopped err, w) h v = v
  answered-IsAnswered next msgs (message texts m, w) h v = elim (Bool-cases (wants_tools m)) [
    | inl e ↦
        rw e (h _ _ (IsAnswered-append v (worked m _ e (result_ids-use_tools m.content w) empty)))
    | inr e ↦ rw e (IsAnswered-append v (replied m e empty))
  ]

  run_steps-IsAnswered :
      (steps : ℕ) (model system : Bytes) (left : ℕ) (msgs : List Param) (w : W)
      → IsAnswered msgs
      → IsAnswered (run_steps provider tools steps model system left msgs w).1
  unfolding run_steps
  run_steps-IsAnswered steps model system zero msgs w v = v
  run_steps-IsAnswered steps model system (suc left) msgs w v =
      answered-IsAnswered (run_steps provider tools steps model system left) msgs _
        (run_steps-IsAnswered steps model system left) v

  -- Where each message of the history that stopped for tool use, and no other, is directly followed
  -- by results, one for each of its tool uses in their order, the same holds after a run, however
  -- it ends: by an answer, an error, a stop, or the end of the budget. A message that stopped for
  -- another reason, as `max_tokens` is, gets no results, also where it carries tool uses.
  pub run-IsAnswered :
      (steps : ℕ) (model system user_message : Bytes) (msgs : List Param) (w : W)
      → IsAnswered msgs
      → IsAnswered (run provider tools steps model system user_message msgs w).1
  unfolding run
  run-IsAnswered steps model system user_message msgs w v =
      run_steps-IsAnswered steps model system steps _ w
        (IsAnswered-append v (said user_message empty))
