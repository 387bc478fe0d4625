-- ===== src/Agent/Anthropic.antt =====
-- internal/agent/anthropic.go: a run against the Anthropic Messages API. The provider and the tools
-- are parameters, which act on a world of their own.
pub mod Acts
pub mod Runs
pub mod History
use hopskip.Base.{
  ℕ, zero, suc, ◌+◌, ◌-◌, ◌*◌, ◌≤◌, ◌<◌, ◌≡◌, refl, sym, ap, ◌∙◌, ◌≢◌, ◌↔◌, ◌⊎◌, inl, inr, Bool,
  true, false, not, ◌&&◌, ◌||◌, Option, none, some, List, [], ◌∷◌, ◌++◌, map, append-nil,
  append_assoc, arith, ltb, leb, if◌then◌else◌, Bool-cases, Option-cases, Eq, ◌==◌, eq_iff, eq_refl,
  nat_eq, bytes_eq, bytes_beq, bytes_beq_iff, pair_eq, bytes_leb, ℤ, pos, negsuc, int_eq, int_leb,
  int_beq_iff, length, take, drop, min, keep, find, any, all, All,
}
use hopskip.Text.{Bytes, codes}
use hopskip.Text.Search.{contains}
use hopskip.Agent.Events.{
  Event, thinking, done, tool_use, tool_result, usage, failure, clip, tool_result_display_limit,
}
use hopskip.Agent.Trace.{streamed, out_of_steps}

pub record ToolUse : Type 0 where
  pub id : Bytes
  pub name : Bytes
  pub input : Bytes

-- A content block: one that uses a tool, or any other.
pub data Block : Type 0 where
  uses : ToolUse → Block
  other : Bytes → Block

pub record Message : Type 0 where
  pub content : List Block
  pub stop_reason : Bytes
  pub input_tokens : ℕ
  pub output_tokens : ℕ

pub record ToolResult : Type 0 where
  pub tool_use_id : Bytes
  pub content : Bytes
  pub is_error : Bool

-- A message of the history.
pub data Param : Type 0 where
  user_text : Bytes → Param
  assistant : Message → Param
  user_results : List ToolResult → Param

-- What one streaming call gives: the texts on the way and then the message, or an error, with
-- whether the operator had stopped the run by then.
pub data Reply : Type 0 where
  failed : List Bytes → Bool → Bytes → Reply
  message : List Bytes → Message → Reply

abbrev pub stop_reason_tool_use : Bytes
stop_reason_tool_use = codes "tool_use"

abbrev pub wants_tools : Message → Bool
wants_tools m = m.stop_reason == stop_reason_tool_use

unfoldable pub anthropic_thinks : Bytes → Bool
anthropic_thinks model = contains model (codes "opus") || contains model (codes "sonnet")

abbrev pub separator : Bytes
separator = codes "  "

-- The request: whether the model thinks, the system prompt and the history.
abbrev pub Provider : Type 0 → Type 0
Provider W = Bool → Bytes → List Param → W → Reply × W

-- A call of `Dispatch`: the result and whether it is an error.
abbrev pub Tools : Type 0 → Type 0
Tools W = Bytes → Bytes → W → (Bytes × Bool) × W

-- What a run streams, the history it leaves, and the world.
abbrev pub Run : Type 0 → Type 0
Run W = List Event × List Param × W

module _ {W : Type 0} (provider : Provider W) (tools : Tools W) where
  unfoldable pub use_tools : List Block → W → List Event × List ToolResult × W
  use_tools [] w = ([], [], w)
  use_tools (other _ ∷ blocks) w = use_tools blocks w
  use_tools (uses tu ∷ blocks) w =
      let ((out, is_err), w1) = tools tu.name tu.input w in
      let (events, results, w2) = use_tools blocks w1 in
      (
        tool_use (tu.name ++ separator ++ tu.input)
            ∷ tool_result (clip out tool_result_display_limit)
            ∷ events,
        record { tool_use_id = tu.id; content = out; is_error = is_err } ∷ results,
        w2,
      )

  -- What follows a reply; `next` is the rest of the loop.
  unfoldable pub answered : (List Param → W → Run W) → List Param → Reply × W → Run W
  unfolding use_tools
  answered next msgs (failed texts stopped err, w) =
      (streamed texts ++ failure stopped err, msgs, w)
  answered next msgs (message texts m, w) =
      let (events, results, w1) = use_tools m.content w in
      let (more, msgs2, w2) = next (msgs ++ assistant m ∷ user_results results ∷ []) w1 in
      if wants_tools m
      then (streamed texts ++ usage m.input_tokens m.output_tokens ∷ (events ++ more), msgs2, w2)
      else (
        streamed texts ++ usage m.input_tokens m.output_tokens ∷ done ∷ [],
        msgs ++ assistant m ∷ [],
        w,
      )

  unfoldable pub run_steps : (steps : ℕ) (model system : Bytes) → ℕ → List Param → W → Run W
  unfolding answered
  run_steps steps model system zero msgs w = (out_of_steps steps, msgs, w)
  run_steps steps model system (suc left) msgs w =
      let (events, msgs1, w1) =
        answered (run_steps steps model system left) msgs
          (provider (anthropic_thinks model) system msgs w) in
      (thinking ∷ events, msgs1, w1)

  -- `run`, with the step budget and the system prompt as they are at its start.
  unfoldable pub run : (steps : ℕ) (model system user_message : Bytes) → List Param → W → Run W
  unfolding run_steps
  run steps model system user_message msgs w =
      run_steps steps model system steps (msgs ++ user_text user_message ∷ []) w
