-- ===== src/Agent/OpenAi.antt =====
-- internal/agent/openai.go: a run against OpenAI, by Chat Completions or, for a model that is served
-- only there, by the Responses API. The provider and the tools are parameters.
pub mod Acts
pub mod Runs
pub mod History
use hopskip.Base.{
  ℕ, zero, suc, ◌+◌, ◌-◌, ◌*◌, ◌≤◌, ◌<◌, ◌≡◌, refl, sym, ap, ◌∙◌, ◌≢◌, ◌↔◌, ◌⊎◌, inl, inr, Bool,
  true, false, not, ◌&&◌, ◌||◌, Option, none, some, List, [], ◌∷◌, ◌++◌, map, append-nil,
  append_assoc, arith, ltb, leb, if◌then◌else◌, Bool-cases, Option-cases, Eq, ◌==◌, eq_iff, eq_refl,
  nat_eq, bytes_eq, bytes_beq, bytes_beq_iff, pair_eq, bytes_leb, ℤ, pos, negsuc, int_eq, int_leb,
  int_beq_iff, length, take, drop, min, keep, find, any, all, All,
}
use hopskip.Text.{Bytes, codes}
use hopskip.Agent.Events.{
  Event, thinking, done, token, tool_use, tool_result, error, usage, failure, clip,
  tool_result_display_limit, is_not_chat_model_err,
}
use hopskip.Agent.Trace.{streamed, out_of_steps}
use hopskip.Agent.Anthropic.{Tools, separator}

pub record ToolCall : Type 0 where
  pub id : Bytes
  pub name : Bytes
  pub arguments : Bytes

pub record Choice : Type 0 where
  pub finish_reason : Bytes
  pub content : Bytes
  pub tool_calls : List ToolCall

-- A message of the history.
pub data Param : Type 0 where
  system_message user_message : Bytes → Param
  assistant : Choice → Param
  -- the id of the call, and the result
  tool_message : Bytes → Bytes → Param

-- A streaming call of Chat Completions: the texts, and an error, with whether the operator had
-- stopped the run, or the choices and the tokens used.
pub data Reply : Type 0 where
  failed : List Bytes → Bool → Bytes → Reply
  completed : List Bytes → List Choice → ℕ → ℕ → Reply

-- An item that a request to the Responses API carries.
pub data Input : Type 0 where
  message_input : Bytes → Input
  call_output : Bytes → Bytes → Input

pub data Output : Type 0 where
  function_call : ToolCall → Output
  other_output : Bytes → Output

pub record Response : Type 0 where
  pub id : Bytes
  pub output_text : Bytes
  pub output : List Output
  pub input_tokens : ℕ
  pub output_tokens : ℕ

pub data ResponseReply : Type 0 where
  refused : Bool → Bytes → ResponseReply
  responded : Response → ResponseReply

pub record Runner : Type 0 where
  pub msgs : List Param
  pub started : Bool
  pub use_responses : Bool
  pub prev_resp_id : Bytes

abbrev pub new_runner : Runner
new_runner = record { msgs = []; started = false; use_responses = false; prev_resp_id = [] }

abbrev pub wants_tools : Choice → Bool
wants_tools c = c.finish_reason == codes "tool_calls" && not (length c.tool_calls == 0)

-- The calls among the items of a response.
unfoldable pub function_calls : List Output → List ToolCall
function_calls [] = []
function_calls (function_call tc ∷ items) = tc ∷ function_calls items
function_calls (other_output _ ∷ items) = function_calls items

-- What a run streams, the runner it leaves, and the world.
abbrev pub Run : Type 0 → Type 0
Run W = List Event × Runner × W

abbrev pub Chat : Type 0 → Type 0
Chat W = List Param → W → Reply × W

-- The request: the id of the previous response, the instructions and the input.
abbrev pub Responses : Type 0 → Type 0
Responses W = Bytes → Bytes → List Input → W → ResponseReply × W

abbrev pub say : Bytes → List Event
say text = if text == [] then [] else token text ∷ []

-- The system message goes in front of the first message of a chat.
abbrev pub begun : Bytes → Runner → Runner
begun system r =
    if r.started
    then r
    else record r { msgs = r.msgs ++ system_message system ∷ []; started = true }

module _ {W : Type 0} (chat : Chat W) (responses : Responses W) (tools : Tools W) where
  -- The results of the calls, each with the id of its call.
  unfoldable pub call_tools : List ToolCall → W → List Event × List (Bytes × Bytes) × W
  call_tools [] w = ([], [], w)
  call_tools (tc ∷ calls) w =
      let ((out, _), w1) = tools tc.name tc.arguments w in
      let (events, results, w2) = call_tools calls w1 in
      (
        tool_use (tc.name ++ separator ++ tc.arguments)
            ∷ tool_result (clip out tool_result_display_limit)
            ∷ events,
        (tc.id, out) ∷ results,
        w2,
      )

  unfoldable pub responded_with :
      (List Input → Runner → W → Run W) → Runner → ResponseReply × W → Run W
  unfolding call_tools function_calls
  responded_with next r (refused stopped err, w) = (failure stopped err, r, w)
  responded_with next r (responded resp, w) =
      let r1 = record r { prev_resp_id = resp.id } in
      let calls = function_calls resp.output in
      let (events, results, w1) = call_tools calls w in
      let (more, r2, w2) = next (map (λ o. call_output o.0 o.1) results) r1 w1 in
      let said = usage resp.input_tokens resp.output_tokens ∷ say resp.output_text in
      if length calls == 0 then (said ++ done ∷ [], r1, w) else (said ++ (events ++ more), r2, w2)

  unfoldable pub responses_steps :
      (steps : ℕ) (instructions : Bytes) → ℕ → List Input → Runner → W → Run W
  unfolding responded_with
  responses_steps steps instructions zero input r w = (out_of_steps steps, r, w)
  responses_steps steps instructions (suc left) input r w =
      let (events, r1, w1) =
        responded_with (responses_steps steps instructions left) r
          (responses r.prev_resp_id instructions input w) in
      (thinking ∷ events, r1, w1)

  unfoldable pub run_responses : (steps : ℕ) (instructions user_text : Bytes) → Runner → W → Run W
  unfolding responses_steps
  run_responses steps instructions user_text r w =
      responses_steps steps instructions steps (message_input user_text ∷ []) r w

  -- A choice of the provider; `next` is the rest of the loop.
  unfoldable pub chosen : (Runner → W → Run W) → Runner → List Choice → W → Run W
  unfolding call_tools
  chosen next r [] w = (error (codes "empty response from provider") ∷ done ∷ [], r, w)
  chosen next r (choice ∷ _) w =
      let (events, results, w1) = call_tools choice.tool_calls w in
      let answers = map (λ o. tool_message o.0 o.1) results in
      let (more, r2, w2) = next (record r { msgs = r.msgs ++ assistant choice ∷ answers }) w1 in
      if wants_tools choice
      then (events ++ more, r2, w2)
      else (done ∷ [], record r { msgs = r.msgs ++ assistant choice ∷ [] }, w)

  -- `usage` is streamed only where there is a choice.
  unfoldable pub completed_with : (Runner → W → Run W) → Runner → List Choice → ℕ → ℕ → W → Run W
  unfolding chosen
  completed_with next r [] i o w = chosen next r [] w
  completed_with next r (c ∷ cs) i o w =
      let (events, r1, w1) = chosen next r (c ∷ cs) w in (usage i o ∷ events, r1, w1)

  -- What follows a reply of Chat Completions: `other` is the turn again by the Responses API, for the
  -- first call of the run.
  unfoldable pub answered :
      (next other : Runner → W → Run W) → (first : Bool) → Runner → Reply × W → Run W
  unfolding completed_with is_not_chat_model_err
  answered next other first r (failed texts stopped err, w) =
      let (events, r1, w1) = other (record r { use_responses = true }) w in
      if is_not_chat_model_err err && first
      then (streamed texts ++ events, r1, w1)
      else (streamed texts ++ failure stopped err, r, w)
  answered next other first r (completed texts choices i o, w) =
      let (events, r1, w1) = completed_with next r choices i o w in
      (streamed texts ++ events, r1, w1)

  unfoldable pub chat_steps : (steps : ℕ) (system user_text : Bytes) → ℕ → Runner → W → Run W
  unfolding answered run_responses
  chat_steps steps system user_text zero r w = (out_of_steps steps, r, w)
  chat_steps steps system user_text (suc left) r w =
      let (events, r1, w1) =
        answered (chat_steps steps system user_text left) (run_responses steps system user_text)
          (suc left == steps) r (chat r.msgs w) in
      (thinking ∷ events, r1, w1)

  -- `run`, with the step budget and the system prompt as they are at its start.
  unfoldable pub run : (steps : ℕ) (system user_text : Bytes) → Runner → W → Run W
  unfolding chat_steps
  run steps system user_text r w =
      let r1 = begun system r in
      if r.use_responses
      then run_responses steps system user_text r w
      else chat_steps steps system user_text steps
          (record r1 { msgs = r1.msgs ++ user_message user_text ∷ [] }) w
