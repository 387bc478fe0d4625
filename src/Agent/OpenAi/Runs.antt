-- ===== src/Agent/OpenAi/Runs.antt =====
-- What a run streams, whatever the provider and the tools do.
use hopskip.Base.{
  ℕ, zero, suc, ◌<◌, ◌≡◌, inl, inr, Bool, true, ◌&&◌, List, [], ◌∷◌, ◌++◌, map, arith, Bool-cases,
  ◌==◌, nat_eq, bytes_eq, pair_eq, int_eq, length,
}
use hopskip.Text.{Bytes}
use hopskip.Agent.Events.{Event, is_not_chat_model_err}
use hopskip.Agent.Trace.{
  Transcript, finishes, asks, works, counts, streams, fails, streamed-Transcript,
  out_of_steps-Transcript, failure-Transcript, Transcript-suc,
}
use hopskip.Agent.Anthropic.{Tools}
use hopskip.Agent.Trace.Acts.{IsTold, log_lem}
use hopskip.Agent.Anthropic.Acts.{noted}
use hopskip.Agent.OpenAi.Acts.{tallied_chat, tallied_responses, run-Logs}
use hopskip.Agent.OpenAi.{
  ToolCall, Choice, assistant, tool_message, Reply, failed, completed, Input, call_output,
  ResponseReply, refused, responded, Runner, wants_tools, function_calls, Run, Chat, Responses, say,
  call_tools, responded_with, responses_steps, run_responses, chosen, completed_with, answered,
  chat_steps, run,
}

say-Transcript :
    {n : ℕ} (text : Bytes) {es : List Event} → Transcript n es → Transcript n (say text ++ es)
say-Transcript text t = elim (Bool-cases (text == [])) [
  | inl e ↦ rw e t
  | inr e ↦ rw e (streams text t)
]

module _ {W : Type 0} (chat : Chat W) (responses : Responses W) (tools : Tools W) where
  call_tools-Transcript :
      {n : ℕ} (calls : List ToolCall) (w : W) {es : List Event}
      → Transcript n es
      → Transcript n ((call_tools chat responses tools calls w).0 ++ es)
  unfolding call_tools
  call_tools-Transcript [] w t = t
  call_tools-Transcript (tc ∷ calls) w t =
      works _ _ (call_tools-Transcript calls (tools tc.name tc.arguments w).1 t)

  responded-Transcript :
      {n : ℕ} (next : List Input → Runner → W → Run W) (r : Runner) (a : ResponseReply × W)
      → ((i : List Input) (r1 : Runner) (w : W) → Transcript n (next i r1 w).0)
      → Transcript n (responded_with chat responses tools next r a).0
  unfolding responded_with
  responded-Transcript next r (refused stopped err, w) h = failure-Transcript stopped err
  responded-Transcript next r (responded resp, w) h =
      let calls = function_calls resp.output in
      let used = call_tools chat responses tools calls w in
      let more =
        h (map (λ o. call_output o.0 o.1) used.1) (record r { prev_resp_id = resp.id }) used.2 in
      elim (Bool-cases (length calls == 0)) [
        | inl e ↦
            rw e (
              counts resp.input_tokens resp.output_tokens
                (say-Transcript resp.output_text finishes))
        | inr e ↦ rw e (
            counts resp.input_tokens resp.output_tokens
              (say-Transcript resp.output_text (call_tools-Transcript calls w more)))
      ]

  responses_steps-Transcript :
      (steps : ℕ) (instructions : Bytes) (left : ℕ) (input : List Input) (r : Runner) (w : W)
      → Transcript left (responses_steps chat responses tools steps instructions left input r w).0
  unfolding responses_steps
  responses_steps-Transcript steps instructions zero input r w = out_of_steps-Transcript steps
  responses_steps-Transcript steps instructions (suc left) input r w = asks (
      responded-Transcript (responses_steps chat responses tools steps instructions left) r
        (responses r.prev_resp_id instructions input w)
        (responses_steps-Transcript steps instructions left))

  chosen-Transcript :
      {n : ℕ} (next : Runner → W → Run W) (r : Runner) (choices : List Choice) (i o : ℕ) (w : W)
      → ((r1 : Runner) (w1 : W) → Transcript n (next r1 w1).0)
      → Transcript n (completed_with chat responses tools next r choices i o w).0
  unfolding completed_with chosen
  chosen-Transcript next r [] i o w h = fails _ finishes
  chosen-Transcript next r (c ∷ cs) i o w h =
      let used = call_tools chat responses tools c.tool_calls w in
      let more =
        h (record r { msgs = r.msgs ++ assistant c ∷ map (λ a. tool_message a.0 a.1) used.1 })
          used.2 in
      elim (Bool-cases (wants_tools c)) [
        | inl e ↦ rw e (counts i o (call_tools-Transcript c.tool_calls w more))
        | inr e ↦ rw e (counts i o finishes)
      ]

  answered-Transcript :
      {n : ℕ} (next again : Runner → W → Run W) (first : Bool) (r : Runner) (a : Reply × W)
      → ((r1 : Runner) (w1 : W) → Transcript n (next r1 w1).0)
      → ((r1 : Runner) (w1 : W) → first ≡ true → Transcript n (again r1 w1).0)
      → Transcript n (answered chat responses tools next again first r a).0
  unfolding answered
  answered-Transcript next again first r (failed texts stopped err, w) h k =
      let switch = is_not_chat_model_err err && first in
      elim (Bool-cases switch) [
        | inl e ↦ rw e (streamed-Transcript texts (k _ w (ground arith)))
        | inr e ↦ rw e (streamed-Transcript texts (failure-Transcript stopped err))
      ]
  answered-Transcript next again first r (completed texts choices i o, w) h k =
      streamed-Transcript texts (chosen-Transcript next r choices i o w h)

  -- After the first call of a run there is no turn to the Responses API.
  later_steps-Transcript :
      (steps : ℕ) (system user_text : Bytes) (left : ℕ) (r : Runner) (w : W)
      → left < steps
      → Transcript left (chat_steps chat responses tools steps system user_text left r w).0
  unfolding chat_steps
  later_steps-Transcript steps system user_text zero r w h = out_of_steps-Transcript steps
  later_steps-Transcript steps system user_text (suc left) r w h = asks (
      answered-Transcript (chat_steps chat responses tools steps system user_text left)
        (run_responses chat responses tools steps system user_text) (suc left == steps) r
        (chat r.msgs w)
        (λ r1 w1. later_steps-Transcript steps system user_text left r1 w1 (omega (arith, h)))
        (λ r1 w1 first. absurd (ground (arith, first, h))))

  chat_steps-Transcript :
      (steps : ℕ) (system user_text : Bytes) (r : Runner) (w : W)
      → Transcript (suc steps) (chat_steps chat responses tools steps system user_text steps r w).0
  unfolding chat_steps run_responses
  chat_steps-Transcript zero system user_text r w = out_of_steps-Transcript 0
  chat_steps-Transcript (suc left) system user_text r w = asks (
      answered-Transcript (chat_steps chat responses tools (suc left) system user_text left)
        (run_responses chat responses tools (suc left) system user_text) (suc left == suc left) r
        (chat r.msgs w)
        (λ r1 w1.
          Transcript-suc
            (later_steps-Transcript (suc left) system user_text left r1 w1 (omega arith)))
        (λ r1 w1 _. responses_steps-Transcript (suc left) system (suc left) _ r1 w1))

  run_openai_ordered :
      (steps : ℕ) (system user_text : Bytes) (r : Runner) (w : W)
      → Transcript (suc steps) (run chat responses tools steps system user_text r w).0
  unfolding run run_responses
  run_openai_ordered steps system user_text r w = elim (Bool-cases r.use_responses) [
    | inl e ↦ simp e (Transcript-suc (responses_steps-Transcript steps system steps _ r w))
    | inr e ↦ simp e (chat_steps-Transcript steps system user_text _ w)
  ]

module _ {W : Type 0} (chat : Chat W) (responses : Responses W) (tools : Tools W) where
  -- Beside any providers and tools a log of their calls is kept, empty at first. A run makes at
  -- most one call of the provider more than its budget has steps; the log is what its events tell,
  -- one `thinking` for each call of the provider, by either API, and the two events of each call of
  -- a tool with its result as it is shown, in the order of the calls; each tool call is streamed
  -- with its result directly behind it; and `done` is streamed once, as the last event.
  pub run_openai-Transcript :
      (steps : ℕ) (system user_text : Bytes) (r : Runner) (w : W)
      → IsTold
          (suc steps)
          (run
            (tallied_chat chat)
            (tallied_responses responses)
            (noted tools)
            steps
            system
            user_text
            r
            (w, [])).0
          (run
            (tallied_chat chat)
            (tallied_responses responses)
            (noted tools)
            steps
            system
            user_text
            r
            (w, [])).2.1
  run_openai-Transcript steps system user_text r w =
      log_lem
        (run_openai_ordered (tallied_chat chat) (tallied_responses responses) (noted tools) steps
          system user_text r (w, []))
        (run-Logs chat responses tools steps system user_text r (w, []))
