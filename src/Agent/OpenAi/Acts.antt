-- ===== src/Agent/OpenAi/Acts.antt =====
-- The calls of a run, in a log that stands beside the world.
use hopskip.Base.{
  ℕ, zero, suc, ◌≡◌, refl, ap, sym, ◌∙◌, inl, inr, Bool, true, false, ◌&&◌, List, [], ◌∷◌, ◌++◌,
  map, append_assoc, length, if◌then◌else◌, Bool-cases, ◌==◌, nat_eq, bytes_eq, pair_eq, int_eq,
}
use hopskip.Text.{Bytes, codes}
use hopskip.Agent.Events.{Event, thinking, done, error, usage, failure, is_not_chat_model_err}
use hopskip.Agent.Trace.{streamed, out_of_steps}
use hopskip.Agent.Trace.Acts.{
  acts, acts-streamed_then, acts-failure, acts-out_of_steps, Logged, Logs, Logs-none, Logs-append,
}
use hopskip.Agent.Anthropic.{Tools}
use hopskip.Agent.Anthropic.Acts.{noted}
use hopskip.Agent.OpenAi.{
  ToolCall, Choice, assistant, tool_message, Reply, failed, completed, Input, call_output,
  ResponseReply, refused, responded, Runner, wants_tools, function_calls, Run, Chat, Responses, say,
  call_tools, responded_with, responses_steps, run_responses, chosen, completed_with, answered,
  chat_steps, run, begun, user_message,
}

module _ {W : Type 0} where
  -- The two providers, with each call in the log.
  abbrev pub tallied_chat : Chat W → Chat (Logged W)
  tallied_chat chat msgs (w, log) = let (r, w1) = chat msgs w in (r, (w1, log ++ thinking ∷ []))

  abbrev pub tallied_responses : Responses W → Responses (Logged W)
  tallied_responses responses prev instructions input (w, log) =
      let (r, w1) = responses prev instructions input w in (r, (w1, log ++ thinking ∷ []))

acts-say_then : (text : Bytes) (es : List Event) → acts (say text ++ es) ≡ acts es
unfolding acts
acts-say_then text es = elim (Bool-cases (text == [])) [ inl e ↦ rw e refl | inr e ↦ rw e refl ]

module _ {W : Type 0} (chat : Chat W) (responses : Responses W) (tools : Tools W) where
  abbrev c : Chat (Logged W)
  c = tallied_chat chat

  abbrev q : Responses (Logged W)
  q = tallied_responses responses

  abbrev t : Tools (Logged W)
  t = noted tools

  -- The log of a run that starts with a world.
  abbrev RunLogs : Logged W → Run (Logged W) → Type 0
  RunLogs w r = Logs w.1 r.0 r.2.1

  call_tools-Logs :
      (calls : List ToolCall) (w : Logged W)
      → Logs w.1 (call_tools c q t calls w).0 (call_tools c q t calls w).2.1
  unfolding call_tools acts
  call_tools-Logs [] w = Logs-none w.1 [] refl
  call_tools-Logs (tc ∷ calls) w =
      call_tools-Logs calls (t tc.name tc.arguments w).1 ∙ append_assoc w.1 _ _

  -- Texts and counts in front are no acts.
  unacted : (old fs es new : List Event) → acts fs ≡ acts es → Logs old es new → Logs old fs new
  unacted old fs es new e h = h ∙ ap (◌++◌ old) (sym e)

  responded-Logs :
      (next : List Input → Runner → Logged W → Run (Logged W)) (r : Runner) (a : ResponseReply)
      (w : Logged W)
      → ((i : List Input) (r1 : Runner) (v : Logged W) → RunLogs v (next i r1 v))
      → RunLogs w (responded_with c q t next r (a, w))
  unfolding responded_with acts
  responded-Logs next r (refused stopped err) w h =
      Logs-none w.1 (failure stopped err) (acts-failure stopped err)
  responded-Logs next r (responded resp) w h =
      let said = usage resp.input_tokens resp.output_tokens ∷ say resp.output_text in
      let calls = function_calls resp.output in
      let used = call_tools c q t calls w in
      let input = map (λ o. call_output o.0 o.1) used.1 in
      let r1 = record r { prev_resp_id = resp.id } in
      let rest = next input r1 used.2 in
      elim (Bool-cases (length calls == 0)) [
        | inl e ↦
            rw e (Logs-none w.1 (said ++ done ∷ []) (acts-say_then resp.output_text (done ∷ [])))
        | inr e ↦ rw e (
            unacted w.1 (said ++ (used.0 ++ rest.0)) (used.0 ++ rest.0) rest.2.1
              (acts-say_then resp.output_text (used.0 ++ rest.0))
              (Logs-append w.1 used.2.1 rest.2.1 used.0 rest.0 (call_tools-Logs calls w)
                (h input r1 used.2)))
      ]

  responses_steps-Logs :
      (steps : ℕ) (instructions : Bytes) (left : ℕ) (input : List Input) (r : Runner) (w : Logged W)
      → RunLogs w (responses_steps c q t steps instructions left input r w)
  unfolding responses_steps acts
  responses_steps-Logs steps instructions zero input r w =
      Logs-none w.1 (out_of_steps steps) (acts-out_of_steps steps)
  responses_steps-Logs steps instructions (suc left) input r w =
      let a = q r.prev_resp_id instructions input w in
      responded-Logs (responses_steps c q t steps instructions left) r a.0 a.1
        (responses_steps-Logs steps instructions left)
      ∙ append_assoc w.1 (thinking ∷ []) _

  completed-Logs :
      (next : Runner → Logged W → Run (Logged W)) (r : Runner) (choices : List Choice) (i o : ℕ)
      (w : Logged W)
      → ((r1 : Runner) (v : Logged W) → RunLogs v (next r1 v))
      → RunLogs w (completed_with c q t next r choices i o w)
  unfolding completed_with chosen acts
  completed-Logs next r [] i o w h =
      Logs-none w.1 (error (codes "empty response from provider") ∷ done ∷ []) refl
  completed-Logs next r (choice ∷ more) i o w h =
      let used = call_tools c q t choice.tool_calls w in
      let r1 = record r {
        msgs = r.msgs ++ assistant choice ∷ map (λ a. tool_message a.0 a.1) used.1;
      } in
      let rest = next r1 used.2 in
      elim (Bool-cases (wants_tools choice)) [
        | inl e ↦ rw e (
            Logs-append w.1 used.2.1 rest.2.1 used.0 rest.0 (call_tools-Logs choice.tool_calls w)
              (h r1 used.2))
        | inr e ↦ rw e (Logs-none w.1 (usage i o ∷ done ∷ []) refl)
      ]

  answered-Logs :
      (next again : Runner → Logged W → Run (Logged W)) (first : Bool) (r : Runner) (a : Reply)
      (w : Logged W)
      → ((r1 : Runner) (v : Logged W) → RunLogs v (next r1 v))
      → ((r1 : Runner) (v : Logged W) → RunLogs v (again r1 v))
      → RunLogs w (answered c q t next again first r (a, w))
  unfolding answered
  answered-Logs next again first r (failed texts stopped err) w h k =
      let r1 = record r { use_responses = true } in
      elim (Bool-cases (is_not_chat_model_err err && first)) [
        | inl e ↦ rw e (
            unacted w.1 (streamed texts ++ (again r1 w).0) (again r1 w).0 (again r1 w).2.1
              (acts-streamed_then texts (again r1 w).0) (k r1 w))
        | inr e ↦ rw e (
            Logs-none w.1 (streamed texts ++ failure stopped err)
              (acts-streamed_then texts (failure stopped err) ∙ acts-failure stopped err))
      ]
  answered-Logs next again first r (completed texts choices i o) w h k =
      let rest = completed_with c q t next r choices i o w in
      unacted w.1 (streamed texts ++ rest.0) rest.0 rest.2.1 (acts-streamed_then texts rest.0)
        (completed-Logs next r choices i o w h)

  chat_steps-Logs :
      (steps : ℕ) (system user_text : Bytes) (left : ℕ) (r : Runner) (w : Logged W)
      → RunLogs w (chat_steps c q t steps system user_text left r w)
  unfolding chat_steps run_responses acts
  chat_steps-Logs steps system user_text zero r w =
      Logs-none w.1 (out_of_steps steps) (acts-out_of_steps steps)
  chat_steps-Logs steps system user_text (suc left) r w =
      let a = c r.msgs w in
      answered-Logs (chat_steps c q t steps system user_text left)
        (run_responses c q t steps system user_text) (suc left == steps) r a.0 a.1
        (chat_steps-Logs steps system user_text left)
        (responses_steps-Logs steps system steps (Input.message_input user_text ∷ []))
      ∙ append_assoc w.1 (thinking ∷ []) _

  chosen_api-Logs :
      (b : Bool) (w : Logged W) (f g : Run (Logged W))
      → RunLogs w f
      → RunLogs w g
      → RunLogs w (if b then f else g)
  chosen_api-Logs true w f g h k = h
  chosen_api-Logs false w f g h k = k

  pub run-Logs :
      (steps : ℕ) (system user_text : Bytes) (r : Runner) (w : Logged W)
      → RunLogs w (run c q t steps system user_text r w)
  unfolding run run_responses
  run-Logs steps system user_text r w =
      let r1 = begun system r in
      chosen_api-Logs r.use_responses w _ _
        (responses_steps-Logs steps system steps (Input.message_input user_text ∷ []) r w)
        (chat_steps-Logs steps system user_text steps
          (record r1 { msgs = r1.msgs ++ user_message user_text ∷ [] }) w)
