-- ===== src/Agent/OpenAi/History.antt =====
-- The history of Chat Completions: which calls have their results.
use hopskip.Base.{
  ℕ, zero, suc, ◌≡◌, refl, inl, inr, Bool, true, false, ◌&&◌, List, [], ◌∷◌, ◌++◌, map,
  if◌then◌else◌, Bool-cases, ◌==◌, nat_eq, bytes_eq, pair_eq, int_eq, length,
}
use hopskip.Text.{Bytes}
use hopskip.Agent.Events.{is_not_chat_model_err}
use hopskip.Agent.Anthropic.{Tools}
use hopskip.Agent.OpenAi.{
  ToolCall, Choice, Param, system_message, user_message, assistant, tool_message, Reply, failed,
  completed, Input, ResponseReply, refused, responded, Runner, wants_tools, function_calls, Run,
  Chat, Responses, call_tools, responded_with, responses_steps, run_responses, chosen,
  completed_with, answered, chat_steps, begun, run,
}

abbrev pub call_ids : List ToolCall → List Bytes
call_ids = map (λ c. c.id)

-- The messages begin with one result for each call, in the order of the calls.
pub data AnswersTo : List Bytes → List Param → List Param → Type 0 where
  no_more : {ms : List Param} → AnswersTo [] ms ms
  answer :
      {ids : List Bytes} {ms rest : List Param} (id out : Bytes)
      → AnswersTo ids ms rest
      → AnswersTo (id ∷ ids) (tool_message id out ∷ ms) rest

-- Each choice that finished for tool calls and carries some is directly followed by one result for
-- each of its calls, in their order, and no results stand elsewhere: a choice that finished for
-- another reason has none, also where it carries calls.
pub data IsAnswered : List Param → Type 0 where
  empty : IsAnswered []
  told : {ms : List Param} (text : Bytes) → IsAnswered ms → IsAnswered (system_message text ∷ ms)
  said : {ms : List Param} (text : Bytes) → IsAnswered ms → IsAnswered (user_message text ∷ ms)
  replied :
      {ms : List Param} (c : Choice)
      → wants_tools c ≡ false
      → IsAnswered ms
      → IsAnswered (assistant c ∷ ms)
  worked :
      {ms rest : List Param} (c : Choice)
      → wants_tools c ≡ true
      → AnswersTo (call_ids c.tool_calls) ms rest
      → IsAnswered rest
      → IsAnswered (assistant c ∷ ms)

AnswersTo-append :
    {ids : List Bytes} {ms rest : List Param} (ys : List Param)
    → AnswersTo ids ms rest
    → AnswersTo ids (ms ++ ys) (rest ++ ys)
AnswersTo-append ys no_more = no_more
AnswersTo-append ys (answer id out a) = answer id out (AnswersTo-append ys a)

IsAnswered-append :
    {xs : List Param} (ys : List Param) → IsAnswered xs → IsAnswered ys → IsAnswered (xs ++ ys)
IsAnswered-append ys empty k = k
IsAnswered-append ys (told text h) k = told text (IsAnswered-append ys h k)
IsAnswered-append ys (said text h) k = said text (IsAnswered-append ys h k)
IsAnswered-append ys (replied c e h) k = replied c e (IsAnswered-append ys h k)
IsAnswered-append ys (worked c e a h) k =
    worked c e (AnswersTo-append ys a) (IsAnswered-append ys h k)

module _ {W : Type 0} (chat : Chat W) (responses : Responses W) (tools : Tools W) where
  AnswersTo-call_tools :
      (calls : List ToolCall) (w : W)
      → AnswersTo
          (call_ids calls)
          (map (λ o. tool_message o.0 o.1) (call_tools chat responses tools calls w).1)
          []
  unfolding call_tools
  AnswersTo-call_tools [] w = no_more
  AnswersTo-call_tools (tc ∷ calls) w =
      answer tc.id _ (AnswersTo-call_tools calls (tools tc.name tc.arguments w).1)

  msgs-responded :
      (next : List Input → Runner → W → Run W) (r : Runner) (a : ResponseReply × W)
      → ((i : List Input) (r1 : Runner) (w : W) → (next i r1 w).1.msgs ≡ r1.msgs)
      → (responded_with chat responses tools next r a).1.msgs ≡ r.msgs
  unfolding responded_with
  msgs-responded next r (refused stopped err, w) h = refl
  msgs-responded next r (responded resp, w) h =
      elim (Bool-cases (length (function_calls resp.output) == 0)) [
        | inl e ↦ rw e refl
        | inr e ↦ rw e (h _ _ _)
      ]

  -- The Responses API leaves the history alone.
  msgs-responses_steps :
      (steps : ℕ) (instructions : Bytes) (left : ℕ) (input : List Input) (r : Runner) (w : W)
      → (responses_steps chat responses tools steps instructions left input r w).1.msgs ≡ r.msgs
  unfolding responses_steps
  msgs-responses_steps steps instructions zero input r w = refl
  msgs-responses_steps steps instructions (suc left) input r w =
      msgs-responded (responses_steps chat responses tools steps instructions left) r
        (responses r.prev_resp_id instructions input w)
        (msgs-responses_steps steps instructions left)

  chosen-IsAnswered :
      (next : Runner → W → Run W) (r : Runner) (choices : List Choice) (i o : ℕ) (w : W)
      → ((r1 : Runner) (w1 : W) → IsAnswered r1.msgs → IsAnswered (next r1 w1).1.msgs)
      → IsAnswered r.msgs
      → IsAnswered (completed_with chat responses tools next r choices i o w).1.msgs
  unfolding completed_with chosen
  chosen-IsAnswered next r [] i o w h v = v
  chosen-IsAnswered next r (c ∷ cs) i o w h v =
      let used = call_tools chat responses tools c.tool_calls w in
      let answers = map (λ a. tool_message a.0 a.1) used.1 in
      elim (Bool-cases (wants_tools c)) [
        | inl e ↦ rw e (
            h (record r { msgs = r.msgs ++ assistant c ∷ answers }) used.2
              (IsAnswered-append (assistant c ∷ answers) v
                (worked c e (AnswersTo-call_tools c.tool_calls w) empty)))
        | inr e ↦ rw e (IsAnswered-append (assistant c ∷ []) v (replied c e empty))
      ]

  answered-IsAnswered :
      (next again : Runner → W → Run W) (first : Bool) (r : Runner) (a : Reply × W)
      → ((r1 : Runner) (w1 : W) → IsAnswered r1.msgs → IsAnswered (next r1 w1).1.msgs)
      → ((r1 : Runner) (w1 : W) → IsAnswered r1.msgs → IsAnswered (again r1 w1).1.msgs)
      → IsAnswered r.msgs
      → IsAnswered (answered chat responses tools next again first r a).1.msgs
  unfolding answered
  answered-IsAnswered next again first r (failed texts stopped err, w) h k v =
      elim (Bool-cases (is_not_chat_model_err err && first)) [
        | inl e ↦ rw e (k (record r { use_responses = true }) w v)
        | inr e ↦ rw e v
      ]
  answered-IsAnswered next again first r (completed texts choices i o, w) h k v =
      chosen-IsAnswered next r choices i o w h v

  run_responses-IsAnswered :
      (steps : ℕ) (system user_text : Bytes) (r : Runner) (w : W)
      → IsAnswered r.msgs
      → IsAnswered (run_responses chat responses tools steps system user_text r w).1.msgs
  unfolding run_responses
  run_responses-IsAnswered steps system user_text r w v =
      rw (msgs-responses_steps steps system steps _ r w) v

  chat_steps-IsAnswered :
      (steps : ℕ) (system user_text : Bytes) (left : ℕ) (r : Runner) (w : W)
      → IsAnswered r.msgs
      → IsAnswered (chat_steps chat responses tools steps system user_text left r w).1.msgs
  unfolding chat_steps
  chat_steps-IsAnswered steps system user_text zero r w v = v
  chat_steps-IsAnswered steps system user_text (suc left) r w v =
      answered-IsAnswered (chat_steps chat responses tools steps system user_text left)
        (run_responses chat responses tools steps system user_text) (suc left == steps) r
        (chat r.msgs w) (chat_steps-IsAnswered steps system user_text left)
        (run_responses-IsAnswered steps system user_text) v

  begun-IsAnswered :
      (system : Bytes) (r : Runner) → IsAnswered r.msgs → IsAnswered (begun system r).msgs
  begun-IsAnswered system r v = elim (Bool-cases r.started) [
    | inl e ↦ simp e v
    | inr e ↦ simp e (IsAnswered-append (system_message system ∷ []) v (told system empty))
  ]

  either-IsAnswered :
      (b : Bool) (x y : Run W)
      → IsAnswered x.1.msgs
      → IsAnswered y.1.msgs
      → IsAnswered (if b then x else y).1.msgs
  either-IsAnswered true x y h k = h
  either-IsAnswered false x y h k = k

  -- Where each choice of the history that finished for tool calls, and no other, is directly
  -- followed by results, one for each of its calls in their order, the same holds after a run,
  -- however it ends, the change to the Responses API included. A choice that finished for another
  -- reason, as "length" is, gets no results, also where it carries calls.
  pub run_openai-IsAnswered :
      (steps : ℕ) (system user_text : Bytes) (r : Runner) (w : W)
      → IsAnswered r.msgs
      → IsAnswered (run chat responses tools steps system user_text r w).1.msgs
  unfolding run
  run_openai-IsAnswered steps system user_text r w v =
      let b =
        IsAnswered-append (user_message user_text ∷ []) (begun-IsAnswered system r v)
          (said user_text empty) in
      either-IsAnswered r.use_responses _ _ (run_responses-IsAnswered steps system user_text r w v)
        (chat_steps-IsAnswered steps system user_text steps _ w b)
