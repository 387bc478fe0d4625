-- ===== src/Agent/Anthropic/Acts.antt =====
-- The calls of a run, in a log that stands beside the world.
use hopskip.Base.{
  ℕ, zero, suc, refl, ap, sym, ◌∙◌, inl, inr, List, [], ◌∷◌, ◌++◌, append_assoc, Bool-cases, nat_eq,
  bytes_eq, pair_eq, int_eq,
}
use hopskip.Text.{Bytes}
use hopskip.Agent.Events.{
  thinking, done, tool_use, tool_result, usage, failure, clip, tool_result_display_limit,
}
use hopskip.Agent.Trace.{streamed, out_of_steps}
use hopskip.Agent.Trace.Acts.{
  acts, acts-streamed_then, acts-failure, acts-out_of_steps, Logged, Logs, Logs-none, Logs-append,
}
use hopskip.Agent.Anthropic.{
  Block, uses, other, Param, assistant, user_results, Reply, failed, message, Provider, Tools, Run,
  wants_tools, separator, use_tools, answered, run_steps,
}

module _ {W : Type 0} where
  -- The provider, with each call of it in the log.
  abbrev pub tallied : Provider W → Provider (Logged W)
  tallied provider thinks system msgs (w, log) =
      let (r, w1) = provider thinks system msgs w in (r, (w1, log ++ thinking ∷ []))

  -- The tools, with each call and its result, as it is shown, in the log.
  abbrev pub noted : Tools W → Tools (Logged W)
  noted tools name input (w, log) =
      let (o, w1) = tools name input w in
      (
        o,
        (
          w1,
          log
              ++ tool_use (name ++ separator ++ input)
                ∷ tool_result (clip o.0 tool_result_display_limit)
                ∷ [],
        ),
      )

module _ {W : Type 0} (provider : Provider W) (tools : Tools W) where
  use_tools-Logs :
      (blocks : List Block) (w : Logged W)
      → Logs w.1
          (use_tools (tallied provider) (noted tools) blocks w).0
          (use_tools (tallied provider) (noted tools) blocks w).2.1
  unfolding use_tools acts
  use_tools-Logs [] w = Logs-none w.1 [] refl
  use_tools-Logs (other _ ∷ blocks) w = use_tools-Logs blocks w
  use_tools-Logs (uses tu ∷ blocks) w =
      use_tools-Logs blocks (noted tools tu.name tu.input w).1 ∙ append_assoc w.1 _ _

  answered-Logs :
      (next : List Param → Logged W → Run (Logged W)) (msgs : List Param) (r : Reply) (w : Logged W)
      → ((ms : List Param) (v : Logged W) → Logs v.1 (next ms v).0 (next ms v).2.1)
      → Logs w.1
          (answered (tallied provider) (noted tools) next msgs (r, w)).0
          (answered (tallied provider) (noted tools) next msgs (r, w)).2.1
  unfolding answered acts
  answered-Logs next msgs (failed texts stopped err) w h =
      Logs-none w.1 (streamed texts ++ failure stopped err)
        (acts-streamed_then texts (failure stopped err) ∙ acts-failure stopped err)
  answered-Logs next msgs (message texts m) w h =
      let used = use_tools (tallied provider) (noted tools) m.content w in
      let rest = next (msgs ++ assistant m ∷ user_results used.1 ∷ []) used.2 in
      elim (Bool-cases (wants_tools m)) [
        | inl e ↦
            let more = h (msgs ++ assistant m ∷ user_results used.1 ∷ []) used.2 in
            rw e (
              Logs-append w.1 used.2.1 rest.2.1 used.0 rest.0 (use_tools-Logs m.content w) more
              ∙ ap (◌++◌ w.1) (
                  sym (
                    acts-streamed_then texts
                      (usage m.input_tokens m.output_tokens ∷ (used.0 ++ rest.0)))))
        | inr e ↦ rw e (
            Logs-none w.1 (streamed texts ++ usage m.input_tokens m.output_tokens ∷ done ∷ [])
              (acts-streamed_then texts (usage m.input_tokens m.output_tokens ∷ done ∷ [])))
      ]

  pub run_steps-Logs :
      (steps : ℕ) (model system : Bytes) (left : ℕ) (msgs : List Param) (w : Logged W)
      → Logs w.1
          (run_steps (tallied provider) (noted tools) steps model system left msgs w).0
          (run_steps (tallied provider) (noted tools) steps model system left msgs w).2.1
  unfolding run_steps acts
  run_steps-Logs steps model system zero msgs w =
      Logs-none w.1 (out_of_steps steps) (acts-out_of_steps steps)
  run_steps-Logs steps model system (suc left) msgs w =
      answered-Logs (run_steps (tallied provider) (noted tools) steps model system left) msgs _ _
        (run_steps-Logs steps model system left)
      ∙ append_assoc w.1 (thinking ∷ []) _
