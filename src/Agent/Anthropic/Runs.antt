-- ===== src/Agent/Anthropic/Runs.antt =====
-- What a run streams, whatever the provider and the tools do.
use hopskip.Base.{
  ℕ, zero, suc, inl, inr, List, [], ◌∷◌, ◌++◌, Bool-cases, nat_eq, bytes_eq, pair_eq, int_eq,
}
use hopskip.Text.{Bytes}
use hopskip.Agent.Events.{Event}
use hopskip.Agent.Trace.{
  Transcript, finishes, asks, works, counts, streamed-Transcript, out_of_steps-Transcript,
  failure-Transcript,
}
use hopskip.Agent.Trace.Acts.{IsTold, log_lem}
use hopskip.Agent.Anthropic.Acts.{tallied, noted, run_steps-Logs}
use hopskip.Agent.Anthropic.{
  Block, uses, other, Param, assistant, user_results, Reply, failed, message, Provider, Tools, Run,
  wants_tools, use_tools, answered, run_steps, run,
}

module _ {W : Type 0} (provider : Provider W) (tools : Tools W) where
  use_tools-Transcript :
      {n : ℕ} (blocks : List Block) (w : W) {es : List Event}
      → Transcript n es
      → Transcript n ((use_tools provider tools blocks w).0 ++ es)
  unfolding use_tools
  use_tools-Transcript [] w t = t
  use_tools-Transcript (other _ ∷ blocks) w t = use_tools-Transcript blocks w t
  use_tools-Transcript (uses tu ∷ blocks) w t =
      works _ _ (use_tools-Transcript blocks (tools tu.name tu.input w).1 t)

  answered-Transcript :
      {n : ℕ} (next : List Param → W → Run W) (msgs : List Param) (r : Reply × W)
      → ((ms : List Param) (w : W) → Transcript n (next ms w).0)
      → Transcript n (answered provider tools next msgs r).0
  unfolding answered
  answered-Transcript next msgs (failed texts stopped err, w) h =
      streamed-Transcript texts (failure-Transcript stopped err)
  answered-Transcript next msgs (message texts m, w) h = elim (Bool-cases (wants_tools m)) [
    | inl e ↦
        let more =
          h (msgs ++ assistant m ∷ user_results (use_tools provider tools m.content w).1 ∷ [])
            (use_tools provider tools m.content w).2 in
        rw e (
          streamed-Transcript texts
            (counts m.input_tokens m.output_tokens (use_tools-Transcript m.content w more)))
    | inr e ↦ rw e (streamed-Transcript texts (counts m.input_tokens m.output_tokens finishes))
  ]

  run_steps-Transcript :
      (steps : ℕ) (model system : Bytes) (left : ℕ) (msgs : List Param) (w : W)
      → Transcript left (run_steps provider tools steps model system left msgs w).0
  unfolding run_steps
  run_steps-Transcript steps model system zero msgs w = out_of_steps-Transcript steps
  run_steps-Transcript steps model system (suc left) msgs w = asks (
      answered-Transcript (run_steps provider tools steps model system left) msgs _
        (run_steps-Transcript steps model system left))

module _ {W : Type 0} (provider : Provider W) (tools : Tools W) where
  -- Beside any provider and tools a log of their calls is kept, empty at first. A run makes at most
  -- as many calls of the provider as its budget has steps; the log is what its events tell, one
  -- `thinking` for each call of the provider, and the two events of each call of a tool with its
  -- result as it is shown, in the order of the calls; each tool call is streamed with its result
  -- directly behind it; and `done` is streamed once, as the last event.
  pub run-Transcript :
      (steps : ℕ) (model system user_message : Bytes) (msgs : List Param) (w : W)
      → IsTold steps
          (run (tallied provider) (noted tools) steps model system user_message msgs (w, [])).0
          (run (tallied provider) (noted tools) steps model system user_message msgs (w, [])).2.1
  unfolding run
  run-Transcript steps model system user_message msgs w =
      log_lem
        (run_steps-Transcript (tallied provider) (noted tools) steps model system steps _ (w, []))
        (run_steps-Logs provider tools steps model system steps _ (w, []))
