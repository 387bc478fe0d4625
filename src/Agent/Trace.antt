-- ===== src/Agent/Trace.antt =====
-- The order of the events that a run streams, and the texts around its tool calls.
pub mod Acts
use hopskip.Base.{
  ℕ, suc, inl, inr, Bool, true, false, List, [], ◌∷◌, ◌++◌, if◌then◌else◌, Bool-cases, ◌==◌, nat_eq,
  bytes_eq, pair_eq, int_eq,
}
use hopskip.Text.{Bytes, codes}
use hopskip.Agent.Events.{
  Event, thinking, done, token, tool_use, tool_result, notice, error, usage, failure,
}
use hopskip.Agent.Limits.{itoa}

-- The events of a run that calls the provider at most n times: each tool call has its result
-- directly behind it, and the one `done` is the last event.
pub data Transcript : ℕ → List Event → Type 0 where
  finishes : {n : ℕ} → Transcript n (done ∷ [])
  asks : {n : ℕ} {es : List Event} → Transcript n es → Transcript (suc n) (thinking ∷ es)
  works :
      {n : ℕ} {es : List Event} (call out : Bytes)
      → Transcript n es
      → Transcript n (tool_use call ∷ tool_result out ∷ es)
  streams :
      {n : ℕ} {es : List Event} (text : Bytes) → Transcript n es → Transcript n (token text ∷ es)
  notes :
      {n : ℕ} {es : List Event} (text : Bytes) → Transcript n es → Transcript n (notice text ∷ es)
  fails :
      {n : ℕ} {es : List Event} (text : Bytes) → Transcript n es → Transcript n (error text ∷ es)
  counts : {n : ℕ} {es : List Event} (i o : ℕ) → Transcript n es → Transcript n (usage i o ∷ es)

-- The texts of a stream, without the empty ones.
unfoldable pub streamed : List Bytes → List Event
streamed [] = []
streamed (text ∷ texts) =
    let rest = streamed texts in if text == [] then rest else token text ∷ rest

-- The end of a run that has used up its steps.
abbrev pub out_of_steps : ℕ → List Event
out_of_steps steps =
    notice (codes "(stopped: reached the " ++ itoa steps ++ codes "-step budget)") ∷ done ∷ []

module _ {n : ℕ} where
  pub streamed-Transcript :
      (texts : List Bytes) {es : List Event} → Transcript n es → Transcript n (streamed texts ++ es)
  unfolding streamed
  streamed-Transcript [] t = t
  streamed-Transcript (text ∷ texts) t = elim (Bool-cases (text == [])) [
    | inl e ↦ rw e (streamed-Transcript texts t)
    | inr e ↦ rw e (streams text (streamed-Transcript texts t))
  ]

  pub out_of_steps-Transcript : (steps : ℕ) → Transcript n (out_of_steps steps)
  out_of_steps-Transcript steps = notes _ finishes

  pub failure-Transcript : (stopped : Bool) (err : Bytes) → Transcript n (failure stopped err)
  failure-Transcript true err = notes _ finishes
  failure-Transcript false err = fails _ finishes

pub Transcript-suc : {n : ℕ} {es : List Event} → Transcript n es → Transcript (suc n) es
Transcript-suc finishes = finishes
Transcript-suc (asks t) = asks (Transcript-suc t)
Transcript-suc (works call out t) = works call out (Transcript-suc t)
Transcript-suc (streams text t) = streams text (Transcript-suc t)
Transcript-suc (notes text t) = notes text (Transcript-suc t)
Transcript-suc (fails text t) = fails text (Transcript-suc t)
Transcript-suc (counts i o t) = counts i o (Transcript-suc t)
