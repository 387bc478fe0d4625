-- ===== src/Agent/Trace/Acts.antt =====
-- What a run does, told by the events: its calls of the provider and of the tools.
use hopskip.Base.{
  ℕ, ◌+◌, ◌≤◌, ◌≡◌, refl, ap, sym, ◌∙◌, inl, inr, Bool, true, false, List, [], ◌∷◌, ◌++◌,
  append-nil, append_assoc, arith, Bool-cases, ◌==◌, nat_eq, bytes_eq, pair_eq, int_eq,
}
use hopskip.Text.{Bytes}
use hopskip.Agent.Events.{
  Event, thinking, done, token, tool_use, tool_result, notice, error, usage, failure,
}
use hopskip.Agent.Trace.{
  Transcript, finishes, asks, works, streams, notes, fails, counts, streamed, out_of_steps,
}

abbrev act_of : Event → List Event
act_of thinking = thinking ∷ []
act_of done = []
act_of (token text) = []
act_of (tool_use call) = tool_use call ∷ []
act_of (tool_result out) = tool_result out ∷ []
act_of (notice text) = []
act_of (error text) = []
act_of (usage i o) = []

-- The events of the calls: `thinking` for one of the provider, and two for one of a tool.
unfoldable pub acts : List Event → List Event
acts [] = []
acts (e ∷ es) = act_of e ++ acts es

abbrev thought : Event → ℕ
thought thinking = 1
thought done = 0
thought (token text) = 0
thought (tool_use call) = 0
thought (tool_result out) = 0
thought (notice text) = 0
thought (error text) = 0
thought (usage i o) = 0

-- The calls of the provider.
unfoldable pub thoughts : List Event → ℕ
thoughts [] = 0
thoughts (e ∷ es) = thought e + thoughts es

pub acts-append : (es fs : List Event) → acts (es ++ fs) ≡ acts es ++ acts fs
unfolding acts
acts-append [] fs = refl
acts-append (e ∷ es) fs =
    ap (◌++◌ (act_of e)) (acts-append es fs) ∙ sym (append_assoc (act_of e) (acts es) (acts fs))

acts-streamed : (texts : List Bytes) → acts (streamed texts) ≡ []
unfolding acts streamed
acts-streamed [] = refl
acts-streamed (text ∷ texts) = elim (Bool-cases (text == [])) [
  | inl e ↦ rw e (acts-streamed texts)
  | inr e ↦ rw e (acts-streamed texts)
]

pub acts-streamed_then :
    (texts : List Bytes) (es : List Event) → acts (streamed texts ++ es) ≡ acts es
acts-streamed_then texts es =
    acts-append (streamed texts) es ∙ ap (λ l. l ++ acts es) (acts-streamed texts)

pub acts-failure : (stopped : Bool) (err : Bytes) → acts (failure stopped err) ≡ []
unfolding acts
acts-failure true err = refl
acts-failure false err = refl

pub acts-out_of_steps : (steps : ℕ) → acts (out_of_steps steps) ≡ []
unfolding acts
acts-out_of_steps steps = refl

pub thoughts-acts-le : {n : ℕ} {es : List Event} → Transcript n es → thoughts (acts es) ≤ n
unfolding acts thoughts
thoughts-acts-le finishes = omega arith
thoughts-acts-le (asks t) = omega (arith, thoughts-acts-le t)
thoughts-acts-le (works call out t) = omega (arith, thoughts-acts-le t)
thoughts-acts-le (streams text t) = thoughts-acts-le t
thoughts-acts-le (notes text t) = thoughts-acts-le t
thoughts-acts-le (fails text t) = thoughts-acts-le t
thoughts-acts-le (counts i o t) = thoughts-acts-le t

-- A world with a log of the calls.
abbrev pub Logged : Type 0 → Type 0
Logged W = W × List Event

-- The log grows by the acts of the events.
abbrev pub Logs : List Event → List Event → List Event → Type 0
Logs old events new = new ≡ old ++ acts events

pub Logs-none : (old events : List Event) → acts events ≡ [] → Logs old events old
Logs-none old events e = rw (e, append-nil) refl

pub Logs-append :
    (old mid new es fs : List Event) → Logs old es mid → Logs mid fs new → Logs old (es ++ fs) new
Logs-append old mid new es fs h k =
    k
    ∙ ap (λ l. l ++ acts fs) h
    ∙ append_assoc old (acts es) (acts fs)
    ∙ ap (◌++◌ old) (sym (acts-append es fs))

-- What a run with a log streams, and the log that it leaves: it calls the provider at most n times,
-- and its events tell its calls, no more and no fewer, in their order.
pub record IsTold (n : ℕ) (events log : List Event) : Type 0 where
  pub order : Transcript n events
  pub told : log ≡ acts events
  pub within : thoughts log ≤ n

pub log_lem :
    {n : ℕ} {events log : List Event}
    → Transcript n events
    → Logs [] events log
    → IsTold n events log
log_lem {n} t e = record { order = t; told = e; within = rw e (thoughts-acts-le t) }
