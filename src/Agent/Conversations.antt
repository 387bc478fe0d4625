-- ===== src/Agent/Conversations.antt =====
-- internal/agent/agent.go: the chats in memory, each with the runner of the credential that was
-- active at its last message. The providers, the tools and the prompt are arguments; the world of a
-- run is the database and whatever else they change.
use hopskip.Base.{
  ◌++◌, not, Option, none, some, List, [], ◌∷◌, if◌then◌else◌, ◌==◌, nat_eq, bytes_eq, pair_eq,
  int_eq, lookup, keep, ℕ,
}
use hopskip.Text.{Bytes, codes}
use hopskip.Store.Tables.{Credential}
use hopskip.Store.Db.{Result, ok, err, Db}
use hopskip.Store.Credentials.{active_llm_credential}
use hopskip.Agent.Events.{Event, notice, done}
use hopskip.Agent.Anthropic
use hopskip.Agent.OpenAi

-- A runner: the credential that it was made for, and its history.
pub data Runner : Type 0 where
  anthropic_runner : Credential → List Anthropic.Param → Runner
  openai_runner : Credential → OpenAi.Runner → Runner

pub record Chat : Type 0 where
  pub runner : Option Runner
  pub r_key : Bytes

abbrev pub new_chat : Chat
new_chat = record { runner = none; r_key = [] }

-- `a.chats`
abbrev pub Memory : Type 0
Memory = List (Bytes × Chat)

abbrev or_new : Option Chat → Chat
or_new none = new_chat
or_new (some c) = c

-- The chat of an id, new where there is none.
unfoldable pub chat_for : Bytes → Memory → Chat
chat_for id memory = or_new (lookup id memory)

unfoldable pub drop_chat : Bytes → Memory → Memory
drop_chat id = keep (λ entry. not (entry.0 == id))

-- The chat of an id as a message has left it.
unfoldable pub put_chat : Bytes → Chat → Memory → Memory
put_chat id c memory = (id, c) ∷ memory

abbrev pub bar : Bytes
bar = b'|' ∷ []

unfoldable pub runner_key : Credential → Bytes
runner_key c = c.provider ++ (bar ++ (c.token ++ (bar ++ c.model)))

unfoldable pub new_runner : Credential → Runner
new_runner c =
    if c.provider == codes "openai"
    then openai_runner c OpenAi.new_runner
    else anthropic_runner c []

-- The runner of the chat, or a new one where the active credential is another than at the last
-- message.
abbrev pub runner_for : Credential → Chat → Runner
runner_for c chat = elim chat.runner [
  | none ↦ new_runner c
  | some r ↦ if chat.r_key == runner_key c then r else new_runner c
]

-- "🛈 No API token set. Open Settings, …"
abbrev pub no_token_text : Bytes
no_token_text =
    0xf0
      ∷ 0x9f
      ∷ 0x9b
      ∷ 0x88
      ∷ codes
          " No API token set. Open Settings, add an Anthropic or OpenAI token, and pick one as active "
    ++ (0xe2 ∷ 0x80 ∷ 0x94 ∷ codes " then chat again.")

abbrev pub default_anthropic_model : Bytes
default_anthropic_model = codes "claude-opus-4-8"

abbrev model_of : Credential → Bytes
model_of c = if c.model == [] then default_anthropic_model else c.model

module _ {E : Type 0} (anthropic : Credential → Anthropic.Provider (Db × E))
    (completions : Credential → OpenAi.Chat (Db × E))
    (responses : Credential → OpenAi.Responses (Db × E)) (tools : Anthropic.Tools (Db × E)) where
  -- The events of a message, the chat that it leaves, and the world.
  abbrev pub Sent : Type 0
  Sent = List Event × Chat × (Db × E)

  -- The budget of steps and the prompt are as they are at the start of the run.
  unfoldable pub run_runner :
      (steps : ℕ) (system text : Bytes) → Runner → Db × E → List Event × Runner × (Db × E)
  run_runner steps system text (anthropic_runner c msgs) w =
      let (events, msgs1, w1) =
        Anthropic.run (anthropic c) tools steps (model_of c) system text msgs w in
      (events, anthropic_runner c msgs1, w1)
  run_runner steps system text (openai_runner c r) w =
      let (events, r1, w1) = OpenAi.run (completions c) (responses c) tools steps system text r w in
      (events, openai_runner c r1, w1)

  sent_by : Bytes → List Event × Runner × (Db × E) → Sent
  sent_by key (events, r, w) = (events, record { runner = some r; r_key = key }, w)

  -- Behind the query of the active credential.
  with_credential :
      (steps : Db → ℕ) (system : Db → Bytes) (text : Bytes)
      → Chat
      → Result Credential × Db
      → E
      → Sent
  unfolding sent_by run_runner
  with_credential steps system text chat (err e, db) rest =
      (notice no_token_text ∷ done ∷ [], chat, (db, rest))
  with_credential steps system text chat (ok c, db) rest =
      sent_by (runner_key c) (run_runner (steps db) (system db) text (runner_for c chat) (db, rest))

  -- `Send`
  unfoldable pub send : (steps : Db → ℕ) (system : Db → Bytes) (text : Bytes) → Chat → Db × E → Sent
  unfolding with_credential
  send steps system text chat (db, rest) =
      with_credential steps system text chat (active_llm_credential db) rest
