-- ===== src/Lib.antt =====
-- hopskip: a daemon that keeps shell sessions on remote hosts, an inventory of the hosts, and chats
-- in which a language model works in those sessions.
--
-- The parts of the program and the modules that model them:
--
-- * internal/store, the SQLite store: Store. Store.Tables has the rows of the tables and the
--   errors, Store.Rows what SQL does with rows, Store.Db the connection. A method is a function
--   of the monad `M`: from the database to its result and the database after it. Each SQL statement
--   is one step, and the driver may fail any of them, by the list `faults` of the database.
--   Store.Hosts, Store.Sessions, Store.Credentials, Store.Chats, Store.Settings and Store.Web have
--   one function per method of store.go, chat.go, knowledge.go and web.go, named as the method is.
--   The time of a call is an argument.
-- * internal/session, the terminals: Session.Stream is the output of one session, in manager.go and
--   attach.go: `pump`, `teardown`, `attach`, `read`, `resize` and `detach` are the critical sections
--   of its lock, each a function of `LiveSession`. Session.Screen is the normalised
--   screen, and Session.Manager the live map with `Open`, `Close` and the end of a shell; there the
--   teardown of a session is one step, which may also fall between the two halves of `Open`: a shell
--   is live from `start_shell` on, and `record_shell` writes its row. Session.Sending is `SendKeys` and `Capture`; its fuel is one
--   look for each 100 ms of the wait and two more, as a look sleeps 100 ms. Session.Processes is the
--   search for ssh under a shell; its fuel is one more than the lines of ps, since each process
--   enters the queue once at most, and the root once.
-- * internal/agent, the work of the model: Agent. Agent.Anthropic and Agent.OpenAi are the loops of
--   anthropic.go and openai.go, functions of the provider (what a call gives) and of the tools, both
--   parameters on a world `W`; a run gives the list of its events and the history it leaves. The
--   budget of steps is the fuel of the loop, as it is in the code. Agent.Tools is `Dispatch` of
--   tools.go, for the handlers that work on the store, over its monad `M`; a tool that drives a
--   terminal or fetches a URL has no result there. Agent.Terminals has the tools that drive
--   terminals, over Session.Manager and Session.Sending; Agent.Prompts the facts, the notes and the
--   reminder that the model is given. Agent.Fetching has fetch_url and http_request,
--   functions of the network (what a request gives), of how the writing of a file ends, and of the
--   files that there are; `filepath.Join` and net/url are parameters.
--   Agent.Conversations has the chats in memory and `Send` of agent.go, over the loops of both
--   providers, and Agent.Operator what agent.go reads of the settings.
-- * internal/server, what faces the browser: Server.Hosts, Server.Sessions, Server.Credentials,
--   Server.Settings, Server.Chats and Server.Web have one function per handler of server.go, llm.go,
--   settings.go, chats.go, knowledge.go and web.go, named as the handler is: from what the request
--   carries, a body of JSON as what it decodes to, to the status and what the JSON of the reply
--   shows, over the store's monad. Server.Api has what all handlers do with a bad body, a bad id and
--   an error; Server.Routes is the route table over the state that the handlers share, less
--   handleSendKeys of Server.Sessions, whose reply waits for a terminal. Server.Static
--   serves the frontend from its four layers; the disk is a list of the files by their paths.
--   Server.Recorder is the recorder of ws.go, which stores what a run streams, and Server.Socket the
--   read loop and the worker of `handleChatWS`, by the steps that the two take in turn.
--
-- Go strings and byte slices are lists of byte values (`Bytes`), and machine integers that count
-- rows or bytes are natural numbers, since none comes near 2 ^ 63; an id is an integer.
--
-- The rules by which the handlers' proofs go are in Server.Replies, what a reply says of the rows, and
-- Server.Keeping, what the handlers keep.
--
-- Not modelled: the SDKs of the providers, the PTY, the terminal emulator and the process table of
-- the system, the HTTP and WebSocket libraries, the frontend in JavaScript, and the SQL engine
-- beyond the statements that the store issues.
pub mod Base
pub mod Text
pub mod Store
pub mod Session
pub mod Agent
pub mod Server
mod Tests
