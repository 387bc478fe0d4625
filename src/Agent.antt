-- ===== src/Agent.antt =====
-- internal/agent: the loops between a provider's model and the tools.
pub mod Events
pub mod Limits
pub mod Operator
pub mod Trace
pub mod Anthropic
pub mod OpenAi
pub mod Tools
pub mod Conversations
pub mod Fetching
pub mod Prompts
pub mod Terminals
