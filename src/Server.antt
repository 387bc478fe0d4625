-- ===== src/Server.antt =====
-- internal/server: the HTTP API and what the chat socket stores.
pub mod Api
pub mod Hosts
pub mod Sessions
pub mod Settings
pub mod Credentials
pub mod Chats
pub mod Static
pub mod Web
pub mod Replies
pub mod Keeping
pub mod Routes
pub mod Recorder
pub mod Socket
