-- ===== src/Store.antt =====
-- internal/store: the tables, the connection, and the methods of the store.
pub mod Rows
pub mod Tables
pub mod Db
pub mod Hosts
pub mod Sessions
pub mod Credentials
pub mod Chats
pub mod Settings
pub mod Web
