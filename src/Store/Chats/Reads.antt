-- ===== src/Store/Chats/Reads.antt =====
-- Reading the chats.
use hopskip.Text.{Bytes}
use hopskip.Store.Tables.{Tables}
use hopskip.Store.Db.Keeps.{Keeps, Keeps-query}
use hopskip.Store.Chats.{list_chats, list_chat_messages}

module _ {P : Tables → Type 0} where
  pub list_chats-Keeps : Keeps P list_chats
  unfolding list_chats
  list_chats-Keeps = Keeps-query _

  pub list_chat_messages-Keeps : (id : Bytes) → Keeps P (list_chat_messages id)
  unfolding list_chat_messages
  list_chat_messages-Keeps id = Keeps-query _
