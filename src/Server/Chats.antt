-- ===== src/Server/Chats.antt =====
-- internal/server/chats.go and knowledge.go: the handlers of the saved chats and of what is
-- remembered.
use hopskip.Base.{Option, [], if◌then◌else◌, ◌==◌, nat_eq, bytes_eq, pair_eq, int_eq}
use hopskip.Text.{Bytes, codes}
use hopskip.Text.Trim.{trim_space}
use hopskip.Store.Db.{Result, ok, err, Db, M}
use hopskip.Agent.Conversations.{Memory, drop_chat}
use hopskip.Store.Chats.{list_chats, create_chat, rename_chat, delete_chat, list_chat_messages}
use hopskip.Store.Settings.{list_knowledge, add_knowledge, delete_knowledge}
use hopskip.Server.Api.{
  Reply, Body, write_json, write_err, internal_error, attempt, with_body, with_id,
}

unfoldable pub handle_list_chats : M Reply
handle_list_chats = attempt list_chats internal_error λ cs. write_json 200 (Body.chats cs)

unfoldable pub handle_create_chat : (now random_id : Bytes) → M Reply
handle_create_chat now random_id =
    attempt (create_chat now random_id) internal_error λ id. write_json 201 (Body.chat_created id)

-- `body` is the field "title" of the JSON.
unfoldable pub handle_rename_chat : Bytes → Option Bytes → M Reply
handle_rename_chat id body = with_body body λ title.
    attempt (rename_chat id (trim_space title)) internal_error λ _. write_json 200 Body.confirmed

-- What follows the delete: the conversation in memory goes where the rows are gone.
abbrev pub deleted_chat : Bytes → Memory → Result {0} Unit × Db → Reply × Memory × Db
deleted_chat id memory (ok _, db) =
    (record { code = 200; body = Body.confirmed }, drop_chat id memory, db)
deleted_chat id memory (err e, db) = (record { code = 500; body = Body.failure e }, memory, db)

unfoldable pub handle_delete_chat : Bytes → Memory → Db → Reply × Memory × Db
handle_delete_chat id memory db = deleted_chat id memory (delete_chat id db)

unfoldable pub handle_chat_messages : Bytes → M Reply
handle_chat_messages id =
    attempt (list_chat_messages id) internal_error λ ms. write_json 200 (Body.messages ms)

unfoldable pub handle_list_knowledge : M Reply
handle_list_knowledge =
    attempt list_knowledge internal_error λ ks. write_json 200 (Body.knowledge ks)

-- `body` is the field "text" of the JSON.
unfoldable pub handle_add_knowledge : Bytes → Option Bytes → M Reply
handle_add_knowledge now body = with_body body λ text.
    if trim_space text == []
    then write_err 400 (codes "text is required")
    else attempt (add_knowledge now (trim_space text)) internal_error
        λ id. write_json 201 (Body.identified id)

unfoldable pub handle_delete_knowledge : Bytes → M Reply
handle_delete_knowledge id_text =
    with_id id_text
      λ id. attempt (delete_knowledge id) internal_error λ _. write_json 200 Body.confirmed
