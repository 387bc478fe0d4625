-- ===== src/Store/Settings.antt =====
-- internal/store/chat.go and knowledge.go: key/value settings and remembered facts.
pub mod Reading
use hopskip.Base.{
  Option, none, some, List, [], ◌∷◌, ◌++◌, nat_eq, bytes_eq, pair_eq, ℤ, int_eq, int_leb,
}
use hopskip.Text.{Bytes}
use hopskip.Store.Tables.{Tables, Setting, Knowledge}
use hopskip.Store.Rows.{delete_where, order_by, next_id, at_key, row, upsert}
use hopskip.Store.Db.{ok, M, pure, exec, query, catch, ◌>>=◌, result_or}

abbrev pub setting_key : Setting → Bytes
setting_key s = s.key

abbrev pub value_of : Option Setting → Option Bytes
value_of none = none
value_of (some s) = some s.value

abbrev pub stored : Bytes → Tables → Option Bytes
stored key t = value_of (row setting_key key t.app_settings)

-- Any error reads as a setting that is not set.
unfoldable pub get_setting : Bytes → M (Option Bytes)
get_setting key = do found ← catch (query (stored key)); pure (result_or found none)

unfoldable pub set_setting : Bytes → Bytes → M Unit
set_setting key value = exec λ t.
    let new : Setting = record { key = key; value = value } in
    ok (
      tt,
      record t {
        app_settings = upsert setting_key key (λ s. record s { value = value }) new t.app_settings;
      },
    )

abbrev pub knowledge_id : Knowledge → ℤ
knowledge_id k = k.id

unfoldable pub add_knowledge : Bytes → Bytes → M ℤ
add_knowledge now text = exec λ t.
    let id = next_id knowledge_id t.knowledge in
    let new : Knowledge = record { id = id; text = text; created_at = now } in
    ok (id, record t { knowledge = t.knowledge ++ new ∷ [] })

unfoldable pub list_knowledge : M (List Knowledge)
list_knowledge = query (λ t. order_by (λ a b. int_leb a.id b.id) t.knowledge)

unfoldable pub delete_knowledge : ℤ → M Unit
delete_knowledge id =
    exec λ t. ok (tt, record t { knowledge = delete_where (at_key knowledge_id id) t.knowledge })
