-- ===== src/Store/Tables.antt =====
-- internal/store: the rows of the tables that `migrate` creates, and the errors of package store.
use hopskip.Base.{ℤ, Bool, List, Option}
use hopskip.Text.{Bytes}

-- `driver_failure` is any error of the SQL driver that is no constraint's: a lock, a full disk.
pub data Error : Type 0 where
  not_found unique_violation foreign_key_violation driver_failure : Error
  message : Bytes → Error

pub record HostRow : Type 0 where
  pub id : ℤ
  pub name : Bytes
  pub notes : Bytes
  pub created_at : Bytes

pub record TagRow : Type 0 where
  pub host_id : ℤ
  pub key : Bytes
  pub value : Bytes

pub record FactRow : Type 0 where
  pub host_id : ℤ
  pub key : Bytes
  pub value : Bytes
  pub observed_at : Bytes

-- The two values that the column `status` ever gets: 'open' and 'closed'.
pub data Status : Type 0 where
  opened closed : Status

pub record Session : Type 0 where
  pub id : Bytes
  pub host_id : Option ℤ
  pub tmux_name : Bytes
  pub label : Bytes
  pub status : Status
  pub opened_at : Bytes
  pub closed_at : Option Bytes

pub record Audit : Type 0 where
  pub id : ℤ
  pub ts : Bytes
  pub direction : Bytes
  pub provider : Bytes
  pub conversation : Bytes
  pub body_path : Bytes
  pub meta : Bytes

pub record Credential : Type 0 where
  pub id : ℤ
  pub label : Bytes
  pub provider : Bytes
  pub token : Bytes
  pub model : Bytes
  pub active : Bool
  pub created_at : Bytes

pub record ChatMeta : Type 0 where
  pub id : Bytes
  pub title : Bytes
  pub created_at : Bytes
  pub updated_at : Bytes

pub record MessageRow : Type 0 where
  pub id : ℤ
  pub chat_id : Bytes
  pub role : Bytes
  pub text : Bytes
  pub created_at : Bytes

pub record Setting : Type 0 where
  pub key : Bytes
  pub value : Bytes

pub record Knowledge : Type 0 where
  pub id : ℤ
  pub text : Bytes
  pub created_at : Bytes

pub record WebFileRow : Type 0 where
  pub path : Bytes
  pub content : Bytes
  pub content_type : Bytes
  pub created_by : Bytes
  pub updated_at : Bytes

pub record Extension : Type 0 where
  pub id : ℤ
  pub slug : Bytes
  pub kind : Bytes
  pub mount : Bytes
  pub entry : Bytes
  pub title : Bytes
  pub sdk_range : Bytes
  pub enabled : Bool
  pub created_by : Bytes
  pub created_at : Bytes
  pub updated_at : Bytes
  pub content_hash : Bytes
  pub notes : Bytes

pub record Tables : Type 0 where
  pub hosts : List HostRow
  pub host_tags : List TagRow
  pub host_facts : List FactRow
  pub sessions : List Session
  pub audit_log : List Audit
  pub llm_credentials : List Credential
  pub chats : List ChatMeta
  pub chat_messages : List MessageRow
  pub app_settings : List Setting
  pub knowledge : List Knowledge
  pub web_files : List WebFileRow
  pub web_extensions : List Extension
