-- ===== src/Record.antt =====
-- What a workspace's rules remember, and the requests and answers they exchange: the types of
-- upload.rs, rewrite.rs, workspace.rs and ledger/mod.rs in crates/passalong-server-core/src.
pub mod Generations
pub mod Cleanups
use passalong_server.Base.{ℕ, Bool, List, [], Option, none, ℕ_discrete}
use passalong_server.Ids.{Bytes, ItemId, KeyId, UploadId, ApiKeyId}
use passalong_server.Map.{Map}

pub data Role : Type 0 where
  read_write read_only : Role

pub record Caller : Type 0 where
  pub key : ApiKeyId
  pub role : Role

pub record Limits : Type 0 where
  pub quota_bytes : ℕ
  pub max_item_bytes : Option ℕ
  pub staging_secs : ℕ
  pub lease_secs : ℕ
  pub check_plaintext_content : Bool

pub data Partition : Type 0 where
  current plain_items : Partition

pub record Seal : Type 0 where
  pub key_id : KeyId
  pub header : Bytes

pub data RewriteKind : Type 0 where
  migrate rotate : RewriteKind

pub record Session : Type 0 where
  pub kind : RewriteKind
  pub prior : Option Seal
  pub next : Seal
  pub holder : ApiKeyId
  pub lease_expires_at : ℕ
  pub staged_generation : ℕ

pub record RewriteRequest : Type 0 where
  pub kind : RewriteKind
  pub expected_key_id : Option KeyId
  pub new_key_id : KeyId
  pub new_header : Bytes

pub data EncryptionStatus : Type 0 where
  settled : Option Seal → EncryptionStatus
  rewriting : Session → EncryptionStatus

pub record UploadRequest : Type 0 where
  pub id : ItemId
  pub meta : Bytes
  pub size : ℕ
  pub expected_key_id : Option KeyId
  pub in_rewrite : Bool

pub record UploadTicket : Type 0 where
  pub upload_id : UploadId
  pub expires_at : ℕ

pub record PutOutcome : Type 0 where
  pub id : ItemId
  pub created : Bool
  pub staged : Bool

pub data UploadState : Type 0 where
  awaiting : ℕ → UploadState
  finished : UploadState

pub data Begun : Type 0 where
  ticket : UploadTicket → Begun
  already_stored : PutOutcome → Begun

pub record Ticket : Type 0 where
  pub owner : ApiKeyId
  pub request : UploadRequest
  pub expires_at : ℕ

pub record Tombstone : Type 0 where
  pub owner : ApiKeyId
  pub outcome : PutOutcome
  pub expires_at : ℕ

pub record Uploads : Type 0 where
  pub tickets : Map UploadId Ticket
  pub tombstones : Map UploadId Tombstone

pub record WorkspaceRecord : Type 0 where
  pub state : EncryptionStatus
  pub generation : ℕ
  pub plain : Option ℕ
  pub next_generation : ℕ
  pub used : Map ℕ ℕ
  pub uploads : Uploads
  pub open uploads use *
  pub ended_rewrites : Map KeyId (Unit {0})

-- `WorkspaceRecord::default`: a new workspace, plaintext and empty.
abbrev pub new_record : WorkspaceRecord
new_record = record {
  state = settled none;
  generation = 0;
  plain = none;
  next_generation = 1;
  used = [];
  uploads = record { tickets = []; tombstones = [] };
  ended_rewrites = [];
}

-- A shelf step that waits until the record is stored.
pub data Cleanup : Type 0 where
  drop_generation : ℕ → Cleanup
  remove_staging : UploadId → Cleanup

pub record SessionView : Type 0 where
  pub kind : RewriteKind
  pub holder : ApiKeyId
  pub lease_expires_at : ℕ
  pub new_key_id : KeyId
  pub new_header : Bytes
  pub staged_ids : List ItemId
  pub source_items : ℕ

pub data EncryptionState : Type 0 where
  plaintext sealed under_rewrite : EncryptionState

pub record EncryptionView : Type 0 where
  pub state : EncryptionState
  pub key_id : Option KeyId
  pub header : Option Bytes
  pub rewrite : Option SessionView

unfoldable pub UploadRequest-discrete : Discrete UploadRequest
UploadRequest-discrete = hlevel ℕ_discrete

unfoldable pub KeyId-discrete : Discrete (Option KeyId)
KeyId-discrete = hlevel ℕ_discrete

unfoldable pub RewriteKind-discrete : Discrete RewriteKind
RewriteKind-discrete = hlevel
