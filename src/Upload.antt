-- ===== src/Upload.antt =====
-- crates/passalong-server-core/src/upload.rs: what the upload lifecycle reads of the record. One
-- reading of the clock, `now`, stands for all that one operation takes.
pub mod Begin
pub mod Commit
pub mod Janitor
pub mod WellFormed
pub mod Cleanups
pub mod Keeping
pub mod Replay
pub mod Drawing
pub mod Quota
use passalong_server.Base.{
  ℕ, ◌+◌, Bool, true, false, not, ◌&&◌, Option, none, some, List, ite, ltb, if◌then◌else◌, length,
  map, sum, filter, holds, min, u64_max,
}
use mathlib.Core.Option
use mathlib.Core.Bool.{xor}
use passalong_server.Error.{Result, ok, or_fail, ◌>>=◌, ◌>>◌, not_found}
use passalong_server.Ids.{UploadId, ApiKeyId, Text-discrete}
use passalong_server.Map
use passalong_server.Map.Order.{text_ord}
use passalong_server.Record.{
  Caller, Limits, EncryptionStatus, settled, rewriting, UploadRequest, UploadState, awaiting,
  finished, Ticket, Tombstone, WorkspaceRecord, UploadRequest-discrete,
}
use passalong_server.Views.{check_writable, booked, rewrite_target}

-- `u64::saturating_add`.
abbrev pub saturating_add : ℕ → ℕ → ℕ
saturating_add a b = min u64_max (a + b)

abbrev pub is_live_of_kind : ℕ → Bool → Ticket → Bool
is_live_of_kind now in_rewrite t = ltb now t.expires_at && not (xor t.request.in_rewrite in_rewrite)

-- Bytes promised to live uploads: those of a rewrite, or the others.
unfoldable pub reserved_by : WorkspaceRecord → ℕ → Bool → ℕ
reserved_by rec now in_rewrite =
    sum
      (map (λ t. t.request.size) (filter (is_live_of_kind now in_rewrite) (Map.values rec.tickets)))

abbrev pub reserved_bytes : WorkspaceRecord → ℕ → ℕ
reserved_bytes rec now = reserved_by rec now false

abbrev staged_bytes_in : WorkspaceRecord → EncryptionStatus → ℕ
staged_bytes_in rec (settled seal) = 0
staged_bytes_in rec (rewriting session) = booked rec session.staged_generation

-- Bytes published in the open rewrite's next generation.
unfoldable pub staged_bytes : WorkspaceRecord → ℕ
staged_bytes rec = staged_bytes_in rec rec.state

unfoldable pub pending_uploads : WorkspaceRecord → ℕ
pending_uploads rec = length rec.tickets

-- The generation that an upload goes to.
unfoldable pub upload_target : WorkspaceRecord → Caller → UploadRequest → Result ℕ
unfolding rewrite_target check_writable
upload_target rec caller request =
    if request.in_rewrite
    then rewrite_target rec caller request.expected_key_id
    else (do check_writable rec request.expected_key_id; ok rec.generation)

abbrev kept {ℓ} : {A : Type ℓ} → (A → Bool) → Option A → Option A
kept p none = none
kept p (some a) = if p a then some a else none

abbrev pub is_owned_live : ℕ → ApiKeyId → Ticket → Bool
is_owned_live now key t = holds (Text-discrete t.owner key) && ltb now t.expires_at

unfoldable pub live_ticket : WorkspaceRecord → ℕ → Caller → UploadId → Option Ticket
live_ticket rec now caller upload = kept (is_owned_live now caller.key) (Map.get upload rec.tickets)

abbrev pub is_owned_kept : ℕ → ApiKeyId → Tombstone → Bool
is_owned_kept now key t = holds (Text-discrete t.owner key) && ltb now t.expires_at

unfoldable pub tombstone : WorkspaceRecord → ℕ → Caller → UploadId → Option Tombstone
tombstone rec now caller upload =
    kept (is_owned_kept now caller.key) (Map.get upload rec.tombstones)

unfoldable pub upload_state : WorkspaceRecord → ℕ → Caller → UploadId → Result UploadState
unfolding tombstone live_ticket
upload_state rec now caller upload = elim (tombstone rec now caller upload) [
  | some stone ↦ ok finished
  | none ↦
      or_fail not_found
        (Option.map (λ t. awaiting t.request.size) (live_ticket rec now caller upload))
]

-- Plaintext alone, which is what an upload under no key is.
unfoldable pub checks_content : Limits → UploadRequest → Bool
checks_content limits request =
    limits.check_plaintext_content && elim request.expected_key_id [ none ↦ true | some _ ↦ false ]

-- The same request of the same caller.
abbrev pub is_same_request : ApiKeyId → UploadRequest → Ticket → Bool
is_same_request key request t =
    holds (Text-discrete t.owner key) && holds (UploadRequest-discrete t.request request)
