-- ===== src/Examples.antt =====
-- The theorems at concrete inputs: a workspace with one item, an upload that is ready to be
-- committed, and rewrites that are open.
mod Uploads
mod Rewrites
mod Engines
mod Rate
mod Keys
mod Gate
mod Service
use passalong_server.Base.{ℕ, ◌≡◌, refl, true, false, List, [], ◌∷◌, none, some, arith}
use passalong_server.Books.{Balanced}
use passalong_server.Engine.{Engine}
use passalong_server.Error.{Result}
use passalong_server.Ids.{Bytes, ItemId, KeyId, UploadId, WorkspaceId}
use passalong_server.Map
use passalong_server.Map.Order.{nat_ord}
use passalong_server.Record.{
  Caller, read_write, read_only, Limits, Seal, Session, rotate, EncryptionStatus, settled,
  rewriting, UploadRequest, Ticket, WorkspaceRecord,
}
use passalong_server.Record.Generations.{IsWellFormed}
use passalong_server.Rules.{Env, Rules}
use passalong_server.Shelf.{Envelope, ItemShelf}
use passalong_server.Shelf.Memory.{Shelves, memory_shelf}
use passalong_server.Shelf.Memory.Laws.{memory_laws}
use passalong_server.Views.{live_generations}

abbrev pub shelf : ItemShelf
shelf = memory_shelf (λ bytes. bytes)

abbrev pub writer : Caller
writer = record { key = 1 ∷ []; role = read_write }

abbrev pub other_writer : Caller
other_writer = record { key = 2 ∷ []; role = read_write }

abbrev pub reader : Caller
reader = record { key = 3 ∷ []; role = read_only }

abbrev pub env_at : ℕ → Env
env_at now = record {
  now = now;
  limits = record {
    quota_bytes = 100;
    max_item_bytes = none;
    staging_secs = 60;
    lease_secs = 30;
    check_plaintext_content = false;
  };
  draws = λ n. n ∷ [];
  from_slice = λ meta. none;
}

abbrev pub old_key : KeyId
old_key = 5 ∷ []

abbrev pub new_key : KeyId
new_key = 6 ∷ []

abbrev pub stored_item : ItemId
stored_item =
    b'0' ∷ b'0' ∷ b'0' ∷ b'0' ∷ b'0' ∷ b'0' ∷ b'0' ∷ b'1' ∷ b'-' ∷ b'a' ∷ b'a' ∷ b'a' ∷ b'a' ∷ b'a'
    ∷ b'a' ∷ b'a' ∷ b'a' ∷ b'a' ∷ b'a' ∷ b'a' ∷ b'a' ∷ []

abbrev pub new_item : ItemId
new_item =
    b'0' ∷ b'0' ∷ b'0' ∷ b'0' ∷ b'0' ∷ b'0' ∷ b'0' ∷ b'2' ∷ b'-' ∷ b'b' ∷ b'b' ∷ b'b' ∷ b'b' ∷ b'b'
    ∷ b'b' ∷ b'b' ∷ b'b' ∷ b'b' ∷ b'b' ∷ b'b' ∷ b'b' ∷ []

abbrev pub upload : UploadId
upload = 9 ∷ []

abbrev pub envelope : Envelope
envelope = record { meta = []; under = some old_key; received_at = 1 }

abbrev pub request : UploadRequest
request = record {
  id = new_item;
  meta = [];
  size = 3;
  expected_key_id = some old_key;
  in_rewrite = false;
}

-- One item of two bytes, and three bytes staged.
abbrev pub shelves : Shelves
shelves = record {
  staging = (upload, (1 ∷ 2 ∷ 3 ∷ [], none)) ∷ [];
  shelved = (0, (stored_item, (1 ∷ 2 ∷ [], envelope)) ∷ []) ∷ [];
}

-- The same item again, in the next generation.
abbrev pub staged_shelves : Shelves
staged_shelves = record {
  staging = [];
  shelved =
      (0, (stored_item, (1 ∷ 2 ∷ [], envelope)) ∷ [])
      ∷ (1, (stored_item, (3 ∷ 4 ∷ [], envelope)) ∷ [])
      ∷ [];
}

abbrev pub old_seal : Seal
old_seal = record { key_id = old_key; header = [] }

abbrev pub workspace_in : EncryptionStatus → ℕ → WorkspaceRecord
workspace_in state next = record {
  state = state;
  generation = 0;
  plain = none;
  next_generation = next;
  used = (0, 2) ∷ [];
  uploads = record {
    tickets = (upload, record { owner = writer.key; request = request; expires_at = 50 }) ∷ [];
    tombstones = [];
  };
  ended_rewrites = [];
}

abbrev pub sealed_workspace : WorkspaceRecord
sealed_workspace = workspace_in (settled (some old_seal)) 1

abbrev pub session : Session
session = record {
  kind = rotate;
  prior = some old_seal;
  next = record { key_id = new_key; header = [] };
  holder = writer.key;
  lease_expires_at = 30;
  staged_generation = 1;
}

abbrev pub open_workspace : WorkspaceRecord
open_workspace = workspace_in (rewriting session) 2

abbrev pub started : WorkspaceRecord → Rules shelf.State
started rec = record { rec = rec; shelf = shelves; drawn = 0; after = [] }

abbrev pub the_workspace : WorkspaceId
the_workspace = 7 ∷ []

abbrev pub running : WorkspaceRecord → Engine shelf.State
running rec = record {
  shelf = shelves;
  ledger = (the_workspace, rec) ∷ [];
  workspace = the_workspace;
  drawn = 0;
}

pub sealed_workspace-IsWellFormed : IsWellFormed sealed_workspace
sealed_workspace-IsWellFormed = ground arith

pub sealed_workspace-Balanced : Balanced (memory_laws (λ bytes. bytes)) sealed_workspace shelves
unfolding Map.get live_generations
sealed_workspace-Balanced = record {
  live = (refl, tt);
  fresh = λ g above. (ground arith, ground arith);
}
