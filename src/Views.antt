-- ===== src/Views.antt =====
-- The operations of crates/passalong-server-core/src/workspace.rs and rewrite.rs that only look: the
-- guards, the generations and bytes a record points to, the listings, and `getWorkspace`.
pub mod Items
use passalong_server.Base.{
  ℕ, ◌+◌, ◌≡◌, Bool, true, false, not, ◌&&◌, List, [], ◌∷◌, ◌++◌, Option, none, some, get_or, ite,
  ◌==◌, leb, if◌then◌else◌, length, map, reverse, filter, find, sum, holds, bytes_of,
}
use mathlib.Core.Option
use passalong_server.Error.{
  Result, ok, err, spins, or_fail, ◌>>=◌, forbidden_role, key_id_mismatch, rewrite_in_progress,
  lease_held, not_found,
}
use passalong_server.Ids.{Bytes, Text, ItemId, KeyId, ApiKeyId, content_key, Text-discrete}
use passalong_server.Map
use passalong_server.Map.Order.{nat_ord}
use passalong_server.Record.{
  Role, read_write, read_only, Caller, Partition, current, plain_items, Seal, Session,
  EncryptionStatus, settled, rewriting, WorkspaceRecord, SessionView, EncryptionState, plaintext,
  sealed, under_rewrite, EncryptionView, KeyId-discrete,
}
use passalong_server.Shelf.{ItemShelf, StoredItem}

-- `Caller::must_write`.
abbrev writes : Role → Result (Unit {0})
writes read_write = ok tt
writes read_only = err forbidden_role

unfoldable pub must_write : Caller → Result (Unit {0})
must_write caller = writes caller.role

abbrev seal_in : EncryptionStatus → Option Seal
seal_in (settled seal) = seal
seal_in (rewriting session) = session.prior

-- During a rewrite, the seal before it.
unfoldable pub seal : WorkspaceRecord → Option Seal
seal rec = seal_in rec.state

abbrev pub key_of : Option Seal → Option KeyId
key_of = Option.map (λ s. s.key_id)

abbrev writable_in : EncryptionStatus → Option KeyId → Result (Unit {0})
writable_in (rewriting session) expected = err rewrite_in_progress
writable_in (settled seal) expected =
    ite (KeyId-discrete (key_of seal) expected) (ok tt) (err key_id_mismatch)

unfoldable pub check_writable : WorkspaceRecord → Option KeyId → Result (Unit {0})
check_writable rec expected = writable_in rec.state expected

abbrev pub generation_of : WorkspaceRecord → Partition → Option ℕ
generation_of rec current = some rec.generation
generation_of rec plain_items = rec.plain

abbrev pub optional : Option ℕ → List ℕ
optional none = []
optional (some g) = g ∷ []

abbrev pub staged_in : EncryptionStatus → List ℕ
staged_in (settled seal) = []
staged_in (rewriting session) = session.staged_generation ∷ []

-- The workspace's items, the plain partition, and a rewrite's staged generation.
unfoldable pub live_generations : WorkspaceRecord → List ℕ
live_generations rec = rec.generation ∷ optional rec.plain ++ staged_in rec.state

-- The bytes booked for a generation.
abbrev pub booked : WorkspaceRecord → ℕ → ℕ
booked rec g = get_or (Map.get g rec.used) 0

unfoldable pub used_bytes : WorkspaceRecord → ℕ
unfolding live_generations
used_bytes rec = sum (map (booked rec) (live_generations rec))

unfoldable pub add_used : ℕ → ℕ → WorkspaceRecord → WorkspaceRecord
add_used generation bytes rec = record rec {
  used = Map.insert generation (booked rec generation + bytes) rec.used;
}

-- `held_session`: the open session, for its holder.
abbrev held_in : EncryptionStatus → ApiKeyId → Result Session
held_in (settled seal) key = err not_found
held_in (rewriting session) key =
    ite (Text-discrete session.holder key) (ok session) (err lease_held)

unfoldable pub held_session : WorkspaceRecord → Caller → Result Session
held_session rec caller = held_in rec.state caller.key

unfoldable pub rewrite_target : WorkspaceRecord → Caller → Option KeyId → Result ℕ
unfolding held_session
rewrite_target rec caller expected = do
  session ← held_session rec caller
  ite (KeyId-discrete expected (some session.next.key_id)) (ok session.staged_generation)
      (err key_id_mismatch)

module _ (sh : ItemShelf) where
  -- The oldest item of a generation with that content key.
  unfoldable pub find_in : ℕ → Text → sh.State → Result (Option ItemId)
  find_in generation key s = do
    ids ← sh.ids generation s
    ok (find (λ id. holds (Text-discrete (content_key id) key)) (reverse ids))

  abbrev view_session : WorkspaceRecord → sh.State → EncryptionStatus → Result (Option SessionView)
  view_session rec s (settled seal) = ok none
  view_session rec s (rewriting session) = do
    staged ← sh.ids session.staged_generation s
    source ← sh.ids rec.generation s
    ok (
        some (record {
          kind = session.kind;
          holder = session.holder;
          lease_expires_at = session.lease_expires_at;
          new_key_id = session.next.key_id;
          new_header = session.next.header;
          staged_ids = staged;
          source_items = length source;
        }))

  unfoldable pub session_view : WorkspaceRecord → sh.State → Result (Option SessionView)
  session_view rec s = view_session rec s rec.state

  abbrev pub reported : EncryptionStatus → Option Seal → EncryptionState
  reported (rewriting session) seal = under_rewrite
  reported (settled _) (some seal) = sealed
  reported (settled _) none = plaintext

  -- `Rules::encryption`.
  unfoldable pub encryption : WorkspaceRecord → sh.State → Result EncryptionView
  unfolding session_view seal
  encryption rec s = do
    rewrite ← session_view rec s
    ok (record {
      state = reported rec.state (seal rec);
      key_id = key_of (seal rec);
      header = Option.map (λ q. q.header) (seal rec);
      rewrite = rewrite;
    })
