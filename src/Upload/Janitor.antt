-- ===== src/Upload/Janitor.antt =====
-- `abortUpload`, the uploads of a rewrite that ended, `cleanStaging` and `reconcile` of
-- crates/passalong-server-core/src/upload.rs.
use passalong_server.Base.{
  ℕ, suc, Bool, true, false, List, [], ◌∷◌, Option, none, some, ltb, ◌==◌, if◌then◌else◌, any,
  filter, holds,
}
use passalong_server.Error.{ok}
use passalong_server.Ids.{UploadId, ApiKeyId, Text-discrete}
use passalong_server.Map
use passalong_server.Map.Order.{nat_ord, text_ord}
use passalong_server.Record.{Caller, Ticket, WorkspaceRecord, drop_generation, remove_staging}
use passalong_server.Rules.{M, Env, ◌>>=◌, ◌>>◌, pure, asks, looks, update, push_after}
use passalong_server.Shelf.{ItemShelf}
use passalong_server.Upload.Begin.{drop_tickets}
use passalong_server.Views.{live_generations}

abbrev pub owned_by : ApiKeyId → Option Ticket → Bool
owned_by key none = false
owned_by key (some t) = holds (Text-discrete t.owner key)

unfoldable pub abort_upload : {S : Type 0} → Caller → UploadId → M S (Unit {0})
unfolding drop_tickets
abort_upload caller upload = do
  own ← asks (λ rec. ok (owned_by caller.key (Map.get upload rec.tickets)))
  if own then drop_tickets (upload ∷ []) else pure tt

abbrev pub ended_uploads : WorkspaceRecord → List UploadId
ended_uploads rec = Map.keys (filter (λ e. e.1.request.in_rewrite) rec.tickets)

unfoldable pub drop_rewrite_uploads : {S : Type 0} → M S (Unit {0})
unfolding drop_tickets
drop_rewrite_uploads = do ended ← asks (λ rec. ok (ended_uploads rec)); drop_tickets ended

-- Both maps lose what has expired.
abbrev pub forget_expired : ℕ → WorkspaceRecord → WorkspaceRecord
forget_expired now rec = record rec {
  uploads = record {
    tickets = Map.retain (λ _ t. ltb now t.expires_at) rec.tickets;
    tombstones = Map.retain (λ _ s. ltb now s.expires_at) rec.tombstones;
  };
}

-- The loop over the staging places: those without a ticket are to go, and are counted.
unfoldable pub sweep_staging : {S : Type 0} → List UploadId → ℕ → M S ℕ
sweep_staging [] removed = pure removed
sweep_staging (upload ∷ rest) removed = do
  known ← asks (λ rec. ok (Map.contains_key upload rec.tickets))
  if known
      then sweep_staging rest removed
      else (do push_after (remove_staging upload); sweep_staging rest (suc removed))

-- The loop over the shelf's generations: those that the record does not point to are to go.
unfoldable pub sweep_generations : {S : Type 0} → List ℕ → List ℕ → M S (Unit {0})
sweep_generations live [] = pure tt
sweep_generations live (generation ∷ rest) = elim (any (λ g. g == generation) live) [
  | true ↦ sweep_generations live rest
  | false ↦ do
    push_after (drop_generation generation)
    update (λ rec. record rec { used = Map.remove generation rec.used })
    sweep_generations live rest
]

module _ (sh : ItemShelf) where
  unfoldable pub sweep_shelf : M sh.State (Unit {0})
  unfolding sweep_generations live_generations
  sweep_shelf = do
    live ← asks (λ rec. ok (live_generations rec))
    on_shelf ← looks sh.generations
    sweep_generations live on_shelf

  unfoldable pub clean_staging : Env → M sh.State ℕ
  unfolding sweep_staging sweep_shelf
  clean_staging env = do
    update (forget_expired env.now)
    staged ← looks sh.staged
    removed ← sweep_staging staged 0
    sweep_shelf
    pure removed

  -- The loop of `reconcile`: each live generation is booked as the shelf counts it.
  unfoldable pub rebook : List ℕ → M sh.State (Unit {0})
  rebook [] = pure tt
  rebook (generation ∷ rest) = do
    bytes ← looks (sh.bytes generation)
    update (λ rec. record rec { used = Map.insert generation bytes rec.used })
    rebook rest

  unfoldable pub reconcile : Env → M sh.State (Unit {0})
  unfolding rebook clean_staging live_generations
  reconcile env = do
    live ← asks (λ rec. ok (live_generations rec))
    rebook live
    removed ← clean_staging env
    pure tt
