-- ===== src/Upload/WellFormed.antt =====
-- The operations of Upload keep a record well formed, whatever they answer.
use passalong_server.Base.{
  ℕ, suc, ◌+◌, ◌≡◌, refl, inl, inr, List, [], ◌∷◌, Option, none, some, arith, any, ◌==◌, Bool-cases,
}
use passalong_server.Map
use passalong_server.Rules.Keeps.{and_then-keeps}
use passalong_server.Ids.{ItemId, UploadId}
use passalong_server.Map.Order.{nat_ord, text_ord}
use passalong_server.Map.Sorted.{insert-IsSorted, remove-IsSorted, retain-IsSorted}
use passalong_server.Record.{Caller, UploadRequest, Ticket, Tombstone, WorkspaceRecord}
use passalong_server.Record.Generations.{IsWellFormed}
use passalong_server.Rules.{Env, Rules, and_then}
use passalong_server.Shelf.{ItemShelf}
use passalong_server.Views.{booked, add_used}
use passalong_server.Upload.Begin.{
  drop_ticket, add_ticket, drop_tickets, answer_stored, begin_unstored, begin_found, begin_upload,
  fresh_upload_id,
}
use passalong_server.Upload.Commit.{
  record_outcome, book, publish_or_share, check_plaintext, commit_staged, settle_staged,
  commit_live, commit_upload,
}
use passalong_server.Upload.Janitor.{
  abort_upload, drop_rewrite_uploads, forget_expired, sweep_staging, sweep_generations, sweep_shelf,
  clean_staging, rebook, reconcile,
}

drop_ticket-IsWellFormed :
    (u : UploadId) (rec : WorkspaceRecord) → IsWellFormed rec → IsWellFormed (drop_ticket u rec)
drop_ticket-IsWellFormed u rec w = ground (arith, remove-IsSorted u rec.tickets w.tickets)

add_ticket-IsWellFormed :
    (u : UploadId) (t : Ticket) (rec : WorkspaceRecord)
    → IsWellFormed rec
    → IsWellFormed (add_ticket u t rec)
add_ticket-IsWellFormed u t rec w = ground (arith, insert-IsSorted u t rec.tickets w.tickets)

record_outcome-IsWellFormed :
    (u : UploadId) (t : Tombstone) (rec : WorkspaceRecord)
    → IsWellFormed rec
    → IsWellFormed (record_outcome u t rec)
record_outcome-IsWellFormed u t rec w = ground (
  arith,
  remove-IsSorted u rec.tickets w.tickets,
  insert-IsSorted u t rec.tombstones w.tombstones,
)

book-IsWellFormed :
    (g n : ℕ) (rec : WorkspaceRecord) → IsWellFormed rec → IsWellFormed (book g n rec)
book-IsWellFormed g n rec w = ground (arith, insert-IsSorted g n rec.used w.used)

add_used-IsWellFormed :
    (g n : ℕ) (rec : WorkspaceRecord) → IsWellFormed rec → IsWellFormed (add_used g n rec)
unfolding add_used
add_used-IsWellFormed g n rec w =
    ground (arith, insert-IsSorted g (booked rec g + n) rec.used w.used)

pub drop_tickets-IsWellFormed :
    {S : Type 0} (ids : List UploadId) (r : Rules S)
    → IsWellFormed r.rec
    → IsWellFormed (drop_tickets ids r).1.rec
unfolding drop_tickets and_then
drop_tickets-IsWellFormed [] r w = w
drop_tickets-IsWellFormed (u ∷ ids) r w =
    drop_tickets-IsWellFormed ids _ (drop_ticket-IsWellFormed u r.rec w)

module _ (sh : ItemShelf) (env : Env) where
  fresh_upload_id-IsWellFormed :
      (r : Rules sh.State) → IsWellFormed r.rec → IsWellFormed (fresh_upload_id sh env r).1.rec
  unfolding fresh_upload_id and_then
  fresh_upload_id-IsWellFormed r w = ground arith

  answer_stored-IsWellFormed :
      (caller : Caller) (q : UploadRequest) (id : ItemId) (r : Rules sh.State)
      → IsWellFormed r.rec
      → IsWellFormed (answer_stored sh env caller q id r).1.rec
  unfolding answer_stored and_then
  answer_stored-IsWellFormed caller q id r w = grind (arith, drop_tickets-IsWellFormed)

  begin_unstored-IsWellFormed :
      (caller : Caller) (q : UploadRequest) (g : ℕ) (r : Rules sh.State)
      → IsWellFormed r.rec
      → IsWellFormed (begin_unstored sh env caller q g r).1.rec
  unfolding begin_unstored and_then
  begin_unstored-IsWellFormed caller q g r w = grind (arith, add_ticket-IsWellFormed)

  begin_found-IsWellFormed :
      (caller : Caller) (q : UploadRequest) (g : ℕ) (o : Option ItemId) (r : Rules sh.State)
      → IsWellFormed r.rec
      → IsWellFormed (begin_found sh env caller q g o r).1.rec
  unfolding begin_found
  begin_found-IsWellFormed caller q g (some id) r w = answer_stored-IsWellFormed caller q id r w
  begin_found-IsWellFormed caller q g none r w = begin_unstored-IsWellFormed caller q g r w

  pub begin_upload-IsWellFormed :
      (caller : Caller) (q : UploadRequest) (r : Rules sh.State)
      → IsWellFormed r.rec
      → IsWellFormed (begin_upload sh env caller q r).1.rec
  unfolding begin_upload and_then
  begin_upload-IsWellFormed caller q r w = grind (arith, begin_found-IsWellFormed)

  publish_or_share-IsWellFormed :
      (u : UploadId) (t : Ticket) (g : ℕ) (o : Option ItemId) (r : Rules sh.State)
      → IsWellFormed r.rec
      → IsWellFormed (publish_or_share sh env u t g o r).1.rec
  unfolding publish_or_share and_then
  publish_or_share-IsWellFormed u t g (some id) r w = record_outcome-IsWellFormed u _ r.rec w
  publish_or_share-IsWellFormed u t g none r w =
      grind (arith, record_outcome-IsWellFormed, add_used-IsWellFormed)

  -- The check of the content changes nothing.
  pub check_plaintext-same :
      (u : UploadId) (q : UploadRequest) (r : Rules sh.State) → (check_plaintext sh env u q r).1 ≡ r
  unfolding check_plaintext and_then
  check_plaintext-same u q r = ground arith

  commit_staged-IsWellFormed :
      (u : UploadId) (t : Ticket) (g : ℕ) (o : Option ℕ) (r : Rules sh.State)
      → IsWellFormed r.rec
      → IsWellFormed (commit_staged sh env u t g o r).1.rec
  unfolding commit_staged
  commit_staged-IsWellFormed u t g none r w = w
  commit_staged-IsWellFormed u t g (some n) r w = and_then-keeps P _ _ (ground arith) λ _ r₁ w₁.
      and_then-keeps P _ _ (ground (arith, check_plaintext-same u t.request r₁))
        λ _ r₂ w₂. and_then-keeps P _ _ w₂ (publish_or_share-IsWellFormed u t g)
    where
      P : Rules sh.State → Type 0
      P q = IsWellFormed q.rec

  settle_staged-IsWellFormed :
      (u : UploadId) (t : Ticket) (g : ℕ) (o : Option ℕ) (r : Rules sh.State)
      → IsWellFormed r.rec
      → IsWellFormed (settle_staged sh env u t g o r).1.rec
  unfolding settle_staged and_then
  settle_staged-IsWellFormed u t g (some n) r w = commit_staged-IsWellFormed u t g (some n) r w
  settle_staged-IsWellFormed u t g none r w =
      grind (arith, record_outcome-IsWellFormed, book-IsWellFormed)

  commit_live-IsWellFormed :
      (caller : Caller) (u : UploadId) (r : Rules sh.State)
      → IsWellFormed r.rec
      → IsWellFormed (commit_live sh env caller u r).1.rec
  unfolding commit_live and_then
  commit_live-IsWellFormed caller u r w = grind (arith, settle_staged-IsWellFormed)

  pub commit_upload-IsWellFormed :
      (caller : Caller) (u : UploadId) (r : Rules sh.State)
      → IsWellFormed r.rec
      → IsWellFormed (commit_upload sh env caller u r).1.rec
  unfolding commit_upload and_then
  commit_upload-IsWellFormed caller u r w = ground (arith, commit_live-IsWellFormed caller u r w)

pub abort_upload-IsWellFormed :
    {S : Type 0} (caller : Caller) (u : UploadId) (r : Rules S)
    → IsWellFormed r.rec
    → IsWellFormed (abort_upload caller u r).1.rec
unfolding abort_upload and_then
abort_upload-IsWellFormed caller u r w = grind (arith, drop_ticket-IsWellFormed)

pub drop_rewrite_uploads-IsWellFormed :
    {S : Type 0} (r : Rules S) → IsWellFormed r.rec → IsWellFormed (drop_rewrite_uploads r).1.rec
unfolding drop_rewrite_uploads and_then
drop_rewrite_uploads-IsWellFormed r w = grind (arith, drop_tickets-IsWellFormed)

forget_expired-IsWellFormed :
    (now : ℕ) (rec : WorkspaceRecord) → IsWellFormed rec → IsWellFormed (forget_expired now rec)
forget_expired-IsWellFormed now rec w = record {
  below = w.below;
  plain = w.plain;
  staged = w.staged;
  tickets = retain-IsSorted _ rec.tickets w.tickets;
  tombstones = retain-IsSorted _ rec.tombstones w.tombstones;
  used = w.used;
}

-- The sweeps leave the tickets alone.
pub sweep_staging-rec :
    {S : Type 0} (ids : List UploadId) (n : ℕ) (r : Rules S) → (sweep_staging ids n r).1.rec ≡ r.rec
unfolding sweep_staging and_then
sweep_staging-rec [] n r = refl
sweep_staging-rec (u ∷ ids) n r = elim (Bool-cases (Map.contains_key u r.rec.tickets)) [
  | inl known ↦ rw known (sweep_staging-rec ids n r)
  | inr unknown ↦ rw unknown (sweep_staging-rec ids (suc n) _)
]

unused-IsWellFormed :
    (g : ℕ) (rec : WorkspaceRecord)
    → IsWellFormed rec
    → IsWellFormed (record rec { used = Map.remove g rec.used })
unused-IsWellFormed g rec w = ground (arith, remove-IsSorted g rec.used w.used)

sweep_generations-IsWellFormed :
    {S : Type 0} (live gs : List ℕ) (r : Rules S)
    → IsWellFormed r.rec
    → IsWellFormed (sweep_generations live gs r).1.rec
unfolding sweep_generations and_then
sweep_generations-IsWellFormed live [] r w = w
sweep_generations-IsWellFormed live (g ∷ gs) r w = elim (Bool-cases (any (λ h. h == g) live)) [
  | inl known ↦ rw (known, sweep_generations) (sweep_generations-IsWellFormed live gs r w)
  | inr rubbish ↦
      rw (rubbish, sweep_generations)
        (sweep_generations-IsWellFormed live gs _ (unused-IsWellFormed g r.rec w))
]

module _ (sh : ItemShelf) (env : Env) where
  sweep_shelf-IsWellFormed :
      (r : Rules sh.State) → IsWellFormed r.rec → IsWellFormed (sweep_shelf sh r).1.rec
  unfolding sweep_shelf
  sweep_shelf-IsWellFormed r w =
      and_then-keeps (λ (q : Rules sh.State). IsWellFormed q.rec) _ _ w
        λ live r₁ w₁.
          and_then-keeps (λ (q : Rules sh.State). IsWellFormed q.rec) _ _ w₁
            λ gs r₂ w₂. sweep_generations-IsWellFormed live gs r₂ w₂

  pub clean_staging-IsWellFormed :
      (r : Rules sh.State) → IsWellFormed r.rec → IsWellFormed (clean_staging sh env r).1.rec
  unfolding clean_staging
  clean_staging-IsWellFormed r w =
      and_then-keeps P _ _ (forget_expired-IsWellFormed env.now r.rec w) λ _ r₁ w₁.
        and_then-keeps P _ _ w₁ λ ids r₂ w₂.
          and_then-keeps P _ _ (rw sweep_staging-rec w₂)
            λ n r₃ w₃. and_then-keeps P _ _ (sweep_shelf-IsWellFormed r₃ w₃) λ _ r₄ w₄. w₄
    where
      P : Rules sh.State → Type 0
      P q = IsWellFormed q.rec

  rebook-IsWellFormed :
      (gs : List ℕ) (r : Rules sh.State) → IsWellFormed r.rec → IsWellFormed (rebook sh gs r).1.rec
  unfolding rebook
  rebook-IsWellFormed [] r w = w
  rebook-IsWellFormed (g ∷ gs) r w = and_then-keeps P _ _ w λ n r₁ w₁.
      and_then-keeps P _ _ (book-IsWellFormed g n r₁.rec w₁) λ _ r₂ w₂. rebook-IsWellFormed gs r₂ w₂
    where
      P : Rules sh.State → Type 0
      P q = IsWellFormed q.rec

  pub reconcile-IsWellFormed :
      (r : Rules sh.State) → IsWellFormed r.rec → IsWellFormed (reconcile sh env r).1.rec
  unfolding reconcile
  reconcile-IsWellFormed r w = and_then-keeps P _ _ w λ live r₁ w₁.
      and_then-keeps P _ _ (rebook-IsWellFormed live r₁ w₁)
        λ _ r₂ w₂. and_then-keeps P _ _ (clean_staging-IsWellFormed r₂ w₂) λ _ r₃ w₃. w₃
    where
      P : Rules sh.State → Type 0
      P q = IsWellFormed q.rec
