-- ===== src/Upload/Keeping.antt =====
-- What every operation keeps of a record, from what the single changes keep of it: the operations of
-- crates/passalong-server-core/src/upload.rs.
use passalong_server.Views.{add_used}
use passalong_server.Upload.WellFormed.{sweep_staging-rec, check_plaintext-same}
use passalong_server.Rules.Keeps.{and_then-keeps, and_then-same, and_then-leads}
use passalong_server.Map
use passalong_server.Map.Order.{nat_ord, text_ord}
use passalong_server.Map.{Map}
use passalong_server.Upload.Janitor.{
  abort_upload, drop_rewrite_uploads, sweep_generations, clean_staging, rebook, reconcile,
  ended_uploads, sweep_shelf, forget_expired,
}
use passalong_server.Upload.Commit.{
  commit_live, commit_upload, answer_outcome, finish_upload, publish_or_share, commit_staged,
  record_publish, settle_staged, book_published, finish_unrecorded, answer_unrecorded,
  record_outcome,
}
use passalong_server.Upload.{live_ticket, or_fail, not_found, ok}
use passalong_server.Rules.{Env, Rules, and_then, M}
use passalong_server.Ids.{Bytes, UploadId, KeyId, ItemId}
use passalong_server.Record.{
  WorkspaceRecord, Caller, Ticket, EncryptionStatus, UploadRequest, PutOutcome, Tombstone,
}
use passalong_server.Shelf.{ItemShelf}
use passalong_server.Upload.Begin.{
  draw_id, drop_tickets, ticket_given, begin_unstored, answer_stored, begin_found, begin_upload,
  is_known, fresh_upload_id, answer_live, check_size, open_upload, drawn_as, draw_fuel, drop_ticket,
  add_ticket,
}
use passalong_server.Base.{
  refl, ◌≡◌, ℕ, some, List, Option, false, ◌∷◌, arith, suc, [], Bool-cases, zero, Bool, true, any,
  ◌==◌, inl, inr, none, ◌+◌,
}

-- Closed under each change that an operation makes to a record at a time `now`: a ticket is added only
-- under an id that the record does not know, and an outcome only in the place of a ticket.
pub record IsClosed (now : ℕ) (P : WorkspaceRecord → Type 0) : Type 0 where
  pub books : (rec : WorkspaceRecord) (used : Map.Map ℕ ℕ) → P rec → P (record rec { used = used })
  pub states :
      (rec : WorkspaceRecord) (state : EncryptionStatus) → P rec → P (record rec { state = state })
  pub moves :
      (rec : WorkspaceRecord) (generation next : ℕ) (plain : Option ℕ)
      → P rec
      → P (record rec { generation = generation; plain = plain; next_generation = next })
  pub ends :
      (rec : WorkspaceRecord) (key : KeyId)
      → P rec
      → P (record rec { ended_rewrites = Map.insert key tt rec.ended_rewrites })
  pub drops : (rec : WorkspaceRecord) (upload : UploadId) → P rec → P (drop_ticket upload rec)
  pub adds :
      (rec : WorkspaceRecord) (upload : UploadId) (t : Ticket)
      → is_known rec upload ≡ false
      → P rec
      → P (add_ticket upload t rec)
  pub settles :
      (rec : WorkspaceRecord) (upload : UploadId) (t : Ticket) (stone : Tombstone)
      → Map.get upload rec.tickets ≡ some t
      → P rec
      → P (record_outcome upload stone rec)
  pub expires : (rec : WorkspaceRecord) → P rec → P (forget_expired now rec)

draw_id-unknown :
    (fuel : ℕ) (draws : ℕ → Bytes) (rec : WorkspaceRecord) (n m : ℕ) (id : UploadId)
    → draw_id fuel draws rec n ≡ some (id, m)
    → is_known rec id ≡ false
unfolding draw_id
draw_id-unknown zero draws rec n m id h = ground arith
draw_id-unknown (suc fuel) draws rec n m id h =
    ground (arith, draw_id-unknown fuel draws rec (suc n) m id, h)

module _ (sh : ItemShelf) (env : Env) (P : WorkspaceRecord → Type 0) (c : IsClosed env.now P) where
  abbrev On : Rules sh.State → Type 0
  On r = P r.rec

  pub drop_tickets-keeps :
      (ids : List UploadId) (r : Rules sh.State) → P r.rec → P (drop_tickets ids r).1.rec
  unfolding drop_tickets and_then
  drop_tickets-keeps [] r p = p
  drop_tickets-keeps (u ∷ ids) r p = drop_tickets-keeps ids _ (c.drops r.rec u p)

  drawn-keeps :
      {A : Type 0} (o : Option (UploadId × ℕ)) (f : UploadId → M sh.State A) (r : Rules sh.State)
      → P r.rec
      → ((u : UploadId) (n : ℕ) → o ≡ some (u, n) → P (f u (record r { drawn = n })).1.rec)
      → P (and_then (drawn_as sh env o r) f).1.rec
  unfolding and_then
  drawn-keeps none f r p h = p
  drawn-keeps (some (u, n)) f r p h = h u n refl

  abbrev given : Caller → UploadRequest → Ticket
  given caller q = record {
    owner = caller.key;
    request = q;
    expires_at = env.now + env.limits.staging_secs;
  }

  ticket_given-keeps :
      (caller : Caller) (q : UploadRequest) (r : Rules sh.State)
      → P r.rec
      → P (ticket_given sh env caller q r).1.rec
  unfolding ticket_given fresh_upload_id and_then
  ticket_given-keeps caller q r p =
      drawn-keeps (draw_id (draw_fuel r.rec) env.draws r.rec r.drawn) _ r p λ u n e.
        let unknown = draw_id-unknown (draw_fuel r.rec) env.draws r.rec r.drawn n u e in
        ground (arith, p, c.adds r.rec u (given caller q) unknown p)

  begin_unstored-keeps :
      (caller : Caller) (q : UploadRequest) (g : ℕ) (r : Rules sh.State)
      → P r.rec
      → P (begin_unstored sh env caller q g r).1.rec
  unfolding begin_unstored answer_live open_upload and_then
  begin_unstored-keeps caller q g r p = ground (arith, p, ticket_given-keeps caller q r p)

  answer_stored-keeps :
      (caller : Caller) (q : UploadRequest) (id : ItemId) (r : Rules sh.State)
      → P r.rec
      → P (answer_stored sh env caller q id r).1.rec
  unfolding answer_stored
  answer_stored-keeps caller q id r p =
      and_then-keeps On _ _ p
        λ ids r₁ p₁. and_then-keeps On _ _ (drop_tickets-keeps ids r₁ p₁) λ _ r₂ p₂. p₂

  begin_found-keeps :
      (caller : Caller) (q : UploadRequest) (g : ℕ) (o : Option ItemId) (r : Rules sh.State)
      → P r.rec
      → P (begin_found sh env caller q g o r).1.rec
  unfolding begin_found
  begin_found-keeps caller q g (some id) r p = answer_stored-keeps caller q id r p
  begin_found-keeps caller q g none r p = begin_unstored-keeps caller q g r p

  pub begin_upload-keeps :
      (caller : Caller) (q : UploadRequest) (r : Rules sh.State)
      → P r.rec
      → P (begin_upload sh env caller q r).1.rec
  unfolding begin_upload check_size
  begin_upload-keeps caller q r p = and_then-keeps On _ _ p λ _ r₁ p₁.
      and_then-keeps On _ _ p₁ λ g r₂ p₂.
        and_then-keeps On _ _ (ground (arith, p₂))
          λ _ r₃ p₃. and_then-keeps On _ _ p₃ λ o r₄ p₄. begin_found-keeps caller q g o r₄ p₄

  -- On the way to an outcome: the upload's ticket is still there.
  abbrev Under : UploadId → Ticket → Rules sh.State → Type 0
  Under u t r = P r.rec × (Map.get u r.rec.tickets ≡ some t)

  module _ (u : UploadId) (t : Ticket) where
    weaken : (r : Rules sh.State) → Under u t r → On r
    weaken r p = p.0

    finish_upload-keeps :
        (id : ItemId) (made : Bool) (r : Rules sh.State)
        → Under u t r
        → P (finish_upload sh env u t id made r).1.rec
    unfolding finish_upload and_then
    finish_upload-keeps id made r p = c.settles r.rec u t _ p.1 p.0

    publish_or_share-keeps :
        (g : ℕ) (o : Option ItemId) (r : Rules sh.State)
        → Under u t r
        → P (publish_or_share sh env u t g o r).1.rec
    unfolding publish_or_share book_published add_used
    publish_or_share-keeps g (some id) r p = finish_upload-keeps id false r p
    publish_or_share-keeps g none r p = and_then-leads (Under u t) On _ _ weaken p λ made r₁ p₁.
        and_then-leads (Under u t) On _ _ weaken (c.books r₁.rec _ p₁.0, p₁.1)
          λ _ r₂ p₂. finish_upload-keeps t.request.id true r₂ p₂

    commit_staged-keeps :
        (g : ℕ) (o : Option ℕ) (r : Rules sh.State)
        → Under u t r
        → P (commit_staged sh env u t g o r).1.rec
    unfolding commit_staged
    commit_staged-keeps g none r p = p.0
    commit_staged-keeps g (some n) r p =
        and_then-leads (Under u t) On _ _ weaken (ground (arith, p)) λ _ r₁ p₁.
          and_then-leads (Under u t) On _ _ weaken
            (ground (arith, p₁, check_plaintext-same sh env u t.request r₁))
            λ _ r₂ p₂.
              and_then-leads (Under u t) On _ _ weaken p₂
                λ o r₃ p₃. publish_or_share-keeps g o r₃ p₃

    record_publish-keeps :
        (g : ℕ) (r : Rules sh.State) → Under u t r → P (record_publish sh env u t g r).1.rec
    unfolding record_publish
    record_publish-keeps g r p = and_then-leads (Under u t) On _ _ weaken p λ n r₁ p₁.
        and_then-leads (Under u t) On _ _ weaken (c.books r₁.rec _ p₁.0, p₁.1)
          λ _ r₂ p₂.
            and_then-keeps On _ _ (finish_upload-keeps t.request.id true r₂ p₂) λ _ r₃ p₃. p₃

    -- Nothing is recorded, or the outcome is.
    settle_staged-keeps :
        (g : ℕ) (o : Option ℕ) (r : Rules sh.State)
        → Under u t r
        → P (settle_staged sh env u t g o r).1.rec
    unfolding settle_staged finish_unrecorded answer_unrecorded commit_staged
    settle_staged-keeps g (some n) r p = commit_staged-keeps g (some n) r p
    settle_staged-keeps g none r p =
        and_then-keeps On _ _
          (and_then-leads (Under u t) On _ _ weaken p
            λ item r₁ p₁. ground (arith, record_publish-keeps g r₁ p₁, p₁))
          λ o r₂ p₂. answered o r₂ p₂
      where
        answered :
            (o : Option PutOutcome) (r₂ : Rules sh.State)
            → P r₂.rec
            → P (answer_unrecorded sh env u t g o r₂).1.rec
        answered (some o) r₂ p₂ = p₂
        answered none r₂ p₂ = p₂

  held_ticket :
      (rec : WorkspaceRecord) (caller : Caller) (u : UploadId) (t : Ticket)
      → or_fail not_found (live_ticket rec env.now caller u) ≡ ok t
      → Map.get u rec.tickets ≡ some t
  unfolding live_ticket
  held_ticket rec caller u t h = ground arith

  commit_live-keeps :
      (caller : Caller) (u : UploadId) (r : Rules sh.State)
      → P r.rec
      → P (commit_live sh env caller u r).1.rec
  unfolding commit_live
  commit_live-keeps caller u r p = and_then-same On _ r _ p λ t live.
      and_then-same On _ r _ p λ g _.
        and_then-same On _ r _ p
          λ size _. settle_staged-keeps u t g size r (p, held_ticket r.rec caller u t live)

  pub commit_upload-keeps :
      (caller : Caller) (u : UploadId) (r : Rules sh.State)
      → P r.rec
      → P (commit_upload sh env caller u r).1.rec
  unfolding commit_upload answer_outcome and_then
  commit_upload-keeps caller u r p = ground (arith, p, commit_live-keeps caller u r p)

  pub abort_upload-keeps :
      (caller : Caller) (u : UploadId) (r : Rules sh.State)
      → P r.rec
      → P (abort_upload caller u r).1.rec
  unfolding abort_upload and_then
  abort_upload-keeps caller u r p = ground (arith, p, drop_tickets-keeps (u ∷ []) r p)

  pub drop_rewrite_uploads-keeps : (r : Rules sh.State) → P r.rec → P (drop_rewrite_uploads r).1.rec
  unfolding drop_rewrite_uploads and_then
  drop_rewrite_uploads-keeps r p = drop_tickets-keeps (ended_uploads r.rec) r p

  sweep_generations-keeps :
      (live gs : List ℕ) (r : Rules sh.State) → P r.rec → P (sweep_generations live gs r).1.rec
  unfolding sweep_generations and_then
  sweep_generations-keeps live [] r p = p
  sweep_generations-keeps live (g ∷ gs) r p = elim (Bool-cases (any (λ h. h == g) live)) [
    | inl known ↦ rw (known, sweep_generations) (sweep_generations-keeps live gs r p)
    | inr rubbish ↦
        rw (rubbish, sweep_generations) (sweep_generations-keeps live gs _ (c.books r.rec _ p))
  ]

  pub clean_staging-keeps : (r : Rules sh.State) → P r.rec → P (clean_staging sh env r).1.rec
  unfolding clean_staging sweep_shelf
  clean_staging-keeps r p = and_then-keeps On _ _ (c.expires r.rec p) λ _ r₁ p₁.
      and_then-keeps On _ _ p₁ λ ids r₂ p₂.
        and_then-keeps On _ _ (rw sweep_staging-rec p₂) λ n r₃ p₃.
          and_then-keeps On _ _
            (and_then-keeps On _ _ p₃ λ live r₅ p₅.
              and_then-keeps On _ _ p₅ λ gs r₆ p₆. sweep_generations-keeps live gs r₆ p₆)
            λ _ r₄ p₄. p₄

  rebook-keeps : (gs : List ℕ) (r : Rules sh.State) → P r.rec → P (rebook sh gs r).1.rec
  unfolding rebook
  rebook-keeps [] r p = p
  rebook-keeps (g ∷ gs) r p =
      and_then-keeps On _ _ p
        λ n r₁ p₁. and_then-keeps On _ _ (c.books r₁.rec _ p₁) λ _ r₂ p₂. rebook-keeps gs r₂ p₂

  pub reconcile-keeps : (r : Rules sh.State) → P r.rec → P (reconcile sh env r).1.rec
  unfolding reconcile
  reconcile-keeps r p = and_then-keeps On _ _ p λ live r₁ p₁.
      and_then-keeps On _ _ (rebook-keeps live r₁ p₁)
        λ _ r₂ p₂. and_then-keeps On _ _ (clean_staging-keeps r₂ p₂) λ _ r₃ p₃. p₃
