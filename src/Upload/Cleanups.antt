-- ===== src/Upload/Cleanups.antt =====
-- What the operations of Upload ask to be removed from the shelf is nothing that the record still
-- points to.
use passalong_server.Map.Laws.{get-remove_none}
use passalong_server.Base.{
  ℕ, suc, ◌≡◌, refl, sym, ◌∙◌, ◌≢◌, Bool, true, false, inl, inr, List, [], ◌∷◌, Option, none, some,
  arith, any, ◌==◌, Bool-cases, All, All-snoc, All-mono, subst,
}
use passalong_server.Ids.{ItemId, UploadId}
use passalong_server.Map
use passalong_server.Map.Laws.{contains_key-get}
use passalong_server.Map.Order.{nat_ord, text_ord}
use passalong_server.Map.Sorted.{IsSorted, get-remove_self, remove-IsSorted}
use passalong_server.Record.{
  Caller, UploadRequest, PutOutcome, Ticket, Tombstone, Cleanup, drop_generation, remove_staging,
  WorkspaceRecord,
}
use passalong_server.Record.Cleanups.{IsHarmless, AsksSafely}
use passalong_server.Rules.{Env, Rules, and_then, pure}
use passalong_server.Rules.Keeps.{and_then-keeps, and_then-leads, if-keeps}
use passalong_server.Error.{Result-cases}
use passalong_server.Shelf.{ItemShelf}
use passalong_server.Upload.Begin.{
  drop_ticket, drop_tickets, answer_stored, begin_unstored, begin_found, begin_upload,
}
use passalong_server.Upload.Commit.{
  is_of_size, finish_upload, record_publish, finish_unrecorded, publish_or_share, commit_staged,
  answer_unrecorded, settle_staged, commit_live, answer_outcome, commit_upload,
}
use passalong_server.Upload.WellFormed.{check_plaintext-same}
use passalong_server.Upload.Janitor.{
  owned_by, ended_uploads, abort_upload, drop_rewrite_uploads, sweep_staging, sweep_generations,
  sweep_shelf, clean_staging, rebook, reconcile,
}
use passalong_server.Views.{add_used, live_generations}

drop_ticket-IsHarmless :
    (u : UploadId) (rec : WorkspaceRecord)
    → IsSorted rec.tickets
    → (c : Cleanup) → IsHarmless rec c
    → IsHarmless (drop_ticket u rec) c
unfolding live_generations
drop_ticket-IsHarmless u rec s (drop_generation g) h = h
drop_ticket-IsHarmless u rec s (remove_staging v) h = get-remove_none v u rec.tickets h

pub drop_tickets-AsksSafely :
    {S : Type 0} (ids : List UploadId) (r : Rules S)
    → IsSorted r.rec.tickets
    → AsksSafely r
    → AsksSafely (drop_tickets ids r).1
unfolding drop_tickets and_then
drop_tickets-AsksSafely [] r s a = a
drop_tickets-AsksSafely (u ∷ ids) r s a =
    drop_tickets-AsksSafely ids _ (remove-IsSorted u r.rec.tickets s) (
      All-snoc (IsHarmless (drop_ticket u r.rec)) r.after (remove_staging u)
        (All-mono (IsHarmless r.rec) (IsHarmless (drop_ticket u r.rec)) r.after
          (drop_ticket-IsHarmless u r.rec s) a)
        (get-remove_self u r.rec.tickets s))

pub drop_rewrite_uploads-AsksSafely :
    {S : Type 0} (r : Rules S)
    → IsSorted r.rec.tickets
    → AsksSafely r
    → AsksSafely (drop_rewrite_uploads r).1
unfolding drop_rewrite_uploads and_then
drop_rewrite_uploads-AsksSafely r s a = drop_tickets-AsksSafely (ended_uploads r.rec) r s a

pub abort_upload-AsksSafely :
    {S : Type 0} (caller : Caller) (u : UploadId) (r : Rules S)
    → IsSorted r.rec.tickets
    → AsksSafely r
    → AsksSafely (abort_upload caller u r).1
unfolding abort_upload and_then
abort_upload-AsksSafely caller u r s a =
    elim (Bool-cases (owned_by caller.key (Map.get u r.rec.tickets))) [
      | inl own ↦ rw (own, abort_upload) (drop_tickets-AsksSafely (u ∷ []) r s a)
      | inr other ↦ rw (other, abort_upload) a
    ]

pub sweep_staging-AsksSafely :
    {S : Type 0} (ids : List UploadId) (n : ℕ) (r : Rules S)
    → AsksSafely r
    → AsksSafely (sweep_staging ids n r).1
unfolding sweep_staging and_then
sweep_staging-AsksSafely [] n r a = a
sweep_staging-AsksSafely (u ∷ ids) n r a = elim (Bool-cases (Map.contains_key u r.rec.tickets)) [
  | inl known ↦ rw known (sweep_staging-AsksSafely ids n r a)
  | inr unknown ↦ rw unknown (
      sweep_staging-AsksSafely ids (suc n) _ (
        All-snoc (IsHarmless r.rec) r.after (remove_staging u) a
          (contains_key-get u r.rec.tickets unknown)))
]

pub not-any : (g : ℕ) (live : List ℕ) → any (λ h. h == g) live ≡ false → All (λ l. l ≢ g) live
not-any g [] h = tt
not-any g (l ∷ live) h = ground (arith, not-any g live)

unused-IsHarmless :
    (g : ℕ) (rec : WorkspaceRecord) (c : Cleanup)
    → IsHarmless rec c
    → IsHarmless (record rec { used = Map.remove g rec.used }) c
unfolding live_generations
unused-IsHarmless g rec (drop_generation _) h = h
unused-IsHarmless g rec (remove_staging _) h = h

pub sweep_generations-AsksSafely :
    {S : Type 0} (live gs : List ℕ) (r : Rules S)
    → live_generations r.rec ≡ live
    → AsksSafely r
    → AsksSafely (sweep_generations live gs r).1
unfolding sweep_generations and_then live_generations
sweep_generations-AsksSafely live [] r e a = a
sweep_generations-AsksSafely live (g ∷ gs) r e a = elim (Bool-cases (any (λ h. h == g) live)) [
  | inl known ↦ rw (known, sweep_generations) (sweep_generations-AsksSafely live gs r e a)
  | inr rubbish ↦
      rw (rubbish, sweep_generations)
        (sweep_generations-AsksSafely live gs _ e (
          All-snoc (IsHarmless r.rec) r.after (drop_generation g) a
            (subst (All (λ l. l ≢ g)) (sym e) (not-any g live rubbish))))
]

abbrev pub AsksNothing : {S : Type 0} → Rules S → Type 0
AsksNothing r = r.after ≡ []

-- With nothing asked for, all that was asked for is safe.
pub AsksSafely-nil : {S : Type 0} (r : Rules S) → r.after ≡ [] → AsksSafely r
AsksSafely-nil r e = rw e tt

module _ (sh : ItemShelf) where
  sweep_shelf-AsksSafely : (r : Rules sh.State) → AsksSafely r → AsksSafely (sweep_shelf sh r).1
  unfolding sweep_shelf and_then
  sweep_shelf-AsksSafely r a = elim (Result-cases (sh.generations r.shelf)) [
    | inl (gs, e) ↦
        rw (e, sweep_shelf) (sweep_generations-AsksSafely (live_generations r.rec) gs r refl a)
    | inr (inl (x, e)) ↦ rw (e, sweep_shelf) a
    | inr (inr e) ↦ rw (e, sweep_shelf) a
  ]

  pub clean_staging-AsksSafely :
      (env : Env) (r : Rules sh.State) → r.after ≡ [] → AsksSafely (clean_staging sh env r).1
  unfolding clean_staging
  clean_staging-AsksSafely env r e =
      and_then-leads AsksNothing AsksSafely _ _ AsksSafely-nil e λ _ r₁ e₁.
        and_then-keeps AsksSafely _ _ (AsksSafely-nil r₁ e₁) λ ids r₂ a₂.
          and_then-keeps AsksSafely _ _ (sweep_staging-AsksSafely ids 0 r₂ a₂)
            λ n r₃ a₃. and_then-keeps AsksSafely _ _ (sweep_shelf-AsksSafely r₃ a₃) λ _ r₄ a₄. a₄

  rebook-after : (gs : List ℕ) (r : Rules sh.State) → (rebook sh gs r).1.after ≡ r.after
  unfolding rebook and_then
  rebook-after [] r = refl
  rebook-after (g ∷ gs) r = elim (Result-cases (sh.bytes g r.shelf)) [
    | inl (n, e) ↦ rw (e, rebook) (rebook-after gs _)
    | inr (inl (x, e)) ↦ rw (e, rebook)
    | inr (inr e) ↦ rw (e, rebook)
  ]

  pub reconcile-AsksSafely :
      (env : Env) (r : Rules sh.State) → r.after ≡ [] → AsksSafely (reconcile sh env r).1
  unfolding reconcile
  reconcile-AsksSafely env r e =
      and_then-leads AsksNothing AsksSafely _ _ AsksSafely-nil e λ live r₁ e₁.
        and_then-leads AsksNothing AsksSafely _ _ AsksSafely-nil (rebook-after live r₁ ∙ e₁)
          λ _ r₂ e₂.
            and_then-keeps AsksSafely _ _ (clean_staging-AsksSafely env r₂ e₂) λ _ r₃ a₃. a₃

  module _ (env : Env) where
    begin_unstored-after :
        (caller : Caller) (q : UploadRequest) (g : ℕ) (r : Rules sh.State)
        → (begin_unstored sh env caller q g r).1.after ≡ r.after
    unfolding begin_unstored and_then
    begin_unstored-after caller q g r = ground arith

    -- The tickets in order, and nothing asked for.
    abbrev Begins : Rules sh.State → Type 0
    Begins r = IsSorted r.rec.tickets × AsksNothing r

    Begins-safely : (r : Rules sh.State) → Begins r → AsksSafely r
    Begins-safely r b = AsksSafely-nil r b.1

    answer_stored-AsksSafely :
        (caller : Caller) (q : UploadRequest) (id : ItemId) (r : Rules sh.State)
        → Begins r
        → AsksSafely (answer_stored sh env caller q id r).1
    unfolding answer_stored
    answer_stored-AsksSafely caller q id r b =
        and_then-leads Begins AsksSafely _ _ Begins-safely b λ ids r₁ b₁.
          and_then-keeps AsksSafely _ _ (drop_tickets-AsksSafely ids r₁ b₁.0 (Begins-safely r₁ b₁))
            λ _ r₂ a₂. a₂

    begin_found-AsksSafely :
        (caller : Caller) (q : UploadRequest) (g : ℕ) (o : Option ItemId) (r : Rules sh.State)
        → Begins r
        → AsksSafely (begin_found sh env caller q g o r).1
    unfolding begin_found
    begin_found-AsksSafely caller q g (some id) r b = answer_stored-AsksSafely caller q id r b
    begin_found-AsksSafely caller q g none r b = rw (begin_unstored-after caller q g r ∙ b.1) tt

    pub begin_upload-AsksSafely :
        (caller : Caller) (q : UploadRequest) (r : Rules sh.State)
        → IsSorted r.rec.tickets
        → AsksNothing r
        → AsksSafely (begin_upload sh env caller q r).1
    unfolding begin_upload
    begin_upload-AsksSafely caller q r s e =
        and_then-leads Begins AsksSafely _ _ Begins-safely (s, e)
          λ _ r₁ b₁. and_then-leads Begins AsksSafely _ _ Begins-safely b₁ λ g r₂ b₂.
            and_then-leads Begins AsksSafely _ _ Begins-safely (ground arith) λ _ r₃ b₃.
              and_then-leads Begins AsksSafely _ _ Begins-safely b₃
                (begin_found-AsksSafely caller q g)

    finish_upload-AsksSafely :
        (u : UploadId) (t : Ticket) (id : ItemId) (made : Bool) (r : Rules sh.State)
        → Begins r
        → AsksSafely (finish_upload sh env u t id made r).1
    unfolding finish_upload and_then
    finish_upload-AsksSafely u t id made r b = rw b.1 (get-remove_self u r.rec.tickets b.0, tt)

    publish_or_share-AsksSafely :
        (u : UploadId) (t : Ticket) (g : ℕ) (o : Option ItemId) (r : Rules sh.State)
        → Begins r
        → AsksSafely (publish_or_share sh env u t g o r).1
    unfolding publish_or_share add_used
    publish_or_share-AsksSafely u t g (some id) r b = finish_upload-AsksSafely u t id false r b
    publish_or_share-AsksSafely u t g none r b =
        and_then-leads Begins AsksSafely _ _ Begins-safely b λ _ r₁ b₁.
          and_then-leads Begins AsksSafely _ _ Begins-safely b₁
            λ _ r₂ b₂. finish_upload-AsksSafely u t t.request.id true r₂ b₂

    commit_staged-AsksSafely :
        (u : UploadId) (t : Ticket) (g : ℕ) (o : Option ℕ) (r : Rules sh.State)
        → Begins r
        → AsksSafely (commit_staged sh env u t g o r).1
    unfolding commit_staged
    commit_staged-AsksSafely u t g none r b = Begins-safely r b
    commit_staged-AsksSafely u t g (some n) r b =
        and_then-leads Begins AsksSafely _ _ Begins-safely (ground arith) λ _ r₁ b₁.
          and_then-leads Begins AsksSafely _ _ Begins-safely
            (ground (arith, check_plaintext-same sh env u t.request r₁))
            λ _ r₂ b₂.
              and_then-leads Begins AsksSafely _ _ Begins-safely b₂
                (publish_or_share-AsksSafely u t g)

    record_publish-AsksSafely :
        (u : UploadId) (t : Ticket) (g : ℕ) (r : Rules sh.State)
        → Begins r
        → AsksSafely (record_publish sh env u t g r).1
    unfolding record_publish
    record_publish-AsksSafely u t g r b =
        and_then-leads Begins AsksSafely _ _ Begins-safely b λ n r₁ b₁.
          and_then-leads Begins AsksSafely _ _ Begins-safely b₁ λ _ r₂ b₂.
            and_then-keeps AsksSafely _ _ (finish_upload-AsksSafely u t t.request.id true r₂ b₂)
              λ _ r₃ a₃. a₃

    finish_unrecorded-AsksSafely :
        (u : UploadId) (t : Ticket) (g : ℕ) (r : Rules sh.State)
        → Begins r
        → AsksSafely (finish_unrecorded sh env u t g r).1
    unfolding finish_unrecorded
    finish_unrecorded-AsksSafely u t g r b =
        and_then-leads Begins AsksSafely _ _ Begins-safely b λ o r₁ b₁.
          if-keeps AsksSafely (is_of_size sh env t.request.size o) (record_publish sh env u t g)
            (pure none) r₁ (record_publish-AsksSafely u t g r₁ b₁) (Begins-safely r₁ b₁)

    answer_unrecorded-AsksSafely :
        (u : UploadId) (t : Ticket) (g : ℕ) (o : Option PutOutcome) (r : Rules sh.State)
        → AsksSafely r
        → AsksSafely (answer_unrecorded sh env u t g o r).1
    unfolding answer_unrecorded
    answer_unrecorded-AsksSafely u t g (some outcome) r a = a
    answer_unrecorded-AsksSafely u t g none r a = a

    settle_staged-AsksSafely :
        (u : UploadId) (t : Ticket) (g : ℕ) (o : Option ℕ) (r : Rules sh.State)
        → Begins r
        → AsksSafely (settle_staged sh env u t g o r).1
    unfolding settle_staged
    settle_staged-AsksSafely u t g (some n) r b = commit_staged-AsksSafely u t g (some n) r b
    settle_staged-AsksSafely u t g none r b =
        and_then-keeps AsksSafely _ _ (finish_unrecorded-AsksSafely u t g r b)
          (answer_unrecorded-AsksSafely u t g)

    commit_live-AsksSafely :
        (caller : Caller) (u : UploadId) (r : Rules sh.State)
        → Begins r
        → AsksSafely (commit_live sh env caller u r).1
    unfolding commit_live
    commit_live-AsksSafely caller u r b =
        and_then-leads Begins AsksSafely _ _ Begins-safely b λ t r₁ b₁.
          and_then-leads Begins AsksSafely _ _ Begins-safely b₁ λ g r₂ b₂.
            and_then-leads Begins AsksSafely _ _ Begins-safely b₂ (settle_staged-AsksSafely u t g)

    answer_outcome-AsksSafely :
        (caller : Caller) (u : UploadId) (o : Option Tombstone) (r : Rules sh.State)
        → Begins r
        → AsksSafely (answer_outcome sh env caller u o r).1
    unfolding answer_outcome
    answer_outcome-AsksSafely caller u (some stone) r b = Begins-safely r b
    answer_outcome-AsksSafely caller u none r b = commit_live-AsksSafely caller u r b

    pub commit_upload-AsksSafely :
        (caller : Caller) (u : UploadId) (r : Rules sh.State)
        → IsSorted r.rec.tickets
        → AsksNothing r
        → AsksSafely (commit_upload sh env caller u r).1
    unfolding commit_upload
    commit_upload-AsksSafely caller u r s e =
        and_then-leads Begins AsksSafely _ _ Begins-safely (s, e)
          (answer_outcome-AsksSafely caller u)
