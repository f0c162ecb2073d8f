-- ===== src/Books/Uploads.antt =====
-- The books when an upload begins or is given up: no bytes that count change.
use passalong_server.Base.{ℕ, ◌∙◌, List, [], ◌∷◌, Option, none, some, arith}
use passalong_server.Books.{Balanced, Level}
use passalong_server.Books.Changes.{Balanced-same}
use passalong_server.Ids.{ItemId, UploadId}
use passalong_server.Map.Order.{nat_ord, text_ord}
use passalong_server.Record.{Caller, Ticket, Uploads, UploadRequest, WorkspaceRecord}
use passalong_server.Rules.{Env, Rules, and_then, pure, refuse}
use passalong_server.Rules.Keeps.{and_then-keeps, if-keeps}
use passalong_server.Shelf.{ItemShelf}
use passalong_server.Shelf.Laws.{ShelfLaws, SameBytes}
use passalong_server.Upload.Begin.{
  fresh_upload_id, answer_live, open_upload, ticket_given, drop_tickets, answer_stored,
  begin_unstored, begin_found, begin_upload,
}
use passalong_server.Upload.Janitor.{abort_upload, drop_rewrite_uploads}
use passalong_server.Views.{live_generations}

module _ {sh : ItemShelf} (laws : ShelfLaws sh) where
  pub uploads-Balanced :
      (u : Uploads) (rec : WorkspaceRecord) (t : sh.State)
      → Balanced laws rec t
      → Balanced laws (record rec { uploads = u }) t
  unfolding live_generations
  uploads-Balanced u rec t b = record { live = b.live; fresh = b.fresh }

  pub same-Level :
      (s t : sh.State) (r : Rules sh.State)
      → SameBytes laws.count r.shelf t
      → Level laws s r
      → Level laws s (record r { shelf = t })
  same-Level s t r same l = (Balanced-same laws r.rec r.shelf t same l.0, λ g. same g ∙ l.1 g)

  module _ (s : sh.State) where
    abbrev L : Rules sh.State → Type 0
    L r = Level laws s r

    pub drop_tickets-Level :
        (ids : List UploadId) (r : Rules sh.State)
        → Level laws s r
        → Level laws s (drop_tickets ids r).1
    unfolding drop_tickets
    drop_tickets-Level [] r l = l
    drop_tickets-Level (u ∷ ids) r l =
        and_then-keeps L _ _ (uploads-Balanced _ r.rec r.shelf l.0, l.1)
          λ _ r₁ l₁. and_then-keeps L _ _ l₁ λ _ r₂ l₂. drop_tickets-Level ids r₂ l₂

    pub drop_rewrite_uploads-Level :
        (r : Rules sh.State) → Level laws s r → Level laws s (drop_rewrite_uploads r).1
    unfolding drop_rewrite_uploads
    drop_rewrite_uploads-Level r l =
        and_then-keeps L _ _ l λ ids r₁ l₁. drop_tickets-Level ids r₁ l₁

    pub abort_upload-Level :
        (caller : Caller) (u : UploadId) (r : Rules sh.State)
        → Level laws s r
        → Level laws s (abort_upload caller u r).1
    unfolding abort_upload
    abort_upload-Level caller u r l = and_then-keeps L _ _ l λ own r₁ l₁.
        if-keeps L own (drop_tickets (u ∷ [])) (pure tt) r₁ (drop_tickets-Level (u ∷ []) r₁ l₁) l₁

    module _ (env : Env) (caller : Caller) (q : UploadRequest) where
      answer_stored-Level :
          (id : ItemId) (r : Rules sh.State)
          → Level laws s r
          → Level laws s (answer_stored sh env caller q id r).1
      unfolding answer_stored
      answer_stored-Level id r l =
          and_then-keeps L _ _ l
            λ ids r₁ l₁. and_then-keeps L _ _ (drop_tickets-Level ids r₁ l₁) λ _ r₂ l₂. l₂

      answer_live-Level :
          (u : UploadId) (t : Ticket) (r : Rules sh.State)
          → Level laws s r
          → Level laws s (answer_live sh env u t r).1
      unfolding answer_live
      answer_live-Level u t r l =
          and_then-keeps L _ _ (same-Level s _ r (laws.create_same u r.shelf) l) λ _ r₁ l₁. l₁

      ticket_given-Level :
          (g : ℕ) (r : Rules sh.State)
          → Level laws s r
          → Level laws s (ticket_given sh env caller q r).1
      unfolding ticket_given fresh_upload_id
      ticket_given-Level g r l = and_then-keeps L _ _ (ground (arith, l)) λ u r₁ l₁.
          and_then-keeps L _ _ (same-Level s _ r₁ (laws.create_same u r₁.shelf) l₁) λ _ r₂ l₂.
            and_then-keeps L _ _ (uploads-Balanced _ r₂.rec r₂.shelf l₂.0, l₂.1) λ _ r₃ l₃. l₃

      open_upload-Level :
          (g : ℕ) (r : Rules sh.State)
          → Level laws s r
          → Level laws s (open_upload sh env caller q g r).1
      unfolding open_upload
      open_upload-Level g r l = and_then-keeps L _ _ l λ held r₁ l₁.
          if-keeps L _ (refuse _) (ticket_given sh env caller q) r₁ l₁ (ticket_given-Level g r₁ l₁)

      begin_unstored-Level :
          (g : ℕ) (r : Rules sh.State)
          → Level laws s r
          → Level laws s (begin_unstored sh env caller q g r).1
      unfolding begin_unstored and_then
      begin_unstored-Level g r l = grind (arith, answer_live-Level, open_upload-Level)

      begin_found-Level :
          (g : ℕ) (o : Option ItemId) (r : Rules sh.State)
          → Level laws s r
          → Level laws s (begin_found sh env caller q g o r).1
      unfolding begin_found
      begin_found-Level g (some id) r l = answer_stored-Level id r l
      begin_found-Level g none r l = begin_unstored-Level g r l

      pub begin_upload-Level :
          (r : Rules sh.State) → Level laws s r → Level laws s (begin_upload sh env caller q r).1
      unfolding begin_upload
      begin_upload-Level r l = and_then-keeps L _ _ l λ _ r₁ l₁. and_then-keeps L _ _ l₁ λ g r₂ l₂.
          and_then-keeps L _ _ (ground (arith, l₂))
            λ _ r₃ l₃. and_then-keeps L _ _ l₃ λ o r₄ l₄. begin_found-Level g o r₄ l₄
