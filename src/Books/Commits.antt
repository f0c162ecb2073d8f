-- ===== src/Books/Commits.antt =====
-- The books under a commit, which books what it publishes.
use passalong_server.Base.{
  ℕ, ◌+◌, ◌<◌, ◌≡◌, refl, sym, ap, subst, ◌∙◌, Bool, true, false, ◌==◌, Option, none, some, arith,
  if◌then◌else◌,
}
use passalong_server.Books.{Balanced, Settles, Level}
use passalong_server.Books.Changes.{and_then-Settles, and_then-saw}
use passalong_server.Books.Items.{rebooked-Balanced, unmoved}
use passalong_server.Error.{ApiError, Result, ok, err, spins}
use passalong_server.Ids.{ItemId, UploadId, content_key}
use passalong_server.Map.Order.{nat_ord, text_ord}
use passalong_server.Record.{Caller, Ticket, Tombstone, UploadRequest, WorkspaceRecord, PutOutcome}
use passalong_server.Record.Generations.{IsWellFormed}
use passalong_server.Rules.{M, Env, Rules, and_then, pure, refuse}
use passalong_server.Rules.Keeps.{and_then-keeps, and_then-same, if-keeps}
use passalong_server.Shelf.{ItemShelf}
use passalong_server.Shelf.Laws.{ShelfLaws, SameBytes, Only, Added}
use passalong_server.Upload.{upload_target}
use passalong_server.Upload.Commit.{
  book, finish_upload, record_publish, finish_unrecorded, book_published, publish_or_share,
  commit_staged, answer_unrecorded, settle_staged, commit_live, answer_outcome, commit_upload,
  is_of_size,
}
use passalong_server.Books.Uploads.{uploads-Balanced}
use passalong_server.Upload.WellFormed.{check_plaintext-same}
use passalong_server.Views.{add_used, booked, find_in}

-- An upload goes to a generation that has been given out.
below-upload_target :
    (rec : WorkspaceRecord) (caller : Caller) (q : UploadRequest) (g : ℕ)
    → IsWellFormed rec
    → upload_target rec caller q ≡ ok g
    → g < rec.next_generation
unfolding upload_target
below-upload_target rec caller q g w h = let b = w.below in let st = w.staged in ground arith

module _ {sh : ItemShelf} (laws : ShelfLaws sh) (s : sh.State) (env : Env) where
  abbrev L : Rules sh.State → Type 0
  L r = Level laws s r

  finish_upload-Balanced :
      (u : UploadId) (t : Ticket) (id : ItemId) (made : Bool) (r : Rules sh.State)
      → Balanced laws r.rec r.shelf
      → Settles laws s (finish_upload sh env u t id made r)
  unfolding finish_upload and_then
  finish_upload-Balanced u t id made r b = uploads-Balanced laws _ r.rec r.shelf b

  finish_upload-Level :
      (u : UploadId) (t : Ticket) (id : ItemId) (made : Bool) (r : Rules sh.State)
      → Level laws s r
      → Level laws s (finish_upload sh env u t id made r).1
  unfolding finish_upload and_then
  finish_upload-Level u t id made r l = (uploads-Balanced laws _ r.rec r.shelf l.0, l.1)

  -- The bytes that the shelf counts are the bytes to be booked.
  book-Balanced :
      (g n : ℕ) (rec : WorkspaceRecord) (t : sh.State)
      → g < rec.next_generation
      → n ≡ laws.count g t
      → Balanced laws rec t
      → Balanced laws (book g n rec) t
  book-Balanced g n rec t below e b =
      rebooked-Balanced laws rec t t g n (λ h d. refl) (λ _. e) (λ above. omega arith) b

  record_publish-Level :
      (u : UploadId) (t : Ticket) (g : ℕ) (r : Rules sh.State)
      → g < r.rec.next_generation
      → Level laws s r
      → Level laws s (record_publish sh env u t g r).1
  unfolding record_publish
  record_publish-Level u t g r below l = and_then-same L _ r _ l λ n seen.
      and_then-keeps L _ _
        (book-Balanced g n r.rec r.shelf below (laws.bytes_count g r.shelf n seen) l.0, l.1)
        λ _ r₁ l₁.
          and_then-keeps L _ _ (finish_upload-Level u t t.request.id true r₁ l₁) λ _ r₂ l₂. l₂

  finish_unrecorded-Level :
      (u : UploadId) (t : Ticket) (g : ℕ) (r : Rules sh.State)
      → g < r.rec.next_generation
      → Level laws s r
      → Level laws s (finish_unrecorded sh env u t g r).1
  unfolding finish_unrecorded
  finish_unrecorded-Level u t g r below l = and_then-same L _ r _ l λ item seen.
      if-keeps L (is_of_size sh env t.request.size item) (record_publish sh env u t g) (pure none) r
        (record_publish-Level u t g r below l) l

  guarded-Settles :
      {A : Type 0} (b : Bool) (e : ApiError) (r : Rules sh.State) (f : Unit {0} → M sh.State A)
      → Level laws s r
      → (b ≡ true → Settles laws s (f tt r))
      → Settles laws s (and_then ((if b then pure tt else refuse e) r) f)
  unfolding and_then
  guarded-Settles true e r f l h = h refl
  guarded-Settles false e r f l h = l.1

  -- A step that leaves everything as it was.
  stays-Settles :
      {A B : Type 0} (x : Result A × Rules sh.State) (r : Rules sh.State) (f : A → M sh.State B)
      → x.1 ≡ r
      → Level laws s r
      → ((a : A) → Settles laws s (f a r))
      → Settles laws s (and_then x f)
  unfolding and_then
  stays-Settles (ok a, q) r f e l h = subst (λ p. Settles laws s (f a p)) (sym e) (h a)
  stays-Settles (err x, q) r f e l h = subst (λ p. SameBytes laws.count s p.shelf) (sym e) l.1
  stays-Settles (spins, q) r f e l h = subst (λ p. SameBytes laws.count s p.shelf) (sym e) l.1

  -- What was published is booked, in the generation that it went to.
  published-Settles :
      (u : UploadId) (t : Ticket) (g : ℕ) (r : Rules sh.State) (x : Result Bool) (now : sh.State)
      → g < r.rec.next_generation
      → Only laws.count g r.shelf now
      → Added (laws.count g r.shelf) t.request.size (laws.count g now) x
      → Level laws s r
      → Settles laws s (and_then (x, record r { shelf = now }) (book_published sh env u t g))
  unfolding and_then book_published add_used
  published-Settles u t g r (ok made) now below only added l =
      finish_upload-Balanced u t t.request.id true
        (record r { shelf = now; rec = add_used g t.request.size r.rec })
        (rebooked-Balanced laws r.rec r.shelf now g (booked r.rec g + t.request.size) only
          (λ e. omega arith) (λ above. omega arith) l.0)
  published-Settles u t g r (err e) now below only added l =
      λ h. unmoved laws g h only added ∙ l.1 h
  published-Settles u t g r spins now below only added l = λ h. unmoved laws g h only added ∙ l.1 h

  publish_or_share-Settles :
      (u : UploadId) (t : Ticket) (g : ℕ) (o : Option ItemId) (r : Rules sh.State)
      → g < r.rec.next_generation
      → sh.stage_size u r.shelf ≡ ok (some t.request.size)
      → find_in sh g (content_key t.request.id) r.shelf ≡ ok o
      → Level laws s r
      → Settles laws s (publish_or_share sh env u t g o r)
  unfolding publish_or_share
  publish_or_share-Settles u t g (some id) r below size seen l =
      finish_upload-Balanced u t id false r l.0
  publish_or_share-Settles u t g none r below size seen l =
      published-Settles u t g r _ _ below (laws.publish_only u g t.request.id _ r.shelf)
        (laws.publish_added u g t.request.id _ r.shelf t.request.size size seen) l

  commit_staged-Settles :
      (u : UploadId) (t : Ticket) (g : ℕ) (o : Option ℕ) (r : Rules sh.State)
      → g < r.rec.next_generation
      → sh.stage_size u r.shelf ≡ ok o
      → Level laws s r
      → Settles laws s (commit_staged sh env u t g o r)
  unfolding commit_staged
  commit_staged-Settles u t g none r below size l = l.1
  commit_staged-Settles u t g (some n) r below size l =
      guarded-Settles (n == t.request.size) _ r _ l λ same.
        stays-Settles _ r _ (ground (arith, check_plaintext-same sh env u t.request r)) l λ _.
          and_then-saw laws s _ r _ l λ o seen.
            publish_or_share-Settles u t g o r below (size ∙ ap (λ k. ok (some k)) (ground arith))
              seen l

  answered-Settles :
      (u : UploadId) (t : Ticket) (g : ℕ) (o : Option PutOutcome) (r : Rules sh.State)
      → Level laws s r
      → Settles laws s (answer_unrecorded sh env u t g o r)
  unfolding answer_unrecorded commit_staged
  answered-Settles u t g (some outcome) r l = l.0
  answered-Settles u t g none r l = l.1

  settle_staged-Settles :
      (u : UploadId) (t : Ticket) (g : ℕ) (o : Option ℕ) (r : Rules sh.State)
      → g < r.rec.next_generation
      → sh.stage_size u r.shelf ≡ ok o
      → Level laws s r
      → Settles laws s (settle_staged sh env u t g o r)
  unfolding settle_staged
  settle_staged-Settles u t g (some n) r below size l =
      commit_staged-Settles u t g (some n) r below size l
  settle_staged-Settles u t g none r below size l =
      and_then-Settles laws s _ _ (finish_unrecorded-Level u t g r below l)
        λ o r₁ l₁. answered-Settles u t g o r₁ l₁

  commit_live-Settles :
      (caller : Caller) (u : UploadId) (r : Rules sh.State)
      → IsWellFormed r.rec
      → Level laws s r
      → Settles laws s (commit_live sh env caller u r)
  unfolding commit_live
  commit_live-Settles caller u r w l = and_then-saw laws s _ r _ l λ t _.
      and_then-saw laws s _ r _ l λ g target. and_then-saw laws s _ r _ l λ o size.
        settle_staged-Settles u t g o r (below-upload_target r.rec caller t.request g w target) size
          l

  answer_outcome-Settles :
      (caller : Caller) (u : UploadId) (o : Option Tombstone) (r : Rules sh.State)
      → IsWellFormed r.rec
      → Level laws s r
      → Settles laws s (answer_outcome sh env caller u o r)
  unfolding answer_outcome
  answer_outcome-Settles caller u (some stone) r w l = l.0
  answer_outcome-Settles caller u none r w l = commit_live-Settles caller u r w l

  pub commit_upload-Settles :
      (caller : Caller) (u : UploadId) (r : Rules sh.State)
      → IsWellFormed r.rec
      → Level laws s r
      → Settles laws s (commit_upload sh env caller u r)
  unfolding commit_upload
  commit_upload-Settles caller u r w l =
      and_then-saw laws s _ r _ l λ o _. answer_outcome-Settles caller u o r w l
