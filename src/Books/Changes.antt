-- ===== src/Books/Changes.antt =====
-- Steps that keep the books, and deletions and the changes of encryption.
use passalong_server.Base.{◌≡◌, refl, sym, ◌∙◌, Bool, true, false, List, [], ◌∷◌, arith, All-mono}
use passalong_server.Books.{IsBooked, Balanced, Settles, Level}
use passalong_server.Error.{Result, ok, err, spins}
use passalong_server.Ids.{Bytes, ItemId, KeyId}
use passalong_server.Map.Order.{nat_ord}
use passalong_server.Record.{Caller, EncryptionStatus, WorkspaceRecord}
use passalong_server.Rules.{M, Rules, and_then}
use passalong_server.Rules.Keeps.{and_then-keeps}
use passalong_server.Shelf.{ItemShelf}
use passalong_server.Shelf.Laws.{ShelfLaws, SameBytes}
use passalong_server.Views.{live_generations}
use passalong_server.Workspace.{
  set_aside, sealed_under, reheader, report, settle, seal_empty, enable_unsealed, enable_encryption,
  seal_fresh, start_unsealed, fresh_start, replace_header,
}

module _ {sh : ItemShelf} (laws : ShelfLaws sh) where
  -- The rest of a do block settles where its first step left the books level.
  pub and_then-Settles :
      {A B : Type 0} (s : sh.State) (x : Result A × Rules sh.State) (f : A → M sh.State B)
      → Level laws s x.1
      → ((a : A) (r : Rules sh.State) → Level laws s r → Settles laws s (f a r))
      → Settles laws s (and_then x f)
  unfolding and_then
  and_then-Settles s (ok a, r) f l h = h a r l
  and_then-Settles s (err e, r) f l h = l.1
  and_then-Settles s (spins, r) f l h = l.1

  -- The same where the first step only looks, with what it saw.
  pub and_then-saw :
      {A B : Type 0} (s : sh.State) (x : Result A) (r : Rules sh.State) (f : A → M sh.State B)
      → Level laws s r
      → ((a : A) → x ≡ ok a → Settles laws s (f a r))
      → Settles laws s (and_then (x, r) f)
  unfolding and_then
  and_then-saw s (ok a) r f l h = h a refl
  and_then-saw s (err e) r f l h = l.1
  and_then-saw s spins r f l h = l.1

  pub Level-Settles :
      {A : Type 0} (s : sh.State) (x : Result A × Rules sh.State)
      → Level laws s x.1
      → Settles laws s x
  Level-Settles s (ok a, r) l = l.0
  Level-Settles s (err e, r) l = l.1
  Level-Settles s (spins, r) l = l.1

  -- The books look at the shelf's bytes alone.
  pub Balanced-same :
      (rec : WorkspaceRecord) (s t : sh.State)
      → SameBytes laws.count s t
      → Balanced laws rec s
      → Balanced laws rec t
  Balanced-same rec s t same b = record {
    live =
        All-mono (IsBooked laws rec s) (IsBooked laws rec t) (live_generations rec)
          (λ g e. e ∙ sym (same g)) b.live;
    fresh = λ g h. (same g ∙ (b.fresh g h).0, (b.fresh g h).1);
  }

  -- A fresh generation starts with empty books.
  set_aside-Balanced :
      (rec : WorkspaceRecord) (s : sh.State) → Balanced laws rec s → Balanced laws (set_aside rec) s
  unfolding live_generations
  set_aside-Balanced rec s b = record {
    live = let new = b.fresh rec.next_generation (omega arith) in ground arith;
    fresh = λ g h. b.fresh g (omega arith);
  }

  sealed_under-Balanced :
      (key : KeyId) (header : Bytes) (rec : WorkspaceRecord) (s : sh.State)
      → Balanced laws rec s
      → Balanced laws (sealed_under key header rec) s
  unfolding live_generations
  sealed_under-Balanced key header rec s b = record {
    live = let l = b.live in ground arith;
    fresh = b.fresh;
  }

  module _ (s : sh.State) where
    settle-Level :
        (caller : Caller) (key : KeyId) (r : Rules sh.State)
        → Level laws s r
        → Level laws s (settle sh caller key r).1
    unfolding settle
    settle-Level caller key r l = and_then-keeps (Level laws s) _ _ l λ _ r₁ l₁. l₁

    report-Settles : (r : Rules sh.State) → Level laws s r → Settles laws s (report sh r)
    report-Settles r l = Level-Settles s (report sh r) l

    seal_fresh-Settles :
        (key : KeyId) (header : Bytes) (ids : List ItemId) (r : Rules sh.State)
        → Level laws s r
        → Settles laws s (seal_fresh sh key header ids r)
    unfolding seal_fresh
    seal_fresh-Settles key header [] r l =
        and_then-Settles s _ _ (sealed_under-Balanced key header r.rec r.shelf l.0, l.1)
          λ _ r₁ l₁. report-Settles r₁ l₁
    seal_fresh-Settles key header (id ∷ ids) r l =
        and_then-Settles s _ _ (set_aside-Balanced r.rec r.shelf l.0, l.1)
          λ _ r₁ l₁.
            and_then-Settles s _ _ (sealed_under-Balanced key header r₁.rec r₁.shelf l₁.0, l₁.1)
              λ _ r₂ l₂. report-Settles r₂ l₂

    seal_empty-Settles :
        (key : KeyId) (header : Bytes) (ids : List ItemId) (r : Rules sh.State)
        → Level laws s r
        → Settles laws s (seal_empty sh key header ids r)
    unfolding seal_empty
    seal_empty-Settles key header [] r l =
        and_then-Settles s _ _ (sealed_under-Balanced key header r.rec r.shelf l.0, l.1)
          λ _ r₁ l₁. report-Settles r₁ l₁
    seal_empty-Settles key header (id ∷ ids) r l = l.1

    start_unsealed-Settles :
        (key : KeyId) (header : Bytes) (done : Bool) (r : Rules sh.State)
        → Level laws s r
        → Settles laws s (start_unsealed sh key header done r)
    unfolding start_unsealed
    start_unsealed-Settles key header true r l = report-Settles r l
    start_unsealed-Settles key header false r l =
        and_then-Settles s _ _ l (seal_fresh-Settles key header)

    enable_unsealed-Settles :
        (key : KeyId) (header : Bytes) (done : Bool) (r : Rules sh.State)
        → Level laws s r
        → Settles laws s (enable_unsealed sh key header done r)
    unfolding enable_unsealed
    enable_unsealed-Settles key header true r l = report-Settles r l
    enable_unsealed-Settles key header false r l =
        and_then-Settles s _ _ l (seal_empty-Settles key header)

    pub fresh_start-Settles :
        (caller : Caller) (key : KeyId) (header : Bytes) (r : Rules sh.State)
        → Level laws s r
        → Settles laws s (fresh_start sh caller key header r)
    unfolding fresh_start
    fresh_start-Settles caller key header r l =
        and_then-Settles s _ _ (settle-Level caller key r l) (start_unsealed-Settles key header)

    pub enable_encryption-Settles :
        (caller : Caller) (key : KeyId) (header : Bytes) (r : Rules sh.State)
        → Level laws s r
        → Settles laws s (enable_encryption sh caller key header r)
    unfolding enable_encryption
    enable_encryption-Settles caller key header r l =
        and_then-Settles s _ _ (settle-Level caller key r l) (enable_unsealed-Settles key header)

    reheader-Balanced :
        (st : EncryptionStatus) (key : KeyId) (header : Bytes) (rec : WorkspaceRecord)
        (t : sh.State)
        → reheader rec.state key header ≡ ok st
        → Balanced laws rec t
        → Balanced laws (record rec { state = st }) t
    unfolding live_generations
    reheader-Balanced st key header rec t h b = record {
      live = let l = b.live in ground arith;
      fresh = b.fresh;
    }

    pub replace_header-Settles :
        (caller : Caller) (key : KeyId) (header : Bytes) (r : Rules sh.State)
        → Level laws s r
        → Settles laws s (replace_header sh caller key header r)
    unfolding replace_header
    replace_header-Settles caller key header r l = and_then-Settles s _ _ l λ _ r₁ l₁.
        and_then-saw s _ r₁ _ l₁ λ st h.
          and_then-Settles s _ _ (reheader-Balanced st key header r₁.rec r₁.shelf h l₁.0, l₁.1)
            λ _ r₂ l₂. report-Settles r₂ l₂
