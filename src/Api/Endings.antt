-- ===== src/Api/Endings.antt =====
-- The key of a rewrite that was given up, in all that the server does afterwards.
use passalong_server.Api.{Request, run}
use passalong_server.Api.Keeping.{run-keeps}
use passalong_server.Base.{
  ℕ, ◌≡◌, ◌∙◌, sym, ap, subst, List, [], ◌∷◌, true, Option, some, All, arith,
}
use passalong_server.Engine.{Engine, write}
use passalong_server.Engine.Transactions.{start, Unmoved, write-answered, write-Unmoved}
use passalong_server.Error.{ok, err, rewrite_ended}
use passalong_server.Ids.{KeyId, ApiKeyId}
use passalong_server.Map
use passalong_server.Map.Laws.{contains_key-insert_more}
use passalong_server.Map.Order.{text_ord, nat_ord}
use passalong_server.Record.{
  Caller, read_write, Session, Seal, RewriteRequest, rewriting, settled, WorkspaceRecord,
  EncryptionView, SessionView,
}
use passalong_server.Rewrite.{fits, admits, begin_settled, begin_rewrite, open_session, leased_in}
use passalong_server.Rewrite.Ends.{Ending, ends, ends-GivenUp}
use passalong_server.Rules.{Env, Rules, and_then}
use passalong_server.Shelf.{ItemShelf}
use passalong_server.Upload.Keeping.{IsClosed}
use passalong_server.Views.{must_write}

-- Every operation keeps an ended key.
ended-IsClosed :
    (key : KeyId) (now : ℕ) → IsClosed now (λ rec. Map.contains_key key rec.ended_rewrites ≡ true)
ended-IsClosed key now = record {
  books = λ rec used p. p;
  states = λ rec state p. p;
  moves = λ rec generation next plain p. p;
  ends = λ rec k p. contains_key-insert_more key k tt rec.ended_rewrites p;
  drops = λ rec u p. p;
  adds = λ rec u t unknown p. p;
  settles = λ rec u t stone held p. p;
  expires = λ rec p. p;
}

module _ (sh : ItemShelf) where
  begin_rewrite-ended :
      (env : Env) (caller : Caller) (request : RewriteRequest) (prior : Option Seal)
      (r : Rules sh.State)
      → caller.role ≡ read_write
      → r.rec.state ≡ settled prior
      → fits request.kind prior ≡ ok tt
      → Map.contains_key request.new_key_id r.rec.ended_rewrites ≡ true
      → begin_rewrite sh env caller request r ≡ (err rewrite_ended, r)
  unfolding begin_rewrite begin_settled admits must_write and_then
  begin_rewrite-ended env caller request prior r writer closed fitting ended = ground arith

  -- A key that a rewrite was given up with, by its holder or by the operator, is refused to every
  -- rewrite that is begun later: after any requests of anybody, whoever begins it, at whatever time,
  -- in a settled workspace that its kind fits. The answer is `rewrite_ended`, and neither the record
  -- nor the shelf changes.
  pub begin_rewrite-ends :
      (env later : Env) (other : Caller) (e : Engine sh.State) (rec now : WorkspaceRecord)
      (x : Session) (ending : Ending) (view : EncryptionView) (qs : List (Env × Request))
      (request : RewriteRequest) (prior : Option Seal)
      → Map.get e.workspace e.ledger ≡ some rec
      → rec.state ≡ rewriting x
      → (write sh (ends sh env ending) e).0 ≡ ok view
      → Map.get
          (run sh (write sh (ends sh env ending) e).1 qs).workspace
          (run sh (write sh (ends sh env ending) e).1 qs).ledger
        ≡ some now
      → now.state ≡ settled prior
      → fits request.kind prior ≡ ok tt
      → other.role ≡ read_write
      → request.new_key_id ≡ x.next.key_id
      → let then = run sh (write sh (ends sh env ending) e).1 qs in
        Unmoved sh then (err rewrite_ended) (write sh (begin_rewrite sh later other request) then)
  begin_rewrite-ends env later other e rec now x ending view qs request prior h opened done found
        settles fitting writer named =
      let (kept, kept_found, ended) = run-keeps sh IsEnded _ qs (closed qs) (
        write-answered sh IsEnded (ends sh env ending) e rec view h done
          λ answered. (ends-GivenUp sh x env ending (start e rec) view opened answered).3) in
      let same : kept ≡ now = some_eq (sym kept_found ∙ found) in
      write-Unmoved sh _ _ now (err rewrite_ended) found (
        begin_rewrite-ended later other request prior
          (start (run sh (write sh (ends sh env ending) e).1 qs) now) writer settles fitting
          (rw named (subst IsEnded same ended)))
    where
      IsEnded : WorkspaceRecord → Type 0
      IsEnded rec = Map.contains_key x.next.key_id rec.ended_rewrites ≡ true

      closed : (qs : List (Env × Request)) → All (λ q. IsClosed q.0.now IsEnded) qs
      closed [] = tt
      closed (q ∷ qs) = (ended-IsClosed x.next.key_id q.0.now, closed qs)

      some_eq : {a b : WorkspaceRecord} → some a ≡ some b → a ≡ b
      some_eq e = cc

  begun :
      (env : Env) (caller : Caller) (request : RewriteRequest) (prior : Option Seal)
      (r : Rules sh.State) (view : SessionView)
      → r.rec.state ≡ settled prior
      → (begin_rewrite sh env caller request r).0 ≡ ok view
      → (begin_rewrite sh env caller request r).1.rec ≡ open_session env caller request prior r.rec
  unfolding begin_rewrite begin_settled and_then
  begun env caller request prior r view settles done = ground arith

  -- A rewrite that is begun in a settled workspace leaves its items and its plain partition where they
  -- are; and where it is given up later, by its holder or by the operator, whatever happened to its
  -- lease and to the rest of the record in between, the workspace is sealed as it was when the
  -- rewrite was begun, it has the items and the plain partition that it had just before the end, and
  -- the key that the rewrite was for is among those of ended rewrites.
  pub begin_rewrite-GivenUp :
      (env later : Env) (caller : Caller) (request : RewriteRequest) (prior : Option Seal)
      (r s : Rules sh.State) (first : SessionView) (holder : ApiKeyId) (until : ℕ) (ending : Ending)
      (view : EncryptionView)
      → r.rec.state ≡ settled prior
      → (begin_rewrite sh env caller request r).0 ≡ ok first
      → s.rec.state ≡ leased_in (begin_rewrite sh env caller request r).1.rec.state holder until
      → (ends sh later ending s).0 ≡ ok view
      → let opening = (begin_rewrite sh env caller request r).1.rec in
        let left = (ends sh later ending s).1.rec in
        (opening.generation ≡ r.rec.generation)
        × (opening.plain ≡ r.rec.plain)
        × (left.state ≡ settled prior)
        × (left.generation ≡ s.rec.generation)
        × (left.plain ≡ s.rec.plain)
        × (Map.contains_key request.new_key_id left.ended_rewrites ≡ true)
  begin_rewrite-GivenUp env later caller request prior r s first holder until ending view settles
        done leased ended =
      let opened = begun env caller request prior r first settles done in
      let g =
        ends-GivenUp sh (session_of env caller request prior r.rec holder until) later ending s view
          (leased ∙ ap (λ rec. leased_in rec.state holder until) opened) ended in
      (ap (λ rec. rec.generation) opened, ap (λ rec. rec.plain) opened, g.0, g.1, g.2, g.3)
    where
      session_of :
          Env → Caller → RewriteRequest → Option Seal → WorkspaceRecord → ApiKeyId → ℕ → Session
      session_of env caller request prior rec holder until = record {
        kind = request.kind;
        prior = prior;
        next = record { key_id = request.new_key_id; header = request.new_header };
        holder = holder;
        lease_expires_at = until;
        staged_generation = rec.next_generation;
      }
