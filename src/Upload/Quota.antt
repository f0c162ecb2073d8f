-- ===== src/Upload/Quota.antt =====
-- What the quota allows: the bytes that a new ticket promises, beside those held and promised before.
use mathlib.Core.Bool.{xor}
use passalong_server.Base.{
  refl, ◌<◌, List, u64_max, if◌then◌else◌, ℕ, ◌+◌, ◌-◌, ◌≤◌, ◌≡◌, sym, subst, Bool, true, false, [],
  ◌∷◌, arith, ltb, sum, map, filter, inl, inr, Bool-cases,
}
use passalong_server.Error.{Result, ok, err, spins}
use passalong_server.Ids.{UploadId}
use passalong_server.Map
use passalong_server.Map.{Map, insert, values}
use passalong_server.Map.Order.{nat_ord, text_ord}
use passalong_server.Record.{Caller, Ticket, UploadRequest, WorkspaceRecord, Begun}
use passalong_server.Rules.{Env, Rules, and_then}
use passalong_server.Rules.Post.{Post, and_then-Post}
use passalong_server.Shelf.{ItemShelf}
use passalong_server.Upload.{is_live_of_kind, reserved_by, saturating_add, staged_bytes}
use passalong_server.Upload.Begin.{
  add_ticket, fresh_upload_id, held_bytes, ticket_given, open_upload,
}
use passalong_server.Views.{booked, optional, used_bytes, live_generations}

-- One more ticket promises at most its size more.
abbrev promised : (Ticket → Bool) → Map UploadId Ticket → ℕ
promised p m = sum (map (λ t. t.request.size) (filter p (values m)))

promised-insert :
    (p : Ticket → Bool) (u : UploadId) (t : Ticket) (m : Map UploadId Ticket)
    → promised p (insert u t m) ≤ promised p m + t.request.size
unfolding insert
promised-insert p u t [] = ground arith
promised-insert p u t ((j, w) ∷ m) = ground (arith, promised-insert p u t m)

reserved-add_ticket :
    (u : UploadId) (t : Ticket) (rec : WorkspaceRecord) (now : ℕ) (b : Bool)
    → reserved_by (add_ticket u t rec) now b ≤ reserved_by rec now b + t.request.size
unfolding reserved_by
reserved-add_ticket u t rec now b = promised-insert (is_live_of_kind now b) u t rec.tickets

-- A new ticket adds at most its size to what the quota counts.
held-add_ticket :
    (g now : ℕ) (b : Bool) (u : UploadId) (t : Ticket) (rec : WorkspaceRecord)
    → held_bytes (add_ticket u t rec) g now b
      ≤ saturating_add (held_bytes rec g now b) t.request.size
unfolding held_bytes used_bytes staged_bytes live_generations
held-add_ticket g now true u t rec = let more = reserved-add_ticket u t rec now true in omega arith
held-add_ticket g now false u t rec =
    let more = reserved-add_ticket u t rec now false in omega arith

-- The bytes booked for a rewrite's next generation are among those used: to take them away never stops
-- at 0, and leaves the bytes booked for the workspace's items and for its plain partition.
pub staged_bytes-used_bytes :
    (rec : WorkspaceRecord)
    → (staged_bytes rec ≤ used_bytes rec)
      × (used_bytes rec - staged_bytes rec
          ≡ booked rec rec.generation + sum (map (booked rec) (optional rec.plain)))
unfolding staged_bytes used_bytes live_generations
staged_bytes-used_bytes rec = ground arith

-- What a live ticket promises to uploads of one kind: its size if it is of that kind.
abbrev pub promise : Bool → ℕ → Ticket → ℕ
promise true now t =
    if t.request.in_rewrite then (if ltb now t.expires_at then t.request.size else 0) else 0
promise false now t =
    if t.request.in_rewrite then 0 else (if ltb now t.expires_at then t.request.size else 0)

-- What is stored already where an upload of that kind goes: for one of a rewrite, in the next
-- generation `g`; for any other, in the workspace's items and its plain partition.
abbrev pub stored_beside : Bool → ℕ → WorkspaceRecord → ℕ
stored_beside true g rec = booked rec g
stored_beside false g rec = booked rec rec.generation + sum (map (booked rec) (optional rec.plain))

sum-promise :
    (b : Bool) (now : ℕ) (ts : List Ticket)
    → sum (map (λ t. t.request.size) (filter (is_live_of_kind now b) ts))
      ≡ sum (map (promise b now) ts)
unfolding xor
sum-promise true now [] = refl
sum-promise false now [] = refl
sum-promise true now (t ∷ ts) = ground (arith, sum-promise true now ts)
sum-promise false now (t ∷ ts) = ground (arith, sum-promise false now ts)

-- A quota that a `u64` sum can exceed bounds the sum itself.
within-held :
    (b : Bool) (g now quota : ℕ) (rec : WorkspaceRecord)
    → quota < u64_max
    → held_bytes rec g now b ≤ quota
    → stored_beside b g rec + sum (map (promise b now) (Map.values rec.tickets)) ≤ quota
unfolding held_bytes reserved_by
within-held true g now quota rec small h =
    omega (arith, small, h, sum-promise true now (Map.values rec.tickets))
within-held false g now quota rec small h =
    let split = staged_bytes-used_bytes rec in
    omega (arith, small, h, split.0, split.1, sum-promise false now (Map.values rec.tickets))

module _ (sh : ItemShelf) (env : Env) (caller : Caller) (q : UploadRequest) (g : ℕ) where
  -- What the check bounds is within the quota.
  abbrev Held : Begun → Rules sh.State → Type 0
  Held _ r = held_bytes r.rec g env.now q.in_rewrite ≤ env.limits.quota_bytes

  ticket_given-Held :
      (r : Rules sh.State)
      → saturating_add (held_bytes r.rec g env.now q.in_rewrite) q.size ≤ env.limits.quota_bytes
      → Post Held (ticket_given sh env caller q r)
  unfolding ticket_given fresh_upload_id
  ticket_given-Held r room = and_then-Post (Stays r) Held _ _ (ground (arith, r)) λ u r₁ e₁.
      and_then-Post (Stays r) Held _ _ (same_rec _ (ground (arith, e₁))) λ _ r₂ e₂.
        and_then-Post (λ _ p. Kept p.rec) Held _ _
          (subst (λ rec. Kept (add_ticket u given rec)) (sym e₂)
            (let more = held-add_ticket g env.now q.in_rewrite u given r.rec in omega arith))
          λ _ r₃ k. k
    where
      given : Ticket
      given = record {
        owner = caller.key;
        request = q;
        expires_at = env.now + env.limits.staging_secs;
      }

      Kept : WorkspaceRecord → Type 0
      Kept rec = held_bytes rec g env.now q.in_rewrite ≤ env.limits.quota_bytes

      Stays : {A : Type 0} → Rules sh.State → A → Rules sh.State → Type 0
      Stays r _ p = p.rec ≡ r.rec

      same_rec : {A : Type 0} (x : Result A × Rules sh.State) → x.1.rec ≡ r.rec → Post (Stays r) x
      same_rec (ok a, p) e = e
      same_rec (err x, p) e = tt
      same_rec (spins, p) e = tt

  -- The bytes stored and promised, without a bound on their sum, are within the quota.
  abbrev pub Within : Begun → Rules sh.State → Type 0
  Within _ r =
      stored_beside q.in_rewrite g r.rec
        + sum (map (promise q.in_rewrite env.now) (Map.values r.rec.tickets))
      ≤ env.limits.quota_bytes

  open_upload-Held : (r : Rules sh.State) → Post Held (open_upload sh env caller q g r)
  unfolding open_upload and_then
  open_upload-Held r =
      elim (Bool-cases (
        ltb env.limits.quota_bytes
          (saturating_add (held_bytes r.rec g env.now q.in_rewrite) q.size))) [
            | inl over ↦ rw over tt
            | inr fits ↦ rw fits (ticket_given-Held r (ground (arith, fits)))
          ]

  weaker :
      env.limits.quota_bytes < u64_max
      → (x : Result Begun × Rules sh.State) → Post Held x
      → Post Within x
  weaker small (ok b, r) h = within-held q.in_rewrite g env.now env.limits.quota_bytes r.rec small h
  weaker small (err e, r) h = tt
  weaker small (spins, r) h = tt

  -- Under a quota below the largest `u64`, where the answer to an upload that was not under way yet is
  -- a new ticket, the bytes stored and the sizes of the live tickets of its kind, the new one among
  -- them, sum up to no more than the quota: for an upload into a rewrite, with the bytes booked for
  -- the next generation; for any other, with those booked for the workspace's items and its plain
  -- partition.
  pub open_upload-Within :
      env.limits.quota_bytes < u64_max
      → (r : Rules sh.State) → Post Within (open_upload sh env caller q g r)
  open_upload-Within small r = weaker small _ (open_upload-Held r)
