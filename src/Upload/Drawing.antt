-- ===== src/Upload/Drawing.antt =====
-- The loop over candidate ids ends: it has a round more than there are ids that it could meet.
use passalong_server.Base.{
  ℕ, zero, suc, ◌+◌, ◌≤◌, ◌<◌, ◌≡◌, ◌≢◌, refl, ap, true, List, [], ◌∷◌, ◌++◌, none, arith, length,
  inl, inr, Bool-cases, length-append, ℕ_discrete,
}
use passalong_server.Ids.Draws
use passalong_server.Ids.Draws.{has, crowded}
use passalong_server.Ids.{Bytes, UploadId, generate}
use passalong_server.Map.{Map, contains_key, keys}
use passalong_server.Map.Order.{text_ord}
use passalong_server.Record.{WorkspaceRecord}
use passalong_server.Upload.Begin.{is_known, draw_id, draw_fuel}

has-append_left : (c : UploadId) (ks ls : List UploadId) → has c ks ≡ true → has c (ks ++ ls) ≡ true
has-append_left c [] ls h = ground arith
has-append_left c (k ∷ ks) ls h = ground (arith, has-append_left c ks ls)

has-append_right :
    (c : UploadId) (ks ls : List UploadId) → has c ls ≡ true → has c (ks ++ ls) ≡ true
has-append_right c [] ls h = h
has-append_right c (k ∷ ks) ls h = ground (arith, has-append_right c ks ls h)

has-keys :
    {V : Type 0} (c : UploadId) (m : Map UploadId V)
    → contains_key c m ≡ true
    → has c (keys m) ≡ true
unfolding contains_key
has-keys c [] h = ground arith
has-keys c ((j, v) ∷ m) h = ground (arith, text_ord.cmp_eq c j, has-keys c m)

length-keys : {V : Type 0} (m : Map UploadId V) → length (keys m) ≡ length m
length-keys [] = refl
length-keys (e ∷ m) = ap suc (length-keys m)

abbrev known_ids : WorkspaceRecord → List UploadId
known_ids rec = keys rec.tickets ++ keys rec.tombstones

has-known_ids :
    (rec : WorkspaceRecord) (c : UploadId) → is_known rec c ≡ true → has c (known_ids rec) ≡ true
has-known_ids rec c h = ground (
  arith,
  has-keys c rec.tickets,
  has-keys c rec.tombstones,
  has-append_left c (keys rec.tickets) (keys rec.tombstones),
  has-append_right c (keys rec.tickets) (keys rec.tombstones),
)

module _ (draws : ℕ → Bytes) where
  -- The source gives no id twice in `fuel` draws from the n-th on.
  abbrev pub IsFresh : ℕ → ℕ → Type 0
  IsFresh n fuel = Draws.IsFresh (λ i. generate (draws i)) n fuel

  none-is_known :
      (rec : WorkspaceRecord) (fuel n : ℕ)
      → draw_id fuel draws rec n ≡ none
      → (i : ℕ) → n ≤ i
      → i < n + fuel
      → is_known rec (generate (draws i)) ≡ true
  unfolding draw_id
  none-is_known rec zero n h i a b = ground arith
  none-is_known rec (suc fuel) n h i a b = elim (Bool-cases (is_known rec (generate (draws n)))) [
    | inl known ↦ elim (ℕ_discrete i n) [
      | yes e ↦ rw e known
      | no d ↦
          none-is_known rec fuel (suc n) (ground (arith, h, known)) i (omega arith) (omega arith)
    ]
    | inr free ↦ ground (arith, h, free)
  ]

  -- Where the random source gives no id twice within as many draws as the record knows uploads, and one
  -- more, the search for an id of its own ends with one within that number of rounds.
  pub draw_id-enough :
      (rec : WorkspaceRecord) (n : ℕ)
      → IsFresh n (draw_fuel rec)
      → draw_id (draw_fuel rec) draws rec n ≢ none
  draw_id-enough rec n fresh h =
      let many =
        crowded (λ i. generate (draws i)) (draw_fuel rec) n (known_ids rec) fresh
          λ i a b.
            has-known_ids rec (generate (draws i)) (none-is_known rec (draw_fuel rec) n h i a b) in
      omega (
        arith,
        length-append (keys rec.tickets) (keys rec.tombstones),
        length-keys rec.tickets,
        length-keys rec.tombstones,
      )
