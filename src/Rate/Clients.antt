-- ===== src/Rate/Clients.antt =====
-- crates/passalong-server-api/src/rate.rs, `client_address`: which address a request is counted
-- under. The values of the header `X-Forwarded-For` are those that the `http` crate gives, and
-- `to_str` and `parse` stand for `HeaderValue::to_str` and for `std`'s parser of addresses.
use passalong_server.Base.{
  ◌≡◌, refl, Bool, true, false, List, [], ◌∷◌, ◌++◌, Option, none, some, get_or, arith, all, not,
  ◌==◌, if◌then◌else◌, ap, ◌∙◌, sym, ℕ, ◌&&◌, leb, ltb, ◌||◌,
}
use passalong_server.Ids.{Text, Bytes}
use passalong_server.Rate.{IpAddr}
use passalong_server.Views.Items.{trim}

-- `iter().next_back()`.
abbrev next_back : List Bytes → Option Bytes
next_back [] = none
next_back (value ∷ []) = some value
next_back (value ∷ other ∷ values) = next_back (other ∷ values)

-- `rsplit(',').next()`: what stands behind the last comma.
unfoldable pub last_entry : Text → Text
last_entry [] = []
last_entry (b ∷ text) =
    let rest = last_entry text in if all (λ c. not (c == b',')) (b ∷ text) then b ∷ text else rest

-- What `HeaderValue::to_str` reads: visible ASCII, spaces and tabs.
abbrev pub is_visible : ℕ → Bool
is_visible b = leb 32 b && ltb b 127 || b == 9

module _ (to_str : Bytes → Option Text) (parse : Text → Option IpAddr) where
  -- The address in a header's value, if there is one in its last place.
  abbrev pub entry_of : Bytes → Option IpAddr
  entry_of value = elim (to_str value) [
    | none ↦ none
    | some chain ↦ parse (trim (last_entry chain))
  ]

  unfoldable pub client_address : IpAddr → List Bytes → Bool → IpAddr
  client_address peer headers behind_proxy =
      if not behind_proxy
      then peer
      else elim (next_back headers) [ none ↦ peer | some value ↦ get_or (entry_of value) peer ]

  next_back-append :
      (values : List Bytes) (value : Bytes) → next_back (values ++ value ∷ []) ≡ some value
  next_back-append [] value = refl
  next_back-append (first ∷ []) value = refl
  next_back-append (first ∷ second ∷ values) value = next_back-append (second ∷ values) value

  last_entry-whole : (own : Text) → all (λ c. not (c == b',')) own ≡ true → last_entry own ≡ own
  unfolding last_entry
  last_entry-whole [] h = refl
  last_entry-whole (b ∷ own) h = rw h refl

  all_visible :
      (prefix own : Text)
      → all is_visible (prefix ++ b',' ∷ own) ≡ all is_visible prefix && all is_visible own
  all_visible [] own = refl
  all_visible (b ∷ prefix) own = ground (arith, all_visible prefix own)

  has_comma : (forged own : Text) → all (λ c. not (c == b',')) (forged ++ b',' ∷ own) ≡ false
  has_comma [] own = refl
  has_comma (b ∷ forged) own = ground (arith, has_comma forged own)

  last_entry-append :
      (forged own : Text)
      → all (λ c. not (c == b',')) own ≡ true
      → last_entry (forged ++ b',' ∷ own) ≡ own
  unfolding last_entry
  last_entry-append [] own h = last_entry-whole own h
  last_entry-append (b ∷ forged) own h =
      ground (arith, has_comma forged own, last_entry-append forged own h)

  -- Where `to_str` reads visible text only, as the `http` crate has it, the address that is counted
  -- behind a proxy is settled by what the proxy appends to the header, whatever values and whatever
  -- text the client puts before it: it is the address that the proxy's entry alone gives, or, where
  -- the client's text has a byte that is not visible ASCII, the peer's, that is, the proxy's own.
  pub client_address-unforgeable :
      ((value : Bytes) → to_str value ≡ (if all is_visible value then some value else none))
      → (peer : IpAddr) (forged : List Bytes) (prefix own : Text)
      → all (λ c. not (c == b',')) own ≡ true
      → client_address peer (forged ++ (prefix ++ b',' ∷ own) ∷ []) true
        ≡ (if all is_visible prefix then client_address peer (own ∷ []) true else peer)
  unfolding client_address
  client_address-unforgeable reads peer forged prefix own plain =
      rw
        (
          next_back-append forged (prefix ++ b',' ∷ own),
          entry_of,
          reads (prefix ++ b',' ∷ own),
          reads own,
          all_visible prefix own,
        )
        (last_read (last_entry-append prefix own plain) (last_entry-whole own plain)
          (all is_visible prefix) (all is_visible own))
    where
      last_read :
          last_entry (prefix ++ b',' ∷ own) ≡ own
          → last_entry own ≡ own
          → (p o : Bool)
          → get_or
              (elim (if p && o then some (prefix ++ b',' ∷ own) else none) [
                | none ↦ none
                | some chain ↦ parse (trim (last_entry chain))
              ])
              peer
            ≡ (if p
                then get_or
                    (elim (if o then some own else none) [
                      | none ↦ none
                      | some chain ↦ parse (trim (last_entry chain))
                    ])
                    peer
                else peer)
      last_read e f false o = refl
      last_read e f true false = refl
      last_read e f true true = ap (λ t. get_or (parse (trim t)) peer) (e ∙ sym f)
