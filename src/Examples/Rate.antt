-- ===== src/Examples/Rate.antt =====
-- A limiter of two failures a minute, at whose table one address is over the limit.
use passalong_server.Views.Items.{trim}
use passalong_server.Rate.Evictions.{make_room-oldest}
use passalong_server.Rate.Sharing.{watch_client, limited-watch}
use passalong_server.Rate.Patience.{limited-wait}
use passalong_server.Rate.Clients.{
  client_address, is_visible, last_entry, client_address-unforgeable,
}
use passalong_server.Ids.{Bytes, Text, Text-discrete}
use passalong_server.Rate.Bounds.{IsBounded, new_limiter-IsBounded}
use passalong_server.Map
use passalong_server.Rate.{
  IpAddr, Event, FailureLimiter, after_all, limited, v4, v6, counted, failed, forget_old,
  new_limiter, Table, make_room, wait_of, stalest_from,
}
use passalong_server.Base.{
  ◌≡◌, refl, List, [], ◌∷◌, none, some, arith, true, ◌+◌, Option, ◌≤◌, if◌then◌else◌, bytes_of,
  length, ◌==◌, ℕ_discrete, all,
}

abbrev guesser : IpAddr
guesser = v4 7

abbrev guesser_v6 : IpAddr
guesser_v6 = v6 (0 ∷ 0 ∷ 0 ∷ 0 ∷ 0 ∷ 65535 ∷ 0 ∷ 7 ∷ [])

abbrev other : IpAddr
other = v4 9

abbrev guesses : List Event
guesses = counted guesser 100 ∷ counted other 105 ∷ counted guesser_v6 110 ∷ []

-- The answer after them, and the addresses that a full table lets go.
abbrev told : FailureLimiter
told = after_all (new_limiter 2 2) guesses

new_limiter-IsBounded_example : IsBounded told
new_limiter-IsBounded_example = new_limiter-IsBounded 2 2 guesses

-- A limiter with a third place, and another address that fails while the guesser waits.
abbrev roomy : FailureLimiter
roomy = after_all (new_limiter 2 4) guesses

limited-wait_example :
    (limited
      (after_all (limited roomy guesser 120).1 (counted (v4 5) 130 ∷ []))
      guesser
      (120 + 40)).0
    ≡ none
unfolding limited forget_old after_all failed Map.get Map.insert Map.contains_key Text-discrete
    ℕ_discrete
limited-wait_example =
    limited-wait roomy guesser 120 40 40 (counted (v4 5) 130 ∷ [])
      (new_limiter-IsBounded 2 4 guesses) (omega arith) (omega arith) (refl, tt) refl

limited-watch_example :
    (limited (after_all (new_limiter 2 3) guesses) other 111).0
    ≡ wait_of 2 (forget_old (watch_client 2 other [] guesses) 111) 111
limited-watch_example =
    limited-watch 2 3 guesses other 111 (omega arith) (omega arith) tt (ground arith)

abbrev crowd : Table
crowd = (v4 7, 100 ∷ 110 ∷ []) ∷ (v4 9, 105 ∷ []) ∷ []

make_room-oldest_example : 105 ≤ 110
unfolding make_room stalest_from Map.get Map.remove Map.retain
make_room-oldest_example =
    make_room-oldest crowd 2 120 other guesser (105 ∷ []) (100 ∷ 110 ∷ []) (refl, (tt, tt)) refl
      refl refl refl

-- A parser that knows one address, and a header in front of which a client wrote another.
abbrev to_str : Bytes → Option Text
to_str value = if all is_visible value then some value else none

abbrev parse : Text → Option IpAddr
parse text = if length text == 1 then some (v4 (length text)) else none

client_address-unforgeable_example :
    client_address to_str parse other (bytes_of "9,8" ∷ bytes_of "6,7" ∷ []) true ≡ v4 1
unfolding client_address last_entry bytes_of trim
client_address-unforgeable_example =
    client_address-unforgeable to_str parse (λ value. refl) other (bytes_of "9,8" ∷ [])
      (bytes_of "6") (bytes_of "7") refl
