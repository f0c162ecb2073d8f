-- ===== src/Examples/Gate.antt =====
-- A layer that allows one guess a minute, and a client that makes two.
use passalong_server.Control.{Env}
use passalong_server.Rate.{new_limiter, v4}
use passalong_server.Control.{Env}
use passalong_server.Gate.{Gate, Request}
use passalong_server.Base.{List, refl, [], ◌∷◌, none, some, arith, ◌≤◌, bytes_of}
use passalong_server.Examples.Keys.{env_of, empty_place}
use passalong_server.Gate.Guesses.{serve_all, serve_all-guesses}

abbrev guarded : Gate
guarded = record { failures = new_limiter 1 9; control = empty_place }

abbrev guess : Env × Request
guess = (env_of 7 100, record { authorization = none; address = some (v4 7) })

abbrev later_guess : Env × Request
later_guess =
    (env_of 8 130, record { authorization = some (bytes_of "Bearer x"); address = some (v4 7) })

-- Another client's guess in between.
abbrev other_guess : Env × Request
other_guess = (env_of 9 110, record { authorization = none; address = some (v4 8) })

abbrev all_guesses : List (Env × Request)
all_guesses = guess ∷ other_guess ∷ later_guess ∷ []

serve_all-guesses_example : (serve_all (v4 7) all_guesses guarded).0 ≤ 1
serve_all-guesses_example =
    serve_all-guesses all_guesses (v4 7) 1 100 guarded (omega arith) refl
      (omega arith, omega arith, tt, tt) (omega arith)
      (
        (omega arith, omega arith, omega arith),
        ((omega arith, omega arith, omega arith), ((omega arith, omega arith, omega arith), tt)),
      )
