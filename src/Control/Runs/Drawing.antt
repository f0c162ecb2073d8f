-- ===== src/Control/Runs/Drawing.antt =====
-- The search for a key id ends.
use passalong_server.Ids.Draws.{has, crowded}
use passalong_server.Auth.{generate_key}
use passalong_server.Control.Keys.{draw_key_from, key_fuel, is_key, fresh_key}
use passalong_server.Base.{
  ℕ, ◌≡◌, ◌≢◌, refl, true, arith, inl, inr, List, [], ◌∷◌, zero, suc, ◌+◌, ◌≤◌, ◌<◌, length, any,
  map, ap, Bool-cases, ℕ_discrete,
}
use passalong_server.Ids.Draws
use passalong_server.Control.{spins, KeyRow, Env, Text, Database}

has-keys :
    (rows : List KeyRow) (id : Text)
    → any (is_key id) rows ≡ true
    → has id (map (λ row. row.key_id) rows) ≡ true
has-keys [] id h = ground arith
has-keys (row ∷ rows) id h = ground (arith, has-keys rows id)

length-keys : (rows : List KeyRow) → length (map (λ row. row.key_id) rows) ≡ length rows
length-keys [] = refl
length-keys (row ∷ rows) = ap suc (length-keys rows)

abbrev drawn_id : Env → ℕ → Text
drawn_id env n = (generate_key (env.draw_key n)).id

spins-is_key :
    (fuel : ℕ) (env : Env) (n : ℕ) (db : Database)
    → (draw_key_from fuel env n db).0 ≡ spins
    → (i : ℕ) → n ≤ i
    → i < n + fuel
    → any (is_key (drawn_id env i)) db.api_keys ≡ true
unfolding draw_key_from
spins-is_key zero env n db h i a b = ground arith
spins-is_key (suc fuel) env n db h i a b = elim (Bool-cases (env.fails (1000 + n))) [
  | inl e ↦ ground (arith, e, h)
  | inr e ↦ elim (Bool-cases (any (is_key (drawn_id env n)) db.api_keys)) [
    | inl known ↦ elim (ℕ_discrete i n) [
      | yes same ↦ rw same known
      | no other ↦
          spins-is_key fuel env (suc n) db (ground (arith, e, known, h)) i (omega arith)
            (omega arith)
    ]
    | inr free ↦ ground (arith, e, free, h)
  ]
]

-- Where the random source gives no key id twice within as many draws as there are keys, and one more,
-- the search for the id of a new key ends within that number of rounds, with a key whose id is new
-- or with the database failing.
pub fresh_key-enough :
    (env : Env) (db : Database)
    → Draws.IsFresh (drawn_id env) 0 (key_fuel db)
    → (fresh_key env db).0 ≢ spins
fresh_key-enough env db fresh h =
    let many =
      crowded (drawn_id env) (key_fuel db) 0 (map (λ row. row.key_id) db.api_keys) fresh λ i a b.
        has-keys db.api_keys (drawn_id env i) (spins-is_key (key_fuel db) env 0 db h i a b) in
    omega (arith, length-keys db.api_keys)
