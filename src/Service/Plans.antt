-- ===== src/Service/Plans.antt =====
-- What an installation touches, and that a second one changes nothing.
use passalong_server.Base.{
  ◌≡◌, refl, Bool, true, false, not, ◌&&◌, ◌||◌, List, [], ◌∷◌, ◌++◌, none, some, arith, all, holds,
  Option, bytes_of, Bool-cases, inl, inr, sym, ◌∙◌, subst,
}
use passalong_server.Service.{
  Action, write_file, make_dir, run, absent, same, ours, foreign, Existing, Layout, Text,
  plan_install, Found, is_text, config_file, Text-discrete, Wanted, is_unchanged, make_pair,
  binary_actions, is_foreign, config_actions, is_half, Plan, planned, remove_file, sysusers_actions,
  pair_actions, unit_actions, start_actions, dir_actions, install_binary, install_actions,
  why_not_started, unit_name, last_actions, plan_pair, full_plan, needs_binary,
}

-- A file may be written where there is none, or where an earlier installation wrote it.
abbrev pub is_ours_to_write : Existing → Bool
is_ours_to_write absent = true
is_ours_to_write ours = true
is_ours_to_write same = false
is_ours_to_write foreign = false

abbrev pub is_allowed : Layout → Found → Action → Bool
is_allowed layout found (write_file path content mode owner) =
    is_text path layout.unit && is_ours_to_write found.unit
    || is_text path layout.sysusers && is_ours_to_write found.sysusers
    || is_text path (config_file layout) && not found.config_exists
is_allowed layout found (make_pair cert key names) = not found.cert_exists && not found.key_exists
is_allowed layout found (remove_file path) = false
is_allowed layout found (install_binary from to) = is_text to layout.binary
is_allowed layout found (make_dir path mode owner) = true
is_allowed layout found (run program args) = true

is_text_self : (a : Text) → is_text a a ≡ true
is_text_self a = elim (Text-discrete a a) as (λ d. holds d ≡ true) [
  | yes e ↦ refl
  | no n ↦ absurd (n refl)
]

all-append :
    {A : Type 0} (p : A → Bool) (xs ys : List A)
    → all p xs ≡ true
    → all p ys ≡ true
    → all p (xs ++ ys) ≡ true
all-append p [] ys h k = k
all-append p (x ∷ xs) ys h k = ground (arith, h, all-append p xs ys)

planned-injective : {a b : Plan} → planned a ≡ planned b → a ≡ b
planned-injective e = cc

module _ (template : Text) (layout : Layout) (found : Found) (wanted : Wanted) where
  abbrev Allowed : List Action → Type 0
  Allowed actions = all (is_allowed layout found) actions ≡ true

  binary-Allowed : Allowed (binary_actions layout found)
  binary-Allowed = ground (arith, is_text_self layout.binary)

  sysusers-Allowed : is_foreign found.sysusers ≡ false → Allowed (sysusers_actions layout found)
  sysusers-Allowed h = ground (arith, h, is_text_self layout.sysusers)

  config-Allowed : Allowed (config_actions layout found wanted)
  config-Allowed = ground (arith, is_text_self (config_file layout))

  pair-Allowed :
      (tls : Option (Text × Text)) → is_half found ≡ false → Allowed (pair_actions tls found wanted)
  pair-Allowed none h = refl
  pair-Allowed (some pair) h = ground (arith, h)

  unit-Allowed : is_foreign found.unit ≡ false → Allowed (unit_actions template layout found)
  unit-Allowed h = ground (arith, h, is_text_self layout.unit)

  start-Allowed : (o : Option (Text × Text)) → Allowed (start_actions layout found o)
  start-Allowed none = refl
  start-Allowed (some pair) = refl

  install-Allowed :
      (tls : Option (Text × Text))
      → is_foreign found.unit ≡ false
      → is_foreign found.sysusers ≡ false
      → Allowed (pair_actions tls found wanted)
      → Allowed (install_actions template layout tls found wanted)
  install-Allowed tls unit sysusers pair =
      let p = is_allowed layout found in
      let ending = last_actions layout found (why_not_started tls found wanted) in
      let with_unit = unit_actions template layout found ++ ending in
      let with_pair = pair_actions tls found wanted ++ with_unit in
      let with_config = config_actions layout found wanted ++ with_pair in
      let with_dirs = dir_actions layout ++ with_config in
      let with_sysusers = sysusers_actions layout found ++ with_dirs in
      all-append p (binary_actions layout found) with_sysusers binary-Allowed (
        all-append p (sysusers_actions layout found) with_dirs (sysusers-Allowed sysusers) (
          all-append p (dir_actions layout) with_config refl (
            all-append p (config_actions layout found wanted) with_pair config-Allowed (
              all-append p (pair_actions tls found wanted) with_unit pair (
                all-append p (unit_actions template layout found) ending (unit-Allowed unit)
                  (start-Allowed (why_not_started tls found wanted)))))))

  plan_pair-Allowed :
      (tls : Option (Text × Text)) (plan : Plan)
      → is_foreign found.unit ≡ false
      → is_foreign found.sysusers ≡ false
      → plan_pair template layout found wanted tls ≡ planned plan
      → Allowed plan.actions
  plan_pair-Allowed none plan unit sysusers h =
      subst (λ p. Allowed p.actions) (planned-injective h) (install-Allowed none unit sysusers refl)
  plan_pair-Allowed (some pair) plan unit sysusers h = elim (Bool-cases (is_half found)) [
    | inl half ↦ ground (arith, half, h)
    | inr whole ↦
        subst (λ p. Allowed p.actions) (planned-injective (sym (unblocked whole) ∙ h))
          (install-Allowed (some pair) unit sysusers (pair-Allowed (some pair) whole))
  ]
    where
      unblocked :
          is_half found ≡ false
          → plan_pair template layout found wanted (some pair)
            ≡ planned (full_plan template layout (some pair) found wanted)
      unblocked whole = rw (plan_pair, whole) refl

-- What an installation that is planned writes beside the binary was not written by someone else, nor is
-- it as it should be already: the unit and the file for systemd-sysusers only where there is none or an earlier
-- installation's, the configuration only where there is none, and a pair only where neither half is
-- there. It removes nothing. The binary goes to its own place only, where it replaces whatever file
-- there is, whoever put it there.
pub plan_install-allowed :
    (template : Text) (layout : Layout) (found : Found) (wanted : Wanted) (plan : Plan)
    → plan_install template layout found wanted ≡ planned plan
    → all (is_allowed layout found) plan.actions ≡ true
unfolding plan_install
plan_install-allowed template layout found wanted plan h =
    elim (Bool-cases (is_foreign found.unit)) [
      | inl e ↦ ground (arith, e, h)
      | inr unit ↦ elim (Bool-cases (is_foreign found.sysusers)) [
        | inl e ↦ ground (arith, unit, e, h)
        | inr sysusers ↦
            plan_pair-Allowed template layout found wanted found.tls plan unit sysusers
              (sym (unforeign unit sysusers) ∙ h)
      ]
    ]
  where
    unforeign :
        is_foreign found.unit ≡ false
        → is_foreign found.sysusers ≡ false
        → plan_install template layout found wanted
          ≡ plan_pair template layout found wanted found.tls
    unforeign unit sysusers = rw (plan_install, unit, sysusers) refl

-- What an installation finds where one was completed before.
abbrev pub is_installed : Layout → Found → Bool
is_installed layout found =
    (is_text found.running layout.binary || found.binary_installed)
    && is_unchanged found.unit
    && is_unchanged found.sysusers
    && found.config_exists
    && found.cert_exists
    && found.key_exists

-- Where everything is in place, an installation writes no file: it sets the owner and mode of the
-- directories, enables the unit, and starts it without a restart.
pub plan_install-installed :
    (template : Text) (layout : Layout) (found : Found) (wanted : Wanted)
    → is_installed layout found ≡ true
    → plan_install template layout found wanted
      ≡ planned (record {
        actions =
            dir_actions layout
            ++ run (bytes_of "systemctl") (bytes_of "enable" ∷ unit_name ∷ [])
              ∷ run (bytes_of "systemctl") (bytes_of "start" ∷ unit_name ∷ [])
              ∷ [];
        not_started = none;
      })
unfolding plan_install
plan_install-installed template layout found wanted h =
    let (binary, unit, sysusers, config, cert, key) = parts in
    unforeign found.unit found.sysusers unit sysusers
    ∙ finished found.tls binary unit sysusers config cert key
  where
    parts :
        (needs_binary layout found ≡ false)
        × (is_unchanged found.unit ≡ true)
        × (is_unchanged found.sysusers ≡ true)
        × (found.config_exists ≡ true)
        × (found.cert_exists ≡ true)
        × (found.key_exists ≡ true)
    parts = ground (arith, h)

    known : (e : Existing) → is_unchanged e ≡ true → is_foreign e ≡ false
    known e g = ground (arith, g)

    unforeign :
        (u s : Existing)
        → is_unchanged found.unit ≡ true
        → is_unchanged found.sysusers ≡ true
        → plan_install template layout found wanted
          ≡ plan_pair template layout found wanted found.tls
    unforeign u s unit sysusers =
        rw (plan_install, known found.unit unit, known found.sysusers sysusers) refl

    quiet : List Action
    quiet =
        dir_actions layout
        ++ run (bytes_of "systemctl") (bytes_of "enable" ∷ unit_name ∷ [])
          ∷ run (bytes_of "systemctl") (bytes_of "start" ∷ unit_name ∷ [])
          ∷ []

    finished :
        (tls : Option (Text × Text))
        → needs_binary layout found ≡ false
        → is_unchanged found.unit ≡ true
        → is_unchanged found.sysusers ≡ true
        → found.config_exists ≡ true
        → found.cert_exists ≡ true
        → found.key_exists ≡ true
        → plan_pair template layout found wanted tls
          ≡ planned (record { actions = quiet; not_started = none })
    finished none binary unit sysusers config cert key =
        rw (plan_pair, binary, unit, sysusers, config) refl
    finished (some pair) binary unit sysusers config cert key =
        simp (plan_pair, binary, unit, sysusers, config, cert, key) refl
