-- ===== src/Verifier/Service/Arguments/Laws.antt =====
-- The numbers of a configuration that `parse_args` of crates/keylix-verifier/src/main.rs accepts.
use keylix_community.Prelude.{
  ℕ, ◌-◌, ◌^◌, ◌<◌, ◌≤◌, ◌≡◌, refl, subst, ◌>>=◌, ◌||◌, not, List, [], ◌∷◌, Option, none, some,
  Bytes, Result, ok, err, fail_if, >>=-eq-ok, >>-eq-ok, ok_or, arith, is_empty, all, is_digit,
}
use keylix_community.Verifier.Service.Arguments.{
  Config, ParsedArgs, serve, Given, nothing_given, unsigned_digits, parse_unsigned, parse_positive,
  parse_positive_usize, parse_positive_u32, Argument, ask_help, ask_version, unknown, set_socket,
  set_peer_credentials, set_replay_dir, set_nonce_context, set_socket_group_gid,
  set_replay_capacity, set_nonce_capacity, read_argument, set_value, finish, last_argument,
  then_parse, argument_with, parse_from, parse_args,
}

-- A positive number of that many bits.
abbrev pub IsPositive : ℕ → ℕ → Type 0
IsPositive bits n = (0 < n) × (n ≤ 2 ^ bits - 1)

abbrev pub IsPositiveOption : ℕ → Option ℕ → Type 0
IsPositiveOption bits none = Unit {0}
IsPositiveOption bits (some n) = IsPositive bits n

-- The capacities, and the group if there is one.
abbrev pub HasNumbers : ℕ → ℕ → Option ℕ → Type 0
HasNumbers replays nonces group =
    IsPositive 64 replays × IsPositive 64 nonces × IsPositiveOption 32 group

abbrev HasGiven : Given → Type 0
HasGiven g = HasNumbers g.replay_capacity g.nonce_capacity g.socket_group_gid

parse_unsigned_bound :
    (bits : ℕ) (text : Bytes) (n : ℕ) → parse_unsigned bits text ≡ ok n → n ≤ 2 ^ bits - 1
unfolding parse_unsigned
parse_unsigned_bound bits text n h =
    let (u, h1) =
      >>-eq-ok
        (fail_if (is_empty (unsigned_digits text) || not (all is_digit (unsigned_digits text))) tt)
        _ h in
    ground (arith, h1)

parse_positive-IsPositive :
    (bits : ℕ) (text : Bytes) (n : ℕ) → parse_positive bits text ≡ ok n → IsPositive bits n
unfolding parse_positive
parse_positive-IsPositive bits text n h =
    let (m, parsed, h1) = >>=-eq-ok (parse_unsigned bits text) _ h in
    ground (arith, h1, parse_unsigned_bound bits text m parsed)

given_same : (g g' : Given) → ◌≡◌ {A = Result (Unit {0}) Given} (ok g) (ok g') → g ≡ g'
given_same g g' h = cc

set_value-HasGiven :
    (argument : Argument) (value : Bytes) (g g' : Given)
    → set_value argument value g ≡ ok g'
    → HasGiven g
    → HasGiven g'
unfolding set_value
set_value-HasGiven set_socket value g g' h k = subst HasGiven (given_same _ g' h) k
set_value-HasGiven set_peer_credentials value g g' h k = subst HasGiven (given_same _ g' h) k
set_value-HasGiven set_replay_dir value g g' h k = subst HasGiven (given_same _ g' h) k
set_value-HasGiven set_nonce_context value g g' h k = subst HasGiven (given_same _ g' h) k
set_value-HasGiven set_socket_group_gid value g g' h (replays, nonces, group) =
    let (gid, parsed, h1) = >>=-eq-ok (parse_positive_u32 value) _ h in
    subst HasGiven (given_same _ g' h1)
      (replays, nonces, parse_positive-IsPositive 32 value gid parsed)
set_value-HasGiven set_replay_capacity value g g' h (replays, nonces, group) =
    let (capacity, parsed, h1) = >>=-eq-ok (parse_positive_usize value) _ h in
    subst HasGiven (given_same _ g' h1)
      (parse_positive-IsPositive 64 value capacity parsed, nonces, group)
set_value-HasGiven set_nonce_capacity value g g' h (replays, nonces, group) =
    let (capacity, parsed, h1) = >>=-eq-ok (parse_positive_usize value) _ h in
    subst HasGiven (given_same _ g' h1)
      (replays, parse_positive-IsPositive 64 value capacity parsed, group)
set_value-HasGiven ask_help value g g' h k = ground (arith, h)
set_value-HasGiven ask_version value g g' h k = ground (arith, h)
set_value-HasGiven unknown value g g' h k = ground (arith, h)

-- The numbers of a configuration, if there is one.
abbrev pub HasConfigNumbers : Result (Unit {0}) ParsedArgs → Type 0
HasConfigNumbers (ok (serve c)) = HasNumbers c.replay_capacity c.nonce_capacity c.socket_group_gid
HasConfigNumbers _ = Unit {0}

required :
    (o : Option Bytes) (k : Bytes → Result (Unit {0}) ParsedArgs)
    → ((path : Bytes) → HasConfigNumbers (k path))
    → HasConfigNumbers (ok_or o tt >>= k)
required none k h = tt
required (some path) k h = h path

finish-HasConfigNumbers : (g : Given) → HasGiven g → HasConfigNumbers (finish g)
unfolding finish
finish-HasConfigNumbers g k = required g.socket _ (λ socket.
    required g.peer_credentials _ (λ credentials. required g.replay_dir _ (λ replay_dir. k)))

last-HasConfigNumbers : (argument : Argument) → HasConfigNumbers (last_argument argument)
last-HasConfigNumbers ask_help = tt
last-HasConfigNumbers ask_version = tt
last-HasConfigNumbers unknown = tt
last-HasConfigNumbers set_socket = tt
last-HasConfigNumbers set_peer_credentials = tt
last-HasConfigNumbers set_replay_dir = tt
last-HasConfigNumbers set_nonce_context = tt
last-HasConfigNumbers set_socket_group_gid = tt
last-HasConfigNumbers set_replay_capacity = tt
last-HasConfigNumbers set_nonce_capacity = tt

then-HasConfigNumbers :
    (next : Given → Result (Unit {0}) ParsedArgs) (r : Result (Unit {0}) Given)
    → ((g : Given) → r ≡ ok g → HasConfigNumbers (next g))
    → HasConfigNumbers (then_parse next r)
then-HasConfigNumbers next (ok g) h = h g refl
then-HasConfigNumbers next (err e) h = tt

argument_with-HasConfigNumbers :
    (next : Given → Result (Unit {0}) ParsedArgs) (argument : Argument) (value : Bytes) (g : Given)
    → HasGiven g
    → ((g' : Given) → HasGiven g' → HasConfigNumbers (next g'))
    → HasConfigNumbers (argument_with next argument value g)
argument_with-HasConfigNumbers next ask_help value g k h = tt
argument_with-HasConfigNumbers next ask_version value g k h = tt
argument_with-HasConfigNumbers next argument value g k h =
    then-HasConfigNumbers next (set_value argument value g)
      (λ g' set. h g' (set_value-HasGiven argument value g g' set k))

parse_from-HasConfigNumbers :
    (args : List Bytes) (g : Given) → HasGiven g → HasConfigNumbers (parse_from args g)
unfolding parse_from
parse_from-HasConfigNumbers [] g k = finish-HasConfigNumbers g k
parse_from-HasConfigNumbers (argument ∷ []) g k = last-HasConfigNumbers (read_argument argument)
parse_from-HasConfigNumbers (argument ∷ value ∷ rest) g k =
    argument_with-HasConfigNumbers (parse_from rest) (read_argument argument) value g k
      (parse_from-HasConfigNumbers rest)

-- A command line is accepted for serving only with capacities that are positive 64-bit numbers and, if
-- a group is given, a positive 32-bit group, in whatever order and however often options are given.
pub parse_args-bounded :
    (args : List Bytes) (config : Config)
    → parse_args args ≡ ok (serve config)
    → HasNumbers config.replay_capacity config.nonce_capacity config.socket_group_gid
unfolding parse_args
parse_args-bounded args config h = subst HasConfigNumbers h (
    parse_from-HasConfigNumbers args nothing_given
      ((omega arith, omega arith), (omega arith, omega arith), tt))
