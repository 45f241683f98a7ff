-- ===== src/Verifier/Service/Arguments.antt =====
-- `parse_args` of crates/keylix-verifier/src/main.rs: the command line of the service.
pub mod Laws
use keylix_community.Prelude.{
  ℕ, ◌-◌, ◌^◌, Bool, ◌||◌, not, List, [], ◌∷◌, Option, none, some, Bytes, Result, ok, err, ◌>>=◌,
  ◌>>◌, fail_if, ok_or, if◌then◌else◌, ltb, ◌==◌, is_empty, all, is_digit, codes, bytes_eq,
}
use keylix_community.Dpop.Request.Authority.{decimal_value}

abbrev pub default_replay_capacity : ℕ
default_replay_capacity = 4096

abbrev pub default_nonce_capacity : ℕ
default_nonce_capacity = 64

pub record Config : Type 0 where
  pub socket : Bytes
  pub peer_credentials : Bytes
  pub replay_dir : Bytes
  pub nonce_context : Option Bytes
  pub socket_group_gid : Option ℕ
  pub replay_capacity : ℕ
  pub nonce_capacity : ℕ

pub data ParsedArgs : Type 0 where
  help version : ParsedArgs
  serve : Config → ParsedArgs

-- The values as far as they are given.
pub record Given : Type 0 where
  pub socket : Option Bytes
  pub peer_credentials : Option Bytes
  pub replay_dir : Option Bytes
  pub nonce_context : Option Bytes
  pub socket_group_gid : Option ℕ
  pub replay_capacity : ℕ
  pub nonce_capacity : ℕ

abbrev pub nothing_given : Given
nothing_given = record {
  socket = none;
  peer_credentials = none;
  replay_dir = none;
  nonce_context = none;
  socket_group_gid = none;
  replay_capacity = default_replay_capacity;
  nonce_capacity = default_nonce_capacity;
}

-- `str::parse` of an unsigned number of that many bits: digits, behind a plus sign or not.
abbrev pub unsigned_digits : Bytes → Bytes
unsigned_digits [] = []
unsigned_digits (b ∷ s) = if b == b'+' then s else b ∷ s

unfoldable pub parse_unsigned : ℕ → Bytes → Result (Unit {0}) ℕ
parse_unsigned bits text = do
  fail_if (is_empty (unsigned_digits text) || not (all is_digit (unsigned_digits text))) tt
  let value = decimal_value 0 (unsigned_digits text)
  if ltb (2 ^ bits - 1) value then err tt else ok value

unfoldable pub parse_positive : ℕ → Bytes → Result (Unit {0}) ℕ
parse_positive bits text = do
  parsed ← parse_unsigned bits text
  if ltb 0 parsed then ok parsed else err tt

abbrev pub parse_positive_usize : Bytes → Result (Unit {0}) ℕ
parse_positive_usize = parse_positive 64

abbrev pub parse_positive_u32 : Bytes → Result (Unit {0}) ℕ
parse_positive_u32 = parse_positive 32

-- The option that an argument names.
pub data Argument : Type 0 where
  ask_help ask_version unknown : Argument
  set_socket set_peer_credentials set_replay_dir set_nonce_context : Argument
  set_socket_group_gid set_replay_capacity set_nonce_capacity : Argument

unfoldable pub read_argument : Bytes → Argument
read_argument text =
    if bytes_eq text (codes "--help") || bytes_eq text (codes "-h")
    then ask_help
    else if bytes_eq text (codes "--version") || bytes_eq text (codes "-V")
    then ask_version
    else if bytes_eq text (codes "--socket")
    then set_socket
    else if bytes_eq text (codes "--peer-credentials")
    then set_peer_credentials
    else if bytes_eq text (codes "--replay-dir")
    then set_replay_dir
    else if bytes_eq text (codes "--require-nonce-context")
    then set_nonce_context
    else if bytes_eq text (codes "--socket-group-gid")
    then set_socket_group_gid
    else if bytes_eq text (codes "--replay-capacity")
    then set_replay_capacity
    else if bytes_eq text (codes "--nonce-capacity")
    then set_nonce_capacity
    else unknown

-- An option with the value that follows it; the arguments without one have been dealt with.
unfoldable pub set_value : Argument → Bytes → Given → Result (Unit {0}) Given
set_value set_socket value g = ok (record g { socket = some value })
set_value set_peer_credentials value g = ok (record g { peer_credentials = some value })
set_value set_replay_dir value g = ok (record g { replay_dir = some value })
set_value set_nonce_context value g = ok (record g { nonce_context = some value })
set_value set_socket_group_gid value g = do
  gid ← parse_positive_u32 value
  ok (record g { socket_group_gid = some gid })
set_value set_replay_capacity value g = do
  capacity ← parse_positive_usize value
  ok (record g { replay_capacity = capacity })
set_value set_nonce_capacity value g = do
  capacity ← parse_positive_usize value
  ok (record g { nonce_capacity = capacity })
set_value _ value g = err tt

unfoldable pub finish : Given → Result (Unit {0}) ParsedArgs
finish g = do
  socket ← ok_or g.socket tt
  peer_credentials ← ok_or g.peer_credentials tt
  replay_dir ← ok_or g.replay_dir tt
  ok (
      serve (record {
        socket = socket;
        peer_credentials = peer_credentials;
        replay_dir = replay_dir;
        nonce_context = g.nonce_context;
        socket_group_gid = g.socket_group_gid;
        replay_capacity = g.replay_capacity;
        nonce_capacity = g.nonce_capacity;
      }))

-- The last argument: nothing follows that could be its value.
abbrev pub last_argument : Argument → Result (Unit {0}) ParsedArgs
last_argument ask_help = ok help
last_argument ask_version = ok version
last_argument _ = err tt

abbrev pub then_parse :
    (Given → Result (Unit {0}) ParsedArgs) → Result (Unit {0}) Given → Result (Unit {0}) ParsedArgs
then_parse next (err e) = err e
then_parse next (ok g) = next g

abbrev pub argument_with :
    (Given → Result (Unit {0}) ParsedArgs) → Argument → Bytes → Given → Result (Unit {0}) ParsedArgs
argument_with next ask_help value g = ok help
argument_with next ask_version value g = ok version
argument_with next argument value g = then_parse next (set_value argument value g)

-- The loop: an option that wants a value takes the next argument.
unfoldable pub parse_from : List Bytes → Given → Result (Unit {0}) ParsedArgs
parse_from [] g = finish g
parse_from (argument ∷ []) g = last_argument (read_argument argument)
parse_from (argument ∷ value ∷ rest) g =
    argument_with (parse_from rest) (read_argument argument) value g

-- `parse_args`, on the arguments behind the program's name.
unfoldable pub parse_args : List Bytes → Result (Unit {0}) ParsedArgs
parse_args args = parse_from args nothing_given
