-- ===== src/Proxy/Screening.antt =====
-- internal/sessionproxy/redis.go: the tests of `serveRedis` on a command before it is forwarded, in
-- their order.
use access_gateway.Prelude.{
  ℕ, Bool, false, ◌&&◌, ◌||◌, not, List, [], ◌∷◌, Text, codes, text_eq, leb, ◌==◌, if◌then◌else◌,
  length, all, Result, ok, err, ◌>>=◌, ◌>>◌, guard,
}
use access_gateway.Proxy.Bytes.{ProxyError, protocol, identity, to_upper, fold_case}

-- The variables of the loop that the tests read.
pub record Standing : Type 0 where
  pub account : Text
  pub in_transaction : Bool
  pub queued : List ℕ

-- A command that may be forwarded, and the account that the connection has if it succeeds.
pub record Command : Type 0 where
  pub cmd : Text
  pub candidate : Text

abbrev pub unauthenticated : Text
unauthenticated = codes "unauthenticated"

-- `cmd == "A" || cmd == "B" ...`
abbrev pub one_of : Text → List Text → Bool
one_of cmd [] = false
one_of cmd (name ∷ names) = text_eq cmd name || one_of cmd names

abbrev pub is_command_char : ℕ → Bool
is_command_char c = (leb b'A' c && leb c b'Z') || c == b'_'

abbrev pub streaming : List Text
streaming =
    codes "SUBSCRIBE"
    ∷ codes "PSUBSCRIBE"
    ∷ codes "SSUBSCRIBE"
    ∷ codes "MONITOR"
    ∷ codes "SYNC"
    ∷ codes "PSYNC"
    ∷ codes "REPLCONF"
    ∷ []

abbrev pub bare : List Text
bare = codes "MULTI" ∷ codes "EXEC" ∷ codes "DISCARD" ∷ codes "RESET" ∷ codes "QUIT" ∷ []

abbrev pub identity_changes : List Text
identity_changes = codes "AUTH" ∷ codes "HELLO" ∷ codes "RESET" ∷ codes "QUIT" ∷ []

-- `AUTH password` and `AUTH username password`
unfoldable pub auth_account : List Text → Result ProxyError Text
auth_account (cmd ∷ password ∷ []) = ok (codes "default")
auth_account (cmd ∷ username ∷ password ∷ []) = ok username
auth_account _ = err protocol

-- The loop over the options of HELLO, from the third argument on.
unfoldable pub hello_account : Text → List Text → Result ProxyError Text
hello_account candidate [] = ok candidate
hello_account candidate (option ∷ []) =
    if text_eq (fold_case option) (codes "auth")
    then err protocol
    else if text_eq (fold_case option) (codes "setname")
    then ok candidate
    else err protocol
hello_account candidate (option ∷ value ∷ []) =
    if text_eq (fold_case option) (codes "auth")
    then err protocol
    else if text_eq (fold_case option) (codes "setname")
    then ok candidate
    else err protocol
hello_account candidate (option ∷ value ∷ other ∷ args) =
    let logged_in = hello_account value args in
    let named = hello_account candidate (other ∷ args) in
    if text_eq (fold_case option) (codes "auth")
    then logged_in
    else if text_eq (fold_case option) (codes "setname")
    then named
    else err protocol

abbrev drop_first_two : List Text → List Text
drop_first_two (cmd ∷ version ∷ args) = args
drop_first_two _ = []

unfoldable pub candidate_of : Text → Text → List Text → Result ProxyError Text
candidate_of account cmd args =
    if text_eq cmd (codes "AUTH")
    then auth_account args
    else if text_eq cmd (codes "HELLO")
    then hello_account account (drop_first_two args)
    else ok account

-- `CLIENT TRACKING` and `CLIENT REPLY`
unfoldable pub is_push_setting : Text → List Text → Bool
is_push_setting cmd (first ∷ second ∷ args) =
    text_eq cmd (codes "CLIENT") && one_of (to_upper second) (codes "TRACKING" ∷ codes "REPLY" ∷ [])
is_push_setting cmd _ = false

abbrev pub first_arg : List Text → Text
first_arg [] = []
first_arg (arg ∷ args) = arg

abbrev pub before_login : List Text
before_login = codes "HELLO" ∷ codes "PING" ∷ codes "QUIT" ∷ []

-- The tests on the name and the arguments alone.
unfoldable pub screen_shape : Standing → Text → List Text → Result ProxyError (Unit {0})
screen_shape s cmd args = do
  guard (leb (length cmd) 64) protocol
  guard (all is_command_char cmd) protocol
  guard (not (one_of cmd streaming)) protocol
  guard (not (one_of cmd bare && not (length args == 1))) protocol
  guard
      (not (
        leb 256 (length s.queued)
          && not (text_eq cmd (codes "EXEC"))
          && not (text_eq cmd (codes "DISCARD"))
        || s.in_transaction && one_of cmd identity_changes))
      protocol

-- The tests on the account of the binding.
unfoldable pub screen_identity :
    Text → Text → Text → Text → List Text → Result ProxyError (Unit {0})
screen_identity bound account candidate cmd args = do
  guard (text_eq candidate account || text_eq candidate bound) identity
  guard (not (is_push_setting cmd args)) protocol
  guard
      (not (
        text_eq account unauthenticated
        && text_eq candidate account
        && not (one_of cmd before_login)))
      identity

unfoldable pub screen : Text → Standing → List Text → Result ProxyError Command
screen bound s args = do
  screen_shape s (to_upper (first_arg args)) args
  candidate ← candidate_of s.account (to_upper (first_arg args)) args
  screen_identity bound s.account candidate (to_upper (first_arg args)) args
  ok (record { cmd = to_upper (first_arg args); candidate = candidate })
