-- ===== src/Examples/ProxyExamples.antt =====
-- Concrete connections for internal/sessionproxy/redis.go: a client that logs in, queues a command in
-- a transaction, executes it and leaves.
use access_gateway.Prelude.{
  ◌≤◌, ◌≡◌, ◌≢◌, refl, true, false, List, [], ◌∷◌, ◌++◌, Text, codes, text_eq, length, ok,
}
use access_gateway.Proxy.Bytes.{
  read_slice, read_string, read_full, ends_crlf, drop_two, trim_crlf, digits, atoi, to_upper,
  to_lower, fold_case,
}
use access_gateway.Proxy.Framing.{
  max_frame, kind_of, read_bulk, count_of, read_line, read_rest, resp_read, resp_frame, read_size,
  read_arg, read_args, resp_args,
}
use access_gateway.Proxy.Frames.{resp_frame-fits}
use access_gateway.Proxy.Screening.{
  unauthenticated, auth_account, hello_account, candidate_of, is_push_setting, screen_shape,
  screen_identity, screen,
}
use access_gateway.Proxy.Serving.{
  ProxyEvent, started, forwarded, completed, replied, Environment, Proxy, persist, describe, begin,
  outcomes_of, redis_exec_results, exec_outcomes, end_queued, settle_queue, after_reply, adopt,
  settle_reply, answer, serve_one, quit, out_of_fuel, serve, serve_redis,
}
use access_gateway.Proxy.Guarded.{trace_of, serve_redis-IsGuarded}
use access_gateway.Proxy.Settling.{IsGuarded}
use access_gateway.Proxy.Operations.{open_ops}
use access_gateway.Proxy.Rounds.{serve_redis-ends, serve_redis_complete}

abbrev crlf : Text
crlf = 13 ∷ 10 ∷ []

abbrev blob : Text → Text → Text
blob size value = codes "$" ++ size ++ crlf ++ value ++ crlf

abbrev one_word : Text → Text → Text
one_word size value = codes "*1" ++ crlf ++ blob size value

abbrev login : Text
login =
    codes "*3"
    ++ crlf
    ++ blob (codes "4") (codes "auth")
    ++ blob (codes "5") (codes "alice")
    ++ blob (codes "2") (codes "pw")

abbrev client_bytes : Text
client_bytes =
    login
    ++ one_word (codes "5") (codes "MULTI")
    ++ one_word (codes "6") (codes "DBSIZE")
    ++ one_word (codes "4") (codes "EXEC")
    ++ one_word (codes "4") (codes "QUIT")

abbrev okay : Text
okay = codes "+OK" ++ crlf

abbrev backend_bytes : Text
backend_bytes =
    okay ++ okay ++ codes "+QUEUED" ++ crlf ++ codes "*1" ++ crlf ++ codes ":7" ++ crlf ++ okay

abbrev alice_only : Environment
alice_only = record { accepts = λ trace e. true; key_digest = λ key. []; bound = codes "alice" }

abbrev frame_bytes : Text
frame_bytes = login ++ okay

reading_done : resp_frame frame_bytes ≡ ok (login, okay)
unfolding resp_frame resp_read read_line read_slice read_rest kind_of count_of read_bulk read_full
    ends_crlf drop_two atoi digits
reading_done = refl

abbrev success : Text
success = codes "success"

abbrev alice : Text
alice = codes "alice"

abbrev leaving : List ProxyEvent
leaving =
    replied okay
    ∷ completed 4 success
    ∷ forwarded (one_word (codes "4") (codes "QUIT"))
    ∷ started 4 alice (codes "quit") (codes "QUIT") []
    ∷ []

abbrev executing : List ProxyEvent
executing =
    replied (codes "*1" ++ crlf ++ codes ":7" ++ crlf)
    ∷ completed 3 success
    ∷ completed 2 success
    ∷ forwarded (one_word (codes "4") (codes "EXEC"))
    ∷ started 3 alice (codes "exec") (codes "EXEC") []
    ∷ replied (codes "+QUEUED" ++ crlf)
    ∷ forwarded (one_word (codes "6") (codes "DBSIZE"))
    ∷ started 2 alice (codes "dbsize") (codes "DBSIZE") []
    ∷ []

abbrev beginning : List ProxyEvent
beginning =
    replied okay
    ∷ completed 1 success
    ∷ forwarded (one_word (codes "5") (codes "MULTI"))
    ∷ started 1 alice (codes "multi") (codes "MULTI") []
    ∷ replied okay
    ∷ completed 0 success
    ∷ forwarded login
    ∷ started 0 unauthenticated (codes "auth") (codes "AUTH [arguments redacted]") []
    ∷ []

abbrev left : Proxy
left = record {
  standing = record { account = alice; in_transaction = false; queued = [] };
  next_operation = 5;
  client = [];
  backend = [];
  trace = leaving ++ executing ++ beginning;
}

ended : serve_redis alice_only client_bytes backend_bytes ≡ quit left
unfolding serve_redis serve serve_one answer settle_reply adopt after_reply settle_queue end_queued
    exec_outcomes redis_exec_results outcomes_of begin describe persist screen screen_identity
    screen_shape is_push_setting candidate_of hello_account auth_account text_eq resp_args read_args
    read_arg read_size trim_crlf resp_frame resp_read read_line read_slice read_string read_rest
    kind_of count_of read_bulk read_full ends_crlf drop_two atoi digits to_upper to_lower fold_case
ended = refl

resp_frame-fits_example : (frame_bytes ≡ login ++ okay) × (length login ≤ max_frame)
resp_frame-fits_example = resp_frame-fits frame_bytes login okay reading_done

serve_redis-IsGuarded_example :
    IsGuarded alice (trace_of (serve_redis alice_only client_bytes backend_bytes))
serve_redis-IsGuarded_example = serve_redis-IsGuarded alice_only client_bytes backend_bytes

serve_redis-ends_example : serve_redis alice_only client_bytes backend_bytes ≢ out_of_fuel
serve_redis-ends_example = serve_redis-ends alice_only client_bytes backend_bytes

serve_redis_complete_example : open_ops left.trace ≡ []
serve_redis_complete_example = serve_redis_complete alice_only client_bytes backend_bytes left ended
