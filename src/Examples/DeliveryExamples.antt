-- ===== src/Examples/DeliveryExamples.antt =====
-- The worker of the outbox (internal/service/access.go) at a session that is being revoked.
use access_gateway.Prelude.{
  ◌≤◌, ◌≡◌, refl, true, none, some, [], ◌∷◌, codes, text_eq, ok, inl, arith, get_elem?, is_blank,
}
use access_gateway.Access.Model.{
  because, revoking, closed, approved, pending, processing, Session, AccessRequest, Store,
  OutboxEvent, is_active_for, create_if_no_active, revoke_command, queue_revoke, outbox_reference,
  outbox_string,
}
use access_gateway.Access.Rows.{mark_closed}
use access_gateway.Access.Queue.{update_at, claim_event}
use access_gateway.Access.Revokes.{
  prepare_revoke, prepare_from, finish_revoke, finish_from, finish_row,
}
use access_gateway.Access.Commands.{has_command}
use access_gateway.Access.Ledger.{count, most, command-IsFormed}
use access_gateway.Delivery.Dispatch.{
  loading, returned, is_over, is_revoke, session_of, revoke_next,
}
use access_gateway.Delivery.World.{Flight, World, WorldRun, claims, revokes, next, done}
use access_gateway.Delivery.Soundness.{IsSound}
use access_gateway.Delivery.Deliveries.{resting, WorldRun-IsCommanded, WorldRun-most, WorldRun-over}

abbrev request : AccessRequest
request = record {
  id = codes "r1";
  applicant_id = codes "u1";
  asset_id = codes "s1";
  target_port = 22;
  ttl_seconds = 3600;
  status = approved;
  created_at = 1;
  updated_at = 1;
}

abbrev session : Session
session = record {
  id = codes "s";
  request_id = codes "r1";
  gateway_id = codes "g";
  token_hash = none;
  remote_process_id = none;
  status = revoking;
  started_at = none;
  expires_at = none;
  closed_at = none;
  failure_reason = none;
  version = 3;
  listener_port = none;
  external_port = none;
  exposure_mode = none;
  exposure_ref = none;
  tunnel_client_public_key = [];
  tunnel_server_certificate = [];
  created_at = 1;
  updated_at = 2;
}

abbrev command : OutboxEvent
command = record {
  aggregate_type = codes "session";
  aggregate_id = codes "s";
  event_type = codes "session.revoke";
  payload = (codes "session_id", codes "s") ∷ (codes "reason", codes "x") ∷ [];
  status = pending;
  retry_count = 0;
  next_retry_at = none;
}

abbrev store : Store
store = record {
  request = request;
  approvals = [];
  session = some session;
  session_events = [];
  audits = [];
  outbox = command ∷ [];
}

store-IsSound : IsSound session (resting store)
unfolding has_command count is_active_for revoke_command text_eq
store-IsSound = record {
  is_row = refl;
  commanded = λ h. refl;
  tidy = omega arith;
  formed = (command-IsFormed (codes "s") (because (codes "x")), tt);
  carried = tt;
}

-- The command as a worker has claimed it at the time 100.
abbrev claimed_command : OutboxEvent
claimed_command = record command { status = processing; next_retry_at = some 160 }

abbrev claimed_store : Store
claimed_store = record store { outbox = claimed_command ∷ [] }

abbrev flight : Flight
flight = record { index = 0; event = claimed_command; phase = loading }

abbrev claimed : World
claimed = record { store = claimed_store; flights = flight ∷ [] }

claim_works : update_at (claim_event 100 60) 0 (command ∷ []) ≡ ok (claimed_command ∷ [])
unfolding update_at claim_event
claim_works = refl

-- The world after one more phase of the latest flight, with the answer "closed" of the gateway.
abbrev flown : Flight → Store → Flight
flown f w = record f {
  phase = (revoke_next 101 (codes "x") (some (codes "closed")) (session_of f.event) f.phase w).1;
}

abbrev left : Flight → Store → Store
left f w = (revoke_next 101 (codes "x") (some (codes "closed")) (session_of f.event) f.phase w).0

abbrev prepared : Flight
prepared = flown flight claimed_store

abbrev loaded_store : Store
loaded_store = left flight claimed_store

abbrev called : Flight
called = flown prepared loaded_store

abbrev prepared_store : Store
prepared_store = left prepared loaded_store

abbrev answered : Flight
answered = flown called prepared_store

abbrev called_store : Store
called_store = left called prepared_store

abbrev ended : Flight
ended = flown answered called_store

abbrev ended_store : Store
ended_store = left answered called_store

abbrev last : World
last = record { store = ended_store; flights = ended ∷ answered ∷ called ∷ prepared ∷ flight ∷ [] }

abbrev closed_session : Session
closed_session = record session {
  status = closed;
  closed_at = some 101;
  version = 4;
  listener_port = none;
  external_port = none;
  exposure_mode = none;
  exposure_ref = none;
  tunnel_client_public_key = [];
  tunnel_server_certificate = [];
  updated_at = 101;
}

whole_run : WorldRun (resting store) last
unfolding text_eq
whole_run =
    next _ claimed _ (claims 100 0 claimed_command (claimed_command ∷ []) store [] claim_works refl)
      (next _ (record { store = loaded_store; flights = prepared ∷ flight ∷ [] }) _
        (revokes 101 (codes "x") (some (codes "closed")) flight claimed_store (flight ∷ [])
          (inl refl) refl)
        (next _ (record { store = prepared_store; flights = called ∷ prepared ∷ flight ∷ [] }) _
          (revokes 101 (codes "x") (some (codes "closed")) prepared loaded_store
            (prepared ∷ flight ∷ []) (inl refl) refl)
          (next _
            (record { store = called_store; flights = answered ∷ called ∷ prepared ∷ flight ∷ [] })
            _
            (revokes 101 (codes "x") (some (codes "closed")) called prepared_store
              (called ∷ prepared ∷ flight ∷ []) (inl refl) refl)
            (next _ last _
              (revokes 101 (codes "x") (some (codes "closed")) answered called_store
                (answered ∷ called ∷ prepared ∷ flight ∷ []) (inl refl) refl)
              (done last)))))

is_closed : ended_store.session ≡ some closed_session
unfolding revoke_next prepare_revoke prepare_from queue_revoke create_if_no_active is_active_for
    revoke_command finish_revoke finish_from finish_row mark_closed outbox_reference outbox_string
    text_eq is_blank
is_closed = refl

has_returned : ended.phase ≡ returned
unfolding revoke_next prepare_revoke prepare_from queue_revoke create_if_no_active is_active_for
    revoke_command finish_revoke finish_from finish_row mark_closed outbox_reference outbox_string
    text_eq is_blank
has_returned = refl

still_claimed : get_elem? ended_store.outbox 0 ≡ some claimed_command
unfolding revoke_next prepare_revoke prepare_from queue_revoke create_if_no_active is_active_for
    revoke_command finish_revoke finish_from finish_row mark_closed outbox_reference outbox_string
    text_eq is_blank
still_claimed = refl

is_for_session : session_of claimed_command ≡ codes "s"
unfolding outbox_reference outbox_string text_eq is_blank
is_for_session = refl

is_command : is_revoke claimed_command ≡ true
unfolding text_eq
is_command = refl

prepared_run : WorldRun (resting store) claimed
prepared_run =
    next _ claimed _ (claims 100 0 claimed_command (claimed_command ∷ []) store [] claim_works refl)
      (done claimed)

WorldRun-IsCommanded_example : has_command (codes "s") claimed_store.outbox ≡ true
WorldRun-IsCommanded_example =
    WorldRun-IsCommanded session session store claimed store-IsSound prepared_run refl refl

WorldRun-most_example : count (codes "s") ended_store.outbox ≤ most closed
WorldRun-most_example =
    WorldRun-most session closed_session store last store-IsSound whole_run is_closed

WorldRun-over_example : is_over closed ≡ true
WorldRun-over_example =
    WorldRun-over session closed_session store last ended claimed_command store-IsSound whole_run
      is_closed (inl refl) has_returned is_command is_for_session still_claimed refl
