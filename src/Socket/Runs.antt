-- ===== src/Socket/Runs.antt =====
-- Whole runs of the operations of src/foundation/argo_socket.c.
use argo.Base.{
  ℕ, zero, suc, ◌+◌, ◌-◌, ◌^◌, ◌≤◌, ◌<◌, ◌≡◌, Bool, true, false, List, [], ◌∷◌, ◌++◌, Option, none,
  some, arith, take, drop, length, length-append, length-take, length-drop, Bool-cases, inl, inr,
  Option-cases, leb, ltb, Bytes,
}
use argo.CiRegistry.{Registry}
use argo.Error.{Code, success}
use argo.Messages.{Net}
use argo.Socket.{
  Context, Message, Accepted, Received, Token, accepted, no_connection, accept_failed, received,
  nothing_yet, recv_failed, closed, server_init, message_text, target_fd, send_to,
  socket_send_message, check_request_timeouts, accept_client, cleanup_client, routed, route_message,
  handle_message, handle_client_data, max_pending, parse_json_message,
}
use argo.Socket.Timeouts.{check_request_timeouts_lem}
use argo.Socket.Valid.{
  IsValid, IsValid-suc, track-IsValid, All-unexpired, unexpired-Ascending, length-unexpired,
}

-- The registry is set by `set_registry`.
pub data Op : Type 0 where
  set_registry : Registry → Op
  send_message : Option Message → Option ℕ → (ℕ → Bytes → Bool) → ℕ → Op
  check_timeouts : ℕ → Op
  accept_one : Accepted → Bool → Op
  cleanup_one : ℕ → Op
  client_data :
      Net → (ℕ → Bytes → Bool) → (Bytes → Option (List Token)) → Received → Bool → Bool → Op

unfoldable pub step : Context → Op → Context
step c (set_registry r) = record c { registry = some r }
step c (send_message m callback send now) = (socket_send_message c m callback send now).0
step c (check_timeouts now) = (check_request_timeouts c now).0
step c (accept_one a nonblocking) = (accept_client c a nonblocking).0
step c (cleanup_one i) = cleanup_client c i
step c (client_data net send tokens got mem type) =
    (handle_client_data net send tokens c got mem type).0

unfoldable pub run : Context → List Op → Context
run c [] = c
run c (o ∷ os) = run (step c o) os

send_to-IsValid :
    (n : ℕ) (c : Context) (m : Message) (callback : Option ℕ) (send : ℕ → Bytes → Bool) (now fd : ℕ)
    → n < 2 ^ 32 - 2
    → length c.requests < 50
    → IsValid n c
    → IsValid (suc n) (send_to c m callback send now fd).0
unfolding send_to
send_to-IsValid n c m callback send now fd small room h =
    elim (Bool-cases (leb 8192 (length (message_text m)))) [
      | inl long ↦ rw long (IsValid-suc n c h)
      | inr short ↦ elim (Bool-cases (send fd (message_text m))) [
        | inl sent ↦ rw (short, sent) (track-IsValid n c m callback now small room h)
        | inr lost ↦ rw (short, lost) (IsValid-suc n c h)
      ]
    ]

send-IsValid :
    (n : ℕ) (c : Context) (m : Option Message) (callback : Option ℕ) (send : ℕ → Bytes → Bool)
    (now : ℕ)
    → n < 2 ^ 32 - 2
    → IsValid n c
    → IsValid (suc n) (socket_send_message c m callback send now).0
unfolding socket_send_message
send-IsValid n c none callback send now small h = IsValid-suc n c h
send-IsValid n c (some m) callback send now small h =
    elim (Bool-cases (leb max_pending (length c.requests))) [
      | inl full ↦ rw full (IsValid-suc n c h)
      | inr free ↦
          let room : length c.requests < 50 = ground arith in
          elim (Option-cases (target_fd c.registry m.to)) [
            | inl gone ↦ rw (free, gone) (IsValid-suc n c h)
            | inr (fd, at) ↦ rw (free, at) (send_to-IsValid n c m callback send now fd small room h)
          ]
    ]

timeouts-IsValid :
    (n : ℕ) (c : Context) (now : ℕ) → IsValid n c → IsValid (suc n) (check_request_timeouts c now).0
unfolding check_request_timeouts
timeouts-IsValid n c now h =
    let did = (check_request_timeouts_lem c now).0 in
    rw did (record {
      few_requests = let few = h.few_requests in omega (arith, length-unexpired now c.requests);
      few_clients = h.few_clients;
      ids_below = All-unexpired (λ q. q.id < c.next_request_id) now c.requests h.ids_below;
      ascending = unexpired-Ascending now c.requests h.ascending;
      next_bound = let b = h.next_bound in omega arith;
    })

with_clients-IsValid :
    (n : ℕ) (c : Context) (clients : List ℕ)
    → length clients ≤ 49
    → IsValid n c
    → IsValid (suc n) (record c { clients = clients })
with_clients-IsValid n c clients few h = record {
  few_requests = h.few_requests;
  few_clients = few;
  ids_below = h.ids_below;
  ascending = h.ascending;
  next_bound = let b = h.next_bound in omega arith;
}

accept-IsValid :
    (n : ℕ) (c : Context) (a : Accepted) (nonblocking : Bool)
    → IsValid n c
    → IsValid (suc n) (accept_client c a nonblocking).0
unfolding accept_client
accept-IsValid n c (accepted fd) false h = IsValid-suc n c h
accept-IsValid n c (accepted fd) true h = elim (Bool-cases (leb 50 (suc (length c.clients)))) [
  | inl full ↦ rw full (IsValid-suc n c h)
  | inr free ↦
      let room : length c.clients < 49 = ground arith in
      rw free (
        with_clients-IsValid n c (c.clients ++ fd ∷ [])
          (omega (arith, length-append c.clients (fd ∷ []))) h)
]
accept-IsValid n c no_connection nonblocking h = IsValid-suc n c h
accept-IsValid n c accept_failed nonblocking h = IsValid-suc n c h

cleanup-IsValid : (n : ℕ) (c : Context) (i : ℕ) → IsValid n c → IsValid (suc n) (cleanup_client c i)
unfolding cleanup_client
cleanup-IsValid n c zero h = IsValid-suc n c h
cleanup-IsValid n c (suc i) h = elim (Bool-cases (ltb i (length c.clients))) [
  | inl held ↦
      let few = h.few_clients in
      rw held (
        with_clients-IsValid n c (take i c.clients ++ drop (suc i) c.clients)
          (omega (
            arith,
            length-append (take i c.clients) (drop (suc i) c.clients),
            length-take i c.clients,
            length-drop (suc i) c.clients,
          ))
          h)
  | inr gone ↦ rw gone (IsValid-suc n c h)
]

routed-IsValid :
    (n : ℕ) (c : Context) (r : Registry) (code : Code)
    → IsValid n c
    → IsValid n (routed c (r, code)).0
routed-IsValid n c r success h = h
routed-IsValid n c r other h = h

route-IsValid :
    (n : ℕ) (c : Context) (net : Net) (send : ℕ → Bytes → Bool) (m : Message)
    → IsValid n c
    → IsValid n (route_message net send c m).0
unfolding route_message
route-IsValid n c net send m h = elim (Option-cases c.registry) [
  | inl alone ↦ rw (route_message, alone) h
  | inr (r, at) ↦ rw (route_message, at) (routed-IsValid n c _ _ h)
]

handle-IsValid :
    (n : ℕ) (c : Context) (net : Net) (send : ℕ → Bytes → Bool) (p : Option Message × Code)
    → IsValid n c
    → IsValid (suc n) (handle_message net send c p).0
unfolding handle_message
handle-IsValid n c net send (some m, code) h =
    route-IsValid (suc n) (record c { messages_received = c.messages_received + 1 }) net send m
      (IsValid-suc n c h)
handle-IsValid n c net send (none, code) h = IsValid-suc n c h

data-IsValid :
    (n : ℕ) (c : Context) (net : Net) (send : ℕ → Bytes → Bool)
    (tokens : Bytes → Option (List Token)) (got : Received) (mem type : Bool)
    → IsValid n c
    → IsValid (suc n) (handle_client_data net send tokens c got mem type).0
unfolding handle_client_data
data-IsValid n c net send tokens (received text) mem type h =
    handle-IsValid n c net send (parse_json_message (tokens text) mem type) h
data-IsValid n c net send tokens nothing_yet mem type h = IsValid-suc n c h
data-IsValid n c net send tokens recv_failed mem type h = IsValid-suc n c h
data-IsValid n c net send tokens closed mem type h = IsValid-suc n c h

step-IsValid :
    (n : ℕ) (c : Context) (o : Op) → n < 2 ^ 32 - 2 → IsValid n c → IsValid (suc n) (step c o)
unfolding step
step-IsValid n c (set_registry r) small h = IsValid-suc n c h
step-IsValid n c (send_message m callback send now) small h =
    send-IsValid n c m callback send now small h
step-IsValid n c (check_timeouts now) small h = timeouts-IsValid n c now h
step-IsValid n c (accept_one a nonblocking) small h = accept-IsValid n c a nonblocking h
step-IsValid n c (cleanup_one i) small h = cleanup-IsValid n c i h
step-IsValid n c (client_data net send tokens got mem type) small h =
    data-IsValid n c net send tokens got mem type h

run_from-IsValid :
    (n : ℕ) (c : Context) (os : List Op)
    → n + length os < 2 ^ 32 - 1
    → IsValid n c
    → IsValid (n + length os) (run c os)
unfolding run
run_from-IsValid n c [] small h = rw zero_ops h
  where
    zero_ops : n + length {A = Op} [] ≡ n
    zero_ops = omega arith
run_from-IsValid n c (o ∷ os) small h =
    let moved : n + length (o ∷ os) ≡ suc n + length os = omega arith in
    rw moved
      (run_from-IsValid (suc n) (step c o) os (omega arith) (step-IsValid n c o (omega arith) h))

-- After any fewer than 2 ^ 32 - 1 operations on a new server the array of the requests and that of the
-- descriptors are not overrun, and the requests that wait have distinct IDs, the oldest first, all
-- below the next one.
pub socket_run-IsValid :
    (os : List Op) → length os < 2 ^ 32 - 1 → IsValid (length os) (run server_init os)
unfolding server_init
socket_run-IsValid os small =
    let start : IsValid 0 server_init = record {
      few_requests = omega arith;
      few_clients = omega arith;
      ids_below = tt;
      ascending = tt;
      next_bound = omega arith;
    } in
    let counted : 0 + length os ≡ length os = omega arith in
    rw counted at (run_from-IsValid 0 server_init os (omega arith) start)
