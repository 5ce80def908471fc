-- ===== src/Messages/Examples.antt =====
-- Messages for src/daemon/argo_registry_messaging.c.
use argo.Base.{ℕ, ◌==◌, if◌then◌else◌, arith, ◌≡◌, refl, true, none, some, Bytes, codes, str_eq}
use argo.Error.{e_system_socket, success, e_ci_no_provider}
use argo.CiRegistry.{Registry, ready, create, add_ci, new_entry, update_status, find_ci}
use argo.Messages.{
  Message, Net, message_from_json, registry_send_message, registry_broadcast_message,
}
use argo.CiRegistry.Valid.{IsValid, create-IsValid, add_ci-IsValid, update_status-IsValid}
use argo.Messages.Broadcast.{targets, answers, Reads}
use argo.Messages.Broadcast.Reached.{
  reached, position, broadcast_code, registry_broadcast_message_lem,
}
use argo.Messages.Delivery.{sent_to, registry_send_message_lem}

abbrev net : Net
net = record { mem = true; field = λ name. true; now = 9; send = λ m. success }

abbrev argo_there : Registry
argo_there =
    (add_ci create (some (codes "Argo")) (some (codes "builder")) (some (codes "m")) 9000 true 1).0

abbrev argo_ready : Registry
argo_ready = (update_status argo_there (some (codes "Argo")) ready).0

abbrev text : Bytes
text =
    codes
      "{\"from\":\"Io\",\"to\":\"Argo\",\"timestamp\":7,\"type\":\"request\",\"content\":\"hi\",\"timeout_ms\":50}"

registry_send_message_lem_example :
    let sent =
      registry_send_message argo_ready net (some (codes "Io")) (some (codes "Argo")) (some text) in
    (find_ci sent.0 (codes "Argo")
      ≡ (sent_to argo_ready net
          (codes "Io")
          (codes "Argo")
          text
          (codes "Argo")
          (find_ci argo_ready (codes "Argo"))).0)
    × (sent.1
        ≡ (sent_to argo_ready net
            (codes "Io")
            (codes "Argo")
            text
            (codes "Argo")
            (find_ci argo_ready (codes "Argo"))).1)
registry_send_message_lem_example =
    registry_send_message_lem argo_ready net (codes "Io") (codes "Argo") text (codes "Argo")

read_back :
    message_from_json net (some text)
    ≡ some (record {
      from = codes "Io";
      to = codes "Argo";
      timestamp = 7;
      type = codes "request";
      thread_id = none;
      content = codes "hi";
      priority = none;
      timeout_ms = 50;
    })
unfolding message_from_json
read_back = refl

delivered :
    (registry_send_message argo_ready net (some (codes "Io")) (some (codes "Argo")) (some text)).1
    ≡ success
unfolding registry_send_message update_status add_ci create str_eq new_entry
delivered = refl

-- A broadcast to a role that no CI has reaches nobody.
nobody :
    (registry_broadcast_message argo_ready
      (λ i. net)
      (some (codes "Io"))
      (some (codes "x"))
      (some text)).1
    ≡ e_ci_no_provider
unfolding registry_broadcast_message update_status add_ci create new_entry
nobody = refl

abbrev io_too : Registry
io_too =
    (add_ci argo_ready (some (codes "Io")) (some (codes "builder")) (some (codes "m")) 9001 true
      2).0

abbrev read_message : Message
read_message = record {
  from = codes "Io";
  to = codes "Argo";
  timestamp = 7;
  type = codes "request";
  thread_id = none;
  content = codes "hi";
  priority = none;
  timeout_ms = 50;
}

argo_ready-IsValid : IsValid argo_ready
unfolding create
argo_ready-IsValid = update_status-IsValid argo_there (some (codes "Argo")) ready (
    add_ci-IsValid create (codes "Argo") (codes "builder") (codes "m") 9000 true 1 create-IsValid
      (omega arith))

io_too-IsValid : IsValid io_too
io_too-IsValid =
    add_ci-IsValid argo_ready (codes "Io") (codes "builder") (codes "m") 9001 true 2
      argo_ready-IsValid (omega arith)

abbrev maia_ready : Registry
maia_ready =
    (update_status
      (add_ci io_too (some (codes "Maia")) (some (codes "builder")) (some (codes "m")) 9002 true
        3).0
      (some (codes "Maia")) ready).0

maia_ready-IsValid : IsValid maia_ready
maia_ready-IsValid = update_status-IsValid _ (some (codes "Maia")) ready (
    add_ci-IsValid io_too (codes "Maia") (codes "builder") (codes "m") 9002 true 3 io_too-IsValid
      (omega arith))

-- The first send of the broadcast fails, the second one does not.
abbrev nets : ℕ → Net
nets i = record net { send = λ m. if i == 0 then e_system_socket else success }

nets-Reads : Reads nets text (λ i. read_message)
unfolding message_from_json
nets-Reads i = refl

registry_broadcast_message_lem_example :
    let done = registry_broadcast_message maia_ready nets (some (codes "Io")) none (some text) in
    let n = targets (codes "Io") none maia_ready.entries in
    let k = position (codes "Io") none (codes "Argo") maia_ready.entries in
    (find_ci done.0 (codes "Argo")
      ≡ reached
          (codes "Io")
          none
          (codes "Argo")
          9
          (answers nets (λ i. read_message) k)
          n
          (find_ci maia_ready (codes "Argo")))
    × (done.1 ≡ broadcast_code (answers nets (λ i. read_message)) n maia_ready.entries)
registry_broadcast_message_lem_example =
    registry_broadcast_message_lem maia_ready nets (codes "Io") none text (codes "Argo")
      (λ i. read_message) maia_ready-IsValid nets-Reads

-- One of two sends fails.
partly_sent :
    (registry_broadcast_message maia_ready nets (some (codes "Io")) none (some text)).1 ≡ success
unfolding registry_broadcast_message update_status add_ci create new_entry str_eq
partly_sent = refl
