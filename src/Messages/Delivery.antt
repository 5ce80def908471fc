-- ===== src/Messages/Delivery.antt =====
-- What a message leaves in the CI registry (src/daemon/argo_registry_messaging.c).
use mathlib.Core.Option
use argo.Base.{
  ℕ, ◌≡◌, refl, ◌∙◌, ap, Option, none, some, if◌then◌else◌, Bytes, str_eq, Bool-cases, Option-cases,
  inl, inr,
}
use argo.Base.Nodes.{find-modify}
use argo.Error.{Code, success, e_ci_no_provider, e_ci_disconnected, e_protocol_format}
use argo.CiRegistry.{Entry, Registry, name_of, find_ci, write}
use argo.Messages.{
  Message, Net, message_from_json, is_online, with_sent, with_received, with_error, settled,
  deliver, send_found, registry_send_message,
}

find-write :
    (r : Registry) (k j : Bytes) (f : Entry → Entry)
    → ((e : Entry) → name_of (f e) ≡ name_of e)
    → find_ci (write r k f) j ≡ (if str_eq k j then Option.map f (find_ci r j) else find_ci r j)
unfolding find_ci write
find-write r k j f h = find-modify name_of k j f r.entries h

-- The change of an entry that only concerns the one that is named.
abbrev pub only : Bytes → Bytes → (Entry → Entry) → Option Entry → Option Entry
only k j f e = if str_eq k j then Option.map f e else e

find-settled :
    (r : Registry) (to_ci j : Bytes) (now : ℕ) (c : Code) (e : Option Entry)
    → find_ci r j ≡ e
    → (find_ci (settled r to_ci now c).0 j
        ≡ elim c [ success ↦ e | other ↦ only to_ci j (with_error now) e ])
      × ((settled r to_ci now c).1 ≡ c)
unfolding settled with_error
find-settled r to_ci j now success e h = (h, refl)
find-settled r to_ci j now other e h =
    (find-write r to_ci j (with_error now) (λ x. refl) ∙ ap (only to_ci j (with_error now)) h, refl)

-- What a message leaves of the entry `j`, by the answer of the socket.
abbrev pub counted : Bytes → Bytes → Bytes → ℕ → Code → Option Entry → Option Entry
counted from_ci to_ci j now c e =
    let both = only to_ci j with_received (only from_ci j with_sent e) in
    elim c [ success ↦ both | other ↦ only to_ci j (with_error now) both ]

find-deliver :
    (r : Registry) (net : Net) (from_ci to_ci j : Bytes) (msg : Message)
    → (find_ci (deliver r net from_ci to_ci msg).0 j
        ≡ counted from_ci to_ci j net.now (net.send msg) (find_ci r j))
      × ((deliver r net from_ci to_ci msg).1 ≡ net.send msg)
unfolding deliver with_sent with_received
find-deliver r net from_ci to_ci j msg =
    let r' = write r from_ci with_sent in
    find-settled (write r' to_ci with_received) to_ci j net.now (net.send msg) _ (
      find-write r' to_ci j with_received (λ e. refl)
      ∙ ap (only to_ci j with_received) (find-write r from_ci j with_sent (λ e. refl)))

-- What a request to send leaves at `j`, and its code, by what the recipient's name finds.
abbrev pub sent_to :
    Registry → Net → Bytes → Bytes → Bytes → Bytes → Option Entry → Option Entry × Code
sent_to r net from_ci to_ci json j none = (find_ci r j, e_ci_no_provider)
sent_to r net from_ci to_ci json j (some e) =
    if is_online e.status
    then elim (message_from_json net (some json)) [
      | none ↦ (find_ci r j, e_protocol_format)
      | some msg ↦ (counted from_ci to_ci j net.now (net.send msg) (find_ci r j), net.send msg)
    ]
    else (find_ci r j, e_ci_disconnected)

find-send_found :
    (r : Registry) (net : Net) (from_ci to_ci json j : Bytes) (e : Entry)
    → (find_ci (send_found r net from_ci to_ci json e).0 j
        ≡ (sent_to r net from_ci to_ci json j (some e)).0)
      × ((send_found r net from_ci to_ci json e).1
          ≡ (sent_to r net from_ci to_ci json j (some e)).1)
unfolding send_found
find-send_found r net from_ci to_ci json j e = elim (Bool-cases (is_online e.status)) [
  | inr away ↦ rw (away, send_found) (refl, refl)
  | inl online ↦ elim (Option-cases (message_from_json net (some json))) [
    | inl malformed ↦ rw (online, send_found) (rw (malformed, send_found) (refl, refl))
    | inr (msg, read) ↦
        rw (online, send_found) (rw (read, send_found) (find-deliver r net from_ci to_ci j msg))
  ]
]

-- A message changes the registry only if its recipient is there, is ready or busy, and the text is
-- a message. It is then counted as sent for the sender, if that is a CI, and as received for the
-- recipient; and the code is the one of the socket, of which a failure is counted as an error of
-- the recipient and dated. No other CI changes, and the other answers leave the registry as it was.
pub registry_send_message_lem :
    (r : Registry) (net : Net) (from_ci to_ci json j : Bytes)
    → let sent = registry_send_message r net (some from_ci) (some to_ci) (some json) in
      (find_ci sent.0 j ≡ (sent_to r net from_ci to_ci json j (find_ci r to_ci)).0)
      × (sent.1 ≡ (sent_to r net from_ci to_ci json j (find_ci r to_ci)).1)
unfolding registry_send_message
registry_send_message_lem r net from_ci to_ci json j = elim (Option-cases (find_ci r to_ci)) [
  | inl gone ↦ rw (gone, registry_send_message) (refl, refl)
  | inr (e, at) ↦ rw (at, registry_send_message) (find-send_found r net from_ci to_ci json j e)
]
