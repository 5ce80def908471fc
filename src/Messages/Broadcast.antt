-- ===== src/Messages/Broadcast.antt =====
-- Broadcasts of src/daemon/argo_registry_messaging.c.
pub mod Reached
use mathlib.Core.Option
use argo.Base.{
  zero, suc, ℕ, ◌+◌, ◌<◌, ◌≡◌, refl, sym, ◌∙◌, ap, arith, Bool, true, false, Option, none, some,
  List, [], ◌∷◌, if◌then◌else◌, Bytes, str_eq, str_eq_iff, Bool-cases, Option-cases, inl, inr, All,
  ltb, ◌&&◌, not,
}
use argo.Base.Nodes.{find_node, Distinct}
use argo.Error.{Code, success, e_ci_no_provider}
use argo.CiRegistry.{Entry, Registry, Status, name_of, find_ci}
use argo.CiRegistry.Valid.{IsValid}
use argo.Messages.{
  Message, Net, message_from_json, is_online, is_target, registry_send_message, broadcast_loop,
  later, registry_broadcast_message, with_sent, with_received, with_error,
}
use argo.Messages.Delivery.{only, counted, sent_to, registry_send_message_lem}

abbrev pub status_of : Entry → Status
status_of e = e.status

abbrev pub AsListed : Registry → Entry → Type 0
AsListed r e = Option.map status_of (find_ci r e.name) ≡ some e.status

pub All-map :
    (P Q : Entry → Type 0) → ((e : Entry) → P e → Q e) → (es : List Entry) → All P es → All Q es
All-map P Q f [] h = tt
All-map P Q f (e ∷ es) h = (f e h.0, All-map P Q f es h.1)

found_behind :
    (x e : Entry) (es : List Entry)
    → find_node name_of x.name es ≡ none
    → find_node name_of e.name es ≡ some e
    → find_node name_of e.name (x ∷ es) ≡ some e
unfolding find_node
found_behind x e es new at = ground (
  arith,
  str_eq_iff x.name e.name,
  ap (λ (b : Bytes). find_node name_of b es) {x = x.name} {y = e.name},
)

pub find_node-name :
    (es : List Entry)
    → Distinct name_of es
    → All (λ (e : Entry). find_node name_of e.name es ≡ some e) es
unfolding find_node
find_node-name [] d = tt
find_node-name (x ∷ es) d = (
  ground (arith, str_eq_iff x.name x.name),
  All-map (λ (e : Entry). find_node name_of e.name es ≡ some e)
      (λ (e : Entry). find_node name_of e.name (x ∷ es) ≡ some e)
      (λ e at. found_behind x e es d.0 at) es (find_node-name es d.1),
)

status-only :
    (k j : Bytes) (f : Entry → Entry)
    → ((e : Entry) → status_of (f e) ≡ status_of e)
    → (x : Option Entry) → Option.map status_of (only k j f x) ≡ Option.map status_of x
status-only k j f keeps none = elim (Bool-cases (str_eq k j)) [
  | inl same ↦ rw same refl
  | inr other ↦ rw other refl
]
status-only k j f keeps (some e) = elim (Bool-cases (str_eq k j)) [
  | inl same ↦ rw same (ap some (keeps e))
  | inr other ↦ rw other refl
]

status-both :
    (from_ci to_ci j : Bytes) (x : Option Entry)
    → Option.map status_of (only to_ci j with_received (only from_ci j with_sent x))
      ≡ Option.map status_of x
unfolding with_received with_sent
status-both from_ci to_ci j x =
    status-only to_ci j with_received (λ e. refl) (only from_ci j with_sent x)
    ∙ status-only from_ci j with_sent (λ e. refl) x

status-counted :
    (from_ci to_ci j : Bytes) (now : ℕ) (c : Code) (x : Option Entry)
    → Option.map status_of (counted from_ci to_ci j now c x) ≡ Option.map status_of x
unfolding with_error
status-counted from_ci to_ci j now success x = status-both from_ci to_ci j x
status-counted from_ci to_ci j now other x =
    status-only to_ci j (with_error now) (λ e. refl) _ ∙ status-both from_ci to_ci j x

-- A send to a CI that is online, when the text is a message, has the answer of the socket.
sent_online :
    (r : Registry) (net : Net) (from_ci json j : Bytes) (e : Entry) (msg : Message) (x : Entry)
    → message_from_json net (some json) ≡ some msg
    → find_ci r e.name ≡ some x
    → is_online x.status ≡ true
    → let sent = registry_send_message r net (some from_ci) (some e.name) (some json) in
      (find_ci sent.0 j ≡ counted from_ci e.name j net.now (net.send msg) (find_ci r j))
      × (sent.1 ≡ net.send msg)
sent_online r net from_ci json j e msg x read at online =
    let did = registry_send_message_lem r net from_ci e.name json j in
    let to_known = ap (sent_to r net from_ci e.name json j) at in
    let answer : sent_to r net from_ci e.name json j (some x)
        ≡ (counted from_ci e.name j net.now (net.send msg) (find_ci r j), net.send msg) =
      rw online (rw read refl) in
    (did.0 ∙ ap (λ p. p.0) (to_known ∙ answer), did.1 ∙ ap (λ p. p.1) (to_known ∙ answer))

-- The number of the CIs that a broadcast goes to.
abbrev pub targets : Bytes → Option Bytes → List Entry → ℕ
targets from_ci role [] = 0
targets from_ci role (e ∷ es) =
    if is_target from_ci role e then suc (targets from_ci role es) else targets from_ci role es

-- What the sends of a broadcast give: the answer of the socket to each, from the first one on. The
-- text is parsed for each.
abbrev pub answers : (ℕ → Net) → (ℕ → Message) → ℕ → Code
answers nets msgs i = (nets i).send (msgs i)

abbrev pub answers_behind : (ℕ → Code) → ℕ → Code
answers_behind cs i = cs (suc i)

-- The number of the sends that succeed.
abbrev pub successes : (ℕ → Code) → ℕ → ℕ
successes cs zero = 0
successes cs (suc n) = elim (cs 0) [
  | success ↦ successes (answers_behind cs) n + 1
  | other ↦ successes (answers_behind cs) n
]

-- What the sends leave of the CI `j`, one after the other; `nows` are their times.
abbrev pub spread :
    Bytes → Option Bytes → Bytes → (ℕ → ℕ) → (ℕ → Code) → List Entry → Option Entry → Option Entry
spread from_ci role j nows cs [] x = x
spread from_ci role j nows cs (e ∷ es) x =
    if is_target from_ci role e
    then spread from_ci role j (λ i. nows (suc i)) (answers_behind cs) es
        (counted from_ci e.name j (nows 0) (cs 0) x)
    else spread from_ci role j nows cs es x

abbrev tallied : Code → Registry × ℕ → Registry × ℕ
tallied c rest = elim c [ success ↦ (rest.0, rest.1 + 1) | other ↦ rest ]

target-is_online :
    (from_ci : Bytes) (role : Option Bytes) (e : Entry)
    → is_target from_ci role e ≡ true
    → is_online e.status ≡ true
unfolding is_target
target-is_online from_ci role e h = elim (Bool-cases (is_online e.status)) [
  | inl online ↦ online
  | inr away ↦ ground arith
]

find_listed :
    (r : Registry) (e : Entry)
    → AsListed r e
    → (x : Entry) × ((find_ci r e.name ≡ some x) × (x.status ≡ e.status))
find_listed r e h = elim (Option-cases (find_ci r e.name)) [
  | inl gone ↦ absurd (ground (arith, sym (ap (Option.map status_of) gone) ∙ h))
  | inr (x, at) ↦ (
    x,
    (
      at,
      ap (λ (s : Option Status). elim s [ none ↦ x.status | some t ↦ t ])
          (sym (ap (Option.map status_of) at) ∙ h),
    ),
  )
]

-- Every send reads the text as a message.
abbrev pub Reads : (ℕ → Net) → Bytes → (ℕ → Message) → Type 0
Reads nets json msgs = (i : ℕ) → message_from_json (nets i) (some json) ≡ some (msgs i)

abbrev pub times : (ℕ → Net) → ℕ → ℕ
times nets i = (nets i).now

module _ (from_ci : Bytes) (role : Option Bytes) (json : Bytes) where
  send_to_listed :
      (r : Registry) (net : Net) (msg : Message) (e : Entry) (j : Bytes)
      → message_from_json net (some json) ≡ some msg
      → AsListed r e
      → is_target from_ci role e ≡ true
      → let sent = registry_send_message r net (some from_ci) (some e.name) (some json) in
        (find_ci sent.0 j ≡ counted from_ci e.name j net.now (net.send msg) (find_ci r j))
        × (sent.1 ≡ net.send msg)
  send_to_listed r net msg e j read h target =
      let x = find_listed r e h in
      sent_online r net from_ci json j e msg x.0 read x.1.0
        (ap is_online x.1.1 ∙ target-is_online from_ci role e target)

  still_listed :
      (r : Registry) (net : Net) (msg : Message) (e : Entry) (es : List Entry)
      → message_from_json net (some json) ≡ some msg
      → AsListed r e
      → is_target from_ci role e ≡ true
      → All (AsListed r) es
      → All (AsListed (registry_send_message r net (some from_ci) (some e.name) (some json)).0) es
  still_listed r net msg e es read h target listed =
      All-map (AsListed r) _
        (λ e' h'.
          ap (Option.map status_of) (send_to_listed r net msg e e'.name read h target).0
          ∙ status-counted from_ci e.name e'.name net.now (net.send msg) (find_ci r e'.name)
          ∙ h')
        es listed

  count_sent :
      (cs : ℕ → Code) (c : Code) (rest : Registry × ℕ) (n : ℕ)
      → cs 0 ≡ c
      → rest.1 ≡ successes (answers_behind cs) n
      → tallied c rest ≡ (rest.0, successes cs (suc n))
  count_sent cs success rest n at h = rw (at, successes) (ap (λ (m : ℕ). (rest.0, m + 1)) h)
  count_sent cs other rest n at h = rw (at, successes) (ap (λ (m : ℕ). (rest.0, m)) h)

  pub broadcast_loop_lem :
      (r : Registry) (nets : ℕ → Net) (msgs : ℕ → Message) (j : Bytes) (es : List Entry)
      → Reads nets json msgs
      → All (AsListed r) es
      → (find_ci (broadcast_loop r nets from_ci role json es).0 j
          ≡ spread from_ci role j (times nets) (answers nets msgs) es (find_ci r j))
        × ((broadcast_loop r nets from_ci role json es).1
            ≡ successes (answers nets msgs) (targets from_ci role es))
  unfolding broadcast_loop
  broadcast_loop_lem r nets msgs j [] reads listed = (refl, refl)
  broadcast_loop_lem r nets msgs j (e ∷ es) reads listed =
      elim (Bool-cases (is_target from_ci role e)) [
        | inr skipped ↦
            rw (skipped, broadcast_loop) (broadcast_loop_lem r nets msgs j es reads listed.1)
        | inl target ↦
            let sent = registry_send_message r (nets 0) (some from_ci) (some e.name) (some json) in
            let did = send_to_listed r (nets 0) (msgs 0) e j (reads 0) listed.0 target in
            let rest =
              broadcast_loop_lem sent.0 (later nets) (λ i. msgs (suc i)) j es (λ i. reads (suc i))
                (still_listed r (nets 0) (msgs 0) e es (reads 0) listed.0 target listed.1) in
            let counted_up =
              count_sent (answers nets msgs) ((nets 0).send (msgs 0))
                (broadcast_loop sent.0 (later nets) from_ci role json es) (targets from_ci role es)
                refl rest.1 in
            rw (target, broadcast_loop)
              (rw did.1 (
                ap (λ p. find_ci p.0 j) counted_up
                    ∙ rest.0
                    ∙ ap
                        (spread from_ci role j (times (later nets))
                          (answers_behind (answers nets msgs)) es)
                        did.0,
                ap (λ p. p.1) counted_up,
              ))
      ]
