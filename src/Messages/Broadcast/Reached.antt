-- ===== src/Messages/Broadcast/Reached.antt =====
-- What a broadcast of src/daemon/argo_registry_messaging.c leaves of each CI.
use mathlib.Core.Option
use argo.Base.{
  suc, ℕ, ◌+◌, ◌≡◌, refl, sym, ◌∙◌, ap, arith, true, false, Option, none, some, List, [], ◌∷◌,
  if◌then◌else◌, Bytes, str_eq, str_eq_iff, Bool-cases, All, inl, inr, ltb,
}
use argo.Base.Nodes.{find_node, Distinct}
use argo.Error.{Code, success, e_ci_no_provider}
use argo.CiRegistry.{Entry, Registry, name_of, find_ci}
use argo.CiRegistry.Valid.{IsValid}
use argo.Messages.{
  Message, Net, is_target, with_sent, with_received, with_error, registry_broadcast_message,
}
use argo.Messages.Delivery.{counted}
use argo.Messages.Broadcast.{
  targets, answers, answers_behind, times, Reads, successes, spread, find_node-name, AsListed,
  status_of, All-map, broadcast_loop_lem,
}

abbrev pub sent_times : ℕ → Entry → Entry
sent_times n e = record e { messages_sent = e.messages_sent + n }

-- A message that came, by the answer of the socket.
abbrev pub got : ℕ → Code → Option Entry → Option Entry
got now success x = Option.map with_received x
got now other x = Option.map (with_error now) (Option.map with_received x)

-- By the entry that is found.
abbrev got_if_target : Bytes → Option Bytes → ℕ → Code → Option Entry → Option Entry → Option Entry
got_if_target from_ci role now c none x = x
got_if_target from_ci role now c (some e) x = if is_target from_ci role e then got now c x else x

counted-other :
    (from_ci to_ci j : Bytes) (now : ℕ) (c : Code) (x : Option Entry)
    → str_eq from_ci j ≡ false
    → counted from_ci to_ci j now c x ≡ (if str_eq to_ci j then got now c x else x)
counted-other from_ci to_ci j now success x other = rw other refl
counted-other from_ci to_ci j now failed x other = elim (Bool-cases (str_eq to_ci j)) [
  | inl same ↦ rw other (rw same refl)
  | inr different ↦ rw other (rw different refl)
]

counted-sender :
    (from_ci to_ci j : Bytes) (now : ℕ) (c : Code) (x : Option Entry)
    → str_eq from_ci j ≡ true
    → str_eq to_ci j ≡ false
    → counted from_ci to_ci j now c x ≡ Option.map with_sent x
counted-sender from_ci to_ci j now success x same different = rw different (rw same refl)
counted-sender from_ci to_ci j now failed x same different = rw different (rw same refl)

none_behind :
    (e : Entry) (j : Bytes) (es : List Entry)
    → find_node name_of e.name es ≡ none
    → str_eq e.name j ≡ true
    → find_node name_of j es ≡ none
none_behind e j es new same =
    ap (λ (b : Bytes). find_node name_of b es) (sym ((str_eq_iff e.name j).0 same)) ∙ new

-- How many targets stand in front of the CI `j`, which is the number of its own send.
abbrev pub position : Bytes → Option Bytes → Bytes → List Entry → ℕ
position from_ci role j [] = 0
position from_ci role j (e ∷ es) =
    if str_eq e.name j
    then 0
    else if is_target from_ci role e
    then suc (position from_ci role j es)
    else position from_ci role j es

spread-other :
    (from_ci : Bytes) (role : Option Bytes) (j : Bytes) (nows : ℕ → ℕ) (cs : ℕ → Code)
    (es : List Entry) (x : Option Entry)
    → str_eq from_ci j ≡ false
    → Distinct name_of es
    → let k = position from_ci role j es in
      spread from_ci role j nows cs es x
      ≡ got_if_target from_ci role (nows k) (cs k) (find_node name_of j es) x
unfolding find_node
spread-other from_ci role j nows cs [] x other d = refl
spread-other from_ci role j nows cs (e ∷ es) x other d =
    elim (Bool-cases (is_target from_ci role e)) [
      | inl target ↦ elim (Bool-cases (str_eq e.name j)) [
        | inl same ↦
            let y = counted from_ci e.name j (nows 0) (cs 0) x in
            rw target (
              rw same (
                rw target (
                  spread-other from_ci role j (λ i. nows (suc i)) (answers_behind cs) es y other d.1
                  ∙ ap
                      (λ f.
                        got_if_target from_ci role (nows (suc (position from_ci role j es)))
                          (cs (suc (position from_ci role j es))) f y)
                      (none_behind e j es d.0 same)
                  ∙ counted-other from_ci e.name j (nows 0) (cs 0) x other
                  ∙ rw same refl)))
        | inr different ↦ rw target (
            rw different (
              ap (spread from_ci role j (λ i. nows (suc i)) (answers_behind cs) es)
                (counted-other from_ci e.name j (nows 0) (cs 0) x other ∙ rw different refl)
              ∙ spread-other from_ci role j (λ i. nows (suc i)) (answers_behind cs) es x other d.1))
      ]
      | inr skipped ↦ elim (Bool-cases (str_eq e.name j)) [
        | inl same ↦ rw skipped (
            rw same (
              rw skipped (
                spread-other from_ci role j nows cs es x other d.1
                ∙ ap
                    (λ f.
                      got_if_target from_ci role (nows (position from_ci role j es))
                        (cs (position from_ci role j es)) f x)
                    (none_behind e j es d.0 same))))
        | inr different ↦
            rw skipped (rw different (spread-other from_ci role j nows cs es x other d.1))
      ]
    ]

target_is_other :
    (from_ci : Bytes) (role : Option Bytes) (e : Entry) (j : Bytes)
    → is_target from_ci role e ≡ true
    → str_eq from_ci j ≡ true
    → str_eq e.name j ≡ false
unfolding is_target
target_is_other from_ci role e j target same =
    ground (arith, str_eq_iff from_ci j, str_eq_iff e.name j, str_eq_iff e.name from_ci)

sent_once_more :
    (n : ℕ) (x : Option Entry)
    → Option.map (sent_times n) (Option.map with_sent x) ≡ Option.map (sent_times (suc n)) x
unfolding with_sent
sent_once_more n none = refl
sent_once_more n (some e) =
    let same : e.messages_sent + 1 + n ≡ e.messages_sent + suc n = omega arith in
    ap (λ (m : ℕ). some (record e { messages_sent = m })) same

spread-sender :
    (from_ci : Bytes) (role : Option Bytes) (j : Bytes) (nows : ℕ → ℕ) (cs : ℕ → Code)
    (es : List Entry) (x : Option Entry)
    → str_eq from_ci j ≡ true
    → spread from_ci role j nows cs es x ≡ Option.map (sent_times (targets from_ci role es)) x
spread-sender from_ci role j nows cs [] none same = refl
spread-sender from_ci role j nows cs [] (some e) same =
    let kept : e.messages_sent ≡ e.messages_sent + 0 = omega arith in
    ap (λ (m : ℕ). some (record e { messages_sent = m })) kept
spread-sender from_ci role j nows cs (e ∷ es) x same =
    elim (Bool-cases (is_target from_ci role e)) [
      | inr skipped ↦ rw skipped (spread-sender from_ci role j nows cs es x same)
      | inl target ↦ rw target (
          ap (spread from_ci role j (λ i. nows (suc i)) (answers_behind cs) es) (
            counted-sender from_ci e.name j (nows 0) (cs 0) x same
              (target_is_other from_ci role e j target same))
          ∙ spread-sender from_ci role j (λ i. nows (suc i)) (answers_behind cs) es
              (Option.map with_sent x) same
          ∙ sent_once_more (targets from_ci role es) x)
    ]

-- What a broadcast leaves of the CI `j`, by the socket's answer to its own send, the time of that, and
-- the number of targets.
abbrev pub reached : Bytes → Option Bytes → Bytes → ℕ → Code → ℕ → Option Entry → Option Entry
reached from_ci role j now c n none = none
reached from_ci role j now c n (some e) =
    if str_eq from_ci j
    then some (sent_times n e)
    else if is_target from_ci role e
    then got now c (some e)
    else some e

abbrev pub broadcast_code : (ℕ → Code) → ℕ → List Entry → Code
broadcast_code cs n [] = success
broadcast_code cs n (e ∷ es) = if ltb 0 (successes cs n) then success else e_ci_no_provider

spread-reached :
    (from_ci : Bytes) (role : Option Bytes) (j : Bytes) (nows : ℕ → ℕ) (cs : ℕ → Code)
    (es : List Entry)
    → Distinct name_of es
    → let k = position from_ci role j es in
      spread from_ci role j nows cs es (find_node name_of j es)
      ≡ reached from_ci role j (nows k) (cs k) (targets from_ci role es) (find_node name_of j es)
spread-reached from_ci role j nows cs es d = elim (Bool-cases (str_eq from_ci j)) [
  | inl same ↦
      spread-sender from_ci role j nows cs es (find_node name_of j es) same
      ∙ of_sender (find_node name_of j es) same
  | inr other ↦
      spread-other from_ci role j nows cs es (find_node name_of j es) other d
      ∙ of_other (find_node name_of j es) other
]
  where
    of_sender :
        (x : Option Entry)
        → str_eq from_ci j ≡ true
        → Option.map (sent_times (targets from_ci role es)) x
          ≡ reached from_ci role j
              (nows (position from_ci role j es))
              (cs (position from_ci role j es))
              (targets from_ci role es)
              x
    of_sender none same = refl
    of_sender (some e) same = rw same refl

    of_other :
        (x : Option Entry)
        → str_eq from_ci j ≡ false
        → got_if_target from_ci role
            (nows (position from_ci role j es))
            (cs (position from_ci role j es))
            x
            x
          ≡ reached from_ci role j
              (nows (position from_ci role j es))
              (cs (position from_ci role j es))
              (targets from_ci role es)
              x
    of_other none other = refl
    of_other (some e) other = rw other refl

listed : (r : Registry) → IsValid r → All (AsListed r) r.entries
unfolding find_ci
listed r valid =
    All-map (λ (e : Entry). find_node name_of e.name r.entries ≡ some e) (AsListed r)
      (λ e at. ap (Option.map status_of) at) r.entries (find_node-name r.entries valid.distinct)

-- With the entries written out.
broadcast_entries :
    (r : Registry) (nets : ℕ → Net) (from_ci : Bytes) (role : Option Bytes) (json j : Bytes)
    (msgs : ℕ → Message) (es : List Entry)
    → r.entries ≡ es
    → All (AsListed r) es
    → Distinct name_of es
    → Reads nets json msgs
    → let done = registry_broadcast_message r nets (some from_ci) role (some json) in
      let n = targets from_ci role es in
      let k = position from_ci role j es in
      (find_ci done.0 j
        ≡ reached from_ci role j (nets k).now (answers nets msgs k) n (find_node name_of j es))
      × (done.1 ≡ broadcast_code (answers nets msgs) n es)
unfolding registry_broadcast_message find_ci find_node
broadcast_entries r nets from_ci role json j msgs [] entries all d reads =
    rw (entries, registry_broadcast_message) (rw entries (refl, refl))
broadcast_entries r nets from_ci role json j msgs (e ∷ es) entries all d reads =
    let did = broadcast_loop_lem from_ci role json r nets msgs j (e ∷ es) reads all in
    let found = ap (find_node name_of j) entries in
    rw (entries, registry_broadcast_message)
      (
        did.0
            ∙ ap (spread from_ci role j (times nets) (answers nets msgs) (e ∷ es)) found
            ∙ spread-reached from_ci role j (times nets) (answers nets msgs) (e ∷ es) d,
        ap (λ n. if ltb 0 n then success else e_ci_no_provider) did.1,
      )

-- A broadcast of a text that every send reads as a message, in a valid registry, where the socket may
-- answer differently to each send: the sender, if it is a CI, counts one message for each target,
-- which is every other CI that has the role, if one is asked for, and is ready or busy; each target
-- counts one message, and one dated error if its own send fails; no other CI changes. The code is
-- success if at least one send succeeds, however many fail, and E_CI_NO_PROVIDER if none does or
-- there is no target; but a registry without CIs is a success.
pub registry_broadcast_message_lem :
    (r : Registry) (nets : ℕ → Net) (from_ci : Bytes) (role : Option Bytes) (json j : Bytes)
    (msgs : ℕ → Message)
    → IsValid r
    → Reads nets json msgs
    → let done = registry_broadcast_message r nets (some from_ci) role (some json) in
      let n = targets from_ci role r.entries in
      let k = position from_ci role j r.entries in
      (find_ci done.0 j ≡ reached from_ci role j (nets k).now (answers nets msgs k) n (find_ci r j))
      × (done.1 ≡ broadcast_code (answers nets msgs) n r.entries)
unfolding find_ci
registry_broadcast_message_lem r nets from_ci role json j msgs valid reads =
    broadcast_entries r nets from_ci role json j msgs r.entries refl (listed r valid) valid.distinct
      reads
