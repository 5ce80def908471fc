-- ===== src/Daemon/Helpers/Fresh.antt =====
-- The IDs that src/daemon/argo_daemon_workflow_helpers.c makes are new.
use mathlib.Core.List.{append_assoc}
use argo.Base.{
  ℕ, ◌+◌, ◌-◌, ◌/◌, ◌%◌, ◌≤◌, ◌<◌, ◌≡◌, refl, ◌∙◌, ap, sym, true, false, List, [], ◌∷◌, ◌++◌, none,
  some, arith, ltb, ◌==◌, Bytes, take, take_all, length, length-append, Bool-cases, Option-cases,
  inl, inr, str_eq, str_eq_iff,
}
use argo.Base.Nodes.{find_node}
use argo.Json.{strip}
use argo.Error.{success}
use argo.WorkflowRegistry.{Entry, Registry, id_of, find, list}
use argo.WorkflowRegistry.Valid.{IsValid}
use argo.Daemon.Helpers.{
  id_number, raised, highest, two_digits, id_prefix, with_suffix, suffix_from, next_suffix,
  generate_workflow_id,
}

highest-le : (pre : Bytes) (es : List Entry) (n : ℕ) → n ≤ highest pre es n
unfolding highest
highest-le pre [] n = omega arith
highest-le pre (e ∷ es) n = elim (Option-cases (id_number pre e.workflow_id)) [
  | inl other ↦ rw (other, highest) (highest-le pre es n)
  | inr (num, at) ↦ rw (at, highest) (ground (arith, highest-le pre es (raised n (some num))))
]

-- No entry has a higher number.
highest-bound :
    (pre : Bytes) (es : List Entry) (n num : ℕ) (id : Bytes) {e : Entry}
    → find_node id_of id es ≡ some e
    → id_number pre id ≡ some num
    → num ≤ highest pre es n
unfolding highest find_node
highest-bound pre [] n num id h k = absurd (cc)
highest-bound pre (x ∷ es) n num id {e} h k = elim (Bool-cases (str_eq x.workflow_id id)) [
  | inl here ↦
      let same : x.workflow_id ≡ id = (str_eq_iff x.workflow_id id).0 here in
      let at : id_number pre x.workflow_id ≡ some num = ap (id_number pre) same ∙ k in
      rw (at, highest) (ground (arith, highest-le pre es (raised n (some num))))
  | inr there ↦
      highest-bound pre es (raised n (id_number pre x.workflow_id)) num id {e = e} (ground arith) k
]

strip-prefix : (pre rest : Bytes) → strip pre (pre ++ rest) ≡ some rest
unfolding strip
strip-prefix [] rest = refl
strip-prefix (c ∷ pre) rest = ground (arith, strip-prefix pre rest)

-- Two digits are read back.
id_number-two_digits :
    (pre : Bytes) (n : ℕ) → n < 100 → id_number pre (pre ++ two_digits n) ≡ some n
unfolding id_number two_digits
id_number-two_digits pre n h =
    let small : ltb n 100 ≡ true = ground arith in
    rw (small)
      (rw (strip-prefix pre ((b'0' + n / 10) ∷ (b'0' + n % 10) ∷ []), id_number) (ground arith))

nil_of : (es : List Entry) → length es ≡ 0 → es ≡ []
nil_of [] h = refl
nil_of (e ∷ es) h = absurd (omega arith)

list_empty : (r : Registry) → (r.count == 0) ≡ true → list r true ≡ (none, 0, success)
unfolding list
list_empty r h = rw h

list_all : (r : Registry) → (r.count == 0) ≡ false → list r true ≡ (some r.head, r.count, success)
unfolding list
list_all r h = rw h

next_suffix_lem :
    (r : Registry) (name usec : Bytes)
    → IsValid r
    → next_suffix r name usec true ≡ two_digits (highest (id_prefix name) r.head 0 + 1)
unfolding suffix_from highest
next_suffix_lem r name usec h = elim (Bool-cases (r.count == 0)) [
  | inl empty ↦
      let nil : r.head ≡ [] = nil_of r.head (ground (arith, h.counted)) in
      ap (suffix_from name usec) (list_empty r empty)
      ∙ (ap (λ es. two_digits (highest (id_prefix name) es 0 + 1)) (sym nil))
  | inr busy ↦ ap (suffix_from name usec) (list_all r busy)
]

id_prefix_lem : (name : Bytes) → length name ≤ 126 → id_prefix name ≡ name ++ b'_' ∷ []
id_prefix_lem name h =
    take_all 127 (name ++ b'_' ∷ []) (omega (arith, length-append name (b'_' ∷ [])))

pub length-two_digits : (n : ℕ) → n < 100 → length (two_digits n) ≡ 2
unfolding two_digits
length-two_digits n h = ground arith

-- The ID with a number above the highest is no workflow's.
next_id_new :
    (r : Registry) (name : Bytes)
    → length name ≤ 126
    → highest (id_prefix name) r.head 0 < 99
    → find r (with_suffix name (two_digits (highest (id_prefix name) r.head 0 + 1))) ≡ none
unfolding find
next_id_new r name short h =
    let next = highest (id_prefix name) r.head 0 + 1 in
    let id = with_suffix name (two_digits next) in
    elim (Option-cases (find_node id_of id r.head)) [
      | inl gone ↦ gone
      | inr (e, at) ↦
          let number : id_number (id_prefix name) id ≡ some next =
            ap (λ p. id_number p id) (id_prefix_lem name short)
            ∙ ap (id_number (name ++ b'_' ∷ []))
                (sym (append_assoc name (b'_' ∷ []) (two_digits next)))
            ∙ id_number-two_digits (name ++ b'_' ∷ []) next (omega arith) in
          absurd (omega (arith, highest-bound (id_prefix name) r.head 0 next id {e = e} at number))
    ]

-- The ID that is made for a workflow without an instance name, or with an empty one, is complete
-- and is that of no workflow of the registry: the template's name, '_', and the two digits of one
-- more than the highest number in use. The registry is valid and can be listed, the template's name
-- has at most 126 bytes and fits the buffer with the suffix, and the highest number is below 99.
pub generate_workflow_id_fresh :
    (r : Registry) (name usec : Bytes) (size : ℕ)
    → IsValid r
    → length name ≤ 126
    → length name + 4 ≤ size
    → highest (id_prefix name) r.head 0 < 99
    → let id = with_suffix name (two_digits (highest (id_prefix name) r.head 0 + 1)) in
      (generate_workflow_id r (some name) none size usec true ≡ (some id, success))
      × (generate_workflow_id r (some name) (some []) size usec true ≡ (some id, success))
      × (find r id ≡ none)
unfolding generate_workflow_id
generate_workflow_id_fresh r name usec size h short fits below =
    let next = highest (id_prefix name) r.head 0 + 1 in
    let id = with_suffix name (two_digits next) in
    let whole : take (size - 1) id ≡ id = take_all (size - 1) id (
      omega (
        arith,
        length-append name (b'_' ∷ two_digits next),
        length-two_digits next (omega arith),
      )) in
    rw (next_suffix_lem r name usec h, whole) (refl, refl, next_id_new r name short below)
