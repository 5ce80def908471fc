-- ===== src/Socket/Timeouts.antt =====
-- The check for timed out requests in src/foundation/argo_socket.c, against two filters.
use mathlib.Core.List.{append-nil, append_assoc}
use argo.Base.{
  ℕ, zero, suc, ◌+◌, ◌≤◌, ◌≡◌, refl, sym, ap, ◌∙◌, true, false, List, [], ◌∷◌, ◌++◌, arith, take,
  drop, length, length-append, if◌then◌else◌, Bool-cases, inl, inr,
}
use argo.Socket.{Pending, Context, expired, timeouts_loop, check_request_timeouts}

-- The requests that still wait, and those whose time is over.
abbrev pub unexpired : ℕ → List Pending → List Pending
unexpired now [] = []
unexpired now (q ∷ qs) = if expired now q then unexpired now qs else q ∷ unexpired now qs

abbrev pub overdue : ℕ → List Pending → List Pending
overdue now [] = []
overdue now (q ∷ qs) = if expired now q then q ∷ overdue now qs else overdue now qs

drop-append : (xs ys : List Pending) → drop (length xs) (xs ++ ys) ≡ ys
drop-append [] ys = refl
drop-append (x ∷ xs) ys = drop-append xs ys

take-append : (xs ys : List Pending) → take (length xs) (xs ++ ys) ≡ xs
take-append [] ys = refl
take-append (x ∷ xs) ys = ap (◌∷◌ x) (take-append xs ys)

abbrev outcome : List Pending → List Pending → List Pending × List Pending
outcome waiting called = (waiting, called)

loop_end :
    (fuel now : ℕ) (kept called : List Pending)
    → timeouts_loop fuel now kept (length kept) called ≡ outcome kept called
unfolding timeouts_loop
loop_end zero now kept called = refl
loop_end (suc fuel) now kept called =
    let at_end : drop (length kept) kept ≡ [] =
      ap (drop (length kept)) (sym (append-nil kept)) ∙ drop-append kept [] in
    rw (timeouts_loop, at_end) refl

loop_removes :
    (fuel now : ℕ) (kept : List Pending) (q : Pending) (qs called : List Pending)
    → expired now q ≡ true
    → timeouts_loop (suc fuel) now (kept ++ q ∷ qs) (length kept) called
      ≡ timeouts_loop fuel now (kept ++ qs) (length kept) (called ++ q ∷ [])
unfolding timeouts_loop
loop_removes fuel now kept q qs called over =
    rw (timeouts_loop, drop-append kept (q ∷ qs), over, take-append kept (q ∷ qs)) refl

loop_keeps :
    (fuel now : ℕ) (kept : List Pending) (q : Pending) (qs called : List Pending)
    → expired now q ≡ false
    → timeouts_loop (suc fuel) now (kept ++ q ∷ qs) (length kept) called
      ≡ timeouts_loop fuel now (kept ++ q ∷ qs) (length kept + 1) called
unfolding timeouts_loop
loop_keeps fuel now kept q qs called waits =
    rw (timeouts_loop, drop-append kept (q ∷ qs), waits) refl

timeouts_loop_lem :
    (fuel now : ℕ) (kept rest called : List Pending)
    → length rest ≤ fuel
    → timeouts_loop fuel now (kept ++ rest) (length kept) called
      ≡ outcome (kept ++ unexpired now rest) (called ++ overdue now rest)
timeouts_loop_lem fuel now kept [] called le =
    rw (append-nil kept, append-nil called) (loop_end fuel now kept called)
timeouts_loop_lem zero now kept (q ∷ qs) called le = absurd (omega arith)
timeouts_loop_lem (suc fuel) now kept (q ∷ qs) called le = elim (Bool-cases (expired now q)) [
  | inl over ↦
      loop_removes fuel now kept q qs called over
      ∙ timeouts_loop_lem fuel now kept qs (called ++ q ∷ []) (omega arith)
      ∙ rw over (ap (outcome (kept ++ unexpired now qs)) (append_assoc called (q ∷ []) _))
  | inr waits ↦
      loop_keeps fuel now kept q qs called waits
      ∙ moved fuel now kept q qs called
      ∙ timeouts_loop_lem fuel now (kept ++ q ∷ []) qs called (omega arith)
      ∙ rw waits (
          ap (λ (w : List Pending). outcome w (called ++ overdue now qs))
            (append_assoc kept (q ∷ []) _))
]
  where
    moved :
        (fuel now : ℕ) (kept : List Pending) (q : Pending) (qs called : List Pending)
        → timeouts_loop fuel now (kept ++ q ∷ qs) (length kept + 1) called
          ≡ timeouts_loop fuel now ((kept ++ q ∷ []) ++ qs) (length (kept ++ q ∷ [])) called
    moved fuel now kept q qs called =
        ap (λ (w : List Pending). timeouts_loop fuel now w (length kept + 1) called)
          (sym (append_assoc kept (q ∷ []) qs))
        ∙ ap (λ (i : ℕ). timeouts_loop fuel now ((kept ++ q ∷ []) ++ qs) i called)
            (sym (length-append kept (q ∷ [])))

-- The check leaves exactly the requests whose time is not over, in their order, and calls the
-- callback of every other request once, in order, although it takes requests out of the array that
-- it walks over.
pub check_request_timeouts_lem :
    (c : Context) (now : ℕ)
    → ((check_request_timeouts c now).0.requests ≡ unexpired now c.requests)
      × ((check_request_timeouts c now).1 ≡ overdue now c.requests)
unfolding check_request_timeouts
check_request_timeouts_lem c now =
    let did = timeouts_loop_lem (length c.requests) now [] c.requests [] (omega arith) in
    (ap (λ r. r.0) did, ap (λ r. r.1) did)
