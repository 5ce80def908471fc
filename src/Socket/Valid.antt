-- ===== src/Socket/Valid.antt =====
-- The bounds of the arrays of src/foundation/argo_socket.c and the IDs of its requests, in whole runs.
use argo.Base.{
  ℕ, suc, ◌+◌, ◌-◌, ◌%◌, ◌^◌, ◌≤◌, ◌<◌, ◌≡◌, List, [], ◌∷◌, ◌++◌, Option, none, some, arith, length,
  length-append, Bool-cases, inl, inr, All,
}
use argo.Socket.{Pending, Context, Message, track, expired}
use argo.Socket.Timeouts.{unexpired}

-- Each request is younger than the one in front of it.
abbrev pub Ascending : List Pending → Type 0
Ascending [] = Unit
Ascending (q ∷ qs) = All (λ (x : Pending). q.id < x.id) qs × Ascending qs

-- After `n` operations: at most 50 requests and 49 clients, and IDs that are distinct and below the
-- next one.
pub record InBounds (n : ℕ) (requests : List Pending) (clients : List ℕ) (next : ℕ) : Type 0 where
  pub few_requests : length requests ≤ 50
  pub few_clients : length clients ≤ 49
  pub ids_below : All (λ (q : Pending). q.id < next) requests
  pub ascending : Ascending requests
  pub next_bound : next ≤ n + 1

abbrev pub IsValid : ℕ → Context → Type 0
IsValid n c = InBounds n c.requests c.clients c.next_request_id

All-append : (P : Pending → Type 0) (xs ys : List Pending) → All P xs → All P ys → All P (xs ++ ys)
All-append P [] ys hx hy = hy
All-append P (x ∷ xs) ys hx hy = (hx.0, All-append P xs ys hx.1 hy)

All-weaker :
    (P Q : Pending → Type 0)
    → ((x : Pending) → P x → Q x)
    → (xs : List Pending) → All P xs
    → All Q xs
All-weaker P Q f [] h = tt
All-weaker P Q f (x ∷ xs) h = (f x h.0, All-weaker P Q f xs h.1)

pub All-unexpired :
    (P : Pending → Type 0) (now : ℕ) (qs : List Pending) → All P qs → All P (unexpired now qs)
All-unexpired P now [] h = tt
All-unexpired P now (q ∷ qs) h = elim (Bool-cases (expired now q)) [
  | inl over ↦ rw over (All-unexpired P now qs h.1)
  | inr waits ↦ rw waits (h.0, All-unexpired P now qs h.1)
]

pub unexpired-Ascending :
    (now : ℕ) (qs : List Pending) → Ascending qs → Ascending (unexpired now qs)
unexpired-Ascending now [] h = tt
unexpired-Ascending now (q ∷ qs) h = elim (Bool-cases (expired now q)) [
  | inl over ↦ rw over (unexpired-Ascending now qs h.1)
  | inr waits ↦
      rw waits
        (All-unexpired (λ (x : Pending). q.id < x.id) now qs h.0, unexpired-Ascending now qs h.1)
]

pub length-unexpired : (now : ℕ) (qs : List Pending) → length (unexpired now qs) ≤ length qs
length-unexpired now [] = omega arith
length-unexpired now (q ∷ qs) = elim (Bool-cases (expired now q)) [
  | inl over ↦ rw over (omega (arith, length-unexpired now qs))
  | inr waits ↦ rw waits (omega (arith, length-unexpired now qs))
]

append-Ascending :
    (qs : List Pending) (q : Pending)
    → All (λ (x : Pending). x.id < q.id) qs
    → Ascending qs
    → Ascending (qs ++ q ∷ [])
append-Ascending [] q below h = (tt, tt)
append-Ascending (x ∷ qs) q below h = (
  All-append (λ (y : Pending). x.id < y.id) qs (q ∷ []) h.0 (below.0, tt),
  append-Ascending qs q below.1 h.1,
)

-- More operations may have been done.
pub IsValid-suc : (n : ℕ) (c : Context) → IsValid n c → IsValid (suc n) c
IsValid-suc n c h = record {
  few_requests = h.few_requests;
  few_clients = h.few_clients;
  ids_below = h.ids_below;
  ascending = h.ascending;
  next_bound = let b = h.next_bound in omega arith;
}

pub track-IsValid :
    (n : ℕ) (c : Context) (m : Message) (callback : Option ℕ) (now : ℕ)
    → n < 2 ^ 32 - 2
    → length c.requests < 50
    → IsValid n c
    → IsValid (suc n) (track c m callback now)
unfolding track
track-IsValid n c m none now small room h = IsValid-suc n c h
track-IsValid n c m (some callback) now small room h =
    let bound = h.next_bound in
    let next : (c.next_request_id + 1) % 2 ^ 32 ≡ c.next_request_id + 1 = omega arith in
    record {
      few_requests = omega (arith, length-append c.requests (_ ∷ []));
      few_clients = h.few_clients;
      ids_below = rw next (
          All-append (λ (q : Pending). q.id < c.next_request_id + 1) c.requests _
            (All-weaker (λ (q : Pending). q.id < c.next_request_id)
              (λ (q : Pending). q.id < c.next_request_id + 1) (λ x lt. omega arith) c.requests
              h.ids_below)
            (omega arith, tt));
      ascending = append-Ascending c.requests _ h.ids_below h.ascending;
      next_bound = omega arith;
    }
