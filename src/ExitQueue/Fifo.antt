-- ===== src/ExitQueue/Fifo.antt =====
-- The ring of src/daemon/argo_daemon_exit_queue.c against a bounded first-in first-out list.
use argo.Base.{
  ◌↔◌, ℕ, zero, suc, ◌+◌, ◌-◌, ◌%◌, ◌≤◌, ◌<◌, ◌≡◌, refl, ap, Bool, true, false, List, [], ◌∷◌, ◌++◌,
  Option, none, some, arith, ltb, if◌then◌else◌, length, get_or, set, length-set, get_or-set_self,
  get_or-set_ne, All, Bool-cases, inl, inr, ◌∙◌,
}
use argo.ExitQueue.{Slot, Queue, queue_size, zero_slot, init, push, pop, is_empty}

-- The slots of the window of `n` slots from index `i`.
abbrev pub window : List Slot → ℕ → ℕ → List Slot
window entries i zero = []
window entries i (suc n) = get_or entries i zero_slot ∷ window entries ((i + 1) % queue_size) n

abbrev pub fill : Queue → ℕ
fill q = (q.write_idx + queue_size - q.read_idx) % queue_size

-- What the queue holds, oldest first.
abbrev pub contents : Queue → List Slot
contents q = window q.entries q.read_idx (fill q)

pub record IsValid (q : Queue) : Type 0 where
  pub sized : length q.entries ≡ queue_size
  pub write_bound : q.write_idx < queue_size
  pub read_bound : q.read_idx < queue_size
  pub marked : All (λ e. e.valid ≡ true) (contents q)

pub init-IsValid : IsValid init
unfolding init
init-IsValid = ground arith

-- A write at an index outside the window leaves the window alone.
pub window-set :
    (es : List Slot) (i n w : ℕ) (v : Slot)
    → i < queue_size
    → w < queue_size
    → n ≤ (w + queue_size - i) % queue_size
    → window (set es w v) i n ≡ window es i n
window-set es i zero w v hi hw hn = refl
window-set es i (suc n) w v hi hw hn =
    ground (arith, get_or-set_ne es w i v zero_slot, window-set es ((i + 1) % queue_size) n w v)

-- The window grows at its far end.
pub window-suc :
    (es : List Slot) (i n : ℕ)
    → i < queue_size
    → window es i (suc n) ≡ window es i n ++ get_or es ((i + n) % queue_size) zero_slot ∷ []
window-suc es i zero hi = let same : (i + 0) % queue_size ≡ i = omega arith in rw same
window-suc es i (suc n) hi =
    let same : ((i + 1) % queue_size + n) % queue_size ≡ (i + suc n) % queue_size = omega arith in
    ap (◌∷◌ (get_or es i zero_slot))
      (rw (← same) (window-suc es ((i + 1) % queue_size) n (omega arith)))

-- The window after its first slot does not see a write at its first index.
pub window-set_first :
    (es : List Slot) (i n : ℕ) (v : Slot)
    → i < queue_size
    → n < queue_size
    → window (set es i v) ((i + 1) % queue_size) n ≡ window es ((i + 1) % queue_size) n
window-set_first es i n v hi hn =
    window-set es ((i + 1) % queue_size) n i v (omega arith) hi (omega arith)

pub length-window : (es : List Slot) (i n : ℕ) → length (window es i n) ≡ n
length-window es i zero = refl
length-window es i (suc n) = ap suc (length-window es ((i + 1) % queue_size) n)

pub length-contents : (q : Queue) → length (contents q) ≡ fill q
length-contents q = length-window q.entries q.read_idx (fill q)

pub All-append : (P : Slot → Type 0) (xs ys : List Slot) → All P xs → All P ys → All P (xs ++ ys)
All-append P [] ys hx hy = hy
All-append P (x ∷ xs) ys hx hy = (hx.0, All-append P xs ys hx.1 hy)

-- The slot that a push writes.
abbrev pub pushed : ℕ → ℕ → ℕ → Slot
pushed pid exit_code now = record {
  pid = pid;
  exit_code = exit_code;
  timestamp = now;
  valid = true;
}

-- One slot of the ring always stays free, so it holds 127 entries.
abbrev pub has_room : Queue → Bool
has_room q = ltb (length (contents q)) 127

window_pushed :
    (es : List Slot) (w r n : ℕ) (v : Slot)
    → length es ≡ queue_size
    → w < queue_size
    → r < queue_size
    → (r + n) % queue_size ≡ w
    → n < 127
    → window (set es w v) r (suc n) ≡ window es r n ++ v ∷ []
window_pushed es w r n v sized hw hr e hn =
    window-suc (set es w v) r n hr
    ∙ rw (e, window-set es r n w v hr hw (omega arith))
        (ap (λ (x : Slot). window es r n ++ x ∷ [])
          (get_or-set_self es w v zero_slot (omega arith)))

-- The state after an accepted push.
abbrev accepted : Queue → Slot → Queue
accepted q v = record q {
  entries = set q.entries q.write_idx v;
  write_idx = (q.write_idx + 1) % queue_size;
}

push-accepted :
    (q : Queue) (p c t : ℕ)
    → IsValid q
    → fill q < 127
    → push q p c t ≡ (accepted q (pushed p c t), true)
unfolding push
push-accepted q p c t v h = ground arith

push_refused :
    (q : Queue) (p c t : ℕ)
    → IsValid q
    → 127 ≤ fill q
    → push q p c t ≡ (record q { dropped = q.dropped + 1 }, false)
unfolding push
push_refused q p c t v h = ground arith

accepted-contents :
    (q : Queue) (v : Slot)
    → IsValid q
    → fill q < 127
    → contents (accepted q v) ≡ contents q ++ v ∷ []
accepted-contents q v h room =
    let grows : fill (accepted q v) ≡ suc (fill q) = omega arith in
    rw grows (
      window_pushed q.entries q.write_idx q.read_idx (fill q) v h.sized h.write_bound h.read_bound
        (omega arith) room)

pub push-IsValid : (q : Queue) (p c t : ℕ) → IsValid q → IsValid (push q p c t).0
push-IsValid q p c t h = elim (Bool-cases (ltb (fill q) 127)) [
  | inl room ↦
      let lt : fill q < 127 = ground arith in
      rw (push-accepted q p c t h lt) (record {
        sized = length-set q.entries q.write_idx _ ∙ h.sized;
        write_bound = omega arith;
        read_bound = h.read_bound;
        marked =
            rw (accepted-contents q (pushed p c t) h lt)
              (All-append (λ e. e.valid ≡ true) (contents q) _ h.marked (refl, tt));
      })
  | inr full ↦
      let ge : 127 ≤ fill q = ground arith in
      rw (push_refused q p c t h ge) (record {
        sized = h.sized;
        write_bound = h.write_bound;
        read_bound = h.read_bound;
        marked = h.marked;
      })
]

-- What a push onto a valid queue does to the list of held entries, to the dropped counter and to
-- the caller. With fewer than 127 entries held the new one goes to the end; otherwise nothing is
-- stored, the counter grows by one and the caller is told `false`.
pub push-contents :
    (q : Queue) (p c t : ℕ)
    → IsValid q
    → (contents (push q p c t).0
        ≡ (if has_room q then contents q ++ pushed p c t ∷ [] else contents q))
      × ((push q p c t).0.dropped ≡ (if has_room q then q.dropped else q.dropped + 1))
      × ((push q p c t).1 ≡ has_room q)
push-contents q p c t h = elim (Bool-cases (ltb (fill q) 127)) [
  | inl room ↦
      let lt : fill q < 127 = ground arith in
      rw (push-accepted q p c t h lt, length-contents q, room)
        (accepted-contents q (pushed p c t) h lt, refl, refl)
  | inr full ↦
      let ge : 127 ≤ fill q = ground arith in
      rw (push_refused q p c t h ge, length-contents q, full) (refl, refl, refl)
]

-- The state after a successful pop.
abbrev popped : Queue → Slot → Queue
popped q e = record q {
  entries = set q.entries q.read_idx (record e { valid = false });
  read_idx = (q.read_idx + 1) % queue_size;
}

abbrev pub front : Queue → Slot
front q = get_or q.entries q.read_idx zero_slot

pub contents_cons :
    (q : Queue) {n : ℕ}
    → fill q ≡ suc n
    → contents q ≡ front q ∷ window q.entries ((q.read_idx + 1) % queue_size) n
contents_cons q e = rw e

popped-contents :
    (q : Queue) (n : ℕ)
    → IsValid q
    → fill q ≡ suc n
    → contents (popped q (front q)) ≡ window q.entries ((q.read_idx + 1) % queue_size) n
popped-contents q n h e =
    let shrinks : fill (popped q (front q)) ≡ n = omega arith in
    rw shrinks (window-set_first q.entries q.read_idx n _ h.read_bound (omega arith))

pop_empty : (q : Queue) → IsValid q → fill q ≡ 0 → pop q ≡ (q, none)
unfolding pop
pop_empty q h e = ground arith

pop-front :
    (q : Queue) {n : ℕ} → IsValid q → fill q ≡ suc n → pop q ≡ (popped q (front q), some (front q))
unfolding pop
pop-front q h e =
    let first : (front q).valid ≡ true = (rw (contents_cons q e) at h.marked).0 in ground arith

pub pop-IsValid : (q : Queue) → IsValid q → IsValid (pop q).0
pop-IsValid q h = split (fill q) refl
  where
    split : (n : ℕ) → fill q ≡ n → IsValid (pop q).0
    split zero e = rw (pop_empty q h e) h
    split (suc n) e = rw (pop-front q h e) (record {
      sized = length-set q.entries q.read_idx _ ∙ h.sized;
      write_bound = h.write_bound;
      read_bound = omega arith;
      marked = rw (popped-contents q n h e) (rw (contents_cons q e) at h.marked).1;
    })

-- What a pop hands over, in front of what the queue still holds.
abbrev pub handed : Option Slot → List Slot
handed none = []
handed (some e) = e ∷ []

abbrev pub oldest : List Slot → Option Slot
oldest [] = none
oldest (e ∷ es) = some e

-- A pop of a valid queue returns the oldest held entry, or nothing from an empty queue; what it
-- returns and what the queue still holds are together what it held, in order; the dropped counter
-- stays.
pub pop-contents :
    (q : Queue)
    → IsValid q
    → ((pop q).1 ≡ oldest (contents q))
      × (handed (pop q).1 ++ contents (pop q).0 ≡ contents q)
      × ((pop q).0.dropped ≡ q.dropped)
pop-contents q h = split (fill q) refl
  where
    split :
        (n : ℕ)
        → fill q ≡ n
        → ((pop q).1 ≡ oldest (contents q))
          × (handed (pop q).1 ++ contents (pop q).0 ≡ contents q)
          × ((pop q).0.dropped ≡ q.dropped)
    split zero e = rw (pop_empty q h e) ((rw e), refl, refl)
    split (suc n) e =
        rw (pop-front q h e, contents_cons q e, popped-contents q n h e) (refl, refl, refl)

pub oldest-none : (es : List Slot) → oldest es ≡ none → es ≡ []
oldest-none [] h = refl
oldest-none (e ∷ es) h = absurd (cc)

-- The test for emptiness agrees with the contents.
pub is_empty_iff : (q : Queue) → IsValid q → (is_empty q ≡ true) ↔ (length (contents q) ≡ 0)
unfolding is_empty
is_empty_iff q h = rw (length-contents q) (ground arith)
