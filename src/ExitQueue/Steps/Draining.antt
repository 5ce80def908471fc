-- ===== src/ExitQueue/Steps/Draining.antt =====
-- The statements of exit_queue_pop and exit_queue_get_dropped
-- (src/daemon/argo_daemon_exit_queue.c) on the invariant.
use mathlib.Core.List.{append_assoc}
use argo.Base.{
  Bool, ℕ, suc, ◌+◌, ◌-◌, ◌%◌, ◌≤◌, ◌<◌, ◌≡◌, refl, sym, ap, ◌∙◌, true, false, List, [], ◌∷◌, ◌++◌,
  length, arith, All, length-set, get_or-set_ne,
}
use argo.ExitQueue.Steps.{
  Handler, Drainer, World, drainer_step, slot_at, write_slot, resting, loaded, refusing,
  incrementing, has_room, wrote_pid, wrote_code, wrote_time, wrote_valid, waiting, nonempty,
  reading, checked, copied, cleared, counted,
}
use argo.ExitQueue.{Slot, Queue, queue_size, zero_slot}
use argo.ExitQueue.Fifo.{window, fill, contents, front, window-set_first, contents_cons}
use argo.ExitQueue.Steps.Invariant.{
  Ok, Holds, HandlerOk, DrainerOk, CountOk, in_hand, skip, pending,
}

-- A step of the task that only moves it on, with nothing in its hand before or after.
pub Ok-drainer :
    (q : Queue) (h : Handler) (d d' : Drainer) {taken given : List Slot} {refused unmarked : ℕ}
    {was_reset : Bool}
    → Ok q h d taken given refused was_reset unmarked
    → in_hand d ≡ []
    → in_hand d' ≡ []
    → DrainerOk d' q
    → Ok q h d' taken given refused was_reset unmarked
Ok-drainer q h d d' ok empty empty' done =
    let same : pending q d' ≡ pending q d = rw (empty, empty') refl in
    record {
      sized = ok.sized;
      write_bound = ok.write_bound;
      read_bound = ok.read_bound;
      in_handler = ok.in_handler;
      in_drainer = done;
      marked = rw same ok.marked;
      in_order = rw same ok.in_order;
      none_unmarked = ok.none_unmarked;
      in_count = ok.in_count;
      dropped_le = ok.dropped_le;
      exact = ok.exact;
    }

-- Clearing the mark of the front slot.
HandlerOk-cleared :
    (q : Queue) (h : Handler) (v : Slot)
    → q.read_idx < queue_size
    → q.write_idx < queue_size
    → 1 ≤ fill q
    → HandlerOk h q
    → HandlerOk h (write_slot q q.read_idx v)
HandlerOk-cleared q h v hr hw some_held = split h
  where
    apart : (i : ℕ) → i ≡ q.write_idx → slot_at (write_slot q q.read_idx v) i ≡ slot_at q i
    apart i here = get_or-set_ne q.entries q.read_idx i v zero_slot (λ same. omega arith)

    split : (h : Handler) → HandlerOk h q → HandlerOk h (write_slot q q.read_idx v)
    split resting ok = ok
    split (loaded p c i) ok = ok
    split refusing ok = ok
    split (incrementing n) ok = ok
    split (has_room p c i) ok = ok
    split (wrote_pid p c i) ok = rw (apart i ok.0) ok
    split (wrote_code p c i) ok = rw (apart i ok.0) ok
    split (wrote_time p c i t) ok = rw (apart i ok.0) ok
    split (wrote_valid p c i t) ok = rw (apart i ok.0) ok

-- Releasing the front slot.
HandlerOk-released :
    (q : Queue) (h : Handler)
    → q.read_idx < queue_size
    → q.write_idx < queue_size
    → 1 ≤ fill q
    → HandlerOk h q
    → HandlerOk h (record q { read_idx = (q.read_idx + 1) % queue_size })
HandlerOk-released q resting hr hw held ok = ok
HandlerOk-released q (loaded p c i) hr hw held ok = ok
HandlerOk-released q refusing hr hw held ok = ok
HandlerOk-released q (incrementing n) hr hw held ok = ok
HandlerOk-released q (has_room p c i) hr hw held ok = (ok.0, omega arith)
HandlerOk-released q (wrote_pid p c i) hr hw held ok = (ok.0, omega arith, ok.2)
HandlerOk-released q (wrote_code p c i) hr hw held ok = (ok.0, omega arith, ok.2, ok.3)
HandlerOk-released q (wrote_time p c i t) hr hw held ok = (ok.0, omega arith, ok.2, ok.3, ok.4)
HandlerOk-released q (wrote_valid p c i t) hr hw held ok = (ok.0, omega arith, ok.2)

HandlerOk-reset : (q : Queue) (h : Handler) → HandlerOk h q → HandlerOk h (record q { dropped = 0 })
HandlerOk-reset q resting ok = ok
HandlerOk-reset q (loaded p c i) ok = ok
HandlerOk-reset q refusing ok = ok
HandlerOk-reset q (incrementing n) ok = ok
HandlerOk-reset q (has_room p c i) ok = ok
HandlerOk-reset q (wrote_pid p c i) ok = ok
HandlerOk-reset q (wrote_code p c i) ok = ok
HandlerOk-reset q (wrote_time p c i t) ok = ok
HandlerOk-reset q (wrote_valid p c i t) ok = ok

-- With nothing in hand what is pending is what the ring holds.
pending-in_hand :
    (q : Queue) (d : Drainer) → q.read_idx < queue_size → in_hand d ≡ [] → pending q d ≡ contents q
pending-in_hand q d hr empty =
    let no_skip : skip d ≡ 0 = ap length empty in
    let first : (q.read_idx + skip d) % queue_size ≡ q.read_idx = omega arith in
    let whole : fill q - skip d ≡ fill q = omega arith in rw (first, whole, empty) refl

pending_cons :
    (q : Queue) (d : Drainer)
    → q.read_idx < queue_size
    → 1 ≤ fill q
    → in_hand d ≡ []
    → pending q d ≡ front q ∷ window q.entries ((q.read_idx + 1) % queue_size) (fill q - 1)
pending_cons q d hr held empty =
    let one : fill q ≡ suc (fill q - 1) = omega arith in
    pending-in_hand q d hr empty ∙ contents_cons q one

All-same : (P : Slot → Type 0) (xs ys : List Slot) → xs ≡ ys → All P ys → All P xs
All-same P xs ys same h = rw same h

Ok-cleared :
    (q : Queue) (h : Handler) (e : Slot) {taken given : List Slot} {refused unmarked : ℕ}
    {was_reset : Bool}
    → Ok q h (copied q.read_idx e) taken given refused was_reset unmarked
    → Ok
        (write_slot q q.read_idx (record (front q) { valid = false }))
        h
        (cleared q.read_idx e)
        taken
        given
        refused
        was_reset
        unmarked
Ok-cleared q h e {taken} {given} ok =
    let held = ok.in_drainer.1 in
    let v = record (front q) { valid = false } in
    let same : pending (write_slot q q.read_idx v) (cleared q.read_idx e)
        ≡ pending q (copied q.read_idx e) =
      ap (◌∷◌ e) (window-set_first q.entries q.read_idx (fill q - 1) v ok.read_bound (omega arith))
      ∙ ap (λ (x : Slot). x ∷ window q.entries ((q.read_idx + 1) % queue_size) (fill q - 1))
          ok.in_drainer.2
      ∙ sym (pending_cons q (copied q.read_idx e) ok.read_bound held refl) in
    record {
      sized = length-set q.entries q.read_idx v ∙ ok.sized;
      write_bound = ok.write_bound;
      read_bound = ok.read_bound;
      in_handler = HandlerOk-cleared q h v ok.read_bound ok.write_bound held ok.in_handler;
      in_drainer = (refl, held);
      marked = All-same (λ x. x.valid ≡ true) _ _ same ok.marked;
      in_order = ap (◌++◌ given) same ∙ ok.in_order;
      none_unmarked = ok.none_unmarked;
      in_count = ok.in_count;
      dropped_le = ok.dropped_le;
      exact = ok.exact;
    }

pending_released :
    (q : Queue) (e : Slot)
    → q.read_idx < queue_size
    → q.write_idx < queue_size
    → 1 ≤ fill q
    → e ∷ pending (record q { read_idx = (q.read_idx + 1) % queue_size }) waiting
      ≡ pending q (cleared q.read_idx e)
pending_released q e hr hw held =
    let next : ((q.read_idx + 1) % queue_size + 0) % queue_size ≡ (q.read_idx + 1) % queue_size =
      omega arith in
    let shrinks : fill (record q { read_idx = (q.read_idx + 1) % queue_size }) - 0 ≡ fill q - 1 =
      omega arith in
    rw (next, shrinks) refl

All-rest : (P : Slot → Type 0) (e : Slot) (xs ys : List Slot) → e ∷ xs ≡ ys → All P ys → All P xs
All-rest P e xs ys same h = (rw (← same) at h).1

Ok-released :
    (q : Queue) (h : Handler) (e : Slot) {taken given : List Slot} {refused unmarked : ℕ}
    {was_reset : Bool}
    → Ok q h (cleared q.read_idx e) taken given refused was_reset unmarked
    → Ok
        (record q { read_idx = (q.read_idx + 1) % queue_size })
        h
        waiting
        taken
        (given ++ e ∷ [])
        refused
        was_reset
        unmarked
Ok-released q h e {taken} {given} ok =
    let held = ok.in_drainer.1 in
    let less = pending_released q e ok.read_bound ok.write_bound held in
    record {
      sized = ok.sized;
      write_bound = ok.write_bound;
      read_bound = omega arith;
      in_handler = HandlerOk-released q h ok.read_bound ok.write_bound held ok.in_handler;
      in_drainer = tt;
      marked = All-rest (λ e. e.valid ≡ true) e _ _ less ok.marked;
      in_order = append_assoc given _ _ ∙ ap (◌++◌ given) less ∙ ok.in_order;
      none_unmarked = ok.none_unmarked;
      in_count = ok.in_count;
      dropped_le = ok.dropped_le;
      exact = ok.exact;
    }

CountOk-reset :
    (h : Handler) (dropped refused : ℕ) (was_reset : Bool)
    → CountOk h dropped refused was_reset
    → CountOk h 0 refused true
CountOk-reset (incrementing n) dropped refused was_reset ok = (ok.0, refl)
CountOk-reset resting dropped refused was_reset ok = tt
CountOk-reset (loaded p c i) dropped refused was_reset ok = tt
CountOk-reset refusing dropped refused was_reset ok = tt
CountOk-reset (has_room p c i) dropped refused was_reset ok = tt
CountOk-reset (wrote_pid p c i) dropped refused was_reset ok = tt
CountOk-reset (wrote_code p c i) dropped refused was_reset ok = tt
CountOk-reset (wrote_time p c i t) dropped refused was_reset ok = tt
CountOk-reset (wrote_valid p c i t) dropped refused was_reset ok = tt

Ok-reset :
    (q : Queue) (h : Handler) (n : ℕ) {taken given : List Slot} {refused unmarked : ℕ}
    {was_reset : Bool}
    → Ok q h (counted n) taken given refused was_reset unmarked
    → Ok (record q { dropped = 0 }) h waiting taken given refused true unmarked
Ok-reset q h n {refused = refused} {was_reset = was_reset} ok = record {
  sized = ok.sized;
  write_bound = ok.write_bound;
  read_bound = ok.read_bound;
  in_handler = HandlerOk-reset q h ok.in_handler;
  in_drainer = tt;
  marked = ok.marked;
  in_order = ok.in_order;
  none_unmarked = ok.none_unmarked;
  in_count = CountOk-reset h q.dropped refused was_reset ok.in_count;
  dropped_le = omega arith;
  exact = refl;
}

pub drainer_step-Holds :
    (w : World) (d : Drainer)
    → Ok w.queue w.handler d w.taken_in w.given_out w.refused w.was_reset w.unmarked
    → w.drainer ≡ d
    → Holds (drainer_step w d)
unfolding drainer_step
drainer_step-Holds w waiting ok at = rw at ok
drainer_step-Holds w nonempty ok at =
    Ok-drainer w.queue w.handler nonempty (reading w.queue.read_idx) ok refl refl
      (refl, ok.in_drainer)
drainer_step-Holds w (reading i) ok at =
    let here = ok.in_drainer.0 in
    let first : (slot_at w.queue i).valid ≡ true =
      rw here
        (rw (pending_cons w.queue (reading i) ok.read_bound ok.in_drainer.1 refl) at ok.marked).0 in
    rw first (Ok-drainer w.queue w.handler (reading i) (checked i) ok refl refl ok.in_drainer)
drainer_step-Holds w (checked i) ok at =
    Ok-drainer w.queue w.handler (checked i) (copied i (slot_at w.queue i)) ok refl refl
      (ok.in_drainer.0, ok.in_drainer.1, ap (slot_at w.queue) ok.in_drainer.0)
drainer_step-Holds w (copied i e) ok at =
    let here = ok.in_drainer.0 in rw here (Ok-cleared w.queue w.handler e (rw here at ok))
drainer_step-Holds w (cleared i e) ok at =
    let here = ok.in_drainer.0 in rw here (Ok-released w.queue w.handler e (rw here at ok))
drainer_step-Holds w (counted n) ok at = Ok-reset w.queue w.handler n ok
