-- ===== src/ExitQueue/Steps/Publishing.antt =====
-- The statements of exit_queue_push (src/daemon/argo_daemon_exit_queue.c) on the invariant.
use mathlib.Core.List.{append_assoc}
use argo.Base.{
  Bool, false, if◌then◌else◌, ℕ, suc, ◌+◌, ◌-◌, ◌%◌, ◌<◌, ◌≡◌, refl, sym, ap, ◌∙◌, true, List, [],
  ◌∷◌, ◌++◌, length, arith, length-set, get_or-set_self, get_or-set_ne, Bool-cases, inl, inr, ◌==◌,
}
use argo.ExitQueue.Steps.{
  Handler, Drainer, World, handler_step, slot_at, write_slot, resting, loaded, refusing,
  incrementing, has_room, wrote_pid, wrote_code, wrote_time, wrote_valid, waiting, nonempty,
  reading, checked, copied, cleared, counted,
}
use argo.ExitQueue.{Slot, Queue, queue_size, zero_slot}
use argo.ExitQueue.Fifo.{fill, pushed, window-set, window-suc, All-append}
use argo.ExitQueue.Steps.Invariant.{
  Ok, Holds, HandlerOk, DrainerOk, CountOk, in_hand, skip, pending, skip_le, skip_bound,
}

-- A write into the slot behind the window changes nothing for the task.
pending-write_slot :
    (q : Queue) (d : Drainer) (v : Slot)
    → q.write_idx < queue_size
    → q.read_idx < queue_size
    → fill q < 127
    → DrainerOk d q
    → pending (write_slot q q.write_idx v) d ≡ pending q d
pending-write_slot q d v hw hr room ok =
    let le = skip_le q d ok in
    let small = skip_bound d in
    ap (◌++◌ (in_hand d)) (
      window-set q.entries ((q.read_idx + skip d) % queue_size) (fill q - skip d) q.write_idx v
        (omega arith) hw (omega arith))

DrainerOk-write_slot :
    (q : Queue) (d : Drainer) (v : Slot)
    → q.write_idx < queue_size
    → q.read_idx < queue_size
    → DrainerOk d q
    → DrainerOk d (write_slot q q.write_idx v)
DrainerOk-write_slot q waiting v hw hr ok = ok
DrainerOk-write_slot q nonempty v hw hr ok = ok
DrainerOk-write_slot q (reading i) v hw hr ok = ok
DrainerOk-write_slot q (checked i) v hw hr ok = ok
DrainerOk-write_slot q (copied i e) v hw hr ok = (
  ok.0,
  ok.1,
  ok.2 ∙ sym (get_or-set_ne q.entries q.write_idx q.read_idx v zero_slot (λ same. omega arith)),
)
DrainerOk-write_slot q (cleared i e) v hw hr ok = ok
DrainerOk-write_slot q (counted n) v hw hr ok = ok

-- A write of the handler into its slot keeps everything but what it says of the handler.
Ok-write_slot :
    (q : Queue) (h h' : Handler) (d : Drainer) (i : ℕ) (v : Slot) {taken given : List Slot}
    {refused unmarked : ℕ} {was_reset : Bool}
    → Ok q h d taken given refused was_reset unmarked
    → i ≡ q.write_idx
    → fill q < 127
    → HandlerOk h' (write_slot q i v)
    → CountOk h' q.dropped refused was_reset
    → Ok (write_slot q i v) h' d taken given refused was_reset unmarked
Ok-write_slot q h h' d i v ok here room done count =
    let same : pending (write_slot q i v) d ≡ pending q d =
      rw here (pending-write_slot q d v ok.write_bound ok.read_bound room ok.in_drainer) in
    record {
      sized = length-set q.entries i v ∙ ok.sized;
      write_bound = ok.write_bound;
      read_bound = ok.read_bound;
      in_handler = done;
      in_drainer = rw here (DrainerOk-write_slot q d v ok.write_bound ok.read_bound ok.in_drainer);
      marked = rw same ok.marked;
      in_order = rw same ok.in_order;
      none_unmarked = ok.none_unmarked;
      in_count = count;
      dropped_le = ok.dropped_le;
      exact = ok.exact;
    }

slot_at-write_slot :
    (q : Queue) (i : ℕ) (v : Slot)
    → i ≡ q.write_idx
    → q.write_idx < queue_size
    → length q.entries ≡ queue_size
    → slot_at (write_slot q i v) i ≡ v
slot_at-write_slot q i v here hw sized = get_or-set_self q.entries i v zero_slot (omega arith)

-- Advancing the write index puts the slot behind the window at the end of what is pending.
pending_published :
    (q : Queue) (d : Drainer)
    → q.write_idx < queue_size
    → q.read_idx < queue_size
    → fill q < 127
    → DrainerOk d q
    → pending (record q { write_idx = (q.write_idx + 1) % queue_size }) d
      ≡ pending q d ++ slot_at q q.write_idx ∷ []
pending_published q d hw hr room ok =
    let le = skip_le q d ok in
    let small = skip_bound d in
    let grows : fill (record q { write_idx = (q.write_idx + 1) % queue_size }) - skip d
        ≡ suc (fill q - skip d) =
      omega arith in
    let last : ((q.read_idx + skip d) % queue_size + (fill q - skip d)) % queue_size ≡ q.write_idx =
      omega arith in
    rw grows (
      ap (◌++◌ (in_hand d)) (
        window-suc q.entries ((q.read_idx + skip d) % queue_size) (fill q - skip d) (omega arith)
        ∙ rw last refl)
      ∙ sym (append_assoc (in_hand d) _ _))

DrainerOk-published :
    (q : Queue) (d : Drainer)
    → q.write_idx < queue_size
    → q.read_idx < queue_size
    → fill q < 127
    → DrainerOk d q
    → DrainerOk d (record q { write_idx = (q.write_idx + 1) % queue_size })
DrainerOk-published q waiting hw hr room ok = ok
DrainerOk-published q nonempty hw hr room ok = omega arith
DrainerOk-published q (reading i) hw hr room ok = (ok.0, omega arith)
DrainerOk-published q (checked i) hw hr room ok = (ok.0, omega arith)
DrainerOk-published q (copied i e) hw hr room ok = (ok.0, omega arith, ok.2)
DrainerOk-published q (cleared i e) hw hr room ok = (ok.0, omega arith)
DrainerOk-published q (counted n) hw hr room ok = ok

Ok-published :
    (q : Queue) (d : Drainer) (p c t : ℕ) {taken given : List Slot} {refused unmarked : ℕ}
    {was_reset : Bool}
    → Ok q (wrote_valid p c q.write_idx t) d taken given refused was_reset unmarked
    → Ok
        (record q { write_idx = (q.write_idx + 1) % queue_size })
        resting
        d
        (taken ++ pushed p c t ∷ [])
        given
        refused
        was_reset
        unmarked
Ok-published q d p c t {taken} {given} ok =
    let room = ok.in_handler.1 in
    let more =
      pending_published q d ok.write_bound ok.read_bound room ok.in_drainer
      ∙ ap (λ (e : Slot). pending q d ++ e ∷ []) ok.in_handler.2 in
    record {
      sized = ok.sized;
      write_bound = omega arith;
      read_bound = ok.read_bound;
      in_handler = tt;
      in_drainer = DrainerOk-published q d ok.write_bound ok.read_bound room ok.in_drainer;
      marked = rw more (All-append (λ e. e.valid ≡ true) (pending q d) _ ok.marked (refl, tt));
      in_order =
          rw more (sym (append_assoc given _ _) ∙ ap (λ l. l ++ pushed p c t ∷ []) ok.in_order);
      none_unmarked = ok.none_unmarked;
      in_count = tt;
      dropped_le = ok.dropped_le;
      exact = ok.exact;
    }

DrainerOk-refused :
    (q : Queue) (d : Drainer) (n : ℕ) → DrainerOk d q → DrainerOk d (record q { dropped = n })
DrainerOk-refused q waiting n ok = ok
DrainerOk-refused q nonempty n ok = ok
DrainerOk-refused q (reading i) n ok = ok
DrainerOk-refused q (checked i) n ok = ok
DrainerOk-refused q (copied i e) n ok = ok
DrainerOk-refused q (cleared i e) n ok = ok
DrainerOk-refused q (counted m) n ok = ok

counted_exactly :
    (n dropped refused : ℕ) (was_reset : Bool)
    → (if was_reset then n else dropped) ≡ n
    → (if was_reset then refused else dropped) ≡ refused
    → (if was_reset then refused + 1 else n + 1) ≡ refused + 1
counted_exactly n dropped refused true same exact = refl
counted_exactly n dropped refused false same exact = omega arith

-- The store of the incremented counter.
Ok-refused :
    (q : Queue) (n : ℕ) (d : Drainer) {taken given : List Slot} {refused unmarked : ℕ}
    {was_reset : Bool}
    → Ok q (incrementing n) d taken given refused was_reset unmarked
    → Ok (record q { dropped = n + 1 }) resting d taken given (refused + 1) was_reset unmarked
Ok-refused q n d {refused = refused} {was_reset = was_reset} ok =
    let le = ok.in_count.0 in
    record {
      sized = ok.sized;
      write_bound = ok.write_bound;
      read_bound = ok.read_bound;
      in_handler = tt;
      in_drainer = DrainerOk-refused q d (n + 1) ok.in_drainer;
      marked = ok.marked;
      in_order = ok.in_order;
      none_unmarked = ok.none_unmarked;
      in_count = tt;
      dropped_le = omega arith;
      exact = counted_exactly n q.dropped refused was_reset ok.in_count.1 ok.exact;
    }

-- A step of the handler that only moves it on.
pub Ok-handler :
    (q : Queue) (h h' : Handler) (d : Drainer) {taken given : List Slot} {refused unmarked : ℕ}
    {was_reset : Bool}
    → Ok q h d taken given refused was_reset unmarked
    → HandlerOk h' q
    → CountOk h' q.dropped refused was_reset
    → Ok q h' d taken given refused was_reset unmarked
Ok-handler q h h' d ok done count = record {
  sized = ok.sized;
  write_bound = ok.write_bound;
  read_bound = ok.read_bound;
  in_handler = done;
  in_drainer = ok.in_drainer;
  marked = ok.marked;
  in_order = ok.in_order;
  none_unmarked = ok.none_unmarked;
  in_count = count;
  dropped_le = ok.dropped_le;
  exact = ok.exact;
}

pushed_fields :
    (e : Slot) (p c t : ℕ)
    → e.pid ≡ p
    → e.exit_code ≡ c
    → e.timestamp ≡ t
    → record e { valid = true } ≡ pushed p c t
pushed_fields e p c t hp hc ht = rw (hp, hc, ht) refl

pub handler_step-Holds :
    (w : World) (h : Handler) (now : ℕ)
    → Ok w.queue h w.drainer w.taken_in w.given_out w.refused w.was_reset w.unmarked
    → w.handler ≡ h
    → Holds (handler_step w h now)
unfolding handler_step
handler_step-Holds w resting now ok at = rw at ok
handler_step-Holds w (loaded p c i) now ok at =
    elim (Bool-cases ((i + 1) % queue_size == w.queue.read_idx)) [
      | inl full ↦ rw full (Ok-handler w.queue (loaded p c i) refusing w.drainer ok tt tt)
      | inr free ↦
          let here = ok.in_handler in
          let hr = ok.read_bound in
          let hw = ok.write_bound in
          rw free (
            Ok-handler w.queue (loaded p c i) (has_room p c i) w.drainer ok (here, ground arith) tt)
    ]
handler_step-Holds w refusing now ok at =
    let n = w.queue.dropped in
    Ok-handler w.queue refusing (incrementing n) w.drainer ok tt
      (ok.dropped_le, either_way w.was_reset n)
  where
    either_way : (b : Bool) (n : ℕ) → (if b then n else n) ≡ n
    either_way true n = refl
    either_way false n = refl
handler_step-Holds w (incrementing n) now ok at = Ok-refused w.queue n w.drainer ok
handler_step-Holds w (has_room p c i) now ok at =
    let here = ok.in_handler.0 in
    let room = ok.in_handler.1 in
    let v = record (slot_at w.queue i) { pid = p } in
    let slot = slot_at-write_slot w.queue i v here ok.write_bound ok.sized in
    Ok-write_slot w.queue (has_room p c i) (wrote_pid p c i) w.drainer i v ok here room
      (here, room, ap (λ (e : Slot). e.pid) slot) tt
handler_step-Holds w (wrote_pid p c i) now ok at =
    let here = ok.in_handler.0 in
    let room = ok.in_handler.1 in
    let v = record (slot_at w.queue i) { exit_code = c } in
    let slot = slot_at-write_slot w.queue i v here ok.write_bound ok.sized in
    Ok-write_slot w.queue (wrote_pid p c i) (wrote_code p c i) w.drainer i v ok here room
      (
        here,
        room,
        ap (λ (e : Slot). e.pid) slot ∙ ok.in_handler.2,
        ap (λ (e : Slot). e.exit_code) slot,
      )
      tt
handler_step-Holds w (wrote_code p c i) now ok at =
    let here = ok.in_handler.0 in
    let room = ok.in_handler.1 in
    let v = record (slot_at w.queue i) { timestamp = now } in
    let slot = slot_at-write_slot w.queue i v here ok.write_bound ok.sized in
    Ok-write_slot w.queue (wrote_code p c i) (wrote_time p c i now) w.drainer i v ok here room
      (
        here,
        room,
        ap (λ (e : Slot). e.pid) slot ∙ ok.in_handler.2,
        ap (λ (e : Slot). e.exit_code) slot ∙ ok.in_handler.3,
        ap (λ (e : Slot). e.timestamp) slot,
      )
      tt
handler_step-Holds w (wrote_time p c i t) now ok at =
    let here = ok.in_handler.0 in
    let room = ok.in_handler.1 in
    let v = record (slot_at w.queue i) { valid = true } in
    let slot = slot_at-write_slot w.queue i v here ok.write_bound ok.sized in
    Ok-write_slot w.queue (wrote_time p c i t) (wrote_valid p c i t) w.drainer i v ok here room
      (
        here,
        room,
        slot
            ∙ pushed_fields (slot_at w.queue i) p c t ok.in_handler.2 ok.in_handler.3
                ok.in_handler.4,
      )
      tt
handler_step-Holds w (wrote_valid p c i t) now ok at =
    let here = ok.in_handler.0 in rw here (Ok-published w.queue w.drainer p c t (rw here at ok))
