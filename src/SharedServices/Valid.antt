-- ===== src/SharedServices/Valid.antt =====
-- The invariant of the task table of src/daemon/argo_shared_services.c.
use argo.Base.{
  ℕ, zero, suc, ◌≤◌, ◌≡◌, refl, ap, Bool, true, false, List, [], ◌∷◌, ◌++◌, none, some, arith, ◌==◌,
  if◌then◌else◌, length, length-append,
}
use argo.SharedServices.{
  Task, Services, max_tasks, has_fn, shift_down, set_enabled, Op, register_op, unregister_op,
  enable_op, step, steps, stamp, visit,
}

abbrev pub Distinct : List Task → Type 0
Distinct [] = Unit
Distinct (t ∷ ts) = (has_fn t.fn ts ≡ false) × Distinct ts

pub record IsValid (s : Services) : Type 0 where
  pub bounded : length s.tasks ≤ max_tasks
  pub distinct : Distinct s.tasks

has_fn-append :
    (f : ℕ) (ts : List Task) (t : Task)
    → has_fn f (ts ++ t ∷ []) ≡ (if has_fn f ts then true else t.fn == f)
unfolding has_fn
has_fn-append f [] t = ground arith
has_fn-append f (u ∷ ts) t = ground (arith, has_fn-append f ts t)

Distinct-append :
    (ts : List Task) (t : Task) → Distinct ts → has_fn t.fn ts ≡ false → Distinct (ts ++ t ∷ [])
unfolding has_fn
Distinct-append [] t d h = (refl, tt)
Distinct-append (u ∷ ts) t d h = ground (arith, Distinct-append ts t d.1, has_fn-append u.fn ts t)

has_fn-shift_down :
    (f g : ℕ) (ts : List Task) → has_fn g ts ≡ false → has_fn g (shift_down f ts) ≡ false
unfolding has_fn shift_down
has_fn-shift_down f g [] h = refl
has_fn-shift_down f g (t ∷ ts) h = ground (arith, has_fn-shift_down f g ts)

shift_down-Distinct : (f : ℕ) (ts : List Task) → Distinct ts → Distinct (shift_down f ts)
unfolding shift_down
shift_down-Distinct f [] d = tt
shift_down-Distinct f (t ∷ ts) d =
    ground (arith, shift_down-Distinct f ts d.1, has_fn-shift_down f t.fn ts)

length-shift_down : (f : ℕ) (ts : List Task) → length (shift_down f ts) ≤ length ts
unfolding shift_down
length-shift_down f [] = omega arith
length-shift_down f (t ∷ ts) = ground (arith, length-shift_down f ts)

has_fn-set_enabled :
    (f g : ℕ) (on : Bool) (ts : List Task) → has_fn g (set_enabled f on ts) ≡ has_fn g ts
unfolding has_fn set_enabled
has_fn-set_enabled f g on [] = refl
has_fn-set_enabled f g on (t ∷ ts) = ground (arith, has_fn-set_enabled f g on ts)

set_enabled-Distinct :
    (f : ℕ) (on : Bool) (ts : List Task) → Distinct ts → Distinct (set_enabled f on ts)
unfolding set_enabled
set_enabled-Distinct f on [] d = tt
set_enabled-Distinct f on (t ∷ ts) d =
    ground (arith, set_enabled-Distinct f on ts d.1, has_fn-set_enabled f t.fn on ts)

length-set_enabled : (f : ℕ) (on : Bool) (ts : List Task) → length (set_enabled f on ts) ≡ length ts
unfolding set_enabled
length-set_enabled f on [] = refl
length-set_enabled f on (t ∷ ts) = ground (arith, length-set_enabled f on ts)

step-IsValid : (s : Services) (o : Op) → IsValid s → IsValid (step s o)
unfolding step
step-IsValid s (register_op none context interval now) h = h
step-IsValid s (register_op (some f) context interval now) h =
    let t : Task = record {
      fn = f;
      context = context;
      interval_sec = interval;
      last_run = now;
      enabled = true;
    } in
    ground (arith, length-append s.tasks (t ∷ []), Distinct-append s.tasks t h.distinct)
step-IsValid s (unregister_op none) h = h
step-IsValid s (unregister_op (some f)) h =
    ground (arith, length-shift_down f s.tasks, shift_down-Distinct f s.tasks h.distinct)
step-IsValid s (enable_op none on) h = h
step-IsValid s (enable_op (some f) on) h =
    ground (arith, length-set_enabled f on s.tasks, set_enabled-Distinct f on s.tasks h.distinct)

steps-IsValid : (s : Services) (os : List Op) → IsValid s → IsValid (steps s os)
unfolding steps
steps-IsValid s [] h = h
steps-IsValid s (o ∷ os) h = steps-IsValid (step s o) os (step-IsValid s o h)

has_fn-stamp : (i now g : ℕ) (ts : List Task) → has_fn g (stamp i now ts) ≡ has_fn g ts
unfolding has_fn stamp
has_fn-stamp i now g [] = refl
has_fn-stamp zero now g (t ∷ ts) = refl
has_fn-stamp (suc i) now g (t ∷ ts) = ground (arith, has_fn-stamp i now g ts)

stamp-Distinct : (i now : ℕ) (ts : List Task) → Distinct ts → Distinct (stamp i now ts)
unfolding stamp
stamp-Distinct i now [] d = tt
stamp-Distinct zero now (t ∷ ts) d = d
stamp-Distinct (suc i) now (t ∷ ts) d =
    ground (arith, has_fn-stamp i now t.fn ts, stamp-Distinct i now ts d.1)

length-stamp : (i now : ℕ) (ts : List Task) → length (stamp i now ts) ≡ length ts
unfolding stamp
length-stamp i now [] = refl
length-stamp zero now (t ∷ ts) = refl
length-stamp (suc i) now (t ∷ ts) = ap suc (length-stamp i now ts)

-- Registrations, removals and switches by any thread, before and while the background thread
-- visits a slot, keep the table at 32 tasks or fewer with no function twice.
pub visit-IsValid :
    (s : Services) (before during : List Op) (i : ℕ) (t : Task) (now later : ℕ)
    → IsValid s
    → IsValid (visit (steps s before) i t now later during).0
unfolding visit
visit-IsValid s before during i t now later h =
    let b = steps-IsValid s before h in
    let d = steps-IsValid (steps s before) during b in
    let last = (steps (steps s before) during).tasks in
    ground (arith, b, d, length-stamp i later last, stamp-Distinct i later last)
