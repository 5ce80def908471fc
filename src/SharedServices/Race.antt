-- ===== src/SharedServices/Race.antt =====
-- A task that is taken out of the table while it runs (src/daemon/argo_shared_services.c).
use argo.Base.{ℕ, ◌≡◌, refl, true, false, List, [], ◌∷◌, ◌++◌, some, arith, length}
use argo.SharedServices.{Task, Services, has_fn, shift_down, unregister_op, stamp, is_due, visit}

has_fn_self : (ts : List Task) (t : Task) (rest : List Task) → has_fn t.fn (ts ++ t ∷ rest) ≡ true
unfolding has_fn
has_fn_self [] t rest = ground arith
has_fn_self (u ∷ ts) t rest = ground (arith, has_fn_self ts t rest)

shift_down_at :
    (ts : List Task) (t : Task) (rest : List Task)
    → has_fn t.fn ts ≡ false
    → shift_down t.fn (ts ++ t ∷ rest) ≡ ts ++ rest
unfolding has_fn shift_down
shift_down_at [] t rest h = ground arith
shift_down_at (u ∷ ts) t rest h = ground (arith, shift_down_at ts t rest)

stamp_at :
    (ts : List Task) (u : Task) (rest : List Task) (now : ℕ)
    → stamp (length ts) now (ts ++ u ∷ rest) ≡ ts ++ record u { last_run = now } ∷ rest
unfolding stamp
stamp_at [] u rest now = refl
stamp_at (t ∷ ts) u rest now = ground (arith, stamp_at ts u rest now)

-- A due task that another thread unregisters while it runs, in a table where no earlier slot has
-- its function: the tasks behind it move down, and the time of its run is written into the one that
-- took its slot, which has not run at all.
pub visit_unregistered :
    (s : Services) (ts rest : List Task) (t u : Task) (now later : ℕ)
    → s.tasks ≡ ts ++ t ∷ u ∷ rest
    → has_fn t.fn ts ≡ false
    → is_due now t ≡ true
    → ((visit s (length ts) t now later (unregister_op (some t.fn) ∷ [])).0.tasks
        ≡ ts ++ record u { last_run = later } ∷ rest)
      × ((visit s (length ts) t now later (unregister_op (some t.fn) ∷ [])).1 ≡ some t.fn)
unfolding visit
visit_unregistered s ts rest t u now later at new due = ground (
  arith,
  at,
  has_fn_self ts t (u ∷ rest),
  shift_down_at ts t (u ∷ rest),
  stamp_at ts u rest later,
)
