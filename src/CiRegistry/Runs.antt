-- ===== src/CiRegistry/Runs.antt =====
-- Whole runs of src/daemon/argo_registry.c, with registrations under allocated ports as
-- src/daemon/argo_lifecycle.c makes them.
use argo.Base.{
  ℕ, ◌≤◌, ◌≡◌, refl, sym, subst, Bool, List, [], ◌∷◌, Option, none, some, arith, Bytes, length, All,
}
use argo.Base.Nodes.{modify_node}
use argo.CiRegistry.{
  Status, Entry, Registry, name_of, create, add_ci, remove_ci, allocate_port, new_entry, write,
  with_status, update_status, with_heartbeat, heartbeat,
}
use argo.CiRegistry.Valid.{
  IsValid, create-IsValid, add_ci-IsValid, remove_ci-IsValid, update_status-IsValid,
  heartbeat-IsValid,
}
use argo.CiRegistry.Ports.{
  Free, PortsDistinct, PortsDistinct-remove, Allocates, allocate_port_lem, allocate_port-find,
}

abbrev pub IsSound : Registry → Type 0
IsSound r = IsValid r × PortsDistinct r.entries

add_ci-PortsDistinct :
    (r : Registry) (name role model : Bytes) (port : ℕ) (mem : Bool) (now : ℕ)
    → PortsDistinct r.entries
    → Free port r.entries
    → PortsDistinct (add_ci r (some name) (some role) (some model) port mem now).0.entries
unfolding add_ci new_entry
add_ci-PortsDistinct r name role model port mem now d f = ground arith

remove_ci-PortsDistinct :
    (r : Registry) (name : Option Bytes)
    → PortsDistinct r.entries
    → PortsDistinct (remove_ci r name).0.entries
unfolding remove_ci
remove_ci-PortsDistinct r none d = d
remove_ci-PortsDistinct r (some name) d = ground (arith, PortsDistinct-remove name r.entries d)

Free-modify :
    (p : ℕ) (name : Bytes) (f : Entry → Entry) (es : List Entry)
    → ((e : Entry) → (f e).port ≡ e.port)
    → Free p es
    → Free p (modify_node name_of name f es)
unfolding modify_node
Free-modify p name f [] keep h = tt
Free-modify p name f (e ∷ es) keep h = ground (arith, keep e, Free-modify p name f es keep)

PortsDistinct-modify :
    (name : Bytes) (f : Entry → Entry) (es : List Entry)
    → ((e : Entry) → (f e).port ≡ e.port)
    → PortsDistinct es
    → PortsDistinct (modify_node name_of name f es)
unfolding modify_node
PortsDistinct-modify name f [] keep h = tt
PortsDistinct-modify name f (e ∷ es) keep h =
    let kept : Free (f e).port es = subst (λ p. Free p es) (sym (keep e)) h.0 in
    ground (arith, kept, PortsDistinct-modify name f es keep, Free-modify e.port name f es keep)

update_status-PortsDistinct :
    (r : Registry) (name : Option Bytes) (s : Status)
    → PortsDistinct r.entries
    → PortsDistinct (update_status r name s).0.entries
unfolding update_status write with_status
update_status-PortsDistinct r none s d = d
update_status-PortsDistinct r (some name) s d =
    ground (arith, PortsDistinct-modify name (with_status s) r.entries (λ e. refl) d)

heartbeat-PortsDistinct :
    (r : Registry) (name : Option Bytes) (now : ℕ)
    → PortsDistinct r.entries
    → PortsDistinct (heartbeat r name now).0.entries
unfolding heartbeat write with_heartbeat
heartbeat-PortsDistinct r none now d = d
heartbeat-PortsDistinct r (some name) now d =
    ground (arith, PortsDistinct-modify name (with_heartbeat now) r.entries (λ e. refl) d)

-- The registration that follows an allocation.
abbrev enlist_at : Registry × Option ℕ → Bytes → Bytes → Bytes → Bool → ℕ → Registry
enlist_at (r, none) name role model mem now = r
enlist_at (r, some p) name role model mem now =
    (add_ci r (some name) (some role) (some model) p mem now).0

enlist_at-IsSound :
    (r : Registry) (x : Registry × Option ℕ) (name role model : Bytes) (mem : Bool) (now : ℕ)
    → PortsDistinct r.entries
    → IsValid x.0
    → Allocates r role x
    → length name ≤ 31
    → IsSound (enlist_at x name role model mem now)
enlist_at-IsSound r (r', none) name role model mem now d h a short =
    (h, subst (λ s. PortsDistinct s.entries) (sym a.0) d)
enlist_at-IsSound r (r', some p) name role model mem now d h (a, b, f, d') short = (
  add_ci-IsValid r' name role model p mem now h short,
  add_ci-PortsDistinct r' name role model p mem now d' f,
)

-- A registration names the CI, its role and its model.
pub data Op : Type 0 where
  enlist_op : Bytes → Bytes → Bytes → Bool → ℕ → Op
  remove_op : Option Bytes → Op
  status_op : Option Bytes → Status → Op
  heartbeat_op : Option Bytes → ℕ → Op

abbrev pub step : Registry → Op → Registry
step r (enlist_op name role model mem now) =
    enlist_at (allocate_port r (some role)) name role model mem now
step r (remove_op name) = (remove_ci r name).0
step r (status_op name s) = (update_status r name s).0
step r (heartbeat_op name now) = (heartbeat r name now).0

-- The name of a registered CI fits its field.
abbrev pub IsShort : Op → Type 0
IsShort (enlist_op name role model mem now) = length name ≤ 31
IsShort _ = Unit

step-IsSound : (r : Registry) (o : Op) → IsShort o → IsSound r → IsSound (step r o)
step-IsSound r (enlist_op name role model mem now) short (h, d) =
    enlist_at-IsSound r (allocate_port r (some role)) name role model mem now d
      (allocate_port-find r role name h).0 (allocate_port_lem r role h d) short
step-IsSound r (remove_op name) short (h, d) =
    (remove_ci-IsValid r name h, remove_ci-PortsDistinct r name d)
step-IsSound r (status_op name s) short (h, d) =
    (update_status-IsValid r name s h, update_status-PortsDistinct r name s d)
step-IsSound r (heartbeat_op name now) short (h, d) =
    (heartbeat-IsValid r name now h, heartbeat-PortsDistinct r name now d)

abbrev pub run : Registry → List Op → Registry
run r [] = r
run r (o ∷ os) = run (step r o) os

run_from-IsSound : (r : Registry) (os : List Op) → All IsShort os → IsSound r → IsSound (run r os)
run_from-IsSound r [] short h = h
run_from-IsSound r (o ∷ os) short h =
    run_from-IsSound (step r o) os short.1 (step-IsSound r o short.0 h)

create-PortsDistinct : PortsDistinct create.entries
unfolding create
create-PortsDistinct = tt

-- After any registrations under allocated ports, removals, changes of status and heartbeats on a
-- fresh registry, with names of at most 31 bytes: the count is that of the entries and at most 50,
-- no two CIs have the same name, and no two have the same port.
pub run-IsSound : (os : List Op) → All IsShort os → IsSound (run create os)
run-IsSound os short = run_from-IsSound create os short (create-IsValid, create-PortsDistinct)
