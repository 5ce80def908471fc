-- ===== src/Lifecycle/Heartbeats.antt =====
-- The check of all heartbeats in src/daemon/argo_lifecycle_monitoring.c and the agreement with the
-- CI registry.
use argo.Base.{
  ℕ, zero, suc, ◌+◌, Bool, List, [], ◌∷◌, Option, none, some, Bytes, str_eq, leb, Bool-cases,
  Option-cases, inl, inr,
}
use argo.Base.Nodes.{find_node}
use argo.CiRegistry
use argo.Lifecycle.{Ci, Manager, name_of, find_ci}
use argo.Lifecycle.Monitoring.{ci_at, with_missed, count_missed, is_stale, miss, heartbeats_loop}
use argo.Lifecycle.Sync.{Agree, IsSynced}
use argo.Lifecycle.Ops.{report_error-IsSynced}

Agree-with_missed :
    (c : Ci) (oe : Option CiRegistry.Entry) → Agree (some c) oe → Agree (some (with_missed c)) oe
unfolding with_missed
Agree-with_missed c none a = tt
Agree-with_missed c (some e) a = a

Agree-count_missed :
    (i : ℕ) (cs : List Ci) (j : Bytes) (oe : Option CiRegistry.Entry)
    → Agree (find_node name_of j cs) oe
    → Agree (find_node name_of j (count_missed i cs)) oe
unfolding count_missed find_node with_missed
Agree-count_missed i [] j oe = λ a. a
Agree-count_missed zero (c ∷ cs) j oe = elim (Bool-cases (str_eq (name_of c) j)) [
  | inl here ↦ rw here (Agree-with_missed c oe)
  | inr elsewhere ↦ rw elsewhere (λ a. a)
]
Agree-count_missed (suc i) (c ∷ cs) j oe = elim (Bool-cases (str_eq (name_of c) j)) [
  | inl here ↦ rw here (λ a. a)
  | inr elsewhere ↦ rw elsewhere (Agree-count_missed i cs j oe)
]

count_missed-IsSynced :
    (m : Manager) (i : ℕ) → IsSynced m → IsSynced (record m { cis = count_missed i m.cis })
unfolding find_ci
count_missed-IsSynced m i h j = Agree-count_missed i m.cis j (CiRegistry.find_ci m.registry j) (h j)

miss-IsSynced :
    (m : Manager) (i : ℕ) (c : Ci) (copied mem : Bool) (now : ℕ)
    → IsSynced m
    → IsSynced (miss m i c copied mem now)
unfolding miss
miss-IsSynced m i c copied mem now h =
    elim (Bool-cases (leb m.max_missed_heartbeats (c.missed_heartbeats + 1))) [
      | inl many ↦
          rw many (
            report_error-IsSynced _ (some c.ci_name) _ copied mem now (count_missed-IsSynced m i h))
      | inr few ↦ rw few (count_missed-IsSynced m i h)
    ]

pub heartbeats_loop-IsSynced :
    (rounds i : ℕ) (m : Manager) (copied mem : ℕ → Bool) (now : ℕ)
    → IsSynced m
    → IsSynced (heartbeats_loop rounds i m copied mem now).0
unfolding heartbeats_loop
heartbeats_loop-IsSynced zero i m copied mem now h = h
heartbeats_loop-IsSynced (suc rounds) i m copied mem now h = elim (Option-cases (ci_at i m.cis)) [
  | inl missing ↦
      rw (missing, heartbeats_loop) (heartbeats_loop-IsSynced rounds (i + 1) m copied mem now h)
  | inr (c, at) ↦ elim (Bool-cases (is_stale m now c)) [
    | inr fresh ↦
        rw (at, heartbeats_loop)
          (rw fresh (heartbeats_loop-IsSynced rounds (i + 1) m copied mem now h))
    | inl stale ↦
        rw (at, heartbeats_loop)
          (rw stale (
            heartbeats_loop-IsSynced rounds (i + 1) (miss m i c (copied i) (mem i) now) copied mem
              now (miss-IsSynced m i c (copied i) (mem i) now h)))
  ]
]
