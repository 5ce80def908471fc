-- ===== src/WorkflowRegistry/Prune.antt =====
-- The pruning loop of src/daemon/argo_workflow_registry.c against a filter of the list.
use argo.Base.{
  ℕ, ◌+◌, ◌-◌, ◌≡◌, refl, ap, List, [], ◌∷◌, Option, none, some, arith, if◌then◌else◌, Bytes,
  str_eq_iff, length, Bool-cases, inl, inr,
}
use argo.Base.Nodes.{find_node, Distinct}
use argo.WorkflowRegistry.{Entry, Registry, id_of, find, prunable, prune_loop, prune}
use argo.WorkflowRegistry.Valid.{IsValid}

-- The entries that stay, and how many go.
pub kept : ℕ → List Entry → List Entry
kept t [] = []
kept t (e ∷ es) = if prunable t e then kept t es else e ∷ kept t es

pub gone : ℕ → List Entry → ℕ
gone t [] = 0
gone t (e ∷ es) = (if prunable t e then 1 else 0) + gone t es

prune_loop-kept :
    (t : ℕ) (es : List Entry) (count pruned : ℕ)
    → prune_loop t es count pruned ≡ (kept t es, count - gone t es, pruned + gone t es)
unfolding prune_loop kept gone
prune_loop-kept t [] count pruned = ground arith
prune_loop-kept t (e ∷ es) count pruned = elim (Bool-cases (prunable t e)) [
  | inl out ↦ rw (out, prune_loop-kept t es (count - 1) (pruned + 1)) (ground arith)
  | inr stays ↦ rw (stays, prune_loop-kept t es count pruned) (ground arith)
]

pub prune-kept :
    (r : Registry) (t : ℕ)
    → prune r t ≡ (record { head = kept t r.head; count = r.count - gone t r.head }, gone t r.head)
unfolding prune
prune-kept r t = rw (prune_loop-kept t r.head r.count 0) (ground arith)

length-kept : (t : ℕ) (es : List Entry) → length (kept t es) + gone t es ≡ length es
unfolding kept gone
length-kept t [] = omega arith
length-kept t (e ∷ es) = ground (arith, length-kept t es)

find-kept_absent :
    (t : ℕ) (j : Bytes) (es : List Entry)
    → find_node id_of j es ≡ none
    → find_node id_of j (kept t es) ≡ none
unfolding find_node kept
find-kept_absent t j [] h = refl
find-kept_absent t j (e ∷ es) h = ground (arith, find-kept_absent t j es)

Distinct-kept : (t : ℕ) (es : List Entry) → Distinct id_of es → Distinct id_of (kept t es)
unfolding kept
Distinct-kept t [] d = tt
Distinct-kept t (e ∷ es) d = ground (arith, Distinct-kept t es, find-kept_absent t e.workflow_id es)

-- An entry of the map, unless it is to be pruned.
abbrev pub survivor : ℕ → Option Entry → Option Entry
survivor t none = none
survivor t (some e) = if prunable t e then none else some e

find_node-kept :
    (t : ℕ) (j : Bytes) (es : List Entry)
    → Distinct id_of es
    → find_node id_of j (kept t es) ≡ survivor t (find_node id_of j es)
unfolding find_node kept
find_node-kept t j [] d = refl
find_node-kept t j (e ∷ es) d = ground (
  arith,
  find_node-kept t j es,
  find-kept_absent t e.workflow_id es,
  ap (λ (b : Bytes). find_node id_of b (kept t es)) {x = e.workflow_id} {y = j},
  str_eq_iff e.workflow_id j,
)

pub find-prune :
    (r : Registry) (t : ℕ) (j : Bytes) → IsValid r → find (prune r t).0 j ≡ survivor t (find r j)
unfolding find
find-prune r t j h = rw (prune-kept r t) (find_node-kept t j r.head h.distinct)

pub prune-IsValid : (r : Registry) (t : ℕ) → IsValid r → IsValid (prune r t).0
prune-IsValid r t h = rw (prune-kept r t) (record {
  counted = omega (arith, length-kept t r.head, h.counted);
  distinct = Distinct-kept t r.head h.distinct;
})
