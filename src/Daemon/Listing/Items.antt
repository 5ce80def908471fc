-- ===== src/Daemon/Listing/Items.antt =====
-- The JSON of an entry in the list of src/daemon/argo_daemon_workflow_api.c: its length and its bytes.
use argo.Base.{
  ◌≤◌, ◌<◌, ◌≡◌, refl, Bool, true, false, List, [], ◌∷◌, ◌++◌, arith, All, if◌then◌else◌, Bytes,
  codes, length,
}
use argo.CString.Print.Laws.{
  length-format, nul_free-format, tens, length-decimal, nul_free, nul_free-append, nul_free-decimal,
}
use argo.WorkflowRegistry.{
  State, pending, running, paused, completed, failed, abandoned, Entry, state_to_string,
}
use argo.Daemon.Listing.{item_pieces, item_text}

-- What an entry's fields hold: strings that fit them, and a PID below 10 ^ 7, as on Linux.
pub record Fits (e : Entry) : Type 0 where
  pub id_bound : length e.workflow_id ≤ 63
  pub id_nul_free : nul_free e.workflow_id ≡ true
  pub name_bound : length e.workflow_name ≤ 127
  pub name_nul_free : nul_free e.workflow_name ≡ true
  pub pid_bound : e.executor_pid < tens 7

-- The entries of a list in JSON.
abbrev pub items_text : Bool → List Entry → Bytes
items_text first [] = []
items_text first (e ∷ es) = item_text first e ++ items_text false es

length-state_to_string : (s : State) → length (state_to_string s) ≤ 9
unfolding state_to_string
length-state_to_string pending = omega arith
length-state_to_string running = omega arith
length-state_to_string paused = omega arith
length-state_to_string completed = omega arith
length-state_to_string failed = omega arith
length-state_to_string abandoned = omega arith

nul_free-state_to_string : (s : State) → nul_free (state_to_string s) ≡ true
unfolding state_to_string
nul_free-state_to_string pending = refl
nul_free-state_to_string running = refl
nul_free-state_to_string paused = refl
nul_free-state_to_string completed = refl
nul_free-state_to_string failed = refl
nul_free-state_to_string abandoned = refl

length_comma : (first : Bool) → length (if first then [] else codes ",") ≤ 1
length_comma true = omega arith
length_comma false = omega arith

nul_free_comma : (first : Bool) → nul_free (if first then [] else codes ",") ≡ true
nul_free_comma true = refl
nul_free_comma false = refl

-- An entry takes at most 255 bytes, one less than the size counts for it.
pub length-item_text : (first : Bool) (e : Entry) → Fits e → length (item_text first e) ≤ 255
unfolding item_text
length-item_text first e h =
    length-format (item_pieces first e) (1 ∷ 16 ∷ 63 ∷ 12 ∷ 127 ∷ 11 ∷ 9 ∷ 8 ∷ 7 ∷ 1 ∷ []) (
      length_comma first,
      (
        omega arith,
        (
          h.id_bound,
          (
            omega arith,
            (
              h.name_bound,
              (
                omega arith,
                (
                  length-state_to_string e.state,
                  (omega arith, (length-decimal 6 e.executor_pid h.pid_bound, (omega arith, tt))),
                ),
              ),
            ),
          ),
        ),
      ),
    )

nul_free-item_text : (first : Bool) (e : Entry) → Fits e → nul_free (item_text first e) ≡ true
unfolding item_text
nul_free-item_text first e h = nul_free-format (item_pieces first e) (
  nul_free_comma first,
  (
    refl,
    (
      h.id_nul_free,
      (
        refl,
        (
          h.name_nul_free,
          (
            refl,
            (
              nul_free-state_to_string e.state,
              (refl, (nul_free-decimal e.executor_pid, (refl, tt))),
            ),
          ),
        ),
      ),
    ),
  ),
)

pub nul_free-items_text :
    (first : Bool) (es : List Entry) → All Fits es → nul_free (items_text first es) ≡ true
nul_free-items_text first [] h = refl
nul_free-items_text first (e ∷ es) h =
    nul_free-append (item_text first e) _ (nul_free-item_text first e h.0)
      (nul_free-items_text false es h.1)
