-- ===== src/Daemon/Listing/Responses.antt =====
-- The texts of the responses of src/daemon/argo_daemon_workflow_api.c, and the end of their buffer.
use mathlib.Core.List.{append-nil, append_assoc}
use argo.Base.{
  ℕ, suc, ◌+◌, ◌-◌, ◌*◌, ◌^◌, ◌≤◌, ◌<◌, ◌≡◌, refl, ap, ◌∙◌, Bool, true, false, List, [], ◌∷◌, ◌++◌,
  Option, some, arith, All, Bytes, codes, drop, length, length-append, length-drop, leb, ◌==◌,
}
use argo.CString.{c_string}
use argo.CString.Print.{snprintf}
use argo.CString.Print.Laws.{snprintf-append, nul_free, nul_free-append, c_string-append}
use argo.Error.{success}
use argo.Http.Request.{Response, http_response_set_json}
use argo.WorkflowRegistry.{Entry, Registry, list}
use argo.Daemon.Listing.{
  item_text, space_left, append_items, list_json, list_response, list_size, list_reply,
  api_workflow_list,
}
use argo.Daemon.Listing.Items.{Fits, items_text, length-item_text, nul_free-items_text}

-- A round of the loop that writes inside the buffer and does not reach the margin.
append_items_step :
    (size : ℕ) (b : Bytes) (offset : ℕ) (first : Bool) (e : Entry) (es : List Entry) (b' : Bytes)
    → snprintf b offset (space_left size offset) (item_text first e) ≡ some b'
    → leb (size - 10) (offset + length (item_text first e)) ≡ false
    → append_items size b offset first (e ∷ es)
      ≡ append_items size b' (offset + length (item_text first e)) false es
unfolding append_items
append_items_step size b offset first e es b' wrote on = rw (append_items, wrote, on) refl

abbrev reached : Bytes → ℕ → Option (Bytes × ℕ)
reached b n = some (b, n)

regroup :
    (t x y r : Bytes) {n m : ℕ}
    → n ≡ m
    → reached (((t ++ x) ++ y) ++ r) n ≡ reached ((t ++ (x ++ y)) ++ r) m
regroup t x y r same = rw (append_assoc t x y, same) refl

-- The loop on a buffer that begins with `t`: with 256 bytes left for each entry and 86 more it writes
-- all of them, and at least 86 bytes are left.
append_items_lem :
    (size : ℕ) (t r : Bytes) (offset : ℕ) (first : Bool) (es : List Entry)
    → size < 2 ^ 64
    → offset ≡ length t
    → offset + length r ≡ size
    → 256 * length es + 86 ≤ length r
    → All Fits es
    → (r' : Bytes) × (append_items size (t ++ r) offset first es
        ≡ some ((t ++ items_text first es) ++ r', offset + length (items_text first es)))
      × (offset + length (items_text first es) + length r' ≡ size)
      × (86 ≤ length r')
unfolding append_items
append_items_lem size t r offset first [] small at total room fit =
    (r, rw (append-nil t) (ap (reached (t ++ r)) (omega arith)), omega arith, omega arith)
append_items_lem size t r offset first (e ∷ es) small at total room fit =
    let text = item_text first e in
    let short = length-item_text first e fit.0 in
    let left : space_left size offset ≡ length r = omega arith in
    let r1 = 0 ∷ drop (suc (length text)) r in
    let wrote = snprintf-append t r text offset (length r) at (omega arith) (omega arith) in
    let kept = length-drop (suc (length text)) r in
    let on : leb (size - 10) (offset + length text) ≡ false = ground arith in
    let longer = length-append text (items_text false es) in
    let rest =
      append_items_lem size (t ++ text) r1 (offset + length text) false es small
        (omega (arith, length-append t text)) (omega arith) (omega arith) fit.1 in
    (
      rest.0,
      append_items_step size (t ++ r) offset first e es _
            (ap (λ (n : ℕ). snprintf (t ++ r) offset n text) left ∙ wrote) on
          ∙ rest.1
          ∙ regroup t text (items_text false es) rest.0 (omega arith),
      omega arith,
      rest.3,
    )

list_json_steps :
    (size : ℕ) (b b1 b2 b3 : Bytes) (offset : ℕ) (es : List Entry)
    → snprintf b 0 size (codes "{\"workflows\":[") ≡ some b1
    → append_items size b1 14 true es ≡ some (b2, offset)
    → snprintf b2 offset (space_left size offset) (codes "]}") ≡ some b3
    → list_json size b es ≡ some b3
unfolding list_json
list_json_steps size b b1 b2 b3 offset es opened added closed =
    rw (list_json, opened, added, closed) refl

-- The body of the response.
abbrev pub list_text : List Entry → Bytes
list_text es = (codes "{\"workflows\":[" ++ items_text true es) ++ codes "]}"

-- The size as long as the int does not wrap around.
list_size-small : (n : ℕ) → n < 2 ^ 23 → list_size n ≡ n * 256 + 100
unfolding list_size
list_size-small n few = ground arith

-- The three parts of the text in a buffer of the requested size.
list_json_lem :
    (b : Bytes) (es : List Entry)
    → length es < 2 ^ 23
    → length b ≡ list_size (length es)
    → All Fits es
    → (rest : Bytes) × (list_json (list_size (length es)) b es ≡ some (list_text es ++ 0 ∷ rest))
list_json_lem b es few sized fit =
    let size = list_size (length es) in
    let known = list_size-small (length es) few in
    let front = codes "{\"workflows\":[" in
    let opened = snprintf-append [] b front 0 size refl (omega arith) (omega arith) in
    let r1 = 0 ∷ drop 15 b in
    let kept = length-drop 15 b in
    let items =
      append_items_lem size front r1 14 true es (omega arith) (omega arith) (omega arith)
        (omega arith) fit in
    let offset = 14 + length (items_text true es) in
    let at : offset ≡ length (front ++ items_text true es) =
      omega (arith, length-append front (items_text true es)) in
    let enough = items.3 in
    let total = items.2 in
    let left : space_left size offset ≡ length (items.0) = omega arith in
    let closed =
      snprintf-append (front ++ items_text true es) items.0 (codes "]}") offset (length (items.0))
        at (omega arith) (omega arith) in
    (
      drop 3 items.0,
      list_json_steps size b _ _ _ offset es opened items.1 (
          ap (λ (n : ℕ). snprintf ((front ++ items_text true es) ++ items.0) offset n (codes "]}"))
            left
          ∙ closed),
    )

nul_free-list_text : (es : List Entry) → All Fits es → nul_free (list_text es) ≡ true
nul_free-list_text es fit =
    nul_free-append (codes "{\"workflows\":[" ++ items_text true es) (codes "]}")
      (nul_free-append (codes "{\"workflows\":[") (items_text true es) refl
        (nul_free-items_text true es fit))
      refl

list_response_steps :
    (malloc : ℕ → Option Bytes) (mem : Bool) (resp : Response) (es : List Entry) (n : ℕ)
    (b json text : Bytes)
    → malloc (list_size n) ≡ some b
    → list_json (list_size n) b es ≡ some json
    → c_string json ≡ text
    → list_response malloc mem resp es n
      ≡ some (http_response_set_json resp 200 (some text) mem, success)
unfolding list_response http_response_set_json
list_response_steps malloc mem resp es n b json text got made is =
    rw (list_response, got, made, is) refl

list_response_lem :
    (malloc : ℕ → Option Bytes) (mem : Bool) (resp : Response) (es : List Entry) (b : Bytes)
    → length es < 2 ^ 23
    → malloc (list_size (length es)) ≡ some b
    → length b ≡ list_size (length es)
    → All Fits es
    → list_response malloc mem resp es (length es)
      ≡ some (http_response_set_json resp 200 (some (list_text es)) mem, success)
list_response_lem malloc mem resp es b few got sized fit =
    let made = list_json_lem b es few sized fit in
    list_response_steps malloc mem resp es (length es) b (list_text es ++ 0 ∷ made.0) (list_text es)
      got made.1 (c_string-append (list_text es) made.0 (nul_free-list_text es fit))

counted_list_lem :
    (es : List Entry) (n : ℕ) (malloc : ℕ → Option Bytes) (mem : Bool) (resp : Response) (b : Bytes)
    → n ≡ length es
    → length es < 2 ^ 23
    → malloc (list_size n) ≡ some b
    → length b ≡ list_size n
    → All Fits es
    → api_workflow_list (record { head = es; count = n }) true malloc mem resp
      ≡ some (http_response_set_json resp 200 (some (list_text es)) mem, success)
unfolding api_workflow_list list list_reply
counted_list_lem [] n malloc mem resp b counted few got sized fit =
    rw counted
      (list_response_lem malloc mem resp [] b few (rw counted at got) (rw counted at sized) fit)
counted_list_lem (e ∷ es) n malloc mem resp b counted few got sized fit =
    let some_held : (n == 0) ≡ false = ground arith in
    rw (some_held, counted)
      (list_response_lem malloc mem resp (e ∷ es) b few (rw counted at got) (rw counted at sized)
        fit)

-- With fewer than 2 ^ 23 workflows, the number from which the size overflows an int, whose strings fit
-- their fields and whose PIDs have at most 7 digits, and with memory for the array, for a buffer of
-- the requested size, whatever stands in it, and for the body: the list endpoint writes nowhere
-- outside its buffer, never reaches the margin at which it would leave workflows out, and answers
-- with 200 and a body that is the JSON of all workflows in order.
pub api_workflow_list_lem :
    (r : Registry) (malloc : ℕ → Option Bytes) (resp : Response) (b : Bytes)
    → r.count ≡ length r.head
    → length r.head < 2 ^ 23
    → malloc (list_size r.count) ≡ some b
    → length b ≡ list_size r.count
    → All Fits r.head
    → api_workflow_list r true malloc true resp
      ≡ some (http_response_set_json resp 200 (some (list_text r.head)) true, success)
api_workflow_list_lem r malloc resp b counted few got sized fit =
    counted_list_lem r.head r.count malloc true resp b counted few got sized fit
