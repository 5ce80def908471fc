-- ===== src/CiRegistry/Persistence/Fields.antt =====
-- An entry of the registry's file (src/daemon/argo_registry_persistence.c) and what loading reads in it.
use argo.Base.{
  ℕ, ◌+◌, ◌^◌, ◌≤◌, ◌<◌, ◌≡◌, refl, ap, ◌∙◌, true, false, ◌&&◌, List, [], ◌∷◌, ◌++◌, Option, none,
  some, arith, ltb, leb, Bytes, codes, take_all, str_eq, str_eq_refl, length,
}
use argo.Base.Nodes.{modify_node}
use argo.CString.{cut}
use argo.CString.Laws.{Lacks, cut-append}
use argo.CString.Print.{decimal}
use argo.Http.Request.{is_digit}
use argo.Json.{strip, after}
use argo.Error.{success}
use argo.CiRegistry.{
  Status, offline, starting, ready, busy, error, shutdown, Entry, Registry, find_ci, add_ci,
  new_entry, max_cis,
}
use argo.CiRegistry.Persistence.{
  status_number, field_key, extract_field, extract_int_field, status_of, with_status, nonempty,
  restore_status, load_found, load_entry,
}
use argo.CiRegistry.Persistence.Saved.{
  onto, scan_int-decimal, Lacks-decimal, after-Lacks, after_value,
}

-- A string that the file can hold: no quote, no brace and no NUL.
pub record Plain (v : Bytes) (max : ℕ) : Type 0 where
  pub filled : nonempty v ≡ true
  pub bound : length v ≤ max
  pub quoteless : Lacks b'"' v
  pub braceless : Lacks b'}' v
  pub nulless : Lacks 0 v

pub record IsPlain (e : Entry) : Type 0 where
  pub name : Plain e.name 31
  pub role : Plain e.role 31
  pub model : Plain e.model 63
  pub host : Plain e.host 127
  pub port_pos : 0 < e.port
  pub port_bound : e.port < 2 ^ 31

abbrev pub body_pieces : Entry → List Bytes
body_pieces e =
    codes "{\n      \"name\": \""
    ∷ e.name
    ∷ codes "\",\n      \"role\": \""
    ∷ e.role
    ∷ codes "\",\n      \"model\": \""
    ∷ e.model
    ∷ codes "\",\n      \"host\": \""
    ∷ e.host
    ∷ codes "\",\n      \"port\": "
    ∷ decimal e.port
    ∷ codes ",\n      \"status\": "
    ∷ decimal (status_number e.status)
    ∷ codes ",\n      \"registered_at\": "
    ∷ decimal e.registered_at
    ∷ codes "\n    "
    ∷ []

-- An entry up to its '}'.
unfoldable pub entry_body : Entry → Bytes
entry_body e = onto (body_pieces e) []

extract_field_steps :
    (entry field v rest : Bytes) (max : ℕ)
    → after (field_key field) entry ≡ some (b' ' ∷ b'"' ∷ (v ++ b'"' ∷ rest))
    → Lacks b'"' v
    → length v ≤ max
    → extract_field entry field max ≡ v
unfolding extract_field cut
extract_field_steps entry field v rest max found lacks bound =
    rw (extract_field, found, cut-append b'"' v rest lacks) (take_all max v bound)

-- What follows each field of an entry.
abbrev behind_status : Entry → Bytes
behind_status e =
    codes ",\n      \"registered_at\": " ++ (decimal e.registered_at ++ (codes "\n    " ++ []))

abbrev behind_port : Entry → Bytes
behind_port e =
    codes ",\n      \"status\": " ++ (decimal (status_number e.status) ++ behind_status e)

abbrev behind_host : Entry → Bytes
behind_host e = codes "\n      \"port\": " ++ (decimal e.port ++ behind_port e)

abbrev behind_model : Entry → Bytes
behind_model e = codes "\n      \"host\": \"" ++ (e.host ++ (codes "\"," ++ behind_host e))

abbrev behind_role : Entry → Bytes
behind_role e = codes "\n      \"model\": \"" ++ (e.model ++ (codes "\"," ++ behind_model e))

abbrev behind_name : Entry → Bytes
behind_name e = codes "\n      \"role\": \"" ++ (e.role ++ (codes "\"," ++ behind_role e))

-- The value and what follows it.
abbrev value_of : Bytes → Bytes → Option Bytes
value_of v behind = some (b' ' ∷ b'"' ∷ (v ++ b'"' ∷ (b',' ∷ behind)))

abbrev role_key : Bytes
role_key = codes "role"

abbrev model_key : Bytes
model_key = codes "model"

abbrev port_key : Bytes
port_key = codes "port"

abbrev status_key : Bytes
status_key = codes "status"

role_key-Lacks : Lacks b'"' role_key
role_key-Lacks = ground arith

model_key-Lacks : Lacks b'"' model_key
model_key-Lacks = ground arith

port_key-Lacks : Lacks b'"' port_key
port_key-Lacks = ground arith

status_key-Lacks : Lacks b'"' status_key
status_key-Lacks = ground arith

after_name :
    (e : Entry) → after (field_key (codes "name")) (entry_body e) ≡ value_of e.name (behind_name e)
unfolding after strip entry_body
after_name e = refl

after_role :
    (e : Entry)
    → IsPlain e
    → after (field_key role_key) (entry_body e) ≡ value_of e.role (behind_role e)
unfolding after strip entry_body
after_role e h = after_value role_key e.name (behind_name e) role_key-Lacks h.name.quoteless

after_model :
    (e : Entry)
    → IsPlain e
    → after (field_key model_key) (entry_body e) ≡ value_of e.model (behind_model e)
unfolding after strip entry_body
after_model e h =
    after_value model_key e.name (behind_name e) model_key-Lacks h.name.quoteless
    ∙ after_value model_key e.role (behind_role e) model_key-Lacks h.role.quoteless

after_port :
    (e : Entry)
    → IsPlain e
    → after (field_key port_key) (entry_body e) ≡ some (b' ' ∷ (decimal e.port ++ behind_port e))
unfolding after strip entry_body
after_port e h =
    after_value port_key e.name (behind_name e) port_key-Lacks h.name.quoteless
    ∙ after_value port_key e.role (behind_role e) port_key-Lacks h.role.quoteless
    ∙ after_value port_key e.model (behind_model e) port_key-Lacks h.model.quoteless
    ∙ after_value port_key e.host (behind_host e) port_key-Lacks h.host.quoteless

after_status :
    (e : Entry)
    → IsPlain e
    → after (field_key status_key) (entry_body e)
      ≡ some (b' ' ∷ (decimal (status_number e.status) ++ behind_status e))
unfolding after strip entry_body
after_status e h =
    after_value status_key e.name (behind_name e) status_key-Lacks h.name.quoteless
    ∙ after_value status_key e.role (behind_role e) status_key-Lacks h.role.quoteless
    ∙ after_value status_key e.model (behind_model e) status_key-Lacks h.model.quoteless
    ∙ after_value status_key e.host (behind_host e) status_key-Lacks h.host.quoteless
    ∙ after-Lacks (codes "status\":") (decimal e.port) (behind_port e)
        (Lacks-decimal b'"' e.port refl)

extract_int_steps :
    (entry field : Bytes) (n c : ℕ) (rest : Bytes)
    → after (field_key field) entry ≡ some (b' ' ∷ (decimal n ++ c ∷ rest))
    → n < 2 ^ 31
    → is_digit c ≡ false
    → extract_int_field entry field ≡ n
unfolding extract_int_field
extract_int_steps entry field n c rest found bound ends =
    rw (extract_int_field, found, scan_int-decimal n c rest bound ends) refl

status_bound : (s : Status) → status_number s < 2 ^ 31
status_bound offline = omega arith
status_bound starting = omega arith
status_bound ready = omega arith
status_bound busy = omega arith
status_bound error = omega arith
status_bound shutdown = omega arith

status_of-status_number : (s : Status) → status_of (status_number s) ≡ some s
unfolding status_of
status_of-status_number offline = refl
status_of-status_number starting = refl
status_of-status_number ready = refl
status_of-status_number busy = refl
status_of-status_number error = refl
status_of-status_number shutdown = refl

-- What loading makes of an entry: the host, the times and the counters start anew.
abbrev pub restored : ℕ → Entry → Entry
restored now e = record (new_entry e.name e.role e.model e.port now) { status = e.status }

abbrev pub with_entry : Registry → Entry → Registry
with_entry r e = record r { entries = e ∷ r.entries; count = r.count + 1 }

found_complete :
    (r : Registry) (name role model : Bytes) (port number now : ℕ)
    → (nonempty name && nonempty role && nonempty model && ltb 0 port && ltb port (2 ^ 31)) ≡ true
    → load_found r name role model port number true now
      ≡ restore_status
          (add_ci r (some name) (some role) (some model) port true now)
          name
          (status_of number)
unfolding load_found
found_complete r name role model port number now full = rw (load_found, full) refl

load_fields :
    (r : Registry) (entry name role model : Bytes) (port number now : ℕ)
    → extract_field entry (codes "name") 31 ≡ name
    → extract_field entry (codes "role") 31 ≡ role
    → extract_field entry (codes "model") 63 ≡ model
    → extract_int_field entry (codes "port") ≡ port
    → extract_int_field entry (codes "status") ≡ number
    → (nonempty name && nonempty role && nonempty model && ltb 0 port && ltb port (2 ^ 31)) ≡ true
    → load_entry r entry true now
      ≡ restore_status
          (add_ci r (some name) (some role) (some model) port true now)
          name
          (status_of number)
unfolding load_entry
load_fields r entry name role model port number now hn hr hm hp hs full =
    ap
      (λ (x : Bytes).
        load_found r x (extract_field entry role_key 31) (extract_field entry model_key 63)
          (extract_int_field entry port_key) (extract_int_field entry status_key) true now)
      hn
    ∙ ap
        (λ (x : Bytes).
          load_found r name x (extract_field entry model_key 63) (extract_int_field entry port_key)
            (extract_int_field entry status_key) true now)
        hr
    ∙ ap
        (λ (x : Bytes).
          load_found r name role x (extract_int_field entry port_key)
            (extract_int_field entry status_key) true now)
        hm
    ∙ ap (λ (x : ℕ). load_found r name role model x (extract_int_field entry status_key) true now)
        hp
    ∙ ap (λ (x : ℕ). load_found r name role model port x true now) hs
    ∙ found_complete r name role model port number now full

complete :
    (e : Entry)
    → IsPlain e
    → (nonempty e.name
        && nonempty e.role
        && nonempty e.model
        && ltb 0 e.port
        && ltb e.port (2 ^ 31))
      ≡ true
complete e h =
    let lo : ltb 0 e.port ≡ true = let pos = h.port_pos in ground arith in
    let hi : ltb e.port (2 ^ 31) ≡ true = let bound = h.port_bound in ground arith in
    rw (h.name.filled, h.role.filled, h.model.filled, lo, hi) refl

add_fresh :
    (r : Registry) (name role model : Bytes) (port now : ℕ)
    → r.count < 50
    → find_ci r name ≡ none
    → add_ci r (some name) (some role) (some model) port true now
      ≡ (with_entry r (new_entry name role model port now), success)
unfolding add_ci
add_fresh r name role model port now room fresh =
    let free : leb max_cis r.count ≡ false = ground arith in rw (add_ci, free, fresh) refl

restore_first :
    (r : Registry) (x : Entry) (name : Bytes) (s : Status)
    → str_eq x.name name ≡ true
    → restore_status (with_entry r x, success) name (some s) ≡ some (with_entry r (with_status s x))
unfolding restore_status modify_node
restore_first r x name s named = rw (restore_status, modify_node, named) refl

restored_name :
    (e : Entry)
    → IsPlain e
    → (now : ℕ) → str_eq (new_entry e.name e.role e.model e.port now).name e.name ≡ true
unfolding new_entry
restored_name e h now = rw (take_all 31 e.name h.name.bound) (str_eq_refl e.name)

restore_fresh :
    (r : Registry) (e : Entry) (now : ℕ)
    → IsPlain e
    → r.count < 50
    → find_ci r e.name ≡ none
    → restore_status
        (add_ci r (some e.name) (some e.role) (some e.model) e.port true now)
        e.name
        (status_of (status_number e.status))
      ≡ some (with_entry r (restored now e))
unfolding with_status
restore_fresh r e now h room fresh =
    let x = new_entry e.name e.role e.model e.port now in
    ap (λ c. restore_status c e.name (status_of (status_number e.status)))
      (add_fresh r e.name e.role e.model e.port now room fresh)
    ∙ ap (restore_status (with_entry r x, success) e.name) (status_of-status_number e.status)
    ∙ restore_first r x e.name e.status (restored_name e h now)

pub load_entry-entry_body :
    (r : Registry) (e : Entry) (now : ℕ)
    → IsPlain e
    → r.count < 50
    → find_ci r e.name ≡ none
    → load_entry r (entry_body e) true now ≡ some (with_entry r (restored now e))
load_entry-entry_body r e now h room fresh =
    load_fields r (entry_body e) e.name e.role e.model e.port (status_number e.status) now
      (extract_field_steps (entry_body e) (codes "name") e.name _ 31 (after_name e) h.name.quoteless
        h.name.bound)
      (extract_field_steps (entry_body e) role_key e.role _ 31 (after_role e h) h.role.quoteless
        h.role.bound)
      (extract_field_steps (entry_body e) model_key e.model _ 63 (after_model e h) h.model.quoteless
        h.model.bound)
      (extract_int_steps (entry_body e) port_key e.port b',' _ (after_port e h) h.port_bound refl)
      (extract_int_steps (entry_body e) status_key (status_number e.status) b',' _
        (after_status e h) (status_bound e.status) refl)
      (complete e h)
    ∙ restore_fresh r e now h room fresh
