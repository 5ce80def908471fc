-- ===== src/CiRegistry/Persistence/RoundTrip.antt =====
-- A registry that is saved and loaded again (src/daemon/argo_registry_persistence.c).
use argo.Base.{
  ℕ, suc, ◌+◌, ◌≤◌, ◌≡◌, refl, ap, ◌∙◌, true, false, List, [], ◌∷◌, ◌++◌, some, arith, All, Bytes,
  codes, length-append, length, map,
}
use argo.Base.Nodes.{find_node, Distinct}
use argo.CString.{cut, c_string}
use argo.CString.Laws.{Lacks, Lacks-append, cut-Lacks}
use argo.CString.Print.{decimal}
use argo.Json.{strip, after}
use argo.CiRegistry.{Entry, Registry, name_of, create, find_ci}
use argo.CiRegistry.Persistence.{
  status_number, separator, entry_pieces, write_entries, saved_text, save_state, load_text,
  load_state,
}
use argo.CiRegistry.Persistence.Saved.{format-onto, onto-Lacks, Lacks-decimal, after-Lacks}
use argo.CiRegistry.Persistence.Fields.{IsPlain, entry_body, restored, with_entry}
use argo.CiRegistry.Persistence.Loading.{
  entries_text, rest_text, loaded, AllFresh, load_entries_lem,
}

abbrev pub reversed : List Entry → List Entry → List Entry
reversed [] acc = acc
reversed (e ∷ es) acc = reversed es (e ∷ acc)

loaded-reversed :
    (now : ℕ) (r : Registry) (es : List Entry)
    → (loaded now r es).entries ≡ reversed (map (restored now) es) r.entries
loaded-reversed now r [] = refl
loaded-reversed now r (e ∷ es) = loaded-reversed now (with_entry r (restored now e)) es

count_loaded :
    (now : ℕ) (r : Registry) (es : List Entry) → (loaded now r es).count ≡ r.count + length es
count_loaded now r [] = omega arith
count_loaded now r (e ∷ es) = omega (arith, count_loaded now (with_entry r (restored now e)) es)

same-Lacks : (c : ℕ) (s t : Bytes) → s ≡ t → Lacks c t → Lacks c s
same-Lacks c s t same h = rw same h

separator-Lacks : (es : List Entry) → Lacks 0 (separator es)
separator-Lacks [] = tt
separator-Lacks (_ ∷ _) = ground arith

pieces-Lacks : (e : Entry) (es : List Entry) → IsPlain e → All (Lacks 0) (entry_pieces e es)
pieces-Lacks e es h = (
  ground arith,
  (
    h.name.nulless,
    (
      ground arith,
      (
        h.role.nulless,
        (
          ground arith,
          (
            h.model.nulless,
            (
              ground arith,
              (
                h.host.nulless,
                (
                  ground arith,
                  (
                    Lacks-decimal 0 e.port refl,
                    (
                      ground arith,
                      (
                        Lacks-decimal 0 (status_number e.status) refl,
                        (
                          ground arith,
                          (
                            Lacks-decimal 0 e.registered_at refl,
                            (ground arith, (separator-Lacks es, (ground arith, tt))),
                          ),
                        ),
                      ),
                    ),
                  ),
                ),
              ),
            ),
          ),
        ),
      ),
    ),
  ),
)

write_entries-Lacks : (es : List Entry) → All IsPlain es → Lacks 0 (write_entries es)
unfolding write_entries
write_entries-Lacks [] h = ground arith
write_entries-Lacks (e ∷ es) h =
    same-Lacks 0 _ _ (format-onto (entry_pieces e es) (write_entries es)) (
      onto-Lacks 0 (entry_pieces e es) (write_entries es) (pieces-Lacks e es h.0)
        (write_entries-Lacks es h.1))

saved_text-Lacks : (r : Registry) → All IsPlain r.entries → Lacks 0 (saved_text r)
unfolding saved_text
saved_text-Lacks r h =
    Lacks-append 0 (codes "{\n  \"version\": 1,\n  \"count\": ") _ (ground arith) (
      Lacks-append 0 (decimal r.count) _ (Lacks-decimal 0 r.count refl) (
        Lacks-append 0 (codes ",\n  \"entries\": [\n") _ (ground arith)
          (write_entries-Lacks r.entries h)))

length-write_entries : (es : List Entry) → length es ≤ length (write_entries es)
length-write_entries [] = omega arith
length-write_entries (e ∷ es) =
    let more = length-write_entries es in
    let text = entries_text e es in
    omega (
      arith,
      ap length text,
      length-append (entry_body e) (b'}' ∷ (separator es ++ (codes "\n" ++ write_entries es))),
      length-append (separator es) (codes "\n" ++ write_entries es),
    )

entries_key-found :
    (r : Registry)
    → after (codes "\"entries\":") (saved_text r) ≡ some (codes " [\n" ++ write_entries r.entries)
unfolding saved_text after strip
entries_key-found r =
    after-Lacks (codes "entries\":") (decimal r.count)
      (codes ",\n  \"entries\": [\n" ++ write_entries r.entries) (Lacks-decimal b'"' r.count refl)

create-AllFresh : (es : List Entry) → AllFresh create es
unfolding create find_ci find_node
create-AllFresh [] = tt
create-AllFresh (e ∷ es) = (refl, create-AllFresh es)

load_text_lem :
    (r : Registry) (now : ℕ)
    → length r.entries ≤ 50
    → All IsPlain r.entries
    → Distinct name_of r.entries
    → load_text create (saved_text r) true now ≡ some (loaded now create r.entries)
unfolding load_text cut create
load_text_lem r now room plain apart =
    rw (load_text, entries_key-found r)
      (load_entries_lem (suc (length (rest_text false r.entries))) create false r.entries now
        (omega (arith, length-write_entries r.entries)) (omega arith) plain apart
        (create-AllFresh r.entries))

-- A registry of at most 50 CIs with distinct names, whose strings fill and fit their fields and hold
-- no quote, brace or NUL, and whose ports are positive, is saved to a text from which loading into
-- a new registry restores every CI: with its name, role, model, port and status, the order
-- reversed, and the host, the times and the counters as for a new one.
pub load_state-save_state :
    (r : Registry) (now : ℕ)
    → length r.entries ≤ 50
    → All IsPlain r.entries
    → Distinct name_of r.entries
    → (r' : Registry) × (load_state create (save_state r true).0 true now ≡ some r')
      × (r'.entries ≡ reversed (map (restored now) r.entries) [])
      × (r'.count ≡ length r.entries)
unfolding load_state save_state create c_string
load_state-save_state r now room plain apart = (
  loaded now create r.entries,
  rw (load_state, c_string, cut-Lacks 0 (saved_text r) (saved_text-Lacks r plain))
      (load_text_lem r now room plain apart),
  loaded-reversed now create r.entries,
  count_loaded now create r.entries ∙ omega arith,
)
