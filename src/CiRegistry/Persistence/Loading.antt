-- ===== src/CiRegistry/Persistence/Loading.antt =====
-- The loop over the entries of a registry's file (src/daemon/argo_registry_persistence.c).
use argo.Base.{
  ℕ, zero, suc, ◌+◌, ◌≤◌, ◌<◌, ◌≡◌, refl, sym, ap, ◌∙◌, Bool, true, false, List, [], ◌∷◌, ◌++◌,
  none, some, arith, All, Bytes, codes, take_all, str_eq, str_eq_refl, str_eq_iff, Bool-cases, inl,
  inr, length,
}
use argo.Base.Nodes.{find_node, Distinct}
use argo.CString.Laws.{Lacks, cut-append}
use argo.CiRegistry.{Entry, Registry, name_of, find_ci, new_entry}
use argo.CiRegistry.Persistence.{
  status_number, separator, entry_pieces, write_entries, load_entry, skip_gap, entry_at, at_end,
  load_entries,
}
use argo.CiRegistry.Persistence.Saved.{format-onto, append-onto, onto-Lacks, Lacks-decimal}
use argo.CiRegistry.Persistence.Fields.{
  IsPlain, body_pieces, entry_body, restored, with_entry, load_entry-entry_body,
}

-- The text of the entries, with the ends of them marked.
pub entries_text :
    (e : Entry) (es : List Entry)
    → write_entries (e ∷ es)
      ≡ codes "    " ++ (entry_body e ++ b'}' ∷ (separator es ++ (codes "\n" ++ write_entries es)))
unfolding write_entries entry_body
entries_text e es =
    format-onto (entry_pieces e es) (write_entries es)
    ∙ sym (
        ap (◌++◌ (codes "    ")) (
          append-onto (body_pieces e) []
            (b'}' ∷ (separator es ++ (codes "\n" ++ write_entries es)))))

entry_body-Lacks : (e : Entry) → IsPlain e → Lacks b'}' (entry_body e)
unfolding entry_body
entry_body-Lacks e h =
    onto-Lacks b'}' (body_pieces e) []
      (
        ground arith,
        (
          h.name.braceless,
          (
            ground arith,
            (
              h.role.braceless,
              (
                ground arith,
                (
                  h.model.braceless,
                  (
                    ground arith,
                    (
                      h.host.braceless,
                      (
                        ground arith,
                        (
                          Lacks-decimal b'}' e.port refl,
                          (
                            ground arith,
                            (
                              Lacks-decimal b'}' (status_number e.status) refl,
                              (
                                ground arith,
                                (Lacks-decimal b'}' e.registered_at refl, (ground arith, tt)),
                              ),
                            ),
                          ),
                        ),
                      ),
                    ),
                  ),
                ),
              ),
            ),
          ),
        ),
      )
      tt

-- What stands in front of the rest of the entries: a comma behind an entry, nothing behind the '['.
abbrev lead : Bool → Bytes
lead true = codes ","
lead false = []

abbrev pub rest_text : Bool → List Entry → Bytes
rest_text comma es = lead comma ++ (codes "\n" ++ write_entries es)

abbrev behind : List Entry → Bytes
behind es = separator es ++ (codes "\n" ++ write_entries es)

entry_found :
    (comma : Bool) (e : Entry) (es : List Entry)
    → IsPlain e
    → entry_at (skip_gap (rest_text comma (e ∷ es))) ≡ some (entry_body e, behind es)
unfolding skip_gap entry_at entry_body
entry_found true e es h =
    rw (entries_text e es) (cut-append b'}' (entry_body e) (behind es) (entry_body-Lacks e h))
entry_found false e es h =
    rw (entries_text e es) (cut-append b'}' (entry_body e) (behind es) (entry_body-Lacks e h))

not_at_end : (comma : Bool) (es : List Entry) → at_end (rest_text comma es) ≡ false
not_at_end true es = refl
not_at_end false es = refl

load_step :
    (fuel : ℕ) (r r' : Registry) (s entry rest : Bytes) (now : ℕ)
    → at_end s ≡ false
    → entry_at (skip_gap s) ≡ some (entry, rest)
    → load_entry r entry true now ≡ some r'
    → load_entries (suc fuel) r s true now ≡ load_entries fuel r' rest true now
unfolding load_entries
load_step fuel r r' s entry rest now more found got = rw (load_entries, more, found, got) refl

load_stop :
    (fuel : ℕ) (r : Registry) (s : Bytes) (now : ℕ)
    → at_end s ≡ false
    → entry_at (skip_gap s) ≡ none
    → load_entries (suc fuel) r s true now ≡ some r
unfolding load_entries
load_stop fuel r s now more found = rw (load_entries, more, found) refl

footer_found : (comma : Bool) → entry_at (skip_gap (rest_text comma [])) ≡ none
unfolding skip_gap entry_at write_entries
footer_found true = refl
footer_found false = refl

is_comma : List Entry → Bool
is_comma [] = false
is_comma (_ ∷ _) = true

behind_lem : (es : List Entry) → behind es ≡ rest_text (is_comma es) es
unfolding is_comma
behind_lem [] = refl
behind_lem (_ ∷ _) = refl

-- The registry with the entries of a file added, first to last.
abbrev pub loaded : ℕ → Registry → List Entry → Registry
loaded now r [] = r
loaded now r (e ∷ es) = loaded now (with_entry r (restored now e)) es

abbrev pub AllFresh : Registry → List Entry → Type 0
AllFresh r = All (λ e. find_ci r e.name ≡ none)

find_none :
    (x : Entry) (k : Bytes) (es : List Entry)
    → find_node name_of k (x ∷ es) ≡ none
    → (str_eq x.name k ≡ false) × (find_node name_of k es ≡ none)
unfolding find_node
find_none x k es h = ground arith

fresh_one :
    (r : Registry) (y x : Entry)
    → str_eq y.name x.name ≡ false
    → find_ci r x.name ≡ none
    → find_ci (with_entry r y) x.name ≡ none
unfolding find_ci find_node
fresh_one r y x apart fresh = rw (find_ci, find_node, apart) fresh

str_eq_sym : (a b : Bytes) → str_eq a b ≡ false → str_eq b a ≡ false
str_eq_sym a b h = elim (Bool-cases (str_eq b a)) [
  | inl same ↦
      absurd
        (ground (arith, str_eq_refl a, ap (λ (x : Bytes). str_eq a x) ((str_eq_iff b a).0 same)))
  | inr apart ↦ apart
]

unnamed :
    (e x : Entry)
    → IsPlain e
    → (now : ℕ) → str_eq x.name e.name ≡ false
    → str_eq (restored now e).name x.name ≡ false
unfolding new_entry
unnamed e x h now apart = rw (take_all 31 e.name h.name.bound) (str_eq_sym x.name e.name apart)

fresh_next :
    (r : Registry) (e : Entry) (es : List Entry) (now : ℕ)
    → IsPlain e
    → find_node name_of e.name es ≡ none
    → AllFresh r es
    → AllFresh (with_entry r (restored now e)) es
fresh_next r e [] now h apart fresh = tt
fresh_next r e (x ∷ es) now h apart fresh =
    let differs = find_none x e.name es apart in
    (
      fresh_one r (restored now e) x (unnamed e x h now differs.0) fresh.0,
      fresh_next r e es now h differs.1 fresh.1,
    )

pub load_entries_lem :
    (fuel : ℕ) (r : Registry) (comma : Bool) (es : List Entry) (now : ℕ)
    → length es < fuel
    → r.count + length es ≤ 50
    → All IsPlain es
    → Distinct name_of es
    → AllFresh r es
    → load_entries fuel r (rest_text comma es) true now ≡ some (loaded now r es)
load_entries_lem zero r comma es now enough room plain apart fresh = absurd (omega arith)
load_entries_lem (suc fuel) r comma [] now enough room plain apart fresh =
    load_stop fuel r (rest_text comma []) now (not_at_end comma []) (footer_found comma)
load_entries_lem (suc fuel) r comma (e ∷ es) now enough room plain apart fresh =
    load_step fuel r (with_entry r (restored now e)) (rest_text comma (e ∷ es)) (entry_body e)
      (behind es) now (not_at_end comma (e ∷ es)) (entry_found comma e es plain.0)
      (load_entry-entry_body r e now plain.0 (omega arith) fresh.0)
    ∙ ap (λ (t : Bytes). load_entries fuel (with_entry r (restored now e)) t true now)
        (behind_lem es)
    ∙ load_entries_lem fuel (with_entry r (restored now e)) (is_comma es) es now (omega arith)
        (omega arith) plain.1 apart.1 (fresh_next r e es now plain.0 apart.0 fresh.1)
