-- ===== src/Config/Layered.antt =====
-- The order of the configuration's files (src/foundation/argo_config.c): what a key stands for once
-- they are loaded.
use argo.Base.{
  ◌≡◌, refl, ◌∙◌, ap, true, false, not, ◌&&◌, List, [], ◌∷◌, ◌++◌, Option, none, some, arith,
  if◌then◌else◌, Bytes, Bool-cases, Option-cases, inl, inr, str_eq, str_eq_iff, sym,
}
use argo.Base.Nodes.{find_node, find-modify}
use argo.CString.{fgets_lines}
use argo.CString.Layers.{assigned, last_of, last_of-append}
use argo.Env.Load.{File, in_dir}
use argo.Error.{success}
use argo.Config.{
  Entry, Config, key_of, find_config_entry, parse_config_line, with_value, set_config_internal,
  Memory, load_line, load_lines, load_config_file, World, is_dots, load_names,
  load_config_directory, config_dirs, load_dirs, argo_config, argo_config_get, argo_config_reload,
}

abbrev pub all_given : Memory
all_given = record { line = λ l. true; entry = λ n. true }

-- What a key stands for in the list.
abbrev pub value_in : Bytes → List Entry → Option Bytes
value_in j head = elim (find_config_entry head j) [ none ↦ none | some e ↦ e.value ]

value-set :
    (head : List Entry) (k v j : Bytes)
    → value_in j (set_config_internal head k v true)
      ≡ (if str_eq k j then some v else value_in j head)
unfolding set_config_internal find_config_entry with_value find_node
value-set head k v j = elim (Option-cases (find_node key_of k head)) [
  | inl new ↦ rw (new, set_config_internal) (ground (arith))
  | inr (e, at) ↦
      rw (at, set_config_internal)
        (ground (
          arith,
          str_eq_iff k j,
          find-modify key_of k j (with_value (some v)) head (λ x. refl),
          ap (λ (b : Bytes). find_node key_of b head) {x = k} {y = j},
        ))
]

-- The key and the value on a line.
abbrev pub config_pair : Bytes → Option (Bytes × Bytes)
config_pair l = (parse_config_line l true).0

value-load_line :
    (head : List Entry) (l j : Bytes)
    → value_in j (load_line all_given l head) ≡ assigned (config_pair l) j (value_in j head)
unfolding load_line
value-load_line head l j = elim (Option-cases (config_pair l)) [
  | inl skipped ↦ rw (skipped, load_line)
  | inr ((k, v), at) ↦ rw (at, load_line) (value-set head k v j)
]

value-load_lines :
    (head : List Entry) (ls : List Bytes) (j : Bytes)
    → value_in j (load_lines all_given ls head) ≡ last_of config_pair j ls (value_in j head)
unfolding load_lines last_of
value-load_lines head [] j = refl
value-load_lines head (l ∷ ls) j =
    value-load_lines (load_line all_given l head) ls j
    ∙ ap (last_of config_pair j ls) (value-load_line head l j)

-- The lines of a file, none if it cannot be opened.
abbrev pub lines_of : Option File → List Bytes
lines_of none = []
lines_of (some f) = fgets_lines 4096 f.content

value-load_config_file :
    (head : List Entry) (f : Option File) (j : Bytes)
    → value_in j (load_config_file all_given f head)
      ≡ last_of config_pair j (lines_of f) (value_in j head)
unfolding load_config_file
value-load_config_file head none j = unfold last_of in refl
value-load_config_file head (some f) j = value-load_lines head (fgets_lines 4096 f.content) j

-- The lines of the regular files of a directory.
abbrev pub lines_under : World → Bytes → List Bytes → List Bytes
lines_under w dir [] = []
lines_under w dir (name ∷ names) =
    (if not (is_dots name) && w.regular (in_dir dir name)
      then lines_of (w.file (in_dir dir name))
      else [])
    ++ lines_under w dir names

value-load_names :
    (w : World) (dir : Bytes) (names : List Bytes) (head : List Entry) (j : Bytes)
    → value_in j (load_names all_given w dir names head)
      ≡ last_of config_pair j (lines_under w dir names) (value_in j head)
unfolding load_names
value-load_names w dir [] head j = unfold last_of in refl
value-load_names w dir (name ∷ names) head j =
    elim (Bool-cases (not (is_dots name) && w.regular (in_dir dir name))) [
      | inl read ↦
          rw (read, load_names)
            (value-load_names w dir names
                (load_config_file all_given (w.file (in_dir dir name)) head) j
              ∙ ap (last_of config_pair j (lines_under w dir names))
                  (value-load_config_file head (w.file (in_dir dir name)) j)
              ∙ sym (last_of-append config_pair j (lines_of (w.file (in_dir dir name))) _ _))
      | inr skipped ↦ rw (skipped, load_names) (value-load_names w dir names head j)
    ]

-- The lines of a directory, none if it cannot be opened.
abbrev pub lines_listed : World → Bytes → Option (List Bytes) → List Bytes
lines_listed w dir none = []
lines_listed w dir (some names) = lines_under w dir names

abbrev pub lines_in : World → Bytes → List Bytes
lines_in w dir = lines_listed w dir (w.dir dir)

value-load_config_directory :
    (w : World) (dir : Bytes) (head : List Entry) (j : Bytes)
    → value_in j (load_config_directory all_given w dir head)
      ≡ last_of config_pair j (lines_in w dir) (value_in j head)
unfolding load_config_directory
value-load_config_directory w dir head j = elim (Option-cases (w.dir dir)) [
  | inl gone ↦ rw (gone, load_config_directory) (unfold last_of in refl)
  | inr (names, at) ↦ rw (at, load_config_directory) (value-load_names w dir names head j)
]

-- The lines of some directories.
abbrev pub lines_of_dirs : World → List Bytes → List Bytes
lines_of_dirs w [] = []
lines_of_dirs w (dir ∷ dirs) = lines_in w dir ++ lines_of_dirs w dirs

value-load_dirs :
    (w : World) (dirs : List Bytes) (head : List Entry) (j : Bytes)
    → value_in j (load_dirs all_given w dirs head)
      ≡ last_of config_pair j (lines_of_dirs w dirs) (value_in j head)
unfolding load_dirs
value-load_dirs w [] head j = unfold last_of in refl
value-load_dirs w (dir ∷ dirs) head j =
    value-load_dirs w dirs (load_config_directory all_given w dir head) j
    ∙ ap (last_of config_pair j (lines_of_dirs w dirs)) (value-load_config_directory w dir head j)
    ∙ sym (last_of-append config_pair j (lines_in w dir) (lines_of_dirs w dirs) _)

-- With memory given, a reload from any state, and a load where none was done, succeed, and a key
-- then has the value that the last line to set it gives, over the directories in their order and
-- the regular files of each in the order of readdir. After a reload a key that no line sets is
-- unknown; a load keeps the entries that the list has.
pub argo_config_lem :
    (w : World) (c : Config) (j : Bytes)
    → let lines = lines_of_dirs w (config_dirs w) in
      let loaded = argo_config all_given w c in
      let reloaded = argo_config_reload all_given w c in
      (c.initialized ≡ false
        → (loaded.1 ≡ success)
          × (argo_config_get loaded.0 (some j)
              ≡ last_of config_pair j lines (argo_config_get c (some j))))
      × (reloaded.1 ≡ success)
      × (argo_config_get reloaded.0 (some j) ≡ last_of config_pair j lines none)
unfolding argo_config argo_config_reload argo_config_get
argo_config_lem w c j = (
  λ new. rw (new, argo_config) (refl, value-load_dirs w (config_dirs w) c.head j),
  refl,
  value-load_dirs w (config_dirs w) [] j ∙ unfold find_config_entry find_node in refl,
)
