-- ===== src/Env/Load/Files.antt =====
-- The order of the environment's files (src/foundation/argo_env_load.c): what a name stands for once
-- they are loaded.
use argo.Base.{
  ℕ, ◌≡◌, refl, ◌∙◌, ap, Bool, true, false, List, [], ◌∷◌, ◌++◌, Option, none, some, arith, ◌==◌,
  if◌then◌else◌, Bytes, Option-cases, Bool-cases, inl, inr, str_eq, codes, sym,
}
use argo.CString.{trim, trim_start, trim_end, cut, fgets_lines}
use argo.CString.Laws.{Lacks, cut_sound}
use argo.CString.Layers.{assigned, last_of, last_of-append}
use argo.Error.{success}
use argo.Env.{Env, lookup_value, set_env_internal}
use argo.Env.Store.{IsName, IsValid, Backed, set_env_internal-IsValid, lookup-set_env_internal}
use argo.Env.Lines.{parse_pair, parse_trimmed, drop_export, parse_env_line}
use argo.Env.Load.{
  Memory, File, World, in_dir, load_line, load_lines, load_env_file, load_optional_home_env,
  load_two, load_project_and_local_files, project_file, local_file, root_var,
}

abbrev pub all_given : Memory
all_given = record { line = λ l. true; entry = λ n. true; table = λ n. true }

trim_start-Lacks : (c : ℕ) (s : Bytes) → Lacks c s → Lacks c (trim_start s)
unfolding trim_start
trim_start-Lacks c [] h = tt
trim_start-Lacks c (x ∷ s) h = ground (arith, trim_start-Lacks c s h.1)

trim_end-Lacks : (c : ℕ) (s : Bytes) → Lacks c s → Lacks c (trim_end s)
unfolding trim_end
trim_end-Lacks c [] h = tt
trim_end-Lacks c (x ∷ s) h = ground (arith, trim_end-Lacks c s h.1)

trim-Lacks : (c : ℕ) (s : Bytes) → Lacks c s → Lacks c (trim s)
unfolding trim
trim-Lacks c s h = trim_end-Lacks c (trim_start s) (trim_start-Lacks c s h)

-- The name of a parsed line holds no '='.
parse_pair-IsName : (s k v : Bytes) → parse_pair s ≡ some (k, v) → IsName k
unfolding parse_pair
parse_pair-IsName s k v h = elim (Option-cases (cut b'=' s)) [
  | inl gone ↦ absurd (ground arith)
  | inr ((key, value), at) ↦
      let lacks = trim-Lacks b'=' key (cut_sound b'=' s key value at).0 in ground (arith, lacks)
]

parse_trimmed-IsName : (s k v : Bytes) → parse_trimmed s ≡ some (k, v) → IsName k
unfolding parse_trimmed
parse_trimmed-IsName [] k v h = absurd (cc)
parse_trimmed-IsName (c ∷ s) k v h = elim (Bool-cases (c == b'#')) [
  | inl comment ↦ absurd (ground arith)
  | inr plain ↦ parse_pair-IsName (drop_export (c ∷ s)) k v (ground arith)
]

parse_env_line-IsName : (l k v : Bytes) → (parse_env_line l true).0 ≡ some (k, v) → IsName k
unfolding parse_env_line
parse_env_line-IsName l k v h = parse_trimmed-IsName (trim l) k v h

-- The name and the value on a line.
abbrev pub env_pair : Bytes → Option (Bytes × Bytes)
env_pair l = (parse_env_line l true).0

-- The value that the last line to set a name gives it.
abbrev pub last_value : Bytes → List Bytes → Option Bytes → Option Bytes
last_value = last_of env_pair

last_value-append :
    (j : Bytes) (xs ys : List Bytes) (old : Option Bytes)
    → last_value j (xs ++ ys) old ≡ last_value j ys (last_value j xs old)
last_value-append = last_of-append env_pair

-- With memory given, a set succeeds.
set_given_code : (env : Env) (name v : Bytes) → (set_env_internal env name v true true).1 ≡ success
unfolding set_env_internal
set_given_code env name v = ground arith

set_given :
    (env : Env) (name v j : Bytes)
    → IsName name
    → IsName j
    → Backed env
    → lookup_value j (set_env_internal env name v true true).0.entries
      ≡ (if str_eq name j then some v else lookup_value j env.entries)
set_given env name v j hn hj backed =
    elim (lookup-set_env_internal env name v j true true hn hj backed) [
      | inl (ok, found) ↦ found
      | inr (bad, same) ↦ absurd (cc (bad, set_given_code env name v))
    ]

lookup-load_line :
    (env : Env) (l j : Bytes)
    → IsName j
    → IsValid env
    → lookup_value j (load_line all_given l env).entries
      ≡ assigned (parse_env_line l true).0 j (lookup_value j env.entries)
unfolding load_line
lookup-load_line env l j hj h = elim (Option-cases (parse_env_line l true).0) [
  | inl skipped ↦ rw (skipped, load_line)
  | inr ((k, v), at) ↦
      rw (at, load_line) (set_given env k v j (parse_env_line-IsName l k v at) hj h.backed)
]

load_line-IsValid : (env : Env) (l : Bytes) → IsValid env → IsValid (load_line all_given l env)
unfolding load_line
load_line-IsValid env l h = elim (Option-cases (parse_env_line l true).0) [
  | inl skipped ↦ rw (skipped, load_line) h
  | inr ((k, v), at) ↦
      rw (at, load_line)
        (set_env_internal-IsValid env k v true true (parse_env_line-IsName l k v at) h)
]

lookup-load_lines :
    (env : Env) (ls : List Bytes) (j : Bytes)
    → IsName j
    → IsValid env
    → lookup_value j (load_lines all_given ls env).entries
      ≡ last_value j ls (lookup_value j env.entries)
unfolding load_lines last_of
lookup-load_lines env [] j hj h = refl
lookup-load_lines env (l ∷ ls) j hj h =
    lookup-load_lines (load_line all_given l env) ls j hj (load_line-IsValid env l h)
    ∙ ap (last_value j ls) (lookup-load_line env l j hj h)

load_lines-IsValid :
    (env : Env) (ls : List Bytes) → IsValid env → IsValid (load_lines all_given ls env)
unfolding load_lines
load_lines-IsValid env [] h = h
load_lines-IsValid env (l ∷ ls) h =
    load_lines-IsValid (load_line all_given l env) ls (load_line-IsValid env l h)

-- The lines of a file, none if it cannot be opened.
abbrev pub lines_of : Option File → List Bytes
lines_of none = []
lines_of (some f) = fgets_lines 4096 f.content

lookup-load_env_file :
    (env : Env) (f : Option File) (required : Bool) (j : Bytes)
    → IsName j
    → IsValid env
    → lookup_value j (load_env_file all_given f required env).0.entries
      ≡ last_value j (lines_of f) (lookup_value j env.entries)
unfolding load_env_file
lookup-load_env_file env none required j hj h = unfold last_of in refl
lookup-load_env_file env (some f) required j hj h =
    lookup-load_lines env (fgets_lines 4096 f.content) j hj h

load_env_file-IsValid :
    (env : Env) (f : Option File) (required : Bool)
    → IsValid env
    → IsValid (load_env_file all_given f required env).0
unfolding load_env_file
load_env_file-IsValid env none required h = h
load_env_file-IsValid env (some f) required h =
    load_lines-IsValid env (fgets_lines 4096 f.content) h

-- The lines of the two files of the home directory.
abbrev pub home_lines : World → List Bytes
home_lines w = elim w.home [
  | none ↦ []
  | some home ↦
      lines_of (w.file (in_dir home (codes ".env")))
      ++ lines_of (w.file (in_dir home (codes ".argorc")))
]

lookup-home :
    (env : Env) (w : World) (j : Bytes)
    → IsName j
    → IsValid env
    → lookup_value j (load_optional_home_env all_given w env).entries
      ≡ last_value j (home_lines w) (lookup_value j env.entries)
unfolding load_optional_home_env
lookup-home env w j hj h = elim (Option-cases w.home) [
  | inl gone ↦ rw (gone, load_optional_home_env) (unfold last_of in refl)
  | inr (home, at) ↦
      let first = load_env_file all_given (w.file (in_dir home (codes ".env"))) false env in
      rw (at, load_optional_home_env)
        (lookup-load_env_file first.0 (w.file (in_dir home (codes ".argorc"))) false j hj
            (load_env_file-IsValid env (w.file (in_dir home (codes ".env"))) false h)
          ∙ ap (last_value j _)
              (lookup-load_env_file env (w.file (in_dir home (codes ".env"))) false j hj h)
          ∙ sym (last_value-append j _ _ _))
]

home-IsValid :
    (env : Env) (w : World) → IsValid env → IsValid (load_optional_home_env all_given w env)
unfolding load_optional_home_env
home-IsValid env w h = elim (Option-cases w.home) [
  | inl gone ↦ rw (gone, load_optional_home_env) h
  | inr (home, at) ↦
      rw (at, load_optional_home_env)
        (load_env_file-IsValid _ (w.file (in_dir home (codes ".argorc"))) false
          (load_env_file-IsValid env (w.file (in_dir home (codes ".env"))) false h))
]

load_two_given :
    (env : Env) (w : World) (project local : Bytes) (f : File)
    → w.file project ≡ some f
    → f.failed ≡ false
    → load_two all_given w project local env ≡ (
      (load_env_file all_given
          (w.file local)
          false
          (load_env_file all_given (some f) true env).0).0,
      success,
    )
unfolding load_two load_env_file
load_two_given env w project local f at good = rw (at, load_two) (ground arith)

-- The files that are loaded once the root directory is known, in their order.
abbrev pub layers : World → Bytes → File → List Bytes
layers w root f = home_lines w ++ (lines_of (some f) ++ lines_of (w.file (in_dir root local_file)))

-- With memory given, a valid environment, the root directory in it and the project's file readable,
-- loading the files succeeds, keeps the environment valid, and leaves each name with the value that
-- the last line to set it gives, in the order ~/.env, ~/.argorc, the project's file, the local
-- file; a name that no line sets keeps its value.
pub load_files_lem :
    (env : Env) (w : World) (c : ℕ) (root : Bytes) (f : File) (j : Bytes)
    → IsValid env
    → IsName j
    → w.paths ≡ true
    → lookup_value root_var (load_optional_home_env all_given w env).entries ≡ some (c ∷ root)
    → w.file (in_dir (c ∷ root) project_file) ≡ some f
    → f.failed ≡ false
    → let r = load_project_and_local_files all_given w (load_optional_home_env all_given w env) in
      (r.1 ≡ success)
      × (lookup_value j r.0.entries
          ≡ last_value j (layers w (c ∷ root) f) (lookup_value j env.entries))
      × IsValid r.0
unfolding load_project_and_local_files load_optional_home_env last_of
load_files_lem env w c root f j h hj given at found good =
    let home = load_optional_home_env all_given w env in
    let local = w.file (in_dir (c ∷ root) local_file) in
    let project = load_env_file all_given (some f) true home in
    rw (given, load_project_and_local_files)
      (rw (at, load_project_and_local_files)
        (rw (load_two_given home w _ (in_dir (c ∷ root) local_file) f found good) (
          refl,
          lookup-load_env_file project.0 local false j hj
                (load_env_file-IsValid home (some f) true (home-IsValid env w h))
              ∙ ap (last_value j (lines_of local)) (
                  lookup-load_env_file home (some f) true j hj (home-IsValid env w h)
                  ∙ ap (last_value j (lines_of (some f))) (lookup-home env w j hj h))
              ∙ sym (
                  last_value-append j (home_lines w) (lines_of (some f) ++ lines_of local) _
                  ∙ last_value-append j (lines_of (some f)) (lines_of local) _),
          load_env_file-IsValid project.0 local false
              (load_env_file-IsValid home (some f) true (home-IsValid env w h)),
        )))
