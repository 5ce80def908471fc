-- ===== src/Env/Parse.antt =====
-- Reading back the lines of an environment file (src/foundation/argo_env_load.c).
use argo.Base.{
  ℕ, ◌≡◌, ◌≢◌, refl, ◌∙◌, ap, sym, true, false, [], ◌∷◌, ◌++◌, none, some, arith, ◌==◌, Bytes, All,
  ◌⊎◌, inl, inr,
}
use mathlib.Core.List.{append-nil}
use argo.CString.{is_space, trim, strip_quotes}
use argo.CString.Laws.{
  Lacks, cut-append, EndsPlain, IsTrimmed, IsBlank, EndsPlain-append, trim_padded, trim_id, IsQuote,
  quoted, strip_quotes-quoted, quoted-IsTrimmed,
}
use argo.Json.{strip}
use argo.Error.{success}
use argo.Env.Lines.{export_prefix, drop_export, parse_pair, parse_trimmed, parse_env_line}

-- The bytes of a name in a file: no whitespace and no '='.
abbrev pub IsKeyByte : ℕ → Type 0
IsKeyByte c = (is_space c ≡ false) × (c ≢ b'=')

-- A name that a line can set: it also does not start like a comment.
abbrev pub IsKey : Bytes → Type 0
IsKey [] = ⊥
IsKey (c ∷ s) = (c ≢ b'#') × All IsKeyByte (c ∷ s)

key-Lacks : (s : Bytes) → All IsKeyByte s → Lacks b'=' s
key-Lacks [] h = tt
key-Lacks (c ∷ s) h = (h.0.1, key-Lacks s h.1)

key-EndsPlain : (s : Bytes) → All IsKeyByte s → EndsPlain s
key-EndsPlain [] h = tt
key-EndsPlain (c ∷ []) h = h.0.0
key-EndsPlain (c ∷ d ∷ s) h = key-EndsPlain (d ∷ s) h.1

abbrev HasSpace : Bytes → Type 0
HasSpace [] = ⊥
HasSpace (c ∷ s) = (is_space c ≡ true) ⊎ HasSpace s

-- A prefix with a space in it does not fit a name and its '='.
strip_key :
    (pre key rest : Bytes)
    → HasSpace pre
    → Lacks b'=' pre
    → All IsKeyByte key
    → strip pre (key ++ b'=' ∷ rest) ≡ none
unfolding strip
strip_key [] key rest h l k = absurd h
strip_key (x ∷ pre) [] rest h l k = ground (arith, l.0)
strip_key (x ∷ pre) (c ∷ key) rest (inl space) l k = ground (arith, k.0)
strip_key (x ∷ pre) (c ∷ key) rest (inr later) l k =
    ground (arith, strip_key pre key rest later l.1 k.1)

export-Lacks : Lacks b'=' export_prefix
export-Lacks = omega arith

drop_export_key :
    (key rest : Bytes) → All IsKeyByte key → drop_export (key ++ b'=' ∷ rest) ≡ key ++ b'=' ∷ rest
unfolding drop_export
drop_export_key key rest k = rw (
  strip_key export_prefix key rest (inr (inr (inr (inr (inr (inr (inl refl))))))) export-Lacks k,
  drop_export,
)

trim_left : (p s : Bytes) → IsBlank p → IsTrimmed s → trim (p ++ s) ≡ s
trim_left p s hp h =
    ap (λ (t : Bytes). trim (p ++ t)) (sym (append-nil s)) ∙ trim_padded p s [] hp h tt

parse_pair_key :
    (c : ℕ) (name p value : Bytes)
    → All IsKeyByte (c ∷ name)
    → IsBlank p
    → IsTrimmed value
    → parse_pair ((c ∷ name) ++ b'=' ∷ (p ++ value)) ≡ some (c ∷ name, strip_quotes value)
unfolding parse_pair
parse_pair_key c name p value k hp h =
    let found = cut-append b'=' (c ∷ name) (p ++ value) (key-Lacks (c ∷ name) k) in
    let named = trim_id (c ∷ name) (k.0.0, key-EndsPlain (c ∷ name) k) in
    rw (found, parse_pair) (rw named (rw (trim_left p value hp h)))

-- What stands on a line: the name, '=', whitespace and the value.
abbrev pub assignment : Bytes → Bytes → Bytes → Bytes
assignment key p value = key ++ b'=' ∷ (p ++ value)

assignment-EndsPlain :
    (key p value : Bytes) → IsTrimmed value → value ≢ [] → EndsPlain (assignment key p value)
assignment-EndsPlain key p value h n =
    EndsPlain-append key (b'=' ∷ (p ++ value)) (EndsPlain-append (b'=' ∷ p) value h.1 n) (cc)

parse_plain :
    (key p value : Bytes)
    → IsKey key
    → IsBlank p
    → IsTrimmed value
    → parse_trimmed (assignment key p value) ≡ some (key, strip_quotes value)
unfolding parse_trimmed
parse_plain [] p value k hp h = absurd k
parse_plain (c ∷ name) p value k hp h =
    let dropped = drop_export_key (c ∷ name) (p ++ value) k.1 in
    let plain : (c == b'#') ≡ false = ground (arith, k.0) in
    rw plain (rw dropped (parse_pair_key c name p value k.1 hp h))

export_plain :
    (key p value : Bytes)
    → IsKey key
    → IsBlank p
    → IsTrimmed value
    → value ≢ []
    → parse_trimmed (export_prefix ++ assignment key p value) ≡ some (key, strip_quotes value)
unfolding parse_trimmed drop_export strip
export_plain [] p value k hp h n = absurd k
export_plain (c ∷ name) p value k hp h n =
    let trimmed =
      trim_id (assignment (c ∷ name) p value)
        (k.1.0.0, assignment-EndsPlain (c ∷ name) p value h n) in
    rw trimmed (parse_pair_key c name p value k.1 hp h)

parse_env_line-assignment :
    (p key q value r : Bytes)
    → IsBlank p
    → IsBlank q
    → IsBlank r
    → IsKey key
    → IsTrimmed value
    → value ≢ []
    → (parse_env_line (p ++ (assignment key q value ++ r)) true
        ≡ (some (key, strip_quotes value), success))
      × (parse_env_line (p ++ ((export_prefix ++ assignment key q value) ++ r)) true
          ≡ (some (key, strip_quotes value), success))
unfolding parse_env_line
parse_env_line-assignment p [] q value r hp hq hr k h n = absurd k
parse_env_line-assignment p (c ∷ name) q value r hp hq hr k h n =
    let ends = assignment-EndsPlain (c ∷ name) q value h n in
    (
      rw (trim_padded p (assignment (c ∷ name) q value) r hp (k.1.0.0, ends) hr)
          (ap (λ x. (x, success)) (parse_plain (c ∷ name) q value k hq h)),
      rw
          (trim_padded p (export_prefix ++ assignment (c ∷ name) q value) r hp
            (refl, EndsPlain-append export_prefix (assignment (c ∷ name) q value) ends (cc)) hr)
          (ap (λ x. (x, success)) (export_plain (c ∷ name) q value k hq h n)),
    )

-- A value in quotes is read back whole, whatever bytes it holds: the line NAME="value", with
-- whitespace around it and in front of the value, and with or without "export " in front of the
-- name, gives the name and the value. The name holds no whitespace and no '=', and does not start
-- with '#'.
pub parse_env_line-quoted :
    (p key q v r : Bytes) (quote : ℕ)
    → IsBlank p
    → IsBlank q
    → IsBlank r
    → IsKey key
    → IsQuote quote
    → (parse_env_line (p ++ (assignment key q (quoted quote v) ++ r)) true
        ≡ (some (key, v), success))
      × (parse_env_line (p ++ ((export_prefix ++ assignment key q (quoted quote v)) ++ r)) true
          ≡ (some (key, v), success))
parse_env_line-quoted p key q v r quote hp hq hr k h =
    let plain = strip_quotes-quoted quote v h in
    let (bare, exported) =
      parse_env_line-assignment p key q (quoted quote v) r hp hq hr k (quoted-IsTrimmed quote v h)
        (cc) in
    (
      bare ∙ ap (λ (x : Bytes). (some (key, x), success)) plain,
      exported ∙ ap (λ (x : Bytes). (some (key, x), success)) plain,
    )
