-- ===== src/Json/Written.antt =====
-- What `json_escape_string` of src/foundation/argo_json.c leaves in a buffer that begins with a text.
use mathlib.Core.List.{append-nil, append_assoc}
use argo.Base.{
  ℕ, ◌+◌, ◌-◌, ◌*◌, ◌%◌, ◌^◌, ◌≤◌, ◌<◌, ◌≡◌, refl, ap, ◌∙◌, true, false, [], ◌∷◌, ◌++◌, Option,
  some, arith, Bytes, length, length-append, Bool-cases, inl, inr,
}
use argo.CString.Print.Laws.{store-append, nul_free, nul_free-append}
use argo.Error.{success}
use argo.Json.{needs_escape, put, escape_loop, finish, escape_string}
use argo.Json.Buffer.{loop_step}
use argo.Json.Escape.{escaped, escaped_byte}

put_plain :
    (t r : Bytes) (i x c : ℕ)
    → i ≡ length t
    → needs_escape c ≡ false
    → put (t ++ x ∷ r) i c ≡ some ((t ++ c ∷ []) ++ r, i + 1)
unfolding put
put_plain t r i x c at plain = rw (plain, store-append t r i x c at) refl

put_special :
    (t r : Bytes) (i x y c : ℕ)
    → i ≡ length t
    → needs_escape c ≡ true
    → put (t ++ x ∷ y ∷ r) i c ≡ some ((t ++ b'\\' ∷ c ∷ []) ++ r, i + 2)
unfolding put
put_special t r i x y c at special =
    rw
      (
        special,
        store-append t (y ∷ r) i x b'\\' at,
        store-append (t ++ b'\\' ∷ []) r (i + 1) y c (omega (arith, length-append t (b'\\' ∷ []))),
        append_assoc t (b'\\' ∷ []) (c ∷ []),
      )
      refl

-- A byte of the text takes the place of as many bytes as it is escaped with.
put-append :
    (t r : Bytes) (i c : ℕ)
    → i ≡ length t
    → length (escaped_byte c) ≤ length r
    → (b : Bytes) × (put (t ++ r) i c
        ≡ some ((t ++ escaped_byte c) ++ b, i + length (escaped_byte c)))
      × (length b + length (escaped_byte c) ≡ length r)
put-append t r i c at room = elim (Bool-cases (needs_escape c)) [
  | inl special ↦ rw special (two special r (rw special at room))
  | inr plain ↦ rw plain (one plain r (rw plain at room))
]
  where
    one :
        needs_escape c ≡ false
        → (r : Bytes) → 1 ≤ length r
        → (b : Bytes) × (put (t ++ r) i c ≡ some ((t ++ c ∷ []) ++ b, i + 1))
          × (length b + 1 ≡ length r)
    one is [] h = absurd (omega arith)
    one is (x ∷ r) h = (r, put_plain t r i x c at is, omega arith)

    two :
        needs_escape c ≡ true
        → (r : Bytes) → 2 ≤ length r
        → (b : Bytes) × (put (t ++ r) i c ≡ some ((t ++ b'\\' ∷ c ∷ []) ++ b, i + 2))
          × (length b + 2 ≡ length r)
    two is [] h = absurd (omega arith)
    two is (x ∷ []) h = absurd (omega arith)
    two is (x ∷ y ∷ r) h = (r, put_special t r i x y c at is, omega arith)

length-escaped_byte : (c : ℕ) → 1 ≤ length (escaped_byte c)
length-escaped_byte c = ground arith

abbrev written : Bytes → ℕ → Option (Bytes × ℕ × Bytes)
written b i = some (b, i, [])

regroup :
    (t x y r : Bytes) {n m : ℕ}
    → n ≡ m
    → written (((t ++ x) ++ y) ++ r) n ≡ written ((t ++ (x ++ y)) ++ r) m
regroup t x y r same = rw (append_assoc t x y, same) refl

-- Where the rest of the buffer and the limit leave room, the escaped text goes behind `t`.
pub escape_loop-append :
    (limit : ℕ) (t r s : Bytes) (i : ℕ)
    → i ≡ length t
    → length (escaped s) ≤ length r
    → i + length (escaped s) ≤ limit
    → (b : Bytes) × (escape_loop limit (t ++ r) i s
        ≡ written ((t ++ escaped s) ++ b) (i + length (escaped s)))
      × (length b + length (escaped s) ≡ length r)
unfolding escaped
escape_loop-append limit t r [] i at room below =
    (r, unfold escape_loop in rw (append-nil t) (ap (written (t ++ r)) (omega arith)), omega arith)
escape_loop-append limit t r (c ∷ s) i at room below =
    let all = length-append (escaped_byte c) (escaped s) in
    let some_bytes = length-escaped_byte c in
    let first = put-append t r i c at (omega arith) in
    let rest =
      escape_loop-append limit (t ++ escaped_byte c) first.0 s (i + length (escaped_byte c))
        (omega (arith, length-append t (escaped_byte c))) (omega (arith, first.2)) (omega arith) in
    (
      rest.0,
      loop_step limit (t ++ r) i c s _ _ (omega arith) first.1
          ∙ rest.1
          ∙ regroup t (escaped_byte c) (escaped s) rest.0 (omega arith),
      omega (arith, first.2, rest.2),
    )

finish_written :
    (u b : Bytes) (old o : ℕ)
    → o ≡ length u
    → 1 ≤ length b
    → (b' : Bytes) × (finish old (written (u ++ b) o) ≡ some (u ++ 0 ∷ b', o, success))
      × (length b' + 1 ≡ length b)
unfolding finish
finish_written u [] old o at room = absurd (omega arith)
finish_written u (x ∷ b) old o at room =
    (b, rw (store-append u b o x 0 at, append_assoc u (0 ∷ []) b) refl, omega arith)

-- `json_escape_string` on a buffer of `size` bytes that begins with `t`: where the escaped text and
-- three bytes more fit, it goes behind `t`, with a NUL, and the offset is behind it.
pub escape_string-append :
    (size : ℕ) (t r s : Bytes) (i : ℕ)
    → size < 2 ^ 64
    → i ≡ length t
    → i + length r ≡ size
    → length (escaped s) + 3 ≤ length r
    → (b : Bytes) × (escape_string (t ++ r) size i s
        ≡ some (((t ++ escaped s) ++ 0 ∷ b), i + length (escaped s), success))
      × (length b + length (escaped s) + 1 ≡ length r)
unfolding escape_string
escape_string-append size t r s i small at total room =
    let limit : (size + 2 ^ 64 - 3) % 2 ^ 64 ≡ size - 3 = omega arith in
    let did = escape_loop-append (size - 3) t r s i at (omega arith) (omega arith) in
    let ended =
      finish_written (t ++ escaped s) did.0 i (i + length (escaped s))
        (omega (arith, length-append t (escaped s))) (omega (arith, did.2)) in
    (
      ended.0,
      ap (λ (n : ℕ). finish i (escape_loop n (t ++ r) i s)) limit ∙ ap (finish i) did.1 ∙ ended.1,
      omega (arith, did.2, ended.2),
    )

-- Escaping at most doubles a text, and puts no NUL into it.
pub length-escaped : (s : Bytes) → length (escaped s) ≤ length s * 2
unfolding escaped
length-escaped [] = omega arith
length-escaped (c ∷ s) =
    let short : length (escaped_byte c) ≤ 2 = ground arith in
    omega (arith, length-append (escaped_byte c) (escaped s), length-escaped s)

pub nul_free-escaped : (s : Bytes) → nul_free s ≡ true → nul_free (escaped s) ≡ true
unfolding escaped
nul_free-escaped [] h = refl
nul_free-escaped (c ∷ s) h =
    nul_free-append (escaped_byte c) (escaped s) (ground arith) (nul_free-escaped s (ground arith))
