-- ===== src/Json/Buffer.antt =====
-- The writes of `json_escape_string` in src/foundation/argo_json.c and the end of its buffer.
use argo.Base.{
  ℕ, ◌+◌, ◌^◌, ◌≤◌, ◌<◌, ◌≡◌, ◌≢◌, refl, [], ◌∷◌, none, some, arith, ltb, Bytes, set, length,
  length-set, Bool-cases, Option-cases, inl, inr,
}
use argo.Json.{store, put, escape_loop, finish, escape_string}

-- What one byte's write keeps and how far it goes.
put-some :
    (dest : Bytes) (offset c : ℕ) {d : Bytes} {o : ℕ}
    → put dest offset c ≡ some (d, o)
    → (length d ≡ length dest) × (offset < o) × (o ≤ length dest) × (o ≤ offset + 2)
unfolding put store
put-some dest offset c {d} {o} h = ground (
  arith,
  length-set dest offset b'\\',
  length-set dest offset c,
  length-set (set dest offset b'\\') (offset + 1) c,
)

put_fits : (dest : Bytes) (offset c : ℕ) → offset + 1 < length dest → put dest offset c ≢ none
unfolding put store
put_fits dest offset c h = ground (arith, length-set dest offset b'\\')

-- One round of the loop, by its two tests.
pub loop_step :
    (limit : ℕ) (dest : Bytes) (offset c : ℕ) (s d : Bytes) (o : ℕ)
    → offset < limit
    → put dest offset c ≡ some (d, o)
    → escape_loop limit dest offset (c ∷ s) ≡ escape_loop limit d o s
unfolding escape_loop
loop_step limit dest offset c s d o lt did = ground arith

loop_fault :
    (limit : ℕ) (dest : Bytes) (offset c : ℕ) (s : Bytes)
    → offset < limit
    → put dest offset c ≡ none
    → escape_loop limit dest offset (c ∷ s) ≡ none
unfolding escape_loop
loop_fault limit dest offset c s lt bad = ground arith

loop_full :
    (limit : ℕ) (dest : Bytes) (offset c : ℕ) (s : Bytes)
    → limit ≤ offset
    → escape_loop limit dest offset (c ∷ s) ≡ some (dest, offset, c ∷ s)
unfolding escape_loop
loop_full limit dest offset c s le = ground arith

loop_fits :
    (limit old : ℕ) (dest : Bytes) (offset : ℕ) (src : Bytes)
    → limit + 3 ≤ length dest
    → offset < length dest
    → finish old (escape_loop limit dest offset src) ≢ none
unfolding finish store
loop_fits limit old dest offset [] h lt = unfold escape_loop in ground arith
loop_fits limit old dest offset (c ∷ s) h lt = elim (Bool-cases (ltb offset limit)) [
  | inr full ↦ rw (loop_full limit dest offset c s (ground arith)) (λ e. cc)
  | inl room ↦ elim (Option-cases (put dest offset c)) [
    | inl fault ↦ absurd (put_fits dest offset c (ground arith) fault)
    | inr ((d, o), did) ↦
        let went = put-some dest offset c {d = d} {o = o} did in
        let inside : offset < limit = ground arith in
        rw (loop_step limit dest offset c s d o inside did)
          (loop_fits limit old d o s (omega arith) (omega arith))
  ]
]

loop_faults :
    (limit old : ℕ) (dest : Bytes) (offset : ℕ) (src : Bytes)
    → length dest < limit
    → offset ≤ length dest
    → length dest ≤ offset + length src
    → finish old (escape_loop limit dest offset src) ≡ none
unfolding finish store
loop_faults limit old dest offset [] h le long = unfold escape_loop in ground arith
loop_faults limit old dest offset (c ∷ s) h le long =
    let inside : offset < limit = omega arith in
    elim (Option-cases (put dest offset c)) [
      | inl fault ↦ rw (loop_fault limit dest offset c s inside fault) refl
      | inr ((d, o), did) ↦
          let went = put-some dest offset c {d = d} {o = o} did in
          rw (loop_step limit dest offset c s d o inside did)
            (loop_faults limit old d o s (omega arith) (omega arith) (omega arith))
    ]

-- With a buffer of at least 3 and fewer than 2 ^ 64 bytes, whose size is given truly, and an offset
-- inside of it, no text makes the escaping write outside of the buffer.
pub escape_string_fits :
    (dest : Bytes) (offset : ℕ) (src : Bytes)
    → 3 ≤ length dest
    → length dest < 2 ^ 64
    → offset < length dest
    → escape_string dest (length dest) offset src ≢ none
unfolding escape_string
escape_string_fits dest offset src h small lt = loop_fits _ offset dest offset src (omega arith) lt

-- With a buffer of fewer than 3 bytes the unsigned difference `dest_size - 3` wraps around, and a
-- text with at least as many bytes as the buffer has left is written past its end.
pub escape_string_overflows :
    (dest : Bytes) (offset : ℕ) (src : Bytes)
    → length dest < 3
    → offset ≤ length dest
    → length dest ≤ offset + length src
    → escape_string dest (length dest) offset src ≡ none
unfolding escape_string
escape_string_overflows dest offset src h le long =
    loop_faults _ offset dest offset src (omega arith) le long
