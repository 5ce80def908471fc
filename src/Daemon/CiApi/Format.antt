-- ===== src/Daemon/CiApi/Format.antt =====
-- The response of src/daemon/argo_daemon_ci_api.c: its text and its buffer.
use argo.Base.{
  ℕ, suc, ◌+◌, ◌-◌, ◌%◌, ◌^◌, ◌≤◌, ◌<◌, ◌≡◌, refl, ap, ◌∙◌, true, [], ◌∷◌, ◌++◌, Option, some,
  arith, Bytes, codes, drop, length, length-append, length-drop,
}
use argo.CString.{c_string}
use argo.CString.Print.{snprintf, format}
use argo.CString.Print.Laws.{
  snprintf-append, length-format, nul_free, nul_free-append, nul_free-format, c_string-append,
}
use argo.Error.{success}
use argo.Json.{escape_string}
use argo.Json.Escape.{escaped}
use argo.Json.Written.{escape_string-append, length-escaped, nul_free-escaped}
use argo.Daemon.CiApi.{response_size, prefix_pieces, close_response, format_ci_response}

-- What the text is to be.
abbrev pub response_text : Bytes → Bytes → Bytes
response_text name ai = (format (prefix_pieces name) ++ escaped ai) ++ codes "\"}"

format_steps :
    (malloc : ℕ → Option Bytes) (name ai b b1 b2 b3 : Bytes) (offset : ℕ)
    → malloc (response_size ai) ≡ some b
    → snprintf b 0 (response_size ai) (format (prefix_pieces name)) ≡ some b1
    → escape_string b1 (response_size ai) (length (format (prefix_pieces name))) ai
      ≡ some (b2, offset, success)
    → close_response (response_size ai) b2 offset success ≡ some (some b3, success)
    → format_ci_response malloc name ai ≡ some (some b3, success)
unfolding format_ci_response
format_steps malloc name ai b b1 b2 b3 offset got opened wrote closed =
    rw (format_ci_response, got, opened, wrote, closed) refl

close_steps :
    (size : ℕ) (b b' : Bytes) (offset : ℕ) (text : Bytes)
    → snprintf b offset ((size + 2 ^ 64 - offset % 2 ^ 64) % 2 ^ 64) (codes "\"}") ≡ some b'
    → c_string b' ≡ text
    → close_response size b offset success ≡ some (some text, success)
unfolding close_response
close_steps size b b' offset text did is = rw (close_response, did, is) refl

-- With a buffer of the requested size, whatever stands in it, and a name of a provider of at most
-- 400 bytes, the response holds the whole of any answer, escaped; nothing is written outside of
-- the buffer and no answer is refused for lack of room.
pub format_ci_response_lem :
    (malloc : ℕ → Option Bytes) (name ai b : Bytes)
    → malloc (response_size ai) ≡ some b
    → length b ≡ response_size ai
    → response_size ai < 2 ^ 64
    → length name ≤ 400
    → nul_free name ≡ true
    → nul_free ai ≡ true
    → format_ci_response malloc name ai ≡ some (some (response_text name ai), success)
unfolding response_size
format_ci_response_lem malloc name ai b got sized small short clean clean' =
    let size = response_size ai in
    let front = format (prefix_pieces name) in
    let front_le : length front ≤ 33 + (400 + (14 + 0)) =
      length-format (prefix_pieces name) (33 ∷ 400 ∷ 14 ∷ [])
        (omega arith, (short, (omega arith, tt))) in
    let doubled = length-escaped ai in
    let opened = snprintf-append [] b front 0 size refl (omega arith) (omega arith) in
    let r1 = 0 ∷ drop (suc (length front)) b in
    let kept = length-drop (suc (length front)) b in
    let wrote =
      escape_string-append size front r1 ai (length front) small refl (omega arith) (omega arith) in
    let u = front ++ escaped ai in
    let r2 = 0 ∷ wrote.0 in
    let offset = length front + length (escaped ai) in
    let at : offset ≡ length u = omega (arith, length-append front (escaped ai)) in
    let counted = wrote.2 in
    let left : (size + 2 ^ 64 - offset % 2 ^ 64) % 2 ^ 64 ≡ length r2 = omega arith in
    let closed =
      snprintf-append u r2 (codes "\"}") offset (length r2) at (omega arith) (omega arith) in
    let no_nul : nul_free (response_text name ai) ≡ true =
      nul_free-append u (codes "\"}")
        (nul_free-append front (escaped ai)
          (nul_free-format (prefix_pieces name) (refl, (clean, (refl, tt))))
          (nul_free-escaped ai clean'))
        refl in
    format_steps malloc name ai b _ _ (response_text name ai) offset got opened wrote.1 (
      close_steps size (u ++ r2) _ offset (response_text name ai)
        (ap (λ (n : ℕ). snprintf (u ++ r2) offset n (codes "\"}")) left ∙ closed)
        (c_string-append (response_text name ai) (drop 3 r2) no_nul))
