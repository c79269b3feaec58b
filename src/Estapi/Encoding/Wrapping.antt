-- ===== src/Estapi/Encoding/Wrapping.antt =====
-- The wrapped base64 body: its lines, and that stripping its whitespace gives the text back.
use mathlib.Core.Logic.{dif_pos, dif_neg}
use mathlib.Core.WellFounded.{Acc}
use native.Mathlib.Decide.{dec_lt}
use native.Mathlib.Bridge.{le_prop}
use est.Common.{subst, ℕ, ◌+◌, ◌-◌, ◌≤◌, ◌<◌, ◌≡◌, ◌≢◌, refl, sym, ◌∙◌, ap, arith}
use est.Common.{[], ◌∷◌, ◌++◌, Bytes, All, length, take, drop, take-append-drop, length-take}
use est.Common.{length-drop, drop-drop, take-all, drop-all, lt_wf, ltb}
use est.Common.{if◌then◌else◌, Bool-cases, inl, inr, All-front, All-back}
use est.Base64.{encode_to_string}
use est.Base64.RoundTrip.{IsDigit}
use est.Utf8.{decode_rune-ascii, encode_rune-ascii}
use est.Estapi.Encoding.{is_whitespace, strip_runes, strip_whitespace, slice}
use est.Estapi.Encoding.{crlf, write_lines, write_base64_response, line_shrinks}

-- `body` is `text` in lines of at most 76 characters, each closed by CRLF, all but the last full.
pub data IsWrapped : Bytes → Bytes → Type 0 where
  done : IsWrapped [] []
  line :
      (l text body : Bytes)
      → 0 < length l
      → length l ≤ 76
      → (text ≢ [] → length l ≡ 76)
      → IsWrapped text body
      → IsWrapped (l ++ text) (l ++ (crlf ++ body))

strip_runes-digit : (c : ℕ) (s : Bytes) → IsDigit c → strip_runes 0 (c ∷ s) ≡ c ∷ strip_runes 0 s
unfolding strip_runes is_whitespace
strip_runes-digit c s h = rw (decode_rune-ascii c s h.ascii) (ground (arith, encode_rune-ascii c))

strip_runes-append :
    (xs ys : Bytes) → All IsDigit xs → strip_runes 0 (xs ++ ys) ≡ xs ++ strip_runes 0 ys
strip_runes-append [] ys h = refl
strip_runes-append (x ∷ xs) ys (hx, hxs) =
    strip_runes-digit x (xs ++ ys) hx ∙ ap (λ r. x ∷ r) (strip_runes-append xs ys hxs)

strip_runes-crlf : (s : Bytes) → strip_runes 0 (crlf ++ s) ≡ strip_runes 0 s
unfolding strip_runes is_whitespace
strip_runes-crlf s =
    rw (decode_rune-ascii b'\r' (b'\n' ∷ s) (omega arith), decode_rune-ascii b'\n' s (omega arith))

-- A wrapped body without its whitespace is the text.
strip_runes_wrapped :
    {text body : Bytes} → IsWrapped text body → All IsDigit text → strip_runes 0 body ≡ text
strip_runes_wrapped done h = unfold strip_runes in refl
strip_runes_wrapped (line l text body _ _ _ w) h =
    strip_runes-append l (crlf ++ body) (All-front IsDigit l text h)
    ∙ ap (λ r. l ++ r) (strip_runes-crlf body ∙ strip_runes_wrapped w (All-back IsDigit l text h))

sub_self : (n : ℕ) → n - n ≡ 0
sub_self n = omega arith

add_sub : (i n : ℕ) → i + n - i ≡ n
add_sub i n = omega arith

-- One round of the loop writes up to 76 of the `n` bytes that are left.
slice_left :
    (s : Bytes) (n : ℕ)
    → n ≤ length s
    → (slice s
        (length s - n)
        (if ltb (length s) (length s - n + 76) then length s else length s - n + 76))
      ≡ take 76 (drop (length s - n) s)
slice_left s n h = elim (Bool-cases (ltb (length s) (length s - n + 76))) [
  | inl e ↦ rw (
    e,
    take-all (length s - (length s - n)) (drop (length s - n) s)
        (omega (arith, length-drop (length s - n) s)),
    take-all 76 (drop (length s - n) s) (ground (arith, length-drop (length s - n) s)),
  )
  | inr e ↦ rw (e, add_sub (length s - n) 76)
]

-- What is left after a round.
drop_left :
    (s : Bytes) (n : ℕ)
    → n ≤ length s
    → drop (length s - (n - 76)) s ≡ drop 76 (drop (length s - n) s)
drop_left s n h = elim (dec_lt n 76) [
  | yes short ↦
      drop-all (length s - (n - 76)) s (omega arith)
      ∙ sym (drop-all 76 (drop (length s - n) s) (omega (arith, length-drop (length s - n) s)))
  | no long ↦ ap (λ i. drop i s) (omega arith) ∙ sym (drop-drop 76 (length s - n) s)
]

-- A line is full unless nothing follows it.
line_full :
    (s : Bytes) (n : ℕ)
    → n ≤ length s
    → drop 76 (drop (length s - n) s) ≢ []
    → length (take 76 (drop (length s - n) s)) ≡ 76
line_full s n h more = elim (dec_lt n 76) [
  | yes short ↦
      absurd
        (more (drop-all 76 (drop (length s - n) s) (omega (arith, length-drop (length s - n) s))))
  | no long ↦ omega (arith, length-take 76 (drop (length s - n) s), length-drop (length s - n) s)
]

write_lines-IsWrapped :
    (s : Bytes) (n : ℕ) (w : Acc ◌<◌ n)
    → n ≤ length s
    → IsWrapped (drop (length s - n) s) (write_lines s n w)
unfolding write_lines
write_lines-IsWrapped s n (Acc.intro _ smaller) h = elim (dec_lt 0 n) [
  | yes more ↦
      rw (dif_pos _ le_prop more, slice_left s n h)
        (let r = drop (length s - n) s in
          let rest = write_lines s (n - 76) (smaller _ (line_shrinks n more)) in
          subst (λ t. IsWrapped t (take 76 r ++ (crlf ++ rest))) (take-append-drop 76 r)
            (line (take 76 r) (drop 76 r) rest
              (omega (arith, length-take 76 r, length-drop (length s - n) s))
              (omega (arith, length-take 76 r)) (line_full s n h)
              (rw (drop_left s n h) at (
                write_lines-IsWrapped s (n - 76) (smaller _ (line_shrinks n more)) (omega arith)))))
  | no end ↦ rw (dif_neg _ end, drop-all (length s - n) s (omega arith)) IsWrapped.done
]

-- A response body holds the base64 text of the bytes in lines of at most 76 characters, all but the
-- last full and each closed by CRLF.
pub write_base64_response-IsWrapped :
    (content_type der : Bytes)
    → IsWrapped (encode_to_string der) (write_base64_response content_type der).body
unfolding write_base64_response
write_base64_response-IsWrapped content_type der =
    let s = encode_to_string der in
    subst (λ i. IsWrapped (drop i s) (write_base64_response content_type der).body)
      (sub_self (length s))
      (write_lines-IsWrapped s (length s) (lt_wf.apply (length s)) (omega arith))

pub strip_whitespace_wrapped :
    {text body : Bytes} → IsWrapped text body → All IsDigit text → strip_whitespace body ≡ text
unfolding strip_whitespace
strip_whitespace_wrapped w h = strip_runes_wrapped w h
