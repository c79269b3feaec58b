-- ===== src/Store/FileStore/Names.antt =====
-- The file names of a store: different serials, and the three kinds of file, never share one.
use est.Common.{
  ℕ, ◌+◌, ◌≡◌, ◌≢◌, refl, sym, ◌∙◌, ap, arith, [], ◌∷◌, ◌++◌, Bytes, ascii, ℤ, pos, negsuc, All,
  append_assoc, length, length-append,
}
use est.Hex.{hex, pad_zeros}
use est.Hex.Value.{value_from, value_from-pad_zeros, pad_zeros-IsHexDigit, IsHexDigit}
use est.Fs.{Faults}
use est.Store.Atomic.{temp_path}
use est.Store.FileStore.{FileStore, serial_hex, join, csr_path, cert_path, cert_meta_path}

-- No digits begin with a sign.
sign-ne : (s t : Bytes) → All IsHexDigit s → s ≢ b'-' ∷ t
sign-ne [] t h e = cc
sign-ne (c ∷ s) t h e = ground (arith, h.0, e)

value_of_eq : (w n m : ℕ) → pad_zeros w (hex n) ≡ pad_zeros w (hex m) → n ≡ m
value_of_eq w n m e =
    sym (value_from-pad_zeros w n) ∙ ap (value_from 0) e ∙ value_from-pad_zeros w m

-- The text of a serial determines it.
pub serial_hex-injective : (x y : ℤ) → serial_hex x ≡ serial_hex y → x ≡ y
unfolding serial_hex
serial_hex-injective (pos n) (pos m) e = ap pos (value_of_eq 40 n m e)
serial_hex-injective (pos n) (negsuc m) e = absurd (sign-ne _ _ (pad_zeros-IsHexDigit 40 n) e)
serial_hex-injective (negsuc n) (pos m) e = absurd (sign-ne _ _ (pad_zeros-IsHexDigit 40 m) (sym e))
serial_hex-injective (negsuc n) (negsuc m) e =
    let same : n + 1 ≡ m + 1 = value_of_eq 39 (n + 1) (m + 1) (ground (arith, e)) in
    ap negsuc (omega arith)

append-cancel_left : (s t u : Bytes) → s ++ t ≡ s ++ u → t ≡ u
append-cancel_left [] t u e = e
append-cancel_left (c ∷ s) t u e = append-cancel_left s t u (ground (arith, e))

append-cancel_right : (s t u : Bytes) → s ++ u ≡ t ++ u → s ≡ t
append-cancel_right [] [] u e = refl
append-cancel_right [] (b ∷ t) u e = absurd (omega (arith, ap length e, length-append t u))
append-cancel_right (a ∷ s) [] u e = absurd (omega (arith, ap length e, length-append s u))
append-cancel_right (a ∷ s) (b ∷ t) u e =
    ground (arith, append-cancel_right s t u (ground (arith, e)))

last-eq : (s t : Bytes) (c d : ℕ) → s ++ (c ∷ []) ≡ t ++ (d ∷ []) → c ≡ d
last-eq [] [] c d e = ground (arith, e)
last-eq [] (b ∷ t) c d e = absurd (omega (arith, ap length e, length-append t (d ∷ [])))
last-eq (a ∷ s) [] c d e = absurd (omega (arith, ap length e, length-append s (c ∷ [])))
last-eq (a ∷ s) (b ∷ t) c d e = last-eq s t c d (ground (arith, e))

-- Files of one folder have one name if their paths are the same.
join-injective : (dir folder s t : Bytes) → join dir folder s ≡ join dir folder t → s ≡ t
unfolding join
join-injective dir folder s t e =
    let inner = append-cancel_left dir _ _ e in
    let rest : folder ++ (b'/' ∷ s) ≡ folder ++ (b'/' ∷ t) = ground (arith, inner) in
    let named = append-cancel_left folder _ _ rest in ground (arith, named)

pub cert_path-injective : (s : FileStore) (x y : ℤ) → cert_path s x ≡ cert_path s y → x ≡ y
unfolding cert_path
cert_path-injective s x y e =
    serial_hex-injective x y
      (append-cancel_right _ _ _ (join-injective s.dir (ascii "certs") _ _ e))

pub csr_path-injective : (s : FileStore) (x y : ℤ) → csr_path s x ≡ csr_path s y → x ≡ y
unfolding csr_path
csr_path-injective s x y e =
    serial_hex-injective x y (append-cancel_right _ _ _ (join-injective s.dir (ascii "csrs") _ _ e))

pub csr_path-ne-cert_path : (s : FileStore) (x y : ℤ) → csr_path s x ≢ cert_path s y
unfolding csr_path cert_path join ascii
csr_path-ne-cert_path s x y e = ground (arith, append-cancel_left s.dir _ _ e)

pub cert_meta_path-ne-cert_path : (s : FileStore) (x y : ℤ) → cert_meta_path s x ≢ cert_path s y
unfolding cert_meta_path cert_path ascii
cert_meta_path-ne-cert_path s x y e =
    let named = join-injective s.dir _ _ _ e in
    let json = append_assoc (serial_hex x) (ascii ".jso") (ascii "n") in
    let der = append_assoc (serial_hex y) (ascii ".de") (ascii "r") in
    ground (
      arith,
      last-eq (serial_hex x ++ ascii ".jso") (serial_hex y ++ ascii ".de") b'n' b'r'
          (json ∙ named ∙ sym der),
    )

pub csr_path-ne-cert_meta_path : (s : FileStore) (x y : ℤ) → csr_path s x ≢ cert_meta_path s y
unfolding csr_path cert_meta_path join ascii
csr_path-ne-cert_meta_path s x y e = ground (arith, append-cancel_left s.dir _ _ e)

-- Not a dot.
abbrev IsUndotted : ℕ → Type 0
IsUndotted c = c ≢ b'.'

digits-IsUndotted : (s : Bytes) → All IsHexDigit s → All IsUndotted s
digits-IsUndotted [] h = tt
digits-IsUndotted (c ∷ s) h = (λ e. omega (arith, h.0, e), digits-IsUndotted s h.1)

serial_hex-IsUndotted : (x : ℤ) → All IsUndotted (serial_hex x)
unfolding serial_hex
serial_hex-IsUndotted (pos n) = digits-IsUndotted _ (pad_zeros-IsHexDigit 40 n)
serial_hex-IsUndotted (negsuc n) =
    (λ e. omega (arith, e), digits-IsUndotted _ (pad_zeros-IsHexDigit 39 (n + 1)))

-- A text is known by what stands behind its first dot.
after_dot :
    (s t u v : Bytes)
    → All IsUndotted s
    → All IsUndotted t
    → s ++ (b'.' ∷ u) ≡ t ++ (b'.' ∷ v)
    → u ≡ v
after_dot [] [] u v hs ht e = ground (arith, e)
after_dot [] (b ∷ t) u v hs ht e = absurd (ht.0 (ground (arith, e)))
after_dot (a ∷ s) [] u v hs ht e = absurd (hs.0 (ground (arith, e)))
after_dot (a ∷ s) (b ∷ t) u v hs ht e = after_dot s t u v hs.1 ht.1 (ground (arith, e))

join-append : (dir folder name t : Bytes) → join dir folder name ++ t ≡ join dir folder (name ++ t)
unfolding join
join-append dir folder name t =
    append_assoc dir (b'/' ∷ (folder ++ (b'/' ∷ name))) t
    ∙ ap (λ r. dir ++ (b'/' ∷ r)) (append_assoc folder (b'/' ∷ name) t)

-- In one folder a name with more behind it is another name, unless the endings make up for it.
join-append-ne :
    (s : FileStore) (folder : Bytes) (x y : ℤ) (u v t : Bytes)
    → u ++ t ≢ v
    → join s.dir folder (serial_hex x ++ (b'.' ∷ u)) ++ t
      ≢ join s.dir folder (serial_hex y ++ (b'.' ∷ v))
join-append-ne s folder x y u v t h e =
    let named =
      join-injective s.dir folder _ _
        (sym (join-append s.dir folder (serial_hex x ++ (b'.' ∷ u)) t) ∙ e) in
    h (
      after_dot (serial_hex x) (serial_hex y) (u ++ t) v (serial_hex-IsUndotted x)
        (serial_hex-IsUndotted y) (sym (append_assoc (serial_hex x) (b'.' ∷ u) t) ∙ named))

-- No temp file of the store has the name of a CSR or of a certificate.
pub temp_path-ne-csr_path :
    (s : FileStore) (faults : Faults) (x y : ℤ) → temp_path faults (csr_path s x) ≢ csr_path s y
unfolding csr_path ascii
temp_path-ne-csr_path s faults x y =
    join-append-ne s (ascii "csrs") x y (ascii "der") (ascii "der") _ (λ e. ground (arith, e))

pub temp_path-csr_path-ne-cert_path :
    (s : FileStore) (faults : Faults) (x y : ℤ) → temp_path faults (csr_path s x) ≢ cert_path s y
unfolding csr_path cert_path join ascii
temp_path-csr_path-ne-cert_path s faults x y e =
    ground (arith, append-cancel_left s.dir _ _ (sym (append_assoc s.dir _ _) ∙ e))

pub temp_path-ne-cert_path :
    (s : FileStore) (faults : Faults) (x y : ℤ) → temp_path faults (cert_path s x) ≢ cert_path s y
unfolding cert_path ascii
temp_path-ne-cert_path s faults x y =
    join-append-ne s (ascii "certs") x y (ascii "der") (ascii "der") _ (λ e. ground (arith, e))

pub temp_path-cert_path-ne-csr_path :
    (s : FileStore) (faults : Faults) (x y : ℤ) → temp_path faults (cert_path s x) ≢ csr_path s y
unfolding csr_path cert_path join ascii
temp_path-cert_path-ne-csr_path s faults x y e =
    ground (arith, append-cancel_left s.dir _ _ (sym (append_assoc s.dir _ _) ∙ e))

pub temp_path-cert_meta_path-ne-cert_path :
    (s : FileStore) (faults : Faults) (x y : ℤ)
    → temp_path faults (cert_meta_path s x) ≢ cert_path s y
unfolding cert_path cert_meta_path ascii
temp_path-cert_meta_path-ne-cert_path s faults x y =
    join-append-ne s (ascii "certs") x y (ascii "json") (ascii "der") _ (λ e. ground (arith, e))

pub temp_path-cert_meta_path-ne-csr_path :
    (s : FileStore) (faults : Faults) (x y : ℤ)
    → temp_path faults (cert_meta_path s x) ≢ csr_path s y
unfolding csr_path cert_meta_path join ascii
temp_path-cert_meta_path-ne-csr_path s faults x y e =
    ground (arith, append-cancel_left s.dir _ _ (sym (append_assoc s.dir _ _) ∙ e))
