-- ===== src/Strings/Joining.antt =====
-- Lines closed by a separator determine their texts, if no text holds the separator.
use mathlib.Core.Path.{ap₂}
use est.Common.{
  ℕ, ◌+◌, ◌≡◌, ◌≢◌, refl, sym, arith, List, [], ◌∷◌, ◌++◌, Bytes, All, length, length-append,
}

-- The texts, each followed by `c`.
abbrev pub close_lines : ℕ → List Bytes → Bytes
close_lines c [] = []
close_lines c (s ∷ ss) = s ++ (c ∷ close_lines c ss)

abbrev pub Lacks : ℕ → Bytes → Type 0
Lacks c = All (λ b. b ≢ c)

close-injective :
    (c : ℕ) (s t u v : Bytes)
    → Lacks c s
    → Lacks c t
    → s ++ (c ∷ u) ≡ t ++ (c ∷ v)
    → (s ≡ t) × (u ≡ v)
close-injective c [] [] u v hs ht e = (refl, ground arith)
close-injective c [] (b ∷ t) u v hs ht e = absurd (ht.0 (ground arith))
close-injective c (a ∷ s) [] u v hs ht e = absurd (hs.0 (ground arith))
close-injective c (a ∷ s) (b ∷ t) u v hs ht e =
    let (p, q) = close-injective c s t u v hs.1 ht.1 (ground arith) in (ground arith, q)

append_cons-ne-nil : (s : Bytes) (c : ℕ) (u : Bytes) → s ++ (c ∷ u) ≢ []
append_cons-ne-nil [] c u e = cc
append_cons-ne-nil (b ∷ s) c u e = cc

pub close_lines-injective :
    (c : ℕ) (l m : List Bytes)
    → All (Lacks c) l
    → All (Lacks c) m
    → close_lines c l ≡ close_lines c m
    → l ≡ m
close_lines-injective c [] [] hl hm e = refl
close_lines-injective c [] (t ∷ m) hl hm e = absurd (append_cons-ne-nil t c _ (sym e))
close_lines-injective c (s ∷ l) [] hl hm e = absurd (append_cons-ne-nil s c _ e)
close_lines-injective c (s ∷ l) (t ∷ m) hl hm e =
    let (p, q) = close-injective c s t _ _ hl.0 hm.0 e in
    ap₂ ◌∷◌ p (close_lines-injective c l m hl.1 hm.1 q)

-- The length of the lines, each with its separator.
abbrev pub total : List Bytes → ℕ
total [] = 0
total (s ∷ ss) = length s + 1 + total ss

pub length-close_lines : (c : ℕ) (l : List Bytes) → length (close_lines c l) ≡ total l
length-close_lines c [] = refl
length-close_lines c (s ∷ l) =
    omega (arith, length-append s (c ∷ close_lines c l), length-close_lines c l)

pub total-append : (l m : List Bytes) → total (l ++ m) ≡ total l + total m
total-append [] m = omega arith
total-append (s ∷ l) m = omega (arith, total-append l m)
