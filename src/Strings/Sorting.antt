-- ===== src/Strings/Sorting.antt =====
-- Sorting is a permutation, and depends on the strings and their number alone.
use mathlib.Core.List.{Perm, Permᴰ}
use mathlib.Core.List.Perm
use mathlib.Core.Logic.{∥∥₁_elim}
use mathlib.Core.Path.{ap₂}
use native.Mathlib.Decide.{ℕ_discrete}
use est.Common.{◌≡◌, refl, ◌∙◌, inl, inr, arith, true, false, List, [], ◌∷◌, Bytes, All, Bool-cases}
use est.Strings.Joining.{total}
use est.Strings.{str_le, insert_sorted, sort_strings}

Bytes-set : IsSet (List Bytes)
Bytes-set = hlevel ℕ_discrete

str_le_refl : (s : Bytes) → str_le s s ≡ true
unfolding str_le
str_le_refl [] = refl
str_le_refl (x ∷ xs) = ground (arith, str_le_refl xs)

str_le-total : (s t : Bytes) → str_le s t ≡ false → str_le t s ≡ true
unfolding str_le
str_le-total [] t h = ground arith
str_le-total (x ∷ xs) [] h = refl
str_le-total (x ∷ xs) (y ∷ ys) h = ground (arith, str_le-total xs ys)

str_le_antisymm : (s t : Bytes) → str_le s t ≡ true → str_le t s ≡ true → s ≡ t
unfolding str_le
str_le_antisymm [] [] h k = refl
str_le_antisymm [] (y ∷ ys) h k = cc
str_le_antisymm (x ∷ xs) [] h k = cc
str_le_antisymm (x ∷ xs) (y ∷ ys) h k = ground (arith, str_le_antisymm xs ys)

str_le_trans : (s t u : Bytes) → str_le s t ≡ true → str_le t u ≡ true → str_le s u ≡ true
unfolding str_le
str_le_trans [] t u h k = refl
str_le_trans (x ∷ xs) [] u h k = cc
str_le_trans (x ∷ xs) (y ∷ ys) [] h k = cc
str_le_trans (x ∷ xs) (y ∷ ys) (z ∷ zs) h k = ground (arith, str_le_trans xs ys zs)

-- The order in which two strings are inserted does not matter.
insert_sorted_comm :
    (s t : Bytes) (l : List Bytes)
    → insert_sorted s (insert_sorted t l) ≡ insert_sorted t (insert_sorted s l)
unfolding insert_sorted
insert_sorted_comm s t [] = ground (arith, str_le-total s t, str_le_antisymm s t)
insert_sorted_comm s t (u ∷ l) = ground (
  arith,
  str_le-total s t,
  str_le_antisymm s t,
  str_le_trans s t u,
  str_le_trans t s u,
  insert_sorted_comm s t l,
)

sort_strings-permᴰ : {l m : List Bytes} → Permᴰ l m → sort_strings l ≡ sort_strings m
unfolding sort_strings
sort_strings-permᴰ Permᴰ.nil = refl
sort_strings-permᴰ (Permᴰ.cons e p) = ap₂ insert_sorted e (sort_strings-permᴰ p)
sort_strings-permᴰ (Permᴰ.swap {l = l} e e') =
    insert_sorted_comm _ _ (sort_strings l)
    ∙ ap₂ (λ a b. insert_sorted a (insert_sorted b (sort_strings l))) e' e
sort_strings-permᴰ (Permᴰ.trans p q) = sort_strings-permᴰ p ∙ sort_strings-permᴰ q

pub sort_strings-eq_of_perm : {l m : List Bytes} → Perm l m → sort_strings l ≡ sort_strings m
sort_strings-eq_of_perm p = ∥∥₁_elim p (Bytes-set _ _) sort_strings-permᴰ

insert_sorted-perm : (s : Bytes) (l : List Bytes) → Perm (insert_sorted s l) (s ∷ l)
unfolding insert_sorted
insert_sorted-perm s [] = Perm.refl _
insert_sorted-perm s (t ∷ l) = elim (Bool-cases (str_le s t)) [
  | inl e ↦ rw e (Perm.refl _)
  | inr e ↦ rw e (Perm.trans (Perm.cons t (insert_sorted-perm s l)) (Perm.swap s t l))
]

pub sort_strings-perm : (l : List Bytes) → Perm (sort_strings l) l
unfolding sort_strings
sort_strings-perm [] = Perm.refl []
sort_strings-perm (s ∷ l) =
    Perm.trans (insert_sorted-perm s (sort_strings l)) (Perm.cons s (sort_strings-perm l))

module _ {κ} (P : Bytes → Type κ) where
  All-insert_sorted : (s : Bytes) (l : List Bytes) → P s → All P l → All P (insert_sorted s l)
  unfolding insert_sorted
  All-insert_sorted s [] h hs = (h, tt)
  All-insert_sorted s (t ∷ l) h (ht, hl) = elim (Bool-cases (str_le s t)) [
    | inl e ↦ rw e (h, (ht, hl))
    | inr e ↦ rw e (ht, All-insert_sorted s l h hl)
  ]

  pub All-sort_strings : (l : List Bytes) → All P l → All P (sort_strings l)
  unfolding sort_strings
  All-sort_strings [] h = tt
  All-sort_strings (s ∷ l) (hs, hl) =
      All-insert_sorted s (sort_strings l) hs (All-sort_strings l hl)

total-insert_sorted : (s : Bytes) (l : List Bytes) → total (insert_sorted s l) ≡ total (s ∷ l)
unfolding insert_sorted
total-insert_sorted s [] = refl
total-insert_sorted s (t ∷ l) = ground (arith, total-insert_sorted s l)

-- Sorting keeps the length of the lines.
pub total-sort_strings : (l : List Bytes) → total (sort_strings l) ≡ total l
unfolding sort_strings
total-sort_strings [] = refl
total-sort_strings (s ∷ l) =
    omega (arith, total-insert_sorted s (sort_strings l), total-sort_strings l)
