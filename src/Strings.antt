-- ===== src/Strings.antt =====
-- What the program uses of Go's order on strings: `<`, `sort.Strings`, and the joining of lines.
pub mod Sorting
pub mod Joining
use est.Common.{Bool, true, false, List, [], ◌∷◌, ◌++◌, Bytes, ltb, ◌==◌, if◌then◌else◌}

-- `a <= b`, byte by byte.
unfoldable pub str_le : Bytes → Bytes → Bool
str_le [] ys = true
str_le (x ∷ xs) [] = false
str_le (x ∷ xs) (y ∷ ys) = if ltb x y then true else if x == y then str_le xs ys else false

unfoldable pub insert_sorted : Bytes → List Bytes → List Bytes
insert_sorted s [] = s ∷ []
insert_sorted s (t ∷ ts) = if str_le s t then s ∷ t ∷ ts else t ∷ insert_sorted s ts

-- `sort.Strings`: the order is total, so every sort returns this list.
unfoldable pub sort_strings : List Bytes → List Bytes
sort_strings [] = []
sort_strings (s ∷ ss) = insert_sorted s (sort_strings ss)
