-- ===== src/Text.antt =====
-- Searches and cuts of strings, which the parsers of policies and pipe specs share. A string is the list
-- of its bytes.
pub mod Lists
use pipe_shell_x.Base.{
  ℕ, [], ◌∷◌, Bool, true, false, ◌&&◌, ◌||◌, Bytes, length, ◌==◌, if◌then◌else◌, List,
}

-- Whether a byte is one of `set`: the test of `find_first_of`.
unfoldable pub is_one_of : Bytes → ℕ → Bool
is_one_of [] c = false
is_one_of (d ∷ set) c = (d == c) || is_one_of set c

-- `find_first_of(set) != npos`
unfoldable pub has_any : Bytes → Bytes → Bool
has_any set [] = false
has_any set (c ∷ s) = is_one_of set c || has_any set s

unfoldable pub equal : Bytes → Bytes → Bool
equal [] [] = true
equal [] (d ∷ t) = false
equal (c ∷ s) [] = false
equal (c ∷ s) (d ∷ t) = (c == d) && equal s t

-- The bytes before the first one that `stops` holds of, and the rest from it on.
unfoldable pub span_to : (ℕ → Bool) → Bytes → Bytes × Bytes
span_to stops [] = ([], [])
span_to stops (c ∷ s) =
    let (front, rest) = span_to stops s in if stops c then ([], c ∷ s) else (c ∷ front, rest)

-- Without the bytes at the front, and at the back, that `blank` holds of.
unfoldable pub skip : (ℕ → Bool) → Bytes → Bytes
skip blank [] = []
skip blank (c ∷ s) = let rest = skip blank s in if blank c then rest else c ∷ s

unfoldable pub cut_back : (ℕ → Bool) → Bytes → Bytes
cut_back blank [] = []
cut_back blank (c ∷ s) =
    let rest = cut_back blank s in if blank c && (length rest == 0) then [] else c ∷ rest

unfoldable pub trim_by : (ℕ → Bool) → Bytes → Bytes
unfolding skip cut_back
trim_by blank s = cut_back blank (skip blank s)

-- The pieces between the bytes equal to `sep`; a string without any is one piece.
unfoldable pub pieces : ℕ → Bytes → List Bytes
pieces sep [] = [] ∷ []
pieces sep (c ∷ s) =
    let rest = pieces sep s in
    if c == sep
    then [] ∷ rest
    else elim rest [ [] ↦ (c ∷ []) ∷ [] | piece ∷ more ↦ (c ∷ piece) ∷ more ]

unfoldable pub is_listed : Bytes → List Bytes → Bool
unfolding equal
is_listed s [] = false
is_listed s (t ∷ ts) = equal s t || is_listed s ts
