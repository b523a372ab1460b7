-- ===== src/Receipts/Directory.antt =====
-- The names of one directory and the bytes under each, as `open`, `link` and `unlink` of the operating
-- system change them.
use betmaxxing.Prelude.{
  ℕ, ◌≡◌, refl, String, true, false, Option, none, some, List, [], ◌∷◌, arith, str_eq,
  if◌then◌else◌, Bool-cases, inl, inr, eq_iff,
}

abbrev pub Bytes : Type 0
Bytes = List ℕ

abbrev pub Files : Type 0
Files = List (String × Bytes)

unfoldable pub content : String → Files → Option Bytes
content name [] = none
content name ((n, bytes) ∷ files) =
    let rest = content name files in if str_eq n name then some bytes else rest

-- a file is created or written
unfoldable pub put : String → Bytes → Files → Files
put name bytes [] = (name, bytes) ∷ []
put name bytes ((n, old) ∷ files) =
    let rest = put name bytes files in if str_eq n name then (n, bytes) ∷ files else (n, old) ∷ rest

-- `unlink`
unfoldable pub remove : String → Files → Files
remove name [] = []
remove name ((n, bytes) ∷ files) =
    let rest = remove name files in if str_eq n name then rest else (n, bytes) ∷ rest

pub content-put_same :
    (name : String) (bytes : Bytes) (files : Files)
    → str_eq name name ≡ true
    → content name (put name bytes files) ≡ some bytes
unfolding content put
content-put_same name bytes [] same = ground (arith, same)
content-put_same name bytes ((n, old) ∷ files) same =
    ground (arith, content-put_same name bytes files same)

pub content-put :
    (k name : String) (bytes : Bytes) (files : Files)
    → str_eq name k ≡ false
    → content k (put name bytes files) ≡ content k files
unfolding content put
content-put k name bytes [] other = ground (arith, other)
content-put k name bytes ((n, old) ∷ files) other = elim (Bool-cases (str_eq n name)) [
  | inl e ↦ let same : n ≡ name = ground (arith, e, eq_iff n name) in rw (e, same, other) refl
  | inr e ↦ rw e (ground (arith, content-put k name bytes files other))
]

pub content-remove_same : (name : String) (files : Files) → content name (remove name files) ≡ none
unfolding content remove
content-remove_same name [] = refl
content-remove_same name ((n, bytes) ∷ files) = ground (arith, content-remove_same name files)

pub content-remove :
    (k name : String) (files : Files)
    → str_eq name k ≡ false
    → content k (remove name files) ≡ content k files
unfolding content remove
content-remove k name [] other = refl
content-remove k name ((n, bytes) ∷ files) other = elim (Bool-cases (str_eq n name)) [
  | inl e ↦
      let same : n ≡ name = ground (arith, e, eq_iff n name) in
      let ih = content-remove k name files other in rw (e, same, other) ih
  | inr e ↦ rw e (ground (arith, content-remove k name files other))
]
