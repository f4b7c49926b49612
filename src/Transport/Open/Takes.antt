-- ===== src/Transport/Open/Takes.antt =====
-- What the reader's takes give spells what they were given.
use pipe_shell_x.Base.{
  ℕ, zero, suc, ◌%◌, ◌^◌, ◌≡◌, ◌≤◌, ◌<◌, sym, ap, ap₂, ◌∙◌, [], ◌∷◌, ◌++◌, List, some, none, ◌||◌,
  Bytes, length, take, drop, ltb, All, Bool-cases, inl, inr, arith, append_assoc, length-take,
  subst, Option-cases, some-injective, take-append-drop,
}
use pipe_shell_x.Transport.Wire.{
  write_u32_be, read_u32_be, read_u32_be-lt, write_u32_be-read_u32_be, IsByte,
}
use pipe_shell_x.Transport.Open.{
  max_open_argument_bytes, take_u32, take_counted, take_string, take_args, encode_string,
  encode_args,
}

All-take : {A : Type 0} (P : A → Type 0) (n : ℕ) (xs : List A) → All P xs → All P (take n xs)
All-take P zero xs v = tt
All-take P (suc n) [] v = tt
All-take P (suc n) (x ∷ xs) v = (v.0, All-take P n xs v.1)

All-drop : {A : Type 0} (P : A → Type 0) (n : ℕ) (xs : List A) → All P xs → All P (drop n xs)
All-drop P zero xs v = v
All-drop P (suc n) [] v = tt
All-drop P (suc n) (x ∷ xs) v = All-drop P n xs v.1

-- What a take gives spells, with what remains, the bytes that it was given.
pub record Spells (bytes : Bytes) (front rest : Bytes) : Type 0 where
  pub split : bytes ≡ front ++ rest
  pub wire : All IsByte rest

pub take_u32-Spells :
    (bytes rest : Bytes) (n : ℕ)
    → All IsByte bytes
    → take_u32 bytes ≡ some (n, rest)
    → Spells bytes (write_u32_be n) rest × (n < 2 ^ 32)
unfolding take_u32
take_u32-Spells bytes rest n v e = elim (Bool-cases (ltb (length bytes) 4)) [
  | inl short ↦ absurd (let bad : none ≡ some (n, rest) = rw short at e in cc)
  | inr enough ↦
      let found : some (read_u32_be bytes, drop 4 bytes) ≡ some (n, rest) = rw enough at e in
      let pair = some-injective found in
      let word : read_u32_be bytes ≡ n = ap (λ (p : ℕ × Bytes). p.0) pair in
      let behind : drop 4 bytes ≡ rest = ap (λ (p : ℕ × Bytes). p.1) pair in
      let whole : write_u32_be (read_u32_be bytes) ≡ take 4 bytes =
        ap (λ w. write_u32_be (read_u32_be w)) (sym (take-append-drop 4 bytes))
        ∙ write_u32_be-read_u32_be (take 4 bytes) (drop 4 bytes)
            (ground (arith, length-take 4 bytes)) (All-take IsByte 4 bytes v) in
      (
        record {
          split =
              sym (take-append-drop 4 bytes) ∙ ap₂ ◌++◌ (sym whole ∙ ap write_u32_be word) behind;
          wire = subst (All IsByte) behind (All-drop IsByte 4 bytes v);
        },
        omega (arith, word, read_u32_be-lt bytes),
      )
]

take_counted-Spells :
    (max n : ℕ) (bytes s rest : Bytes)
    → All IsByte bytes
    → take_counted max n bytes ≡ some (s, rest)
    → Spells bytes s rest × (length s ≡ n)
unfolding take_counted
take_counted-Spells max n bytes s rest v e = elim (Bool-cases (ltb max n || ltb (length bytes) n)) [
  | inl bad ↦ absurd (let none_some : none ≡ some (s, rest) = rw bad at e in cc)
  | inr fits ↦
      let found : some (take n bytes, drop n bytes) ≡ some (s, rest) = rw fits at e in
      let pair = some-injective found in
      let front : take n bytes ≡ s = ap (λ (p : Bytes × Bytes). p.0) pair in
      let behind : drop n bytes ≡ rest = ap (λ (p : Bytes × Bytes). p.1) pair in
      let enough : n ≤ length bytes = ground arith in
      (
        record {
          split = sym (take-append-drop n bytes) ∙ ap₂ ◌++◌ front behind;
          wire = subst (All IsByte) behind (All-drop IsByte n bytes v);
        },
        omega (arith, ap length front, length-take n bytes, enough),
      )
]

pub take_string-Spells :
    (max : ℕ) (bytes s rest : Bytes)
    → All IsByte bytes
    → take_string max bytes ≡ some (s, rest)
    → Spells bytes (encode_string s) rest
unfolding take_string encode_string
take_string-Spells max bytes s rest v e = elim (Option-cases (take_u32 bytes)) [
  | inl missing ↦ absurd (let bad : none ≡ some (s, rest) = rw (missing, take_string) at e in cc)
  | inr ((n, behind), found) ↦
      let counted : take_counted max n behind ≡ some (s, rest) = rw (found, take_string) at e in
      let (head, word) = take_u32-Spells bytes behind n v found in
      let (tail, size) = take_counted-Spells max n behind s rest head.wire counted in
      record {
        split =
            head.split
            ∙ ap₂ ◌++◌ (ap write_u32_be (omega arith)) tail.split
            ∙ sym (append_assoc (write_u32_be (length s % 2 ^ 32)) s rest);
        wire = tail.wire;
      }
]

pub take_args-Spells :
    (n : ℕ) (bytes : Bytes) (args : List Bytes) (rest : Bytes)
    → All IsByte bytes
    → take_args n bytes ≡ some (args, rest)
    → Spells bytes (encode_args args) rest × (length args ≡ n)
unfolding take_args encode_args
take_args-Spells zero bytes args rest v e =
    let pair = some-injective e in
    let none_left : [] ≡ args = ap (λ (p : List Bytes × Bytes). p.0) pair in
    let behind : bytes ≡ rest = ap (λ (p : List Bytes × Bytes). p.1) pair in
    (
      record {
        split = behind ∙ ap (λ xs. encode_args xs ++ rest) none_left;
        wire = subst (All IsByte) behind v;
      },
      ap length (sym none_left),
    )
take_args-Spells (suc n) bytes args rest v e =
    elim (Option-cases (take_string max_open_argument_bytes bytes)) [
      | inl missing ↦
          absurd (let bad : none ≡ some (args, rest) = rw (missing, take_args) at e in cc)
      | inr ((arg, behind), found) ↦ elim (Option-cases (take_args n behind)) [
        | inl missing ↦
            absurd (let bad : none ≡ some (args, rest) = rw (found, missing, take_args) at e in cc)
        | inr ((more, end), others) ↦
            let all : some (arg ∷ more, end) ≡ some (args, rest) =
              rw (found, others, take_args) at e in
            let pair = some-injective all in
            let both : arg ∷ more ≡ args = ap (λ (p : List Bytes × Bytes). p.0) pair in
            let left : end ≡ rest = ap (λ (p : List Bytes × Bytes). p.1) pair in
            let head = take_string-Spells max_open_argument_bytes bytes arg behind v found in
            let (tail, count) = take_args-Spells n behind more end head.wire others in
            (
              record {
                split =
                    head.split
                    ∙ ap (λ w. encode_string arg ++ w) tail.split
                    ∙ sym (append_assoc (encode_string arg) (encode_args more) end)
                    ∙ ap₂ ◌++◌ (ap encode_args both) left;
                wire = subst (All IsByte) left tail.wire;
              },
              ap length (sym both) ∙ ap suc count,
            )
      ]
    ]
