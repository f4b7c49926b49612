-- ===== src/Sink/JsonLines/Objects.antt =====
-- The object of a stage: its bytes, and what is read from it.
use pipe_shell_x.Base.{
  ℕ, zero, suc, ◌+◌, ◌-◌, ◌/◌, ◌%◌, ◌≡◌, ◌≤◌, refl, ap, ◌∙◌, inl, inr, [], ◌∷◌, ◌++◌, some, Bool,
  true, false, Bytes, codes, length, drop, ltb, arith, Bool-cases,
}
use pipe_shell_x.Base.Int.{ℤ, pos, negsuc}
use pipe_shell_x.Json.{escape, escaped, quote, boolean}
use pipe_shell_x.Json.Read.{Printable, Printable-append, quote-Printable}
use pipe_shell_x.Json.Objects.{
  Value, a_string, a_number, a_boolean, Members, with_member, read_members, read_object,
}
use pipe_shell_x.Json.Objects.Laws.{
  digits-IsNumeral, IsValue, quote-IsValue, boolean-IsValue, numeral-IsValue, negative-IsValue,
  read_members-more, read_members-last,
}
use pipe_shell_x.Pipeline.Parser.{digits}
use pipe_shell_x.Sink.{StageResult, decimal}
use pipe_shell_x.Sink.JsonLines.{TextBuffer, member, object_of}

pub digits-Printable : (fuel n : ℕ) → Printable (digits fuel n)
unfolding digits
digits-Printable zero n = tt
digits-Printable (suc fuel) n = elim (Bool-cases (ltb n 10)) [
  | inl one ↦ rw (one) (omega arith, tt)
  | inr more ↦ rw (more) (
      Printable-append (digits fuel (n / 10)) ((48 + n % 10) ∷ []) (digits-Printable fuel (n / 10))
        (omega arith, tt))
]

decimal-Printable : (z : ℤ) → Printable (decimal z)
unfolding decimal
decimal-Printable (pos n) = digits-Printable (suc n) n
decimal-Printable (negsuc n) = (omega arith, digits-Printable (suc (suc n)) (suc n))

pub boolean-Printable : (b : Bool) → Printable (boolean b)
unfolding boolean
boolean-Printable true = (omega arith, (omega arith, (omega arith, (omega arith, tt))))
boolean-Printable false =
    (omega arith, (omega arith, (omega arith, (omega arith, (omega arith, tt)))))

pub member-Printable :
    (separator : ℕ) (key value rest : Bytes)
    → 32 ≤ separator
    → Printable value
    → Printable rest
    → Printable (member separator key value rest)
unfolding member
member-Printable separator key value rest high v r = (
  high,
  Printable-append (quote key) (58 ∷ (value ++ rest)) (quote-Printable key)
      (omega arith, Printable-append value rest v r),
)

pub object_of-Printable :
    (stage : Bytes) (result : StageResult) (b : TextBuffer) → Printable (object_of stage result b)
unfolding object_of
object_of-Printable stage result b =
    member-Printable 123 _ _ _ (omega arith) (quote-Printable stage) (
      member-Printable 44 _ _ _ (omega arith) (decimal-Printable result.exit_code) (
        member-Printable 44 _ _ _ (omega arith) (boolean-Printable result.timed_out) (
          member-Printable 44 _ _ _ (omega arith) (quote-Printable result.error_message) (
            member-Printable 44 _ _ _ (omega arith)
              (digits-Printable (suc result.dropped_bytes) result.dropped_bytes)
              (member-Printable 44 _ _ _ (omega arith) (quote-Printable b.stdout_text) (
                member-Printable 44 _ _ _ (omega arith) (quote-Printable b.stderr_text)
                  (omega arith, tt)))))))

decimal-IsValue : (z : ℤ) → IsValue (decimal z) (a_number z)
unfolding decimal
decimal-IsValue (pos n) =
    numeral-IsValue n (digits (suc n) n) (digits-IsNumeral (suc n) n (omega arith))
decimal-IsValue (negsuc n) =
    negative-IsValue n (digits (suc (suc n)) (suc n))
      (digits-IsNumeral (suc (suc n)) (suc n) (omega arith))

more_members :
    (fuel : ℕ) (key s behind : Bytes) (v : Value) (members : Members)
    → IsValue s v
    → read_members fuel behind ≡ some members
    → read_members (suc fuel) (quote key ++ (58 ∷ (s ++ 44 ∷ behind))) ≡ some ((key, v) ∷ members)
unfolding with_member
more_members fuel key s behind v members reads rest =
    read_members-more fuel key s behind v reads ∙ ap (with_member key v) rest

-- The members of the object of a stage, in their order.
abbrev pub members_of : Bytes → StageResult → Bytes → Bytes → Members
members_of stage result out_text err_text =
    (codes "stage", a_string stage)
    ∷ (codes "exit", a_number result.exit_code)
    ∷ (codes "timed_out", a_boolean result.timed_out)
    ∷ (codes "error", a_string result.error_message)
    ∷ (codes "dropped", a_number (pos result.dropped_bytes))
    ∷ (codes "stdout", a_string out_text)
    ∷ (codes "stderr", a_string err_text)
    ∷ []

read_members-object :
    (fuel : ℕ) (stage : Bytes) (result : StageResult) (b : TextBuffer)
    → read_members
        (suc (suc (suc (suc (suc (suc (suc fuel)))))))
        (drop 1 (object_of stage result b))
      ≡ some (members_of stage result b.stdout_text b.stderr_text)
unfolding object_of member
read_members-object fuel stage result b =
    more_members (suc (suc (suc (suc (suc (suc fuel)))))) (codes "stage") _ _ _ _
      (quote-IsValue stage)
      (more_members (suc (suc (suc (suc (suc fuel))))) (codes "exit") _ _ _ _
        (decimal-IsValue result.exit_code)
        (more_members (suc (suc (suc (suc fuel)))) (codes "timed_out") _ _ _ _
          (boolean-IsValue result.timed_out)
          (more_members (suc (suc (suc fuel))) (codes "error") _ _ _ _
            (quote-IsValue result.error_message)
            (more_members (suc (suc fuel)) (codes "dropped") _ _ _ _
              (numeral-IsValue result.dropped_bytes _
                (digits-IsNumeral (suc result.dropped_bytes) result.dropped_bytes (omega arith)))
              (more_members (suc fuel) (codes "stdout") _ _ _ _ (quote-IsValue b.stdout_text)
                (read_members-last fuel (codes "stderr") _ _ (quote-IsValue b.stderr_text)))))))

seven_or_more :
    (stage : Bytes) (result : StageResult) (b : TextBuffer)
    → 7 ≤ length (drop 1 (object_of stage result b))
unfolding object_of member quote escaped escape
seven_or_more stage result b = omega arith

seven_of : (n : ℕ) → 7 ≤ n → (m : ℕ) × (n ≡ (suc (suc (suc (suc (suc (suc (suc m))))))))
seven_of n le = (n - 7, omega arith)

read_object-body :
    (stage : Bytes) (result : StageResult) (b : TextBuffer)
    → read_object (object_of stage result b)
      ≡ read_members
          (length (drop 1 (object_of stage result b)))
          (drop 1 (object_of stage result b))
unfolding read_object object_of member
read_object-body stage result b = refl

pub read_object-object_of :
    (stage : Bytes) (result : StageResult) (b : TextBuffer)
    → read_object (object_of stage result b)
      ≡ some (members_of stage result b.stdout_text b.stderr_text)
read_object-object_of stage result b =
    let (m, is) =
      seven_of (length (drop 1 (object_of stage result b))) (seven_or_more stage result b) in
    read_object-body stage result b
    ∙ ap (λ n. read_members n (drop 1 (object_of stage result b))) is
    ∙ read_members-object m stage result b
