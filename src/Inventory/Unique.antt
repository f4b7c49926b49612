-- ===== src/Inventory/Unique.antt =====
-- The names of the hosts, and what finding or making a host by its name does to them.
use pipe_shell_x.Base.{
  ℕ, ◌≡◌, refl, sym, ap, subst, ◌∙◌, inl, inr, [], ◌∷◌, List, true, false, Bytes, Bool-cases, All,
}
use pipe_shell_x.Text.{equal, is_listed}
use pipe_shell_x.Text.Lists.{equal-≡, equal_sym, IsUnique, IsUnique-snoc, All-snoc}
use pipe_shell_x.Inventory.{
  Host, Hosts, Problem, Outcome, malformed, parsed, ◌>>=◌, add_unique, new_host, upsert,
}

abbrev pub names : Hosts → List Bytes
names [] = []
names (h ∷ hosts) = h.name ∷ names hosts

pub parsed-injective {ℓ} : {A : Type ℓ} {a b : A} → parsed a ≡ parsed b → a ≡ b
parsed-injective e = cc

pub malformed-not_parsed {ℓ} :
    {A : Type ℓ} {line : ℕ} {problem : Problem} {a : A} → ¬ (malformed line problem ≡ parsed a)
malformed-not_parsed e = cc

pub >>=-parsed {ℓ κ} :
    {A : Type ℓ} {B : Type κ} (first : Outcome A) (next : A → Outcome B) {b : B}
    → (first >>= next) ≡ parsed b
    → (a : A) × (first ≡ parsed a) × (next a ≡ parsed b)
>>=-parsed (malformed line problem) next e = cc
>>=-parsed (parsed a) next e = (a, refl, e)

pub add_unique-IsUnique :
    (list : List Bytes) (value : Bytes) → IsUnique list → IsUnique (add_unique list value)
unfolding add_unique
add_unique-IsUnique list value unique = elim (Bool-cases (is_listed value list)) [
  | inl there ↦ rw (there) unique
  | inr new ↦ rw (new) (IsUnique-snoc list value unique new)
]

pub add_unique-All {κ} :
    (P : Bytes → Type κ) (list : List Bytes) (value : Bytes)
    → All P list
    → P value
    → All P (add_unique list value)
unfolding add_unique
add_unique-All P list value all is = elim (Bool-cases (is_listed value list)) [
  | inl there ↦ rw (there) all
  | inr new ↦ rw (new) (All-snoc P list value all is)
]

add_unique-there :
    (h : Bytes) (hs : List Bytes) (v : Bytes) → equal v h ≡ true → add_unique (h ∷ hs) v ≡ h ∷ hs
unfolding add_unique is_listed
add_unique-there h hs v same = rw (same) refl

add_unique-past :
    (h : Bytes) (hs : List Bytes) (v : Bytes)
    → equal v h ≡ false
    → add_unique (h ∷ hs) v ≡ h ∷ add_unique hs v
unfolding add_unique is_listed
add_unique-past h hs v other = elim (Bool-cases (is_listed v hs)) [
  | inl there ↦ rw (other, there) refl
  | inr new ↦ rw (other, new) refl
]

module _ (name : Bytes) (change : Host → Outcome Host) where
  -- The host of the name is changed where it is.
  upsert-here :
      (h : Host) (hosts hosts' : Hosts)
      → equal h.name name ≡ true
      → upsert name change (h ∷ hosts) ≡ parsed hosts'
      → (entry : Host) × (change h ≡ parsed entry) × (hosts' ≡ entry ∷ hosts)
  unfolding upsert
  upsert-here h hosts hosts' same e =
      let (entry, changed, is) =
        >>=-parsed (change h) (λ entry. parsed (entry ∷ hosts)) (simp (same) at e) in
      (entry, changed, sym (parsed-injective is))

  upsert-past :
      (h : Host) (hosts hosts' : Hosts)
      → equal h.name name ≡ false
      → upsert name change (h ∷ hosts) ≡ parsed hosts'
      → (rest : Hosts) × (upsert name change hosts ≡ parsed rest) × (hosts' ≡ h ∷ rest)
  unfolding upsert
  upsert-past h hosts hosts' other e =
      let (rest, found, is) =
        >>=-parsed (upsert name change hosts) (λ rest. parsed (h ∷ rest)) (simp (other) at e) in
      (rest, found, sym (parsed-injective is))

  upsert-made :
      (hosts' : Hosts)
      → upsert name change [] ≡ parsed hosts'
      → (entry : Host) × (change (new_host name) ≡ parsed entry) × (hosts' ≡ entry ∷ [])
  unfolding upsert
  upsert-made hosts' e =
      let (entry, changed, is) =
        >>=-parsed (change (new_host name)) (λ entry. parsed (entry ∷ [])) e in
      (entry, changed, sym (parsed-injective is))

  -- The host of the name is found, or is made behind the others.
  pub upsert-names :
      ((e e' : Host) → change e ≡ parsed e' → e'.name ≡ e.name)
      → (hosts hosts' : Hosts) → upsert name change hosts ≡ parsed hosts'
      → names hosts' ≡ add_unique (names hosts) name
  unfolding add_unique is_listed new_host
  upsert-names keeps [] hosts' e =
      let (entry, changed, is) = upsert-made hosts' e in
      ap names is ∙ ap (λ n. n ∷ []) (keeps _ entry changed)
  upsert-names keeps (h ∷ hosts) hosts' e = elim (Bool-cases (equal h.name name)) [
    | inl same ↦
        let (entry, changed, is) = upsert-here h hosts hosts' same e in
        ap names is
        ∙ ap (λ n. n ∷ names hosts) (keeps h entry changed)
        ∙ sym (add_unique-there h.name (names hosts) name (equal_sym name h.name ∙ same))
    | inr other ↦
        let (rest, found, is) = upsert-past h hosts hosts' other e in
        ap names is
        ∙ ap (λ ns. h.name ∷ ns) (upsert-names keeps hosts rest found)
        ∙ sym (add_unique-past h.name (names hosts) name (equal_sym name h.name ∙ other))
  ]

  module _ {κ} (P : Host → Type κ) where
    pub upsert-All :
        P (new_host name)
        → ((e e' : Host) → e.name ≡ name → P e → change e ≡ parsed e' → P e')
        → (hosts hosts' : Hosts) → upsert name change hosts ≡ parsed hosts'
        → All P hosts
        → All P hosts'
    unfolding new_host
    upsert-All new changed [] hosts' e all =
        let (entry, made, is) = upsert-made hosts' e in
        subst (All P) (sym is) (changed _ entry refl new made, tt)
    upsert-All new changed (h ∷ hosts) hosts' e (here, all) =
        elim (Bool-cases (equal h.name name)) [
          | inl same ↦
              let (entry, made, is) = upsert-here h hosts hosts' same e in
              subst (All P) (sym is) (changed h entry (equal-≡ h.name name same) here made, all)
          | inr other ↦
              let (rest, found, is) = upsert-past h hosts hosts' other e in
              subst (All P) (sym is) (here, upsert-All new changed hosts rest found all)
        ]
