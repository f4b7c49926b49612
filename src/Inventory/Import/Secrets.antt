-- ===== src/Inventory/Import/Secrets.antt =====
-- The secrets of the query of an SSH URL do not reach the inventory.
use pipe_shell_x.Base.{
  ℕ, ◌≡◌, refl, sym, ap, subst, ◌∙◌, inl, inr, [], ◌∷◌, ◌++◌, List, true, false, ◌||◌, Bytes,
  length, ◌==◌, if◌then◌else◌, Bool-cases,
}
use pipe_shell_x.Text.{span_to}
use pipe_shell_x.Inventory.{parsed, ◌>>=◌}
use pipe_shell_x.Inventory.Unique.{>>=-parsed, parsed-injective, malformed-not_parsed}
use pipe_shell_x.Inventory.Parse.{is_equals}
use pipe_shell_x.Inventory.Import.{is_secret, parameter_with, parameter_on, query_on}

pub key_of : Bytes → Bytes
key_of parameter = (span_to is_equals parameter).0

pub without_secrets : List Bytes → List Bytes
without_secrets [] = []
without_secrets (p ∷ ps) =
    let rest = without_secrets ps in if is_secret (key_of p) then rest else p ∷ rest

left_out :
    (p : Bytes) (ps : List Bytes)
    → is_secret (key_of p) ≡ true
    → without_secrets (p ∷ ps) ≡ without_secrets ps
unfolding without_secrets
left_out p ps secret = rw (secret) refl

kept :
    (p : Bytes) (ps : List Bytes)
    → is_secret (key_of p) ≡ false
    → without_secrets (p ∷ ps) ≡ p ∷ without_secrets ps
unfolding without_secrets
kept p ps plain = rw (plain) refl

none_left : without_secrets [] ≡ []
unfolding without_secrets
none_left = refl

secret_with :
    (number : ℕ) (keys : List Bytes) (key rest : Bytes) (seen : List Bytes × Bytes)
    → is_secret key ≡ true
    → parameter_with number keys key rest ≡ parsed seen
    → (keys, []) ≡ seen
unfolding parameter_with
secret_with number keys key [] seen secret e = absurd (malformed-not_parsed e)
secret_with number keys key (c ∷ value) seen secret e =
    elim (Bool-cases ((length key == 0) || (length value == 0))) [
      | inl empty ↦ absurd (malformed-not_parsed (simp (empty) at e))
      | inr filled ↦ parsed-injective (simp (filled, secret) at e)
    ]

-- The query gives the same options when its secrets are left out: neither their names nor their values
-- have a part in what is imported.
pub query_on-without_secrets :
    (number : ℕ) (keys parameters : List Bytes) (options : Bytes)
    → query_on number keys parameters ≡ parsed options
    → query_on number keys (without_secrets parameters) ≡ parsed options
unfolding query_on parameter_on key_of
query_on-without_secrets number keys [] options e = ap (query_on number keys) none_left ∙ e
query_on-without_secrets number keys (p ∷ ps) options e =
    let (seen, first, rest) = >>=-parsed (parameter_on number keys p) _ e in
    let (more, next, is) = >>=-parsed (query_on number seen.0 ps) _ rest in
    let behind = query_on-without_secrets number seen.0 ps more next in
    elim (Bool-cases (is_secret (key_of p))) [
      | inl secret ↦
          let skipped : (keys, []) ≡ seen = secret_with number keys _ _ seen secret first in
          let at : seen.0 ≡ keys = sym (ap (λ s. s.0) skipped) in
          let same : more ≡ options = ap (λ s. s.1 ++ more) skipped ∙ parsed-injective is in
          ap (query_on number keys) (left_out p ps secret)
          ∙ subst (λ k. query_on number k (without_secrets ps) ≡ parsed options) at
              (behind ∙ ap parsed same)
      | inr plain ↦
          ap (query_on number keys) (kept p ps plain)
          ∙ ap (λ o. o >>= λ s. query_on number s.0 (without_secrets ps) >>= λ m. parsed (s.1 ++ m))
              first
          ∙ ap (λ o. o >>= λ m. parsed (seen.1 ++ m)) behind
          ∙ is
    ]
