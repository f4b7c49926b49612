-- ===== src/Inventory/Parse/Options.antt =====
-- The options of a host keep it a host.
use pipe_shell_x.Base.{
  ℕ, ◌≡◌, ◌≤◌, refl, sym, subst, ◌∙◌, inl, inr, [], ◌∷◌, List, Bool, true, false, Bytes, length,
  ◌==◌, if◌then◌else◌, arith, Bool-cases, All,
}
use pipe_shell_x.Text.{pieces}
use pipe_shell_x.Text.Lists.{IsUnique}
use pipe_shell_x.Inventory.{
  Host, Problem, Outcome, malformed, parsed, ◌>>=◌, parse_port, add_unique, is_supported_transport,
  bad_transport, unknown_option, expected_option,
}
use pipe_shell_x.Inventory.Parse.{add_tags, set_option, option_on, option_with, options_on}
use pipe_shell_x.Inventory.Unique.{
  >>=-parsed, parsed-injective, malformed-not_parsed, add_unique-IsUnique, add_unique-All,
}
use pipe_shell_x.Inventory.Valid.{IsPort, IsFilled, IsHost, parse_port-IsPort}

add_tags-IsUnique : (values tags : List Bytes) → IsUnique tags → IsUnique (add_tags values tags)
unfolding add_tags
add_tags-IsUnique [] tags unique = unique
add_tags-IsUnique (tag ∷ more) tags unique = elim (Bool-cases (length tag == 0)) [
  | inl empty ↦ rw (empty) (add_tags-IsUnique more tags unique)
  | inr filled ↦
      rw (filled)
        (add_tags-IsUnique more (add_unique tags tag) (add_unique-IsUnique tags tag unique))
]

add_tags-IsFilled :
    (values tags : List Bytes) → All IsFilled tags → All IsFilled (add_tags values tags)
unfolding add_tags
add_tags-IsFilled [] tags all = all
add_tags-IsFilled (tag ∷ more) tags all = elim (Bool-cases (length tag == 0)) [
  | inl empty ↦ rw (empty) (add_tags-IsFilled more tags all)
  | inr filled ↦ rw (filled) (
      add_tags-IsFilled more (add_unique tags tag)
        (add_unique-All IsFilled tags tag all (ground (arith, filled))))
]

-- An option keeps a host a host, and its name.
pub record Kept (e e' : Host) : Type 0 where
  pub name_kept : e'.name ≡ e.name
  pub still : IsHost e → IsHost e'

Kept-refl : (e : Host) → Kept e e
Kept-refl e = record { name_kept = refl; still = λ is. is }

Keeps : Host → Outcome Host → Type 0
Keeps e o = (e' : Host) → o ≡ parsed e' → Kept e e'

-- The option is known by its key, or is not known.
by_key :
    (e : Host) (b : Bool) (x y : Outcome Host)
    → Keeps e x
    → Keeps e y
    → Keeps e (if b then x else y)
by_key e true x y p q = p
by_key e false x y p q = q

port-Kept :
    (e : Host) (value : Bytes) (number : ℕ) (write : ℕ → Host)
    → ((port : ℕ) → IsPort port → Kept e (write port))
    → Keeps e (parse_port value number >>= λ port. parsed (write port))
unfolding Keeps
port-Kept e value number write each e' is =
    let (port, number_is, made) =
      >>=-parsed (parse_port value number) (λ port. parsed (write port)) is in
    subst (Kept e) (parsed-injective made)
      (each port (parse_port-IsPort value number port number_is))

parsed-Kept : (e entry : Host) → Kept e entry → Keeps e (parsed entry)
unfolding Keeps
parsed-Kept e entry kept e' is = subst (Kept e) (parsed-injective is) kept

malformed-Kept : (e : Host) (line : ℕ) (problem : Problem) → Keeps e (malformed line problem)
unfolding Keeps
malformed-Kept e line problem e' is = absurd (malformed-not_parsed is)

-- A field that is written well.
module _ (e : Host) where
  plain :
      (user identity san : Bytes)
      → Kept e (record e { user = user; identity = identity; san = san })
  plain user identity san = record {
    name_kept = refl;
    still = λ is. record {
      addressed = is.addressed;
      port_ok = is.port_ok;
      native_ok = is.native_ok;
      supported = is.supported;
      groups_unique = is.groups_unique;
      groups_filled = is.groups_filled;
      tags_unique = is.tags_unique;
      tags_filled = is.tags_filled;
    };
  }

  with_ports :
      (port native_port : ℕ)
      → (IsHost e → IsPort port × (native_port ≤ 65535))
      → Kept e (record e { port = port; native_port = native_port })
  with_ports port native_port ok = record {
    name_kept = refl;
    still = λ is. record {
      addressed = is.addressed;
      port_ok = (ok is).0;
      native_ok = (ok is).1;
      supported = is.supported;
      groups_unique = is.groups_unique;
      groups_filled = is.groups_filled;
      tags_unique = is.tags_unique;
      tags_filled = is.tags_filled;
    };
  }

  with_transport :
      (transport : Bytes)
      → is_supported_transport transport ≡ true
      → Kept e (record e { transport = transport })
  with_transport transport ok = record {
    name_kept = refl;
    still = λ is. record {
      addressed = is.addressed;
      port_ok = is.port_ok;
      native_ok = is.native_ok;
      supported = ok;
      groups_unique = is.groups_unique;
      groups_filled = is.groups_filled;
      tags_unique = is.tags_unique;
      tags_filled = is.tags_filled;
    };
  }

  with_tags : (values : List Bytes) → Kept e (record e { tags = add_tags values e.tags })
  with_tags values = record {
    name_kept = refl;
    still = λ is. record {
      addressed = is.addressed;
      port_ok = is.port_ok;
      native_ok = is.native_ok;
      supported = is.supported;
      groups_unique = is.groups_unique;
      groups_filled = is.groups_filled;
      tags_unique = add_tags-IsUnique values e.tags is.tags_unique;
      tags_filled = add_tags-IsFilled values e.tags is.tags_filled;
    };
  }

transport-Kept :
    (e : Host) (number : ℕ) (value : Bytes) (bad : Problem)
    → Keeps e (
        if is_supported_transport value
        then parsed (record e { transport = value })
        else malformed number bad)
transport-Kept e number value bad = elim (Bool-cases (is_supported_transport value)) [
  | inl good ↦
      subst
        (λ b. Keeps e (if b then parsed (record e { transport = value }) else malformed number bad))
        (sym good) (parsed-Kept e _ (with_transport e value good))
  | inr refused ↦
      subst
        (λ b. Keeps e (if b then parsed (record e { transport = value }) else malformed number bad))
        (sym refused) (malformed-Kept e number bad)
]

set_option-Keeps :
    (number : ℕ) (key value : Bytes) (e : Host) → Keeps e (set_option number key value e)
unfolding set_option
set_option-Keeps number key value e =
    by_key e _ _ _ (parsed-Kept e _ (plain e value e.identity e.san)) (
      by_key e _ _ _
        (port-Kept e value number (λ port. record e { port = port })
          (λ port ok. with_ports e port e.native_port (λ is. (ok, is.native_ok))))
        (by_key e _ _ _ (parsed-Kept e _ (plain e e.user value e.san)) (
          by_key e _ _ _ (transport-Kept e number value (bad_transport value)) (
            by_key e _ _ _ (parsed-Kept e _ (plain e e.user e.identity value)) (
              by_key e _ _ _
                (port-Kept e value number (λ port. record e { native_port = port })
                  (λ port ok. with_ports e e.port port (λ is. (is.port_ok, ok.1))))
                (by_key e _ _ _ (parsed-Kept e _ (with_tags e (pieces 44 value)))
                  (malformed-Kept e number (unknown_option key))))))))

option_with-Keeps :
    (number : ℕ) (opt key rest : Bytes) (e : Host) → Keeps e (option_with number opt key rest e)
unfolding option_with
option_with-Keeps number opt key [] e = malformed-Kept e number (expected_option opt)
option_with-Keeps number opt key (c ∷ value) e = set_option-Keeps number key value e

pub options_on-Kept :
    (number : ℕ) (opts : List Bytes) (e e' : Host)
    → options_on number opts e ≡ parsed e'
    → Kept e e'
unfolding options_on option_on Keeps
options_on-Kept number [] e e' is = subst (Kept e) (parsed-injective is) (Kept-refl e)
options_on-Kept number (opt ∷ opts) e e' is =
    let (first, step, rest) =
      >>=-parsed (option_on number opt e) (λ entry. options_on number opts entry) is in
    let here : Kept e first = option_with-Keeps number opt _ _ e first step in
    let there = options_on-Kept number opts first e' rest in
    record {
      name_kept = there.name_kept ∙ here.name_kept;
      still = λ ok. there.still (here.still ok);
    }
