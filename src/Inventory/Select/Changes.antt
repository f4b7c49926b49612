-- ===== src/Inventory/Select/Changes.antt =====
-- `add` and `remove`: they keep an inventory well-formed, and the second undoes the first.
use pipe_shell_x.Base.{
  ◌≡◌, refl, sym, ap, ap₂, subst, ◌∙◌, inl, inr, [], ◌∷◌, ◌++◌, true, false, ◌||◌, Bytes, length,
  ◌==◌, arith, Bool-cases,
}
use pipe_shell_x.Text.{equal, is_listed}
use pipe_shell_x.Text.Lists.{or_false, equal_refl, equal_sym, IsUnique, IsUnique-snoc, All-snoc}
use pipe_shell_x.Inventory.{Host, Hosts, is_supported_transport}
use pipe_shell_x.Inventory.Unique.{names}
use pipe_shell_x.Inventory.Valid.{IsHost, IsInventory}
use pipe_shell_x.Inventory.Select.{
  done, empty_name, bad_transport, already_exists, answers_to, is_taken, in_a_group, add, remove,
}

done-injective {ℓ} : {A : Type ℓ} {a b : A} → done a ≡ done b → a ≡ b
done-injective e = cc

-- The cases that `add` refuses, and what it does otherwise.
record Added (host : Host) (hosts hosts' : Hosts) : Type 0 where
  free : is_taken host hosts ≡ false
  supported : is_supported_transport host.transport ≡ true
  result : hosts ++ in_a_group host ∷ [] ≡ hosts'

add-Added :
    (host : Host) (hosts hosts' : Hosts) → add host hosts ≡ done hosts' → Added host hosts hosts'
unfolding add
add-Added host hosts hosts' e =
    elim (Bool-cases ((length host.name == 0) || (length host.host == 0))) [
      | inl empty ↦ absurd (let never : empty_name ≡ done hosts' = simp (empty) at e in cc)
      | inr named ↦ elim (Bool-cases (is_supported_transport host.transport)) [
        | inr bad ↦
            absurd (
              let never : bad_transport host.transport ≡ done hosts' = simp (named, bad) at e in cc)
        | inl good ↦ elim (Bool-cases (is_taken host hosts)) [
          | inl taken ↦ absurd (
              let never : already_exists host.name ≡ done hosts' = simp (named, good, taken) at e in
              cc)
          | inr free ↦ record {
            free = free;
            supported = good;
            result = done-injective (simp (named, good, free) at e);
          }
        ]
      ]
    ]

not_taken :
    (host h : Host) (hosts : Hosts)
    → is_taken host (h ∷ hosts) ≡ false
    → (equal h.name host.name ≡ false)
      × (equal h.host host.host ≡ false)
      × (is_taken host hosts ≡ false)
unfolding is_taken
not_taken host h hosts e =
    let (here, there) =
      or_false (equal h.name host.name || equal h.host host.host) (is_taken host hosts) e in
    let (by_name, by_host) = or_false (equal h.name host.name) (equal h.host host.host) here in
    (by_name, by_host, there)

unlisted :
    (host : Host) (hosts : Hosts)
    → is_taken host hosts ≡ false
    → is_listed host.name (names hosts) ≡ false
unfolding is_listed
unlisted host [] free = refl
unlisted host (h ∷ hosts) free =
    let (by_name, _, rest) = not_taken host h hosts free in
    ap₂ (λ a b. a || b) (equal_sym host.name h.name ∙ by_name) (unlisted host hosts rest)

names-snoc : (hosts : Hosts) (h : Host) → names (hosts ++ h ∷ []) ≡ names hosts ++ h.name ∷ []
names-snoc [] h = refl
names-snoc (g ∷ hosts) h = ap (λ ns. g.name ∷ ns) (names-snoc hosts h)

in_a_group-IsHost : (host : Host) → IsHost host → IsHost (in_a_group host)
unfolding in_a_group is_listed
in_a_group-IsHost host is = record {
  addressed = is.addressed;
  port_ok = is.port_ok;
  native_ok = is.native_ok;
  supported = is.supported;
  groups_unique = elim (Bool-cases (length host.groups == 0)) [
    | inl none_yet ↦ rw (none_yet) (refl, tt)
    | inr grouped ↦ rw (grouped) is.groups_unique
  ];
  groups_filled = elim (Bool-cases (length host.groups == 0)) [
    | inl none_yet ↦ rw (none_yet) (omega arith, tt)
    | inr grouped ↦ rw (grouped) is.groups_filled
  ];
  tags_unique = is.tags_unique;
  tags_filled = is.tags_filled;
}

-- A host that is added to an inventory makes an inventory.
pub add-IsInventory :
    (host : Host) (hosts hosts' : Hosts)
    → IsInventory hosts
    → IsHost host
    → add host hosts ≡ done hosts'
    → IsInventory hosts'
unfolding in_a_group
add-IsInventory host hosts hosts' ok is e =
    let added = add-Added host hosts hosts' e in
    subst IsInventory added.result (record {
      unique =
          subst IsUnique (sym (names-snoc hosts (in_a_group host)))
            (IsUnique-snoc (names hosts) host.name ok.unique (unlisted host hosts added.free));
      each = All-snoc IsHost hosts (in_a_group host) ok.each (in_a_group-IsHost host is);
    })

pub remove-here :
    (name : Bytes) (h : Host) (hosts : Hosts)
    → answers_to name h ≡ true
    → remove name (h ∷ hosts) ≡ (true, hosts)
unfolding remove
remove-here name h hosts yes_it = rw (yes_it) refl

pub remove-past :
    (name : Bytes) (h : Host) (hosts : Hosts)
    → answers_to name h ≡ false
    → remove name (h ∷ hosts) ≡ ((remove name hosts).0, h ∷ (remove name hosts).1)
unfolding remove
remove-past name h hosts other = rw (other) refl

remove-snoc :
    (host : Host) (hosts : Hosts)
    → host.name ≡ host.host
    → is_taken host hosts ≡ false
    → remove host.name (hosts ++ in_a_group host ∷ []) ≡ (true, hosts)
unfolding answers_to in_a_group
remove-snoc host [] addressed free =
    remove-here host.name (in_a_group host) []
      (ap (λ b. b || equal host.host host.name) (equal_refl host.name))
remove-snoc host (h ∷ hosts) addressed free =
    let (by_name, by_host, rest) = not_taken host h hosts free in
    let other : answers_to host.name h ≡ false =
      ap₂ (λ a b. a || b) by_name (ap (equal h.host) addressed ∙ by_host) in
    remove-past host.name h (hosts ++ in_a_group host ∷ []) other
    ∙ ap (λ r. (r.0, h ∷ r.1)) (remove-snoc host hosts addressed rest)

-- Removing the host that was added last restores the inventory.
pub remove-add :
    (host : Host) (hosts hosts' : Hosts)
    → host.name ≡ host.host
    → add host hosts ≡ done hosts'
    → remove host.name hosts' ≡ (true, hosts)
remove-add host hosts hosts' addressed e =
    let added = add-Added host hosts hosts' e in
    subst (λ hs. remove host.name hs ≡ (true, hosts)) added.result
      (remove-snoc host hosts addressed added.free)
