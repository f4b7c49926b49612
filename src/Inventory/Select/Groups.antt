-- ===== src/Inventory/Select/Groups.antt =====
-- The groups of an inventory, and the hosts they select.
use pipe_shell_x.Base.{
  ◌≡◌, ◌<◌, ◌↔◌, refl, sym, ap, subst, ◌∙◌, inl, inr, [], ◌∷◌, List, Bool, true, false, ◌||◌, Bytes,
  length, arith, Bool-cases,
}
use pipe_shell_x.Text.{equal, is_listed}
use pipe_shell_x.Text.Lists.{equal-≡, is_listed-snoc, IsUnique}
use pipe_shell_x.Inventory.{Hosts, add_unique}
use pipe_shell_x.Inventory.Unique.{add_unique-IsUnique}
use pipe_shell_x.Inventory.Select.{select_group, groups, groups_from, add_all}

or_true : (b : Bool) → (b || true) ≡ true
or_true true = refl
or_true false = refl

or_nil : (b : Bool) → (b || false) ≡ b
or_nil true = refl
or_nil false = refl

or_assoc : (a b c : Bool) → ((a || b) || c) ≡ (a || (b || c))
or_assoc true b c = refl
or_assoc false b c = refl

listed-add_unique :
    (g : Bytes) (list : List Bytes) (v : Bytes)
    → is_listed g (add_unique list v) ≡ (is_listed g list || equal g v)
unfolding add_unique
listed-add_unique g list v = elim (Bool-cases (is_listed v list)) [
  | inr new ↦ rw (new) (is_listed-snoc g v list)
  | inl there ↦ rw (there) (elim (Bool-cases (equal g v)) [
    | inr other ↦ rw (other) (sym (or_nil (is_listed g list)))
    | inl same ↦
        rw (same)
          (ap (λ k. is_listed k list) (equal-≡ g v same) ∙ there ∙ sym (or_true (is_listed g list)))
  ])
]

listed-add_all :
    (g : Bytes) (out vs : List Bytes)
    → is_listed g (add_all out vs) ≡ (is_listed g out || is_listed g vs)
unfolding add_all is_listed
listed-add_all g out [] = sym (or_nil (is_listed g out))
listed-add_all g out (v ∷ vs) =
    listed-add_all g (add_unique out v) vs
    ∙ ap (λ b. b || is_listed g vs) (listed-add_unique g out v)
    ∙ or_assoc (is_listed g out) (equal g v) (is_listed g vs)

any_in : Bytes → Hosts → Bool
any_in g [] = false
any_in g (h ∷ hosts) = is_listed g h.groups || any_in g hosts

listed-groups_from :
    (g : Bytes) (out : List Bytes) (hosts : Hosts)
    → is_listed g (groups_from out hosts) ≡ (is_listed g out || any_in g hosts)
unfolding groups_from any_in
listed-groups_from g out [] = sym (or_nil (is_listed g out))
listed-groups_from g out (h ∷ hosts) =
    listed-groups_from g (add_all out h.groups) hosts
    ∙ ap (λ b. b || any_in g hosts) (listed-add_all g out h.groups)
    ∙ or_assoc (is_listed g out) (is_listed g h.groups) (any_in g hosts)

any-selected :
    (g : Bytes) (hosts : Hosts) → any_in g hosts ≡ true ↔ (0 < length (select_group g hosts))
unfolding any_in select_group
any-selected g [] = ((λ never. cc), (λ never. absurd (omega arith)))
any-selected g (h ∷ hosts) = elim (Bool-cases (is_listed g h.groups)) [
  | inl here ↦ rw (here) ((λ _. omega arith), (λ _. refl))
  | inr other ↦ rw (other) (any-selected g hosts)
]

all-IsUnique : (out vs : List Bytes) → IsUnique out → IsUnique (add_all out vs)
unfolding add_all
all-IsUnique out [] unique = unique
all-IsUnique out (v ∷ vs) unique =
    all-IsUnique (add_unique out v) vs (add_unique-IsUnique out v unique)

from-IsUnique : (out : List Bytes) (hosts : Hosts) → IsUnique out → IsUnique (groups_from out hosts)
unfolding groups_from
from-IsUnique out [] unique = unique
from-IsUnique out (h ∷ hosts) unique =
    from-IsUnique (add_all out h.groups) hosts (all-IsUnique out h.groups unique)

-- The groups are those that select a host, each once.
pub groups-select_group :
    (hosts : Hosts)
    → IsUnique (groups hosts)
      × ((g : Bytes) → (is_listed g (groups hosts) ≡ true) ↔ (0 < length (select_group g hosts)))
unfolding groups is_listed
groups-select_group hosts = (
  from-IsUnique [] hosts tt,
  λ g.
      subst (λ b. (b ≡ true) ↔ (0 < length (select_group g hosts)))
        (sym (listed-groups_from g [] hosts)) (any-selected g hosts),
)
