-- ===== src/Inventory/Select/Found.antt =====
-- What a name finds, before and after `remove`, and the hosts of a group.
use pipe_shell_x.Base.{
  ◌≡◌, refl, sym, ap, ap₂, subst, ◌∙◌, inl, inr, [], ◌∷◌, none, some, Bool, true, false, ◌||◌,
  Bytes, Bool-cases, All,
}
use pipe_shell_x.Text.{equal, is_listed}
use pipe_shell_x.Text.Lists.{or_false, equal-≡, equal_refl, equal_sym}
use pipe_shell_x.Inventory.{Host, Hosts}
use pipe_shell_x.Inventory.Unique.{names}
use pipe_shell_x.Inventory.Valid.{IsHost, IsInventory}
use pipe_shell_x.Inventory.Select.{done, answers_to, find_host, remove, select_hosts, onto_found}
use pipe_shell_x.Inventory.Select.Changes.{remove-here, remove-past}

found-here :
    (name : Bytes) (h : Host) (hosts : Hosts)
    → answers_to name h ≡ true
    → find_host name (h ∷ hosts) ≡ some h
unfolding find_host
found-here name h hosts it = rw (it) refl

found-past :
    (name : Bytes) (h : Host) (hosts : Hosts)
    → answers_to name h ≡ false
    → find_host name (h ∷ hosts) ≡ find_host name hosts
unfolding find_host
found-past name h hosts other = rw (other) refl

-- In an inventory a host answers to its name alone.
answers_to-name : (name : Bytes) (h : Host) → IsHost h → answers_to name h ≡ equal h.name name
unfolding answers_to
answers_to-name name h is =
    ap (λ a. equal h.name name || equal a name) (sym is.addressed) ∙ same_twice (equal h.name name)
  where
    same_twice : (b : Bool) → (b || b) ≡ b
    same_twice true = refl
    same_twice false = refl

nobody :
    (name : Bytes) (hosts : Hosts)
    → All IsHost hosts
    → is_listed name (names hosts) ≡ false
    → find_host name hosts ≡ none
unfolding is_listed find_host
nobody name [] all missing = refl
nobody name (h ∷ hosts) (is, all) missing =
    let (other, rest) = or_false (equal name h.name) (is_listed name (names hosts)) missing in
    found-past name h hosts (answers_to-name name h is ∙ equal_sym h.name name ∙ other)
    ∙ nobody name hosts all rest

removed-unlisted :
    (name other : Bytes) (hosts : Hosts)
    → is_listed other (names hosts) ≡ false
    → is_listed other (names (remove name hosts).1) ≡ false
unfolding is_listed remove
removed-unlisted name other [] missing = refl
removed-unlisted name other (h ∷ hosts) missing =
    let (not_h, rest) = or_false (equal other h.name) (is_listed other (names hosts)) missing in
    elim (Bool-cases (answers_to name h)) [
      | inl it ↦
          subst (λ r. is_listed other (names r.1) ≡ false) (sym (remove-here name h hosts it)) rest
      | inr not_it ↦
          subst (λ r. is_listed other (names r.1) ≡ false) (sym (remove-past name h hosts not_it))
            (ap₂ (λ a b. a || b) not_h (removed-unlisted name other hosts rest))
    ]

-- What `remove` promises of an inventory.
pub record Removed (name : Bytes) (hosts : Hosts) (result : Bool × Hosts) : Type 0 where
  pub still : IsInventory result.1
  pub gone : find_host name result.1 ≡ none
  pub absent : result.0 ≡ false → result.1 ≡ hosts
  pub others :
      (other : Bytes) → equal other name ≡ false → find_host other result.1 ≡ find_host other hosts

module _ (name : Bytes) (h : Host) (hosts : Hosts) (ok : IsInventory (h ∷ hosts)) where
  tail_ok : IsInventory hosts
  tail_ok = record { unique = ok.unique.1; each = ok.each.1 }

  Removed-here : answers_to name h ≡ true → Removed name (h ∷ hosts) (true, hosts)
  Removed-here it =
      let named : equal h.name name ≡ true = sym (answers_to-name name h ok.each.0) ∙ it in
      let same : h.name ≡ name = equal-≡ h.name name named in
      record {
        still = tail_ok;
        gone =
            nobody name hosts ok.each.1
              (subst (λ n. is_listed n (names hosts) ≡ false) same ok.unique.0);
        absent = λ never. cc;
        others = λ other differs.
            let not_h : answers_to other h ≡ false =
              answers_to-name other h ok.each.0
              ∙ ap (λ n. equal n other) same
              ∙ equal_sym name other
              ∙ differs in
            sym (found-past other h hosts not_h);
      }

  Removed-past :
      answers_to name h ≡ false
      → Removed name hosts (remove name hosts)
      → Removed name (h ∷ hosts) ((remove name hosts).0, h ∷ (remove name hosts).1)
  Removed-past not_it rest = record {
    still = record {
      unique = (removed-unlisted name h.name hosts ok.unique.0, rest.still.unique);
      each = (ok.each.0, rest.still.each);
    };
    gone = found-past name h (remove name hosts).1 not_it ∙ rest.gone;
    absent = λ e. ap (λ hs. h ∷ hs) (rest.absent e);
    others = λ other differs. elim (Bool-cases (answers_to other h)) [
      | inl this ↦
          found-here other h (remove name hosts).1 this ∙ sym (found-here other h hosts this)
      | inr not_this ↦
          found-past other h (remove name hosts).1 not_this
          ∙ rest.others other differs
          ∙ sym (found-past other h hosts not_this)
    ];
  }

-- An inventory stays one when a host is removed; the name finds nothing more, every other name finds
-- what it did, and where no host was found nothing is changed.
pub remove-Removed :
    (name : Bytes) (hosts : Hosts) → IsInventory hosts → Removed name hosts (remove name hosts)
unfolding remove find_host
remove-Removed name [] ok = record {
  still = ok;
  gone = refl;
  absent = λ _. refl;
  others = λ _ _. refl;
}
remove-Removed name (h ∷ hosts) ok = elim (Bool-cases (answers_to name h)) [
  | inl it ↦
      subst (Removed name (h ∷ hosts)) (sym (remove-here name h hosts it))
        (Removed-here name h hosts ok it)
  | inr other ↦
      let rest : Removed name hosts (remove name hosts) =
        remove-Removed name hosts (record { unique = ok.unique.1; each = ok.each.1 }) in
      subst (Removed name (h ∷ hosts)) (sym (remove-past name h hosts other))
        (Removed-past name h hosts ok other rest)
]

-- Every host of an inventory is the one that its name finds.
finds_past :
    (h : Host) (hosts gs : Hosts)
    → IsHost h
    → is_listed h.name (names gs) ≡ false
    → All (λ g. find_host g.name hosts ≡ some g) gs
    → All (λ g. find_host g.name (h ∷ hosts) ≡ some g) gs
unfolding is_listed
finds_past h hosts [] is apart all = tt
finds_past h hosts (g ∷ gs) is apart (here, all) =
    let (other, rest) = or_false (equal h.name g.name) (is_listed h.name (names gs)) apart in
    (
      found-past g.name h hosts (answers_to-name g.name h is ∙ other) ∙ here,
      finds_past h hosts gs is rest all,
    )

finds_each : (hosts : Hosts) → IsInventory hosts → All (λ g. find_host g.name hosts ≡ some g) hosts
finds_each [] ok = tt
finds_each (h ∷ hosts) ok = (
  found-here h.name h hosts (answers_to-name h.name h ok.each.0 ∙ equal_refl h.name),
  finds_past h hosts hosts ok.each.0 ok.unique.0
      (finds_each hosts (record { unique = ok.unique.1; each = ok.each.1 })),
)

select_all :
    (hosts gs : Hosts)
    → All (λ g. find_host g.name hosts ≡ some g) gs
    → select_hosts (names gs) hosts ≡ done gs
unfolding select_hosts onto_found
select_all hosts [] all = refl
select_all hosts (g ∷ gs) (here, all) = ap₂ (onto_found g.name) here (select_all hosts gs all)

-- The names of an inventory select all of its hosts, in order.
pub select_hosts-names :
    (hosts : Hosts) → IsInventory hosts → select_hosts (names hosts) hosts ≡ done hosts
select_hosts-names hosts ok = select_all hosts hosts (finds_each hosts ok)
