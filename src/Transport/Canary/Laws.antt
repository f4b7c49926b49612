-- ===== src/Transport/Canary/Laws.antt =====
-- What a rollout delivers, and where it never does.
use pipe_shell_x.Base.{
  ℕ, ◌≡◌, ◌<◌, refl, sym, ap, ap₂, ◌∙◌, [], ◌∷◌, ◌++◌, List, true, false, Bytes, length, take, drop,
  take-append-drop, ◌==◌, map, arith,
}
use pipe_shell_x.Transport.Controller.{HostResult}
use pipe_shell_x.Transport.Canary.{
  Target, Canary, takes, finish, idle_canary, clamped, start, all_ok, start_rest, on_canary_done,
  on_rest_done,
}

abbrev pub hosts_of : List HostResult → List Bytes
hosts_of results = map (λ r. r.host) results

abbrev pub names_of : List Target → List Bytes
names_of targets = map (λ t. t.host) targets

map-append {ℓ κ} :
    {A : Type ℓ} {B : Type κ} (f : A → B) (xs ys : List A) → map f (xs ++ ys) ≡ map f xs ++ map f ys
map-append f [] ys = refl
map-append f (x ∷ xs) ys = ap (λ l. f x ∷ l) (map-append f xs ys)

-- The rollout of `targets`: the state when the canaries have reported.
module _ (targets : List Target) (count : ℕ) (command : List Bytes)
    (results : List HostResult) where
  abbrev pub canaries : List Target
  canaries = take (clamped count (length targets)) targets

  abbrev pub others : List Target
  others = drop (clamped count (length targets)) targets

  abbrev pub after_canary : Canary
  after_canary = on_canary_done results (start targets count command).0

  abbrev waiting : Canary
  waiting = record (idle_canary command) {
    rest_targets = others;
    canary_runs = takes command canaries;
  }

  start-eq : 0 < length targets → (start targets count command).0 ≡ waiting
  unfolding start
  start-eq some_target =
      let filled : (length targets == 0) ≡ false = ground (arith, some_target) in rw (filled) refl

  names_split : names_of canaries ++ names_of others ≡ names_of targets
  names_split =
      sym (map-append (λ t. t.host) canaries others)
      ∙ ap names_of (take-append-drop (clamped count (length targets)) targets)

  begun_rest :
      0 < length targets
      → all_ok results ≡ true
      → 0 < length others
      → after_canary ≡ record waiting { canary_results = results; rest_runs = takes command others }
  unfolding on_canary_done start_rest
  begun_rest some_target good more =
      let filled : (length others == 0) ≡ false = ground (arith, more) in
      ap (on_canary_done results) (start-eq some_target) ∙ rw (good) (rw (filled) refl)

  -- When every canary succeeds and the rest can be started, its results complete those of the canaries.
  pub rollout_done :
      (rest_results : List HostResult)
      → 0 < length targets
      → hosts_of results ≡ names_of canaries
      → all_ok results ≡ true
      → 0 < length others
      → takes command others ≡ true
      → hosts_of rest_results ≡ names_of others
      → (after_canary.delivered ≡ [])
        × (after_canary.rest_runs ≡ true)
        × ((on_rest_done rest_results after_canary).delivered ≡ (results ++ rest_results) ∷ [])
        × (hosts_of (results ++ rest_results) ≡ names_of targets)
  unfolding on_rest_done finish
  rollout_done rest_results some_target told good more taken rest_told =
      let is = begun_rest some_target good more in
      (
        ap (λ st. st.delivered) is,
        ap (λ st. st.rest_runs) is ∙ taken,
        ap (λ st. (on_rest_done rest_results st).delivered) is,
        map-append (λ r. r.host) results rest_results
            ∙ ap₂ (λ a b. a ++ b) told rest_told
            ∙ names_split,
      )
