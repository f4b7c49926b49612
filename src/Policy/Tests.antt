-- ===== src/Policy/Tests.antt =====
-- A policy at concrete inputs.
use pipe_shell_x.Base.{◌≡◌, refl, [], ◌∷◌, some, none, false, codes}
use pipe_shell_x.Text.{is_one_of, has_any, equal, is_listed}
use pipe_shell_x.Policy.{
  Policy, validate, or_else, refused_name, refused_count, refused_tokens, first_unsafe,
  has_shell_metacharacter,
}
use pipe_shell_x.Policy.Permits.{IsPermitted, validate-IsPermitted}

abbrev only_ls : Policy
only_ls = record {
  allowed = codes "ls" ∷ [];
  max_args = some 3;
  allow_shell_metacharacters = false;
}

only_ls-permits : validate (codes "ls" ∷ codes "-l" ∷ []) only_ls ≡ none
unfolding validate or_else refused_name refused_count refused_tokens first_unsafe
    has_shell_metacharacter is_one_of has_any equal is_listed
only_ls-permits = refl

validate-IsPermitted_example : IsPermitted (codes "ls") (codes "-l" ∷ []) only_ls
validate-IsPermitted_example =
    validate-IsPermitted (codes "ls") (codes "-l" ∷ []) only_ls only_ls-permits
