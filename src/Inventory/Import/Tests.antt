-- ===== src/Inventory/Import/Tests.antt =====
-- Queries of SSH URLs at concrete inputs.
use pipe_shell_x.Base.{◌≡◌, refl, [], ◌∷◌, List, Bytes, codes}
use pipe_shell_x.Text.{equal, span_to, is_listed}
use pipe_shell_x.Inventory.{parsed}
use pipe_shell_x.Inventory.Import.{
  is_secret, renamed, is_supported_query, parameter_with, parameter_on, query_option, query_on,
}
use pipe_shell_x.Inventory.Parse.{is_equals}
use pipe_shell_x.Inventory.Import.Secrets.{without_secrets, query_on-without_secrets}

abbrev parameters : List Bytes
parameters = codes "password=x" ∷ codes "key=id" ∷ []

query_on-parameters : query_on 1 [] parameters ≡ parsed (codes " identity=id")
unfolding query_on parameter_on parameter_with query_option is_secret renamed is_supported_query
    equal span_to is_listed is_equals
query_on-parameters = refl

query_on-without_secrets_example :
    query_on 1 [] (without_secrets parameters) ≡ parsed (codes " identity=id")
query_on-without_secrets_example =
    query_on-without_secrets 1 [] parameters (codes " identity=id") query_on-parameters
