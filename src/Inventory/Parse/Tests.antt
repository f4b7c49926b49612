-- ===== src/Inventory/Parse/Tests.antt =====
-- Inventories that are parsed from concrete texts.
use pipe_shell_x.Base.{◌≡◌, refl, [], ◌∷◌, ◌++◌, Bytes, codes}
use pipe_shell_x.Text.{is_one_of, equal, span_to, skip, cut_back, trim_by, pieces, is_listed}
use pipe_shell_x.Inventory.{
  Hosts, parsed, is_blank, trim, is_space, strip_from, strip_comment, tokens_after,
  split_whitespace, unsigned_from, unsigned_of, port_of, parse_port, add_unique,
  is_supported_transport, new_host, upsert, ssh,
}
use pipe_shell_x.Inventory.Valid.{IsInventory}
use pipe_shell_x.Inventory.Parse.{
  is_equals, is_at, unbracket, section_of, section_on, set_default, default_with, default_on,
  add_tags, set_option, option_with, option_on, options_on, listed, user_and_host, enter, host_with,
  host_on, entry_on, trimmed_on, line_on, parse_lines, parse,
}
use pipe_shell_x.Inventory.Parse.Valid.{parse-IsInventory}

abbrev a_text : Bytes
a_text =
    codes "[defaults]"
    ++ 10 ∷ codes "user=ops"
    ++ 10 ∷ codes "[web]"
    ++ 10 ∷ codes "bob@a port=2222 tag=x,y # first"
    ++ 10 ∷ codes "[db]"
    ++ 10 ∷ codes "a"
    ++ 10 ∷ []

-- The second listing of the host gives its user up for that of the defaults.
abbrev pub its_hosts : Hosts
its_hosts =
    record {
      name = codes "a";
      user = codes "ops";
      host = codes "a";
      port = 2222;
      identity = [];
      transport = ssh;
      san = [];
      native_port = 0;
      groups = codes "web" ∷ codes "db" ∷ [];
      tags = codes "x" ∷ codes "y" ∷ [];
    }
    ∷ []

parse-a_text : parse a_text ≡ parsed its_hosts
unfolding is_one_of equal span_to skip cut_back trim_by pieces is_listed is_blank trim is_space
    strip_from strip_comment tokens_after split_whitespace unsigned_from unsigned_of port_of
    parse_port add_unique is_supported_transport new_host upsert is_equals is_at unbracket
    section_of section_on set_default default_with default_on add_tags set_option option_with
    option_on options_on listed user_and_host enter host_with host_on entry_on trimmed_on line_on
    parse_lines parse
parse-a_text = refl

pub parse-IsInventory_example : IsInventory its_hosts
parse-IsInventory_example = parse-IsInventory a_text its_hosts parse-a_text

-- A port of the defaults takes the place of one that was set to 22 explicitly, and an empty address is
-- a host.
abbrev another_text : Bytes
another_text =
    codes "[defaults]"
    ++ 10 ∷ codes "port=2200"
    ++ 10 ∷ codes "[web]"
    ++ 10 ∷ codes "a port=22"
    ++ 10 ∷ codes "[db]"
    ++ 10 ∷ codes "a"
    ++ 10 ∷ codes "bob@"
    ++ 10 ∷ []

parse-another_text :
    parse another_text
    ≡ parsed (
        record {
          name = codes "a";
          user = [];
          host = codes "a";
          port = 2200;
          identity = [];
          transport = ssh;
          san = [];
          native_port = 0;
          groups = codes "web" ∷ codes "db" ∷ [];
          tags = [];
        }
        ∷ record {
          name = [];
          user = codes "bob";
          host = [];
          port = 2200;
          identity = [];
          transport = ssh;
          san = [];
          native_port = 0;
          groups = codes "db" ∷ [];
          tags = [];
        }
        ∷ [])
unfolding is_one_of equal span_to skip cut_back trim_by pieces is_listed is_blank trim is_space
    strip_from strip_comment tokens_after split_whitespace unsigned_from unsigned_of port_of
    parse_port add_unique is_supported_transport new_host upsert is_equals is_at unbracket
    section_of section_on set_default default_with default_on add_tags set_option option_with
    option_on options_on listed user_and_host enter host_with host_on entry_on trimmed_on line_on
    parse_lines parse
parse-another_text = refl
