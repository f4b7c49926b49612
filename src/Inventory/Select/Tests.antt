-- ===== src/Inventory/Select/Tests.antt =====
-- Changes and selections at a concrete inventory.
use pipe_shell_x.Base.{◌≡◌, refl, [], ◌∷◌, codes, true, arith}
use pipe_shell_x.Text.{equal, is_listed}
use pipe_shell_x.Inventory.{Host, Hosts, is_supported_transport, ssh}
use pipe_shell_x.Inventory.Valid.{IsHost, IsInventory}
use pipe_shell_x.Inventory.Select.{done, add, remove, is_taken, in_a_group}
use pipe_shell_x.Inventory.Select.Changes.{remove-add}
use pipe_shell_x.Inventory.Select.Found.{Removed, remove-Removed}

abbrev alpha : Host
alpha = record {
  name = codes "a";
  user = codes "ops";
  host = codes "a";
  port = 2222;
  identity = [];
  transport = ssh;
  san = [];
  native_port = 0;
  groups = codes "web" ∷ codes "db" ∷ [];
  tags = codes "x" ∷ codes "y" ∷ [];
}

alpha-IsHost : IsHost alpha
unfolding is_listed equal is_supported_transport
alpha-IsHost = record {
  addressed = refl;
  port_ok = (omega arith, omega arith);
  native_ok = omega arith;
  supported = refl;
  groups_unique = (refl, (refl, tt));
  groups_filled = (omega arith, (omega arith, tt));
  tags_unique = (refl, (refl, tt));
  tags_filled = (omega arith, (omega arith, tt));
}

abbrev fleet : Hosts
fleet = alpha ∷ []

fleet-IsInventory : IsInventory fleet
unfolding is_listed
fleet-IsInventory = record { unique = (refl, tt); each = (alpha-IsHost, tt) }

abbrev beta : Host
beta = record {
  name = codes "b";
  user = [];
  host = codes "b";
  port = 22;
  identity = [];
  transport = ssh;
  san = [];
  native_port = 0;
  groups = [];
  tags = [];
}

beta-IsHost : IsHost beta
unfolding is_supported_transport equal
beta-IsHost = record {
  addressed = refl;
  port_ok = (omega arith, omega arith);
  native_ok = omega arith;
  supported = refl;
  groups_unique = tt;
  groups_filled = tt;
  tags_unique = tt;
  tags_filled = tt;
}

abbrev larger_fleet : Hosts
larger_fleet = alpha ∷ record beta { groups = codes "all" ∷ [] } ∷ []

add-beta : add beta fleet ≡ done larger_fleet
unfolding add is_taken in_a_group is_supported_transport equal
add-beta = refl

remove-add_example : remove (codes "b") larger_fleet ≡ (true, fleet)
remove-add_example = remove-add beta fleet larger_fleet refl add-beta

remove-Removed_example : Removed (codes "a") fleet (remove (codes "a") fleet)
remove-Removed_example = remove-Removed (codes "a") fleet fleet-IsInventory
