-- ===== src/Oci/Examples.antt =====
-- A container with one layer.
use cfunc.Base.{◌≡◌, refl, Bool, true, false, List, [], ◌∷◌, Str, lit, Result, ok, err}
use cfunc.Oci.{Config, build, spec_of, socket_dir_not_absolute}
use cfunc.Oci.Sealed.{IsSealed, build-IsSealed}

abbrev config : Config
config = record {
  rootfs_path = lit "/var/rootfs";
  binary = lit "/app";
  args = [];
  env = [];
  socket_dir = lit "/run/x";
  socket_dir_in_container = [];
  socket_name = [];
  layers = record { name = lit "l"; host_path = lit "/layers/l"; mount_path = lit "/opt/l" } ∷ [];
  hostname = [];
}

built : build (lit "1.0.2") config ≡ ok (spec_of (lit "1.0.2") config)
unfolding build cfunc.Base.str_beq
built = refl

abbrev relative : Config
relative = record config { socket_dir = lit "run" }

refused : build (lit "1.0.2") relative ≡ err socket_dir_not_absolute
unfolding build cfunc.Base.str_beq
refused = refl

build-IsSealed_example : IsSealed config (spec_of (lit "1.0.2") config)
build-IsSealed_example = build-IsSealed (lit "1.0.2") config (spec_of (lit "1.0.2") config) built
