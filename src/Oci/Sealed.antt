-- ===== src/Oci/Sealed.antt =====
-- What a container of internal/oci/spec.go can write to.
use cfunc.Base.{
  if◌then◌else◌, subst, guard-none, guard-ok, is_true_of_not, or_false, ◌≡◌, refl, ap, ◌∙◌, ℕ, Bool,
  true, not, ◌||◌, List, [], ◌∷◌, ◌++◌, Option, none, some, map, Str, lit, All, keep, contains,
  ◌==◌, Result, ok, err, is_abs, arith, suc, str_beq, str_eq,
}
use cfunc.Oci.{
  host_path_not_absolute, mount_path_not_absolute, no_rootfs, no_binary, binary_not_absolute,
  no_socket_dir, socket_dir_not_absolute, Config, ConfigError, Layer, Mount, Spec, build, assembled,
  check_layers, default_mounts, socket_mount, layer_mount,
}

-- Does a mount show a part of the host, and can it be written to?
abbrev pub is_bind : Mount → Bool
is_bind m = m.type == lit "bind"

abbrev pub is_writable : Mount → Bool
is_writable m = not (contains m.options (lit "ro"))

abbrev pub IsRooted : Layer → Type 0
IsRooted l = (is_abs l.host_path ≡ true) × (is_abs l.mount_path ≡ true)

-- The directory of the socket, and where the container sees it.
abbrev pub shared_socket : Config → Mount
shared_socket cfg = record {
  destination =
      if cfg.socket_dir_in_container == [] then lit "/run/cfunc" else cfg.socket_dir_in_container;
  type = lit "bind";
  source = cfg.socket_dir;
  options = lit "rbind" ∷ lit "rw" ∷ [];
}

abbrev pub shared_layer : Layer → Mount
shared_layer l = record {
  destination = l.mount_path;
  type = lit "bind";
  source = l.host_path;
  options = lit "rbind" ∷ lit "ro" ∷ [];
}

pub record IsSealed (cfg : Config) (spec : Spec) : Type 0 where
  pub root : (spec.root_path ≡ cfg.rootfs_path) × (spec.root_readonly ≡ true)
  pub unprivileged : spec.process.no_new_privileges ≡ true
  -- Of the host, the container sees the socket's directory at its place, and then each layer's host
  -- path at its mount path, in order.
  pub binds : keep is_bind spec.mounts ≡ shared_socket cfg ∷ map shared_layer cfg.layers
  -- Of these it can write to the socket's directory alone.
  pub writable : keep is_writable (keep is_bind spec.mounts) ≡ shared_socket cfg ∷ []
  -- Every place where it can write to a mount.
  pub places :
      map (λ m. m.destination) (keep is_writable spec.mounts)
      ≡ lit "/proc"
        ∷ lit "/dev"
        ∷ lit "/dev/pts"
        ∷ lit "/tmp"
        ∷ (shared_socket cfg).destination
        ∷ []
  pub rooted : (is_abs cfg.binary ≡ true) × (is_abs cfg.socket_dir ≡ true) × All IsRooted cfg.layers

layers-IsRooted : (i : ℕ) (ls : List Layer) → check_layers i ls ≡ none → All IsRooted ls
unfolding check_layers
layers-IsRooted i [] h = tt
layers-IsRooted i (l ∷ ls) h =
    let (host, a) =
      guard-none (l.host_path == [] || not (is_abs l.host_path)) (host_path_not_absolute i) _ h in
    let (mount, b) =
      guard-none (l.mount_path == [] || not (is_abs l.mount_path)) (mount_path_not_absolute i) _
        a in
    (
      (
        is_true_of_not (is_abs l.host_path)
            (or_false (l.host_path == []) (not (is_abs l.host_path)) host).1,
        is_true_of_not (is_abs l.mount_path)
            (or_false (l.mount_path == []) (not (is_abs l.mount_path)) mount).1,
      ),
      layers-IsRooted (suc i) ls b,
    )

bind_layers : (ls : List Layer) → keep is_bind (map layer_mount ls) ≡ map layer_mount ls
unfolding str_beq
bind_layers [] = refl
bind_layers (l ∷ ls) = ap (◌∷◌ (layer_mount l)) (bind_layers ls)

write_layers : (ls : List Layer) → keep is_writable (map layer_mount ls) ≡ []
unfolding str_beq
write_layers [] = refl
write_layers (l ∷ ls) = write_layers ls

bind_mounts : (ms : List Mount) → keep is_bind (default_mounts ++ ms) ≡ keep is_bind ms
unfolding default_mounts str_beq
bind_mounts ms = refl

bind_socket :
    (cfg : Config)
    → keep is_bind (socket_mount cfg ∷ map layer_mount cfg.layers)
      ≡ socket_mount cfg ∷ map layer_mount cfg.layers
unfolding str_beq
bind_socket cfg = ap (◌∷◌ (socket_mount cfg)) (bind_layers cfg.layers)

write_socket :
    (cfg : Config)
    → keep is_writable (socket_mount cfg ∷ map layer_mount cfg.layers) ≡ socket_mount cfg ∷ []
unfolding str_beq
write_socket cfg = ap (◌∷◌ (socket_mount cfg)) (write_layers cfg.layers)

place_mounts :
    (cfg : Config)
    → map
        (λ m. m.destination)
        (keep is_writable (default_mounts ++ (socket_mount cfg ∷ map layer_mount cfg.layers)))
      ≡ lit "/proc"
        ∷ lit "/dev"
        ∷ lit "/dev/pts"
        ∷ lit "/tmp"
        ∷ (shared_socket cfg).destination
        ∷ []
unfolding default_mounts str_beq
place_mounts cfg =
    ap
      (λ ms.
        lit "/proc"
        ∷ lit "/dev"
        ∷ lit "/dev/pts"
        ∷ lit "/tmp"
        ∷ (shared_socket cfg).destination
        ∷ map (λ (m : Mount). m.destination) ms)
      (write_layers cfg.layers)

assembled-ok :
    (version : Str) (cfg : Config) (spec : Spec) (o : Option ConfigError)
    → assembled version cfg o ≡ ok spec
    → (o ≡ none) × (assembled version cfg none ≡ ok spec)
assembled-ok version cfg spec none h = (refl, h)
assembled-ok version cfg spec (some e) h = ground arith

abbrev IsMade : Config → Result ConfigError Spec → Type 0
IsMade cfg (err e) = Unit
IsMade cfg (ok spec) =
    (spec.root_path ≡ cfg.rootfs_path)
    × (spec.root_readonly ≡ true)
    × (spec.process.no_new_privileges ≡ true)
    × (spec.mounts ≡ default_mounts ++ (socket_mount cfg ∷ map layer_mount cfg.layers))

-- The parts of a spec that Build has assembled.
assembled-IsMade :
    (version : Str) (cfg : Config) (spec : Spec)
    → assembled version cfg none ≡ ok spec
    → IsMade cfg (ok spec)
assembled-IsMade version cfg spec h = subst (IsMade cfg) h (refl, refl, refl, refl)

-- A spec that Build gives has the root file system of the configuration, read-only, and no new
-- privileges; of the host it mounts the directory of the socket at its place, writable, and the host
-- path of each layer at the layer's mount path, in order and read-only; the mounts that can be
-- written to are those of /proc, /dev, /dev/pts, /tmp and the socket; and the binary, the directory
-- of the socket and both paths of each layer are absolute.
pub build-IsSealed :
    (rspec_version : Str) (cfg : Config) (spec : Spec)
    → build rspec_version cfg ≡ ok spec
    → IsSealed cfg spec
unfolding build
build-IsSealed rspec_version cfg spec h =
    let (_, a) = guard-ok (cfg.rootfs_path == []) no_rootfs _ spec h in
    let (_, b) = guard-ok (cfg.binary == []) no_binary _ spec a in
    let (binary, c) = guard-ok (not (is_abs cfg.binary)) binary_not_absolute _ spec b in
    let (_, d) = guard-ok (cfg.socket_dir == []) no_socket_dir _ spec c in
    let (socket, e) = guard-ok (not (is_abs cfg.socket_dir)) socket_dir_not_absolute _ spec d in
    let (checked, f) = assembled-ok rspec_version cfg spec (check_layers 0 cfg.layers) e in
    let (path, readonly, privileges, mounts) = assembled-IsMade rspec_version cfg spec f in
    let binds =
      ap (keep is_bind) mounts
      ∙ bind_mounts (socket_mount cfg ∷ map layer_mount cfg.layers)
      ∙ bind_socket cfg in
    record {
      root = (path, readonly);
      unprivileged = privileges;
      binds = binds;
      places =
          ap (λ ms. map (λ (m : Mount). m.destination) (keep is_writable ms)) mounts
          ∙ place_mounts cfg;
      writable = ap (keep is_writable) binds ∙ write_socket cfg;
      rooted = (
        is_true_of_not (is_abs cfg.binary) binary,
        is_true_of_not (is_abs cfg.socket_dir) socket,
        layers-IsRooted 0 cfg.layers checked,
      );
    }
