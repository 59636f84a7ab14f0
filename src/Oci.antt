-- ===== src/Oci.antt =====
-- internal/oci/spec.go: the runtime spec of a function's container. `rspec_version` is the version
-- that package specs-go names.
pub mod Sealed
mod Examples
use cfunc.Base.{
  ℕ, Bool, true, false, not, ◌&&◌, ◌||◌, List, [], ◌∷◌, ◌++◌, Option, none, some, map, Str, lit,
  ◌==◌, if◌then◌else◌, Result, ok, err, is_abs, join, suc, str_eq,
}

pub record Layer : Type 0 where
  pub name : Str
  pub host_path : Str
  pub mount_path : Str

pub record Config : Type 0 where
  pub rootfs_path : Str
  pub binary : Str
  pub args : List Str
  pub env : List Str
  pub socket_dir : Str
  pub socket_dir_in_container : Str
  pub socket_name : Str
  pub layers : List Layer
  pub hostname : Str

pub record Mount : Type 0 where
  pub destination : Str
  pub type : Str
  pub source : Str
  pub options : List Str

-- The three sets of capabilities that Build fills are the same list.
pub record Process : Type 0 where
  pub terminal : Bool
  pub uid : ℕ
  pub gid : ℕ
  pub args : List Str
  pub env : List Str
  pub cwd : Str
  pub bounding : List Str
  pub effective : List Str
  pub permitted : List Str
  pub no_new_privileges : Bool

pub data Namespace : Type 0 where
  pid_namespace ipc_namespace uts_namespace mount_namespace network_namespace : Namespace

pub record Spec : Type 0 where
  pub version : Str
  pub process : Process
  pub root_path : Str
  pub root_readonly : Bool
  pub hostname : Str
  pub mounts : List Mount
  pub namespaces : List Namespace
  pub masked_paths : List Str
  pub readonly_paths : List Str

pub data ConfigError : Type 0 where
  no_rootfs no_binary binary_not_absolute no_socket_dir socket_dir_not_absolute : ConfigError
  host_path_not_absolute mount_path_not_absolute : ℕ → ConfigError

unfoldable pub default_caps : List Str
default_caps =
    lit "CAP_AUDIT_WRITE"
    ∷ lit "CAP_CHOWN"
    ∷ lit "CAP_DAC_OVERRIDE"
    ∷ lit "CAP_FOWNER"
    ∷ lit "CAP_FSETID"
    ∷ lit "CAP_KILL"
    ∷ lit "CAP_MKNOD"
    ∷ lit "CAP_NET_BIND_SERVICE"
    ∷ lit "CAP_NET_RAW"
    ∷ lit "CAP_SETFCAP"
    ∷ lit "CAP_SETGID"
    ∷ lit "CAP_SETPCAP"
    ∷ lit "CAP_SETUID"
    ∷ lit "CAP_SYS_CHROOT"
    ∷ []

abbrev pub mount_of : Str → Str → Str → List Str → Mount
mount_of destination type source options = record {
  destination = destination;
  type = type;
  source = source;
  options = options;
}

unfoldable pub default_mounts : List Mount
default_mounts =
    mount_of (lit "/proc") (lit "proc") (lit "proc")
      (lit "nosuid" ∷ lit "noexec" ∷ lit "nodev" ∷ [])
    ∷ mount_of (lit "/dev") (lit "tmpfs") (lit "tmpfs")
        (lit "nosuid" ∷ lit "strictatime" ∷ lit "mode=755" ∷ lit "size=65536k" ∷ [])
    ∷ mount_of (lit "/dev/pts") (lit "devpts") (lit "devpts") (
        lit "nosuid"
        ∷ lit "noexec"
        ∷ lit "newinstance"
        ∷ lit "ptmxmode=0666"
        ∷ lit "mode=0620"
        ∷ [])
    ∷ mount_of (lit "/sys") (lit "sysfs") (lit "sysfs")
        (lit "nosuid" ∷ lit "noexec" ∷ lit "nodev" ∷ lit "ro" ∷ [])
    ∷ mount_of (lit "/tmp") (lit "tmpfs") (lit "tmpfs")
        (lit "nosuid" ∷ lit "nodev" ∷ lit "mode=1777" ∷ lit "size=65536k" ∷ [])
    ∷ []

abbrev pub or_else : Str → Str → Str
or_else s default = if s == [] then default else s

abbrev pub socket_mount : Config → Mount
socket_mount cfg =
    mount_of (or_else cfg.socket_dir_in_container (lit "/run/cfunc")) (lit "bind") cfg.socket_dir
      (lit "rbind" ∷ lit "rw" ∷ [])

abbrev pub layer_mount : Layer → Mount
layer_mount l = mount_of l.mount_path (lit "bind") l.host_path (lit "rbind" ∷ lit "ro" ∷ [])

-- The loop that checks the layers, from the index `i` on.
unfoldable pub check_layers : ℕ → List Layer → Option ConfigError
check_layers i [] = none
check_layers i (l ∷ ls) =
    let rest = check_layers (suc i) ls in
    if l.host_path == [] || not (is_abs l.host_path)
    then some (host_path_not_absolute i)
    else if l.mount_path == [] || not (is_abs l.mount_path)
    then some (mount_path_not_absolute i)
    else rest

module _ (rspec_version : Str) where
  -- What Build assembles once its checks are passed.
  abbrev pub spec_of : Config → Spec
  spec_of cfg = record {
    version = rspec_version;
    process = record {
      terminal = false;
      uid = 0;
      gid = 0;
      args = cfg.binary ∷ cfg.args;
      env =
          cfg.env
          ++ (lit "CFUNC_SOCKET="
              ++ join (or_else cfg.socket_dir_in_container (lit "/run/cfunc"))
                  (or_else cfg.socket_name (lit "s.sock")))
            ∷ [];
      cwd = lit "/";
      bounding = default_caps;
      effective = default_caps;
      permitted = default_caps;
      no_new_privileges = true;
    };
    root_path = cfg.rootfs_path;
    root_readonly = true;
    hostname = or_else cfg.hostname (lit "cfunc");
    mounts = default_mounts ++ (socket_mount cfg ∷ map layer_mount cfg.layers);
    namespaces =
        pid_namespace ∷ ipc_namespace ∷ uts_namespace ∷ mount_namespace ∷ network_namespace ∷ [];
    masked_paths =
        lit "/proc/kcore"
        ∷ lit "/proc/keys"
        ∷ lit "/proc/latency_stats"
        ∷ lit "/proc/timer_list"
        ∷ lit "/proc/timer_stats"
        ∷ lit "/proc/sched_debug"
        ∷ lit "/sys/firmware"
        ∷ [];
    readonly_paths =
        lit "/proc/asound"
        ∷ lit "/proc/bus"
        ∷ lit "/proc/fs"
        ∷ lit "/proc/irq"
        ∷ lit "/proc/sys"
        ∷ lit "/proc/sysrq-trigger"
        ∷ [];
  }

  abbrev pub assembled : Config → Option ConfigError → Result ConfigError Spec
  assembled cfg (some e) = err e
  assembled cfg none = ok (spec_of cfg)

  unfoldable pub build : Config → Result ConfigError Spec
  unfolding check_layers
  build cfg =
      if cfg.rootfs_path == []
      then err no_rootfs
      else if cfg.binary == []
      then err no_binary
      else if not (is_abs cfg.binary)
      then err binary_not_absolute
      else if cfg.socket_dir == []
      then err no_socket_dir
      else if not (is_abs cfg.socket_dir)
      then err socket_dir_not_absolute
      else assembled cfg (check_layers 0 cfg.layers)
