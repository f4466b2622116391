-- ===== src/Config.antt =====
-- crates/elusive/src/config.rs: the configuration, and the visitors that read its short forms.
-- serde and the YAML parser are parameters: a visitor is given a text or the entries of a map.
use elusive.Base.{Option, List, [], ◌∷◌, Bytes, codes, if◌then◌else◌, Result, err, ok, map_ok}
use elusive.Base.Order.{same, nat_ord, list_ord}
use elusive.FilePath.{FilePath, parse}

pub record Microcode : Type 0 where
  pub amd_ucode : Option FilePath
  pub intel_ucode : Option FilePath

pub record Settings : Type 0 where
  pub kernel_module_path : Option FilePath

pub record Initramfs : Type 0 where
  pub init : FilePath
  pub shutdown : Option FilePath
  pub settings : Settings
  pub modules : List Bytes

pub record Binary : Type 0 where
  pub path : FilePath

pub record File : Type 0 where
  pub sources : List FilePath
  pub destination : FilePath

pub record Symlink : Type 0 where
  pub path : FilePath
  pub target : Bytes

pub data KernelModule : Type 0 where
  name : Bytes → KernelModule
  path : FilePath → KernelModule

pub record UnitName : Type 0 where
  pub name : Bytes

pub record Module : Type 0 where
  pub name : Bytes
  pub binaries : List Binary
  pub files : List File
  pub symlinks : List Symlink
  pub kernel_modules : List KernelModule
  pub units : List UnitName

-- A deserializer's error: `Error::custom`, or the deserializer's own.
pub data ConfigError : Type 0 where
  custom : Bytes → ConfigError
  yaml : Bytes → ConfigError

-- What `deserialize_any` hands to the visitor: a text, a map by its keys with the values that
-- `next_value` would answer, or what the visitor has no method for.
pub data Node : Type 0 where
  str : Bytes → Node
  entries : List (Bytes × Result ConfigError Bytes) → Node
  other : Node

invalid_type : ConfigError
invalid_type = yaml (codes "invalid type")

-- `Deserialize for Binary`
unfoldable pub deserialize_binary : Node → Result ConfigError Binary
unfolding list_ord parse invalid_type
deserialize_binary (str v) = ok (record { path = parse v })
deserialize_binary (entries []) = err (custom (codes "missing key 'path'"))
deserialize_binary (entries ((key, value) ∷ _)) =
    if same key (codes "path")
    then map_ok (λ v. record { path = parse v }) value
    else err (custom (codes "missing key 'path'"))
deserialize_binary other = err invalid_type

-- `Deserialize for KernelModule`
unfoldable pub deserialize_kernel_module : Node → Result ConfigError KernelModule
unfolding list_ord parse invalid_type
deserialize_kernel_module (str v) = ok (name v)
deserialize_kernel_module (entries []) = err (custom (codes "missing one of 'name' or 'path'"))
deserialize_kernel_module (entries ((key, value) ∷ _)) =
    if same key (codes "name")
    then map_ok name value
    else if same key (codes "path")
    then map_ok (λ v. path (parse v)) value
    else err (custom (codes "missing one of 'name' or 'path'"))
deserialize_kernel_module other = err invalid_type

-- `Deserialize for Unit`
unfoldable pub deserialize_unit : Node → Result ConfigError UnitName
unfolding list_ord invalid_type
deserialize_unit (str v) = ok (record { name = v })
deserialize_unit (entries []) = err (custom (codes "missing key 'name'"))
deserialize_unit (entries ((key, value) ∷ _)) =
    if same key (codes "name")
    then map_ok (λ v. record { name = v }) value
    else err (custom (codes "missing key 'name'"))
deserialize_unit other = err invalid_type
