-- ===== src/Systemd.antt =====
-- crates/elusive/src/systemd.rs: a unit file, its dependencies and the binaries that it starts.
-- The parser that pest makes of systemd.pest is a parameter: it yields the sections and properties.
pub mod Grammar
pub mod Properties
pub mod Contents
use elusive.Base.{
  ℕ, not, Option, none, some, List, [], ◌∷◌, ◌++◌, Bytes, codes, if◌then◌else◌, map, Result, ok,
  err, panic, and_then, map_ok, map_err, ok_or, expect,
}
use elusive.Base.Order.{same, nat_ord, list_ord}
use elusive.FilePath.{FilePath, parse, join, extension}
use elusive.Host.{Host, IoError}
use elusive.OrdMap.{OrdMap, get, insert}
use elusive.Search.{find_existing, search_paths, paths}
use elusive.Text.{split, ends_with, trim_start_matches, is_utf8}

-- `UNIT_SEARCH_PATHS`
unfoldable pub unit_search_paths : List FilePath
unfolding paths
unit_search_paths = paths (
    "/usr/lib/systemd/system/" ∷ "/etc/systemd/system/" ∷ "/etc/systemd/system.control/"
    ∷ "/etc/systemd/system.attached/" ∷ [])

-- `UNIT_INSTALL_PATHS`
unfoldable pub unit_install_paths : List FilePath
unfolding paths
unit_install_paths = paths (
    "/usr/lib/systemd/system/initrd.target.wants/"
    ∷ "/usr/lib/systemd/system/initrd-root-device.target.wants/"
    ∷ "/usr/lib/systemd/system/initrd-root-fs.target.wants/"
    ∷ "/usr/lib/systemd/system/sysinit.target.wants/" ∷ [])

-- `SOCKET_INSTALL_PATHS`
unfoldable pub socket_install_paths : List FilePath
unfolding paths
socket_install_paths = paths ("/usr/lib/systemd/system/sockets.target.wants/" ∷ [])

-- `pest::error::Error`
pub data ParseError : Type 0 where
  parse_error : ℕ → ParseError

-- The pairs inside a parsed `unit`.
pub data Pair : Type 0 where
  section : Bytes → Pair
  property : Bytes → Bytes → Pair
  eoi : Pair

-- `UnitParser::parse(Rule::unit, data)`
abbrev pub UnitParser : Type 0
UnitParser = Bytes → Result ParseError (List Pair)

pub data UnitError : Type 0 where
  input_output : IoError → UnitError
  parse_failed : ParseError → UnitError
  unit_not_found : Bytes → UnitError

pub record UnitFile : Type 0 where
  pub path : FilePath
  pub content : Bytes
  pub binaries : List Bytes
  pub dependencies : List Bytes
  pub install_path : Option FilePath

-- `BTreeMap<&str, Vec<&str>>`, and the sections that hold such.
abbrev pub Section : Type 0
Section = OrdMap Bytes (List Bytes)

abbrev pub Properties : Type 0
Properties = OrdMap Bytes Section

-- `entry(key).or_default()`
abbrev pub or_default {ℓ} : {A : Type ℓ} → Option (List A) → List A
or_default none = []
or_default (some xs) = xs

-- `properties.entry(section).or_default().entry(name).or_default().push(value)`
unfoldable pub push_value : Bytes → Bytes → Bytes → Properties → Properties
push_value current name value properties =
    let section = or_default (get current properties) in
    let list = or_default (get name section) in
    insert current (insert name (list ++ (value ∷ [])) section) properties

-- `for pair in unit.into_inner()`, with the current section.
unfoldable pub collect : List Pair → Bytes → Properties → Properties
unfolding push_value
collect [] current properties = properties
collect (section name ∷ pairs) current properties = collect pairs name properties
collect (property name value ∷ pairs) current properties =
    collect pairs current (push_value current name value properties)
collect (eoi ∷ pairs) current properties = collect pairs current properties

-- `split(' ').next()`
abbrev pub first_part : List Bytes → Result UnitError Bytes
first_part [] = panic
first_part (s ∷ ss) = ok s

-- `['@', '!', ':', '+', '-']`
abbrev pub exec_prefixes : Bytes
exec_prefixes = codes "@!:+-"

unfoldable pub cmd_exec_path : Bytes → Result UnitError Bytes
unfolding split trim_start_matches
cmd_exec_path command = map_ok (trim_start_matches exec_prefixes) (first_part (split b' ' command))

unfoldable pub exec_paths : List Bytes → Result UnitError (List Bytes)
unfolding cmd_exec_path
exec_paths [] = ok []
exec_paths (command ∷ commands) =
    and_then (cmd_exec_path command) λ path. map_ok (λ paths. path ∷ paths) (exec_paths commands)

-- The binaries of the section `Service`.
abbrev pub service_binaries : Option Section → Result UnitError (List Bytes)
service_binaries none = ok []
service_binaries (some service) =
    and_then (expect (get (codes "ExecStart") service)) λ commands. exec_paths commands

-- `filter(|dep| !dep.ends_with(".slice"))`
unfoldable pub without_slices : List Bytes → List Bytes
unfolding ends_with
without_slices [] = []
without_slices (dep ∷ deps) =
    if not (ends_with (codes ".slice") dep) then dep ∷ without_slices deps else without_slices deps

-- `required[0]`
abbrev pub first_value : List Bytes → Result UnitError Bytes
first_value [] = panic
first_value (value ∷ values) = ok value

-- The dependencies of the section `Unit`, from the first `Requires`.
abbrev pub required_units : Option (List Bytes) → Result UnitError (List Bytes)
required_units none = ok []
required_units (some required) =
    map_ok (λ value. without_slices (split b' ' value)) (first_value required)

-- `match path.extension().and_then(OsStr::to_str)`
abbrev pub static_paths : Option Bytes → List FilePath
static_paths none = []
static_paths (some ext) =
    if same ext (codes "path")
    then unit_install_paths
    else if same ext (codes "service")
    then unit_install_paths
    else if same ext (codes "target")
    then unit_install_paths
    else if same ext (codes "socket")
    then socket_install_paths
    else []

unfoldable pub find_unit : Host → Bytes → Result UnitError FilePath
unfolding search_paths unit_search_paths
find_unit h name = ok_or (search_paths h (parse name) unit_search_paths) (unit_not_found name)

-- `fs::read_to_string`, which refuses what is not UTF-8.
abbrev pub read_to_string : Host → FilePath → Result UnitError Bytes
read_to_string h path =
    and_then (map_err input_output (h.read path))
      λ bytes. if is_utf8 bytes then ok bytes else err (input_output IoError.invalid_data)

-- The second half of `from_name`.
unfoldable pub unit_of : Host → Bytes → FilePath → Bytes → Properties → Result UnitError UnitFile
unfolding exec_paths without_slices split find_existing extension unit_install_paths
    socket_install_paths
unit_of h name path content properties =
    and_then (service_binaries (get (codes "Service") properties)) λ binaries.
      and_then (expect (get (codes "Unit") properties)) λ section.
        and_then (required_units (get (codes "Requires") section)) λ dependencies. ok (record {
          path = path;
          content = content;
          binaries = binaries;
          dependencies = dependencies;
          install_path =
              find_existing h (map (λ dir. join dir (parse name)) (static_paths (extension path)));
        })

unfoldable pub from_name : Host → UnitParser → Bytes → Result UnitError UnitFile
unfolding find_unit is_utf8 collect unit_of
from_name h parser name = and_then (find_unit h name) λ path.
    and_then (read_to_string h path) λ content.
      and_then (map_err parse_failed (parser content))
        λ pairs. unit_of h name path content (collect pairs [] [])
