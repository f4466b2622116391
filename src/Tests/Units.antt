-- ===== src/Tests/Units.antt =====
-- A unit read by the grammar.
use elusive.Base.{some, [], ◌∷◌, refl, codes, Bytes, ok}
use elusive.Base.Order
use elusive.Text
use elusive.FilePath
use elusive.FilePath.{FilePath, path_ord}
use elusive.Host.{Host}
use elusive.OrdMap
use elusive.Search
use elusive.Systemd
use elusive.Systemd.{UnitFile, UnitParser, parse_error, from_name}
use elusive.Systemd.Grammar
use elusive.Systemd.Contents.{Reads, from_name-Reads}
use elusive.Tests.Machine.{host}

abbrev text : Bytes
text =
    codes
      "# two sections of one name\n[Unit]\nRequires=a.slice b\n[Service]\nExecStart=-/bin/x y\n[Unit]\nRequires=c\n"

abbrev machine : Host
machine = record host { read = λ p. ok text }

abbrev parser : UnitParser
parser = Grammar.unit_parser (λ content. parse_error 0)

abbrev unit : UnitFile
unit = record {
  path = FilePath.parse (codes "/usr/lib/systemd/system/u.service");
  content = text;
  binaries = codes "/bin/x" ∷ [];
  dependencies = codes "b" ∷ [];
  install_path =
      some (FilePath.parse (codes "/usr/lib/systemd/system/initrd.target.wants/u.service"));
}

from_name-Reads_example : Reads machine parser (codes "u.service") unit
unfolding from_name Systemd.find_unit Systemd.unit_search_paths Systemd.unit_install_paths
    Systemd.collect Systemd.push_value Systemd.unit_of Systemd.exec_paths Systemd.cmd_exec_path
    Systemd.without_slices Search.paths Search.search_paths Search.find_existing Text.is_utf8
    Text.split Text.ends_with Text.trim_start_matches FilePath.parse FilePath.join
    FilePath.extension FilePath.file_name FilePath.split_extension FilePath.split_dot Order.list_ord
    OrdMap.get OrdMap.insert Grammar.unit Grammar.newlines Grammar.newline Grammar.more_newlines
    Grammar.entry Grammar.entries Grammar.skip Grammar.comments Grammar.comment Grammar.spaces
    Grammar.item Grammar.section_rule Grammar.property_rule Grammar.token Grammar.key Grammar.value
    Grammar.letters Grammar.line
from_name-Reads_example = from_name-Reads machine parser (codes "u.service") unit refl
