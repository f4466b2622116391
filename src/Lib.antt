-- ===== src/Lib.antt =====
-- elusive: a builder of initramfs images and microcode bundles. This library models the crate
-- crates/elusive, from the arguments of the program to the bytes that it writes.
--
-- The program and how its parts interact. The builder (initramfs.rs) reads a configuration
-- (config.rs) and collects files, binaries with the libraries that they need (elf.rs), kernel
-- modules with their dependencies (kmod.rs) and systemd units (systemd.rs) in a virtual filesystem
-- (vfs.rs). The filesystem becomes an archive, which the serializer writes in the newc format of
-- cpio (newc.rs). The program (cli.rs) puts these together: it reads the configuration, selects
-- modules, and writes the archive, through an encoder (encoder.rs) and behind a microcode bundle
-- (microcode.rs), to an output (io.rs).
--
-- Files and what they model, with the names of the source in snake case:
--   Vfs, Entry, Device: crates/elusive/src/vfs.rs. `Vfs` holds the BTreeMap as a list of pairs in
--     the order of the keys (OrdMap); a method on `&mut self` is a function from the state to a
--     result and a state (Exec in Base/Outcome), so what was written before an error stays.
--   Newc, Hex: newc.rs and the format `{:08x}` that it uses. Newc/Reader is an independent reader
--     of the format, the specification of the writer.
--   Search: search.rs. Elf: elf.rs. Kmod: kmod.rs; Kmod/Handles counts the lists that libkmod
--     allocates. Systemd: systemd.rs, from the parsed sections on. Systemd/Grammar: systemd.pest,
--     with a printer of plain units as its specification.
--   Config: the structures and the visitors of config.rs.
--   Initramfs: initramfs.rs. `build` is `Initramfs::from_config` from nothing. Initramfs/Requests
--     says what a configuration asks for; Contents and Extent compare the image with it, on the
--     calculi of Achieves and StaysWithin; Closure follows the libraries of the programs, on the
--     calculus of Preserves; Copies says what an entry that is copied from a file holds.
--   Microcode: microcode.rs, the bundle of microcode blobs, which goes in front of an image.
--   Encoder: encoder.rs. Encoder/Stream is its `encode`, call by call, on an output that may take a
--     part or fail, and the part of cli.rs around it, behind std's BufWriter (Io/Buffer).
--   Io: io.rs, on a state (Drive) of what the program has written, with an output that may take a
--     part or fail. Cli: cli.rs, `run` is `elusive`.
--   FilePath, Text, OrdMap, Base: what the program uses of std's paths, texts and maps. A path is
--     the list of its components, which is how std compares paths.
--   Tests: runs of the theorems on concrete inputs.
--
-- Parameters. The machine's file system (Host), the object crate (ObjectLib in Elf), libkmod
-- (KmodLib in Kmod), the parser that pest generates (UnitParser in Systemd), `to_string_lossy` and
-- the two decoders are records of functions, gathered in `Env` of Initramfs; `System` of Cli adds
-- the rest of the machine (Machine in Io), the compressors and serde_yaml. What a theorem relies on
-- is a hypothesis: that walkdir yields a directory before its contents (IsWalk in Initramfs/Files),
-- that a directory cannot be read as a binary (LeafFiles in Initramfs/Libraries), that calls return
-- (Answers in Initramfs/Ends), that an output takes at least one byte of every call (Takes in
-- Io/Buffer/Delivery), and that a compressor which is fed and finished leaves a whole stream
-- (Compresses in Encoder/Stream/Refinement).
--
-- Bounds. The inode number and the serializer's count wrap around at 2 ^ 64, as the fields of the
-- struct do in a release build. The recursions through binaries, modules and units take fuel, and
-- `diverge` is the result of a recursion that is deeper. The recursion through binaries needs at
-- most one unit of fuel more than there are binaries and libraries to put; that through modules one
-- more than the longest chain of dependencies, and that through units as many as both together and
-- one more, where these have no cycle (Initramfs/Terminates). Cycles among modules or units have no
-- bound in the program. `write_all` takes one unit of fuel per byte (Io/Buffer). Reading an archive
-- takes one unit of fuel per member, and one for the trailer. A repetition of the grammar takes the
-- length of the text as fuel, since every round takes off a character at least.
--
-- Not modelled: what std keeps of a path beside its components, so a name in the archive stands
-- without repeated and trailing separators and inner dots; the buffer that std has in front of
-- standard output; serde and the derived instances of the configuration, which are generated code;
-- clap, which reads the arguments; main.rs; logging; `Drop` of contexts and modules of libkmod; the
-- bindings in crates/kmod-sys.
pub mod Base
pub mod OrdMap
pub mod Text
pub mod FilePath
pub mod Host
pub mod Device
pub mod Entry
pub mod Vfs
pub mod Hex
pub mod Newc
pub mod Search
pub mod Elf
pub mod Kmod
pub mod Systemd
pub mod Config
pub mod Initramfs
pub mod Microcode
pub mod Encoder
pub mod Io
pub mod Cli
pub mod Tests
