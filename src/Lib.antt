-- ===== src/Lib.antt =====
-- TinyRange builds and runs small virtual machines from package lists. This library models the parts
-- of it that decide what is installed and what goes over the wire, and proves them correct.
--
-- Package models package names, queries, tags and installers (pkg/common/package.go and tags.go;
-- the directives are those of pkg/common/directive.go that a Dockerfile can hold, any other is
-- `other`). Package.Defs has PackageName.Matches as `name_matches`, Package.Matches as
-- `package_matches`, ParsePackageQuery as `parse_package_query` and PackageName.Key as `key`.
--
-- Collection models PackageCollection of pkg/database/collection.go: addPackage is `add_package`,
-- Query is `query_packages`. Go maps are association lists; where Go leaves the order of a map open, the
-- order here is that of insertion, and the order of packages that sort as equal is open too in Go
-- (slices.SortFunc) and that of insertion here. `collection_source` gives the planner what it needs of a
-- collection; whether an installer exists (InstallerFor, a starlark callback) is a parameter.
--
-- InstallationPlan of pkg/database/plan.go is modelled in Plan over a `PackageSource`, that is, the query and
-- the installers of a collection with a list of the names that its packages have: add is `add`,
-- addInternal is `add_internal`, with `select_option` for what follows the check of the name, and
-- Add is `add_query`. Plan.Build models ContainerBuilder.Plan of pkg/database/builder.go, with
-- `plan_packages` for the part before the starlark callback, which is a parameter, and EmitDockerfile.
-- Recursion through dependencies is on fuel. One more than the number of known names is enough, since
-- every call that goes deeper installs a name that was not installed before. Plan.Spec says what a
-- tree asks for, independently of the planner.
--
-- Wire models binaryReader and binaryWriter of pkg/common/binary/binary.go over bytes as numbers. The
-- io.Writer behind a writer is a `Sink`: what it took, and its room. An integer of n bytes is one
-- definition for all widths. The Struct methods use reflection; here a value is the list of its fields,
-- unsigned integers with their widths.
--
-- Sftp models pkg/sftp/packet.go over Wire: Decode of each packet type, rawPacket.decode, Encode of
-- each packet type, writePacket and readRawPacket. Sftp.Layout says, independently of the code, how
-- the protocol lays packets out. A Go string is its bytes there. The panic of an index out of range is
-- a value. A connection is what was sent, or what is still to be read.
--
-- Files models memoryFile of pkg/filesystem/file.go in Files.Memory, and memoryDirectory and
-- GetTotalSize of pkg/filesystem/directory.go in Files.Directory and Files.Size. Objects are positions
-- in a store, so that directories can share them; a nil file is `none`. The recursion of GetTotalSize
-- is on fuel, for which the length of the store is enough where every entry stands behind its
-- directory in the store. OpenPath and
-- resolveDirectory are `open_path` and `resolve_directory` of Files.Paths, on fuel for symbolic links,
-- for which no bound is enough where links lead back to themselves; the conversion of the bytes of a
-- link to a string is a parameter.
--
-- Server models the SFTP server, SSHFSServer of pkg/sftp/sshfs.go, over Files and Sftp: its state is a
-- store of objects, the root, and two tables of handles. PktOpen is `pkt_open`, and so on; PktLstat is
-- PktStat and PktRmdir is PktRemove, as in the source. handlePacket of pkg/sftp/filesystem.go is
-- `handle_packet`, and ServeSftp is `serve_sftp`, on fuel for the number of packets, for which one more
-- than the packets sent is enough. A handler takes fresh handles and the time from outside, and ends in an
-- answer, an error, a panic, or a chain of symbolic links that is longer than the fuel.
--
-- Record models pkg/record/record2.go. RecordWriter2 is `RecordWriter`, with writeTo as `write_to` into a
-- buffer whose length is a parameter (four megabytes in the source), and Emit as `emit`; a starlark value is
-- what writeTo asks of it. Record.Layout says, independently of the code, how the format lays values out.
-- A record of the reader is `Loaded`, with ReadAt, toStarlarkValue, the iterator of a list and readValues as
-- `read_at`, `to_value`, `next` and `read_values`, the last on fuel for the number of records. compare and
-- recordDict.Get are `compare` and `get` of Record.Dict.
-- Record.ReadBack is a client that takes values out, on fuel that the value gives.
--
-- Cpio models pkg/cpio/cpio.go: Cpio.Tree the files and directories of an archive, with the map of a
-- directory as a list in the order in which it is written, AddSimpleFile and openPath; Cpio.Extract
-- AddFromEntry; Cpio.Writer the cpioWriter, Write and WriteTo, over the same `Sink` as Wire. Cpio.Format
-- says, independently of the code, what the archive of a tree is. Sizes are far below what a `uint64` holds.
--
-- Not modelled: the starlark glue, printing of trees, creating files by a path, other archives and the
-- images of file systems, builds, the virtual machine and its network, and the command line. In
-- Package, Collection and Plan, strings are texts, and versions are texts that are only compared.
mod Prelude
pub mod Package
pub mod Collection
pub mod Plan
pub mod Files
pub mod Wire
pub mod Sftp
pub mod Server
pub mod Record
pub mod Cpio
