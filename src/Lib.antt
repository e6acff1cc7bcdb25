-- ===== src/Lib.antt =====
-- This library is about the path that a disc's bytes take in GDOX, from a source of sectors to the
-- client of the private NBD server that reads them as a block device.
--
-- Parts, and how they interact:
--
--   Common: numbers, Boolean tests, lists, machine words (`u64` is `% 2 ^ 64`) and images. An image
--     is the content of a medium, a function from byte offsets to bytes; `slice` is what a read of it
--     returns.
--   Fault (include/gdox/error.h, src/core/error.c): the codes of errors. A function that returns a
--     Boolean and fills an error slot returns an `Outcome`.
--   Source (include/gdox/source.h, src/core/source.c): a handle of a context and a table of
--     functions. `Source` has the types, `validate_read` and `removable_session_classify`;
--     `Source/Dispatch` the functions that check the handle and call through the table, `gdox_source_read`
--     as `read_buffer` and `source_read`, and so on; `Source/Partition` the partition source with
--     `gdox_source_make_partition`; `Source/Patch` the patched source, and `Source/Patch/Make`
--     `gdox_source_make_patched`. `Source/Image` says what it means that handles serve an image; the
--     modules named Serve are about the image that each adapter serves, `Source/Closing` is about
--     closing a handle again and again.
--   Disc (include/gdox/disc.h, src/core/disc.c): the disc that is read at byte offsets. `Disc/Dispatch`
--     has its dispatch, `Disc/Direct` the direct disc over a source with `gdox_disc_from_source`, and
--     `Disc/Image` what it means that discs serve the bytes of an image.
--   Nbd/Wire (src/platform/nbd_wire.h, src/platform/nbd_wire.c): the messages, with `parse_request` for
--     `gdox_nbd_wire_parse_request`, and so on.
--   Nbd/Telemetry (src/platform/nbd_telemetry.c): the counters of reads; `Nbd/Telemetry/Totals` says
--     what they stand for.
--   Nbd/Session (src/platform/nbd_protocol.c): the session of one client as a state that is passed on.
--     `Nbd/Session/Negotiate` has `negotiate` and `gdox_nbd_protocol_handle`, `Nbd/Session/Transmit` has
--     `transmit` and what it calls. It reads and writes through `Nbd/Socket`, reads the disc through
--     `Disc/Dispatch`, and counts with `Nbd/Telemetry`.
--   Nbd/Socket (src/platform/nbd_socket.c): the connection as the session sees it, the bytes that come
--     in and the room for those that go out. `Nbd/Socket/Receive` and `Nbd/Socket/Send` have the
--     loops over `recv` and `send`, which are parameters, and the modules named Refine are about
--     them and that view.
--   Nbd/Export: what a session does for a client when the disc serves an image.
--   Security (include/gdox/security.h, src/core/security.c): the security sector of an Xbox disc, with
--     `gdox_psn_to_lba` and `gdox_security_ranges_validate` in `Security`, and
--     `gdox_security_sector_inspect` in `Security/Inspect`. Its ranges and its checksum meet those of
--     `Preservation` and `Hash`; otherwise it stands apart from the sources.
--   Scsi (src/platform/scsi_transport.h and .c): the handle on a device that takes SCSI commands.
--   Mmc (src/platform/mmc_commands.h and .c): the commands of an optical drive over it, with
--     `parse_media_event`, `decode_sense` and the `note` functions of the tracker; `Mmc/Media` has
--     `gdox_mmc_observe_media` and what else feeds the tracker, `Mmc/Blocks` the commands that read a disc.
--     `Mmc/Signals` and `Mmc/Noticed` are about the sequence of what a tracker hears, `Mmc/Told`,
--     `Mmc/Answers`, `Mmc/Polls`, `Mmc/Failures` and `Mmc/Observes` about the answers that move it, `Mmc/Drive`
--     about a drive that reads a command block.
--   Xdvdfs (include/gdox/xdvdfs.h, src/core/xdvdfs.c): the types of the file system of a game
--     partition; `Xdvdfs/Volume` has the search for its volume, with `find_volume` for
--     `gdox_xdvdfs_find_volume`, over a source.
--   Xbe (src/core/xbe_patch_source.c): `gdox_xbe_patch_complete_file`, the transform of an executable in
--     memory. `Xbe/Cache` (src/core/default_xbe_cache_source.c) is the source that keeps the
--     default executable patched in memory, and `Xbe/Cache/Make` its constructor.
--   Hash (include/gdox/hash.h, src/core/hash.c): the CRC-32, the hash stream and `gdox_hash_buffer`;
--     `Hash/Files` has `gdox_hash_file`, `Hash/Hex` has `gdox_hash_hex`. The digests and the
--     file access are the ports of core/ports, and parameters.
--   Preservation (include/gdox/preserve.h, src/core/preservation_catalog.c): hexadecimal read back, and
--     in `Preservation/Catalog` the built-in catalog. Nbd/Token (src/platform/nbd_token.c): the
--     secret of an export, written with the digits of `Hash/Hex`.
--   Background (src/app/background_lifecycle.c): whether the window is shown, hidden or the program
--     stopping; `Background/CommandLine` has the tests for a hidden start. Monitor
--     (src/app/optical_monitor.c): when a drive that is observed is tried. DiscUri
--     (src/core/disc_uri.c): the address of a disc that emulators accept. SessionStorage
--     (src/platform/session_storage_policy.c): safe paths, owner markers and recovery.
--   Tests: a medium in memory, from the source to the client, at which the theorems are used.
--
-- A handle is returned as a call leaves it, with its context changed; a context stands for all that is
-- reachable from it, the device included, so that two reads of one source may differ. A NULL pointer is
-- `none`. Memory comes from functions of the size asked for, or from Booleans that say whether an
-- allocation succeeds; the clock is a function of the number of its calls; the mutex of the server is a
-- Boolean that says whether it can be locked.
--
-- Fuel: the binary search has as much fuel as there are patches, which each round lowers; the loops of
-- the session have one more than the number of bytes that the client sends, and each round takes a
-- message of at least one byte off them; the loops over `recv` and `send` have one more than the bytes
-- and the interruptions that are to come. A loop over blocks, over a file or over a text has as much
-- fuel as there are blocks or bytes, and each of its rounds takes at least one. The baseline of a session
-- on a drive has its 16 rounds. The answers of the
-- random source are a list, and `none` is the result of a call that still waits.
--
-- Not modelled: the set-up of sockets in src/platform/nbd_socket.c; the threads of
-- src/platform/nbd_tcp.c but for `gdox_nbd_export_record_runtime_error`; message texts, the report of
-- slow reads, calls from several threads at once; of src/core/xdvdfs.c the directories and of
-- src/core/xbe_patch_source.c the source that patches as it reads; the random sources of other
-- systems than Linux; the sources over the drives and their recovery, the other image formats, emulators, user interface and packaging.
-- `isspace` is that of the C locale.
pub mod Common
pub mod Fault
pub mod Source
pub mod Disc
pub mod DiscUri
pub mod Hash
pub mod Mmc
pub mod Monitor
pub mod Nbd
pub mod Background
pub mod Preservation
pub mod Scsi
pub mod Security
pub mod SessionStorage
pub mod Xbe
pub mod Xdvdfs
pub mod Tests
