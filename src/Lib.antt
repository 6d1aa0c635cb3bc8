-- ===== src/Lib.antt =====
-- amisync: a Syncthing-compatible file synchronisation daemon for AmigaOS, in C.
--
-- The program. src/main.c and src/daemon.c start a scanner process, one worker process for each
-- peer connection and a listener. A worker (src/worker.c) talks the Block Exchange Protocol over
-- TLS: src/bep.c frames and decodes its messages over the protobuf codec of src/pbuf.c. Each file
-- record of a peer's Index is first checked (src/pathsafe.c: its name must stay below the folder's
-- root), then classified against our own record of the name (src/syncmodel.c: ignore, fetch,
-- delete, adopt, or keep a conflict copy), and queued if its bytes are wanted. Several workers
-- share the index of a folder (src/foldstate.c), and claim a file there before they download it.
-- What a worker stores or deletes, and what the scanner finds changed, gets a new version vector
-- (sync_bump_version) and is announced to the peers in turn.
--
-- The files:
--   Common             shared names, and lists, byte strings, signed numbers, arrays and bits.
--   Bep                include/bep.h: BepCounter, BepVector, BepBlockInfo, BepFileInfo.
--   SyncModel          src/syncmodel.c and include/syncmodel.h.
--     Meta             SyncMeta, meta_from_fi, sync_content_same, sync_make_tombstone,
--                      sync_short_id_from_raw.
--     Version          sync_bump_version, vec_counter, sync_version_has, sync_version_compare;
--                      Order is on the comparison and Bump on the bump.
--     Classify         resolve_conflict and sync_classify_incoming; Safety is on one device and
--                      Agreement on two.
--     Conflict         civil_from_unix, sync_make_conflict_name; Gregorian and Calendar are on the
--                      date, Extension and Contained on the name.
--     Want             sync_init, sync_want_push_again, sync_want_push, sync_want_has,
--                      sync_want_peek, sync_want_pop; Stack is the list of entries that Push and
--                      Pop refine.
--   Pbuf               src/pbuf.c: the reader; Writer has the writer; Encoding, RoundTrip, Fields,
--                      Safety, Took and Skip are on what is written and what is read.
--   PathSafe           src/pathsafe.c: path_name_safe and text_field_safe.
--     Local            utf8_seq, utf8_class, utf8_valid, name_to_local, name_from_local. Encoder,
--                      Sequence and Utf8 are on one sequence; Copied, Joined and Split give the two
--                      mappings without their bounds; RoundTrip and Contained are on the mappings.
--   FoldState          src/foldstate.c and include/foldstate.h, the index of a folder.
--     Claims           foldstate_claim, foldstate_unclaim.
--     Record           FolderRec, rec_from_meta, meta_from_rec, set_version, get_version.
--     Table            FolderState, hash_link, hash_rebuild, find_slot; Chain is on the hash, Kept and
--                      Appended on what a write and a new slot keep.
--     Upsert           foldstate_upsert with ensure_cap; Grown, Holds and Stores are on it.
--     Forget           foldstate_forget, foldstate_forget_unseen, foldstate_prune_tombstones; Removal
--                      is on a swap-remove, Filtered on the loops, ByName on all three.
--     Access           foldstate_init, foldstate_free, foldstate_reset, the reads, the marks of a scan
--                      and the counters; Scan is on a whole scan, Blocks on foldstate_blocks.
--   DeviceId           src/device_id.c: base32, the check characters, the parsing of an id. Base32 and
--                      Encoded are on the two loops, Canon on device_id_normalize, RoundTrip on
--                      printing and reading back, Luhn on a changed character.
--   Messages           src/bep.c: what its codecs share, a loop over fields and a run of writes; Loop,
--                      Steps and Keeps are on the loop, Emits and Runs on the writes, Values on the
--                      numbers and strings in a message.
--     Hello            the Hello and the header of a message; RoundTrip is on them.
--     Transfer         Request and Response; RoundTrip and Bounded are on the first, Answered on the
--                      second.
--     FileInfo         FileInfo with its version vector and its blocks; Reading is the decoder. Vector,
--                      Block, Info and Stages are on the parts, RoundTrip on the whole.
--     Frames           read_full, write_full, grow_buf; Message has bep_send_message and
--                      bep_read_message. Transport is on the two loops, Layout, Sent and Taken on one
--                      frame, Delivered on both ends.
--   Ignore             src/ignore.c: reading a .stignore text and deciding on a name; First and Parsed
--                      are on the two. Include has the loader of included files of
--                      src/folder.c (folder_include, folder_load_ignores); Loaded is on it.
--     Glob             glob_rec; Items says what a pattern means, Classes and Decides that the matcher
--                      decides it, Fuel that its loop ends.
--   Offered            src/offered.c: the offers of folders; Table is on one offered_note, Session
--                      on a whole ClusterConfig, from offered_begin to offered_end.
--   Wreg               src/wreg.c: the registry of worker tasks; Registered is on it as a set,
--                      Signalled on the signals.
-- A function of the model has the name of the C function; the body of a loop, or a branch with a
-- loop of its own, is a function beside it.
--
-- How the code is represented. A uint64 is a natural number and its sums are taken modulo 2 ^ 64; a
-- uint32 likewise; an int64 is an integer, which the codecs convert to and from its 64 bits. A
-- buffer is the list of its bytes, a NUL-terminated string the list of its bytes without the NUL,
-- and a NULL pointer is `none`. The text of a .stignore file and of those it includes has no NUL. An
-- array with a count (the counters of a vector) is a list; the two arrays of the want queue, which
-- are written at computed places, are functions of the index. A reader and a writer are records with
-- the position and, as in the C, an error flag that stays set. Functions that write through a
-- pointer return the new value. Code under a semaphore, or under Forbid, is one step.
--
-- Loops are recursion on the list that they run over, on the ten bytes that a varint may have, on
-- the slots that are left, or, in the writer of varints, on the order of the number that is shifted.
-- Three loops of src/foldstate.c have fuel: the walk along a hash chain and the removal loop take as
-- many rounds as there are slots in use, and the doubling of the capacity as many as the slots
-- needed; the theorems on them hold with that fuel, so it is enough. The loop of glob_rec has as
-- much fuel as its pattern has bytes, and one more, and the loop of a message decoder as much as its
-- buffer has, and one more: each turn uses up a byte. What these two give when the fuel is out is an
-- argument of theirs, of which their results are shown to be independent. read_full and write_full
-- have as much fuel as bytes are missing, and the growth of a buffer as much as the size needed. An
-- allocation may fail: Allocs says which ones succeed in src/foldstate.c, and `alloc` in src/bep.c
-- for each size.
--
-- Signal of AmigaOS is a parameter of wreg_signal, the loader of included files one of ignore_parse,
-- and dos.library one of the loader that src/folder.c gives it. The transport of a connection,
-- BEP_ALLOC and the two LZ4 functions are parameters of the framing.
--
-- Not modelled: AmigaOS itself, the sockets, the TLS library, the windows and the ARexx port, which
-- are input and output; src/lz4.c, a copy of another project's library; of src/device_id.c the
-- reading of certificates; of src/syncmodel.c the search for a folder in the configuration; of
-- src/foldstate.c the table of wanted contents; of src/bep.c the ClusterConfig, the bodies of an
-- Index with their batches and their iterator, the frame of the Hello, the sentence in last_err, and
-- the contents of the buffers between two calls; and the other files of src/. A decoder that fails
-- gives no message back, as its callers do not read one then.

pub mod Common
pub mod Bep
pub mod SyncModel
pub mod Pbuf
pub mod Messages
pub mod PathSafe
pub mod FoldState
pub mod Offered
pub mod Wreg
pub mod DeviceId
pub mod Ignore
