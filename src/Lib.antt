-- ===== src/Lib.antt =====
-- tine-storage: its journals, batches, file sets, digests and index.
--
-- A verification library of the storage kernel's journals, durable batches, SQLite file sets and
-- content-addressed formats, translated from the Rust sources under src/.
--
-- Parts and files:
-- ContentDigest models src/content_digest.rs: a digest is its 32 bytes, SHA-256 is the record Sha256
-- (`digest` with the length and range of its answers), write_hex and parse_digest are the source's.
-- Postcard stands for the postcard crate with a type's serde derivation: two functions and the one
-- law that from_bytes reads what to_allocvec writes.
-- DigestSealed models src/digest_sealed.rs, the envelope with its canonical codec and digest check.
-- LocalJournal models src/local_journal.rs. Errors has LocalJournalError; Frame has
-- LocalJournalFrame, FrameExtent::parse (parse_extent), encode_frame and decode (decode_frame);
-- Reader has read_frame_at and scan_segment; Segment has open_from_sequence, append and replay of
-- LocalJournalSegment. Below Segment, Journal says what the bytes of a list of frames are, Live what
-- an open segment is, and Scan, Answers, Crash and Open hold the proofs.
-- LocalJournalV2 models src/local_journal_v2.rs. Frontier has SegmentHeaderV2 and FrontierV2 with
-- their codecs and `successor`; Segment has read_complete_frame and scan_v2_prefix; Writes the calls
-- of an append (write_segment_for_append, publish_frontier_durable, verify_regular_exact) on Files;
-- Journal has prepare, open_selected, append and replay of LocalJournalSegmentV2 and the constructor of
-- its selection; Legacy has inspect_v1. A Disk is the segment file and the frontier file; a Setting is
-- the rest of the directory and the calls that the operating system refuses during one append. Reads,
-- Answers and Suffix, and Planning, Writing, Outcome and Reopen below Journal, hold the proofs.
-- Patricia models part of src/authenticated_patricia.rs: Bits the bits of keys, Node the nodes and
-- their validation, Store the reads and lookup, Store.Walks the staged insertion and the removal.
-- DurableBatch models src/durable_batch.rs. Its parent has the types that the product fixes (Ids and
-- Policy, the two halves of DurableBatchContract), ObjectDescriptor and BatchError; Manifest has
-- OperationBatch with validate and new_with_causality; Encoding its encode and decode (encode_batch,
-- decode_batch); Selection has required_objects_for_document_kind; Object has OperationObject
-- (new_object, encode_object, decode_object, descriptor_of). Canonical, Codec, Building,
-- Object.RoundTrip and Object.Decoded hold the proofs. serde_json is the records ManifestJson and HeaderJson. Order has
-- derived orders, sort_unstable, dedup, windows(2) and binary_search; Envelope cuts up the byte layout
-- of an object.
-- SqliteFileset models src/sqlite_fileset.rs: its parent has SqliteFileSet, publish_checkpoint_with,
-- remove, publish_candidate (with its post_rename callback) and prepare_candidate; Checkpoint the
-- sampled ranges; Sampling the physical checkpoint; Forensics preserve_forensic_files and
-- resume_forensic_files. Replacement, Publication, Keeping, Candidate, Sampled and the children of
-- Forensics hold the proofs. Files is std::fs and std::path as that code uses them: a map of paths to
-- entries, calls that may be refused at any point, and, in Files.Hoare, the rules about all runs of a
-- program on it.
-- Samples and the modules called Examples run the theorems at concrete inputs. Base holds lists,
-- words, tests and results over the native numbers.
--
-- State and errors: a file is the list of its bytes, an operation takes the state and what the
-- operating system answers, and returns the new state with a Result (ok, err, and stuck where fuel
-- runs out). A failing write leaves any number of its bytes; a rename happens or does not. A
-- cause that the source formats into a String is kept as the data it is made of. usize is 64 bits wide; u64 and usize additions are
-- checked against 2 ^ 64 where the source checks them.
--
-- Fuel: each scan and replay loop is given one round more than the file has bytes, since each round
-- but the last consumes a frame of at least 52 bytes. The walks of the Patricia index recurse on the
-- budget of nodes that the source itself counts down.
--
-- Not modelled: the advisory locks and the creation of files (the opens take their outcome as an
-- argument), the Windows publication, the failures of prepare, the packed node store behind its
-- answers, the bulk construction, the prefix search, and the modules that drive SQLite or the
-- operating system. Of durable batches, the Display texts of errors are left out. The files of a
-- SQLite file set are touched by no one else while an operation runs; a crash is a call that is
-- refused, since no operation undoes what it did but for removing its own temporary. A replay reads
-- at the offsets it seeks to; that it moves the cursor it shares with the segment's handle is left out.
-- What a power loss undoes of writes that no barrier has followed is left out as well. The temporary
-- that a failed publication of a frontier leaves is not part of the Disk.
pub mod Base
pub mod ContentDigest
pub mod Postcard
pub mod LocalJournal
pub mod LocalJournalV2
pub mod Patricia
pub mod DigestSealed
pub mod Order
pub mod DurableBatch
pub mod Envelope
pub mod Files
pub mod SqliteFileset
pub mod Samples
