-- ===== src/Lib.antt =====
-- The keymaster and KeyMint containers and messages, and the image tools, of device_xiaomi_dash_twrp.
--
-- The repository is a recovery tree for one phone. Its C and C++ code is the set of headers under
-- prebuilt/a15-aidl/include with which the recovery talks to the keymaster; this library models the
-- program logic that these headers hold: those under include/keymaster/keymaster (file names below
-- are relative to prebuilt/a15-aidl/include/keymaster/keymaster) and those of KeyMint under
-- include/keymint-support/keymint_support. Of the Python tools it models tools/repack_vendor_boot.py,
-- which puts the image of the recovery together, and tools/patch_recovery_adbd_props.py, which sets two
-- properties in its archive of files.
--
-- A client and the keymaster exchange messages. Each message class writes its members one after
-- the other into a buffer and reads them back (android_keymaster_messages.h), with the functions of
-- serializable.h; members are integers, collections, blobs (android_keymaster_utils.h), tokens and
-- sets of parameters. An AuthProxy shows two such sets as one, an AuthorizationSetBuilder fills one.
--
-- Parts and files:
-- - Prelude, Memory: the shared names; memory as a function from addresses to bytes, where `Put` is
--   a Serialize (buffer and end to the new pointer) and `Get` a Deserialize, whose failure also
--   gives the pointer and the object it leaves. Memory/Format states what it is for the two to
--   agree (Format) and to stay in the buffer (Confined), and composes both along `&&`.
-- - Serializable: serializable.h. append_uint32_to_buf and the others keep their names. What the
--   header only declares (the bounds check, append_to_buf, copy_from_buf,
--   copy_size_and_data_from_buf) is the record External of Serializable/Interface with the laws
--   its comments state; Serializable/Reference is an instance. That an exact fit passes the bounds
--   check goes against the comment of the check, and is a hypothesis of its own, AcceptsExactFit. Serializable/Contract is the
--   contract of the class Serializable, which every message fills.
-- - Messages: one module per message class of android_keymaster_messages.h, with `serialized_size`,
--   `serialize` and `deserialize` for SerializedSize, Serialize and Deserialize, or for their
--   NonError variants in a response; MessageVersion and km_version.h are Messages/Version.
-- - Blob, CertificateChain, NetworkOrder: TKeymasterBlob, CertificateChain, ntoh and hton of
--   android_keymaster_utils.h. Tokens: the move constructors of the tokens.
-- - AuthProxy, Builder: AuthProxy, AuthProxyIterator and AuthorizationSetBuilder of
--   authorization_set.h. Tags: keymaster_tags.h.
-- - LinkedList: List.h, nodes in a heap. Ring says what heap a list of values is. Calls has what a
--   client asks of a list, as calls on the heap (`serve`) and on the list of values alone
--   (`serve_values`), which is the specification of the container. Assign has operator= and the copy
--   constructor, and Copy is about the latter.
-- - KeyMint: keymint_tags.h (Tags, with the numbers of Tag.h and TagType.h; Parameters for
--   makeKeyParameter, Authorization and authorizationValue) and what authorization_set.h of
--   keymint_support has inline (Sets: AuthorizationSet and AuthorizationSetBuilder; `build` is a
--   sequence of the builder's calls). Utils is keymaster-ng/KeyMintUtils.h.
-- - VendorBoot: tools/repack_vendor_boot.py on the bytes of the files. `rd` is rd, `repack` is main from
--   `f0 = ...` to the write of the output, with the archive that pk gave as its argument; `put` is an
--   assignment to a slice. Slices and Written hold the lemmas on slices and on writes in
--   ascending order, Build says what `build` writes where, and Read and DeviceTree what rd and the search
--   find there.
-- - AdbdProps: tools/patch_recovery_adbd_props.py on the bytes of the archive. Newc has parse_newc, whose
--   body up to `entry = ...` is `entry_at`, and Patch has patch_properties; what the code raises is a
--   Reason. int(field, 16) and the decoding of UTF-8 are parameters. Lines, Hits and Place are about
--   the lines of a text, Changes and Archive about the bytes that change, Described says what it is
--   for an entry to stand in the archive, Entries, Settled, Parse, Standing and Laid are about
--   parse_newc, where `Archive` of Standing describes an archive without its steps, and Found,
--   Patched, Only and Whole about patch_properties.
-- - Cose: CoseKey and ErrMsgOr of cppcose/cppcose.h, which other headers use for the keys of remote
--   provisioning. cppbor is the record Cbor.
--   Parse has the parse functions, Keys says what a key of each kind holds, Given, Accepts and
--   Complete are about the parse functions, and Encoded about numbers and public keys.
-- - Operations: the state of Key (key.h) and Operation (operation.h), and the constructors and
--   factories of km_openssl/rsa_operation.h.
-- - ErrorOr: KmErrorOr of keymaster_utils.h. Arrays: mem.h. Enforcement: the state of
--   keymaster_enforcement.h.
--
-- Bounds and fuel: a size_t has 64 bits (pointer_mod is 2^64) and sums of sizes wrap there; uint32_t
-- and uint64_t values are below 2^32 and 2^64 where a theorem needs it. Subtraction of pointers is
-- written only where it does not go below 0. The loops of LinkedList (clear, size, erase of a range,
-- the loop of operator=) and the walk over an AuthProxy run on fuel. A loop takes one round per
-- element and one more to see that it is at the end, so that much fuel is given. The search of
-- VendorBoot for the device tree has as many steps as the range that the code searches, and the loops of
-- VendorBoot and KeyMint run over a count or a list that they get. parse_newc of AdbdProps has one round
-- more than the archive has bytes, since a round without a negative size leads behind a header.
--
-- Not modelled: the class Buffer of serializable.h; methods that the headers declare and prebuilt libraries hold (AuthorizationSet,
-- AuthorizeOperation, the contexts, what keys and operations do, everything over OpenSSL),
-- headers generated from AIDL, and the scripts, the other tools and the configuration of the
-- repository; of repack_vendor_boot.py the tree of files, lz4 and cpio, which other programs handle; of
-- patch_recovery_adbd_props.py lz4, the digests and the report. In parse_newc an offset before the start
-- of the archive, to which a negative size can lead, ends the model (`before_start`), where the code goes
-- on with indices from the end of the archive. Of cppcose/cppcose.h the functions
-- over OpenSSL are declared only. Allocation is an argument: what `new (std::nothrow)` gave. Destruction
-- of an object and the C++ type system (const, private) are not represented.
pub mod Prelude
pub mod Memory
pub mod Serializable
pub mod Blob
pub mod Messages
pub mod NetworkOrder
pub mod AuthProxy
pub mod CertificateChain
pub mod LinkedList
pub mod Tags
pub mod Builder
pub mod ErrorOr
pub mod Tokens
pub mod Arrays
pub mod Enforcement
pub mod Operations
pub mod KeyMint
pub mod VendorBoot
pub mod AdbdProps
pub mod Cose
