-- ===== src/Lib.antt =====
-- apk-tools, the package manager of Alpine Linux: its text formats, its versions and its
-- dependencies.
--
-- The program reads every name, version, number and checksum as a blob, a pointer with a length
-- (src/blob.c), cut at characters of given classes (src/ctype.c). Versions (src/version.c) are
-- split into tokens and compared token by token. Dependencies and packages (src/package.c) hold
-- versions with an operator; the solver and the database ask them whether a package meets a
-- dependency and which of two packages keeps a file.
--
-- - Prelude: Boolean tests, lists of bytes, tables checked by computation, comparison results.
-- - Ctype: src/ctype.c. The tables apk_ctype1 and apk_ctype2, the test behind `get_array`
--   (`in_class`), apk_blob_spn and apk_blob_cspn. Ctype/Classes reads the tables as ranges.
-- - Errors: the error codes of src/apk_defines.h and errno, and results with them.
-- - Blob: src/blob.c, one module for the comparisons and one each for numbers (Number), hexadecimal
--   (Hex), base64 (Base64), digests (Digest, with src/crypto.c and src/apk_crypto.h), searching and
--   tokens (Search), apk_blob_subst (Subst) and the murmur3 hash (Hash).
-- - Version: src/version.c. token_first and token_next are the functions of the same names, Loop
--   has the loops of apk_version_validate and apk_version_compare_fuzzy, and Ops the operators.
-- - Package: src/package.c. Parse has apk_dep_parse and apk_blob_push_dep, Array apk_deps_add and
--   apk_deps_del, Pull apk_blob_pull_dep and apk_blob_pull_deps, Satisfies the functions from
--   apk_dep_match_checksum to apk_dep_analyze, Replaces apk_pkg_replaces_dir and
--   apk_pkg_replaces_file, Info apk_pkgtmpl_add_info and, with Write, apk_pkg_write_index_entry: the
--   lines of an index.
-- - Solver: src/solver.c, its comparison of two providers (compare_providers). Hash: src/hash.c,
--   insertion, lookup and deletion. PathBuilder: src/pathbuilder.c and its header.
-- - Database: src/database.c, its table of repository tags (Tags), and the owners and modes in
--   the lines of the installed database (Acl: apk_blob_push_db_acl, and its entries in
--   apk_db_fdb_read). Atom: src/atom.c, the pool of interned blobs, which is a hash table of Hash
--   with the hash and the comparison of Blob.
-- - Repo: src/repoparser.c. Variables has the table of variables, again a hash table, and the lines
--   `set`; Parse has apk_repoparser_parse, which uses Subst, Search and PathBuilder. The callback
--   `repository` and the C library's isalpha are its parameters.
-- - Tar: src/tar.c, the number fields of headers (get_octal and put_octal) and the padding.
-- - Adb: src/adb.c, src/adb.h. Words has little-endian numbers and ADB_VAL, Block the blocks and
--   their enumeration, Verify the digest of a block, identities and signatures (with
--   src/apk_trust.h and src/crypto_openssl.c), Parse __adb_m_parse, File the reading and writing of
--   whole files in memory, Value and Write the values and the cache of adb_w_data, Object objects
--   and arrays. The functions of the cryptographic library are the record Crypto, a parameter.
-- - Tests: runs at small inputs.
--
-- A blob that is read is NULL or a list of bytes, numbers below 256. A blob that is written to is a
-- buffer with the room that is left, or the overflow that a NULL pointer marks. An argument that a
-- function changes through a pointer is an argument and a component of the result. A read behind
-- the end of a text has the result `none`, with two exceptions: of an empty tag apk_db_get_tag_id
-- reads the character behind it, which is taken to be no '@', and a checksum of a dependency whose
-- text ends early is taken not to match any package. The struct that apk_dep_match_checksum reads
-- the checksum into, which is not initialised, is taken to have the same bytes at each call. Names
-- are interned by the database, so equality of their pointers is equality of their texts; the same
-- holds of the origins of packages. In Atom a pointer is the number of the allocation. Memory does
-- not run out.
--
-- The loops over the tokens of a version run on fuel, the length of the text and two more: each
-- token but the first and the last takes at least one character. The loop of apk_blob_push_uint
-- runs on the 64 bytes of its own buffer. The loops over tokens, over the variables of a format,
-- over the dependencies of a list and over the options of `set` run on fuel above the length of the
-- text, of which each round takes at least one character. The loop over the blocks of an ADB file
-- runs on fuel above the length of the file: a block whose size does not wrap takes at least 8
-- bytes. All other loops are structural.
--
-- Numbers in uint64_t wrap (`% 2 ^ 64`) where a version's or a blob's digits are read. Lengths are
-- unbounded: a blob's length is a `long`, and no text of that size exists. apk_blob_sort cuts the
-- difference of two lengths to an `int`, and so does compare_providers with the numbers of
-- conflicts (`int_sign`); versions are compared with blob_order, which is apk_blob_sort for tokens
-- shorter than 2^31. In apk_blob_subst the pointer that a limit makes wraps at 2^64; a limit that
-- wraps to an address in front of the buffer, where the code would write outside it, is modelled as
-- one that cuts nothing. An assertion that fails (adb_w_blob_vec) has the result `none`. The hook
-- `pre_commit` of a schema is a parameter of __adb_w_obj.
--
-- Not modelled: input and output, the commands, the rest of the database and of the solver, ADB
-- files that are streams, the schemas of ADB, and what libraries compute (digests, compression,
-- signatures).
mod Prelude
pub mod Errors
pub mod Ctype
pub mod Blob
pub mod Version
pub mod Database
pub mod Package
pub mod Solver
pub mod Hash
pub mod Adb
pub mod Atom
pub mod PathBuilder
pub mod Repo
pub mod Tar
mod Tests
