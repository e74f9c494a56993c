-- ===== src/Lib.antt =====
-- libe4, the client library of E4 in C: two variants of a protocol that protects messages between
-- devices and takes commands from a server.
--
-- The parts. A client (src/e4symclient.c with symmetric keys, src/e4pkcclient.c with signatures)
-- protects a message for a topic and unprotects what it receives, and carries out the commands that
-- arrive on the control topic of the device. It asks a storage for keys and lets it change them
-- (include/e4/storage.h; src/e4c_store_mem.c and src/e4c_pk_store_mem.c in memory,
-- src/e4c_store_file.c and src/e4c_pk_store_file.c in a file). Both use AES-SIV (src/crypto/aes_siv.c) over a block cipher
-- (src/crypto/aes256enc_ref.c), topics are named by SHA3-256 (src/crypto/sha3.c) over the Keccak
-- permutation (src/crypto/keccakf1600.c), and src/e4util.c derives the names of control topics and topic hashes.
--
-- Which file is which.
--   Protocol.antt           include/e4/proto.h, include/e4/error.h: sizes and result codes
--   Crypto/Cipher.antt      include/e4/crypto/aes256enc.h: the block cipher, a parameter
--   Crypto/Siv.antt         src/crypto/aes_siv.c, every function
--   Crypto/Sha3.antt        src/crypto/sha3.c, every function, over the permutation as a parameter
--   Crypto/Aes.antt         src/crypto/aes256enc_ref.c, every function and table; Crypto/Aes/Instance
--                           fills the parameter with it
--   Crypto/Keccak.antt      src/crypto/keccakf1600.c, every function; `permuted` fills the parameter
--   Crypto/Xed25519.antt    src/crypto/xed25519.c: the conversion of private keys, over SHA-512 as a
--                           parameter
--   Util.antt               src/e4util.c and src/strlcpy.c
--   Table.antt              the loops over the arrays of keys that all stores have
--   Symkey/Storage.antt     the storage functions that src/e4symclient.c calls, with laws
--   Symkey/Client.antt      src/e4symclient.c: e4c_symkey_protect_message and the commands
--   Symkey/Unprotect.antt   src/e4symclient.c: e4c_symkey_unprotect_message
--   Symkey/Session.antt     a client of src/e4symclient.c that receives messages one after another
--   Symkey/MemStore.antt    src/e4c_store_mem.c
--   Disk.antt               what src/e4c_store_file.c and src/e4c_pk_store_file.c write and read alike
--   Symkey/FileStore.antt   src/e4c_store_file.c
--   Pubkey/Curves.antt      include/e4/crypto/ed25519.h, curve25519.h, xed25519.h: a parameter
--   Pubkey/Storage.antt     the storage functions that src/e4pkcclient.c calls
--   Pubkey/Client.antt      src/e4pkcclient.c: e4c_pubkey_protect_message and the commands
--   Pubkey/Unprotect.antt   src/e4pkcclient.c: e4c_pubkey_unprotect_message
--   Pubkey/MemStore.antt    src/e4c_pk_store_mem.c
--   Pubkey/FileStore.antt   src/e4c_pk_store_file.c; its storage operations in FileStore/Operations
--   Common.antt             lists, tests, xor and or of bytes, C strings, memcmp
--   Fixtures.antt           inputs of the tests, which are in the Tests modules
-- A module under one of these states what holds of its definitions.
--
-- How code is modelled. A C function is a function of its arguments and of the storage, and returns
-- its result code with what it writes. A pointer that is compared with NULL is an Option; a buffer is
-- the list of its bytes; an int is ℤ of Common/Int.antt and a size is a natural number whose sums
-- wrap as size_t does where the code relies on it. A result `none` is undefined behaviour: a read of a
-- key that was never written, a read past the end of a message or of the buffer for its
-- plaintext, a write past the buffer for a packet or a plaintext, or an int that overflows. The clients
-- are those of a system with a clock (not __AVR__), and `now` is time(NULL). Loops over arrays are
-- structural recursion, so no fuel is needed; the loops that move slots up take the number of rounds
-- that the code's bound leaves.
--
-- Files. A file is the list of its bytes. A storage in a file is carried with its file and with the
-- number of syncs so far (`Filed` of Disk.antt); whether a sync opens its file and how many bytes it
-- writes before it fails are arbitrary functions of that number.
--
-- Parameters. The block cipher is one that keeps the length of a block, and the Keccak permutation is
-- any function (where lengths matter, one that keeps the length of the state); AES-256 and
-- Keccak-f[1600] are instances. AES-256 is compared with the cipher and the key schedule of FIPS 197
-- (Crypto/Aes/Reference), whose S-box is computed in the field of 256 elements, Keccak-f[1600] with
-- the step mappings of FIPS 202 (Crypto/Keccak/Reference), and both with test vectors. A signature
-- has 64 bytes, and where a receiver is to accept one, signatures under the sender's keys verify.
-- Nothing is assumed that makes the cipher or the hash secure: a message is called authentic if it is
-- the encryption under the key of the plaintext that it decrypts to.
--
-- What is not modelled: SHA-512 and the curves (src/crypto/sha512.c, src/crypto/ed25519,
-- src/crypto/curve25519), which are parameters here; the conversion of public keys in
-- src/crypto/xed25519.c, which no client calls; the assembly for AVR; the functions that print a storage for debugging; and the
-- tests.
pub mod Common
pub mod Protocol
pub mod Crypto
pub mod Util
pub mod Table
pub mod Disk
pub mod Symkey
pub mod Fixtures
pub mod Pubkey
