-- ===== src/Lib.antt =====
-- A model of dkeyczar, a Go library for encryption and signatures with stored, versioned key sets,
-- and the theorems that make it correct.
--
-- The program. A key reader hands out metadata and keys as JSON. From it keyczar.go loads a key set
-- (keyCzar), which finds its primary key and, for the identifier in the header of an input, the
-- keys with that identifier. Crypters and signers over a key set put together a header, what a key
-- makes of the data, and an encoding. The key kinds (hmac_key.go, aes_key.go, rsa_key.go,
-- dsa_key.go) store and identify themselves, and encrypt or sign through Go's cryptography. The
-- key manager (keyman.go) makes key sets and moves their versions between the statuses.
--
-- Where the parts are:
--   Prelude      results of fallible calls (`ok`, `err`, `panic` for a run-time panic), byte
--                strings, Go's integers, maps; the errors of errors.go
--   Util         util.go: web-safe base64 (Web64), packing (Packing), padding (Padding), big
--                integers (BigInt); encoding/binary's fixed-width integers (BigEndian)
--   KeyInfo      keyinfo.go: types, statuses, purposes and modes with their sizes and texts
--   Crypto       Go's cryptography and compression, a parameter with its documented laws
--   Json         the stored structs and encoding/json, a parameter with its laws
--   Header       header.go: makeHeader, splitHeader, splitHeaderBytes, decodeHeader
--   Keys         keydata.go, and a child for each of hmac_key.go, aes_key.go, rsa_key.go, dsa_key.go
--   KeySet       keyczar.go, keyCzar: newKeyCzar, loadPrimaryKey, getPrimaryKey, getKeyForID
--   Controllers  controllers.go: encode, decode, compress, decompress
--   Signer       keyczar.go, keySigner and its constructors
--   Crypter      keyczar.go, keyCrypter, keySignedEncypter, keySignedDecrypter and constructors, and
--                EncryptWriter of keyCryptStreamer (Streaming)
--   Readers      readers.go: the readers of one imported key, and of keys that a crypter decrypts; keys
--                under a password (Pbe), from files and certificates (Files)
--   Session      session.go: sessions and signed sessions; keydata.go: their material
--   Streams      the writers and readers of streams.go, hmac_key.go and aes_key.go: Signing and
--                Verifying (hmac_key.go), Ciphering and Deciphering (streams.go, EncryptWriter);
--                encodeWriter and compressWriter of controllers.go (Stages)
--   KeyManager   keyman.go: Create, AddKey, Promote, Demote, PubKeys, ToJSONs
--   Command      keyczart/dkeyczart.go: key sets in directories (Save, Update, loadReader, loadCrypter,
--                loadLocationReader), the commands (Main) and usekey (Using)
--   Examples     a small crypto library and text form that satisfy the laws, and runs
--
-- A function is named after the Go function, in snake case: splitHeader is `split_header`. A method
-- takes its receiver as an argument and returns it where it changes. A function that draws from
-- rand.Reader takes what it draws. Numbers are naturals; widths are written out (`% 2 ^ 32`); an
-- int is an integer. Strings and byte slices are lists of numbers, and the theorems ask for bytes
-- (`IsByte`) where it matters. A Go map is an association list with one entry for a key; the one
-- loop that ranges over a map, in UnversionedVerify, goes in the list's order.
--
-- A stream is a state and a function on it: a Write or a Read of a sink or a source of any kind, with
-- what the theorems ask of it as a hypothesis (`IsSink`, `Advances`, `IsSource`, `Supplies`). A hash
-- and a cipher mode are the bytes that they have been fed. io.CopyN is a parameter, and so are Go's
-- stream encoders and compressors (`Encoders`, with laws: what one leaves in its sink at Close is an
-- encoding of what it was given), and files, PEM and X.509 (`Files`). The disk that the command
-- changes is a state of any type (`Disk`); a part of the command is a function on it with an
-- outcome: done, stopped with a message, or crashed by a run-time panic.
--
-- Fuel: `int_bytes` of BigInt divides by 256 with the number itself as fuel, which is never fewer
-- than its bytes; ToJSONs looks for the versions 1, 2, … in one more step than there are keys, and
-- each step but the last finds a key of its own. A loop around a Write has the length of its bytes
-- as fuel, the loop of the verifying reader as many rounds as it wants bytes and one more; both
-- answer `looping` when these do not do, which a sink or a source that makes progress excludes. The
-- loop of the decrypting reader has one round, after which its buffer is full or its stream ended.
-- All other functions are structural.
--
-- Not modelled: decodeReader and decompressReader of controllers.go, DecryptReader of keyczar.go, of
-- aes_key.go and of a PBE crypter, the framed streams of session.go, the parsing of the command
-- line, the generator of test data (compat), and what concurrent callers would see. KeyID remembers
-- its result in the key: `hmac_remember_id` is that effect for an HMAC key; elsewhere keys are the
-- ones a reader has just made, which remember nothing.
pub mod Prelude
pub mod Util
pub mod KeyInfo
pub mod Crypto
pub mod Json
pub mod Header
pub mod Keys
pub mod KeySet
pub mod Controllers
pub mod Signer
pub mod KeyManager
pub mod Command
pub mod Crypter
pub mod Readers
pub mod Session
pub mod Streams
mod Examples
