-- ===== src/Lib.antt =====
-- utls, a fork of Go's crypto/tls that builds ClientHello messages byte for byte: how the extensions
-- of a ClientHello are written, how the message is laid out and padded, how a session is found and put
-- into it, and how a captured ClientHello is read back into a description of one.
--
-- The parts, and the files of the repository they come from:
--   Extension     u_tls_extensions.go and trust_anchors.go: the extension types (`Extension`), with
--                 hostnameInSNI of handshake_client.go (Extension/HostName), the padding policies
--                 (Extension/Padding), and Len and Read of each type (Extension/Read). Extension/Wire
--                 is what they are compared with: the vectors of RFC 8446 as lists of bytes, and
--                 Extension/Exact the same without cutting a length to its field. A Read is
--                 a function from the buffer to the count, the error and the buffer afterwards.
--                 Extension/Write has Write of each type and ExtensionFromID.
--   ClientHello   u_conn.go: MarshalClientHelloNoECH on the fields of the hello and the extension list.
--                 ClientHello/Buffered is the bufio.Writer it writes to, with Write and ReadFrom;
--                 ClientHello/Exact the message whose length fields are the lengths.
--   Session       u_session_controller.go, the session extensions of u_session_ticket.go and
--                 u_pre_shared_key.go, and uLoadSession of u_conn.go. A connection is a record with the
--                 fields of the controller, the part of the handshake state that the controller
--                 writes, and two stores of extension objects: the controller and the extension list
--                 hold addresses, since they share objects. Session/Controller has a function for each
--                 method, Session/Controller/Steps the sequences of their calls, and Session/Psk Len
--                 and Read of the three extensions that carry a session.
--   Spec          u_common.go: ClientHelloSpec with FromRaw, ReadTLSExtensions, ReadCipherSuites and
--                 AlwaysAddPadding; Spec/Others has Write of the fake pre-shared key extension
--                 (u_pre_shared_key.go) and of GREASE ECH (u_ech.go). A parser is a function from the
--                 bytes and the spec to the spec, or to an error with the spec as it is then.
--   SessionCache  common.go: lruSessionCache, with NewLRUClientSessionCache, Put and Get. The map and the
--                 list hold the addresses of the elements; SessionCache/Steps has the sequences of calls.
--   Messages      handshake_messages.go: marshal and unmarshal of the handshake messages that stand by
--                 themselves, in Messages those written with a cryptobyte.Builder, in Messages/Plain
--                 those whose bytes are stored by hand, and in Messages/Certificate the certificate of
--                 TLS 1.3.
--   Cryptobyte    golang.org/x/crypto/cryptobyte, as a record of the reads of its String, and one of
--                 the calls of its Builder, with what they are documented to do; Cryptobyte/Loops is
--                 the loop `for !s.Empty()` of its clients.
--   HalfConn      conn.go: halfConn, one direction of the record layer. HalfConn has the state, the changes
--                 of keys and incSeq, HalfConn/Encrypt and HalfConn/Decrypt the two operations on records,
--                 and HalfConn/Padding extractPadding. HalfConn/Peers says what the ciphers promise and
--                 when the writing half of one end and the reading half of the other are in step,
--                 HalfConn/RoundTrip that records then arrive.
--   Conn          conn.go: how a connection without QUIC cuts what it writes into records, with
--                 maxPayloadSizeForWrite, write, flush, writeRecordLocked and sendAlertLocked.
--   NonceAead     cipher_suites.go: prefixNonceAEAD and xorNonceAEAD, through which the record layer calls
--                 an AEAD.
--   Grease        u_common.go and u_tls_extensions.go: the GREASE values and the test for them.
--   Base          lists, Boolean tests, stores into byte slices, and the result of a call that may
--                 panic (`Run`). Tests has runs on concrete inputs.
--
-- FromRaw reads what MarshalClientHelloNoECH of ClientHello writes; for each extension it calls
-- ExtensionFromID and then the Write of the type, both of Extension.
--
-- The extension list is read by ClientHello, which calls Len, Update and Read of every extension; the
-- session controller rewrites its session extensions before that, and is locked after it.
--
-- The ciphers of a HalfConn are of the kinds that the code tests for: none, a stream cipher, an AEAD, a block
-- cipher in CBC mode, and any other, on which the code panics. writeRecordLocked of Conn calls encrypt. decrypt works on the record in place;
-- the model returns the plaintext and the half afterwards.
--
-- Conventions. A Go int, a length or an index is a natural number; the code here never makes one
-- negative. A byte or a two-byte field keeps its low bits (`% 256`), so a list too long for its length
-- field is written the way the code writes it. An index or slice out of range is a panic. A nil
-- pointer is `none`. A loop over a list is a recursion on it. A loop over the bytes left has fuel, the
-- length of the bytes it starts with (one more for the two loops of the pre-shared key extension, which
-- count a length down); that is enough, since each round reads a byte at least. A uint16 or a uint32 that
-- is counted down wraps around. A size that may be negative is an Option, with `none` for a negative
-- one. The loop of writeRecordLocked has the number of bytes as fuel, since each record takes one at
-- least.
--
-- Arguments that stand for code outside the repository or left out: the reads of cryptobyte.String as a
-- `Reader`, cryptobyte.Builder as a `Builder`, the ciphers and hashes of the record layer as
-- `Algorithms`, with what they are documented to do as `Laws`, the bytes or the error of a read from crypto/rand,
-- net.ParseIP as a test on a name, the capacity that a bytes.Buffer makes for a ReadFrom as a function of
-- what it holds, the types of the keys and the states of the session cache, and what Conn.loadSession finds in the session cache as a value of `Found`; early secrets and binder keys are
-- byte strings. All theorems hold for every such argument.
--
-- Not modelled: the JSON forms of the extensions and ImportTLSClientHello; what a Write that fails
-- leaves in its extension; Len and Read of QUIC transport parameters and GREASE ECH; the session ticket
-- and pre-shared key extensions as elements of the marshalled list; PatchBuiltHello and the binders; the
-- presets of u_parrots.go; the hello messages of handshake_messages.go, encrypted extensions, certificate
-- requests; the mutex of the session cache; how records are read from the
-- connection, with alerts and limits, and Conn.Write; the handshakes, ECH and QUIC
-- connection, which are those of crypto/tls with hooks; tables, names and examples.
pub mod Base
pub mod Session
pub mod Extension
pub mod ClientHello
pub mod Tests
pub mod Grease
pub mod Spec
pub mod SessionCache
pub mod Messages
pub mod Cryptobyte
pub mod HalfConn
pub mod Conn
pub mod NonceAead
