-- ===== src/ClientHello.antt =====
-- u_conn.go: MarshalClientHelloNoECH, which lays a ClientHello out from the fields of the hello and
-- the extensions of the connection. `Buffered` is the buffered writer it uses.
pub mod Buffered
pub mod Filling
pub mod Layout
pub mod Padded
pub mod Exact
pub mod Boring
use utls.Base.{
  ℕ, ◌+◌, ◌*◌, ◌/◌, ◌%◌, Bool, true, false, ◌==◌, List, [], ◌∷◌, ◌++◌, map, Option, none, some,
  Bytes, length, if◌then◌else◌, Run, ok, panic, ◌>>=◌,
}
use utls.Extension.{PaddingExtension, Extension, padding}
use utls.Extension.Padding.{update}
use utls.Extension.Wire.{hi, lo, u16}
use utls.Extension.Read.{len}
use utls.Extension.Read.Store.{ReadError}
use utls.Extension.Read.Each.{padding_len_of}
use utls.ClientHello.Buffered.{
  Writer, writer, write, write_all, Written, written, failed, read_from,
}

-- The fields of PubClientHelloMsg that are written before the extensions.
pub record Hello : Type 0 where
  pub vers : ℕ
  pub random : Bytes
  pub session_id : Bytes
  pub cipher_suites : List ℕ
  pub compression_methods : Bytes

-- What a marshalling ends in: the bytes with the extensions as they are then, or an error.
pub data Marshalled : Type 0 where
  raw : Bytes → List Extension → Marshalled
  multiple_padding_extensions : Marshalled
  extension_error : ReadError → Marshalled
  unexpected_length : ℕ → ℕ → Marshalled

abbrev pub header_length : Hello → ℕ
header_length h =
    2
    + 32
    + 1
    + length h.session_id
    + 2
    + length h.cipher_suites * 2
    + 1
    + length h.compression_methods

-- The loop over the extensions: the lengths of all but the padding extension, and the latter.
pub data Measured : Type 0 where
  measured : ℕ → Option PaddingExtension → Measured
  two_paddings : Measured

abbrev pub add_padding : PaddingExtension → Measured → Measured
add_padding p (measured n none) = measured n (some p)
add_padding p (measured n (some q)) = two_paddings
add_padding p two_paddings = two_paddings

abbrev pub add_len : ℕ → Measured → Measured
add_len k (measured n p) = measured (n + k) p
add_len k two_paddings = two_paddings

-- `ext.(*UtlsPaddingExtension)`
abbrev pub padding_of : Extension → Option PaddingExtension
padding_of (padding p) = some p
padding_of e = none

abbrev pub measure_one : (Bytes → Bool) → Extension → Measured → Measured
measure_one ip e m = elim (padding_of e) [ some p ↦ add_padding p m | none ↦ add_len (len ip e) m ]

abbrev pub measure_all : (Bytes → Bool) → List Extension → Measured → Measured
measure_all ip [] m = m
measure_all ip (e ∷ es) m = measure_all ip es (measure_one ip e m)

-- `paddingExt.Update` changes the extension that the list points to.
abbrev pub update_one : ℕ → Extension → Extension
update_one n e = elim (padding_of e) [ some p ↦ padding (update p n) | none ↦ e ]

-- A number of three bytes.
abbrev pub u24 : ℕ → Bytes
u24 x = x / 65536 % 256 ∷ x / 256 % 256 ∷ x % 256 ∷ []

-- The calls of binary.Write before the extensions, in order.
abbrev pub fixed_part : Hello → ℕ → List Bytes
fixed_part h hello_len =
    (1 ∷ [])
    ∷ u24 hello_len
    ∷ u16 h.vers
    ∷ h.random
    ∷ (lo (length h.session_id) ∷ [])
    ∷ h.session_id
    ∷ u16 (length h.cipher_suites * 2)
    ∷ (map u16 h.cipher_suites
        ++ (lo (length h.compression_methods) ∷ []) ∷ h.compression_methods ∷ [])

-- `bufferedWriter.ReadFrom(ext)` for every extension, up to the first error.
unfoldable pub write_extensions : (Bytes → Bool) → (ℕ → ℕ) → List Extension → Writer → Run Written
write_extensions ip spare [] w = ok (written w)
write_extensions ip spare (e ∷ es) w = read_from ip spare e w >>= λ r. elim r [
  | written w' ↦ write_extensions ip spare es w'
  | failed err ↦ ok (failed err)
]

-- Flush and the check of the length.
abbrev pub finish : List Extension → ℕ → Writer → Marshalled
finish es hello_len w =
    let out = w.flushed ++ w.buffered in
    if length out == 4 + hello_len
    then raw out es
    else unexpected_length (4 + hello_len) (length out)

abbrev pub hello_length : Hello → List Extension → ℕ → ℕ
hello_length h [] ext_len = header_length h
hello_length h (e ∷ es) ext_len = header_length h + (2 + ext_len)

abbrev pub begin : Hello → ℕ → Writer
begin h hello_len = write_all (fixed_part h hello_len) (writer (hello_len + 4) [] [])

abbrev pub end_with : List Extension → ℕ → Written → Marshalled
end_with es hello_len (written w) = finish es hello_len w
end_with es hello_len (failed err) = extension_error err

-- From `helloLen := headerLength` on.
unfoldable pub lay_out : (Bytes → Bool) → (ℕ → ℕ) → Hello → List Extension → ℕ → Run Marshalled
lay_out ip spare h [] ext_len = ok (finish [] (header_length h) (begin h (header_length h)))
lay_out ip spare h (e ∷ es) ext_len =
    let n = hello_length h (e ∷ es) ext_len in
    write_extensions ip spare (e ∷ es) (write (u16 ext_len) (begin h n)) >>= λ r.
    ok (end_with (e ∷ es) n r)

-- UConn.MarshalClientHelloNoECH. `ip` is net.ParseIP, and `spare` the room that a bytes.Buffer makes
-- for a ReadFrom by the bytes it holds.
unfoldable pub marshal_client_hello_no_ech :
    (Bytes → Bool) → (ℕ → ℕ) → Hello → List Extension → Run Marshalled
marshal_client_hello_no_ech ip spare h es = elim (measure_all ip es (measured 0 none)) [
  | two_paddings ↦ ok multiple_padding_extensions
  | measured n none ↦ lay_out ip spare h es n
  | measured n (some p) ↦
      let full = header_length h + 4 + n + 2 in
      lay_out ip spare h (map (update_one full) es) (n + padding_len_of (update p full))
]
