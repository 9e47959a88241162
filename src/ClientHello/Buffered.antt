-- ===== src/ClientHello/Buffered.antt =====
-- bufio.Writer over a bytes.Buffer, as far as MarshalClientHelloNoECH of u_conn.go uses it: Write and
-- ReadFrom, where an extension fills the free part of the buffer.
use utls.Base.{
  ℕ, ◌-◌, Bool, ◌==◌, leb, List, [], ◌∷◌, ◌++◌, Bytes, length, take, drop, if◌then◌else◌, Run, ok,
  ◌>>=◌,
}
use utls.Extension.{Extension}
use utls.Extension.Read.{read}
use utls.Extension.Read.Store.{ReadResult, ReadError, eof}
use utls.Extension.Read.Loops.{zeros}

-- What went on to the bytes.Buffer, and what the buffer of `size` bytes holds.
pub record Writer : Type 0 where
  pub size : ℕ
  pub flushed : Bytes
  pub buffered : Bytes

abbrev pub writer : ℕ → Bytes → Bytes → Writer
writer n f b = record { size = n; flushed = f; buffered = b }

abbrev pub available : Writer → ℕ
available w = w.size - length w.buffered

abbrev pub flush : Writer → Writer
flush w = writer w.size (w.flushed ++ w.buffered) []

-- The end of a Write that does not fit, after the buffer was flushed.
write_rest : Bytes → Writer → Writer
write_rest p w =
    if leb (length p) w.size then writer w.size w.flushed p else writer w.size (w.flushed ++ p) []

abbrev spilled : Bytes → Writer → Writer
spilled p w = flush (writer w.size w.flushed (w.buffered ++ take (available w) p))

unfoldable pub write : Bytes → Writer → Writer
unfolding write_rest
write p w =
    if leb (length p) (available w)
    then writer w.size w.flushed (w.buffered ++ p)
    else if length w.buffered == 0
    then writer w.size (w.flushed ++ p) []
    else write_rest (drop (available w) p) (spilled p w)

abbrev pub write_all : List Bytes → Writer → Writer
write_all [] w = w
write_all (p ∷ ps) w = write_all ps (write p w)

pub data Written : Type 0 where
  written : Writer → Written
  failed : ReadError → Written

-- The bytes that an extension counted, put behind the buffered ones; a buffer they fill is flushed.
abbrev pub settle : Writer → Writer
settle w = if available w == 0 then flush w else w

abbrev pub take_in : (Bytes → Writer) → ReadResult → Written
take_in place r = elim r.error [
  | eof ↦ written (place (take r.count r.buffer))
  | other ↦ failed other
]

abbrev pub fill : Writer → Bytes → Writer
fill w bs = settle (writer w.size w.flushed (w.buffered ++ bs))

abbrev pub pass : Writer → Bytes → Writer
pass w bs = writer w.size (w.flushed ++ bs) w.buffered

-- ReadFrom after a full buffer was flushed. With an empty buffer it is bytes.Buffer.ReadFrom, which
-- makes fresh room of a size of its own.
abbrev pub read_flushed : (Bytes → Bool) → (ℕ → ℕ) → Extension → Writer → Run Written
read_flushed ip spare e w =
    if length w.buffered == 0
    then (read ip e (zeros (spare (length w.flushed))) >>= λ r. ok (take_in (pass w) r))
    else (read ip e (zeros (available w)) >>= λ r. ok (take_in (fill w) r))

unfoldable pub read_from : (Bytes → Bool) → (ℕ → ℕ) → Extension → Writer → Run Written
read_from ip spare e w = read_flushed ip spare e (settle w)
