-- ===== src/ClientHello/Layout.antt =====
-- MarshalClientHelloNoECH against the layout of a ClientHello, in which a length is cut to its field as the
-- code cuts it; ClientHello/Exact has the layout without that.
use utls.Base.{
  ℕ, ◌+◌, ◌*◌, ◌≤◌, ◌<◌, Bool, List, [], ◌∷◌, ◌++◌, map, Bytes, length, length-append, All, ◌≡◌,
  refl, sym, ap, ◌∙◌, arith, ok, append_assoc, append-nil, ==_iff,
}
use utls.Extension.{Extension}
use utls.Extension.Wire.{hi, lo, u16, u16s, vec8, vec16, encoding, length-u16s}
use utls.Extension.Read.{len}
use utls.Extension.Read.Correct.{IsEncodable, host_of}
use utls.Extension.Read.Refuses.{length-encoding}
use utls.ClientHello.Buffered.{Writer, writer, written}
use utls.ClientHello.Filling.{
  concat, Holds, in_buffer, Holds-contents, read_from-Holds, write_all-fits,
}
use utls.ClientHello.{
  Hello, raw, header_length, u24, fixed_part, write_extensions, finish, begin, lay_out,
}

-- The fields of a ClientHello before its extensions.
abbrev pub fixed_fields : Hello → Bytes
fixed_fields h =
    u16 h.vers
    ++ (h.random
        ++ (vec8 h.session_id ++ (vec16 (u16s h.cipher_suites) ++ vec8 h.compression_methods)))

module _ (ip : Bytes → Bool) where
  -- The extensions on the wire, one after the other.
  abbrev pub encodings : List Extension → Bytes
  encodings [] = []
  encodings (e ∷ es) = encoding (host_of ip e) e ++ encodings es

  abbrev pub extensions_block : List Extension → Bytes
  extensions_block [] = []
  extensions_block (e ∷ es) = vec16 (encodings (e ∷ es))

  -- struct ClientHello, and the handshake message it is the body of.
  abbrev pub hello_body : Hello → List Extension → Bytes
  hello_body h es = fixed_fields h ++ extensions_block es

  abbrev pub client_hello : Hello → List Extension → Bytes
  client_hello h es = 1 ∷ (u24 (length (hello_body h es)) ++ hello_body h es)

  abbrev pub lens : List Extension → ℕ
  lens [] = 0
  lens (e ∷ es) = len ip e + lens es

length-encodings :
    (ip : Bytes → Bool) (es : List Extension)
    → All IsEncodable es
    → length (encodings ip es) ≡ lens ip es
length-encodings ip [] h = refl
length-encodings ip (e ∷ es) h =
    let sum = length-append (encoding (host_of ip e) e) (encodings ip es) in
    let one = length-encoding ip e h.0 in let more = length-encodings ip es h.1 in omega arith

concat-u16 :
    (xs : List ℕ) (rest : List Bytes) → concat (map u16 xs ++ rest) ≡ u16s xs ++ concat rest
concat-u16 [] rest = refl
concat-u16 (x ∷ xs) rest = ap (λ bs. hi x ∷ lo x ∷ bs) (concat-u16 xs rest)

-- The writes before the extensions, as one run of bytes.
abbrev header : Hello → ℕ → Bytes
header h n = 1 ∷ (u24 n ++ fixed_fields h)

concat-fixed_part : (h : Hello) (n : ℕ) → concat (fixed_part h n) ≡ header h n
concat-fixed_part h n =
    let twice : length h.cipher_suites * 2 ≡ length (u16s h.cipher_suites) =
      omega (arith, length-u16s h.cipher_suites) in
    let methods : List Bytes =
      (lo (length h.compression_methods) ∷ []) ∷ h.compression_methods ∷ [] in
    rw (concat-u16 h.cipher_suites methods, twice, append-nil h.compression_methods) refl

length-fixed_fields : (h : Hello) → length h.random ≡ 32 → length (fixed_fields h) ≡ header_length h
length-fixed_fields h e =
    let suites = length-u16s h.cipher_suites in
    let a =
      length-append h.random
        (vec8 h.session_id ++ (vec16 (u16s h.cipher_suites) ++ vec8 h.compression_methods)) in
    let b =
      length-append h.session_id (vec16 (u16s h.cipher_suites) ++ vec8 h.compression_methods) in
    let c = length-append (u16s h.cipher_suites) (vec8 h.compression_methods) in omega arith

write_extensions-Holds :
    (ip : Bytes → Bool) (spare : ℕ → ℕ) (n : ℕ) (es : List Extension) (c : Bytes) (w : Writer)
    → All IsEncodable es
    → Holds n c w
    → 0 < length c
    → length c + lens ip es ≤ n
    → (w' : Writer) × (write_extensions ip spare es w ≡ ok (written w'))
      × Holds n (c ++ encodings ip es) w'
unfolding write_extensions
write_extensions-Holds ip spare n [] c w h held pos fits = rw (append-nil c) (w, refl, held)
write_extensions-Holds ip spare n (e ∷ es) c w h held pos fits =
    let one = encoding (host_of ip e) e in
    let (w₁, step, held₁) = read_from-Holds ip spare e h.0 n c w held pos (omega arith) in
    let sum = length-append c one in
    let sized = length-encoding ip e h.0 in
    let (w₂, steps, held₂) =
      write_extensions-Holds ip spare n es (c ++ one) w₁ h.1 held₁ (omega arith) (omega arith) in
    (w₂, rw step steps, rw (append_assoc c one (encodings ip es)) at held₂)

begin-writer :
    (h : Hello) (n : ℕ)
    → length h.random ≡ 32
    → header_length h ≤ n
    → begin h n ≡ writer (n + 4) [] (header h n)
begin-writer h n e fits =
    let size = length-fixed_fields h e in
    let joined : length (concat (fixed_part h n)) ≡ length (header h n) =
      ap length (concat-fixed_part h n) in
    write_all-fits (fixed_part h n) [] (n + 4) (omega arith)
    ∙ ap (writer (n + 4) []) (concat-fixed_part h n)

finish-raw :
    (es : List Extension) (n : ℕ) (w : Writer) (out : Bytes)
    → w.flushed ++ w.buffered ≡ out
    → length out ≡ 4 + n
    → finish es n w ≡ raw out es
finish-raw es n w out e sized = rw (e, sized, (==_iff (4 + n) (4 + n)).1 refl) refl

-- The header, the length of the extensions and their wire forms make the message.
joined :
    (ip : Bytes → Bool) (h : Hello) (e : Extension) (es : List Extension) (n : ℕ)
    → length h.random ≡ 32
    → All IsEncodable (e ∷ es)
    → n ≡ header_length h + (2 + lens ip (e ∷ es))
    → (header h n ++ (u16 (lens ip (e ∷ es)) ++ encodings ip (e ∷ es)) ≡ client_hello ip h (e ∷ es))
      × (length (client_hello ip h (e ∷ es)) ≡ 4 + n)
joined ip h e es n r ok_es sum =
    let fixed = length-fixed_fields h r in
    let size = length-encodings ip (e ∷ es) ok_es in
    let whole = length-append (fixed_fields h) (extensions_block ip (e ∷ es)) in
    let total : n ≡ length (hello_body ip h (e ∷ es)) = omega arith in
    (rw (total, sym size) refl, omega arith)

-- From `helloLen := headerLength` on, when the length of the extensions is right.
pub lay_out-wire :
    (ip : Bytes → Bool) (spare : ℕ → ℕ) (h : Hello) (es : List Extension)
    → length h.random ≡ 32
    → All IsEncodable es
    → lay_out ip spare h es (lens ip es) ≡ ok (raw (client_hello ip h es) es)
unfolding lay_out
lay_out-wire ip spare h [] r encodable =
    let n = header_length h in
    let fixed = length-fixed_fields h r in
    let plain : hello_body ip h [] ≡ fixed_fields h = append-nil (fixed_fields h) in
    let bare : header h n ≡ client_hello ip h [] =
      ap (header h) (sym fixed) ∙ sym (ap (λ b. 1 ∷ (u24 (length b) ++ b)) plain) in
    let sized = ap length plain in
    rw (begin-writer h n r (omega arith)) (
      ap ok (
        finish-raw [] n (writer (n + 4) [] (header h n)) (client_hello ip h []) bare (omega arith)))
lay_out-wire ip spare h (e ∷ es) r encodable =
    let all = e ∷ es in
    let n = header_length h + (2 + lens ip all) in
    let fixed = length-fixed_fields h r in
    let c = header h n ++ u16 (lens ip all) in
    let sum = length-append (header h n) (u16 (lens ip all)) in
    let begun = begin-writer h n r (omega arith) in
    let counted = write_all-fits (u16 (lens ip all) ∷ []) (header h n) (n + 4) (omega arith) in
    let (w, wrote, held) =
      write_extensions-Holds ip spare (n + 4) all c (writer (n + 4) [] c) encodable in_buffer
        (omega arith) (omega arith) in
    let (same, sized) = joined ip h e es n r encodable refl in
    let out =
      Holds-contents (n + 4) (c ++ encodings ip all) w held
      ∙ append_assoc (header h n) (u16 (lens ip all)) (encodings ip all)
      ∙ same in
    rw (begun, counted) (rw wrote (ap ok (finish-raw all n w (client_hello ip h all) out sized)))

-- The length of a ClientHello that has extensions.
pub length-client_hello :
    (ip : Bytes → Bool) (h : Hello) (es : List Extension)
    → length h.random ≡ 32
    → All IsEncodable es
    → 0 < length es
    → length (client_hello ip h es) ≡ 4 + (header_length h + (2 + lens ip es))
length-client_hello ip h [] r encodable some_ext = absurd (omega arith)
length-client_hello ip h (e ∷ es) r encodable some_ext = (joined ip h e es _ r encodable refl).1
