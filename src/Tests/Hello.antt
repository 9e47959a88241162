-- ===== src/Tests/Hello.antt =====
-- Extensions and a ClientHello with a padding extension.
use utls.Base.{
  ◌==◌, ℕ, ◌+◌, ◌≤◌, ◌<◌, Bool, true, false, List, [], ◌∷◌, ◌++◌, some, Bytes, length, replicate,
  ◌≡◌, ◌⊎◌, refl, ok, arith,
}
use utls.Extension.{
  PaddingExtension, Extension, sni, alpn, supported_versions, padding, extended_master_secret,
}
use utls.Extension.Padding
use utls.Extension.Padding.{boring_padding_style, added}
use utls.Extension.HostName.{hostname_in_sni, without_zone, unbracket}
use utls.Extension.HostName.Laws.{hostname_in_sni-cases}
use utls.Extension.Read.{len, read}
use utls.Extension.Read.Store.{answer, eof, short_buffer}
use utls.Extension.Read.Loops.{zeros}
use utls.Extension.Read.Correct.{read-encoding}
use utls.Extension.Read.Refuses.{read_short}
use utls.ClientHello.{Hello, raw, marshal_client_hello_no_ech, multiple_padding_extensions}
use utls.ClientHello.Exact.{exact_client_hello, marshal-exact_client_hello}
use utls.ClientHello.Padded.{padded, unpadded_length, marshal_two_paddings}
use utls.ClientHello.Boring.{marshal_boring_length}

-- Nothing is an IP address here.
abbrev no_ip : Bytes → Bool
no_ip name = false

abbrev room : ℕ → ℕ
room held = 512

abbrev h2 : Extension
h2 = alpn ((0x68 ∷ 0x32 ∷ []) ∷ [])

read-encoding_example :
    read no_ip (supported_versions (0x0304 ∷ 0x0303 ∷ [])) (zeros 9 ++ 7 ∷ [])
    ≡ answer 9 eof (0 ∷ 43 ∷ 0 ∷ 5 ∷ 4 ∷ 3 ∷ 4 ∷ 3 ∷ 3 ∷ 7 ∷ [])
unfolding len
read-encoding_example =
    read-encoding no_ip (supported_versions (0x0304 ∷ 0x0303 ∷ [])) (7 ∷ []) (omega arith)

read_short_example : read no_ip h2 (zeros 8) ≡ answer 0 short_buffer (zeros 8)
unfolding len
read_short_example = read_short no_ip h2 (zeros 8) (omega arith)

abbrev boring : PaddingExtension
boring = record { padding_len = 0; will_pad = false; get_padding_len = some boring_padding_style }

abbrev hello : Hello
hello = record {
  vers = 0x0303;
  random = replicate 32 1;
  session_id = replicate 32 2;
  cipher_suites = 0x1301 ∷ 0x1302 ∷ [];
  compression_methods = 0 ∷ [];
}

-- A server name of 200 bytes.
abbrev long_name : Extension
long_name = sni (replicate 200 97)

abbrev offered : List Extension
offered = long_name ∷ padding boring ∷ extended_master_secret ∷ []

marshal-exact_client_hello_example :
    marshal_client_hello_no_ech no_ip room hello offered
    ≡ ok (
        raw
          (exact_client_hello no_ip hello (padded no_ip hello offered))
          (padded no_ip hello offered))
unfolding hostname_in_sni Padding.update boring_padding_style len
marshal-exact_client_hello_example =
    marshal-exact_client_hello no_ip room hello offered
      (omega arith, refl, omega arith, (omega arith, (omega arith, tt)), omega arith, omega arith)
      (tt, (tt, (tt, tt))) (tt, (tt, (tt, tt))) (omega arith) (omega arith)

marshal_two_paddings_example :
    marshal_client_hello_no_ech no_ip room hello (padding boring ∷ offered)
    ≡ ok multiple_padding_extensions
marshal_two_paddings_example =
    marshal_two_paddings no_ip room hello (padding boring ∷ offered) (omega arith)

marshal_boring_length_example :
    (out : Bytes) × (marshal_client_hello_no_ech no_ip room hello offered
      ≡ ok (raw out (padded no_ip hello offered)))
    × (length out
        ≡ unpadded_length no_ip hello offered
          + added (boring_padding_style (unpadded_length no_ip hello offered)))
    × (0xff < unpadded_length no_ip hello offered
        → unpadded_length no_ip hello offered ≤ 507
        → length out ≡ 512)
    × (507 < unpadded_length no_ip hello offered
        → unpadded_length no_ip hello offered < 0x200
        → (512 < length out) × (length out ≤ 516))
    × ((length out ≤ 0xff) ⊎ (0x200 ≤ length out))
marshal_boring_length_example =
    marshal_boring_length no_ip room hello (long_name ∷ []) (extended_master_secret ∷ []) boring
      refl (tt, (tt, (tt, tt))) refl refl refl

-- The name `a.` with its last dot.
hostname_in_sni-cases_example :
    (no_ip (without_zone (unbracket (97 ∷ 46 ∷ []))) ≡ true
      → hostname_in_sni no_ip (97 ∷ 46 ∷ []) ≡ [])
    × (no_ip (without_zone (unbracket (97 ∷ 46 ∷ []))) ≡ false
        → ((k : ℕ) × (97 ∷ 46 ∷ [] ≡ hostname_in_sni no_ip (97 ∷ 46 ∷ []) ++ replicate k b'.'))
          × ((front : Bytes) (c : ℕ)
              → hostname_in_sni no_ip (97 ∷ 46 ∷ []) ≡ front ++ (c ∷ [])
              → (c == b'.') ≡ false))
hostname_in_sni-cases_example = hostname_in_sni-cases no_ip (97 ∷ 46 ∷ [])
