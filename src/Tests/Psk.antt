-- ===== src/Tests/Psk.antt =====
-- Session extensions on the wire.
use utls.Base.{
  ℕ, ◌||◌, true, false, [], ◌∷◌, ◌++◌, none, some, Bytes, length, replicate, ◌≡◌, refl, arith,
}
use utls.Extension.Wire.{vec8s, vec16}
use utls.Extension.Read.Store.{answer, eof, empty_psk}
use utls.Extension.Read.Loops.{zeros}
use utls.Session.State.{PskIdentity, TicketExt, UtlsPsk, FakePsk}
use utls.Session.Psk.{
  psk_ext_len, read_psk_into_bytes, is_nil, utls_len, utls_after_read, utls_read,
}
use utls.Session.Psk.Exact.{exact_psk, utls_read-exact}
use utls.Session.Psk.Correct.{read_psk_same_prefix}

abbrev identity : PskIdentity
identity = record { label = 1 ∷ 2 ∷ 3 ∷ []; obfuscated_ticket_age = 0x01020304 }

abbrev binder : Bytes
binder = replicate 32 0

abbrev offered_psk : UtlsPsk
offered_psk = record {
  common = record {
    identities = identity ∷ [];
    binders = binder ∷ [];
    binder_key = [];
    early_secret = [];
    session = some (record { address = 1; version = 0x0304; cipher_suite = 0x1301 });
  };
  suite_hash_size = some 32;
  cached_length = none;
  omit_empty_psk = false;
  skip_binder_patching = false;
}

abbrev fake : FakePsk
fake = record {
  identities = some (identity ∷ []);
  binders = some (binder ∷ []);
  omit_empty_psk = false;
}

abbrev ticket : TicketExt
ticket = record { session = none; ticket = some (9 ∷ 8 ∷ []); initialized = true }

utls_read-exact_example :
    ((is_nil (identity ∷ []) || is_nil (binder ∷ [])) ≡ true
      → false ≡ false
      → utls_read offered_psk [] ≡ answer 0 empty_psk [])
    × ((is_nil (identity ∷ []) || is_nil (binder ∷ [])) ≡ true
        → false ≡ true
        → utls_read offered_psk [] ≡ answer 0 eof [])
    × ((is_nil (identity ∷ []) || is_nil (binder ∷ [])) ≡ false
        → (utls_read offered_psk (zeros (utls_len offered_psk).0 ++ [])
            ≡ answer (utls_len offered_psk).0 eof (exact_psk (identity ∷ []) (binder ∷ []) ++ []))
          × (length (exact_psk (identity ∷ []) (binder ∷ [])) ≡ (utls_len offered_psk).0))
    × ((utls_len (utls_after_read offered_psk)).0 ≡ (utls_len offered_psk).0)
unfolding psk_ext_len
utls_read-exact_example =
    utls_read-exact offered_psk [] [] refl (omega arith, tt) (omega arith, tt) (omega arith)

read_psk_same_prefix_example :
    (n : ℕ) × (prefix : Bytes) × (read_psk_into_bytes (identity ∷ []) (binder ∷ []) (zeros n ++ [])
      ≡ answer n eof (prefix ++ vec16 (vec8s (binder ∷ [])) ++ []))
    × (read_psk_into_bytes (identity ∷ []) (replicate 32 5 ∷ []) (zeros n ++ [])
        ≡ answer n eof (prefix ++ vec16 (vec8s (replicate 32 5 ∷ [])) ++ []))
read_psk_same_prefix_example =
    read_psk_same_prefix identity [] binder (replicate 32 5) [] [] [] refl
