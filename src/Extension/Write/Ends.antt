-- ===== src/Extension/Write/Ends.antt =====
-- Write ends on every input: none of its loops runs out of fuel.
use utls.Base.{
  ℕ, zero, suc, ◌≤◌, Bool, true, false, ◌&&◌, ◌==◌, List, [], ◌∷◌, Option, none, some, Bytes,
  length, if◌then◌else◌, Option-cases, Bool-cases, inl, inr, ◌≢◌, refl, sym, arith,
}
use utls.Grease.{un_grease_uint16}
use utls.Cryptobyte.{Reader}
use utls.Cryptobyte.Loops.{Outcome, done, refused, out_of_fuel, Advances, read_all-ends}
use utls.Cryptobyte.Advances.{
  rest_of, no_read, read_uint8-shorter, read_uint16-shorter, read_vec8-shorter, read_vec16-shorter,
}
use utls.Extension.{
  Extension, sni, status_request, supported_curves, supported_points, signature_algorithms,
  status_request_v2, signature_algorithms_cert, alpn, application_settings,
  application_settings_new, sct, generic, extended_master_secret, grease, padding, compress_cert,
  key_share, psk_key_exchange_modes, supported_versions, cookie, npn, renegotiation_info,
  fake_channel_id, fake_record_size_limit, fake_token_binding, fake_delegated_credentials,
  fake_early_data, trust_anchors,
}
use utls.Extension.Write.{write}
use utls.Extension.Write.Parts.{
  WriteResult, wrote, failed, stuck, finish, is_empty, u16_step, u16s_in, u16s_16, u16s_8,
  string_step, strings_in, strings_16, points_write, modes_write, share_step, captured_share,
  shares_write, anchors_write, limit_write, binding_write, sni_write, sni_end, read_names,
  name_step, host_name, status_write, status_v2_write,
}

failed-ends : (n : ℕ) → failed n ≢ stuck
failed-ends n e = cc

wrote-ends : (e : Extension) (n : ℕ) → wrote e n ≢ stuck
wrote-ends e n h = cc

after_read {ℓ} :
    {A : Type ℓ} (o : Option A) (none_case : WriteResult) (some_case : A → WriteResult)
    → none_case ≢ stuck
    → ((a : A) → some_case a ≢ stuck)
    → (elim o [ none ↦ none_case | some a ↦ some_case a ]) ≢ stuck
after_read none none_case some_case hn hs = hn
after_read (some a) none_case some_case hn hs = hs a

module _ (c : Reader) where
  pub u16_step-Advances : (f : ℕ → ℕ) → Advances (u16_step c f)
  unfolding u16_step
  u16_step-Advances f s a rest h = elim (Option-cases (c.read_uint16 s)) [
    | inl bad ↦ absurd (no_read (u16_step c f s) (a, rest) (rw (bad, u16_step)) h)
    | inr ((x, r), good) ↦
        rw (sym (rest_of (u16_step c f s) (f x) a r rest (rw (good, u16_step)) h))
          (read_uint16-shorter c s x r good)
  ]

  string_step-Advances : Advances (string_step c)
  unfolding string_step
  string_step-Advances s a rest h = elim (Option-cases (c.read_uint8_length_prefixed s)) [
    | inl bad ↦ absurd (no_read (string_step c s) (a, rest) (rw (bad, string_step)) h)
    | inr ((v, r), good) ↦ elim (Bool-cases (is_empty v)) [
      | inl empty ↦ absurd (no_read (string_step c s) (a, rest) (rw (good, string_step, empty)) h)
      | inr full ↦
          rw (sym (rest_of (string_step c s) v a r rest (rw (good, string_step, full)) h))
            (read_vec8-shorter c s v r good)
    ]
  ]

  share_step-Advances : Advances (share_step c)
  unfolding share_step
  share_step-Advances s a rest h = elim (Option-cases (c.read_uint16 s)) [
    | inl bad ↦ absurd (no_read (share_step c s) (a, rest) (rw (bad, share_step)) h)
    | inr ((g, s₁), good) ↦ elim (Option-cases (c.read_uint16_length_prefixed s₁)) [
      | inl bad ↦ absurd (no_read (share_step c s) (a, rest) (rw (good, share_step) (rw bad)) h)
      | inr ((v, r), good₁) ↦ elim (Bool-cases (is_empty v)) [
        | inl empty ↦
            absurd
              (no_read (share_step c s) (a, rest) (rw (good, share_step) (rw (good₁, empty))) h)
        | inr full ↦
            let e =
              rest_of (share_step c s) (captured_share c g v) a r rest
                (rw (good, share_step) (rw (good₁, full))) h in
            let first = read_uint16-shorter c s g s₁ good in
            let second = read_vec16-shorter c s₁ v r good₁ in rw (sym e) (omega arith)
      ]
    ]
  ]

  finish-ends {ℓ} :
      {A : Type ℓ} (make : A → Extension) (n : ℕ) (o : Outcome A)
      → o ≢ out_of_fuel
      → finish make n o ≢ stuck
  finish-ends make n (done a) h e = cc
  finish-ends make n refused h e = cc
  finish-ends make n out_of_fuel h e = h refl

  u16s_in-ends :
      (wants : Bool) (f : ℕ → ℕ) (make : List ℕ → Extension) (n : ℕ) (o : Option (Bytes × Bytes))
      → u16s_in c wants f make n o ≢ stuck
  u16s_in-ends wants f make n none = λ e. cc
  u16s_in-ends wants f make n (some (list, rest)) = elim (Bool-cases (wants && is_empty list)) [
    | inl short ↦ rw short (λ e. cc)
    | inr long ↦ rw long (
        finish-ends make n _
          (read_all-ends (u16_step c f) (u16_step-Advances f) (length list) list (omega arith)))
  ]

  strings_in-ends :
      (wants : Bool) (make : List Bytes → Extension) (n : ℕ) (o : Option (Bytes × Bytes))
      → strings_in c wants make n o ≢ stuck
  strings_in-ends wants make n none = λ e. cc
  strings_in-ends wants make n (some (list, rest)) = elim (Bool-cases (wants && is_empty list)) [
    | inl short ↦ rw short (λ e. cc)
    | inr long ↦ rw long (
        finish-ends make n _
          (read_all-ends (string_step c) string_step-Advances (length list) list (omega arith)))
  ]

  shares_write-ends : (b : Bytes) → shares_write c b ≢ stuck
  unfolding shares_write
  shares_write-ends b =
      after_read (c.read_uint16_length_prefixed b) _ _ (failed-ends 0) λ (list, rest).
        finish-ends key_share (length b) _
          (read_all-ends (share_step c) share_step-Advances (length list) list (omega arith))

  name_step-Advances : (name : Bytes) → Advances (name_step c name)
  unfolding name_step
  name_step-Advances name s a rest h = elim (Option-cases (c.read_uint8 s)) [
    | inl bad ↦ absurd (no_read (name_step c name s) (a, rest) (rw (bad, name_step)) h)
    | inr ((t, s₁), good) ↦ elim (Option-cases (c.read_uint16_length_prefixed s₁)) [
      | inl bad ↦ absurd (no_read (name_step c name s) (a, rest) (rw (good, name_step) (rw bad)) h)
      | inr ((v, r), good₁) ↦
          let first = read_uint8-shorter c s t s₁ good in
          let second = read_vec16-shorter c s₁ v r good₁ in
          elim (Bool-cases (is_empty v)) [
            | inl empty ↦ absurd (
                no_read (name_step c name s) (a, rest) (rw (good, name_step) (rw (good₁, empty))) h)
            | inr full ↦ elim (Option-cases (if t == 0 then host_name c name v else some name)) [
              | inl bad ↦ absurd (
                  no_read (name_step c name s) (a, rest)
                    (rw (good, name_step) (rw (good₁, full, bad))) h)
              | inr (n, good₂) ↦
                  let e =
                    rest_of (name_step c name s) n a r rest
                      (rw (good, name_step) (rw (good₁, full, good₂))) h in
                  rw (sym e) (omega arith)
            ]
          ]
    ]
  ]

  read_names-ends :
      (fuel : ℕ) (name s : Bytes) → length s ≤ fuel → read_names c fuel name s ≢ out_of_fuel
  unfolding read_names
  read_names-ends fuel name [] h = λ e. cc
  read_names-ends zero name (b ∷ s) h = absurd (omega arith)
  read_names-ends (suc fuel) name (b ∷ s) h = elim (Option-cases (name_step c name (b ∷ s))) [
    | inl bad ↦ rw (bad, read_names) (λ e. cc)
    | inr ((n, rest), good) ↦
        let less = name_step-Advances name (b ∷ s) n rest good in
        rw (good, read_names) (read_names-ends fuel n rest (omega arith))
  ]

  sni_end-ends :
      (e : Extension) (n : ℕ) (o : Outcome Bytes) → o ≢ out_of_fuel → sni_end c e n o ≢ stuck
  sni_end-ends e n (done name) h = wrote-ends e n
  sni_end-ends e n refused h = failed-ends n
  sni_end-ends e n out_of_fuel h = λ _. h refl

  if-ends : (b : Bool) (x y : WriteResult) → x ≢ stuck → y ≢ stuck → (if b then x else y) ≢ stuck
  if-ends true x y hx hy = hx
  if-ends false x y hx hy = hy

  sni_write-ends : (e : Extension) (b : Bytes) → sni_write c e b ≢ stuck
  unfolding sni_write
  sni_write-ends e b =
      after_read (c.read_uint16_length_prefixed b) _ _ (failed-ends (length b)) λ (list, rest).
        if-ends (is_empty list) _ _ (failed-ends (length b))
          (sni_end-ends e (length b) _ (read_names-ends (length list) [] list (omega arith)))

  status_write-ends : (b : Bytes) → status_write c b ≢ stuck
  unfolding status_write
  status_write-ends b = after_read (c.read_uint8 b) _ _ (failed-ends _) λ (t, s₁).
      after_read (c.read_uint16_length_prefixed s₁) _ _ (failed-ends _) λ (_, s₂).
        after_read (c.read_uint16_length_prefixed s₂) _ _ (failed-ends _)
          λ (_, s₃). if-ends (t == 1) _ _ (wrote-ends _ _) (failed-ends _)

  status_v2_write-ends : (b : Bytes) → status_v2_write c b ≢ stuck
  unfolding status_v2_write
  status_v2_write-ends b =
      after_read (c.read_uint16_length_prefixed b) _ _ (failed-ends _) λ (list, rest).
        after_read (c.read_uint8 list) _ _ (failed-ends _)
          λ (t, s₁). if-ends (t == 2) _ _ (wrote-ends _ _) (failed-ends _)

  points_write-ends : (b : Bytes) → points_write c b ≢ stuck
  unfolding points_write
  points_write-ends b =
      after_read (c.read_uint8_length_prefixed b) _ _ (failed-ends _)
        λ (v, rest). if-ends (is_empty v) _ _ (failed-ends _) (wrote-ends _ _)

  modes_write-ends : (b : Bytes) → modes_write c b ≢ stuck
  unfolding modes_write
  modes_write-ends b =
      after_read (c.read_uint8_length_prefixed b) _ _ (failed-ends _) λ (v, rest). wrote-ends _ _

  limit_write-ends : (b : Bytes) → limit_write c b ≢ stuck
  unfolding limit_write
  limit_write-ends b = after_read (c.read_uint16 b) _ _ (failed-ends _) λ (l, rest). wrote-ends _ _

  binding_write-ends : (b : Bytes) → binding_write c b ≢ stuck
  unfolding binding_write
  binding_write-ends b = after_read (c.read_uint8 b) _ _ (failed-ends _) λ (major, s₁).
      after_read (c.read_uint8 s₁) _ _ (failed-ends _) λ (minor, s₂).
        after_read (c.read_uint8_length_prefixed s₂) _ _ (failed-ends _) λ (v, rest). wrote-ends _ _

  -- Write returns on every extension and every body, with a count or an error.
  pub write-ends : (e : Extension) (b : Bytes) → write c e b ≢ stuck
  unfolding write u16s_16 u16s_8 strings_16 anchors_write
  write-ends (sni name) b = sni_write-ends (sni name) b
  write-ends status_request b = status_write-ends b
  write-ends (supported_curves xs) b =
      u16s_in-ends true un_grease_uint16 supported_curves (length b) _
  write-ends (supported_points ps) b = points_write-ends b
  write-ends (signature_algorithms xs) b =
      u16s_in-ends true (λ x. x) signature_algorithms (length b) _
  write-ends status_request_v2 b = status_v2_write-ends b
  write-ends (signature_algorithms_cert xs) b =
      u16s_in-ends true (λ x. x) signature_algorithms_cert (length b) _
  write-ends (alpn ps) b = strings_in-ends true alpn (length b) _
  write-ends (application_settings ps) b = strings_in-ends true application_settings (length b) _
  write-ends (application_settings_new ps) b =
      strings_in-ends true application_settings_new (length b) _
  write-ends (compress_cert xs) b = u16s_in-ends false (λ x. x) compress_cert (length b) _
  write-ends (key_share ks) b = shares_write-ends b
  write-ends (psk_key_exchange_modes ms) b = modes_write-ends b
  write-ends (supported_versions xs) b =
      u16s_in-ends true un_grease_uint16 supported_versions (length b) _
  write-ends (fake_record_size_limit l) b = limit_write-ends b
  write-ends (fake_token_binding major minor ps) b = binding_write-ends b
  write-ends (fake_delegated_credentials xs) b =
      u16s_in-ends true (λ x. x) fake_delegated_credentials (length b) _
  write-ends (trust_anchors t) b = strings_in-ends false _ (length b) _
  write-ends (generic id body) b = failed-ends 0
  write-ends (cookie v) b = failed-ends 0
  write-ends sct b = wrote-ends _ _
  write-ends extended_master_secret b = wrote-ends _ _
  write-ends (grease id body) b = wrote-ends _ _
  write-ends (padding p) b = wrote-ends _ _
  write-ends (npn ps) b = wrote-ends _ _
  write-ends (renegotiation_info r v) b = wrote-ends _ _
  write-ends (fake_channel_id old) b = wrote-ends _ _
  write-ends fake_early_data b = wrote-ends _ _
