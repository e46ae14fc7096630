-- ===== src/Gateway/Assertion/Laws.antt =====
-- A signed assertion is accepted, and an accepted one was signed with a key of the verifier.
use volta_gateway.Prelude.{
  ℕ, ◌≤◌, ◌≡◌, ◌≢◌, ◌⊎◌, refl, inl, inr, ◌∙◌, ap, sym, Option, none, some, ◌++◌, arith, ltb, Text,
  text, text_eq, text_eq_iff, text_eq_refl, strip_prefix, strip_prefix-append, append-strip_prefix,
  Bool-cases, Option-cases,
}
use volta_gateway.Gateway.Assertion.{
  Codec, GatewayAssertionSigner, GatewayAssertionVerifier, Request, canonical, VerifyError,
  Selected, use_signer, no_signer, select_signer, abs_diff, sign_at, check_signature, verify_at,
}

-- The signers that a verifier knows: the current one, and the previous one of another identifier.
abbrev pub Knows : GatewayAssertionVerifier → GatewayAssertionSigner → Type 0
Knows v s = (s ≡ v.current) ⊎ ((v.previous ≡ some s) × (s.key_id ≢ v.current.key_id))

select_signer-Knows :
    (v : GatewayAssertionVerifier) (s : GatewayAssertionSigner)
    → Knows v s
    → select_signer v (some s.key_id) ≡ use_signer s
unfolding select_signer
select_signer-Knows v s (inl current) =
    ground (arith, text_eq_iff s.key_id v.current.key_id, text_eq_refl v.current.key_id)
select_signer-Knows v s (inr (previous, other)) =
    ground (arith, text_eq_iff s.key_id v.current.key_id, text_eq_refl s.key_id)

selected-Knows :
    (v : GatewayAssertionVerifier) (key_id : Option Text) (s : GatewayAssertionSigner)
    → select_signer v key_id ≡ use_signer s
    → Knows v s
unfolding select_signer
selected-Knows v none s e = elim (Option-cases v.previous) [
  | inl no_previous ↦ inl (ground arith)
  | inr (p, found) ↦ absurd (ground arith)
]
selected-Knows v (some k) s e = elim (Bool-cases (text_eq k v.current.key_id)) [
  | inl is_current ↦ inl (ground arith)
  | inr other ↦ elim (Option-cases v.previous) [
    | inl no_previous ↦ absurd (ground arith)
    | inr (p, found) ↦ elim (Bool-cases (text_eq p.key_id k)) [
      | inl same ↦
          let is_s : p ≡ s = ground arith in
          let named : s.key_id ≡ k =
            ap (λ q. q.key_id) (sym is_s) ∙ (text_eq_iff p.key_id k).0 same in
          inr (ground arith, ground (arith, text_eq_iff k v.current.key_id))
      | inr unknown ↦ absurd (ground arith)
    ]
  ]
]

Selected-cases :
    (c : Selected)
    → ((e : VerifyError) × (c ≡ no_signer e)) ⊎ ((s : GatewayAssertionSigner) × (c ≡ use_signer s))
Selected-cases (no_signer e) = inl (e, refl)
Selected-cases (use_signer s) = inr (s, refl)

module _ (codec : Codec) where
  open codec use {show_u64, parse_u64, hex_encode, hex_decode, hmac}

  -- What was signed with a key that the verifier knows is accepted under the identifier of the key
  -- while the clocks are no further apart than is allowed, if the codes can be read back.
  pub verify_at-sign_at :
      (v : GatewayAssertionVerifier) (s : GatewayAssertionSigner) (timestamp now skew : ℕ)
      (r : Request)
      → Knows v s
      → abs_diff now timestamp ≤ skew
      → parse_u64 (show_u64 timestamp) ≡ some timestamp
      → ((bytes : Text) → hex_decode (hex_encode bytes) ≡ some bytes)
      → verify_at codec v
          (some (sign_at codec s timestamp r).key_id)
          (sign_at codec s timestamp r).timestamp
          (sign_at codec s timestamp r).signature
          now
          skew
          r
        ≡ none
  unfolding verify_at sign_at check_signature
  verify_at-sign_at v s timestamp now skew r known near parsed decoded =
      let code = hmac s.secret (canonical (show_u64 timestamp) r) in
      ground (
        arith,
        select_signer-Knows v s known,
        decoded code,
        text_eq_refl code,
        strip_prefix-append (text "v1=") (hex_encode code),
      )

  check_signature-Matches :
      (s : GatewayAssertionSigner) (timestamp signature : Text) (r : Request)
      → check_signature codec s timestamp signature r ≡ none
      → (encoded : Text) × (signature ≡ text "v1=" ++ encoded)
        × (hex_decode encoded ≡ some (hmac s.secret (canonical timestamp r)))
  unfolding check_signature
  check_signature-Matches s timestamp signature r e =
      elim (Option-cases (strip_prefix (text "v1=") signature)) [
        | inl unsupported ↦ absurd (ground arith)
        | inr (encoded, form) ↦ elim (Option-cases (hex_decode encoded)) [
          | inl unread ↦ absurd (ground arith)
          | inr (provided, found) ↦ (
            encoded,
            append-strip_prefix (text "v1=") signature encoded form,
            ground (arith, text_eq_iff provided (hmac s.secret (canonical timestamp r))),
          )
        ]
      ]

  -- An accepted assertion bears a time within the allowed distance of the clock and, in hex, the code
  -- of its request and time by a signer that the verifier knows.
  pub verify_at_lem :
      (v : GatewayAssertionVerifier) (key_id : Option Text) (timestamp signature : Text)
      (now skew : ℕ) (r : Request)
      → verify_at codec v key_id timestamp signature now skew r ≡ none
      → (s : GatewayAssertionSigner) × (t : ℕ) × (encoded : Text) × Knows v s
        × (parse_u64 timestamp ≡ some t)
        × (abs_diff now t ≤ skew)
        × (signature ≡ text "v1=" ++ encoded)
        × (hex_decode encoded ≡ some (hmac s.secret (canonical timestamp r)))
  unfolding verify_at check_signature
  verify_at_lem v key_id timestamp signature now skew r e =
      elim (Option-cases (parse_u64 timestamp)) [
        | inl unread ↦ absurd (ground arith)
        | inr (t, read) ↦ elim (Bool-cases (ltb skew (abs_diff now t))) [
          | inl far ↦ absurd (ground arith)
          | inr near ↦ elim (Selected-cases (select_signer v key_id)) [
            | inl (refusal, none_chosen) ↦ absurd (ground arith)
            | inr (s, chosen) ↦
                let (encoded, form, code) =
                  check_signature-Matches s timestamp signature r (ground arith) in
                (s, t, encoded, selected-Knows v key_id s chosen, read, ground arith, form, code)
          ]
        ]
      ]
