-- ===== src/KeySchedule/Separation.antt =====
-- The inputs of the key schedule of impl/go/keyschedule.go tell the derived secrets apart.
use npamp_protocol.KeySchedule.{
  KeyDirection, client_to_server, server_to_client, direction_octet, label_prefix, hkdf_info,
  traffic_context,
}
use npamp_protocol.Prelude.{ℕ, ◌%◌, ◌^◌, ◌<◌, ◌≡◌, refl, sym, ap, ◌∙◌, arith}
use npamp_protocol.Prelude.{List, ◌∷◌, ◌++◌, length, take, drop, get_or, take-append, drop-append}
use npamp_protocol.Prelude.Bytes.{put_be, get_be, slice, get_be-put_be}

direction_octet-injective : (d d' : KeyDirection) → direction_octet d ≡ direction_octet d' → d ≡ d'
direction_octet-injective client_to_server client_to_server h = refl
direction_octet-injective client_to_server server_to_client h = absurd (omega arith)
direction_octet-injective server_to_client client_to_server h = absurd (omega arith)
direction_octet-injective server_to_client server_to_client h = refl

module _ (d : KeyDirection) (epoch suite channel : ℕ) where
  epoch_in : epoch < 2 ^ 64 → get_be (slice (traffic_context d epoch suite channel) 1 9) ≡ epoch
  unfolding traffic_context put_be
  epoch_in h = get_be-put_be 8 epoch h

  suite_in : suite < 2 ^ 16 → get_be (slice (traffic_context d epoch suite channel) 9 11) ≡ suite
  unfolding traffic_context put_be
  suite_in h = get_be-put_be 2 suite h

  channel_in :
      channel < 2 ^ 16 → get_be (slice (traffic_context d epoch suite channel) 11 13) ≡ channel
  unfolding traffic_context put_be
  channel_in h = get_be-put_be 2 channel h

-- Directions, epochs, suites and channels within their widths are told apart by the context of the
-- traffic secret.
traffic_context-injective :
    (d d' : KeyDirection) (epoch epoch' suite suite' channel channel' : ℕ)
    → epoch < 2 ^ 64
    → epoch' < 2 ^ 64
    → suite < 2 ^ 16
    → suite' < 2 ^ 16
    → channel < 2 ^ 16
    → channel' < 2 ^ 16
    → traffic_context d epoch suite channel ≡ traffic_context d' epoch' suite' channel'
    → (d ≡ d') × (epoch ≡ epoch') × (suite ≡ suite') × (channel ≡ channel')
unfolding traffic_context
traffic_context-injective d d' epoch epoch' suite suite' channel channel' e e' s s' c c' h = (
  direction_octet-injective d d' (ap (λ (xs : List ℕ). get_or xs 0 0) h),
  sym (epoch_in d epoch suite channel e)
      ∙ ap (λ (xs : List ℕ). get_be (slice xs 1 9)) h
      ∙ epoch_in d' epoch' suite' channel' e',
  sym (suite_in d epoch suite channel s)
      ∙ ap (λ (xs : List ℕ). get_be (slice xs 9 11)) h
      ∙ suite_in d' epoch' suite' channel' s',
  sym (channel_in d epoch suite channel c)
      ∙ ap (λ (xs : List ℕ). get_be (slice xs 11 13)) h
      ∙ channel_in d' epoch' suite' channel' c',
)

-- The part of an info after the length: a counted label and a counted context.
counted : List ℕ → List ℕ → List ℕ
counted full context = length full % 256 ∷ (full ++ (length context % 256 ∷ context))

counted-injective :
    (full full' context context' : List ℕ)
    → length full < 256
    → length full' < 256
    → counted full context ≡ counted full' context'
    → (full ≡ full') × (context ≡ context')
unfolding counted
counted-injective full full' context context' p p' h =
    let same : length full ≡ length full' = omega (arith, ap (λ (xs : List ℕ). get_or xs 0 0) h) in
    (
      sym (take-append full (length context % 256 ∷ context))
          ∙ (λ i. take (same i) (drop 1 (h i)))
          ∙ take-append full' (length context' % 256 ∷ context'),
      ap (drop 1) (sym (drop-append full (length context % 256 ∷ context)))
          ∙ (λ i. drop 1 (drop (same i) (drop 1 (h i))))
          ∙ ap (drop 1) (drop-append full' (length context' % 256 ∷ context')),
    )

-- Two HKDF infos of labels of at most 248 octets and of lengths of 16 bits are the same only if the
-- label, the context and the length are.
hkdf_info-injective :
    (label label' context context' : List ℕ) (len len' : ℕ)
    → length label < 249
    → length label' < 249
    → len < 2 ^ 16
    → len' < 2 ^ 16
    → hkdf_info label context len ≡ hkdf_info label' context' len'
    → (label ≡ label') × (context ≡ context') × (len ≡ len')
unfolding hkdf_info counted put_be
hkdf_info-injective label label' context context' len len' p p' q q' h =
    let parts =
      counted-injective (label_prefix ++ label) (label_prefix ++ label') context context'
        (omega arith) (omega arith) (ap (drop 2) h) in
    let number = ap (λ (xs : List ℕ). get_be (take 2 xs)) h in
    (
      ap (drop 7) parts.0,
      parts.1,
      omega (
        arith,
        get_be-put_be 2 (len % 2 ^ 16) (omega arith),
        get_be-put_be 2 (len' % 2 ^ 16) (omega arith),
        number,
      ),
    )

-- Two HKDF infos of labels of at most 248 octets, lengths of 16 bits and the contexts of traffic
-- secrets, with epochs, suites and channels within their widths, are the same only if the label, the
-- length, the direction, the epoch, the suite and the channel are.
pub hkdf_info-traffic_context :
    (label label' : List ℕ) (len len' : ℕ) (d d' : KeyDirection)
    (epoch epoch' suite suite' channel channel' : ℕ)
    → (length label < 249) × (length label' < 249)
    → (len < 2 ^ 16) × (len' < 2 ^ 16)
    → (epoch < 2 ^ 64) × (epoch' < 2 ^ 64)
    → (suite < 2 ^ 16) × (suite' < 2 ^ 16)
    → (channel < 2 ^ 16) × (channel' < 2 ^ 16)
    → hkdf_info label (traffic_context d epoch suite channel) len
      ≡ hkdf_info label' (traffic_context d' epoch' suite' channel') len'
    → (label ≡ label')
      × (len ≡ len')
      × (d ≡ d')
      × (epoch ≡ epoch')
      × (suite ≡ suite')
      × (channel ≡ channel')
hkdf_info-traffic_context label label' len len' d d' epoch epoch' suite suite' channel channel' l n
      e s c h =
    let info = hkdf_info-injective label label' _ _ len len' l.0 l.1 n.0 n.1 h in
    let context =
      traffic_context-injective d d' epoch epoch' suite suite' channel channel' e.0 e.1 s.0 s.1 c.0
        c.1 info.1 in
    (info.0, info.2, context.0, context.1, context.2, context.3)
