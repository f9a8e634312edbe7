-- ===== src/Rfb/RoundTrip.antt =====
-- What `client_binary_frame` writes, `WebSocketClientFrames.feed` reads back.
use mathlib.Core.Path.{subst}
use mathlib.Core.List.{append_assoc}
use hermes_fleet.Prelude.{
  ℕ, zero, suc, ◌+◌, ◌*◌, ◌/◌, ◌%◌, ◌≡◌, ◌≤◌, ◌<◌, refl, sym, ap, ◌∙◌, true, false, List, [], ◌∷◌,
  ◌++◌, All, arith, if_cases, ltb, leb, nat_beq, length, take, drop, length-append, drop-append,
  take-append,
}
use hermes_fleet.Rfb.Bytes.{
  max_message, byte_at, be16, be32, be64, pack16, pack64, mask_from, mask_twice, length-mask_from,
  IsByte,
}
use hermes_fleet.Rfb.Frames.{
  frame, frame_head, client_binary_frame, Frames, Message, binary, waits, goes, finish_data,
  extend_fragment, data_frame, take_frame, sized_frame, extended_frame, turn, fed, feed_loop, feed,
}

drop_all : (xs : List ℕ) (n : ℕ) → length xs ≤ n → drop n xs ≡ []
drop_all [] zero h = refl
drop_all [] (suc n) h = refl
drop_all (x ∷ xs) zero h = absurd (omega arith)
drop_all (x ∷ xs) (suc n) h = drop_all xs n (omega arith)

take_all : (xs : List ℕ) → take (length xs) xs ≡ xs
take_all [] = refl
take_all (x ∷ xs) = ap (λ r. x ∷ r) (take_all xs)

-- A decoder of masked frames, at the start of a message, with this buffer.
abbrev pub at_start : List ℕ → Frames
at_start buffer = record { masked = true; buffer = buffer; fragment = []; fragmented = false }

module _ (head mask body : List ℕ) (four : length mask ≡ 4)
    (short : length body ≤ max_message) where
  abbrev buffer : List ℕ
  buffer = head ++ (mask ++ body)

  regrouped : (head ++ mask) ++ body ≡ buffer
  regrouped = append_assoc head mask body

  mask_at : take 4 (drop (length head) buffer) ≡ mask
  mask_at =
      ap (take 4) (drop-append head (mask ++ body))
      ∙ ap (λ k. take k (mask ++ body)) (sym four)
      ∙ take-append mask body

  body_at : drop (length head + 4) buffer ≡ body
  body_at =
      let far : length head + 4 ≡ length (head ++ mask) =
        omega (arith, length-append head mask, four) in
      ap (λ k. drop k buffer) far
      ∙ ap (drop (length (head ++ mask))) (sym regrouped)
      ∙ drop-append (head ++ mask) body

  whole_length : length buffer ≡ length head + 4 + length body
  whole_length = omega (arith, length-append head (mask ++ body), length-append mask body, four)

  rest_at : drop (length head + 4 + length body) buffer ≡ []
  rest_at = drop_all buffer (length head + 4 + length body) (omega (arith, whole_length))

  -- A final binary frame with this head is one message, and leaves the decoder at the start of the next.
  one_frame :
      sized_frame true 2 (length body) (length head) (at_start buffer)
      ≡ goes (at_start []) (binary (mask_from mask 0 body) ∷ [])
  unfolding sized_frame take_frame data_frame extend_fragment finish_data
  one_frame =
      let bounded : ltb max_message (length body) ≡ false = ground (arith, short) in
      let there : ltb (length buffer) (length head + 4 + length body) ≡ false =
        ground (arith, whole_length) in
      let unmasked : ltb max_message (length (mask_from mask 0 body)) ≡ false =
        ground (arith, short, length-mask_from mask 0 body) in
      rw (bounded, there, mask_at, body_at, take_all body, rest_at, unmasked) refl

module _ (mask body : List ℕ) (four : length mask ≡ 4) (short : length body ≤ max_message) where
  abbrev framed : List ℕ
  framed = frame_head (length body) ++ (mask ++ body)

  abbrev Passes : List ℕ → Type 0
  Passes head =
      turn (at_start (head ++ (mask ++ body)))
      ≡ goes (at_start []) (binary (mask_from mask 0 body) ∷ [])

  small_turn : length body < 126 → Passes (0x82 ∷ (128 + length body) ∷ [])
  unfolding turn extended_frame
  small_turn h =
      let head : List ℕ = 0x82 ∷ (128 + length body) ∷ [] in
      let there : ltb (length (head ++ (mask ++ body))) 2 ≡ false = ground arith in
      let is_masked : nat_beq ((128 + length body) / 128 % 2) 1 ≡ true = ground arith in
      let size : (128 + length body) % 128 ≡ length body = omega arith in
      let not_16 : nat_beq (length body) 126 ≡ false = ground arith in
      let not_64 : nat_beq (length body) 127 ≡ false = ground arith in
      rw (there, is_masked, size, not_16, not_64) (one_frame head mask body four short)

  medium_turn : length body ≤ 65535 → Passes (0x82 ∷ 0xfe ∷ pack16 (length body))
  unfolding turn extended_frame pack16 be16
  medium_turn h =
      let head : List ℕ = 0x82 ∷ 0xfe ∷ (length body / 256 % 256) ∷ (length body % 256) ∷ [] in
      let there : ltb (length (head ++ (mask ++ body))) 2 ≡ false = ground arith in
      let there_16 : ltb (length (head ++ (mask ++ body))) 4 ≡ false = ground arith in
      let size : length body / 256 % 256 * 256 + length body % 256 ≡ length body = omega arith in
      rw (there, there_16, size) (one_frame head mask body four short)

  large_size : (n : ℕ) → n ≤ max_message → be64 (0x82 ∷ 0xff ∷ pack64 n ++ (mask ++ body)) 2 ≡ n
  unfolding be64 be32 be16 pack64
  large_size n h =
      let high : n / 16777216 ≡ 0 = omega arith in
      let top : n / 72057594037927936 ≡ 0 = omega arith in
      let top_1 : n / 281474976710656 ≡ 0 = omega arith in
      let top_2 : n / 1099511627776 ≡ 0 = omega arith in
      let top_3 : n / 4294967296 ≡ 0 = omega arith in
      let low : n / 65536 % 256 * 65536 + (n / 256 % 256 * 256 + n % 256) ≡ n = omega (arith, h) in
      rw (high, top, top_1, top_2, top_3) (omega (arith, low))

  large_turn : Passes (0x82 ∷ 0xff ∷ pack64 (length body))
  unfolding turn extended_frame pack64
  large_turn =
      let head : List ℕ = 0x82 ∷ 0xff ∷ pack64 (length body) in
      let there : ltb (length (head ++ (mask ++ body))) 2 ≡ false = ground arith in
      let there_64 : ltb (length (head ++ (mask ++ body))) 10 ≡ false = ground arith in
      let size : be64 (head ++ (mask ++ body)) 2 ≡ length body = large_size (length body) short in
      let fits : leb 9223372036854775808 (length body) ≡ false = ground (arith, short) in
      rw (there, there_64, size, fits) (one_frame head mask body four short)

  -- The head of any size.
  abbrev Fits : List ℕ → Type 0
  Fits head = Passes head × (2 ≤ length head) × (length head ≤ 10)

  head-Fits : Fits (frame_head (length body))
  unfolding frame_head pack16 pack64
  head-Fits =
      if_cases Fits (ltb (length body) 126) _ _
        (λ t. (small_turn (ground arith), omega arith, omega arith))
        λ _.
          if_cases Fits (leb (length body) 65535) _ _
            (λ t. (medium_turn (ground arith), omega arith, omega arith))
            (λ t. (large_turn, omega arith, omega arith))

  second_turn : turn (at_start []) ≡ waits
  unfolding turn
  second_turn = refl

  two_turns :
      (fuel : ℕ) (w : Frames) (out : List Message)
      → turn w ≡ goes (at_start []) out
      → 2 ≤ fuel
      → feed_loop fuel w [] ≡ fed out (at_start [])
  unfolding feed_loop
  two_turns zero w out h few = absurd (omega arith)
  two_turns (suc zero) w out h few = absurd (omega arith)
  two_turns (suc (suc fuel)) w out h few = rw (h, second_turn) refl

  fed_back : feed framed (at_start []) ≡ fed (binary (mask_from mask 0 body) ∷ []) (at_start [])
  unfolding feed
  fed_back =
      let f = head-Fits in
      let whole : length framed ≡ length (frame_head (length body)) + 4 + length body =
        whole_length (frame_head (length body)) mask body four short in
      let small : ltb (max_message + 14) (length framed) ≡ false =
        ground (arith, whole, f.2, short) in
      rw small (two_turns (suc (length framed)) (at_start framed) _ f.0 (omega (arith, whole, f.1)))

key_at :
    (mask : List ℕ) (j : ℕ) → All IsByte mask → j < 4 → length mask ≡ 4 → IsByte (byte_at mask j)
key_at mask j keys h four = byte_within mask j keys (omega arith)
  where
    byte_within : (xs : List ℕ) (i : ℕ) → All IsByte xs → i < length xs → IsByte (byte_at xs i)
    byte_within [] i k h = absurd (omega arith)
    byte_within (x ∷ xs) zero k h = k.0
    byte_within (x ∷ xs) (suc i) k h = byte_within xs i k.1 (omega arith)

-- A payload of at most a mebibyte that is framed with any key of four bytes and fed to the decoder, at the
-- start of a message, comes back as one binary message with its bytes unchanged, and nothing is left over.
pub frame_round_trip :
    (mask payload : List ℕ)
    → length mask ≡ 4
    → All IsByte mask
    → All IsByte payload
    → length payload ≤ max_message
    → (f : List ℕ) × (client_binary_frame mask payload ≡ frame f)
      × (feed f (at_start []) ≡ fed (binary payload ∷ []) (at_start []))
unfolding client_binary_frame
frame_round_trip mask payload four keys bytes short =
    let body = mask_from mask 0 payload in
    let same = length-mask_from mask 0 payload in
    let fits : ltb max_message (length payload) ≡ false = ground (arith, short) in
    let back = fed_back mask body four (omega (arith, same, short)) in
    let plain : mask_from mask 0 body ≡ payload =
      mask_twice mask 0 payload (λ j h. key_at mask j keys h four) bytes in
    (
      frame_head (length payload) ++ (mask ++ body),
      rw fits refl,
      subst
          (λ n.
            feed (frame_head n ++ (mask ++ body)) (at_start [])
            ≡ fed (binary payload ∷ []) (at_start []))
          same
          (subst
            (λ p.
              feed (framed mask body four (omega (arith, same, short))) (at_start [])
              ≡ fed (binary p ∷ []) (at_start []))
            plain back),
    )
