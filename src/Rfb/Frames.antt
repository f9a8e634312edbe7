-- ===== src/Rfb/Frames.antt =====
-- `client_binary_frame` and `WebSocketClientFrames`. The tests on bits are written by division:
-- `x & 0x80` is `x / 128 % 2`, `x & 0x70` is `x / 16 % 8`, `x & 0x0f` is `x % 16`, `x & 0x7f` is `x % 128`.
use hermes_fleet.Prelude.{
  ℕ, zero, suc, ◌+◌, ◌/◌, ◌%◌, Bool, true, false, not, ◌&&◌, ◌||◌, List, [], ◌∷◌, ◌++◌, length,
  take, drop, if◌then◌else◌, ltb, leb, nat_beq,
}
use Prim.Native.String.{String}
use hermes_fleet.Rfb.Bytes.{max_message, byte_at, be16, be64, pack16, pack64, mask_from}

-- The frame, or the error; `mask` is `os.urandom(4)`.
pub data Encoded : Type 0 where
  frame : List ℕ → Encoded
  too_long : Encoded

unfoldable pub frame_head : ℕ → List ℕ
frame_head size =
    if ltb size 126
    then 0x82 ∷ (128 + size) ∷ []
    else if leb size 65535
    then 0x82 ∷ 0xfe ∷ pack16 size
    else 0x82 ∷ 0xff ∷ pack64 size

unfoldable pub client_binary_frame : List ℕ → List ℕ → Encoded
unfolding frame_head
client_binary_frame mask payload =
    if ltb max_message (length payload)
    then too_long
    else frame (frame_head (length payload) ++ (mask ++ mask_from mask 0 payload))

pub record Frames : Type 0 where
  pub masked : Bool
  pub buffer : List ℕ
  pub fragment : List ℕ
  pub fragmented : Bool

abbrev pub init : Bool → Frames
init masked = record { masked = masked; buffer = []; fragment = []; fragmented = false }

pub data Message : Type 0 where
  control : List ℕ → Message
  binary : List ℕ → Message

-- One turn of the loop of `feed`: it wants more bytes, or raises, or goes on with what it appended.
pub data Turn : Type 0 where
  waits : Turn
  raises : String → Frames → Turn
  goes : Frames → List Message → Turn

abbrev is_empty : List ℕ → Bool
is_empty [] = true
is_empty (x ∷ xs) = false

-- `transition_safe`
unfoldable pub transition_safe : Frames → Bool
transition_safe w = is_empty w.buffer && is_empty w.fragment && not w.fragmented

-- The part on data frames, after the fragment has been extended.
unfoldable pub finish_data : Bool → Frames → Turn
finish_data fin w =
    if ltb max_message (length w.fragment)
    then raises "WebSocket message exceeds bound" w
    else if fin
    then goes (record w { fragment = [] }) (binary w.fragment ∷ [])
    else goes w []

unfoldable pub extend_fragment : Bool → List ℕ → Frames → Turn
unfolding finish_data
extend_fragment fin payload w =
    finish_data fin (record w { fragment = w.fragment ++ payload; fragmented = not fin })

unfoldable pub data_frame : Bool → ℕ → List ℕ → Frames → Turn
unfolding extend_fragment
data_frame fin opcode payload w =
    if nat_beq opcode 2
    then if w.fragmented
      then raises "new message during fragment" w
      else extend_fragment fin payload w
    else if nat_beq opcode 0
    then if w.fragmented then extend_fragment fin payload w else raises "unexpected continuation" w
    else raises "text or reserved WebSocket data is forbidden" w

unfoldable pub control_frame : Bool → ℕ → ℕ → List ℕ → Frames → Turn
control_frame fin opcode size raw w =
    if not fin || ltb 125 size
    then raises "invalid WebSocket control frame" w
    else if nat_beq opcode 8 || nat_beq opcode 9 || nat_beq opcode 10
    then goes w (control raw ∷ [])
    else raises "reserved WebSocket control frame" w

-- The frame at the head of the buffer, whose payload begins behind `pos` bytes and the mask.
unfoldable pub take_frame : Bool → ℕ → ℕ → ℕ → Frames → Turn
unfolding data_frame control_frame
take_frame fin opcode size pos w =
    let mask_length = if w.masked then 4 else 0 in
    let end = pos + mask_length + size in
    let raw = take end w.buffer in
    let body = take size (drop (pos + mask_length) w.buffer) in
    let payload = if w.masked then mask_from (take 4 (drop pos w.buffer)) 0 body else body in
    let rest = record w { buffer = drop end w.buffer } in
    if leb 8 opcode
    then control_frame fin opcode size raw rest
    else data_frame fin opcode payload rest

-- The test on the length, and on the bytes that are there.
unfoldable pub sized_frame : Bool → ℕ → ℕ → ℕ → Frames → Turn
unfolding take_frame
sized_frame fin opcode size pos w =
    let mask_length = if w.masked then 4 else 0 in
    if ltb max_message size
    then raises "WebSocket frame exceeds bound" w
    else if ltb (length w.buffer) (pos + mask_length + size)
    then waits
    else take_frame fin opcode size pos w

unfoldable pub extended_frame : Bool → ℕ → ℕ → Frames → Turn
unfolding sized_frame
extended_frame fin opcode size w =
    if nat_beq size 126
    then if ltb (length w.buffer) 4 then waits else sized_frame fin opcode (be16 w.buffer 2) 4 w
    else if nat_beq size 127
    then if ltb (length w.buffer) 10
      then waits
      else if leb 9223372036854775808 (be64 w.buffer 2)
      then raises "invalid WebSocket length" w
      else sized_frame fin opcode (be64 w.buffer 2) 10 w
    else sized_frame fin opcode size 2 w

abbrev pub same_bool : Bool → Bool → Bool
same_bool true b = b
same_bool false b = not b

unfoldable pub turn : Frames → Turn
unfolding extended_frame
turn w =
    let first = byte_at w.buffer 0 in
    let second = byte_at w.buffer 1 in
    if ltb (length w.buffer) 2
    then waits
    else if not (nat_beq (first / 16 % 8) 0)
        || not (same_bool (nat_beq (second / 128 % 2) 1) w.masked)
    then raises "invalid WebSocket frame direction" w
    else extended_frame (nat_beq (first / 128 % 2) 1) (first % 16) (second % 128) w

-- What a call of `feed` does: its messages, or its exception, with the state that it leaves.
pub data Fed : Type 0 where
  fed : List Message → Frames → Fed
  refused : String → Frames → Fed
  out_of_fuel : Fed

abbrev pub continue : Turn → Frames → List Message → (Frames → List Message → Fed) → Fed
continue waits w out rest = fed out w
continue (raises e w') w out rest = refused e w'
continue (goes w' ms) w out rest = rest w' (out ++ ms)

unfoldable pub feed_loop : ℕ → Frames → List Message → Fed
feed_loop zero w out = out_of_fuel
feed_loop (suc fuel) w out = continue (turn w) w out (feed_loop fuel)

-- Each turn takes two bytes at least, so the fuel is never used up.
unfoldable pub feed : List ℕ → Frames → Fed
unfolding feed_loop turn
feed bytes w =
    let w' = record w { buffer = w.buffer ++ bytes } in
    if ltb (max_message + 14) (length w'.buffer)
    then refused "WebSocket frame exceeds bound" w'
    else feed_loop (suc (length w'.buffer)) w' []
