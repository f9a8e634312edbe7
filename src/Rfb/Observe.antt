-- ===== src/Rfb/Observe.antt =====
-- `ObserveRfb`: the RFB 3.8 handshake, and the records that Observe and takeover let through.
-- A position in the data is written as the rest of the data behind it.
use hermes_fleet.Prelude.{
  ℕ, zero, suc, ◌+◌, ◌*◌, Bool, true, false, not, ◌&&◌, ◌||◌, List, [], ◌∷◌, ◌++◌, length, take,
  drop, if◌then◌else◌, ltb, leb, nat_beq, contains, ◌==◌, nat_eq, list_eq,
}
use hermes_fleet.Prelude.Text.{codes}
use Prim.Native.String.{String}
use hermes_fleet.Rfb.Bytes.{max_message, max_encodings, max_fence_payload, byte_at, be16, be32}

-- The values of `server_stage` and `client_stage`.
pub data Stage : Type 0 where
  version security_types security_choice security_result server_init client_init normal : Stage

abbrev pub is_normal : Stage → Bool
is_normal normal = true
is_normal _ = false

pub record Rfb : Type 0 where
  pub server_stage : Stage
  pub client_stage : Stage
  pub server : List ℕ
  pub client : List ℕ
  pub types : List ℕ
  pub transition_safe : Bool
  pub takeover_partial : Bool

abbrev pub init : Rfb
init = record {
  server_stage = version;
  client_stage = version;
  server = [];
  client = [];
  types = [];
  transition_safe = true;
  takeover_partial = false;
}

-- A method's answer, with the state that it leaves.
pub data Outcome (A : Type 0) : Type 0 where
  ok : A → Rfb → Outcome A
  refused : String → Rfb → Outcome A

abbrev pub is_empty : List ℕ → Bool
is_empty [] = true
is_empty (x ∷ xs) = false

-- `takeover_transition_safe`
unfoldable pub takeover_transition_safe : Rfb → Bool
takeover_transition_safe r =
    r.transition_safe
    && is_empty r.client
    && not r.takeover_partial
    && is_normal r.server_stage
    && is_empty r.server

abbrev pub rfb_version : List ℕ
rfb_version = codes "RFB 003.008" ++ (10 ∷ [])

-- The stages of the loop of `server_bytes`, the last first: each goes on to the next.
server_normal : Rfb → Outcome (Unit {0})
server_normal r = ok tt (record r { server = [] })

at_server_init : Rfb → Outcome (Unit {0})
unfolding server_normal
at_server_init r =
    let name_length = be32 r.server 20 in
    if ltb (length r.server) 24
    then ok tt r
    else if ltb max_message name_length || ltb (length r.server) (24 + name_length)
    then ok tt r
    else server_normal (record r {
      server = drop (24 + name_length) r.server;
      server_stage = normal;
      client_stage = normal;
    })

at_security_result : Rfb → Outcome (Unit {0})
unfolding at_server_init
at_security_result r =
    if ltb (length r.server) 4
    then ok tt r
    else if take 4 r.server == (0 ∷ 0 ∷ 0 ∷ 0 ∷ [])
    then at_server_init (record r {
      server = drop 4 r.server;
      server_stage = server_init;
      client_stage = client_init;
    })
    else refused "RFB security failed" r

at_security_types : Rfb → Outcome (Unit {0})
unfolding at_security_result
at_security_types r =
    let count = byte_at r.server 0 in
    let offered = take count (drop 1 r.server) in
    if ltb (length r.server) 1
    then ok tt r
    else if nat_beq count 0
    then refused "RFB server rejected connection" r
    else if ltb (length r.server) (1 + count)
    then ok tt r
    else if contains 1 offered
    then at_security_result (record r {
      types = offered;
      server = drop (1 + count) r.server;
      server_stage = security_result;
      client_stage = security_choice;
    })
    else refused "Observe requires RFB no-auth security" (record r { types = offered })

at_version : Rfb → Outcome (Unit {0})
unfolding at_security_types
at_version r =
    if ltb (length r.server) 12
    then ok tt r
    else if take 12 r.server == rfb_version
    then at_security_types (record r {
      server = drop 12 r.server;
      server_stage = security_types;
      client_stage = version;
    })
    else refused "unexpected RFB version" r

-- The server's stage is one of the five that it names.
abbrev server_loop : Stage → Rfb → Outcome (Unit {0})
server_loop version r = at_version r
server_loop security_types r = at_security_types r
server_loop security_result r = at_security_result r
server_loop server_init r = at_server_init r
server_loop _ r = server_normal r

unfoldable pub server_bytes : List ℕ → Rfb → Outcome (Unit {0})
unfolding at_version
server_bytes bytes r =
    let r' = record r { server = r.server ++ bytes } in
    if ltb max_message (length r'.server)
    then refused "RFB server handshake exceeds bound" r'
    else server_loop r'.server_stage r'

-- `_record_length`: no record yet, its length, or an exception.
pub data Needed : Type 0 where
  later : Needed
  bytes : ℕ → Needed
  bad : String → Needed

-- `n if available >= n else None`
abbrev pub within : ℕ → List ℕ → Needed
within n d = if leb n (length d) then bytes n else later

unfoldable pub normal_length : List ℕ → Needed
normal_length [] = later
normal_length (kind ∷ d) =
    let all = kind ∷ d in
    if nat_beq kind 0
    then within 20 all
    else if nat_beq kind 2
    then if ltb (length all) 4
      then later
      else if ltb max_encodings (be16 all 2)
      then bad "too many RFB encodings"
      else within (4 + 4 * be16 all 2) all
    else if nat_beq kind 3
    then within 10 all
    else if nat_beq kind 150
    then within 10 all
    else if nat_beq kind 248
    then if ltb (length all) 9
      then later
      else if ltb max_fence_payload (byte_at all 8)
      then bad "RFB fence payload exceeds bound"
      else within (9 + byte_at all 8) all
    else bad "RFB input or unsupported extension in Observe mode"

unfoldable pub record_length : Stage → List ℕ → Needed
unfolding normal_length
record_length version d = within 12 d
record_length security_choice d = within 1 d
record_length client_init d = within 1 d
record_length normal d = normal_length d
record_length _ d = bad "client spoke before RFB server handshake"

-- `_validate_record`: the stage that follows, or an exception.
pub data Validated : Type 0 where
  next : Stage → Validated
  invalid : String → Validated

unfoldable pub validate_record : Stage → List ℕ → Validated
validate_record version rec =
    if rec == rfb_version then next security_choice else invalid "invalid RFB client version"
validate_record security_choice rec =
    if rec == (1 ∷ []) then next client_init else invalid "Observe requires RFB no-auth security"
validate_record client_init rec = next normal
validate_record stage rec =
    if contains (byte_at rec 0) (0 ∷ 2 ∷ 3 ∷ 150 ∷ 248 ∷ [])
    then next stage
    else invalid "RFB input or unsupported extension in Observe mode"

-- What a loop over records ends with: the stage, the bytes of whole records, and the rest.
pub data Split : Type 0 where
  split : Stage → List ℕ → List ℕ → Split
  broken : String → Stage → Split

-- One record, or the end of the loop.
abbrev pub validated : Validated → Stage → (Stage → Split) → Split
validated (invalid e) stage rest = broken e stage
validated (next s) stage rest = rest s

abbrev pub take_record : Needed → Stage → List ℕ → List ℕ → (ℕ → Split) → Split
take_record later stage out d rest = split stage out d
take_record (bad e) stage out d rest = broken e stage
take_record (bytes n) stage out d rest = if ltb (length d) n then split stage out d else rest n

-- The loop of `client_message`; a record has one byte at least, so the length is fuel enough.
unfoldable pub client_loop : ℕ → Stage → List ℕ → List ℕ → Split
unfolding record_length validate_record
client_loop zero stage out d = split stage out d
client_loop (suc fuel) stage out d = take_record (record_length stage d) stage out d λ n.
    validated (validate_record stage (take n d)) stage
      λ s. client_loop fuel s (out ++ take n d) (drop n d)

abbrev pub after_client : Split → Rfb → Outcome (List ℕ)
after_client (split s out rest) r = ok out (record r { client_stage = s; client = rest })
after_client (broken e s) r = refused e (record r { client_stage = s })

unfoldable pub client_message : List ℕ → Rfb → Outcome (List ℕ)
unfolding client_loop
client_message payload r =
    let data_now = r.client ++ payload in
    if is_normal r.client_stage && r.takeover_partial
    then ok [] (record r { client = []; takeover_partial = false; transition_safe = false })
    else if ltb max_message (length data_now)
    then refused "RFB client stream exceeds bound" r
    else after_client (client_loop (suc (length data_now)) r.client_stage [] data_now) r

-- `_takeover_record_length`
unfoldable pub takeover_record_length : List ℕ → Needed
takeover_record_length [] = later
takeover_record_length (kind ∷ d) =
    let all = kind ∷ d in
    if nat_beq kind 0
    then bytes 20
    else if nat_beq kind 2
    then if ltb (length all) 4
      then later
      else if ltb max_encodings (be16 all 2)
      then bad "too many RFB encodings"
      else bytes (4 + 4 * be16 all 2)
    else if nat_beq kind 3 || nat_beq kind 150
    then bytes 10
    else if nat_beq kind 248
    then if ltb (length all) 9
      then later
      else if ltb max_fence_payload (byte_at all 8)
      then bad "RFB fence payload exceeds bound"
      else bytes (9 + byte_at all 8)
    else if nat_beq kind 4
    then bytes 8
    else if nat_beq kind 5
    then bytes 6
    else if nat_beq kind 6
    then if ltb (length all) 8
      then later
      else if ltb max_message (be32 all 4)
      then bad "RFB clipboard exceeds bound"
      else bytes (8 + be32 all 4)
    else bad "untrackable RFB takeover extension"

-- The loop of `track_client_bytes` in the normal stage: frames are skipped, not validated.
unfoldable pub takeover_loop : ℕ → List ℕ → Split
unfolding takeover_record_length
takeover_loop zero d = split normal [] d
takeover_loop (suc fuel) d =
    take_record (takeover_record_length d) normal [] d λ n. takeover_loop fuel (drop n d)

-- Its loop before that stage, by the stage that is reached.
abbrev pub in_normal : Stage → Split → Split → Split
in_normal normal reached held = reached
in_normal _ reached held = held

unfoldable pub handshake_loop : ℕ → Stage → List ℕ → Split
unfolding takeover_loop record_length validate_record
handshake_loop zero stage d = split stage [] d
handshake_loop (suc fuel) stage d =
    let reached = takeover_loop (suc (length d)) d in
    let held = take_record (record_length stage d) stage [] d λ n.
      validated (validate_record stage (take n d)) stage λ s. handshake_loop fuel s (drop n d) in
    in_normal stage reached held

abbrev pub after_tracking : Split → Rfb → Outcome (Unit {0})
after_tracking (split s out rest) r = ok tt (record r {
  client_stage = s;
  client = rest;
  takeover_partial = if is_normal s then not (is_empty rest) else r.takeover_partial;
})
after_tracking (broken e s) r = refused e (record r { client_stage = s })

unfoldable pub track_client_bytes : List ℕ → Rfb → Outcome (Unit {0})
unfolding handshake_loop
track_client_bytes payload r =
    let data_now = r.client ++ payload in
    if ltb max_message (length data_now)
    then refused "RFB client stream exceeds bound" r
    else after_tracking (handshake_loop (suc (length data_now)) r.client_stage data_now) r
