-- ===== src/Rfb/Examples.antt =====
-- The filter at work on a request for an update and the first half of another, and a frame of that half.
use hermes_fleet.Prelude.{ℕ, ◌≡◌, refl, nat_eq, List, [], ◌∷◌, ◌++◌}
use hermes_fleet.Prelude.{All, arith, ◌≢◌}
use hermes_fleet.Rfb.Bytes.{IsByte}
use hermes_fleet.Rfb.Frames.{client_binary_frame, frame, feed, fed, binary, out_of_fuel}
use hermes_fleet.Rfb.RoundTrip.{at_start, frame_round_trip}
use hermes_fleet.Rfb.Cutting.{feed_returns}
use hermes_fleet.Rfb.Observe.{
  Rfb, init, normal, ok, client_message, client_loop, record_length, normal_length, validate_record,
}
use hermes_fleet.Rfb.Display.{DisplayRecords, observe_display_only}

abbrev connected : Rfb
connected = record init { client_stage = normal; server_stage = normal }

abbrev request : List ℕ
request = 3 ∷ 0 ∷ 0 ∷ 0 ∷ 0 ∷ 0 ∷ 0 ∷ 9 ∷ 0 ∷ 9 ∷ []

abbrev half : List ℕ
half = 3 ∷ 1 ∷ 0 ∷ 0 ∷ []

passed :
    client_message (request ++ half) connected ≡ ok request (record connected { client = half })
unfolding client_message client_loop record_length normal_length validate_record
passed = refl

observe_display_only_example : DisplayRecords request × (normal ≡ normal)
observe_display_only_example =
    observe_display_only (request ++ half) connected request (record connected { client = half })
      refl passed

abbrev key : List ℕ
key = 1 ∷ 2 ∷ 3 ∷ 250 ∷ []

key_bytes : All IsByte key
key_bytes = (omega arith, (omega arith, (omega arith, (omega arith, tt))))

request_bytes : All IsByte half
request_bytes = (omega arith, (omega arith, (omega arith, (omega arith, tt))))

frame_round_trip_example :
    (f : List ℕ) × (client_binary_frame key half ≡ frame f)
    × (feed f (at_start []) ≡ fed (binary half ∷ []) (at_start []))
frame_round_trip_example = frame_round_trip key half refl key_bytes request_bytes (omega arith)

feed_returns_example : feed (0x82 ∷ []) (at_start []) ≢ out_of_fuel
feed_returns_example = feed_returns (0x82 ∷ []) (at_start [])
