-- ===== src/NativeProtocol/Examples.antt =====
-- Uses of the theorems on native_protocol.py at concrete frames, and tests.
use goodwe_wallbox_sems_home.Prelude.{
  ℕ, ◌≡◌, refl, some, List, [], ◌∷◌, take, drop, replicate, arith, ◌++◌,
}
use goodwe_wallbox_sems_home.Prelude.Value.{nothing, integer, pos}
use goodwe_wallbox_sems_home.NativeProtocol.Frame.{NativeFrame}
use goodwe_wallbox_sems_home.NativeProtocol.Command.{Options, parameter_body, encode_command, zeros}
use goodwe_wallbox_sems_home.NativeProtocol.Decoder.{feed_all, new}
use goodwe_wallbox_sems_home.NativeProtocol.RoundTrip.{envelope, frame-envelope, feed_all-raws}
use goodwe_wallbox_sems_home.NativeProtocol.Commands.{Delivered, encode_command-decoded}

abbrev identity : List ℕ
identity = replicate 22 7

abbrev frame_of : ℕ → List ℕ → NativeFrame
frame_of command body = record {
  command = command;
  sequence = 3;
  identity = identity;
  raw = envelope command body identity 3;
}

abbrev status_request : NativeFrame
status_request = frame_of 1 (parameter_body 0 47 0)

abbrev heartbeat : NativeFrame
heartbeat = frame_of 102 (zeros 38)

-- Two frames in three reads, cut inside the header of the first and across the border.
abbrev reads : List (List ℕ)
reads =
    take 3 status_request.raw
    ∷ (drop 3 status_request.raw ++ take 10 heartbeat.raw)
    ∷ drop 10 heartbeat.raw
    ∷ []

feed_all-raws_example :
    feed_all (new 4096) reads ≡ (some (status_request ∷ heartbeat ∷ []), new 4096)
feed_all-raws_example =
    feed_all-raws 4096 (status_request ∷ heartbeat ∷ []) reads
      (
        record {
          body = parameter_body 0 47 0;
          framed =
              frame-envelope 1 (parameter_body 0 47 0) identity 3 refl (omega arith) (omega arith)
                (omega arith);
          fits = omega arith;
        },
        (
          record {
            body = zeros 38;
            framed =
                frame-envelope 102 (zeros 38) identity 3 refl (omega arith) (omega arith)
                  (omega arith);
            fits = omega arith;
          },
          tt,
        ),
      )
      refl

abbrev options : Options
options = record {
  mode = integer (pos 1);
  tenths_kw = integer (pos 42);
  session_id = 65 ∷ 66 ∷ [];
  minimum_power = nothing;
}

encode_command-decoded_example : Delivered identity 3 (encode_command "power" identity 3 options)
encode_command-decoded_example =
    encode_command-decoded "power" identity 3 options refl (omega arith)
