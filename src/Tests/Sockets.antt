-- ===== src/Tests/Sockets.antt =====
-- Runs of SocketHandler on a small packet and a small message.
use undying_terminal.Prelude.{◌≡◌, refl, sym, some, List, [], ◌∷◌, ◌++◌, Bytes, arith, false, true}
use undying_terminal.Packet.{Packet, serialize}
use undying_terminal.SocketHandler.{
  Turn, turn, SendTurn, takes, finished, done, write_packet, read_packet, Coding, read_proto,
  write_proto,
}
use undying_terminal.SocketHandler.Reading.{arrived}
use undying_terminal.SocketHandler.Sending.{AllTake, packet_travels}
use undying_terminal.SocketHandler.Messages.{IsCoding, message_travels}

abbrev keep_alive : Packet
keep_alive = record { encrypted = false; header = 3; payload = 7 ∷ [] }

-- One byte a round.
abbrev sending_turns : List SendTurn
sending_turns =
    takes 0 0
    ∷ takes 3 0
    ∷ takes 0 0
    ∷ takes 0 0
    ∷ takes 0 0
    ∷ takes 0 0
    ∷ takes 0 0
    ∷ takes 0 0
    ∷ takes 0 0
    ∷ takes 0 0
    ∷ []

abbrev turns : List Turn
turns =
    turn [] 0 9
    ∷ turn (1 ∷ []) 40 0
    ∷ turn [] 0 0
    ∷ turn [] 0 9
    ∷ turn [] 0 9
    ∷ turn [] 0 9
    ∷ turn [] 0 9
    ∷ turn [] 0 9
    ∷ turn [] 0 9
    ∷ turn [] 0 9
    ∷ []

AllTake-sending_turns : AllTake sending_turns
AllTake-sending_turns = ground arith

packet_travels_example :
    (rest : List SendTurn) × (left used : List Turn) × ((write_packet keep_alive sending_turns).1
      ≡ finished rest)
    × (turns ≡ used ++ left)
    × (read_packet (record {
      pending = (write_packet keep_alive sending_turns).0 ++ (5 ∷ []);
      turns = turns;
    })
        ≡ done keep_alive (record { pending = (5 ∷ []) ++ arrived used; turns = left }))
unfolding serialize
packet_travels_example =
    packet_travels keep_alive (5 ∷ []) sending_turns turns (omega arith) (omega arith)
      AllTake-sending_turns (omega arith) tt

-- A message is its bytes.
abbrev toy_coding : Coding Bytes
toy_coding = record { to_string = λ m. some m; of_string = λ s. some s; empty = [] }

toy_coding-IsCoding : IsCoding toy_coding
toy_coding-IsCoding = record { round_trip = λ m s e. sym e; of_nothing = refl }

message_travels_example :
    (rest : List SendTurn) × (left used : List Turn) × ((write_proto toy_coding
        (4 ∷ 5 ∷ [])
        false
        sending_turns).1
      ≡ finished rest)
    × (turns ≡ used ++ left)
    × (read_proto toy_coding true (record {
      pending = (write_proto toy_coding (4 ∷ 5 ∷ []) false sending_turns).0 ++ (6 ∷ []);
      turns = turns;
    })
        ≡ done (4 ∷ 5 ∷ []) (record { pending = (6 ∷ []) ++ arrived used; turns = left }))
message_travels_example =
    message_travels toy_coding toy_coding-IsCoding (4 ∷ 5 ∷ []) (4 ∷ 5 ∷ []) refl (omega arith)
      false true (6 ∷ []) sending_turns turns (omega arith) AllTake-sending_turns (omega arith) tt
