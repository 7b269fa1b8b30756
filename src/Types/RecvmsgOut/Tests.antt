-- ===== src/Types/RecvmsgOut/Tests.antt =====
-- The properties of received messages at concrete inputs, in little-endian order.
use ququmatz.Base.{◌+◌, ◌*◌, ◌/◌, ◌%◌, ◌≡◌, some, [], ◌∷◌, arith}
use ququmatz.Types.RecvmsgOut.{ByteOrder, Header, parse}
use ququmatz.Types.RecvmsgOut.Frame.{IsInverse, frame, parse-frame}

abbrev little : ByteOrder
little = record {
  from_ne_bytes = λ a b c d. a + 256 * b + 65536 * c + 16777216 * d;
  to_ne_bytes = λ n. (n % 256, n / 256 % 256, n / 65536 % 256, n / 16777216);
}

little-IsInverse : IsInverse little
little-IsInverse = record { decoded = λ n h. omega arith }

-- The sender's address is longer than the room for it, and there are no control data.
abbrev header : Header
header = record { namelen = 28; controllen = 0; payloadlen = 3; flags = 0 }

parse-frame_example :
    parse little (frame little header (1 ∷ 2 ∷ []) (7 ∷ []) (104 ∷ 105 ∷ 33 ∷ [])) 2 1
    ≡ some
        (record { header = header; name = 1 ∷ 2 ∷ []; control = []; payload = 104 ∷ 105 ∷ 33 ∷ [] })
parse-frame_example =
    parse-frame little little-IsInverse header (1 ∷ 2 ∷ []) (7 ∷ []) (104 ∷ 105 ∷ 33 ∷ [])
      (omega arith) (omega arith) (omega arith) (omega arith) (omega arith) (omega arith)
