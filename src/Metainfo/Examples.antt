-- ===== src/Metainfo/Examples.antt =====
-- The theorems on the metadata of a torrent at concrete streams.
use hexmagnet.Prelude.{
  pos, ◌≡◌, ◌≤◌, refl, List, [], ◌∷◌, ◌++◌, ◌*◌, length, length-append, Option, none, some, arith,
}
use hexmagnet.Metainfo.{Bytes, got, ExtDict, read_all_pieces, zeros, piece_size}
use hexmagnet.Metainfo.Pieces.{HasEnded, read_all_pieces-HasEnded, length-zeros}
use hexmagnet.Metainfo.Placing.{Placed, read_all_pieces-Placed}
use hexmagnet.Metainfo.Messages.{Part, message, body, read_um_message-message}
use hexmagnet.Metainfo.Honest.{IsHonest, sent, payloads, read_all_pieces-sent}

-- A dictionary is a byte here, the number of a piece of data.
abbrev decode : Bytes → Option (ExtDict × Bytes)
decode [] = none
decode (x ∷ rest) = some (record { msg_type = pos 1; piece = pos x }, rest)

-- A full piece, and two bytes more.
abbrev parts : List Part
parts =
    record { header = 0 ∷ []; payload = zeros piece_size }
    ∷ record { header = 1 ∷ []; payload = 7 ∷ 8 ∷ [] }
    ∷ []

parts-IsHonest : IsHonest decode 0 parts
parts-IsHonest = (
  record {
    decoded = refl;
    short = omega (arith, length-zeros piece_size);
    some_bytes = omega (arith, length-zeros piece_size);
  },
  (
    length-zeros piece_size,
    (record { decoded = refl; short = omega arith; some_bytes = omega arith }, omega arith),
  ),
)

parts_small : length (payloads parts) ≤ 10 * 1024 * 1024
parts_small = omega (arith, length-append (zeros piece_size) (7 ∷ 8 ∷ []), length-zeros piece_size)

read_all_pieces-sent_example :
    read_all_pieces decode (sent parts) (length (payloads parts)) ≡ got (payloads parts) []
read_all_pieces-sent_example = read_all_pieces-sent decode parts parts-IsHonest parts_small

-- Piece 200 of metadata of one byte.
abbrev far : Part
far = record { header = 200 ∷ []; payload = 5 ∷ [] }

read_all_pieces-HasEnded_example : HasEnded 1 (read_all_pieces decode (message (body far) ++ []) 1)
read_all_pieces-HasEnded_example = read_all_pieces-HasEnded decode (message (body far) ++ []) 1

read_all_pieces-Placed_example :
    Placed decode
      (message (body far) ++ [])
      []
      (5 ∷ [])
      (record { msg_type = pos 1; piece = pos 200 })
      1
read_all_pieces-Placed_example =
    read_all_pieces-Placed decode (message (body far) ++ []) [] (body far) (5 ∷ [])
      (record { msg_type = pos 1; piece = pos 200 }) 1
      (read_um_message-message far [] (omega arith)) refl refl (omega arith) refl (omega arith)
