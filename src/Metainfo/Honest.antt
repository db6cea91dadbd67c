-- ===== src/Metainfo/Honest.antt =====
-- internal/protocol/metainfo/metainforequester/requester.go: what is read from a peer that sends the
-- pieces that it was asked for.
use mathlib.Core.List.{append_assoc, append-nil}
use hexmagnet.Prelude.{
  pos, ℕ, zero, suc, ◌+◌, ◌*◌, ◌≤◌, ◌<◌, ◌≡◌, refl, sym, ap, ◌∙◌, false, ltb, lt→ltb, List, [], ◌∷◌,
  ◌++◌, length, length-append, length-drop, drop, Option, some, arith,
}
use hexmagnet.Metainfo.{
  Bytes, got, max_metadata_size, piece_size, ExtDict, step_with, after_step, read_loop, zeros,
  read_all_pieces, uint_to_big_endian4,
}
use hexmagnet.Metainfo.Pieces.{length-zeros}
use hexmagnet.Metainfo.Messages.{
  message, length-uint, Part, body, read_um_message-message, take_piece-next,
}

-- What the peer sends for some pieces, and the metadata that they make up.
abbrev pub sent : List Part → Bytes
sent [] = []
sent (p ∷ ps) = message (body p) ++ sent ps

abbrev pub payloads : List Part → Bytes
payloads [] = []
payloads (p ∷ ps) = p.payload ++ payloads ps

length-le-sent : (ps : List Part) → length ps ≤ length (sent ps)
length-le-sent [] = omega arith
length-le-sent (p ∷ ps) = omega (
  arith,
  length-le-sent ps,
  length-append (message (body p)) (sent ps),
  length-append (uint_to_big_endian4 (length (body p))) (body p),
  length-uint (length (body p)),
)

module _ (decode : Bytes → Option (ExtDict × Bytes)) where
  -- A message for piece `k` that is not too long, with the piece in it.
  pub record IsPiece (k : ℕ) (p : Part) : Type 0 where
    pub decoded :
        decode (p.header ++ p.payload)
        ≡ some (record { msg_type = pos 1; piece = pos k }, p.payload)
    pub short : length (body p) ≤ max_metadata_size
    pub some_bytes : 0 < length p.payload

  -- The pieces from `k` on, all full but the last.
  abbrev pub IsHonest : ℕ → List Part → Type 0
  IsHonest k [] = Unit
  IsHonest k (p ∷ []) = IsPiece k p × (length p.payload ≤ piece_size)
  IsHonest k (p ∷ (q ∷ ps)) =
      IsPiece k p × ((length p.payload ≡ piece_size) × IsHonest (suc k) (q ∷ ps))

  loop-next :
      (f k : ℕ) (p : Part) (b pad tail : Bytes)
      → IsPiece k p
      → length b ≡ k * piece_size
      → length p.payload ≤ piece_size
      → length p.payload ≤ length pad
      → (length p.payload < piece_size → length p.payload ≡ length pad)
      → length (b ++ pad) ≤ max_metadata_size
      → read_loop decode (suc f) (message (body p) ++ tail) (b ++ pad) (length b)
        ≡ read_loop decode f tail
            ((b ++ p.payload) ++ drop (length p.payload) pad)
            (length b + length p.payload)
  unfolding read_loop step_with
  loop-next f k p b pad tail h here size room last small =
      rw
        (lt→ltb (length b) (length (b ++ pad))
          (omega (arith, length-append b pad, h.some_bytes, room)))
        (rw (read_um_message-message p tail h.short) (
          rw (h.decoded) (
            ap (λ st. after_step st (read_loop decode f tail))
              (take_piece-next k b pad p.payload here size room last small))))

  loop_ends : (f : ℕ) (b tail : Bytes) → read_loop decode (suc f) tail b (length b) ≡ got b tail
  unfolding read_loop
  loop_ends f b tail = rw (full) refl
    where
      full : ltb (length b) (length b) ≡ false
      full = ground arith

  IsHonest-head : (k : ℕ) (p : Part) (ps : List Part) → IsHonest k (p ∷ ps) → IsPiece k p
  IsHonest-head k p [] h = h.0
  IsHonest-head k p (q ∷ ps) h = h.0

  IsHonest-tail : (k : ℕ) (p : Part) (ps : List Part) → IsHonest k (p ∷ ps) → IsHonest (suc k) ps
  IsHonest-tail k p [] h = tt
  IsHonest-tail k p (q ∷ ps) h = h.1.1

  -- A piece is full, or it is the last.
  record Sizes (p : Part) (ps : List Part) : Type 0 where
    most : length p.payload ≤ piece_size
    full : 0 < length ps → length p.payload ≡ piece_size
    last : length p.payload < piece_size → length (payloads ps) ≡ 0

  IsHonest-Sizes : (k : ℕ) (p : Part) (ps : List Part) → IsHonest k (p ∷ ps) → Sizes p ps
  IsHonest-Sizes k p [] h = record { most = h.1; full = λ x. elim x [ ]; last = λ x. refl }
  IsHonest-Sizes k p (q ∷ ps) h = record {
    most = omega (arith, h.1.0);
    full = λ x. h.1.0;
    last = λ x. absurd (omega (arith, h.1.0, x));
  }

  loop-honest :
      (ps : List Part) (f k : ℕ) (b pad : Bytes)
      → IsHonest k ps
      → length ps < f
      → (0 < length ps → length b ≡ k * piece_size)
      → length pad ≡ length (payloads ps)
      → length (b ++ pad) ≤ max_metadata_size
      → read_loop decode f (sent ps) (b ++ pad) (length b) ≡ got (b ++ payloads ps) []
  loop-honest ps zero k b pad h l here size small = elim l [ ]
  loop-honest [] (suc f) k b pad h l here size small =
      ap (λ x. read_loop decode (suc f) [] (b ++ x) (length b)) (no_pad pad size)
      ∙ (ap (λ x. read_loop decode (suc f) [] x (length b)) (append-nil b)
          ∙ (loop_ends f b [] ∙ ap (λ x. got x []) (sym (append-nil b))))
    where
      no_pad : (x : Bytes) → length x ≡ 0 → x ≡ []
      no_pad [] e = refl
      no_pad (y ∷ x) e = absurd (omega (arith, e))
  loop-honest (p ∷ ps) (suc f) k b pad h l here size small =
      let z = IsHonest-Sizes k p ps h in
      loop-next f k p b pad (sent ps) (IsHonest-head k p ps h) start z.most
        (omega (arith, pad_size)) (λ x. omega (arith, pad_size, z.last x)) small
      ∙ (ap (read_loop decode f (sent ps) (longer ++ drop (length p.payload) pad))
            (sym (length-append b p.payload))
          ∙ (loop-honest ps f (suc k) longer (drop (length p.payload) pad) (IsHonest-tail k p ps h)
                (omega (arith, l)) (λ x. omega (arith, length-append b p.payload, start, z.full x))
                (omega (arith, length-drop (length p.payload) pad, pad_size)) as_small
              ∙ ap (λ x. got x []) (append_assoc b p.payload (payloads ps))))
    where
      longer : Bytes
      longer = b ++ p.payload

      start : length b ≡ k * piece_size
      start = here (omega arith)

      pad_size : length pad ≡ length p.payload + length (payloads ps)
      pad_size = size ∙ length-append p.payload (payloads ps)

      as_small : length (longer ++ drop (length p.payload) pad) ≤ max_metadata_size
      as_small = omega (
        arith,
        small,
        pad_size,
        length-append b pad,
        length-append b p.payload,
        length-append longer (drop (length p.payload) pad),
        length-drop (length p.payload) pad,
      )

  -- From a peer that sends the pieces of metadata in order, each with a dictionary that decodes to
  -- its number, none empty, all full but the last, in messages that are not too long, and with no
  -- more metadata than the maximum, what is read is the metadata, and nothing is left over.
  pub read_all_pieces-sent :
      (ps : List Part)
      → IsHonest 0 ps
      → length (payloads ps) ≤ max_metadata_size
      → read_all_pieces decode (sent ps) (length (payloads ps)) ≡ got (payloads ps) []
  unfolding read_all_pieces
  read_all_pieces-sent ps h small =
      loop-honest ps (suc (length (sent ps))) 0 [] (zeros (length (payloads ps))) h
        (omega (arith, length-le-sent ps)) (λ x. omega arith) (length-zeros (length (payloads ps)))
        (omega (arith, small, length-zeros (length (payloads ps))))
