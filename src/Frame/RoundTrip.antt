-- ===== src/Frame/RoundTrip.antt =====
-- Frames and their encodings are the same thing, within the length limit.
use virtual_yubihsm.Prelude.{ℕ, ◌≤◌, ◌≡◌, List, [], ◌∷◌, length, AreBytes, arith}
use virtual_yubihsm.Error.{ok}
use virtual_yubihsm.Frame.{Frame, parse, encode, max_data_length}

-- The encoding of a frame within the payload limit parses back to the frame.
pub parse-encode :
    (frame : Frame) → length frame.payload ≤ max_data_length → parse (encode frame) ≡ ok frame
unfolding parse encode
parse-encode frame h = ground arith

-- A frame that bytes parse to is within the payload limit and encodes to just those bytes.
pub encode-parse :
    (encoded : List ℕ) {frame : Frame}
    → AreBytes encoded
    → parse encoded ≡ ok frame
    → (encode frame ≡ encoded) × (length frame.payload ≤ max_data_length)
unfolding parse encode
encode-parse [] h e = cc
encode-parse (c ∷ []) h e = cc
encode-parse (c ∷ hi ∷ []) h e = cc
encode-parse (c ∷ hi ∷ lo ∷ payload) h e = ground arith
