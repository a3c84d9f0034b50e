-- ===== src/Extract/Sink/Room.antt =====
-- A sink below its cap.
use findo.Prelude.{ℕ, ◌<◌, ◌≡◌, refl, false, arith, ltb, leb, Text, length, ◌++◌}
use findo.Extract.Sink.{Sink, full, write, text, strip_controls}

pub full-room : (s : Sink) → length s.bytes < s.max → full s ≡ false
unfolding full
full-room s h = let room : leb s.max (length s.bytes) ≡ false = ground arith in room

pub write-room :
    (t : Text) (s : Sink) → length s.bytes < s.max → write t s ≡ record s { bytes = s.bytes ++ t }
unfolding write full
write-room t s h = let room : leb s.max (length s.bytes) ≡ false = ground arith in rw room refl

pub text-room :
    (t : Text) (max : ℕ)
    → length t < max
    → text (record { bytes = t; max = max }) ≡ strip_controls t
unfolding text
text-room t max h = let within : ltb max (length t) ≡ false = ground arith in rw within refl
