-- ===== src/Ipd/Kiss/Tests.antt =====
-- The theorems on KISS at a frame with both of the bytes that are escaped.
use linuxax.Prelude.{ℕ, ◌+◌, ◌≤◌, ◌≡◌, List, [], ◌∷◌, length, All, arith, refl}
use linuxax.Ipd.Kiss.{
  max_frame, kiss_init, end_frame, reset, assemble_byte, emit, emit_escaped, emit_all,
  assemble_kiss, send_kiss,
}
use linuxax.Ipd.Kiss.Encoding.{escape_byte, escape, kiss_frame}
use linuxax.Ipd.Kiss.Stream.{note, HasRoom, assemble_kiss_frames}
use linuxax.Ipd.Kiss.RoundTrip.{on_line, assemble_kiss-send_kiss, assemble_kiss-on_line}

abbrev hard_frame : List ℕ
hard_frame = 0xc0 ∷ 0xdb ∷ 0x05 ∷ []

encoding_fits : length (kiss_frame 0 hard_frame) ≤ max_frame
unfolding kiss_frame escape escape_byte
encoding_fits = omega arith

short_fits : length (kiss_frame 0 (7 ∷ [])) ≤ max_frame
unfolding kiss_frame escape escape_byte
short_fits = omega arith

escaped_two : send_kiss 0 hard_frame ≡ 0xc0 ∷ 0 ∷ 0xdb ∷ 0xdc ∷ 0xdb ∷ 0xdd ∷ 5 ∷ 0xc0 ∷ []
unfolding send_kiss emit_all emit_escaped emit
escaped_two = refl

assemble_kiss-send_kiss_example :
    assemble_kiss note (send_kiss 0 hard_frame) (kiss_init, [])
    ≡ (record (kiss_init) { kiss_in = 1 }, hard_frame ∷ [])
unfolding assemble_byte end_frame reset
assemble_kiss-send_kiss_example =
    assemble_kiss-send_kiss note 0 hard_frame kiss_init [] refl encoding_fits (omega arith)

assemble_kiss-on_line_example :
    assemble_kiss note (on_line 0 (hard_frame ∷ (7 ∷ []) ∷ [])) (kiss_init, [])
    ≡ (record (kiss_init) { kiss_in = 2 }, hard_frame ∷ (7 ∷ []) ∷ [])
assemble_kiss-on_line_example =
    assemble_kiss-on_line note 0 (hard_frame ∷ (7 ∷ []) ∷ []) kiss_init [] refl
      ((encoding_fits, omega arith), ((short_fits, omega arith), tt)) refl refl

assemble_kiss_frames_example :
    let (r', log) = assemble_kiss note (0xc0 ∷ 0 ∷ 1 ∷ 0xc0 ∷ []) (kiss_init, []) in
    All HasRoom log × (r'.kiss_in ≡ 0 + length log)
assemble_kiss_frames_example = assemble_kiss_frames (0xc0 ∷ 0 ∷ 1 ∷ 0xc0 ∷ []) kiss_init
