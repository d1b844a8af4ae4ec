-- ===== src/Tests/Y4m.antt =====
-- A video of two frames.
use zakuro_rs.Base.{[], ◌∷◌, ◌≡◌, some, refl, arith}
use zakuro_rs.Base.Int.{pos, negsuc}
use zakuro_rs.Base.Result.{ok, and_then}
use zakuro_rs.Base.Text.{codes, text_eq, has_char}
use zakuro_rs.Wav.Types.{slice}
use zakuro_rs.Y4m.Ops.{
  Y4mReader, frame_size, frame_at, read_exact, skip_line, read_frame_header, after_frame,
  seek_current, skip_frame, skip_frames, read_frame, get_due, get_frame,
}
use zakuro_rs.Y4m.Frames.{Frame}
use zakuro_rs.Y4m.Turn.{Video, video_bytes, IsVideo, IsTurn}
use zakuro_rs.Y4m.Looping.{IsReady, get_frame-IsTurn}

abbrev one : Frame
one = record { params = []; data_bytes = 1 ∷ 2 ∷ 3 ∷ 4 ∷ 5 ∷ 6 ∷ [] }

abbrev two : Frame
two = record { params = codes " Ip"; data_bytes = 7 ∷ 8 ∷ 9 ∷ 10 ∷ 11 ∷ 12 ∷ [] }

abbrev video : Video
video = record { head = codes "YUV4MPEG2 W2 H2 F30:1\n"; first = one; others = two ∷ [] }

abbrev reader : Y4mReader
reader = record {
  file = video_bytes video;
  at = 22;
  start_pos = 22;
  pos = 22;
  frame = 0;
  prev_frame = negsuc 0;
  width = 2;
  height = 2;
  fps_num = 30;
  fps_den = 1;
  file_size = 49;
}

video-IsVideo : IsVideo 6 video
unfolding has_char
video-IsVideo = record {
  frames = (
    record { short = omega arith; one_line = refl; full = refl },
    (record { short = omega arith; one_line = refl; full = refl }, tt),
  );
  fits = omega arith;
}

reader-IsReady : IsReady 6 video reader
unfolding frame_size
reader-IsReady = record {
  before_frame = record {
    file = refl;
    file_size = refl;
    start_pos = refl;
    frame_bytes_count = refl;
    pos = refl;
    next = one;
    turn = record { round = 0; before = []; after = two ∷ []; split = refl; place = refl };
    at = refl;
  };
  fresh = λ due l. refl;
}

-- After 100 ms, the fourth frame is due: the second one of the second round.
shown :
    get_frame reader (pos 100) 6
    ≡ ok (record reader { frame = 4; prev_frame = pos 3 }, some (7 ∷ 8 ∷ 9 ∷ 10 ∷ 11 ∷ 12 ∷ []))
unfolding get_frame get_due skip_frames skip_frame read_frame read_frame_header read_exact skip_line
    after_frame seek_current frame_size frame_at and_then text_eq slice
shown = refl

get_frame-IsTurn_example :
    (r' : Y4mReader) × (f : Frame) × (get_frame reader (pos 100) 6 ≡ ok (r', some f.data_bytes))
    × IsTurn video 3 f
    × IsReady 6 video r'
    × (r'.frame ≡ 4)
    × (r'.prev_frame ≡ pos 3)
get_frame-IsTurn_example =
    get_frame-IsTurn 6 video reader 100 3 6 video-IsVideo reader-IsReady
      (record {
        time = omega arith;
        num = omega arith;
        den = omega arith;
        product = omega arith;
        divisor = omega arith;
      })
      refl (omega arith) (omega arith)
