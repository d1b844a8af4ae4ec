-- ===== src/Y4m/Looping.antt =====
-- `get_frame` of zakuro/src/y4m_reader.rs, which plays the frames of a file in a loop.
use mathlib.Core.Path.{subst}
use zakuro_rs.Base.{
  ℕ, zero, suc, ◌+◌, ◌-◌, ◌*◌, ◌/◌, ◌%◌, ◌^◌, ◌≤◌, ◌<◌, true, false, some, ◌≡◌, refl, sym, arith,
  ltb, ◌==◌,
}
use zakuro_rs.Base.Int.{ℤ, pos}
use zakuro_rs.Base.Result.{ok, and_then}
use zakuro_rs.Y4m.Ops
use zakuro_rs.Y4m.Ops.{Y4mReader, Y4mError, moved}
use zakuro_rs.Y4m.Frames.{Frame}
use zakuro_rs.Y4m.Turn.{
  Video, IsVideo, IsTurn, IsAt, after_frame-IsAt, skip_frame-after, read_frame-after,
}

-- A reader between two calls: no later frame is the one that was given last.
pub record IsReady (size : ℕ) (v : Video) (r : Y4mReader) : Type 0 where
  pub before_frame : IsAt size v r
  pub fresh : (due : ℕ) → r.frame ≤ due → Ops.int_eq r.prev_frame (pos due) ≡ false

-- A time at which the number of the frame is computed without an overflow.
pub record IsTime (r : Y4mReader) (elapsed_ms : ℕ) : Type 0 where
  pub time : elapsed_ms < 2 ^ 63
  pub num : r.fps_num < 2 ^ 63
  pub den : 0 < r.fps_den
  pub product : elapsed_ms * r.fps_num < 2 ^ 63
  pub divisor : 1000 * r.fps_den < 2 ^ 63

skip_frames-IsAt :
    (size : ℕ) (v : Video)
    → IsVideo size v
    → (k : ℕ) (r : Y4mReader) → IsAt size v r
    → (r' : Y4mReader) × (Ops.skip_frames k r ≡ ok r') × IsAt size v r' × (r'.frame ≡ r.frame + k)
unfolding Ops.skip_frames and_then
skip_frames-IsAt size v good zero r a = (r, refl, a, omega arith)
skip_frames-IsAt size v good (suc k) r a =
    let one = after_frame-IsAt size v good r a in
    let rest = skip_frames-IsAt size v good k one.0 one.2 in
    (
      rest.0,
      rw (skip_frame-after size v good r a, one.1) rest.1,
      rest.2,
      omega (arith, one.3, rest.3),
    )

i64_product :
    (a b : ℕ) → a < 2 ^ 63 → b < 2 ^ 63 → a * b < 2 ^ 63 → Ops.mul_i64 (pos a) (pos b) ≡ pos (a * b)
i64_product a b h k l = rw (small a h, small b k, small (a * b) l, fits) refl
  where
    small : (n : ℕ) → n < 2 ^ 63 → n % 2 ^ 64 ≡ n
    small n e = omega arith

    fits : ltb (a * b) (2 ^ 63) ≡ true
    fits = ground arith

frame_at_lem :
    (r : Y4mReader) (elapsed_ms : ℕ)
    → IsTime r elapsed_ms
    → Ops.frame_at r (pos elapsed_ms) ≡ some (pos (elapsed_ms * r.fps_num / (1000 * r.fps_den)))
unfolding Ops.frame_at
frame_at_lem r elapsed_ms t =
    rw
      (
        i64_product elapsed_ms r.fps_num t.time t.num t.product,
        i64_product 1000 r.fps_den (omega arith) (omega (arith, t.divisor)) t.divisor,
        not_zero,
      )
      refl
  where
    not_zero : (1000 * r.fps_den == 0) ≡ false
    not_zero = ground (arith, t.den)

with_prev :
    (size : ℕ) (v : Video) (r : Y4mReader) (p : ℤ)
    → IsAt size v r
    → IsAt size v (record r { prev_frame = p })
unfolding Ops.frame_size
with_prev size v r p a = record {
  file = a.file;
  file_size = a.file_size;
  start_pos = a.start_pos;
  frame_bytes_count = a.frame_bytes_count;
  pos = a.pos;
  next = a.next;
  turn = a.turn;
  at = a.at;
}

-- At a time whose computation does not overflow and whose frame is not before the reader's, a
-- reader of a file that is made of frames gives the data of the frame whose place is that of the
-- time, modulo the number of frames: never an error, whether it skips frames or starts over. It is
-- ready for the frames behind, and that frame is the one that it gave last.
pub get_frame-IsTurn :
    (size : ℕ) (v : Video) (r : Y4mReader) (elapsed_ms due buf_len : ℕ)
    → IsVideo size v
    → IsReady size v r
    → IsTime r elapsed_ms
    → due ≡ elapsed_ms * r.fps_num / (1000 * r.fps_den)
    → r.frame ≤ due
    → size ≤ buf_len
    → (r' : Y4mReader) × (f : Frame) × (Ops.get_frame r (pos elapsed_ms) buf_len
        ≡ ok (r', some f.data_bytes))
      × IsTurn v due f
      × IsReady size v r'
      × (r'.frame ≡ due + 1)
      × (r'.prev_frame ≡ pos due)
unfolding Ops.get_frame Ops.get_due and_then
get_frame-IsTurn size v r elapsed_ms due buf_len good i t d late room =
    let skipped = skip_frames-IsAt size v good (due - r.frame) r i.before_frame in
    let one = after_frame-IsAt size v good skipped.0 skipped.2 in
    (
      record one.0 { prev_frame = pos due },
      skipped.2.next,
      rw
          (
            frame_at_lem r elapsed_ms t,
            sym d,
            i.fresh due late,
            not_rewound,
            skipped.1,
            read_frame-after size v good skipped.0 skipped.2 buf_len room,
            one.1,
          )
          refl,
      subst (λ k. IsTurn v k skipped.2.next) (omega (arith, skipped.3)) skipped.2.turn,
      record {
        before_frame = with_prev size v one.0 (pos due) one.2;
        fresh = λ later l. ground (arith, one.3, skipped.3);
      },
      omega (arith, one.3, skipped.3),
      refl,
    )
  where
    not_rewound : ltb due r.frame ≡ false
    not_rewound = ground arith
