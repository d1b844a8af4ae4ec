-- ===== src/Y4m/Ops.antt =====
-- The reader of zakuro/src/y4m_reader.rs behind the header of the file.
use zakuro_rs.Base.{
  ℕ, zero, suc, ◌+◌, ◌-◌, ◌*◌, ◌/◌, ◌%◌, ◌^◌, Bool, false, not, List, [], ◌∷◌, Option, none, some,
  add64, if◌then◌else◌, ltb, ◌==◌,
}
use zakuro_rs.Base.Int.{ℤ, pos, negsuc}
use zakuro_rs.Base.Result.{Result, ok, err, and_then}
use zakuro_rs.Base.Text.{codes, text_eq}
use zakuro_rs.Wav.Types.{slice}

-- `file` has the bytes of the file and `at` its cursor; `width` to `fps_den` are positive.
pub record Y4mReader : Type 0 where
  pub file : List ℕ
  pub at : ℕ
  pub start_pos : ℕ
  pub pos : ℕ
  pub frame : ℕ
  pub prev_frame : ℤ
  pub width : ℕ
  pub height : ℕ
  pub fps_num : ℕ
  pub fps_den : ℕ
  pub file_size : ℕ

-- `panic` stands for a division by zero or its overflow.
pub data Y4mError : Type 0 where
  rewound small_buffer read_failed past_the_end no_frame_tag header_too_long seek_failed panic :
      Y4mError

-- `(n + 1) / 2` in an i32 and as a usize, for a positive n.
abbrev pub chroma : ℕ → ℕ
chroma n = if n + 1 == 2 ^ 31 then 2 ^ 64 - 2 ^ 30 else (n + 1) / 2

unfoldable pub frame_size : Y4mReader → ℕ
frame_size r =
    let y = r.width * r.height % 2 ^ 64 in
    let uv = chroma r.width * chroma r.height * 2 % 2 ^ 64 in add64 y uv

-- The 64 bits of an i64, and the i64 of 64 bits.
abbrev pub bits : ℤ → ℕ
bits (pos n) = n % 2 ^ 64
bits (negsuc n) = 2 ^ 64 - 1 - n % 2 ^ 64

abbrev pub i64_of : ℕ → ℤ
i64_of n = if ltb n (2 ^ 63) then pos n else negsuc (2 ^ 64 - 1 - n)

abbrev pub mul_i64 : ℤ → ℤ → ℤ
mul_i64 a b = i64_of (bits a * bits b % 2 ^ 64)

abbrev pub negated : ℕ → ℤ
negated zero = pos 0
negated (suc n) = negsuc n

abbrev pub div_i64 : ℤ → ℤ → Option ℤ
div_i64 (pos a) (pos b) = if b == 0 then none else some (pos (a / b))
div_i64 (pos a) (negsuc b) = some (negated (a / (b + 1)))
div_i64 (negsuc a) (pos b) = if b == 0 then none else some (negated ((a + 1) / b))
div_i64 (negsuc a) (negsuc b) =
    if (a + 1) / (b + 1) == 2 ^ 63 then none else some (pos ((a + 1) / (b + 1)))

-- The number of the frame that is due.
unfoldable pub frame_at : Y4mReader → ℤ → Option ℤ
frame_at r elapsed_ms =
    div_i64 (mul_i64 elapsed_ms (pos r.fps_num)) (mul_i64 (pos 1000) (pos r.fps_den))

abbrev pub int_eq : ℤ → ℤ → Bool
int_eq (pos a) (pos b) = a == b
int_eq (negsuc a) (negsuc b) = a == b
int_eq _ _ = false

abbrev pub moved : ℕ → Y4mReader → Y4mReader
moved n r = record r { at = r.at + n; pos = r.pos + n }

abbrev pub read_bytes : Option (List ℕ) → Result Y4mError (List ℕ)
read_bytes none = err read_failed
read_bytes (some bytes) = ok bytes

-- `read_exact`
unfoldable pub read_exact : Y4mReader → ℕ → Result Y4mError (List ℕ)
read_exact r n = read_bytes (slice r.file r.at (r.at + n))

-- The bytes up to a line feed, at most so many.
unfoldable pub skip_line : ℕ → Y4mReader → Result Y4mError Y4mReader
skip_line zero r = err header_too_long
skip_line (suc k) r = and_then (read_exact r 1) λ byte.
    let rest = skip_line k (moved 1 r) in if text_eq byte (b'\n' ∷ []) then ok (moved 1 r) else rest

unfoldable pub read_frame_header : Y4mReader → Result Y4mError Y4mReader
read_frame_header r = and_then (read_exact r 5) λ tag.
    if not (text_eq tag (codes "FRAME")) then err no_frame_tag else skip_line 1024 (moved 5 r)

abbrev pub seek_to_start : Y4mReader → Y4mReader
seek_to_start r = record r { at = r.start_pos; pos = r.start_pos }

-- What both reading and skipping a frame end with.
unfoldable pub after_frame : Y4mReader → Result Y4mError Y4mReader
after_frame r =
    if ltb r.file_size r.pos
    then err past_the_end
    else ok (
        let r' = if r.pos == r.file_size then seek_to_start r else r in
        record r' { frame = r'.frame + 1 })

-- `SeekFrom::Current(size as i64)`
unfoldable pub seek_current : Y4mReader → ℕ → Result Y4mError Y4mReader
seek_current r size =
    if ltb size (2 ^ 63)
    then ok (record r { at = r.at + size })
    else if ltb r.at (2 ^ 64 - size)
    then err seek_failed
    else ok (record r { at = r.at - (2 ^ 64 - size) })

unfoldable pub skip_frame : Y4mReader → Result Y4mError Y4mReader
skip_frame r = and_then (read_frame_header r) λ r1.
    let size = frame_size r1 in
    and_then (seek_current r1 size) λ r2. after_frame (record r2 { pos = add64 r2.pos size })

-- `while self.frame < frame`, whose turns are as many as frames lie between.
unfoldable pub skip_frames : ℕ → Y4mReader → Result Y4mError Y4mReader
skip_frames zero r = ok r
skip_frames (suc k) r = and_then (skip_frame r) (skip_frames k)

unfoldable pub read_frame : Y4mReader → ℕ → Result Y4mError (Y4mReader × List ℕ)
read_frame r buf_len = and_then (read_frame_header r) λ r1.
    let size = frame_size r1 in
    if ltb buf_len size
    then err small_buffer
    else and_then (read_exact r1 size) λ bytes.
      and_then (after_frame (record r1 { at = r1.at + size; pos = add64 r1.pos size }))
        λ r2. ok (r2, bytes)

abbrev pub FrameResult : Type 0
FrameResult = Y4mReader × Option (List ℕ)

-- `get_frame` for the number of the frame that is due.
unfoldable pub get_due : Y4mReader → ℕ → Option ℤ → Result Y4mError FrameResult
get_due r buf_len none = err panic
get_due r buf_len (some (negsuc n)) =
    if int_eq r.prev_frame (negsuc n) then ok (r, none) else err rewound
get_due r buf_len (some (pos due)) =
    if int_eq r.prev_frame (pos due)
    then ok (r, none)
    else if ltb due r.frame
    then err rewound
    else and_then (skip_frames (due - r.frame) r) λ r1.
      and_then (read_frame r1 buf_len) λ p. ok (record p.0 { prev_frame = pos due }, some (p.1))

-- A buffer of `buf_len` bytes; the data that is written to its beginning is the result. The count
-- of the frames stays below 2^63, as does the number of the frame that is due.
unfoldable pub get_frame : Y4mReader → ℤ → ℕ → Result Y4mError FrameResult
get_frame r elapsed_ms buf_len = get_due r buf_len (frame_at r elapsed_ms)
