-- ===== src/Channel/Message.antt =====
-- `build_message`, `xorshift32`, `payload_size_from` and `compute_seed` of
-- zakuro/src/data_channel.rs. A byte is a number below 256; `none` stands for a panic.
use Prim.Native.Nat.{bit_xor}
use zakuro_rs.Base.{
  ℕ, ◌+◌, ◌-◌, ◌*◌, ◌/◌, ◌%◌, min, List, [], ◌∷◌, ◌++◌, Option, none, some, if◌then◌else◌, ltb,
  ◌==◌, length, ◌>>=◌,
}
use zakuro_rs.Channel.Bytes.{be_bytes, le_bytes, zeros, take, drop, copy_at}

abbrev pub message_size_min : ℕ
message_size_min = 48

abbrev pub message_size_max : ℕ
message_size_max = 256000

-- A shift to the left on a `u32` drops the high bits.
unfoldable pub xorshift32 : ℕ → ℕ
xorshift32 state =
    let x = bit_xor state (state * 8192 % 4294967296) in
    let y = bit_xor x (x / 131072) in bit_xor y (y * 32 % 4294967296)

unfoldable pub compute_seed : ℕ → ℕ → ℕ
compute_seed instance_id vc_id =
    let state =
      bit_xor (bit_xor 0xdead_beef (vc_id * 2654435761 % 4294967296))
        (instance_id * 0x9e37_79b9 % 4294967296) in
    if state == 0 then 1 else state

unfoldable pub payload_size_from : ℕ → ℕ → ℕ → Option ℕ
payload_size_from min_size max_size random =
    if ltb min_size message_size_min
    then none
    else if ltb max_size min_size
    then none
    else let min_payload = min_size - message_size_min in
      let max_payload = max_size - message_size_min in
      let payload_range = max_payload - min_payload in
      let payload_extra = if ltb 0 payload_range then random % (payload_range + 1) else 0 in
      some (min_payload + payload_extra)

-- `b"ZAKURO"`
abbrev pub signature : List ℕ
signature = 90 ∷ 65 ∷ 75 ∷ 85 ∷ 82 ∷ 79 ∷ []

-- The loop over `chunks_mut(4)`, with the state that it leaves.
unfoldable pub fill_random : ℕ → List ℕ → List ℕ × ℕ
fill_random state [] = ([], state)
fill_random state (a ∷ b ∷ c ∷ d ∷ rest) =
    let val = xorshift32 state in
    let (filled, state') = fill_random val rest in (le_bytes 4 val ++ filled, state')
fill_random state chunk = let val = xorshift32 state in (take (length chunk) (le_bytes 4 val), val)

-- `conn_bytes[..copy_len]`
abbrev pub id_bytes : List ℕ → List ℕ
id_bytes connection_id = take (min (length connection_id) 26) connection_id

-- The payload behind the header is filled in place.
abbrev pub with_payload : ℕ → List ℕ → List ℕ × ℕ
with_payload state buf =
    let (payload, state') = fill_random state (drop message_size_min buf) in
    (take message_size_min buf ++ payload, state')

-- `time_us` is the clock in microseconds, `connection_id` the bytes of the identifier. The result
-- has the state of the generator behind the message.
unfoldable pub build_message : ℕ → ℕ → List ℕ → ℕ → ℕ → Option (List ℕ × ℕ)
build_message time_us counter connection_id payload_size state = do
  let buf = zeros (message_size_min + payload_size)
  signed ← copy_at 0 signature buf
  timed ← copy_at 6 (be_bytes 8 (time_us % 18446744073709551616)) signed
  counted ← copy_at 14 (be_bytes 8 counter) timed
  named ← copy_at 22 (id_bytes connection_id) counted
  some (with_payload state named)
