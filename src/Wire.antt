-- ===== src/Wire.antt =====
-- knotlink-sdk-python/knotlink/knotlink/tcpclient.py: the protocol header of a message, as the
-- sender writes it and as the receiver takes it off its buffer. A byte string is a list of numbers.
pub mod Header
pub mod Scanning
pub mod Kinds
pub mod Prefixes
use knot_link_sdk.Base.{
  ℕ, ◌+◌, ◌*◌, ◌/◌, ◌%◌, ◌^◌, ◌<◌, List, [], ◌∷◌, ◌++◌, ◌||◌, ltb, ◌==◌, if◌then◌else◌, seq_eq,
  codes, length, take, drop,
}
use mathlib.Core.List.{foldl}

abbrev pub Bytes : Type 0
Bytes = List ℕ

abbrev pub IsByte : ℕ → Type 0
IsByte b = b < 256

-- `MAGIC = b'KK\x00\x02'`
abbrev pub magic : Bytes
magic = b'K' ∷ b'K' ∷ 0 ∷ 2 ∷ []

abbrev pub max_msg_size : ℕ
max_msg_size = 16 * 1024 * 1024

abbrev pub magic_len : ℕ
magic_len = length magic

abbrev pub header_len : ℕ
header_len = magic_len + 4

-- The body that `_process_buffer` drops, and the one that `send_heart_beat` sends.
abbrev pub heartbeat_response : Bytes
heartbeat_response = codes "heartbeat_response"

abbrev pub heartbeat : Bytes
heartbeat = codes "heartbeat"

-- `struct.pack('>I', n)`, for n < 2 ** 32
unfoldable pub pack_u32 : ℕ → Bytes
pack_u32 n = (n / 2 ^ 24 % 256) ∷ (n / 2 ^ 16 % 256) ∷ (n / 2 ^ 8 % 256) ∷ (n % 256) ∷ []

-- `struct.unpack('>I', s)[0]`, for the four bytes that the slice holds
unfoldable pub unpack_u32 : Bytes → ℕ
unpack_u32 = foldl (λ n b. n * 256 + b) 0

-- `MAGIC + struct.pack('>I', length) + data`
unfoldable pub frame : Bytes → Bytes
frame msg = (magic ++ pack_u32 (length msg)) ++ msg

-- What the locked part of a round of `_process_buffer` finds at the head of the buffer.
pub data Scan : Type 0 where
  incomplete : Scan
  bad_magic : Scan
  bad_length : ℕ → Scan
  -- the body, and the buffer that is left
  message : Bytes → Bytes → Scan

unfoldable pub next_message : Bytes → Scan
next_message buffer =
    if ltb (length buffer) header_len
    then incomplete
    else if seq_eq (take magic_len buffer) magic
    then (let len = unpack_u32 (drop magic_len (take header_len buffer)) in
        if len == 0 || ltb max_msg_size len
        then bad_length len
        else if ltb (length buffer) (header_len + len)
        then incomplete
        else message (drop header_len (take (header_len + len) buffer))
            (drop (header_len + len) buffer))
    else bad_magic

-- The bodies that the receiver takes: not empty, and at most 16 MB.
pub record IsSendable (msg : Bytes) : Type 0 where
  pub some_byte : 0 < length msg
  pub in_limit : length msg < max_msg_size + 1
