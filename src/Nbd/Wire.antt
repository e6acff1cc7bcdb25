-- ===== src/Nbd/Wire.antt =====
-- src/platform/nbd_wire.h and nbd_wire.c: the messages of the NBD protocol. A message is a list of
-- bytes, each below 256; shifts and masks are written as quotients and remainders, and an or of
-- fields that do not overlap as their sum.
pub mod RoundTrip
use gdox.Common.{
  ℕ, ◌+◌, ◌-◌, ◌*◌, ◌/◌, ◌%◌, ◌^◌, Bool, not, ◌&&◌, ◌||◌, Option, none, some, List, [], ◌∷◌, ◌++◌,
  length, get_or, take, drop, ltb, leb, ◌==◌, if◌then◌else◌, u64_max,
}

abbrev pub greeting_bytes : ℕ
greeting_bytes = 18

abbrev pub option_header_bytes : ℕ
option_header_bytes = 16

abbrev pub request_bytes : ℕ
request_bytes = 28

-- GDOX_NBD_MAX_BUFFER_SIZE and GDOX_NBD_MAX_OPTION_SIZE
abbrev pub max_buffer_size : ℕ
max_buffer_size = 33_554_432

abbrev pub max_option_size : ℕ
max_option_size = 65_536

abbrev pub init_magic : ℕ
init_magic = 0x4e42444d41474943

abbrev pub opts_magic : ℕ
opts_magic = 0x49484156454f5054

abbrev pub rep_magic : ℕ
rep_magic = 0x0003e889045565a9

abbrev pub request_magic : ℕ
request_magic = 0x25609513

abbrev pub simple_reply_magic : ℕ
simple_reply_magic = 0x67446698

abbrev pub opt_export_name : ℕ
opt_export_name = 1

abbrev pub opt_abort : ℕ
opt_abort = 2

abbrev pub opt_info : ℕ
opt_info = 6

abbrev pub opt_go : ℕ
opt_go = 7

abbrev pub rep_ack : ℕ
rep_ack = 1

abbrev pub rep_info : ℕ
rep_info = 3

abbrev pub rep_err_unsup : ℕ
rep_err_unsup = 0x8000_0001

abbrev pub rep_err_invalid : ℕ
rep_err_invalid = 0x8000_0003

abbrev pub rep_err_unknown : ℕ
rep_err_unknown = 0x8000_0006

abbrev pub cmd_read : ℕ
cmd_read = 0

abbrev pub cmd_write : ℕ
cmd_write = 1

abbrev pub cmd_disc : ℕ
cmd_disc = 2

-- GDOX_NBD_EPERM, GDOX_NBD_EIO and GDOX_NBD_EINVAL
abbrev pub eperm : ℕ
eperm = 1

abbrev pub eio : ℕ
eio = 5

abbrev pub einval : ℕ
einval = 22

-- `gdox_nbd_request`
pub record Request : Type 0 where
  pub flags : ℕ
  pub command : ℕ
  pub handle : ℕ
  pub offset : ℕ
  pub length : ℕ

-- `input[i]`
abbrev pub byte : List ℕ → ℕ → ℕ
byte input i = get_or input i 0

-- `read_be_u16(input + at)`, and so on
unfoldable pub read_be_u16 : List ℕ → ℕ → ℕ
read_be_u16 input at = byte input at * 2 ^ 8 + byte input (at + 1)

unfoldable pub read_be_u32 : List ℕ → ℕ → ℕ
read_be_u32 input at =
    byte input at * 2 ^ 24
    + byte input (at + 1) * 2 ^ 16
    + byte input (at + 2) * 2 ^ 8
    + byte input (at + 3)

unfoldable pub read_be_u64 : List ℕ → ℕ → ℕ
unfolding read_be_u32
read_be_u64 input at = read_be_u32 input at * 2 ^ 32 + read_be_u32 input (at + 4)

unfoldable pub put_be_u16 : ℕ → List ℕ
put_be_u16 value = value / 2 ^ 8 % 256 ∷ value % 256 ∷ []

unfoldable pub put_be_u32 : ℕ → List ℕ
put_be_u32 value =
    value / 2 ^ 24 % 256 ∷ value / 2 ^ 16 % 256 ∷ value / 2 ^ 8 % 256 ∷ value % 256 ∷ []

unfoldable pub put_be_u64 : ℕ → List ℕ
unfolding put_be_u32
put_be_u64 value = put_be_u32 (value / 2 ^ 32) ++ put_be_u32 (value % 2 ^ 32)

-- `gdox_nbd_wire_greeting`; the flags are NBD_FLAG_FIXED_NEWSTYLE and NBD_FLAG_NO_ZEROES.
unfoldable pub greeting : List ℕ
unfolding put_be_u64 put_be_u16
greeting = put_be_u64 init_magic ++ (put_be_u64 opts_magic ++ put_be_u16 3)

-- `gdox_nbd_wire_parse_client_flags`: the flag of fixed newstyle is the lowest bit, that of no
-- zeroes the next, and no other bit may be set.
unfoldable pub parse_client_flags : List ℕ → Option ℕ
parse_client_flags input =
    let value = read_be_u32 input 0 in
    if value % 2 == 0 || not (value / 4 == 0) then none else some value

-- `gdox_nbd_wire_parse_option_header`, with the option and the length of its payload
unfoldable pub parse_option_header : List ℕ → Option (ℕ × ℕ)
parse_option_header input =
    let length = read_be_u32 input 12 in
    if not (read_be_u64 input 0 == opts_magic)
    then none
    else if ltb max_option_size length
    then none
    else some (read_be_u32 input 8, length)

-- `gdox_nbd_wire_parse_info_name`, with the bytes of the name
unfoldable pub parse_info_name : List ℕ → Option (List ℕ)
parse_info_name payload =
    let payload_bytes = length payload in
    let declared_name = read_be_u32 payload 0 in
    let end = 4 + declared_name in
    let request_count = read_be_u16 payload end in
    if ltb payload_bytes 6
    then none
    else if ltb payload_bytes (declared_name + 6)
    then none
    else if ltb ((u64_max - end - 2) / 2) request_count
    then none
    else if not (end + 2 + request_count * 2 == payload_bytes)
    then none
    else some (take declared_name (drop 4 payload))

-- `gdox_nbd_wire_parse_request`
unfoldable pub parse_request : List ℕ → Option Request
parse_request input =
    if not (read_be_u32 input 0 == request_magic)
    then none
    else some (record {
      flags = read_be_u16 input 4;
      command = read_be_u16 input 6;
      handle = read_be_u64 input 8;
      offset = read_be_u64 input 16;
      length = read_be_u32 input 24;
    })

-- `gdox_nbd_wire_read_is_valid`
unfoldable pub read_is_valid : Request → ℕ → Bool
read_is_valid request export_bytes =
    leb request.length max_buffer_size
    && leb request.offset export_bytes
    && leb request.length (export_bytes - request.offset)

-- `gdox_nbd_wire_option_reply_header`
unfoldable pub option_reply_header : ℕ → ℕ → ℕ → List ℕ
option_reply_header option reply payload_bytes =
    put_be_u64 rep_magic ++ (put_be_u32 option ++ (put_be_u32 reply ++ put_be_u32 payload_bytes))

-- `gdox_nbd_wire_simple_reply`
unfoldable pub simple_reply : ℕ → ℕ → List ℕ
simple_reply reply_error handle =
    put_be_u32 simple_reply_magic ++ (put_be_u32 reply_error ++ put_be_u64 handle)

-- `gdox_nbd_wire_export_response`
unfoldable pub export_response : ℕ → ℕ → List ℕ
export_response length export_flags = put_be_u64 length ++ put_be_u16 export_flags

-- `gdox_nbd_wire_block_size_info`; the first field is NBD_INFO_BLOCK_SIZE.
unfoldable pub block_size_info : List ℕ
unfolding put_be_u32 put_be_u16
block_size_info =
    put_be_u16 3 ++ (put_be_u32 1 ++ (put_be_u32 65_536 ++ put_be_u32 max_buffer_size))

-- `gdox_nbd_wire_export_info`; the first field is NBD_INFO_EXPORT.
unfoldable pub export_info : ℕ → ℕ → List ℕ
export_info length export_flags = put_be_u16 0 ++ (put_be_u64 length ++ put_be_u16 export_flags)
