-- ===== src/Nbd/Wire/RoundTrip.antt =====
-- What the parsers make of well-formed messages, and which messages they accept.
use gdox.Common.{
  ℕ, ◌+◌, ◌*◌, ◌^◌, ◌≤◌, ◌<◌, ◌≡◌, refl, ◌↔◌, ◌⊎◌, true, none, some, List, [], ◌∷◌, ◌++◌, length,
  drop, leb, if◌then◌else◌, arith,
}
use gdox.Nbd.Wire.{
  parse_client_flags, parse_option_header, simple_reply, simple_reply_magic, opts_magic,
  max_option_size, Request, request_magic, max_buffer_size, read_be_u16, read_be_u32, read_be_u64,
  put_be_u16, put_be_u32, put_be_u64, parse_request, read_is_valid,
}

-- The fields fit their machine words.
pub record Fits (r : Request) : Type 0 where
  pub flags : r.flags < 2 ^ 16
  pub command : r.command < 2 ^ 16
  pub handle : r.handle < 2 ^ 64
  pub offset : r.offset < 2 ^ 64
  pub length : r.length < 2 ^ 32

-- A request as the protocol's clients send it.
unfoldable pub request_message : Request → List ℕ
unfolding put_be_u16 put_be_u32 put_be_u64
request_message r =
    put_be_u32 request_magic
    ++ (put_be_u16 r.flags
        ++ (put_be_u16 r.command
            ++ (put_be_u64 r.handle ++ (put_be_u64 r.offset ++ put_be_u32 r.length))))

-- The server reads each request whose fields fit their words back as the client meant it.
pub parse_request-message : (r : Request) → Fits r → parse_request (request_message r) ≡ some r
unfolding parse_request request_message read_be_u16 read_be_u64
parse_request-message r fits = ground arith

-- Every element is a byte.
abbrev pub AreBytes : List ℕ → Type 0
AreBytes [] = Unit
AreBytes (b ∷ bs) = (b < 256) × AreBytes bs

put-read_be_u32 :
    (a b c d : ℕ)
    → a < 256
    → b < 256
    → c < 256
    → d < 256
    → put_be_u32 (a * 2 ^ 24 + b * 2 ^ 16 + c * 2 ^ 8 + d) ≡ a ∷ b ∷ c ∷ d ∷ []
unfolding put_be_u32
put-read_be_u32 a b c d ha hb hc hd = ground arith

-- A read is valid exactly when it is no longer than the buffer may be and lies inside the export.
pub read_is_valid_iff :
    (r : Request) (export_bytes : ℕ)
    → (read_is_valid r export_bytes ≡ true)
      ↔ ((r.length ≤ max_buffer_size) × (r.offset + r.length ≤ export_bytes))
unfolding read_is_valid
read_is_valid_iff r export_bytes = (λ h. (ground arith, ground arith), λ h. ground arith)

-- The client's flags, as a 32-bit word, are accepted exactly when they ask for fixed newstyle, with or without the
-- zeroes, and for nothing else.
pub parse_client_flags_iff :
    (flags : ℕ)
    → flags < 2 ^ 32
    → (parse_client_flags (put_be_u32 flags) ≡ some flags) ↔ ((flags ≡ 1) ⊎ (flags ≡ 3))
unfolding parse_client_flags read_be_u32 put_be_u32
parse_client_flags_iff flags h = (λ e. ground arith, λ e. ground arith)

-- An option header as the clients send it.
pub option_header_message : ℕ → ℕ → List ℕ
option_header_message option payload_length =
    put_be_u64 opts_magic ++ (put_be_u32 option ++ put_be_u32 payload_length)

pub length-option_header_message : (option n : ℕ) → length (option_header_message option n) ≡ 16
unfolding option_header_message put_be_u64
length-option_header_message option n = refl

-- An option header of a client is read back as it was meant, and accepted exactly up to the greatest
-- payload, for an option and a length that fit their words.
pub parse_option_header-message :
    (option payload_length : ℕ)
    → option < 2 ^ 32
    → payload_length < 2 ^ 32
    → parse_option_header (option_header_message option payload_length)
      ≡ (if leb payload_length max_option_size then some (option, payload_length) else none)
unfolding parse_option_header option_header_message read_be_u32 read_be_u64 put_be_u64
parse_option_header-message option payload_length ho hl = ground arith

-- A client reads the magic, the error and the handle in a simple reply, and the payload behind them,
-- if the error and the handle fit their words.
pub simple_reply_fields :
    (reply_error handle : ℕ) (rest : List ℕ)
    → reply_error < 2 ^ 32
    → handle < 2 ^ 64
    → let message = simple_reply reply_error handle ++ rest in
      (read_be_u32 message 0 ≡ simple_reply_magic)
      × (read_be_u32 message 4 ≡ reply_error)
      × (read_be_u64 message 8 ≡ handle)
      × (drop 16 message ≡ rest)
unfolding simple_reply read_be_u32 read_be_u64 put_be_u64
simple_reply_fields reply_error handle rest he hh = (ground arith, ground arith, ground arith, refl)
