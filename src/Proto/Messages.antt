-- ===== src/Proto/Messages.antt =====
-- proto/messages.hpp: the constants of the wire format and the packed payload structs. A byte is a
-- number below 256. A struct is a record of its fields, and `to_bytes` and `of_bytes` are the two
-- directions of the copies that the code makes with reinterpret_cast and memcpy on a little-endian
-- target.
pub mod RoundTrip
use sensor_link.Prelude.{ℕ, ◌+◌, ◌-◌, ◌*◌, ◌/◌, ◌%◌, ◌^◌, ◌<◌, ◌≤◌}
use sensor_link.Prelude.{List, [], ◌∷◌, ◌++◌, Option, none, some, ltb, if◌then◌else◌, All}
use sensor_link.Prelude.Int.{ℤ, pos, negsuc}

abbrev pub Bytes : Type 0
Bytes = List ℕ

abbrev pub IsByte : ℕ → Type 0
IsByte b = b < 256

abbrev pub AllBytes : Bytes → Type 0
AllBytes = All IsByte

abbrev pub protocol_version : ℕ
protocol_version = 1

abbrev pub frame_header_size : ℕ
frame_header_size = 2

abbrev pub frame_crc_size : ℕ
frame_crc_size = 2

abbrev pub max_payload_size : ℕ
max_payload_size = 255

-- An enum class over uint8_t holds any byte, listed or not: the parser makes one from a byte that
-- it received.
abbrev pub MessageType : Type 0
MessageType = ℕ

abbrev pub hello : MessageType
hello = 1

abbrev pub config : MessageType
config = 2

abbrev pub sample : MessageType
sample = 3

abbrev pub slow_down : MessageType
slow_down = 4

abbrev pub heartbeat : MessageType
heartbeat = 5

pub record HelloPayload : Type 0 where
  pub device_id : ℕ
  pub fw_version : ℕ
  pub metric_count : ℕ
  pub offered_rate_hz : ℕ

pub record ConfigPayload : Type 0 where
  pub session_id : ℕ
  pub sample_rate_hz : ℕ
  pub metric_mask : ℕ

pub record SamplePayload : Type 0 where
  pub session_id : ℕ
  pub timestamp_ms : ℕ
  pub value_milli : ℤ
  pub metric_id : ℕ

pub record SlowDownPayload : Type 0 where
  pub session_id : ℕ
  pub new_rate_hz : ℕ

pub record HeartbeatPayload : Type 0 where
  pub session_id : ℕ
  pub uptime_ms : ℕ

-- Little-endian layout of the integer fields.
abbrev pub u16_bytes : ℕ → Bytes → Bytes
u16_bytes x rest = x % 256 ∷ x / 256 % 256 ∷ rest

abbrev pub u32_bytes : ℕ → Bytes → Bytes
u32_bytes x rest = x % 256 ∷ x / 256 % 256 ∷ x / 65536 % 256 ∷ x / 16777216 % 256 ∷ rest

abbrev pub of_u16 : ℕ → ℕ → ℕ
of_u16 a b = a + 256 * b

abbrev pub of_u32 : ℕ → ℕ → ℕ → ℕ → ℕ
of_u32 a b c d = a + 256 * b + 65536 * c + 16777216 * d

-- int32_t in two's complement.
abbrev pub i32_pattern : ℤ → ℕ
i32_pattern (pos n) = n
i32_pattern (negsuc n) = 2 ^ 32 - 1 - n

abbrev pub i32_value : ℕ → ℤ
i32_value w = if ltb w (2 ^ 31) then pos w else negsuc (2 ^ 32 - 1 - w)

unfoldable pub hello_to_bytes : HelloPayload → Bytes
hello_to_bytes p =
    u32_bytes p.device_id (u16_bytes p.fw_version (p.metric_count ∷ p.offered_rate_hz ∷ []))

unfoldable pub config_to_bytes : ConfigPayload → Bytes
config_to_bytes p = u16_bytes p.session_id (p.sample_rate_hz ∷ p.metric_mask ∷ [])

unfoldable pub sample_to_bytes : SamplePayload → Bytes
sample_to_bytes p =
    u16_bytes p.session_id
      (u32_bytes p.timestamp_ms (u32_bytes (i32_pattern p.value_milli) (p.metric_id ∷ [])))

unfoldable pub slow_down_to_bytes : SlowDownPayload → Bytes
slow_down_to_bytes p = u16_bytes p.session_id (p.new_rate_hz ∷ [])

unfoldable pub heartbeat_to_bytes : HeartbeatPayload → Bytes
heartbeat_to_bytes p = u16_bytes p.session_id (u32_bytes p.uptime_ms [])

-- A memcpy into a struct, behind the receiver's test that the payload has the struct's size: `none`
-- is a payload of any other size.
unfoldable pub hello_of_bytes : Bytes → Option HelloPayload
hello_of_bytes (a ∷ b ∷ c ∷ d ∷ e ∷ f ∷ m ∷ r ∷ []) = some (record {
  device_id = of_u32 a b c d;
  fw_version = of_u16 e f;
  metric_count = m;
  offered_rate_hz = r;
})
hello_of_bytes _ = none

unfoldable pub config_of_bytes : Bytes → Option ConfigPayload
config_of_bytes (a ∷ b ∷ r ∷ m ∷ []) =
    some (record { session_id = of_u16 a b; sample_rate_hz = r; metric_mask = m })
config_of_bytes _ = none

unfoldable pub sample_of_bytes : Bytes → Option SamplePayload
sample_of_bytes (a ∷ b ∷ t ∷ u ∷ v ∷ w ∷ c ∷ d ∷ e ∷ f ∷ m ∷ []) = some (record {
  session_id = of_u16 a b;
  timestamp_ms = of_u32 t u v w;
  value_milli = i32_value (of_u32 c d e f);
  metric_id = m;
})
sample_of_bytes _ = none

unfoldable pub slow_down_of_bytes : Bytes → Option SlowDownPayload
slow_down_of_bytes (a ∷ b ∷ r ∷ []) = some (record { session_id = of_u16 a b; new_rate_hz = r })
slow_down_of_bytes _ = none

unfoldable pub heartbeat_of_bytes : Bytes → Option HeartbeatPayload
heartbeat_of_bytes (a ∷ b ∷ t ∷ u ∷ v ∷ w ∷ []) =
    some (record { session_id = of_u16 a b; uptime_ms = of_u32 t u v w })
heartbeat_of_bytes _ = none
