-- ===== src/Proto/Messages/RoundTrip.antt =====
-- The packed payload structs of proto/messages.hpp: what one side copies to the wire, the other
-- side copies back.
use sensor_link.Prelude.{ℕ, ◌/◌, ◌%◌, ◌^◌, ◌<◌, ◌≡◌, arith, some}
use sensor_link.Prelude.Int.{ℤ, pos, negsuc}
use sensor_link.Proto.Messages.{
  HelloPayload, ConfigPayload, SamplePayload, SlowDownPayload, HeartbeatPayload, hello_to_bytes,
  config_to_bytes, sample_to_bytes, slow_down_to_bytes, heartbeat_to_bytes, hello_of_bytes,
  config_of_bytes, sample_of_bytes, slow_down_of_bytes, heartbeat_of_bytes, i32_value, i32_pattern,
  of_u16, of_u32,
}

pub record HelloFits (p : HelloPayload) : Type 0 where
  pub device : p.device_id < 2 ^ 32
  pub version : p.fw_version < 2 ^ 16
  pub count : p.metric_count < 256
  pub rate : p.offered_rate_hz < 256

pub record ConfigFits (p : ConfigPayload) : Type 0 where
  pub session : p.session_id < 2 ^ 16
  pub rate : p.sample_rate_hz < 256
  pub mask : p.metric_mask < 256

-- The range of int32_t.
abbrev pub IsI32 : ℤ → Type 0
IsI32 (pos n) = n < 2 ^ 31
IsI32 (negsuc n) = n < 2 ^ 31

pub record SampleFits (p : SamplePayload) : Type 0 where
  pub session : p.session_id < 2 ^ 16
  pub time : p.timestamp_ms < 2 ^ 32
  pub value : IsI32 p.value_milli
  pub metric : p.metric_id < 256

pub i32_value-pattern : (z : ℤ) → IsI32 z → i32_value (i32_pattern z) ≡ z
i32_value-pattern (pos n) h = ground arith
i32_value-pattern (negsuc n) h = ground arith

pub i32_pattern-lt : (z : ℤ) → IsI32 z → i32_pattern z < 2 ^ 32
i32_pattern-lt (pos n) h = omega arith
i32_pattern-lt (negsuc n) h = omega arith

u16_split : (x : ℕ) → x < 2 ^ 16 → of_u16 (x % 256) (x / 256 % 256) ≡ x
u16_split x h = omega arith

u32_split :
    (x : ℕ)
    → x < 2 ^ 32
    → of_u32 (x % 256) (x / 256 % 256) (x / 65536 % 256) (x / 16777216 % 256) ≡ x
u32_split x h = omega arith

pub hello_round_trip : (p : HelloPayload) → HelloFits p → hello_of_bytes (hello_to_bytes p) ≡ some p
unfolding hello_of_bytes hello_to_bytes
hello_round_trip p h = ground arith

pub config_round_trip :
    (p : ConfigPayload) → ConfigFits p → config_of_bytes (config_to_bytes p) ≡ some p
unfolding config_of_bytes config_to_bytes
config_round_trip p h = ground arith

pub sample_round_trip :
    (p : SamplePayload) → SampleFits p → sample_of_bytes (sample_to_bytes p) ≡ some p
unfolding sample_of_bytes sample_to_bytes
sample_round_trip p h = rw (
  u16_split p.session_id h.session,
  u32_split p.timestamp_ms h.time,
  u32_split (i32_pattern p.value_milli) (i32_pattern-lt p.value_milli h.value),
  i32_value-pattern p.value_milli h.value,
)

pub slow_down_round_trip :
    (p : SlowDownPayload)
    → p.session_id < 2 ^ 16
    → slow_down_of_bytes (slow_down_to_bytes p) ≡ some p
unfolding slow_down_of_bytes slow_down_to_bytes
slow_down_round_trip p h = ground arith

pub heartbeat_round_trip :
    (p : HeartbeatPayload)
    → p.session_id < 2 ^ 16
    → p.uptime_ms < 2 ^ 32
    → heartbeat_of_bytes (heartbeat_to_bytes p) ≡ some p
unfolding heartbeat_of_bytes heartbeat_to_bytes
heartbeat_round_trip p h k = ground arith
