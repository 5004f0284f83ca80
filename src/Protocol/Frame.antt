-- ===== src/Protocol/Frame.antt =====
-- components/dali_protocol/include/dali/protocol/dali_frame.h: 16-bit forward frames.
use savantix_dali_edge_contr.Prelude.{
  ℕ, ◌*◌, ◌/◌, ◌^◌, ◌%◌, ◌≤◌, Option, none, some, bit_or, leb, if◌then◌else◌, u8, u16,
}
use savantix_dali_edge_contr.Core.{ShortAddress, GroupAddress}
use savantix_dali_edge_contr.Protocol.Commands.{
  DaliCommand, command_code, DaliSpecialCommand, special_code,
}
pub mod Decode

pub record ForwardFrame : Type 0 where
  pub raw : ℕ

-- `& 0xFF` is `% 2 ^ 8`.
abbrev pub address_byte : ForwardFrame → ℕ
address_byte f = (f.raw / 2 ^ 8) % 2 ^ 8

abbrev pub data_byte : ForwardFrame → ℕ
data_byte f = f.raw % 2 ^ 8

pub record ArcLevel : Type 0 where
  pub value : ℕ

-- The constructor is private in the source: a level comes from `arc_level` alone.
unfoldable pub arc_level : ℕ → Option ArcLevel
arc_level value = if leb value 254 then some (record { value = u8 value }) else none

abbrev pub IsArc : ArcLevel → Type 0
IsArc l = l.value ≤ 254

unfoldable pub make_frame : ℕ → ℕ → ForwardFrame
make_frame address byte = record { raw = u16 (bit_or (address * 2 ^ 8) byte) }

unfoldable pub make_short_command : ShortAddress → DaliCommand → ForwardFrame
make_short_command address command =
    make_frame (u8 (bit_or (u8 (address.value * 2 ^ 1)) 0x01)) (command_code command)

unfoldable pub make_short_arc : ShortAddress → ArcLevel → ForwardFrame
make_short_arc address level = make_frame (u8 (address.value * 2 ^ 1)) level.value

unfoldable pub make_group_command : GroupAddress → DaliCommand → ForwardFrame
make_group_command address command =
    make_frame (u8 (bit_or 0x81 (u8 (address.value * 2 ^ 1)))) (command_code command)

unfoldable pub make_group_arc : GroupAddress → ArcLevel → ForwardFrame
make_group_arc address level =
    make_frame (u8 (bit_or 0x80 (u8 (address.value * 2 ^ 1)))) level.value

unfoldable pub make_broadcast_command : DaliCommand → ForwardFrame
make_broadcast_command command = make_frame 0xff (command_code command)

unfoldable pub make_special_command : DaliSpecialCommand → ℕ → ForwardFrame
make_special_command command parameter = make_frame (special_code command) parameter

unfoldable pub make_broadcast_arc : ArcLevel → ForwardFrame
make_broadcast_arc level = make_frame 0xfe level.value
