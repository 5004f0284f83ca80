-- ===== src/Protocol/Frame/Decode.antt =====
-- What the frame builders of dali_frame.h promise, as a reader of the bus sees it: the address byte
-- is 0AAAAAAS for a short address, 100AAAAS for a group, 1111111S for broadcast, and anything between
-- is a special command. S tells a command from an arc level.
use savantix_dali_edge_contr.Prelude.{
  ℕ, ◌+◌, ◌-◌, ◌*◌, ◌/◌, ◌%◌, ◌^◌, ◌≤◌, ◌<◌, ◌≡◌, refl, Bool, true, false, arith, ltb, ◌==◌,
  if◌then◌else◌, bit_or, bit_or_pack, u8, all_below, all_below-at, ◌&&◌,
}
use savantix_dali_edge_contr.Core.{ShortAddress, GroupAddress, IsShort, IsGroup}
use savantix_dali_edge_contr.Protocol.Commands.{
  DaliCommand, command_code, command_code-lt, DaliSpecialCommand, special_code, special_code_bounds,
}
use savantix_dali_edge_contr.Protocol.Frame.{
  ForwardFrame, ArcLevel, IsArc, address_byte, data_byte, make_frame, make_short_command,
  make_short_arc, make_group_command, make_group_arc, make_broadcast_command, make_special_command,
  make_broadcast_arc,
}

-- Who is addressed.
pub data Target : Type 0 where
  short group : ℕ → Target
  special : ℕ → Target
  broadcast : Target

pub record Seen : Type 0 where
  pub target : Target
  pub is_command : Bool
  pub byte : ℕ

abbrev target_of : ℕ → Target
target_of a =
    if ltb a 128
    then Target.short (a / 2)
    else if ltb a 160
    then Target.group ((a - 128) / 2)
    else if ltb a 254
    then Target.special a
    else Target.broadcast

abbrev pub see : ForwardFrame → Seen
see f = record {
  target = target_of (address_byte f);
  is_command = address_byte f % 2 == 1;
  byte = data_byte f;
}

-- What a caller asks for.
pub data Call : Type 0 where
  short_command : ShortAddress → DaliCommand → Call
  short_arc : ShortAddress → ArcLevel → Call
  group_command : GroupAddress → DaliCommand → Call
  group_arc : GroupAddress → ArcLevel → Call
  broadcast_command : DaliCommand → Call
  broadcast_arc : ArcLevel → Call
  special_command : DaliSpecialCommand → ℕ → Call

abbrev pub frame_of : Call → ForwardFrame
frame_of (Call.short_command a c) = make_short_command a c
frame_of (Call.short_arc a l) = make_short_arc a l
frame_of (Call.group_command g c) = make_group_command g c
frame_of (Call.group_arc g l) = make_group_arc g l
frame_of (Call.broadcast_command c) = make_broadcast_command c
frame_of (Call.broadcast_arc l) = make_broadcast_arc l
frame_of (Call.special_command c p) = make_special_command c p

abbrev pub IsCall : Call → Type 0
IsCall (Call.short_command a c) = IsShort a
IsCall (Call.short_arc a l) = IsShort a × IsArc l
IsCall (Call.group_command g c) = IsGroup g
IsCall (Call.group_arc g l) = IsGroup g × IsArc l
IsCall (Call.broadcast_command c) = Unit {0}
IsCall (Call.broadcast_arc l) = IsArc l
IsCall (Call.special_command c p) = p < 256

abbrev pub meaning : Call → Seen
meaning (Call.short_command a c) = record {
  target = Target.short a.value;
  is_command = true;
  byte = command_code c;
}
meaning (Call.short_arc a l) = record {
  target = Target.short a.value;
  is_command = false;
  byte = l.value;
}
meaning (Call.group_command g c) = record {
  target = Target.group g.value;
  is_command = true;
  byte = command_code c;
}
meaning (Call.group_arc g l) = record {
  target = Target.group g.value;
  is_command = false;
  byte = l.value;
}
meaning (Call.broadcast_command c) = record {
  target = Target.broadcast;
  is_command = true;
  byte = command_code c;
}
meaning (Call.broadcast_arc l) = record {
  target = Target.broadcast;
  is_command = false;
  byte = l.value;
}
meaning (Call.special_command c p) = record {
  target = Target.special (special_code c);
  is_command = true;
  byte = p;
}

make_frame_bytes :
    (a d : ℕ)
    → a < 256
    → d < 256
    → (address_byte (make_frame a d) ≡ a) × (data_byte (make_frame a d) ≡ d)
unfolding make_frame
make_frame_bytes a d ha hd = omega (arith, bit_or_pack 8 a d hd)

reads :
    (a b d : ℕ) {t : Target} {is_command : Bool}
    → a ≡ b
    → b < 256
    → d < 256
    → target_of b ≡ t
    → (b % 2 == 1) ≡ is_command
    → see (make_frame a d) ≡ record { target = t; is_command = is_command; byte = d }
reads a b d e hb hd t c = let (p, q) = make_frame_bytes b d hb hd in rw (e, p, q) (cc (t, c))

-- The address bytes that the builders compute with `|`.
short_byte : (v : ℕ) → v ≤ 63 → u8 (bit_or (u8 (v * 2 ^ 1)) 0x01) ≡ v * 2 + 1
short_byte v h =
    let e : u8 (v * 2 ^ 1) ≡ v * 2 ^ 1 = omega arith in
    rw e (omega (arith, bit_or_pack 1 v 1 (omega arith)))

group_bytes :
    all_below 16 (λ v.
      u8 (bit_or 0x81 (u8 (v * 2 ^ 1))) == 128 + v * 2 + 1
      && u8 (bit_or 0x80 (u8 (v * 2 ^ 1))) == 128 + v * 2)
    ≡ true
unfolding all_below
group_bytes = refl

group_byte :
    (v : ℕ)
    → v ≤ 15
    → (u8 (bit_or 0x81 (u8 (v * 2 ^ 1))) ≡ 128 + v * 2 + 1)
      × (u8 (bit_or 0x80 (u8 (v * 2 ^ 1))) ≡ 128 + v * 2)
group_byte v h = ground (arith, all_below-at 16 _ v group_bytes (omega arith))

-- Every frame says what its caller asked for: a reader recovers the addressee, whether the byte is a
-- command, and the byte, for addresses, levels and parameters in range.
pub see-frame_of : (c : Call) → IsCall c → see (frame_of c) ≡ meaning c
unfolding make_short_command make_short_arc make_group_command make_group_arc make_broadcast_command
    make_broadcast_arc make_special_command
see-frame_of (Call.short_command a c) h =
    reads _ (a.value * 2 + 1) _ (short_byte a.value h) (omega arith) (command_code-lt c)
      (ground arith) (ground arith)
see-frame_of (Call.short_arc a l) h =
    reads _ (a.value * 2) _ (omega arith) (omega arith) (omega arith) (ground arith) (ground arith)
see-frame_of (Call.group_command a c) h =
    reads _ (128 + a.value * 2 + 1) _ (group_byte a.value h).0 (omega arith) (command_code-lt c)
      (ground arith) (ground arith)
see-frame_of (Call.group_arc a l) h =
    reads _ (128 + a.value * 2) _ (group_byte a.value h.0).1 (omega arith) (omega arith)
      (ground arith) (ground arith)
see-frame_of (Call.broadcast_command c) h =
    reads _ 0xff _ refl (omega arith) (command_code-lt c) refl refl
see-frame_of (Call.broadcast_arc l) h = reads _ 0xfe _ refl (omega arith) (omega arith) refl refl
see-frame_of (Call.special_command c p) h =
    reads _ (special_code c) _ refl (omega (arith, special_code_bounds c)) h
      (ground (arith, special_code_bounds c)) (ground (arith, special_code_bounds c))
