-- ===== src/Protocol/Commands.antt =====
-- components/dali_protocol/include/dali/protocol/dali_commands.h: the DALI opcodes.
use savantix_dali_edge_contr.Prelude.{ℕ, ◌<◌, ◌%◌, ◌≡◌, arith}

pub data DaliCommand : Type 0 where
  off up down : DaliCommand
  step_up step_down recall_max_level : DaliCommand
  recall_min_level step_down_and_off on_and_step_up : DaliCommand
  enable_dapc_sequence go_to_last_active_level go_to_scene_0 : DaliCommand
  go_to_scene_1 go_to_scene_2 go_to_scene_3 : DaliCommand
  go_to_scene_4 go_to_scene_5 go_to_scene_6 : DaliCommand
  go_to_scene_7 go_to_scene_8 go_to_scene_9 : DaliCommand
  go_to_scene_10 go_to_scene_11 go_to_scene_12 : DaliCommand
  go_to_scene_13 go_to_scene_14 go_to_scene_15 : DaliCommand
  reset store_actual_level_in_dtr save_persistent_variables : DaliCommand
  set_operating_mode_dtr reset_memory_bank_dtr identify_device : DaliCommand
  store_dtr_as_max_level store_dtr_as_min_level store_dtr_as_system_failure_level : DaliCommand
  store_dtr_as_power_on_level store_dtr_as_fade_time store_dtr_as_fade_rate : DaliCommand
  store_dtr_as_extended_fade_time store_dtr_as_scene_0 store_dtr_as_scene_1 : DaliCommand
  store_dtr_as_scene_2 store_dtr_as_scene_3 store_dtr_as_scene_4 : DaliCommand
  store_dtr_as_scene_5 store_dtr_as_scene_6 store_dtr_as_scene_7 : DaliCommand
  store_dtr_as_scene_8 store_dtr_as_scene_9 store_dtr_as_scene_10 : DaliCommand
  store_dtr_as_scene_11 store_dtr_as_scene_12 store_dtr_as_scene_13 : DaliCommand
  store_dtr_as_scene_14 store_dtr_as_scene_15 remove_from_scene_0 : DaliCommand
  remove_from_scene_1 remove_from_scene_2 remove_from_scene_3 : DaliCommand
  remove_from_scene_4 remove_from_scene_5 remove_from_scene_6 : DaliCommand
  remove_from_scene_7 remove_from_scene_8 remove_from_scene_9 : DaliCommand
  remove_from_scene_10 remove_from_scene_11 remove_from_scene_12 : DaliCommand
  remove_from_scene_13 remove_from_scene_14 remove_from_scene_15 : DaliCommand
  add_to_group_0 add_to_group_1 add_to_group_2 : DaliCommand
  add_to_group_3 add_to_group_4 add_to_group_5 : DaliCommand
  add_to_group_6 add_to_group_7 add_to_group_8 : DaliCommand
  add_to_group_9 add_to_group_10 add_to_group_11 : DaliCommand
  add_to_group_12 add_to_group_13 add_to_group_14 : DaliCommand
  add_to_group_15 remove_from_group_0 remove_from_group_1 : DaliCommand
  remove_from_group_2 remove_from_group_3 remove_from_group_4 : DaliCommand
  remove_from_group_5 remove_from_group_6 remove_from_group_7 : DaliCommand
  remove_from_group_8 remove_from_group_9 remove_from_group_10 : DaliCommand
  remove_from_group_11 remove_from_group_12 remove_from_group_13 : DaliCommand
  remove_from_group_14 remove_from_group_15 store_dtr_as_short_address : DaliCommand
  enable_write_memory query_status query_control_gear_present : DaliCommand
  query_lamp_failure query_lamp_power_on query_limit_error : DaliCommand
  query_reset_state query_missing_short_address query_version_number : DaliCommand
  query_content_dtr_0 query_power_failure query_content_dtr_1 : DaliCommand
  query_content_dtr_2 query_operating_mode query_light_source_type : DaliCommand
  query_device_type query_physical_minimum query_actual_level : DaliCommand
  query_max_level query_min_level query_power_on_level : DaliCommand
  query_system_failure_level query_fade_time_rate query_manufacturer_specific_mode : DaliCommand
  query_next_device_type query_extended_fade_time query_control_gear_failure : DaliCommand
  query_scene_level_0 query_scene_level_1 query_scene_level_2 : DaliCommand
  query_scene_level_3 query_scene_level_4 query_scene_level_5 : DaliCommand
  query_scene_level_6 query_scene_level_7 query_scene_level_8 : DaliCommand
  query_scene_level_9 query_scene_level_10 query_scene_level_11 : DaliCommand
  query_scene_level_12 query_scene_level_13 query_scene_level_14 : DaliCommand
  query_scene_level_15 query_groups_0_to_7 query_groups_8_to_15 : DaliCommand
  query_random_address_h query_random_address_m query_random_address_l : DaliCommand
  read_memory_location : DaliCommand

abbrev pub command_code : DaliCommand → ℕ
command_code DaliCommand.off = 0x00
command_code DaliCommand.up = 0x01
command_code DaliCommand.down = 0x02
command_code DaliCommand.step_up = 0x03
command_code DaliCommand.step_down = 0x04
command_code DaliCommand.recall_max_level = 0x05
command_code DaliCommand.recall_min_level = 0x06
command_code DaliCommand.step_down_and_off = 0x07
command_code DaliCommand.on_and_step_up = 0x08
command_code DaliCommand.enable_dapc_sequence = 0x09
command_code DaliCommand.go_to_last_active_level = 0x0a
command_code DaliCommand.go_to_scene_0 = 0x10
command_code DaliCommand.go_to_scene_1 = 0x11
command_code DaliCommand.go_to_scene_2 = 0x12
command_code DaliCommand.go_to_scene_3 = 0x13
command_code DaliCommand.go_to_scene_4 = 0x14
command_code DaliCommand.go_to_scene_5 = 0x15
command_code DaliCommand.go_to_scene_6 = 0x16
command_code DaliCommand.go_to_scene_7 = 0x17
command_code DaliCommand.go_to_scene_8 = 0x18
command_code DaliCommand.go_to_scene_9 = 0x19
command_code DaliCommand.go_to_scene_10 = 0x1a
command_code DaliCommand.go_to_scene_11 = 0x1b
command_code DaliCommand.go_to_scene_12 = 0x1c
command_code DaliCommand.go_to_scene_13 = 0x1d
command_code DaliCommand.go_to_scene_14 = 0x1e
command_code DaliCommand.go_to_scene_15 = 0x1f
command_code DaliCommand.reset = 0x20
command_code DaliCommand.store_actual_level_in_dtr = 0x21
command_code DaliCommand.save_persistent_variables = 0x24
command_code DaliCommand.set_operating_mode_dtr = 0x25
command_code DaliCommand.reset_memory_bank_dtr = 0x26
command_code DaliCommand.identify_device = 0x27
command_code DaliCommand.store_dtr_as_max_level = 0x28
command_code DaliCommand.store_dtr_as_min_level = 0x29
command_code DaliCommand.store_dtr_as_system_failure_level = 0x2a
command_code DaliCommand.store_dtr_as_power_on_level = 0x2b
command_code DaliCommand.store_dtr_as_fade_time = 0x2c
command_code DaliCommand.store_dtr_as_fade_rate = 0x2d
command_code DaliCommand.store_dtr_as_extended_fade_time = 0x2e
command_code DaliCommand.store_dtr_as_scene_0 = 0x40
command_code DaliCommand.store_dtr_as_scene_1 = 0x41
command_code DaliCommand.store_dtr_as_scene_2 = 0x42
command_code DaliCommand.store_dtr_as_scene_3 = 0x43
command_code DaliCommand.store_dtr_as_scene_4 = 0x44
command_code DaliCommand.store_dtr_as_scene_5 = 0x45
command_code DaliCommand.store_dtr_as_scene_6 = 0x46
command_code DaliCommand.store_dtr_as_scene_7 = 0x47
command_code DaliCommand.store_dtr_as_scene_8 = 0x48
command_code DaliCommand.store_dtr_as_scene_9 = 0x49
command_code DaliCommand.store_dtr_as_scene_10 = 0x4a
command_code DaliCommand.store_dtr_as_scene_11 = 0x4b
command_code DaliCommand.store_dtr_as_scene_12 = 0x4c
command_code DaliCommand.store_dtr_as_scene_13 = 0x4d
command_code DaliCommand.store_dtr_as_scene_14 = 0x4e
command_code DaliCommand.store_dtr_as_scene_15 = 0x4f
command_code DaliCommand.remove_from_scene_0 = 0x50
command_code DaliCommand.remove_from_scene_1 = 0x51
command_code DaliCommand.remove_from_scene_2 = 0x52
command_code DaliCommand.remove_from_scene_3 = 0x53
command_code DaliCommand.remove_from_scene_4 = 0x54
command_code DaliCommand.remove_from_scene_5 = 0x55
command_code DaliCommand.remove_from_scene_6 = 0x56
command_code DaliCommand.remove_from_scene_7 = 0x57
command_code DaliCommand.remove_from_scene_8 = 0x58
command_code DaliCommand.remove_from_scene_9 = 0x59
command_code DaliCommand.remove_from_scene_10 = 0x5a
command_code DaliCommand.remove_from_scene_11 = 0x5b
command_code DaliCommand.remove_from_scene_12 = 0x5c
command_code DaliCommand.remove_from_scene_13 = 0x5d
command_code DaliCommand.remove_from_scene_14 = 0x5e
command_code DaliCommand.remove_from_scene_15 = 0x5f
command_code DaliCommand.add_to_group_0 = 0x60
command_code DaliCommand.add_to_group_1 = 0x61
command_code DaliCommand.add_to_group_2 = 0x62
command_code DaliCommand.add_to_group_3 = 0x63
command_code DaliCommand.add_to_group_4 = 0x64
command_code DaliCommand.add_to_group_5 = 0x65
command_code DaliCommand.add_to_group_6 = 0x66
command_code DaliCommand.add_to_group_7 = 0x67
command_code DaliCommand.add_to_group_8 = 0x68
command_code DaliCommand.add_to_group_9 = 0x69
command_code DaliCommand.add_to_group_10 = 0x6a
command_code DaliCommand.add_to_group_11 = 0x6b
command_code DaliCommand.add_to_group_12 = 0x6c
command_code DaliCommand.add_to_group_13 = 0x6d
command_code DaliCommand.add_to_group_14 = 0x6e
command_code DaliCommand.add_to_group_15 = 0x6f
command_code DaliCommand.remove_from_group_0 = 0x70
command_code DaliCommand.remove_from_group_1 = 0x71
command_code DaliCommand.remove_from_group_2 = 0x72
command_code DaliCommand.remove_from_group_3 = 0x73
command_code DaliCommand.remove_from_group_4 = 0x74
command_code DaliCommand.remove_from_group_5 = 0x75
command_code DaliCommand.remove_from_group_6 = 0x76
command_code DaliCommand.remove_from_group_7 = 0x77
command_code DaliCommand.remove_from_group_8 = 0x78
command_code DaliCommand.remove_from_group_9 = 0x79
command_code DaliCommand.remove_from_group_10 = 0x7a
command_code DaliCommand.remove_from_group_11 = 0x7b
command_code DaliCommand.remove_from_group_12 = 0x7c
command_code DaliCommand.remove_from_group_13 = 0x7d
command_code DaliCommand.remove_from_group_14 = 0x7e
command_code DaliCommand.remove_from_group_15 = 0x7f
command_code DaliCommand.store_dtr_as_short_address = 0x80
command_code DaliCommand.enable_write_memory = 0x81
command_code DaliCommand.query_status = 0x90
command_code DaliCommand.query_control_gear_present = 0x91
command_code DaliCommand.query_lamp_failure = 0x92
command_code DaliCommand.query_lamp_power_on = 0x93
command_code DaliCommand.query_limit_error = 0x94
command_code DaliCommand.query_reset_state = 0x95
command_code DaliCommand.query_missing_short_address = 0x96
command_code DaliCommand.query_version_number = 0x97
command_code DaliCommand.query_content_dtr_0 = 0x98
command_code DaliCommand.query_power_failure = 0x9b
command_code DaliCommand.query_content_dtr_1 = 0x9c
command_code DaliCommand.query_content_dtr_2 = 0x9d
command_code DaliCommand.query_operating_mode = 0x9e
command_code DaliCommand.query_light_source_type = 0x9f
command_code DaliCommand.query_device_type = 0x99
command_code DaliCommand.query_physical_minimum = 0x9a
command_code DaliCommand.query_actual_level = 0xa0
command_code DaliCommand.query_max_level = 0xa1
command_code DaliCommand.query_min_level = 0xa2
command_code DaliCommand.query_power_on_level = 0xa3
command_code DaliCommand.query_system_failure_level = 0xa4
command_code DaliCommand.query_fade_time_rate = 0xa5
command_code DaliCommand.query_manufacturer_specific_mode = 0xa6
command_code DaliCommand.query_next_device_type = 0xa7
command_code DaliCommand.query_extended_fade_time = 0xa8
command_code DaliCommand.query_control_gear_failure = 0xaa
command_code DaliCommand.query_scene_level_0 = 0xb0
command_code DaliCommand.query_scene_level_1 = 0xb1
command_code DaliCommand.query_scene_level_2 = 0xb2
command_code DaliCommand.query_scene_level_3 = 0xb3
command_code DaliCommand.query_scene_level_4 = 0xb4
command_code DaliCommand.query_scene_level_5 = 0xb5
command_code DaliCommand.query_scene_level_6 = 0xb6
command_code DaliCommand.query_scene_level_7 = 0xb7
command_code DaliCommand.query_scene_level_8 = 0xb8
command_code DaliCommand.query_scene_level_9 = 0xb9
command_code DaliCommand.query_scene_level_10 = 0xba
command_code DaliCommand.query_scene_level_11 = 0xbb
command_code DaliCommand.query_scene_level_12 = 0xbc
command_code DaliCommand.query_scene_level_13 = 0xbd
command_code DaliCommand.query_scene_level_14 = 0xbe
command_code DaliCommand.query_scene_level_15 = 0xbf
command_code DaliCommand.query_groups_0_to_7 = 0xc0
command_code DaliCommand.query_groups_8_to_15 = 0xc1
command_code DaliCommand.query_random_address_h = 0xc2
command_code DaliCommand.query_random_address_m = 0xc3
command_code DaliCommand.query_random_address_l = 0xc4
command_code DaliCommand.read_memory_location = 0xc5

-- Every opcode is the byte that its enumerator names.
pub command_code-lt : (c : DaliCommand) → command_code c < 256
command_code-lt DaliCommand.off = omega arith
command_code-lt _ = omega arith

pub data DaliSpecialCommand : Type 0 where
  terminate set_dtr_0 initialise : DaliSpecialCommand
  randomise compare withdraw : DaliSpecialCommand
  set_search_address_h set_search_address_m set_search_address_l : DaliSpecialCommand
  program_short_address verify_short_address query_short_address : DaliSpecialCommand
  enable_device_type : DaliSpecialCommand

abbrev pub special_code : DaliSpecialCommand → ℕ
special_code DaliSpecialCommand.terminate = 0xa1
special_code DaliSpecialCommand.set_dtr_0 = 0xa3
special_code DaliSpecialCommand.initialise = 0xa5
special_code DaliSpecialCommand.randomise = 0xa7
special_code DaliSpecialCommand.compare = 0xa9
special_code DaliSpecialCommand.withdraw = 0xab
special_code DaliSpecialCommand.set_search_address_h = 0xb1
special_code DaliSpecialCommand.set_search_address_m = 0xb3
special_code DaliSpecialCommand.set_search_address_l = 0xb5
special_code DaliSpecialCommand.program_short_address = 0xb7
special_code DaliSpecialCommand.verify_short_address = 0xb9
special_code DaliSpecialCommand.query_short_address = 0xbb
special_code DaliSpecialCommand.enable_device_type = 0xc1

-- A special command's opcode stands where an address byte does, above the group addresses and below
-- broadcast, and is odd.
pub special_code_bounds :
    (c : DaliSpecialCommand)
    → (160 < special_code c) × (special_code c < 194) × (special_code c % 2 ≡ 1)
special_code_bounds DaliSpecialCommand.terminate = omega arith
special_code_bounds _ = omega arith
