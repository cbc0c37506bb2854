-- ===== src/Proto/Codes.antt =====
-- The numbers of proto.h that the modelled code uses.
use chis_link.Common.{ℕ}

abbrev pub type_nop : ℕ
type_nop = 0x0

abbrev pub type_command : ℕ
type_command = 0x1

abbrev pub type_response : ℕ
type_response = 0x2

abbrev pub type_ack : ℕ
type_ack = 0x7

abbrev pub ch_control : ℕ
ch_control = 0x00

abbrev pub ch_ram_map : ℕ
ch_ram_map = 0x02

abbrev pub ctrl_nop : ℕ
ctrl_nop = 0x00

abbrev pub ctrl_hello : ℕ
ctrl_hello = 0x01

abbrev pub ctrl_caps : ℕ
ctrl_caps = 0x02

abbrev pub ctrl_set_poll_ticks : ℕ
ctrl_set_poll_ticks = 0x05

abbrev pub ram_map_put : ℕ
ram_map_put = 0x01

abbrev pub ram_map_get : ℕ
ram_map_get = 0x02

abbrev pub ram_map_remove : ℕ
ram_map_remove = 0x03

abbrev pub ram_map_clear : ℕ
ram_map_clear = 0x04

abbrev pub status_ok : ℕ
status_ok = 0

abbrev pub status_bad_packet : ℕ
status_bad_packet = 3

abbrev pub flag_needs_ack : ℕ
flag_needs_ack = 0x0010

abbrev pub cap_ram_map : ℕ
cap_ram_map = 0x00000800

abbrev pub frame_max_payload_bytes : ℕ
frame_max_payload_bytes = 32768

abbrev pub ram_map_key_max_bytes : ℕ
ram_map_key_max_bytes = 64

abbrev pub ram_map_value_max_bytes : ℕ
ram_map_value_max_bytes = 2048

abbrev pub ch_stream : ℕ
ch_stream = 0x07

abbrev pub stream_open : ℕ
stream_open = 0x01

abbrev pub stream_close : ℕ
stream_close = 0x02

abbrev pub stream_poll : ℕ
stream_poll = 0x03

abbrev pub stream_credit : ℕ
stream_credit = 0x04

abbrev pub stream_seek : ℕ
stream_seek = 0x05

abbrev pub stream_recv : ℕ
stream_recv = 0x08

abbrev pub stream_send : ℕ
stream_send = 0x09

abbrev pub stream_pump : ℕ
stream_pump = 0x0a

abbrev pub stream_kind_file : ℕ
stream_kind_file = 1

abbrev pub stream_open_path_offset : ℕ
stream_open_path_offset = 20

abbrev pub stream_send_data_offset : ℕ
stream_send_data_offset = 4

abbrev pub stream_block_size : ℕ
stream_block_size = 32768

abbrev pub status_timeout : ℕ
status_timeout = 5
