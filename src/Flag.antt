-- ===== src/Flag.antt =====
-- The message flags and the sizes of mux.go and pool.go.
use nps_mux.Base.{ℕ, ◌-◌, ◌^◌}

abbrev pub mux_ping_flag : ℕ
mux_ping_flag = 0

abbrev pub mux_new_conn_ok : ℕ
mux_new_conn_ok = 1

abbrev pub mux_new_conn_fail : ℕ
mux_new_conn_fail = 2

abbrev pub mux_new_msg : ℕ
mux_new_msg = 3

abbrev pub mux_new_msg_part : ℕ
mux_new_msg_part = 4

abbrev pub mux_msg_send_ok : ℕ
mux_msg_send_ok = 5

abbrev pub mux_new_conn : ℕ
mux_new_conn = 6

abbrev pub mux_conn_close : ℕ
mux_conn_close = 7

abbrev pub mux_ping_return : ℕ
mux_ping_return = 8

-- The int32 -1 as its bit pattern.
abbrev pub mux_ping : ℕ
mux_ping = 2 ^ 32 - 1

abbrev pub pool_size_buffer : ℕ
pool_size_buffer = 4096

abbrev pub pool_size_window : ℕ
pool_size_window = pool_size_buffer - 2 - 4 - 4 - 1

abbrev pub maximum_segment_size : ℕ
maximum_segment_size = pool_size_window

abbrev pub maximum_window_size : ℕ
maximum_window_size = 2 ^ 27
