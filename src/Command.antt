-- ===== src/Command.antt =====
-- dos/src/serframe.h: the command IDs that the DOS side sends.
use serial_dfs.Base.{ℕ}

abbrev pub cmd_ping : ℕ
cmd_ping = 0x01

abbrev pub cmd_list_dir : ℕ
cmd_list_dir = 0x10

abbrev pub cmd_list_dir_next : ℕ
cmd_list_dir_next = 0x11

abbrev pub cmd_open : ℕ
cmd_open = 0x20

abbrev pub cmd_create : ℕ
cmd_create = 0x21

abbrev pub cmd_read : ℕ
cmd_read = 0x22

abbrev pub cmd_write : ℕ
cmd_write = 0x23

abbrev pub cmd_seek : ℕ
cmd_seek = 0x24

abbrev pub cmd_close : ℕ
cmd_close = 0x25

abbrev pub cmd_delete : ℕ
cmd_delete = 0x30

abbrev pub cmd_rename : ℕ
cmd_rename = 0x31

abbrev pub cmd_mkdir : ℕ
cmd_mkdir = 0x32

abbrev pub cmd_rmdir : ℕ
cmd_rmdir = 0x33

abbrev pub cmd_get_attr : ℕ
cmd_get_attr = 0x40

abbrev pub cmd_set_attr : ℕ
cmd_set_attr = 0x41

abbrev pub cmd_flush : ℕ
cmd_flush = 0x50
