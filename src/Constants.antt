-- ===== src/Constants.antt =====
-- src/constants.rs: the bytes and sizes of the format.
use pgzf_rs.Prelude.{ℕ, ◌^◌}

abbrev pub gzip_id1 : ℕ
gzip_id1 = 0x1f

abbrev pub gzip_id2 : ℕ
gzip_id2 = 0x8b

abbrev pub gzip_cm_deflate : ℕ
gzip_cm_deflate = 0x08

abbrev pub gzip_flg_fextra : ℕ
gzip_flg_fextra = 0x04

abbrev pub gzip_os_unix : ℕ
gzip_os_unix = 0x03

abbrev pub pgzf_xfl_marker : ℕ
pgzf_xfl_marker = 0xaa

abbrev pub gzip_fixed_header_size : ℕ
gzip_fixed_header_size = 10

abbrev pub beg_header_size : ℕ
beg_header_size = 32

abbrev pub dat_header_size : ℕ
dat_header_size = 20

abbrev pub idx_header_base_size : ℕ
idx_header_base_size = 24

abbrev pub pgzf_tail_size : ℕ
pgzf_tail_size = 8

abbrev pub zc_value_offset : ℕ
zc_value_offset = 16

abbrev pub gc_value_offset : ℕ
gc_value_offset = 24

-- The first and the second byte of the tags ZC, GC and IX.
abbrev pub tag_z : ℕ
tag_z = 0x5a

abbrev pub tag_g : ℕ
tag_g = 0x47

abbrev pub tag_c : ℕ
tag_c = 0x43

abbrev pub tag_i : ℕ
tag_i = 0x49

abbrev pub tag_x : ℕ
tag_x = 0x58

abbrev pub default_block_size : ℕ
default_block_size = 2 ^ 20

abbrev pub default_group_blocks : ℕ
default_group_blocks = 8000

abbrev pub default_compression_level : ℕ
default_compression_level = 6
