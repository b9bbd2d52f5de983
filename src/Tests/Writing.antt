-- ===== src/Tests/Writing.antt =====
-- The writer at a concrete group.
use pgzf_rs.Prelude.{◌≤◌, ℕ, ◌^◌, ◌<◌, ◌++◌, ◌≡◌, refl, true, none, List, [], ◌∷◌, arith}
use pgzf_rs.Prelude.Lists.{length, flatten, All}
use pgzf_rs.Prelude.Outcome.{ok, stuck}
use pgzf_rs.Cursor.{Cursor}
use pgzf_rs.Format.Header.{beg, dat, build_dat_header, build_idx_header}
use pgzf_rs.External.Models.{listed, stored, stored_laws, sequential, sequential_laws}
use pgzf_rs.Writer.{
  PendingBlock, PgzfWriter, with_config, chunks, write_batches, write_loop, push_block, finish,
  flush_pending,
}
use pgzf_rs.Writer.Finish.{finish-group_bytes}
use pgzf_rs.Format.Bytes.{u16_bytes, u32_bytes, u64_bytes}
use pgzf_rs.Writer.Holds.{IsWritable}
use pgzf_rs.Writer.File.{file_of}
use pgzf_rs.Writer.Pieces.{write_each, data_file, write_each-finish, write_each-same_data}
use pgzf_rs.Writer.Plan.{groups_bytes, chunks_of}
use pgzf_rs.Index.{total_uncompressed}
use pgzf_rs.Reader.State.{PgzfReader, open_reader}
use pgzf_rs.Reader.Read.{read_blocks}
use pgzf_rs.Reader.Groups.{IsReadableData}
use pgzf_rs.Reader.Written.{read_blocks-finish}
use pgzf_rs.Index.Types.{PgzfIndex}
use pgzf_rs.Index.Build.{build}
use pgzf_rs.Index.Exact.{IsIndexable}
use pgzf_rs.Index.Whole.{IsIndexOf, build-groups}
use pgzf_rs.Index.Written.{IsIndexed, groups_of, build-finish}
use pgzf_rs.Writer.Stuck.{write_loop-stuck}
use pgzf_rs.Writer.Layout.{entries, members, group_bytes}
use pgzf_rs.Writer.Blocks.{Appended, write_batches-Appended}
use pgzf_rs.Writer.Group.{IsGroup, Flushed, flush_pending-Flushed}

abbrev first_block : PendingBlock
first_block = record { bytes = 10 ∷ 20 ∷ 30 ∷ 40 ∷ []; block_type = beg }

abbrev second_block : PendingBlock
second_block = record { bytes = 50 ∷ []; block_type = dat }

-- A file with two bytes in it, and two blocks that wait.
abbrev writer : PgzfWriter
writer = record {
  inner = record { bytes = 1 ∷ 2 ∷ []; pos = 2 };
  config = record {
    block_size = 4;
    group_blocks = 2;
    compression_level = 6;
    cache_memory_limit_bytes = none;
    readahead_memory_limit_bytes = none;
    compression_batch_size = 1;
  };
  buffer = 0 ∷ 0 ∷ 0 ∷ 0 ∷ [];
  buffer_len = 0;
  pending_blocks = first_block ∷ second_block ∷ [];
  blocks_in_group = 2;
  group_start_offset = 2;
  total_uncompressed = 0;
  total_compressed = 0;
  total_blocks = 0;
  gc_pending = true;
}

writer-IsGroup : IsGroup writer first_block (second_block ∷ [])
writer-IsGroup = record {
  pending = refl;
  first = refl;
  at_end = refl;
  start = refl;
  gc = refl;
  batch = omega arith;
}

flush_pending-Flushed_example :
    ((flush_pending stored sequential writer).0 ≡ ok tt)
    × Flushed writer
        (flush_pending stored sequential writer).1
        (group_bytes stored 6 (stored_laws 6) first_block (second_block ∷ []))
flush_pending-Flushed_example =
    flush_pending-Flushed stored sequential 6 (stored_laws 6) sequential_laws writer first_block
      (second_block ∷ []) writer-IsGroup refl (omega arith) (omega arith)

abbrev two_batches : List (List PendingBlock)
two_batches = (first_block ∷ []) ∷ (second_block ∷ []) ∷ []

write_batches-Appended_example :
    ((write_batches stored sequential two_batches writer).0
      ≡ ok (entries stored 6 (stored_laws 6) (flatten two_batches)))
    × Appended writer
        (write_batches stored sequential two_batches writer).1
        (members stored 6 (stored_laws 6) (flatten two_batches))
write_batches-Appended_example =
    write_batches-Appended stored sequential 6 (stored_laws 6) sequential_laws writer two_batches
      refl refl

-- The same writer with no room in a block.
abbrev no_room : PgzfWriter
no_room = record writer { config = record writer.config { block_size = 0 } }

write_loop-stuck_example : (write_loop stored sequential 1000 (5 ∷ 6 ∷ []) no_room).0 ≡ stuck
write_loop-stuck_example = write_loop-stuck stored sequential 1000 5 (6 ∷ []) no_room refl refl

-- A writer with one block that waits and one byte in its buffer.
abbrev unfinished : PgzfWriter
unfinished = record writer {
  buffer = 50 ∷ 0 ∷ 0 ∷ 0 ∷ [];
  buffer_len = 1;
  pending_blocks = first_block ∷ [];
  blocks_in_group = 1;
}

unfinished-IsGroup : IsGroup (push_block unfinished) first_block (second_block ∷ [])
unfolding push_block
unfinished-IsGroup = record {
  pending = refl;
  first = refl;
  at_end = refl;
  start = refl;
  gc = refl;
  batch = omega arith;
}

finish-group_bytes_example :
    (c : Cursor) × (finish stored sequential unfinished ≡ ok c)
    × (c.bytes
        ≡ (1 ∷ 2 ∷ []) ++ group_bytes stored 6 (stored_laws 6) first_block (second_block ∷ []))
    × (c.pos ≡ length c.bytes)
finish-group_bytes_example =
    finish-group_bytes stored sequential 6 (stored_laws 6) sequential_laws unfinished first_block
      (second_block ∷ []) (omega arith) unfinished-IsGroup refl (omega arith) (omega arith)

-- Five bytes in two writes, behind two bytes that are in the file already.
abbrev two_writes : List (List ℕ)
two_writes = (10 ∷ 20 ∷ 30 ∷ []) ∷ (40 ∷ 50 ∷ []) ∷ []

abbrev three_writes : List (List ℕ)
three_writes = (10 ∷ []) ∷ (20 ∷ 30 ∷ 40 ∷ []) ∷ (50 ∷ []) ∷ []

writer-IsWritable : IsWritable 6 writer.config
writer-IsWritable = record {
  at_level = refl;
  block = omega arith;
  group = omega arith;
  batch = omega arith;
}

small_file :
    length
      (writer.inner.bytes ++ data_file stored 6 (stored_laws 6) writer.config (flatten two_writes))
    < 2 ^ 64
unfolding chunks u16_bytes u32_bytes u64_bytes build_dat_header build_idx_header
small_file = omega arith

write_each-finish_example :
    ((write_each stored sequential two_writes (with_config writer.inner writer.config)).0 ≡ ok tt)
    × (finish stored sequential
          (write_each stored sequential two_writes (with_config writer.inner writer.config)).1
        ≡ ok (
            file_of (
              writer.inner.bytes
              ++ data_file stored 6 (stored_laws 6) writer.config (flatten two_writes))))
write_each-finish_example =
    write_each-finish stored sequential 6 (stored_laws 6) sequential_laws writer.inner writer.config
      two_writes writer-IsWritable refl small_file

write_each-same_data_example :
    finish stored sequential
      (write_each stored sequential two_writes (with_config writer.inner writer.config)).1
    ≡ finish stored sequential
        (write_each stored sequential three_writes (with_config writer.inner writer.config)).1
write_each-same_data_example =
    write_each-same_data stored sequential 6 (stored_laws 6) sequential_laws writer.inner
      writer.config two_writes three_writes writer-IsWritable refl refl small_file

two_writes-IsIndexed : IsIndexed stored 6 (stored_laws 6) writer.config (flatten two_writes)
unfolding chunks
two_writes-IsIndexed = record {
  narrow = omega arith;
  empty = omega arith;
  small = (
    record { compressed = omega arith; plain = omega arith },
    (record { compressed = omega arith; plain = omega arith }, tt),
  );
  plain = omega arith;
}

small_alone :
    length (data_file stored 6 (stored_laws 6) writer.config (flatten two_writes)) < 2 ^ 64
small_alone = omega (arith, small_file)

build-finish_example :
    (file : Cursor) × (index : PgzfIndex) × (finish stored sequential
        (write_each stored sequential two_writes (with_config (file_of []) writer.config)).1
      ≡ ok file)
    × (build file ≡ (ok index, file))
    × IsIndexOf stored 6
        (stored_laws 6)
        index
        (groups_of stored 6 (stored_laws 6) writer.config (flatten two_writes))
    × (total_uncompressed index ≡ length (flatten two_writes))
build-finish_example =
    build-finish stored 6 (stored_laws 6) sequential sequential_laws writer.config two_writes
      writer-IsWritable two_writes-IsIndexed small_alone

-- Two groups, of two blocks and of one.
abbrev two_groups : List (List (List ℕ))
two_groups = (first_block.bytes ∷ second_block.bytes ∷ []) ∷ (first_block.bytes ∷ []) ∷ []

abbrev two_group_file : Cursor
two_group_file = file_of (groups_bytes stored 6 (stored_laws 6) two_groups)

two_groups-IsIndexable : All (IsIndexable stored 6 (stored_laws 6)) two_groups
two_groups-IsIndexable = (
  record {
    nonempty = omega arith;
    narrow = omega arith;
    small = (
      record { compressed = omega arith; plain = omega arith },
      (record { compressed = omega arith; plain = omega arith }, tt),
    );
  },
  (
    record {
      nonempty = omega arith;
      narrow = omega arith;
      small = (record { compressed = omega arith; plain = omega arith }, tt);
    },
    tt,
  ),
)

two_groups_small : length two_group_file.bytes < 2 ^ 64
unfolding u16_bytes u32_bytes u64_bytes build_dat_header build_idx_header
two_groups_small = omega arith

build-groups_example :
    (index : PgzfIndex) × (build two_group_file ≡ (ok index, file_of two_group_file.bytes))
    × IsIndexOf stored 6 (stored_laws 6) index two_groups
build-groups_example =
    build-groups stored 6 (stored_laws 6) two_group_file two_groups (omega arith)
      two_groups-IsIndexable refl two_groups_small (omega arith)

two_writes-IsReadableData :
    All
      (IsReadableData listed stored 6 (stored_laws 6))
      (chunks_of writer.config.block_size (flatten two_writes))
unfolding chunks
two_writes-IsReadableData = (
  record { compressed = omega arith; plain = omega arith },
  (record { compressed = omega arith; plain = omega arith }, tt),
)

few_blocks : length (chunks_of writer.config.block_size (flatten two_writes)) ≤ 2
unfolding chunks
few_blocks = omega arith

read_blocks-finish_example :
    (file : Cursor) × (r : PgzfReader listed) × (finish stored sequential
        (write_each stored sequential two_writes (with_config (file_of []) writer.config)).1
      ≡ ok file)
    × (open_reader listed file ≡ ok r)
    × ((read_blocks listed stored sequential 0 2 r).0 ≡ ok (flatten two_writes))
read_blocks-finish_example =
    read_blocks-finish listed stored sequential 6 (stored_laws 6) sequential_laws writer.config
      two_writes 2 writer-IsWritable (omega arith) (omega arith) two_writes-IsReadableData
      (omega arith) small_alone (omega arith) few_blocks (omega arith)
