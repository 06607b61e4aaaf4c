-- ===== src/Metadata/Kinds.antt =====
-- The kinds of kernel arguments in light-rocr/loader/metadata_reader.cpp: `kernel_argument_kind`,
-- `is_hidden_argument` and `required_hidden_argument_size`.
use light_rocm_runtime.Prelude.{
  ℕ, Bool, true, false, Option, none, some, List, [], ◌∷◌, ◌++◌, if◌then◌else◌,
}
use light_rocm_runtime.Hidden.{
  KernelArgumentKind, by_value, global_buffer, dynamic_shared_pointer, sampler, image, pipe, queue,
  hidden_block_count_x, hidden_block_count_y, hidden_block_count_z, hidden_group_size_x,
  hidden_group_size_y, hidden_group_size_z, hidden_remainder_x, hidden_remainder_y,
  hidden_remainder_z, hidden_global_offset_x, hidden_global_offset_y, hidden_global_offset_z,
  hidden_grid_dims, hidden_none, hidden_printf_buffer, hidden_hostcall_buffer, hidden_heap_v1,
  hidden_default_queue, hidden_completion_action, hidden_multi_grid_sync_arg,
  hidden_dynamic_lds_size, hidden_private_base, hidden_shared_base, hidden_queue_ptr,
}
use light_rocm_runtime.Metadata.MessagePack.{bytes_equal}

pub record KindName : Type 0 where
  pub kind : KernelArgumentKind
  pub name : List ℕ

abbrev kind_named : KernelArgumentKind → List ℕ → KindName
kind_named kind name = record { kind = kind; name = name }

abbrev hidden_text : List ℕ → List ℕ
hidden_text rest = (b'h' ∷ b'i' ∷ b'd' ∷ b'd' ∷ b'e' ∷ b'n' ∷ b'_' ∷ []) ++ rest

abbrev pub kinds : List KindName
kinds =
    kind_named by_value (b'b' ∷ b'y' ∷ b'_' ∷ b'v' ∷ b'a' ∷ b'l' ∷ b'u' ∷ b'e' ∷ [])
    ∷ kind_named global_buffer (
        b'g' ∷ b'l' ∷ b'o' ∷ b'b' ∷ b'a' ∷ b'l' ∷ b'_' ∷ b'b' ∷ b'u' ∷ b'f' ∷ b'f' ∷ b'e' ∷ b'r'
        ∷ [])
    ∷ kind_named dynamic_shared_pointer (
        b'd' ∷ b'y' ∷ b'n' ∷ b'a' ∷ b'm' ∷ b'i' ∷ b'c' ∷ b'_' ∷ b's' ∷ b'h' ∷ b'a' ∷ b'r' ∷ b'e'
        ∷ b'd' ∷ b'_' ∷ b'p' ∷ b'o' ∷ b'i' ∷ b'n' ∷ b't' ∷ b'e' ∷ b'r' ∷ [])
    ∷ kind_named sampler (b's' ∷ b'a' ∷ b'm' ∷ b'p' ∷ b'l' ∷ b'e' ∷ b'r' ∷ [])
    ∷ kind_named image (b'i' ∷ b'm' ∷ b'a' ∷ b'g' ∷ b'e' ∷ [])
    ∷ kind_named pipe (b'p' ∷ b'i' ∷ b'p' ∷ b'e' ∷ [])
    ∷ kind_named queue (b'q' ∷ b'u' ∷ b'e' ∷ b'u' ∷ b'e' ∷ [])
    ∷ kind_named hidden_block_count_x (
        hidden_text (
          b'b' ∷ b'l' ∷ b'o' ∷ b'c' ∷ b'k' ∷ b'_' ∷ b'c' ∷ b'o' ∷ b'u' ∷ b'n' ∷ b't' ∷ b'_' ∷ b'x'
          ∷ []))
    ∷ kind_named hidden_block_count_y (
        hidden_text (
          b'b' ∷ b'l' ∷ b'o' ∷ b'c' ∷ b'k' ∷ b'_' ∷ b'c' ∷ b'o' ∷ b'u' ∷ b'n' ∷ b't' ∷ b'_' ∷ b'y'
          ∷ []))
    ∷ kind_named hidden_block_count_z (
        hidden_text (
          b'b' ∷ b'l' ∷ b'o' ∷ b'c' ∷ b'k' ∷ b'_' ∷ b'c' ∷ b'o' ∷ b'u' ∷ b'n' ∷ b't' ∷ b'_' ∷ b'z'
          ∷ []))
    ∷ kind_named hidden_group_size_x (
        hidden_text
          (b'g' ∷ b'r' ∷ b'o' ∷ b'u' ∷ b'p' ∷ b'_' ∷ b's' ∷ b'i' ∷ b'z' ∷ b'e' ∷ b'_' ∷ b'x' ∷ []))
    ∷ kind_named hidden_group_size_y (
        hidden_text
          (b'g' ∷ b'r' ∷ b'o' ∷ b'u' ∷ b'p' ∷ b'_' ∷ b's' ∷ b'i' ∷ b'z' ∷ b'e' ∷ b'_' ∷ b'y' ∷ []))
    ∷ kind_named hidden_group_size_z (
        hidden_text
          (b'g' ∷ b'r' ∷ b'o' ∷ b'u' ∷ b'p' ∷ b'_' ∷ b's' ∷ b'i' ∷ b'z' ∷ b'e' ∷ b'_' ∷ b'z' ∷ []))
    ∷ kind_named hidden_remainder_x (
        hidden_text
          (b'r' ∷ b'e' ∷ b'm' ∷ b'a' ∷ b'i' ∷ b'n' ∷ b'd' ∷ b'e' ∷ b'r' ∷ b'_' ∷ b'x' ∷ []))
    ∷ kind_named hidden_remainder_y (
        hidden_text
          (b'r' ∷ b'e' ∷ b'm' ∷ b'a' ∷ b'i' ∷ b'n' ∷ b'd' ∷ b'e' ∷ b'r' ∷ b'_' ∷ b'y' ∷ []))
    ∷ kind_named hidden_remainder_z (
        hidden_text
          (b'r' ∷ b'e' ∷ b'm' ∷ b'a' ∷ b'i' ∷ b'n' ∷ b'd' ∷ b'e' ∷ b'r' ∷ b'_' ∷ b'z' ∷ []))
    ∷ kind_named hidden_global_offset_x (
        hidden_text (
          b'g' ∷ b'l' ∷ b'o' ∷ b'b' ∷ b'a' ∷ b'l' ∷ b'_' ∷ b'o' ∷ b'f' ∷ b'f' ∷ b's' ∷ b'e' ∷ b't'
          ∷ b'_' ∷ b'x' ∷ []))
    ∷ kind_named hidden_global_offset_y (
        hidden_text (
          b'g' ∷ b'l' ∷ b'o' ∷ b'b' ∷ b'a' ∷ b'l' ∷ b'_' ∷ b'o' ∷ b'f' ∷ b'f' ∷ b's' ∷ b'e' ∷ b't'
          ∷ b'_' ∷ b'y' ∷ []))
    ∷ kind_named hidden_global_offset_z (
        hidden_text (
          b'g' ∷ b'l' ∷ b'o' ∷ b'b' ∷ b'a' ∷ b'l' ∷ b'_' ∷ b'o' ∷ b'f' ∷ b'f' ∷ b's' ∷ b'e' ∷ b't'
          ∷ b'_' ∷ b'z' ∷ []))
    ∷ kind_named hidden_grid_dims
        (hidden_text (b'g' ∷ b'r' ∷ b'i' ∷ b'd' ∷ b'_' ∷ b'd' ∷ b'i' ∷ b'm' ∷ b's' ∷ []))
    ∷ kind_named hidden_none (hidden_text (b'n' ∷ b'o' ∷ b'n' ∷ b'e' ∷ []))
    ∷ kind_named hidden_printf_buffer (
        hidden_text (
          b'p' ∷ b'r' ∷ b'i' ∷ b'n' ∷ b't' ∷ b'f' ∷ b'_' ∷ b'b' ∷ b'u' ∷ b'f' ∷ b'f' ∷ b'e' ∷ b'r'
          ∷ []))
    ∷ kind_named hidden_hostcall_buffer (
        hidden_text (
          b'h' ∷ b'o' ∷ b's' ∷ b't' ∷ b'c' ∷ b'a' ∷ b'l' ∷ b'l' ∷ b'_' ∷ b'b' ∷ b'u' ∷ b'f' ∷ b'f'
          ∷ b'e' ∷ b'r' ∷ []))
    ∷ kind_named hidden_heap_v1 (hidden_text (b'h' ∷ b'e' ∷ b'a' ∷ b'p' ∷ b'_' ∷ b'v' ∷ b'1' ∷ []))
    ∷ kind_named hidden_default_queue (
        hidden_text (
          b'd' ∷ b'e' ∷ b'f' ∷ b'a' ∷ b'u' ∷ b'l' ∷ b't' ∷ b'_' ∷ b'q' ∷ b'u' ∷ b'e' ∷ b'u' ∷ b'e'
          ∷ []))
    ∷ kind_named hidden_completion_action (
        hidden_text (
          b'c' ∷ b'o' ∷ b'm' ∷ b'p' ∷ b'l' ∷ b'e' ∷ b't' ∷ b'i' ∷ b'o' ∷ b'n' ∷ b'_' ∷ b'a' ∷ b'c'
          ∷ b't' ∷ b'i' ∷ b'o' ∷ b'n' ∷ []))
    ∷ kind_named hidden_multi_grid_sync_arg (
        hidden_text (
          b'm' ∷ b'u' ∷ b'l' ∷ b't' ∷ b'i' ∷ b'g' ∷ b'r' ∷ b'i' ∷ b'd' ∷ b'_' ∷ b's' ∷ b'y' ∷ b'n'
          ∷ b'c' ∷ b'_' ∷ b'a' ∷ b'r' ∷ b'g' ∷ []))
    ∷ kind_named hidden_dynamic_lds_size (
        hidden_text (
          b'd' ∷ b'y' ∷ b'n' ∷ b'a' ∷ b'm' ∷ b'i' ∷ b'c' ∷ b'_' ∷ b'l' ∷ b'd' ∷ b's' ∷ b'_' ∷ b's'
          ∷ b'i' ∷ b'z' ∷ b'e' ∷ []))
    ∷ kind_named hidden_private_base (
        hidden_text
          (b'p' ∷ b'r' ∷ b'i' ∷ b'v' ∷ b'a' ∷ b't' ∷ b'e' ∷ b'_' ∷ b'b' ∷ b'a' ∷ b's' ∷ b'e' ∷ []))
    ∷ kind_named hidden_shared_base (
        hidden_text
          (b's' ∷ b'h' ∷ b'a' ∷ b'r' ∷ b'e' ∷ b'd' ∷ b'_' ∷ b'b' ∷ b'a' ∷ b's' ∷ b'e' ∷ []))
    ∷ kind_named hidden_queue_ptr
        (hidden_text (b'q' ∷ b'u' ∷ b'e' ∷ b'u' ∷ b'e' ∷ b'_' ∷ b'p' ∷ b't' ∷ b'r' ∷ []))
    ∷ []

find_kind : List ℕ → List KindName → Option KernelArgumentKind
unfolding bytes_equal
find_kind name [] = none
find_kind name (entry ∷ rest) =
    if bytes_equal name entry.name then some entry.kind else find_kind name rest

-- `none` for false.
unfoldable pub kernel_argument_kind : List ℕ → Option KernelArgumentKind
unfolding find_kind
kernel_argument_kind name = find_kind name kinds

unfoldable pub is_hidden_argument : KernelArgumentKind → Bool
is_hidden_argument by_value = false
is_hidden_argument global_buffer = false
is_hidden_argument dynamic_shared_pointer = false
is_hidden_argument sampler = false
is_hidden_argument image = false
is_hidden_argument pipe = false
is_hidden_argument queue = false
is_hidden_argument _ = true

unfoldable pub required_hidden_argument_size : KernelArgumentKind → ℕ
required_hidden_argument_size hidden_block_count_x = 4
required_hidden_argument_size hidden_block_count_y = 4
required_hidden_argument_size hidden_block_count_z = 4
required_hidden_argument_size hidden_dynamic_lds_size = 4
required_hidden_argument_size hidden_private_base = 4
required_hidden_argument_size hidden_shared_base = 4
required_hidden_argument_size hidden_group_size_x = 2
required_hidden_argument_size hidden_group_size_y = 2
required_hidden_argument_size hidden_group_size_z = 2
required_hidden_argument_size hidden_remainder_x = 2
required_hidden_argument_size hidden_remainder_y = 2
required_hidden_argument_size hidden_remainder_z = 2
required_hidden_argument_size hidden_grid_dims = 2
required_hidden_argument_size hidden_global_offset_x = 8
required_hidden_argument_size hidden_global_offset_y = 8
required_hidden_argument_size hidden_global_offset_z = 8
required_hidden_argument_size hidden_printf_buffer = 8
required_hidden_argument_size hidden_hostcall_buffer = 8
required_hidden_argument_size hidden_heap_v1 = 8
required_hidden_argument_size hidden_default_queue = 8
required_hidden_argument_size hidden_completion_action = 8
required_hidden_argument_size hidden_multi_grid_sync_arg = 8
required_hidden_argument_size hidden_queue_ptr = 8
required_hidden_argument_size _ = 0
