-- ===== src/Callee/Other.antt =====
-- The other functions known by their path: pointer writes and reads, locks, epochs, buffers,
-- `MaybeUninit` and file descriptors (crates/san/src/analysis/transfer.rs), and the accessors of
-- owned buffers (crates/san/src/lib.rs).
use Prim.Native.String.{String}
use san.Base.{Bool, false, ◌&&◌, ◌||◌, not, List, [], ◌∷◌, if◌then◌else◌}
use san.Base.Texts.{Text, codes, ends_with, ends_with_any, has_text, has_any}

abbrev pub copy_ends : List String
copy_ends = "ptr::copy" ∷ "ptr::copy_nonoverlapping" ∷ []

unfoldable pub is_global_ptr_copy_to_second_arg : Text → Bool
unfolding ends_with_any has_text
is_global_ptr_copy_to_second_arg path =
    ends_with_any path copy_ends
    && not (has_text path (codes "const_ptr"))
    && not (has_text path (codes "mut_ptr"))
    && not (has_text path (codes "NonNull"))

abbrev pub raw_ptr_types : List String
raw_ptr_types = "const_ptr" ∷ "mut_ptr" ∷ []

abbrev pub write_ends : List String
write_ends =
    "::write" ∷ "::write_unaligned" ∷ "::write_bytes" ∷ "::copy_from" ∷ "::copy_from_nonoverlapping"
    ∷ []

unfoldable pub is_ptr_write_to_first_arg : Text → Bool
unfolding ends_with_any has_any has_text
is_ptr_write_to_first_arg path =
    let is_raw_ptr = has_any path raw_ptr_types in
    let is_nonnull = has_text path (codes "NonNull") in
    let is_write = ends_with_any path write_ends in (is_raw_ptr || is_nonnull) && is_write

abbrev pub pure_read_ends : List String
pure_read_ends =
    "::is_null" ∷ "::is_aligned" ∷ "::is_aligned_to" ∷ "::addr" ∷ "::expose_provenance" ∷ "::as_ptr"
    ∷ "::guaranteed_ne" ∷ "::guaranteed_eq" ∷ "::align_offset" ∷ "::offset_from"
    ∷ "::byte_offset_from" ∷ "::sub_ptr" ∷ []

unfoldable pub is_ptr_pure_read : Text → Bool
unfolding ends_with_any has_any has_text
is_ptr_pure_read path =
    let is_raw_ptr = has_any path raw_ptr_types in
    let is_nonnull = has_text path (codes "NonNull") in
    let is_predicate = ends_with_any path pure_read_ends in
    (is_raw_ptr || is_nonnull) && is_predicate

abbrev pub pin_ends : List String
pin_ends = "::pin" ∷ "::pin_reuse" ∷ []

unfoldable pub is_epoch_pin : Text → Bool
unfolding ends_with_any has_text
is_epoch_pin path = ends_with_any path pin_ends && has_text path (codes "epoch")

abbrev pub acquire_ends : List String
acquire_ends = "::lock" ∷ "::try_lock" ∷ "::lock_arc" ∷ []

abbrev pub lock_types : List String
lock_types =
    "::Mutex::" ∷ "::Mutex<" ∷ "::RwLock::" ∷ "::RwLock<" ∷ "::ReentrantMutex::"
    ∷ "::ReentrantMutex<" ∷ []

unfoldable pub is_lock_acquire : Text → Bool
unfolding ends_with_any has_any
is_lock_acquire path =
    let is_acquire = ends_with_any path acquire_ends in
    let is_sync = has_any path lock_types in is_acquire && is_sync

abbrev pub force_unlock_ends : List String
force_unlock_ends =
    "::force_unlock" ∷ "::force_unlock_fair" ∷ "::force_unlock_read" ∷ "::force_unlock_write"
    ∷ "::force_unlock_read_fair" ∷ "::force_unlock_write_fair" ∷ []

unfoldable pub is_force_unlock : Text → Bool
unfolding ends_with_any
is_force_unlock path = ends_with_any path force_unlock_ends

abbrev pub shared_deref_ends : List String
shared_deref_ends = "::deref" ∷ "::deref_mut" ∷ "::as_ref" ∷ []

unfoldable pub is_shared_deref : Text → Bool
unfolding ends_with_any has_text
is_shared_deref path = ends_with_any path shared_deref_ends && has_text path (codes "Shared")

abbrev pub init_ends : List String
init_ends = "::new" ∷ "::zeroed" ∷ []

unfoldable pub is_maybe_uninit_init : Text → Bool
unfolding ends_with_any has_text
is_maybe_uninit_init path = has_text path (codes "MaybeUninit") && ends_with_any path init_ends

unfoldable pub is_maybe_uninit_write : Text → Bool
unfolding ends_with has_text
is_maybe_uninit_write path = has_text path (codes "MaybeUninit") && ends_with path (codes "::write")

unfoldable pub is_maybe_uninit_as_mut_ptr : Text → Bool
unfolding ends_with has_text
is_maybe_uninit_as_mut_ptr path =
    has_text path (codes "MaybeUninit") && ends_with path (codes "::as_mut_ptr")

abbrev pub buf_write_ends : List String
buf_write_ends =
    "::put_slice" ∷ "::put_bytes" ∷ "::put" ∷ "::put_u8" ∷ "::put_i8" ∷ "::put_u16" ∷ "::put_u16_le"
    ∷ "::put_u16_ne" ∷ "::put_i16" ∷ "::put_i16_le" ∷ "::put_i16_ne" ∷ "::put_u32" ∷ "::put_u32_le"
    ∷ "::put_u32_ne" ∷ "::put_i32" ∷ "::put_i32_le" ∷ "::put_i32_ne" ∷ "::put_u64" ∷ "::put_u64_le"
    ∷ "::put_u64_ne" ∷ "::put_i64" ∷ "::put_i64_le" ∷ "::put_i64_ne" ∷ "::put_f32" ∷ "::put_f32_le"
    ∷ "::put_f32_ne" ∷ "::put_f64" ∷ "::put_f64_le" ∷ "::put_f64_ne" ∷ []

unfoldable pub is_buf_write : Text → Bool
unfolding ends_with_any
is_buf_write path = ends_with_any path buf_write_ends

unfoldable pub is_maybe_uninit_assume_init : Text → Bool
unfolding has_text
is_maybe_uninit_assume_init path =
    has_text path (codes "MaybeUninit") && has_text path (codes "assume_init")

abbrev pub into_fd_ends : List String
into_fd_ends = "::into_raw_fd" ∷ "::into_raw_socket" ∷ "::into_raw_handle" ∷ []

unfoldable pub is_into_raw_fd : Text → Bool
unfolding ends_with_any
is_into_raw_fd path = ends_with_any path into_fd_ends

abbrev pub from_fd_ends : List String
from_fd_ends =
    "::from_raw_fd" ∷ "::from_raw_socket" ∷ "::from_raw_handle" ∷ "::from_raw_handle_or_invalid"
    ∷ []

abbrev pub borrowed_types : List String
borrowed_types = "BorrowedFd" ∷ "BorrowedSocket" ∷ []

unfoldable pub is_from_raw_fd_call : Text → Bool
unfolding ends_with_any ends_with has_any
is_from_raw_fd_call path =
    ends_with_any path from_fd_ends
    || ends_with path (codes "::borrow_raw") && has_any path borrowed_types

abbrev pub buffer_types : List String
buffer_types = "vec::Vec" ∷ "string::String" ∷ []

abbrev pub realloc_method_ends : List String
realloc_method_ends =
    "::reserve" ∷ "::reserve_exact" ∷ "::try_reserve" ∷ "::try_reserve_exact" ∷ "::shrink_to_fit"
    ∷ "::shrink_to" ∷ "::into_boxed_slice" ∷ "::push" ∷ "::push_str" ∷ "::insert" ∷ "::append"
    ∷ "::extend_from_slice" ∷ "::resize" ∷ "::resize_with" ∷ "::extend_from_within" ∷ "::insert_str"
    ∷ []

unfoldable pub is_reallocating_method : Text → Bool
unfolding ends_with_any has_any
is_reallocating_method path =
    let on_buffer = has_any path buffer_types in
    if not on_buffer then false else ends_with_any path realloc_method_ends

abbrev pub accessor_ends : List String
accessor_ends = "::as_mut_ptr" ∷ "::as_ptr" ∷ []

abbrev pub accessor_types : List String
accessor_types = "vec::Vec" ∷ "[T]" ∷ "string::String" ∷ []

abbrev pub nonnull_ends : List String
nonnull_ends = "::as_ptr" ∷ "::new_unchecked" ∷ "::new" ∷ "::as_mut" ∷ "::as_ref" ∷ []

abbrev pub transform_ends : List String
transform_ends =
    "::offset" ∷ "::add" ∷ "::sub" ∷ "::byte_offset" ∷ "::byte_add" ∷ "::byte_sub"
    ∷ "::wrapping_offset" ∷ "::wrapping_add" ∷ "::wrapping_sub" ∷ "::wrapping_byte_offset"
    ∷ "::wrapping_byte_add" ∷ "::wrapping_byte_sub" ∷ []

abbrev pub slice_ends : List String
slice_ends = "slice::from_raw_parts" ∷ "slice::from_raw_parts_mut" ∷ []

abbrev pub fat_ends : List String
fat_ends = "ptr::from_raw_parts" ∷ "ptr::from_raw_parts_mut" ∷ "ptr::with_metadata_of" ∷ []

unfoldable pub is_owned_buffer_accessor : Text → Bool
unfolding ends_with_any has_any has_text ends_with
is_owned_buffer_accessor path =
    let buffer_accessor = ends_with_any path accessor_ends && has_any path accessor_types in
    let nonnull_transform =
      has_text path (codes "NonNull")
      && (ends_with_any path nonnull_ends || has_text path (codes "::cast")) in
    let raw_ptr_transform =
      has_any path raw_ptr_types
      && (ends_with_any path transform_ends || has_text path (codes "::cast")) in
    let slice_build = ends_with_any path slice_ends in
    let fat_ptr_build = ends_with_any path fat_ends in
    let raw_waker = ends_with path (codes "RawWaker::new") in
    buffer_accessor || nonnull_transform || raw_ptr_transform || slice_build || fat_ptr_build
    || raw_waker
