-- ===== src/Callee.antt =====
-- The functions that take, give and read ownership, by their path
-- (crates/san/src/analysis/transfer.rs). The paths that rustc prints are compared by code points.
pub mod Other
pub mod Disjoint
pub mod Names
use Prim.Native.String.{String}
use san.Base.{Bool, ◌&&◌, ◌||◌, not, List, [], ◌∷◌, if◌then◌else◌}
use san.Base.Texts.{Text, codes, ends_with, ends_with_any, has_text, has_any, is_any}

abbrev pub into_raw_ends : List String
into_raw_ends =
    "::into_raw" ∷ "::into_raw_with_allocator" ∷ "::into_non_null" ∷ "::into_raw_parts"
    ∷ "::into_raw_parts_with_alloc" ∷ []

abbrev pub into_raw_types : List String
into_raw_types =
    "::Box::" ∷ "::Box<" ∷ "::Arc::" ∷ "::Arc<" ∷ "::Rc::" ∷ "::Rc<" ∷ "::Vec::" ∷ "::Vec<"
    ∷ "::String::" ∷ "::Thread::" ∷ "::Weak::" ∷ "::Weak<" ∷ "::CString::" ∷ "::CStr::" ∷ "triomphe"
    ∷ []

abbrev pub alloc_paths : List String
alloc_paths =
    "std::alloc::alloc" ∷ "core::alloc::alloc" ∷ "alloc::alloc::alloc" ∷ "__rust_alloc"
    ∷ "std::alloc::alloc_zeroed" ∷ "core::alloc::alloc_zeroed" ∷ "alloc::alloc::alloc_zeroed"
    ∷ "__rust_alloc_zeroed" ∷ []

abbrev pub alloc_ends : List String
alloc_ends = "Allocator::allocate" ∷ "Allocator::allocate_zeroed" ∷ []

unfoldable pub is_into_raw : Text → Bool
unfolding ends_with_any has_any is_any
is_into_raw path =
    let tail_matches = ends_with_any path into_raw_ends in
    let type_matches = has_any path into_raw_types in
    let raw_alloc = is_any path alloc_paths || ends_with_any path alloc_ends in
    tail_matches && type_matches || raw_alloc

abbrev pub from_raw_types : List String
from_raw_types =
    "::Box::" ∷ "::Box<" ∷ "::Arc::" ∷ "::Arc<" ∷ "::Rc::" ∷ "::Rc<" ∷ "::Weak::" ∷ "::Weak<"
    ∷ "::Thread::" ∷ "::CString::" ∷ "::CStr::" ∷ "triomphe" ∷ []

abbrev pub from_raw_in_types : List String
from_raw_in_types = "::Box::" ∷ "::Box<" ∷ "::Arc::" ∷ "::Arc<" ∷ "::Rc::" ∷ "::Rc<" ∷ []

abbrev pub from_non_null_ends : List String
from_non_null_ends = "::from_non_null" ∷ "::from_non_null_in" ∷ []

abbrev pub box_types : List String
box_types = "::Box::" ∷ "::Box<" ∷ []

abbrev pub from_raw_parts_ends : List String
from_raw_parts_ends = "::from_raw_parts" ∷ "::from_raw_parts_in" ∷ []

abbrev pub vec_types : List String
vec_types = "::Vec::" ∷ "::Vec<" ∷ "::String::" ∷ []

abbrev pub dealloc_paths : List String
dealloc_paths =
    "std::alloc::dealloc" ∷ "core::alloc::dealloc" ∷ "alloc::alloc::dealloc" ∷ "__rust_dealloc" ∷ []

unfoldable pub is_from_raw : Text → Bool
unfolding ends_with_any has_any is_any ends_with has_text
is_from_raw path =
    let direct = ends_with path (codes "::from_raw") && has_any path from_raw_types in
    let from_raw_in = ends_with path (codes "::from_raw_in") && has_any path from_raw_in_types in
    let from_non_null = ends_with_any path from_non_null_ends && has_any path box_types in
    let vec_parts = ends_with_any path from_raw_parts_ends && has_any path vec_types in
    let triomphe_thin =
      ends_with path (codes "::from_raw_slice") && has_text path (codes "triomphe") in
    let raw_dealloc = is_any path dealloc_paths || ends_with path (codes "Allocator::deallocate") in
    direct || from_raw_in || from_non_null || vec_parts || raw_dealloc || triomphe_thin

abbrev pub forget_paths : List String
forget_paths = "std::mem::forget" ∷ "core::mem::forget" ∷ []

unfoldable pub is_mem_forget : Text → Bool
unfolding is_any
is_mem_forget path = is_any path forget_paths

abbrev pub realloc_paths : List String
realloc_paths =
    "std::alloc::realloc" ∷ "core::alloc::realloc" ∷ "alloc::alloc::realloc" ∷ "__rust_realloc" ∷ []

abbrev pub realloc_ends : List String
realloc_ends = "Allocator::grow" ∷ "Allocator::grow_zeroed" ∷ "Allocator::shrink" ∷ []

unfoldable pub is_raw_realloc : Text → Bool
unfolding is_any ends_with_any
is_raw_realloc path = is_any path realloc_paths || ends_with_any path realloc_ends

abbrev pub pointer_types : List String
pointer_types = "const_ptr" ∷ "mut_ptr" ∷ "NonNull" ∷ []

abbrev pub read_paths : List String
read_paths = "ptr::read" ∷ "ptr::read_unaligned" ∷ []

abbrev pub read_ends : List String
read_ends = "::read" ∷ "::read_unaligned" ∷ []

abbrev pub manually_drop_ends : List String
manually_drop_ends = "::new" ∷ "::take" ∷ "::into_inner" ∷ []

unfoldable pub is_ptr_read : Text → Bool
unfolding ends_with_any has_any has_text
is_ptr_read path =
    ends_with_any path read_paths
    || has_any path pointer_types && ends_with_any path read_ends
    || has_text path (codes "ManuallyDrop") && ends_with_any path manually_drop_ends
