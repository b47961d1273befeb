-- ===== src/Wire/Io.antt =====
-- I/O errors over the wire: src/protocol/grpc/errors/io_error.rs. A `std::io::Error` is its kind
-- and the text that it displays; `unlisted` stands for the kinds that the source does not name.
use Prim.Native.String.{String}
use datafusion_distributed.Prelude.{ℕ, ◌≡◌, refl, ap, List, [], ◌∷◌, nth_or}

pub data ErrorKind : Type 0 where
  not_found permission_denied connection_refused connection_reset host_unreachable : ErrorKind
  network_unreachable connection_aborted not_connected addr_in_use : ErrorKind
  addr_not_available network_down broken_pipe already_exists would_block : ErrorKind
  not_a_directory is_a_directory directory_not_empty read_only_filesystem : ErrorKind
  stale_network_file_handle invalid_input invalid_data timed_out write_zero : ErrorKind
  storage_full not_seekable file_too_large resource_busy executable_file_busy : ErrorKind
  deadlock too_many_links argument_list_too_long interrupted unsupported : ErrorKind
  unexpected_eof out_of_memory other unlisted : ErrorKind

pub record IoError : Type 0 where
  pub kind : ErrorKind
  pub display : String

-- `i32`
pub data ℤ : Type 0 where
  pos negsuc : ℕ → ℤ

pub record IoErrorProto : Type 0 where
  pub msg : String
  pub code : ℤ
  pub err : String

unfoldable pub kind_code : ErrorKind → ℤ
kind_code not_found = pos 0
kind_code permission_denied = pos 1
kind_code connection_refused = pos 2
kind_code connection_reset = pos 3
kind_code host_unreachable = pos 4
kind_code network_unreachable = pos 5
kind_code connection_aborted = pos 6
kind_code not_connected = pos 7
kind_code addr_in_use = pos 8
kind_code addr_not_available = pos 9
kind_code network_down = pos 10
kind_code broken_pipe = pos 11
kind_code already_exists = pos 12
kind_code would_block = pos 13
kind_code not_a_directory = pos 14
kind_code is_a_directory = pos 15
kind_code directory_not_empty = pos 16
kind_code read_only_filesystem = pos 17
kind_code stale_network_file_handle = pos 18
kind_code invalid_input = pos 19
kind_code invalid_data = pos 20
kind_code timed_out = pos 21
kind_code write_zero = pos 22
kind_code storage_full = pos 23
kind_code not_seekable = pos 24
kind_code file_too_large = pos 25
kind_code resource_busy = pos 26
kind_code executable_file_busy = pos 27
kind_code deadlock = pos 28
kind_code too_many_links = pos 29
kind_code argument_list_too_long = pos 30
kind_code interrupted = pos 31
kind_code unsupported = pos 32
kind_code unexpected_eof = pos 33
kind_code out_of_memory = pos 34
kind_code other = pos 35
kind_code unlisted = negsuc 0

-- the arms of `to_io_error` from 0 on
abbrev listed_kinds : List ErrorKind
listed_kinds =
    not_found ∷ permission_denied ∷ connection_refused ∷ connection_reset ∷ host_unreachable
    ∷ network_unreachable ∷ connection_aborted ∷ not_connected ∷ addr_in_use ∷ addr_not_available
    ∷ network_down ∷ broken_pipe ∷ already_exists ∷ would_block ∷ not_a_directory ∷ is_a_directory
    ∷ directory_not_empty ∷ read_only_filesystem ∷ stale_network_file_handle ∷ invalid_input
    ∷ invalid_data ∷ timed_out ∷ write_zero ∷ storage_full ∷ not_seekable ∷ file_too_large
    ∷ resource_busy ∷ executable_file_busy ∷ deadlock ∷ too_many_links ∷ argument_list_too_long
    ∷ interrupted ∷ unsupported ∷ unexpected_eof ∷ out_of_memory ∷ other ∷ []

unfoldable pub code_kind : ℤ → ErrorKind
code_kind (pos n) = nth_or other listed_kinds n
code_kind (negsuc n) = other

unfoldable pub from_io_error : String → IoError → IoErrorProto
from_io_error msg e = record { msg = msg; code = kind_code e.kind; err = e.display }

unfoldable pub to_io_error : IoErrorProto → IoError × String
to_io_error p = (record { kind = code_kind p.code; display = p.err }, p.msg)

-- What arrives of a kind: all but the unlisted ones.
unfoldable pub kind_arrives : ErrorKind → ErrorKind
kind_arrives unlisted = other
kind_arrives k = k

pub code_kind-kind_code : (k : ErrorKind) → code_kind (kind_code k) ≡ kind_arrives k
unfolding code_kind kind_code kind_arrives
code_kind-kind_code unlisted = refl
code_kind-kind_code k = refl

unfoldable pub io_arrives : IoError → IoError
unfolding kind_arrives
io_arrives e = record e { kind = kind_arrives e.kind }

pub io_over_wire :
    (msg : String) (e : IoError) → to_io_error (from_io_error msg e) ≡ (io_arrives e, msg)
unfolding to_io_error from_io_error io_arrives
io_over_wire msg e =
    ap (λ k. (record { kind = k; display = e.display }, msg)) (code_kind-kind_code e.kind)

pub kind_arrives_idem : (k : ErrorKind) → kind_arrives (kind_arrives k) ≡ kind_arrives k
unfolding kind_arrives
kind_arrives_idem unlisted = refl
kind_arrives_idem k = refl

pub io_arrives_idem : (e : IoError) → io_arrives (io_arrives e) ≡ io_arrives e
unfolding io_arrives
io_arrives_idem e = ap (λ k. record { kind = k; display = e.display }) (kind_arrives_idem e.kind)
