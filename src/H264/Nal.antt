-- ===== src/H264/Nal.antt =====
-- Annex B units of src/vaapi_advc/advc_h264_annexb.c: `append_annexb_nal`, `annexb_prefix_size`,
-- `init_slice_reader` and `advc_h264_parse_slice_identity`. An array of bytes with its size is a list.
pub mod Escape
use lin_de_x.Base.{
  ℕ, zero, suc, ◌+◌, ◌*◌, ◌-◌, ◌/◌, ◌%◌, ltb, leb, ◌==◌, ◌!=◌, ◌&&◌, ◌||◌, not, Bool, true, false,
  List, [], ◌∷◌, ◌++◌, length, if◌then◌else◌, Result, ok, err, ◌>>=◌, ◌>>◌, guard, einval,
  eoverflow, enotsup, get_or,
}
use lin_de_x.Protocol.Wire.{Buffer}
use lin_de_x.H264.Bits.{Writer, Reader, read_ue}

-- The `count` bytes of an array from `o` on.
unfoldable pub bytes_from : Buffer → ℕ → ℕ → List ℕ
bytes_from input o zero = []
bytes_from input o (suc count) = input o ∷ bytes_from input (o + 1) count

-- An array that holds the bytes and is cleared behind them.
unfoldable pub array_of : List ℕ → Buffer
array_of [] i = 0
array_of (b ∷ bs) zero = b
array_of (b ∷ bs) (suc i) = array_of bs i

-- `if (byte == 0) ++zero_count; else zero_count = 0;`
unfoldable pub count_zero : ℕ → ℕ → ℕ
count_zero zero_count byte = if byte == 0 then zero_count + 1 else 0

-- `output[output_size++] = byte` where there is room, with what is written behind it.
unfoldable pub emit : ℕ → ℕ → ℕ → Result (List ℕ) → Result (List ℕ)
emit capacity size byte rest =
    if leb capacity size then err eoverflow else (rest >>= λ out. ok (byte ∷ out))

-- The loop of `append_annexb_nal`: what it writes at `size`.
unfoldable pub append_loop : ℕ → ℕ → ℕ → List ℕ → Result (List ℕ)
append_loop capacity size zero_count [] = ok []
append_loop capacity size zero_count (byte ∷ rest) =
    let plain = append_loop capacity (size + 1) (count_zero zero_count byte) rest in
    let escaped = append_loop capacity (size + 2) (count_zero 0 byte) rest in
    if leb 2 zero_count && leb byte 3
    then emit capacity size 3 (emit capacity (size + 1) byte escaped)
    else emit capacity size byte plain

-- The output is the bytes written so far.
unfoldable pub append_annexb_nal : ℕ → List ℕ → ℕ → Writer → Result (List ℕ)
append_annexb_nal capacity output nal_header rbsp =
    let size = length output in
    if rbsp.bit_count % 8 != 0
    then err einval
    else if ltb capacity size || ltb (capacity - size) 5
    then err eoverflow
    else (append_loop capacity (size + 5) 0 (bytes_from rbsp.bytes 0 (rbsp.bit_count / 8))
        >>= λ out. ok (output ++ (0 ∷ 0 ∷ 0 ∷ 1 ∷ nal_header ∷ out)))

-- A start code at the front, with what follows it.
unfoldable pub annexb_prefix_size : List ℕ → ℕ
annexb_prefix_size input =
    let size = length input in
    let at = λ (i : ℕ). get_or input i 0 in
    if leb 4 size && at 0 == 0 && at 1 == 0 && at 2 == 0 && at 3 == 1
    then 4
    else if leb 3 size && at 0 == 0 && at 1 == 0 && at 2 == 1
    then 3
    else 0

unfoldable pub drop_bytes : ℕ → List ℕ → List ℕ
drop_bytes zero input = input
drop_bytes (suc n) [] = []
drop_bytes (suc n) (b ∷ input) = drop_bytes n input

-- The loop of `init_slice_reader`: what it copies into the `room` bytes that are left.
unfoldable pub unescape : ℕ → ℕ → List ℕ → List ℕ
unescape room zero_count [] = []
unescape zero zero_count (byte ∷ rest) = []
unescape (suc room) zero_count (byte ∷ rest) =
    let skipped = unescape (suc room) 0 rest in
    let taken = unescape room (count_zero zero_count byte) rest in
    if leb 2 zero_count && byte == 3 then skipped else byte ∷ taken

-- sizeof(reader->input)
abbrev pub reader_bytes : ℕ
reader_bytes = 128

unfoldable pub reader_of : List ℕ → Reader
reader_of bytes = record { bytes = array_of bytes; size = length bytes; bit_offset = 0 }

unfoldable pub init_payload : ℕ → List ℕ → Result (ℕ × Reader)
init_payload nal_header payload =
    let type = nal_header % 32 in
    let bytes = unescape reader_bytes 0 payload in
    if nal_header / 128 % 2 != 0 || (type != 1 && type != 5)
    then err enotsup
    else if length bytes == 0
    then err einval
    else ok (nal_header, reader_of bytes)

-- The header of the unit and a reader of what follows it.
unfoldable pub init_slice_reader : List ℕ → Result (ℕ × Reader)
init_slice_reader input = elim (drop_bytes (annexb_prefix_size input) input) [
  | [] ↦ err einval
  | nal_header ∷ payload ↦ init_payload nal_header payload
]

pub record SliceIdentity : Type 0 where
  pub first_mb_in_slice : ℕ
  pub slice_type : ℕ
  pub pps_id : ℕ
  pub is_idr : Bool

unfoldable pub parse_slice_identity : List ℕ → Result SliceIdentity
parse_slice_identity input = init_slice_reader input >>= λ (h : ℕ × Reader).
    read_ue h.1 >>= λ (a : ℕ × Reader). read_ue a.1 >>= λ (b : ℕ × Reader).
    read_ue b.1 >>= λ (c : ℕ × Reader).
    if ltb 9 b.0 || ltb 255 c.0
    then err enotsup
    else ok
        record { first_mb_in_slice = a.0; slice_type = b.0; pps_id = c.0; is_idr = h.0 % 32 == 5 }
