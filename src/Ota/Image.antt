-- ===== src/Ota/Image.antt =====
-- `OTAFirmwareImage` of looktech_glasses_sdk/ota_client.py. `zlib.crc32` is a parameter.
pub mod Bounds
use edu_glasses_host.Base.{
  ℕ, zero, suc, ◌+◌, ◌*◌, Bool, not, ◌||◌, List, [], ◌∷◌, ltb, leb, ◌==◌, if◌then◌else◌, length,
  take, Result, ok, err, ◌>>=◌, ◌>>◌, raise_if,
}
use edu_glasses_host.Base.Bytes.{Bytes, byte_at, le_at, le}

pub record ModuleHeader : Type 0 where
  pub module_type : ℕ
  pub start_offset : ℕ
  pub size : ℕ
  pub version : ℕ
  pub crc : ℕ

-- `content` is the source's `data`.
pub record FirmwareImage : Type 0 where
  pub product_id : ℕ
  pub version : ℕ
  pub file_len : ℕ
  pub modules : List ModuleHeader
  pub content_crc : ℕ
  pub header_crc : ℕ
  pub header_info : Bytes
  pub content : Bytes

-- The `ValueError`s of `parse`.
pub data ImageError : Type 0 where
  image_too_short : ImageError
  bad_module_count : ImageError
  header_truncated : ImageError
  bad_file_len : ImageError
  bad_module_type : ℕ → ImageError
  module_exceeds : ℕ → ImageError
  bad_header_crc : ImageError

abbrev pub header_at : Bytes → ℕ → ModuleHeader
header_at input off = record {
  module_type = byte_at input off;
  start_offset = le_at 4 input (off + 1);
  size = le_at 4 input (off + 5);
  version = le_at 8 input (off + 9);
  crc = le_at 4 input (off + 17);
}

-- The passes of the loop from the header with number `i` on, with `n` to go.
unfoldable pub parse_modules : Bytes → ℕ → ℕ → ℕ → Result ImageError (List ModuleHeader)
parse_modules input file_len i zero = ok []
parse_modules input file_len i (suc n) =
    let header = header_at input (32 + i * 32) in
    do
      raise_if (leb header.module_type 0 || leb 4 header.module_type) (bad_module_type i)
      raise_if (ltb file_len (header.start_offset + header.size)) (module_exceeds i)
      rest ← parse_modules input file_len (i + 1) n
      ok (header ∷ rest)

abbrev pub header_size : ℕ → ℕ
header_size module_count = 32 + module_count * 32

module _ (crc32 : Bytes → ℕ) where
  unfoldable pub parse_image : Bytes → Result ImageError FirmwareImage
  unfolding parse_modules
  parse_image input =
      let file_len = le_at 4 input 16 in
      let module_count = byte_at input 20 in
      let size = header_size module_count in
      do
        raise_if (ltb (length input) 72) image_too_short
        raise_if (leb module_count 0 || leb 4 module_count) bad_module_count
        raise_if (ltb (length input) (size + 8)) header_truncated
        raise_if (ltb (length input) file_len) bad_file_len
        modules ← parse_modules input file_len 0 module_count
        raise_if (not (crc32 (take (size + 4) input) == le_at 4 input (size + 4))) bad_header_crc
        ok (record {
          product_id = le_at 8 input 0;
          version = le_at 8 input 8;
          file_len = file_len;
          modules = modules;
          content_crc = le_at 4 input size;
          header_crc = le_at 4 input (size + 4);
          header_info = take (size + 8) input;
          content = take file_len input;
        })
