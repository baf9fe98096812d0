-- ===== src/Ota/Image/Bounds.antt =====
-- What an accepted image guarantees.
use edu_glasses_host.Base.{
  ℕ, zero, suc, ◌+◌, ◌*◌, ◌≤◌, ◌≡◌, refl, ap, ◌∙◌, subst, not, ◌||◌, List, [], ◌∷◌, ◌==◌, ltb, leb,
  length, length-take, take, take-take, All, ok, raise_if, raise_if-ok, bind-eq-ok, arith,
}
use edu_glasses_host.Base.Bytes.{Bytes, byte_at, le_at}
use edu_glasses_host.Ota.Image.{
  ModuleHeader, FirmwareImage, image_too_short, bad_module_count, header_truncated, bad_file_len,
  bad_module_type, module_exceeds, bad_header_crc, header_at, parse_modules, header_size,
  parse_image,
}

-- A module of a known type whose bytes are all in the file.
abbrev pub Within : ℕ → ModuleHeader → Type 0
Within file_len m = (1 ≤ m.module_type) × (m.module_type ≤ 3) × (m.start_offset + m.size ≤ file_len)

-- An image that can be sent: one to three modules within the content, which is all there, and a
-- header whose checksum holds.
pub record IsSound (crc32 : Bytes → ℕ) (image : FirmwareImage) : Type 0 where
  pub some_modules : 1 ≤ length image.modules
  pub few_modules : length image.modules ≤ 3
  pub modules_within : All (Within image.file_len) image.modules
  pub content_whole : length image.content ≡ image.file_len
  pub header_whole : length image.header_info ≡ 40 + 32 * length image.modules
  pub header_checked :
      crc32 (take (36 + 32 * length image.modules) image.header_info) ≡ image.header_crc

parse_modules-Within :
    (input : Bytes) (file_len i n : ℕ) (modules : List ModuleHeader)
    → parse_modules input file_len i n ≡ ok modules
    → All (Within file_len) modules × (length modules ≡ n)
unfolding parse_modules
parse_modules-Within input file_len i zero modules h =
    let none_left : [] ≡ modules = cc in
    subst (λ ms. All (Within file_len) ms × (length ms ≡ 0)) none_left (tt, refl)
parse_modules-Within input file_len i (suc n) modules h =
    let header = header_at input (32 + i * 32) in
    let (u, hu, h1) =
      bind-eq-ok
        (raise_if (leb header.module_type 0 || leb 4 header.module_type) (bad_module_type i)) _ h in
    let (v, hv, h2) =
      bind-eq-ok (raise_if (ltb file_len (header.start_offset + header.size)) (module_exceeds i)) _
        h1 in
    let (rest, hr, h3) = bind-eq-ok (parse_modules input file_len (i + 1) n) _ h2 in
    let kind = raise_if-ok _ (bad_module_type i) u hu in
    let place = raise_if-ok _ (module_exceeds i) v hv in
    let within : Within file_len header = ground (arith, kind, place) in
    let (all, count) = parse_modules-Within input file_len (i + 1) n rest hr in
    let same : header ∷ rest ≡ modules = cc in
    subst (λ ms. All (Within file_len) ms × (length ms ≡ suc n)) same
      ((within, all), omega (arith, count))

-- An image that `parse` accepts can be sent: each module's offset and length stay within the file,
-- the file is all there, and the checksum of the header holds.
pub parse_image-IsSound :
    (crc32 : Bytes → ℕ) (input : Bytes) (image : FirmwareImage)
    → parse_image crc32 input ≡ ok image
    → IsSound crc32 image
unfolding parse_image
parse_image-IsSound crc32 input image h =
    let file_len = le_at 4 input 16 in
    let count = byte_at input 20 in
    let size = header_size count in
    let (a, ha, h1) = bind-eq-ok (raise_if (ltb (length input) 72) image_too_short) _ h in
    let (b, hb, h2) = bind-eq-ok (raise_if (leb count 0 || leb 4 count) bad_module_count) _ h1 in
    let (c, hc, h3) = bind-eq-ok (raise_if (ltb (length input) (size + 8)) header_truncated) _ h2 in
    let (d, hd, h4) = bind-eq-ok (raise_if (ltb (length input) file_len) bad_file_len) _ h3 in
    let (modules, hm, h5) = bind-eq-ok (parse_modules input file_len 0 count) _ h4 in
    let (e, he, h6) =
      bind-eq-ok
        (raise_if (not (crc32 (take (size + 4) input) == le_at 4 input (size + 4))) bad_header_crc)
        _ h5 in
    let found : FirmwareImage = record {
      product_id = le_at 8 input 0;
      version = le_at 8 input 8;
      file_len = file_len;
      modules = modules;
      content_crc = le_at 4 input size;
      header_crc = le_at 4 input (size + 4);
      header_info = take (size + 8) input;
      content = take file_len input;
    } in
    let same : found ≡ image = cc in
    let (within, counted) = parse_modules-Within input file_len 0 count modules hm in
    let known = raise_if-ok _ bad_module_count b hb in
    let headed = raise_if-ok _ header_truncated c hc in
    let whole = raise_if-ok _ bad_file_len d hd in
    let crc_size : 36 + 32 * length modules ≡ size + 4 = omega (arith, counted) in
    let checked : crc32 (take (size + 4) input) ≡ le_at 4 input (size + 4) =
      ground (arith, raise_if-ok _ bad_header_crc e he) in
    subst (IsSound crc32) same (record {
      some_modules = ground (arith, known, counted);
      few_modules = ground (arith, known, counted);
      modules_within = within;
      content_whole = ground (arith, length-take file_len input, whole);
      header_whole = ground (arith, length-take (size + 8) input, headed, counted);
      header_checked =
          ap crc32 (
            take-take (36 + 32 * length modules) (size + 8) input (omega arith)
            ∙ ap (λ (k : ℕ). take k input) crc_size)
          ∙ checked;
    })
